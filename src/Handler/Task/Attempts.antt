-- ===== src/Handler/Task/Attempts.antt =====
-- How often Run of internal/handlertask/task.go is called for one changed file.
use baamhackl.Base.{
  ℕ, zero, suc, ◌+◌, ◌<◌, ◌≤◌, Bool, true, false, ◌||◌, ◌≡◌, refl, ◌∙◌, ap, Option, none, some, [],
  ◌∷◌, inl, inr, if◌then◌else◌, arith, Bool-cases, Option-cases, ◌⊎◌,
}
use baamhackl.Base.Int.{pos, negsuc, pos_part, neg_part, pred_ℤ}
use baamhackl.Scheduler.{
  GoError, plain, task_error, as_task_error, is_permanent, classify, find_task_error, stop_delay,
}
use baamhackl.Handler.Attempt.{Errors}
use baamhackl.Handler.Retry.{FloatOps, RetryConfig, Strategy, new, advance, current, random}
use baamhackl.Handler.Task.{
  Calls, HandlerTask, new_task, ensure_journal_dir, strategy, conclude, error_of, has_none, run,
}

-- Whether the scheduler and the handler are done with a task after this result of its run.
unfoldable pub is_finished : Option GoError → Bool
unfolding is_permanent as_task_error
is_finished result = is_permanent (as_task_error result)

-- The fuzz on a duration of -1 ns is less than 1 ns, so as a duration it is 0.
abbrev pub IsSmall : {F : Type 0} → FloatOps F → F → F → Type 0
IsSmall fl fuzz_factor drawn =
    fl.to_duration (
      fl.mul (fl.add (fl.neg (fl.half fuzz_factor)) (fl.mul fuzz_factor drawn))
        (fl.of_duration (negsuc 0)))
    ≡ pos 0

module _ {W F G : Type 0} (calls : Calls W) (fl : FloatOps F) (fl32 : FloatOps G)
    (text : Errors → ℕ) (cfg : RetryConfig F) (fuzz_factor : G) (drawn : ℕ → G) where
  -- The runs of a task until it is finished, as the scheduler makes them: how many there are, none at
  -- the end of the fuel. `drawn` holds the random numbers, by attempt.
  unfoldable pub runs : ℕ → HandlerTask F → W → Option ℕ
  unfolding run is_finished
  runs zero t w = none
  runs (suc n) t w =
      let (w', t', result) = run calls fl fl32 text cfg fuzz_factor (drawn t.current_attempt) t w in
      let rest = runs n t' w' in
      if is_finished result then some 1 else elim rest [ none ↦ none | some k ↦ some (suc k) ]

  ensure_journal_dir-retry :
      (t : HandlerTask F) (w : W) → (ensure_journal_dir calls t w).1.retry ≡ t.retry
  unfolding ensure_journal_dir
  ensure_journal_dir-retry t w = grind arith

  advance-remaining :
      (r : Strategy F) (m : ℕ) → r.remaining ≡ pos (suc m) → (advance fl r).remaining ≡ pos m
  unfolding advance
  advance-remaining r m e =
      let counted : pred_ℤ r.remaining ≡ pos m = ap pred_ℤ e in
      ground (arith, counted, ap pos_part e, ap neg_part e)

  -- An error without a TaskError in it finishes the task.
  error_of-is_finished : (es : Errors) → is_finished (error_of text es) ≡ true
  unfolding is_finished error_of is_permanent as_task_error classify find_task_error
  error_of-is_finished [] = refl
  error_of-is_finished (e ∷ es) = refl

  random-Stop :
      (d : G) → IsSmall fl32 fuzz_factor d → random fl32 d stop_delay fuzz_factor ≡ stop_delay
  unfolding random
  random-Stop d small = rw small refl

  conclude-done :
      (t : HandlerTask F) (r : Strategy F) (d : G) (permanent : Bool) (errs : Errors)
      → (permanent || has_none errs) ≡ true
      → conclude fl fl32 text fuzz_factor d t r permanent errs
        ≡ (record t { retry = some r }, error_of text errs)
  unfolding conclude
  conclude-done t r d permanent errs h = rw (h, conclude) refl

  conclude-retry :
      (t : HandlerTask F) (r : Strategy F) (d : G) (permanent : Bool) (errs : Errors)
      → (permanent || has_none errs) ≡ false
      → conclude fl fl32 text fuzz_factor d t r permanent errs ≡ (
        record t { retry = some (advance fl r) },
        some (task_error (plain (text errs)) (random fl32 d (current r) fuzz_factor)),
      )
  unfolding conclude
  conclude-retry t r d permanent errs h = rw (h, conclude) refl

  current-none : (r : Strategy F) → r.remaining ≡ pos 0 → current r ≡ stop_delay
  unfolding current
  current-none r e = ground (arith, ap pos_part e, ap neg_part e)

  -- With no retries left the task is finished; else it is finished or uses one of them up.
  conclude-uses_up :
      (t : HandlerTask F) (r : Strategy F) (d : G) (permanent : Bool) (errs : Errors) (left : ℕ)
      → IsSmall fl32 fuzz_factor d
      → r.remaining ≡ pos left
      → (is_finished (conclude fl fl32 text fuzz_factor d t r permanent errs).1 ≡ true)
        ⊎ ((m : ℕ) × (left ≡ suc m)
            × ((strategy cfg (conclude fl fl32 text fuzz_factor d t r permanent errs).0).remaining
                ≡ pos m))
  unfolding strategy is_finished is_permanent as_task_error classify find_task_error
  conclude-uses_up t r d permanent errs zero small e =
      elim (Bool-cases (permanent || has_none errs)) [
        | inl h ↦ inl (rw (conclude-done t r d permanent errs h) (error_of-is_finished errs))
        | inr h ↦
            let stopped : random fl32 d (current r) fuzz_factor ≡ stop_delay =
              ap (λ z. random fl32 d z fuzz_factor) (current-none r e) ∙ random-Stop d small in
            rw (conclude-retry t r d permanent errs h) (inl (rw stopped refl))
      ]
  conclude-uses_up t r d permanent errs (suc m) small e =
      elim (Bool-cases (permanent || has_none errs)) [
        | inl h ↦ inl (rw (conclude-done t r d permanent errs h) (error_of-is_finished errs))
        | inr h ↦
            rw (conclude-retry t r d permanent errs h) (inr (m, refl, advance-remaining r m e))
      ]

  strategy-retry : (t u : HandlerTask F) → t.retry ≡ u.retry → strategy cfg t ≡ strategy cfg u
  unfolding strategy
  strategy-retry t u e = rw e refl

  run-uses_up :
      (t : HandlerTask F) (w : W) (d : G) (left : ℕ)
      → IsSmall fl32 fuzz_factor d
      → (strategy cfg t).remaining ≡ pos left
      → (is_finished (run calls fl fl32 text cfg fuzz_factor d t w).2 ≡ true)
        ⊎ ((m : ℕ) × (left ≡ suc m)
            × ((strategy cfg (run calls fl fl32 text cfg fuzz_factor d t w).1).remaining ≡ pos m))
  unfolding run
  run-uses_up t w d left small e = elim (Option-cases (ensure_journal_dir calls t w).2) [
    | inr (x, h) ↦ inl (rw (h, run) (error_of-is_finished (x ∷ [])))
    | inl h ↦
        rw (h, run)
          (conclude-uses_up
            (record (ensure_journal_dir calls t w).1 {
              current_attempt = (ensure_journal_dir calls t w).1.current_attempt + 1;
            })
            _ d _ _ left small
            (ap (λ (r : Strategy F). r.remaining)
                (strategy-retry (ensure_journal_dir calls t w).1 t (ensure_journal_dir-retry t w))
              ∙ e))
  ]

  runs-finished :
      (n : ℕ) (t : HandlerTask F) (w : W)
      → is_finished (run calls fl fl32 text cfg fuzz_factor (drawn t.current_attempt) t w).2 ≡ true
      → runs (suc n) t w ≡ some 1
  unfolding runs
  runs-finished n t w h = rw (h, runs) refl

  runs-suc :
      (n : ℕ) (t : HandlerTask F) (w : W) (k : ℕ)
      → is_finished (run calls fl fl32 text cfg fuzz_factor (drawn t.current_attempt) t w).2 ≡ false
      → runs n
          (run calls fl fl32 text cfg fuzz_factor (drawn t.current_attempt) t w).1
          (run calls fl fl32 text cfg fuzz_factor (drawn t.current_attempt) t w).0
        ≡ some k
      → runs (suc n) t w ≡ some (suc k)
  unfolding runs
  runs-suc n t w k f h = rw (f, h, runs) refl

  runs-bound :
      (left : ℕ) (t : HandlerTask F) (w : W)
      → ((n : ℕ) → IsSmall fl32 fuzz_factor (drawn n))
      → (strategy cfg t).remaining ≡ pos left
      → (k : ℕ) × (runs (suc left) t w ≡ some k) × (0 < k) × (k ≤ suc left)
  runs-bound zero t w small e =
      elim (run-uses_up t w (drawn t.current_attempt) 0 (small t.current_attempt) e) [
        | inl h ↦ (1, runs-finished 0 t w h, omega arith, omega arith)
        | inr (m, is_suc, rest) ↦ absurd (omega arith)
      ]
  runs-bound (suc left) t w small e =
      let step = run-uses_up t w (drawn t.current_attempt) (suc left) (small t.current_attempt) e in
      let done =
        Bool-cases
          (is_finished (run calls fl fl32 text cfg fuzz_factor (drawn t.current_attempt) t w).2) in
      elim done [
        | inl h ↦ (1, runs-finished (suc left) t w h, omega arith, omega arith)
        | inr h ↦ elim step [
          | inl h' ↦ absurd (cc)
          | inr (m, is_suc, rest) ↦
              let left_is : pos m ≡ pos left = ap pos (omega arith) in
              let (k, returns, positive, bound) =
                runs-bound left
                  (run calls fl fl32 text cfg fuzz_factor (drawn t.current_attempt) t w).1
                  (run calls fl fl32 text cfg fuzz_factor (drawn t.current_attempt) t w).0 small
                  (rest ∙ left_is) in
              (suc k, runs-suc (suc left) t w k h returns, omega arith, omega arith)
        ]
      ]

-- A new task is finished after at least one run and at most one more than the configured retries,
-- whatever its attempts return: the scheduler then drops it. It takes that the fuzz added to the
-- duration Stop, of -1 ns, is less than 1 ns.
pub new_task-bound :
    {W F G : Type 0} (calls : Calls W) (fl : FloatOps F) (fl32 : FloatOps G) (text : Errors → ℕ)
    (cfg : RetryConfig F) (fuzz_factor : G) (drawn : ℕ → G) (count : ℕ) (w : W)
    → ((n : ℕ) → IsSmall fl32 fuzz_factor (drawn n))
    → cfg.retry_count ≡ pos count
    → (k : ℕ) × (runs calls fl fl32 text cfg fuzz_factor drawn (suc count) new_task w ≡ some k)
      × (0 < k)
      × (k ≤ suc count)
unfolding strategy new_task new
new_task-bound calls fl fl32 text cfg fuzz_factor drawn count w small e =
    runs-bound calls fl fl32 text cfg fuzz_factor drawn count new_task w small e
