-- ===== src/Watch/Handled.antt =====
-- invokeTask of watch/handler.go around Run of internal/handlertask/task.go, run after run: what becomes of
-- a pending file.
use mathlib.Core.Option
use baamhackl.Base.{
  ℕ, zero, suc, ◌+◌, ◌<◌, ◌≤◌, true, false, ◌≡◌, refl, sym, ◌∙◌, subst, Option, none, some, inl,
  inr, if◌then◌else◌, arith, Bool-cases, Option-cases,
}
use baamhackl.Base.Int.{pos}
use baamhackl.Scheduler.{GoError}
use baamhackl.FilePaths.{FilePath}
use baamhackl.Handler.Attempt.{Errors}
use baamhackl.Handler.Retry.{FloatOps, RetryConfig}
use baamhackl.Handler.Task.{Calls, HandlerTask, new_task, run}
use baamhackl.Handler.Task.Attempts.{is_finished, IsSmall, runs, new_task-bound}
use baamhackl.Watch.{Handler, invoked, lookup, delete, report_final_task_status, report_task_retry}
use baamhackl.Watch.Pending.Names.{lookup-delete}

module _ {W F G : Type 0} (calls : Calls W) (fl : FloatOps F) (fl32 : FloatOps G)
    (text : Errors → ℕ) (cfg : RetryConfig F) (fuzz_factor : G) (drawn : ℕ → G)
    (name : FilePath) where
  -- The handler after the runs of the task, each followed by the rest of invokeTask, until the scheduler
  -- drops the task; none at the end of the fuel.
  unfoldable pub handled : ℕ → HandlerTask F → W → Handler → Option Handler
  unfolding run is_finished
  handled zero t w h = none
  handled (suc n) t w h =
      let (w', t', result) = run calls fl fl32 text cfg fuzz_factor (drawn t.current_attempt) t w in
      let h' = invoked h name result in
      let rest = handled n t' w' h' in if is_finished result then some h' else rest

  invoked-finished :
      (h : Handler) (result : Option GoError)
      → is_finished result ≡ true
      → invoked h name result
        ≡ record h { mc = report_final_task_status h.mc result; pending = delete name h.pending }
  unfolding invoked is_finished
  invoked-finished h result e = rw (e, invoked) refl

  invoked-retried :
      (h : Handler) (result : Option GoError)
      → is_finished result ≡ false
      → invoked h name result ≡ record h { mc = report_task_retry h.mc }
  unfolding invoked is_finished
  invoked-retried h result e = rw (e, invoked) refl

  -- After k runs: the file is not pending, k - 1 retries and one end have been counted.
  abbrev pub IsHandled : Handler → ℕ → Handler → Type 0
  IsHandled h k h' =
      (h'.pending ≡ delete name h.pending)
      × (lookup name h'.pending ≡ none)
      × (suc h'.mc.retries ≡ h.mc.retries + k)
      × (h'.mc.finished ≡ suc h.mc.finished)
      × (h'.mc.file_changes ≡ h.mc.file_changes)

  finished-IsHandled :
      (h : Handler) (result : Option GoError)
      → is_finished result ≡ true
      → IsHandled h 1 (invoked h name result)
  unfolding report_final_task_status
  finished-IsHandled h none e =
      rw (invoked-finished h none e)
        (refl, lookup-delete name h.pending, omega arith, omega arith, refl)
  finished-IsHandled h (some x) e =
      rw (invoked-finished h (some x) e)
        (refl, lookup-delete name h.pending, omega arith, omega arith, refl)

  retried-IsHandled :
      (h h' : Handler) (result : Option GoError) (k : ℕ)
      → is_finished result ≡ false
      → IsHandled (invoked h name result) k h'
      → IsHandled h (suc k) h'
  unfolding report_task_retry
  retried-IsHandled h h' result k e done =
      let (p, q, retries, finished, changed) = rw (invoked-retried h result e) at done in
      (p, q, omega (arith, retries), finished, changed)

  handled-finished :
      (n : ℕ) (t : HandlerTask F) (w : W) (h : Handler)
      → is_finished (run calls fl fl32 text cfg fuzz_factor (drawn t.current_attempt) t w).2 ≡ true
      → handled (suc n) t w h
        ≡ some (
            invoked h name (run calls fl fl32 text cfg fuzz_factor (drawn t.current_attempt) t w).2)
  unfolding handled
  handled-finished n t w h e = rw (e, handled) refl

  handled-retried :
      (n : ℕ) (t : HandlerTask F) (w : W) (h : Handler)
      → is_finished (run calls fl fl32 text cfg fuzz_factor (drawn t.current_attempt) t w).2 ≡ false
      → handled (suc n) t w h
        ≡ handled n
            (run calls fl fl32 text cfg fuzz_factor (drawn t.current_attempt) t w).1
            (run calls fl fl32 text cfg fuzz_factor (drawn t.current_attempt) t w).0
            (invoked h name
              (run calls fl fl32 text cfg fuzz_factor (drawn t.current_attempt) t w).2)
  unfolding handled
  handled-retried n t w h e = rw (e, handled) refl

  runs-zero :
      (t : HandlerTask F) (w : W) (k : ℕ)
      → runs calls fl fl32 text cfg fuzz_factor drawn 0 t w ≡ some k
      → ⊥
  unfolding runs
  runs-zero t w k e = cc

  runs-finished_one :
      (n : ℕ) (t : HandlerTask F) (w : W) (k : ℕ)
      → is_finished (run calls fl fl32 text cfg fuzz_factor (drawn t.current_attempt) t w).2 ≡ true
      → runs calls fl fl32 text cfg fuzz_factor drawn (suc n) t w ≡ some k
      → k ≡ 1
  unfolding runs
  runs-finished_one n t w k f e =
      let p = rw (f, runs) at e in sym (Option.some-injective {A = ℕ} _ _ p)

  runs-retried :
      (n : ℕ) (t : HandlerTask F) (w : W) (k : ℕ)
      → is_finished (run calls fl fl32 text cfg fuzz_factor (drawn t.current_attempt) t w).2 ≡ false
      → runs calls fl fl32 text cfg fuzz_factor drawn (suc n) t w ≡ some k
      → (j : ℕ) × (k ≡ suc j)
        × (runs calls fl fl32 text cfg fuzz_factor drawn n
              (run calls fl fl32 text cfg fuzz_factor (drawn t.current_attempt) t w).1
              (run calls fl fl32 text cfg fuzz_factor (drawn t.current_attempt) t w).0
            ≡ some j)
  unfolding runs
  runs-retried n t w k f e =
      elim (Option-cases (
        runs calls fl fl32 text cfg fuzz_factor drawn n
          (run calls fl fl32 text cfg fuzz_factor (drawn t.current_attempt) t w).1
          (run calls fl fl32 text cfg fuzz_factor (drawn t.current_attempt) t w).0)) [
            | inl r ↦ absurd (let p = rw (f, r, runs) at e in cc)
            | inr (j, r) ↦
                let p = rw (f, r, runs) at e in (j, sym (Option.some-injective {A = ℕ} _ _ p), r)
          ]

  handled-runs :
      (n : ℕ) (t : HandlerTask F) (w : W) (h : Handler) (k : ℕ)
      → runs calls fl fl32 text cfg fuzz_factor drawn n t w ≡ some k
      → (h' : Handler) × (handled n t w h ≡ some h') × IsHandled h k h'
  handled-runs zero t w h k e = absurd (runs-zero t w k e)
  handled-runs (suc n) t w h k e =
      let result = (run calls fl fl32 text cfg fuzz_factor (drawn t.current_attempt) t w).2 in
      elim (Bool-cases (is_finished result)) [
        | inl f ↦ (
          invoked h name result,
          handled-finished n t w h f,
          rw (runs-finished_one n t w k f e) (finished-IsHandled h result f),
        )
        | inr f ↦
            let (j, is_suc, r) = runs-retried n t w k f e in
            let (h', p, done) =
              handled-runs n
                (run calls fl fl32 text cfg fuzz_factor (drawn t.current_attempt) t w).1
                (run calls fl fl32 text cfg fuzz_factor (drawn t.current_attempt) t w).0
                (invoked h name result) j r in
            (
              h',
              handled-retried n t w h f ∙ p,
              subst (λ m. IsHandled h m h') (sym is_suc) (retried-IsHandled h h' result j f done),
            )
      ]

-- A file that got a new task is not pending any more after at least one run and at most one more than the
-- configured retries, whatever the attempts return. The runs but the last are counted as retries, and the
-- last as one finished task. It takes that the fuzz added to the duration Stop, of -1 ns, is less than
-- 1 ns.
pub new_task-IsHandled :
    {W F G : Type 0} (calls : Calls W) (fl : FloatOps F) (fl32 : FloatOps G) (text : Errors → ℕ)
    (cfg : RetryConfig F) (fuzz_factor : G) (drawn : ℕ → G) (name : FilePath) (count : ℕ) (w : W)
    (h : Handler)
    → ((n : ℕ) → IsSmall fl32 fuzz_factor (drawn n))
    → cfg.retry_count ≡ pos count
    → (k : ℕ) × (0 < k)
      × (k ≤ suc count)
      × ((h' : Handler) × (handled calls fl fl32 text cfg fuzz_factor drawn name
              (suc count)
              new_task
              w
              h
            ≡ some h')
          × IsHandled calls fl fl32 text cfg fuzz_factor drawn name h k h')
new_task-IsHandled calls fl fl32 text cfg fuzz_factor drawn name count w h small e =
    let (k, returns, positive, bound) =
      new_task-bound calls fl fl32 text cfg fuzz_factor drawn count w small e in
    (
      k,
      positive,
      bound,
      handled-runs calls fl fl32 text cfg fuzz_factor drawn name (suc count) new_task w h k returns,
    )
