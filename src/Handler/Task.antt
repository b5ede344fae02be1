-- ===== src/Handler/Task.antt =====
-- internal/handlertask/task.go: the task that handles one changed file, attempt after attempt, and
-- internal/teelog/teelog.go as far as it decides about errors. Log messages are left out.
pub mod Attempts
use baamhackl.Base.{
  ℕ, zero, suc, ◌+◌, Bool, true, false, ◌||◌, Option, none, some, List, [], ◌∷◌, inl, inr,
  if◌then◌else◌,
}
use baamhackl.Base.Int.{ℤ, pos, negsuc}
use baamhackl.Scheduler.{GoError, plain, task_error}
use baamhackl.Waryio.{FilePath, IoError, Result}
use baamhackl.Handler.Attempt.{Errors, append_into}
use baamhackl.Handler.Retry.{FloatOps, RetryConfig, Strategy, new, advance, current, random}

-- What a task calls: CreateTaskDir of the journal; the opening of the log file in teelog, and its
-- closing with the sync before; EnsureRelDir for an attempt's number below the journal directory;
-- and an attempt with its directory and whether it is the last.
pub record Calls (W : Type 0) : Type 0 where
  pub create_task_dir : W → W × Result FilePath
  pub open_log : W → FilePath → W × Option IoError
  pub close_log : W → W × Option IoError
  pub ensure_attempt_dir : W → FilePath → ℕ → W × Result FilePath
  pub invoke : W → FilePath → Bool → W × Bool × Errors

-- Task, less its options. The journal directory is empty until it is created.
pub record HandlerTask (F : Type 0) : Type 0 where
  pub retry : Option (Strategy F)
  pub current_attempt : ℕ
  pub journal_dir : FilePath

-- New
unfoldable pub new_task : {F : Type 0} → HandlerTask F
new_task = record { retry = none; current_attempt = 0; journal_dir = [] }

-- ensureJournalDir
unfoldable pub ensure_journal_dir :
    {W F : Type 0} → Calls W → HandlerTask F → W → W × HandlerTask F × Option IoError
ensure_journal_dir calls t w = elim t.journal_dir [
  | b ∷ path ↦ (w, t, none)
  | [] ↦
      let (w', created) = calls.create_task_dir w in
      elim created [
        | inl e ↦ (w', t, some e)
        | inr path ↦ (w', record t { journal_dir = path }, none)
      ]
]

-- The strategy of Run, created by its first call.
unfoldable pub strategy : {F : Type 0} → RetryConfig F → HandlerTask F → Strategy F
unfolding new
strategy cfg t = elim t.retry [ none ↦ new cfg | some r ↦ r ]

-- `retryDelay == scheduler.Stop`
abbrev pub is_stop : ℤ → Bool
is_stop (pos n) = false
is_stop (negsuc zero) = true
is_stop (negsuc (suc n)) = false

-- The function that Run hands to the log.
unfoldable pub attempt : {W F : Type 0} → Calls W → HandlerTask F → Bool → W → W × Bool × Errors
attempt calls t final w =
    let (w', ensured) = calls.ensure_attempt_dir w t.journal_dir t.current_attempt in
    elim ensured [ inl e ↦ (w', false, e ∷ []) | inr dir ↦ calls.invoke w' dir final ]

-- (*File).Wrap around that function.
unfoldable pub wrap : {W F : Type 0} → Calls W → HandlerTask F → Bool → W → W × Bool × Errors
unfolding attempt append_into
wrap calls t final w =
    let (w1, open_err) = calls.open_log w t.journal_dir in
    let (w2, permanent, errs) = attempt calls t final w1 in
    let (w3, close_err) = calls.close_log w2 in
    elim open_err [
      | some e ↦ (w1, false, e ∷ [])
      | none ↦ (w3, permanent, append_into errs close_err)
    ]

-- An error value, by a number for its text.
unfoldable pub error_of : (Errors → ℕ) → Errors → Option GoError
error_of text [] = none
error_of text (e ∷ es) = some (plain (text (e ∷ es)))

abbrev pub has_none : Errors → Bool
has_none [] = true
has_none (e ∷ es) = false

-- The end of Run, with the delay from before the attempt, the errors, which `text` numbers, and `drawn`, what rand.Float32 returns.
unfoldable pub conclude :
    {F G : Type 0}
    → FloatOps F
    → FloatOps G
    → (Errors → ℕ)
    → (fuzz_factor drawn : G) → HandlerTask F
    → Strategy F
    → Bool
    → Errors
    → HandlerTask F × Option GoError
unfolding error_of advance random current
conclude fl fl32 text fuzz_factor drawn t r permanent errs =
    if permanent || has_none errs then (record t { retry = some r }, error_of text errs) else (
      record t { retry = some (advance fl r) },
      some (task_error (plain (text errs)) (random fl32 drawn (current r) fuzz_factor)),
    )

-- Run. The count of attempts goes up on every path.
unfoldable pub run :
    {W F G : Type 0}
    → Calls W
    → FloatOps F
    → FloatOps G
    → (Errors → ℕ)
    → RetryConfig F
    → (fuzz_factor drawn : G) → HandlerTask F
    → W
    → W × HandlerTask F × Option GoError
unfolding ensure_journal_dir strategy current wrap error_of conclude
run calls fl fl32 text cfg fuzz_factor drawn t w =
    let (w1, t1, journal_err) = ensure_journal_dir calls t w in
    let counted = record t1 { current_attempt = t1.current_attempt + 1 } in
    let r = strategy cfg t1 in
    let (w2, permanent, errs) = wrap calls t1 (is_stop (current r)) w1 in
    let (t2, result) = conclude fl fl32 text fuzz_factor drawn counted r permanent errs in
    elim journal_err [ some e ↦ (w1, counted, error_of text (e ∷ [])) | none ↦ (w2, t2, result) ]
