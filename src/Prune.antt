-- ===== src/Prune.antt =====
-- internal/prune/prune.go: the removal of old entries from a directory. The file system is a state `W`.
-- Logging is left out.
pub mod Removal
mod Tests
use baamhackl.Base.{
  ℕ, Bool, true, false, not, ◌&&◌, Option, none, some, List, [], ◌∷◌, inl, inr, ltb, ◌==◌,
  if◌then◌else◌,
}
use baamhackl.FilePaths.{same_name}
use baamhackl.Waryio.{FilePath, FileInfo, IoError, Result, is_not_exist}
use baamhackl.Handler.Attempt.{Errors, append_into}

-- An entry of the directory: os.FileInfo with its name.
pub record Entry : Type 0 where
  pub name : FilePath
  pub info : FileInfo

-- AcceptFunc
abbrev pub AcceptFunc : Type 0
AcceptFunc = FilePath → FileInfo → Bool

-- lockName, ".prune.lock".
abbrev pub lock_name : FilePath
lock_name = 46 ∷ 112 ∷ 114 ∷ 117 ∷ 110 ∷ 101 ∷ 46 ∷ 108 ∷ 111 ∷ 99 ∷ 107 ∷ []

-- MakeAgeFilter, where `extract` is ExtractTime with the options: an instant, 0 for the zero Time.
unfoldable pub make_age_filter : ℕ → (FilePath → Result ℕ) → AcceptFunc
make_age_filter deadline extract name fi =
    let by_name : Bool = elim (extract name) [
      | inr ts ↦ not (ts == 0) && ltb ts deadline
      | inl e ↦ true
    ] in
    if ltb deadline fi.mod_time then false else by_name

-- What a Pruner calls, with its directory in them: ReadDir, RemoveAll, the error of the context once
-- it is done, and TryLock and Close of the lock.
pub record Calls (W : Type 0) : Type 0 where
  pub read_dir : W → Result (List Entry)
  pub remove_all : W → FilePath → W × Option IoError
  pub context_err : W → Option IoError
  pub try_lock : W → W × Result Bool
  pub close_lock : W → W × Option IoError

-- An error that is to be reported.
unfoldable pub removal_err : Option IoError → Option IoError
unfolding is_not_exist
removal_err none = none
removal_err (some e) = if is_not_exist e then none else some e

-- The loop of runLocked.
unfoldable pub remove_entries :
    {W : Type 0} → Calls W → AcceptFunc → List Entry → W → Errors → W × Errors
unfolding same_name removal_err append_into
remove_entries calls accept [] w errs = (w, errs)
remove_entries calls accept (fi ∷ entries) w errs =
    let (w', err) = calls.remove_all w fi.name in
    let removed = remove_entries calls accept entries w' (append_into errs (removal_err err)) in
    let kept = remove_entries calls accept entries w errs in
    elim (calls.context_err w) [
      | some e ↦ (w, append_into errs (some e))
      | none ↦ if not (same_name fi.name lock_name) && accept fi.name fi.info then removed else kept
    ]

-- runLocked
unfoldable pub run_locked : {W : Type 0} → Calls W → AcceptFunc → W → W × Errors
unfolding remove_entries
run_locked calls accept w = elim (calls.read_dir w) [
  | inl e ↦ (w, e ∷ [])
  | inr entries ↦ remove_entries calls accept entries w []
]

-- Run; `other` holds ErrUnavailable.
unfoldable pub run : {W : Type 0} → Calls W → AcceptFunc → IoError → W → W × Errors
unfolding run_locked append_into
run calls accept unavailable w =
    let (w1, locked) = calls.try_lock w in
    let (w2, errs) = run_locked calls accept w1 in
    let (w3, close_err) = calls.close_lock w2 in
    elim locked [
      | inl e ↦ (w1, e ∷ [])
      | inr false ↦ (w1, unavailable ∷ [])
      | inr true ↦ (w3, append_into errs close_err)
    ]
