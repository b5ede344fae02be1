-- ===== src/Handler/Attempt.antt =====
-- internal/handlerattempt/handlerattempt.go: one attempt to handle a changed file.
pub mod Outcome
use baamhackl.Base.{
  ℕ, Bool, true, false, not, ◌&&◌, ◌||◌, Option, none, some, List, [], ◌∷◌, ◌++◌, inl, inr, ◌==◌,
  if◌then◌else◌,
}
use baamhackl.Waryio.{
  FilePath, FileInfo, IoError, vanished, not_regular, Result, is_not_exist, describe_changes,
  is_empty, changes_err,
}

-- What an attempt calls: os.Lstat; the Run of its handlercommand.Command; and MoveToArchive of the
-- journal, which fails or returns the new path.
pub record Calls (W : Type 0) : Type 0 where
  pub lstat : W → FilePath → Result FileInfo
  pub run_command : W → W × Option IoError
  pub move_to_archive : W → FilePath → Bool → W × Result FilePath

-- Options, less the logger, the metrics and what only the command reads.
pub record Options (W : Type 0) : Type 0 where
  pub changed_file : FilePath
  pub final : Bool
  pub acquire_lock : Option (W → W)

-- An error that may hold several, as multierr combines them; nil is the empty list.
abbrev pub Errors : Type 0
Errors = List IoError

-- multierr.AppendInto
unfoldable pub append_into : Errors → Option IoError → Errors
append_into es none = es
append_into es (some e) = es ++ e ∷ []

abbrev pub is_nil : Option IoError → Bool
is_nil none = true
is_nil (some e) = false

-- The error of a result.
abbrev pub err_of : {A : Type 0} → Result A → Option IoError
err_of (inl e) = some e
err_of (inr a) = none

-- validateChangedFile
unfoldable pub validate_changed_file : {W : Type 0} → Calls W → W → FilePath → Result FileInfo
unfolding is_not_exist
validate_changed_file calls w path = elim (calls.lstat w path) [
  | inl e ↦ if is_not_exist e then inl vanished else inl e
  | inr fi ↦ if fi.file_type == 0 then inr fi else inl (not_regular fi.file_type)
]

-- Run from the command to the lock.
unfoldable pub run_and_lock : {W : Type 0} → Calls W → Options W → W → W × Option IoError
run_and_lock calls opts w =
    let (w1, command_err) = calls.run_command w in
    (elim opts.acquire_lock [ none ↦ w1 | some lock ↦ lock w1 ], command_err)

-- Run after the lock is held, with the file's information from before the command. The results are
-- Run's: whether the failure is permanent, and the errors.
unfoldable pub finish :
    {W : Type 0} → Calls W → Options W → FileInfo → W → Option IoError → W × Bool × Errors
unfolding append_into is_not_exist is_empty changes_err describe_changes
finish calls opts stat_before w command_err =
    let combined_err = append_into [] command_err in
    let success = is_nil command_err in
    elim (calls.lstat w opts.changed_file) [
      | inl e ↦ (
        w,
        is_not_exist e,
        if success && is_not_exist e then combined_err else append_into combined_err (some e),
      )
      | inr stat_after ↦
          let changes = describe_changes stat_before stat_after in
          let (w', moved) = calls.move_to_archive w opts.changed_file success in
          if not (is_empty changes)
          then (w, false, append_into combined_err (changes_err changes))
          else if success || opts.final
          then (w', false, append_into combined_err (err_of moved))
          else (w, false, combined_err)
    ]

-- Run
unfoldable pub run : {W : Type 0} → Calls W → Options W → W → W × Bool × Errors
unfolding validate_changed_file run_and_lock finish
run calls opts w = elim (validate_changed_file calls w opts.changed_file) [
  | inl e ↦ (w, true, e ∷ [])
  | inr stat_before ↦
      let (w', command_err) = run_and_lock calls opts w in
      finish calls opts stat_before w' command_err
]
