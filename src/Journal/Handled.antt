-- ===== src/Journal/Handled.antt =====
-- An attempt of internal/handlerattempt that archives by MoveToArchive of internal/journal.
use baamhackl.Base.{
  ℕ, Bool, true, false, ◌≡◌, sym, ap, ◌∙◌, none, some, [], inl, inr, ◌⊎◌, arith, Option-cases,
}
use baamhackl.FilePaths.{FilePath}
use baamhackl.Waryio.{iter_exhausted, not_exist, Result}
use baamhackl.Handler.Attempt
use baamhackl.Handler.Attempt.{Options, run, validate_changed_file, is_nil}
use baamhackl.Handler.Attempt.Outcome.{
  Succeeds, IsArchived, after_command, command_error, run-Succeeds, run-IsArchived,
}
use baamhackl.Journal.{Journal, Calls, move_to_archive}
use baamhackl.Journal.Archive.{NoReplace, move_to_archive-used}

-- MoveToArchive as an attempt calls it. With the fuel used up nothing is known of the file: the result
-- is an error.
unfoldable pub archive :
    {W : Type 0} → Calls W → Journal → ℕ → W → FilePath → Bool → W × Result FilePath
archive calls j fuel w path success = elim (move_to_archive calls j fuel path success w) [
  | none ↦ (w, inl iter_exhausted)
  | some r ↦ r
]

-- The calls of an attempt, with the journal's in place.
unfoldable pub with_journal :
    {W : Type 0} → Attempt.Calls W → Calls W → Journal → ℕ → Attempt.Calls W
with_journal attempt calls j fuel = record attempt { move_to_archive = archive calls j fuel }

archive-some :
    {W : Type 0} (calls : Calls W) (j : Journal) (fuel : ℕ) (w : W) (path p : FilePath)
    (success : Bool)
    → (archive calls j fuel w path success).1 ≡ inr p
    → move_to_archive calls j fuel path success w
      ≡ some ((archive calls j fuel w path success).0, inr p)
unfolding archive
archive-some calls j fuel w path p success e =
    elim (Option-cases (move_to_archive calls j fuel path success w)) [
      | inl n ↦ absurd (grind arith)
      | inr (r, m) ↦ grind arith
    ]

-- An attempt whose archive is the journal's succeeds only if the file does not exist any more when the
-- command is done, or the attempt ends with the file renamed to a path where nothing existed. It takes
-- that a rename without replacement replaces nothing.
pub run-renamed :
    {W : Type 0} (attempt : Attempt.Calls W) (calls : Calls W) (j : Journal)
    (exists : W → FilePath → Bool) (fuel : ℕ) (opts : Options W) (w : W)
    → NoReplace calls exists
    → (run (with_journal attempt calls j fuel) opts w).2 ≡ []
    → (attempt.lstat (after_command (with_journal attempt calls j fuel) opts w) opts.changed_file
        ≡ inl not_exist)
      ⊎ ((p : FilePath) × (v : W) × (exists v p ≡ false)
          × (calls.rename_without_replace v opts.changed_file p
              ≡ ((run (with_journal attempt calls j fuel) opts w).0, none)))
unfolding with_journal Succeeds IsArchived
run-renamed attempt calls j exists fuel opts w no_replace e =
    let c = with_journal attempt calls j fuel in
    let (b, valid, done) = (run-Succeeds c opts w).0 e in
    elim done.1 [
      | inl gone ↦ inl gone
      | inr (a, there, unchanged, p, moved) ↦ elim (run-IsArchived c opts w b valid) [
        | inr (not_archived, world) ↦ absurd (not_archived (a, there, unchanged, inl done.0))
        | inl (is_archived, world) ↦
            let w2 = after_command c opts w in
            let nil : is_nil (command_error c w) ≡ true = ap is_nil done.0 in
            let world' : (run c opts w).0 ≡ (archive calls j fuel w2 opts.changed_file true).0 =
              world ∙ ap (λ z. (archive calls j fuel w2 opts.changed_file z).0) nil in
            let (named, v, free, renamed) =
              move_to_archive-used calls j exists fuel opts.changed_file p true w2
                (archive calls j fuel w2 opts.changed_file true).0 no_replace
                (archive-some calls j fuel w2 opts.changed_file p true moved) in
            inr (p, v, free, renamed ∙ ap (λ z. (z, none)) (sym world'))
      ]
    ]
