-- ===== src/Journal/Archive.antt =====
-- What MoveToArchive of internal/journal/journal.go does with a handled file, and an attempt that uses
-- it.
use baamhackl.Base.{if◌then◌else◌, ℕ, Bool, false, ◌≡◌, refl, sym, ◌∙◌, none, some, inl, inr}
use baamhackl.FilePaths.{FilePath, base}
use baamhackl.Waryio.{IoError, Result-cases, rename_to_available_name}
use baamhackl.Waryio.Available.{nth_name, rename_to_available_name-used}
use baamhackl.UniqueName.{Generator}
use baamhackl.Journal.{Journal, Calls, next_path, ensure_dir_for_name, archive_dir, move_to_archive}

module _ {W : Type 0} (calls : Calls W) (j : Journal) where
  move_to_archive-failed :
      (fuel : ℕ) (path : FilePath) (success : Bool) (w : W) (e : IoError)
      → (ensure_dir_for_name calls j (archive_dir j success) (base path) w).1 ≡ inl e
      → move_to_archive calls j fuel path success w
        ≡ some ((ensure_dir_for_name calls j (archive_dir j success) (base path) w).0, inl e)
  unfolding move_to_archive
  move_to_archive-failed fuel path success w e h = rw (h, move_to_archive) refl

  move_to_archive-generated :
      (fuel : ℕ) (path : FilePath) (success : Bool) (w : W) (g : Generator)
      → (ensure_dir_for_name calls j (archive_dir j success) (base path) w).1 ≡ inr g
      → move_to_archive calls j fuel path success w
        ≡ rename_to_available_name calls.rename_without_replace path
            (next_path calls.runtime)
            fuel
            (ensure_dir_for_name calls j (archive_dir j success) (base path) w).0
            (g, 0)
  unfolding move_to_archive
  move_to_archive-generated fuel path success w g h = rw (h, move_to_archive) refl

-- A rename without replacement succeeds only where nothing exists.
abbrev pub NoReplace : {W : Type 0} → Calls W → (W → FilePath → Bool) → Type 0
NoReplace {W} calls exists =
    (old : FilePath) (v v' : W) (q : FilePath)
    → calls.rename_without_replace v old q ≡ (v', none)
    → exists v q ≡ false

-- When MoveToArchive returns a path, the file has been renamed to it as the last thing that happened,
-- nothing existed there, and it is a name of the generator for the success directory after a success,
-- for the failure directory otherwise. It takes that the rename replaces nothing.
pub move_to_archive-used :
    {W : Type 0} (calls : Calls W) (j : Journal) (exists : W → FilePath → Bool) (fuel : ℕ)
    (path p : FilePath) (success : Bool) (w w' : W)
    → NoReplace calls exists
    → move_to_archive calls j fuel path success w ≡ some (w', inr p)
    → ((g : Generator) × (k : ℕ) × ((ensure_dir_for_name calls j
            (if success then j.success_dir else j.failure_dir)
            (base path)
            w).1
          ≡ inr g)
        × (nth_name (next_path calls.runtime) (g, 0) k ≡ some p))
      × (v : W) × (exists v p ≡ false)
      × (calls.rename_without_replace v path p ≡ (w', none))
unfolding archive_dir
move_to_archive-used calls j exists fuel path p success w w' no_replace e =
    elim (Result-cases (ensure_dir_for_name calls j (archive_dir j success) (base path) w).1) [
      | inl (x, h) ↦ absurd (let f = move_to_archive-failed calls j fuel path success w x h in cc)
      | inr (g, h) ↦
          let ((k, named), v, free, renamed) =
            rename_to_available_name-used calls.rename_without_replace (next_path calls.runtime)
              exists path p fuel
              (ensure_dir_for_name calls j (archive_dir j success) (base path) w).0 w' (g, 0)
              (no_replace path)
              (sym (move_to_archive-generated calls j fuel path success w g h) ∙ e) in
          ((g, k, h, named), v, free, renamed)
    ]
