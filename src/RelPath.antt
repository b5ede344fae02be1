-- ===== src/RelPath.antt =====
-- internal/relpath/relpath.go: paths relative to a base directory.
pub mod Contained
mod Tests
use baamhackl.Base.{Bool, true, false, not, ◌&&◌, Option, none, some, List, [], ◌∷◌, if◌then◌else◌}
use baamhackl.FilePaths.{FilePath, same_name, dot_dot, split, is_abs, clean, join, rel}

-- Resolved
pub record Resolved : Type 0 where
  pub path : FilePath
  pub base : FilePath
  pub relative : FilePath
  pub relative_elems : List FilePath

-- The loop of Contained: no element is "..".
unfoldable pub has_no_up : List FilePath → Bool
has_no_up [] = true
has_no_up (e ∷ es) = if same_name e dot_dot then false else has_no_up es

abbrev pub is_nonempty : List FilePath → Bool
is_nonempty [] = false
is_nonempty (e ∷ es) = true

-- Contained
unfoldable pub contained : Resolved → Bool
contained r = has_no_up r.relative_elems && is_nonempty r.relative_elems

-- Resolve; the error of filepath.Rel, and ErrInvalid, are none.
unfoldable pub resolve : FilePath → FilePath → Option Resolved
resolve base path =
    let cleaned = clean base in
    let full = if is_abs path then clean path else join (cleaned ∷ path ∷ []) in
    elim (rel cleaned full) [
      | none ↦ none
      | some relative ↦
          if is_nonempty (split relative)
          then some (record {
            path = full;
            base = cleaned;
            relative = relative;
            relative_elems = split relative;
          })
          else none
    ]
