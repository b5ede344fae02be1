-- ===== src/Waryio.antt =====
-- internal/waryio: file information and what changed in it (filechanges.go), and the loops that
-- try names until one is free (mkdir.go, rename.go). The file system is a state `W`; the calls of
-- `os` and `unix` on it are parameters.
pub mod Available
pub mod Changes
pub mod RelDir
pub mod Copy
mod Tests
pub use baamhackl.FilePaths.{FilePath}
use baamhackl.Base.{
  ◌≡◌, refl, ℕ, zero, suc, Bool, true, false, not, Option, none, some, List, [], ◌∷◌, ◌++◌, ◌⊎◌,
  inl, inr, ◌==◌, if◌then◌else◌,
}

-- os.FileInfo. `identity` is what os.SameFile compares, `file_type` is Mode().Type(), 0 for a regular
-- file, and `mod_time` is an instant.
pub record FileInfo : Type 0 where
  pub identity : ℕ
  pub file_type : ℕ
  pub perm : ℕ
  pub size : ℕ
  pub mod_time : ℕ

-- An entry of FileChanges, with the two values that its text shows.
pub data FileChange : Type 0 where
  replaced : FileChange
  type_changed : ℕ → ℕ → FileChange
  size_changed : ℕ → ℕ → FileChange
  mod_time_changed : ℕ → ℕ → FileChange

abbrev pub FileChanges : Type 0
FileChanges = List FileChange

-- An error, as far as os.IsExist and os.IsNotExist tell it from others. `changed` is ErrFileChanged
-- with its changes, `not_relative` is that of filepath.Rel, `not_directory` is ENOTDIR,
-- `vanished` wraps a "does not exist", and `other` holds any further error.
pub data IoError : Type 0 where
  exist : IoError
  not_exist : IoError
  vanished : IoError
  not_regular : ℕ → IoError
  changed : FileChanges → IoError
  iter_exhausted : IoError
  not_relative : IoError
  not_directory : FilePath → IoError
  other : ℕ → IoError

abbrev pub Result : Type 0 → Type 0
Result A = IoError ⊎ A

-- To split on a result and keep the equation.
pub Result-cases :
    {A : Type 0} (r : Result A) → ((e : IoError) × (r ≡ inl e)) ⊎ ((a : A) × (r ≡ inr a))
Result-cases (inl e) = inl (e, refl)
Result-cases (inr a) = inr (a, refl)

-- os.IsExist
unfoldable pub is_exist : IoError → Bool
is_exist exist = true
is_exist _ = false

-- os.IsNotExist, which does not look through a wrapped error.
unfoldable pub is_not_exist : IoError → Bool
is_not_exist not_exist = true
is_not_exist _ = false

-- os.SameFile
unfoldable pub same_file : FileInfo → FileInfo → Bool
same_file a b = a.identity == b.identity

-- A check of DescribeChanges: append the text if the test says so.
unfoldable pub append_if : Bool → FileChange → FileChanges → FileChanges
append_if b c cs = if b then cs ++ c ∷ [] else cs

-- DescribeChanges
unfoldable pub describe_changes : FileInfo → FileInfo → FileChanges
unfolding same_file append_if
describe_changes a b =
    let r1 = append_if (not (same_file a b)) replaced [] in
    let r2 =
      append_if (not (a.file_type == b.file_type)) (type_changed a.file_type b.file_type) r1 in
    let r3 = append_if (not (a.size == b.size)) (size_changed a.size b.size) r2 in
    append_if (not (a.mod_time == b.mod_time)) (mod_time_changed a.mod_time b.mod_time) r3

-- FileChanges.Empty
unfoldable pub is_empty : FileChanges → Bool
is_empty [] = true
is_empty (c ∷ cs) = false

-- FileChanges.Err
unfoldable pub changes_err : FileChanges → Option IoError
changes_err [] = none
changes_err (c ∷ cs) = some (changed (c ∷ cs))

module _ {W G : Type 0} (next : G → Option (FilePath × G))
    (op : W → FilePath → W × Option IoError) where
  -- The loop of MakeAvailableDir and RenameToAvailableName: `op` is the call that it tries on a
  -- path, `next` the iterator. At the end of the fuel the result is none.
  unfoldable pub try_from : ℕ → W → FilePath → G → Option (W × Result FilePath)
  unfolding is_exist
  try_from zero w p g = none
  try_from (suc n) w p g =
      let (w', result) = op w p in
      elim result [
        | none ↦ some (w', inr p)
        | some e ↦ elim (next g) [
          | none ↦ some (w', inl e)
          | some (p', g') ↦
              let rest = try_from n w' p' g' in if is_exist e then rest else some (w', inl e)
        ]
      ]

  unfoldable pub try_names : ℕ → W → G → Option (W × Result FilePath)
  unfolding try_from
  try_names fuel w g = elim (next g) [
    | none ↦ some (w, inl iter_exhausted)
    | some (p, g') ↦ try_from fuel w p g'
  ]

-- MakeAvailableDir, with os.Mkdir as a parameter.
unfoldable pub make_available_dir :
    {W G : Type 0}
    → (W → FilePath → W × Option IoError)
    → (G → Option (FilePath × G))
    → ℕ
    → W
    → G
    → Option (W × Result FilePath)
unfolding try_names
make_available_dir mkdir next = try_names next mkdir

-- RenameToAvailableName, with renameWithoutReplace, a call of renameat2, as a parameter.
unfoldable pub rename_to_available_name :
    {W G : Type 0}
    → (W → FilePath → FilePath → W × Option IoError)
    → FilePath
    → (G → Option (FilePath × G))
    → ℕ
    → W
    → G
    → Option (W × Result FilePath)
unfolding try_names
rename_to_available_name rename_without_replace old next =
    try_names next (λ w p. rename_without_replace w old p)
