-- ===== src/Waryio/Changes.antt =====
-- What DescribeChanges of internal/waryio/filechanges.go finds.
use baamhackl.Base.{
  ℕ, Bool, true, false, not, [], ◌∷◌, ◌≡◌, refl, ◌↔◌, ◌==◌, arith, if◌then◌else◌, ==_iff,
}
use baamhackl.Waryio.{
  FileInfo, FileChange, FileChanges, describe_changes, is_empty, append_if, same_file,
}

-- The two are the same file, of the same type, size and modification time.
unfoldable pub IsUnchanged : FileInfo → FileInfo → Type 0
IsUnchanged a b =
    (a.identity ≡ b.identity)
    × (a.file_type ≡ b.file_type)
    × (a.size ≡ b.size)
    × (a.mod_time ≡ b.mod_time)

append_if-is_empty :
    (b : Bool) (c : FileChange) (cs : FileChanges)
    → is_empty (append_if b c cs) ≡ (if b then false else is_empty cs)
unfolding append_if is_empty
append_if-is_empty false c cs = refl
append_if-is_empty true c [] = refl
append_if-is_empty true c (d ∷ cs) = refl

four_tests :
    (a b c d a' b' c' d' : ℕ)
    → ((if not (d == d')
          then false
          else if not (c == c')
          then false
          else if not (b == b')
          then false
          else if not (a == a')
          then false
          else true)
        ≡ true)
      ↔ ((a ≡ a') × (b ≡ b') × (c ≡ c') × (d ≡ d'))
four_tests a b c d a' b' c' d' = grind (arith, ==_iff)

-- DescribeChanges finds nothing if and only if the two are the same file, of the same type, size and
-- modification time.
pub describe_changes-IsUnchanged :
    (a b : FileInfo) → (is_empty (describe_changes a b) ≡ true) ↔ IsUnchanged a b
unfolding describe_changes IsUnchanged same_file is_empty
describe_changes-IsUnchanged a b = grind (arith, ==_iff, append_if-is_empty)
