-- ===== src/RelPath/Tests.antt =====
-- Tests of internal/relpath/relpath.go, and of the directories of internal/waryio/reldir.go below a base.
use baamhackl.Base.{
  Bool, false, ◌≡◌, ◌≢◌, refl, ◌⊎◌, inl, inr, none, some, List, [], ◌∷◌, ◌++◌, All, ◌||◌,
  Bool-cases, if◌then◌else◌, ◌^◌,
}
use baamhackl.FilePaths.{
  FilePath, dot_dot, same_name, split, join_text, cons_first, is_abs, go_up, clean_elems, clean,
  join, rel, rel_elems, rel_from, elems, base_elems, base, last_elem,
}
use baamhackl.RelPath.{Resolved, resolve, contained, has_no_up}
use baamhackl.RelPath.Contained.{resolve-contained}
use baamhackl.Waryio.{FileInfo, exist, not_exist}
use baamhackl.Waryio.RelDir.{DirCalls, ensure_rel_dir}
use baamhackl.Waryio.RelDir.Below.{NoUp, IsKeptBelow, ensure_rel_dir-IsKeptBelow}

-- "/b" and "j/../k", and what Resolve makes of them: "/b/k".
abbrev base_path : FilePath
base_path = 47 ∷ 98 ∷ []

abbrev sub_path : FilePath
sub_path = 106 ∷ 47 ∷ 46 ∷ 46 ∷ 47 ∷ 107 ∷ []

abbrev resolved : Resolved
resolved = record {
  path = 47 ∷ 98 ∷ 47 ∷ 107 ∷ [];
  base = 47 ∷ 98 ∷ [];
  relative = 107 ∷ [];
  relative_elems = (107 ∷ []) ∷ [];
}

resolve_sub : resolve base_path sub_path ≡ some resolved
unfolding resolve is_abs clean split cons_first clean_elems go_up same_name join_text join rel elems
    base_elems rel_elems rel_from
resolve_sub = refl

-- "/b" and "../a" leave the base: "../a".
resolve_above :
    resolve base_path (46 ∷ 46 ∷ 47 ∷ 97 ∷ [])
    ≡ some (record {
      path = 47 ∷ 97 ∷ [];
      base = 47 ∷ 98 ∷ [];
      relative = 46 ∷ 46 ∷ 47 ∷ 97 ∷ [];
      relative_elems = (46 ∷ 46 ∷ []) ∷ (97 ∷ []) ∷ [];
    })
unfolding resolve is_abs clean split cons_first clean_elems go_up same_name join_text join rel elems
    base_elems rel_elems rel_from
resolve_above = refl

base_of : base (97 ∷ 47 ∷ 98 ∷ 47 ∷ []) ≡ 98 ∷ []
unfolding base split cons_first last_elem same_name
base_of = refl

resolve-contained_example :
    All (λ (e : FilePath). e ≢ dot_dot) resolved.relative_elems
    × ((clean resolved.path ≡ clean resolved.base)
        ⊎ (elems (clean resolved.path) ≡ base_elems (clean resolved.base))
        ⊎ (elems (clean resolved.path)
            ≡ base_elems (clean resolved.base) ++ resolved.relative_elems))
unfolding contained has_no_up same_name
resolve-contained_example = resolve-contained base_path sub_path resolved resolve_sub refl

abbrev directory : FileInfo
directory = record { identity = 1; file_type = 2 ^ 31; perm = 493; size = 0; mod_time = 0 }

abbrev has : List FilePath → FilePath → Bool
unfolding same_name
has [] p = false
has (d ∷ ds) p = same_name d p || has ds p

-- The state lists the directories, and nothing else exists.
abbrev only_dirs : DirCalls (List FilePath)
only_dirs = record {
  stat = λ w p. if has w p then inr directory else inl not_exist;
  mkdir = λ w p. if has w p then (w, some exist) else (p ∷ w, none);
}

-- Each directory came from the start or from a Mkdir below the base.
abbrev IsBelow : List FilePath → Type 0
IsBelow = All (λ (p : FilePath). (es : List FilePath) × NoUp es × (p ≡ join (clean base_path ∷ es)))

only_dirs-IsBelow : IsKeptBelow only_dirs (clean base_path) IsBelow
only_dirs-IsBelow w es no_up h = elim (Bool-cases (has w (join (clean base_path ∷ es)))) [
  | inl b ↦ rw b h
  | inr b ↦ rw b ((es, no_up, refl), h)
]

ensure_rel_dir-IsKeptBelow_example : IsBelow (ensure_rel_dir only_dirs base_path sub_path []).0
ensure_rel_dir-IsKeptBelow_example =
    ensure_rel_dir-IsKeptBelow only_dirs base_path sub_path IsBelow [] only_dirs-IsBelow tt
