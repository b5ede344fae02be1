-- ===== src/Waryio/RelDir.antt =====
-- internal/waryio/reldir.go, which creates directories below a base, and samestat.go.
pub mod Below
use baamhackl.Base.{
  ℕ, Bool, true, false, not, ◌&&◌, ◌≡◌, ◌≢◌, refl, ◌^◌, Option, none, some, List, [], ◌∷◌, ◌++◌,
  inl, inr, ◌⊎◌, ◌==◌, arith, All, if◌then◌else◌, Bool-cases, Option-cases,
}
use baamhackl.FilePaths.{FilePath, dot_dot, join}
use baamhackl.RelPath.{Resolved, resolve, contained, has_no_up}
use baamhackl.Waryio.{
  FileInfo, IoError, not_exist, exist, not_relative, not_directory, Result, Result-cases, is_exist,
  same_file,
}

-- os.Stat and os.Mkdir.
pub record DirCalls (W : Type 0) : Type 0 where
  pub stat : W → FilePath → Result FileInfo
  pub mkdir : W → FilePath → W × Option IoError

-- FileInfo.IsDir: the type is ModeDir.
unfoldable pub is_dir : FileInfo → Bool
is_dir fi = fi.file_type == 2 ^ 31

abbrev pub found_dir : Result FileInfo → Bool
unfolding is_dir
found_dir (inl e) = false
found_dir (inr fi) = is_dir fi

-- The end of a round: whether the error of Mkdir is ignored.
unfoldable pub ignores : IoError → Result FileInfo → Bool
unfolding is_exist
ignores err st = is_exist err && not (found_dir st)

-- The loop of EnsureRelDir over the elements below `dir`.
unfoldable pub ensure_elems :
    {W : Type 0} → DirCalls W → List FilePath → List FilePath → W → W × Option IoError
unfolding is_dir ignores
ensure_elems calls dir [] w = (w, none)
ensure_elems calls dir (e ∷ es) w =
    let partpath = join (dir ++ e ∷ []) in
    let (w', failed) = calls.mkdir w partpath in
    let seen = ensure_elems calls (dir ++ e ∷ []) es w in
    let made = ensure_elems calls (dir ++ e ∷ []) es w' in
    elim (calls.stat w partpath) [
      | inr st ↦ if is_dir st then seen else (w, some (not_directory partpath))
      | inl err ↦ elim failed [
        | none ↦ made
        | some err' ↦ if ignores err' (calls.stat w' partpath) then made else (w', some err')
      ]
    ]

-- EnsureRelDir
unfoldable pub ensure_rel_dir :
    {W : Type 0} → DirCalls W → FilePath → FilePath → W → W × Result FilePath
ensure_rel_dir calls base path w = elim (resolve base path) [
  | none ↦ (w, inl not_relative)
  | some r ↦
      let (w', failed) = ensure_elems calls (r.base ∷ []) r.relative_elems w in
      if contained r
      then (w', elim failed [ none ↦ inr r.path | some e ↦ inl e ])
      else (w, inr r.path)
]

-- SameStat, with os.Lstat as a parameter; the errors are combined.
unfoldable pub same_stat :
    (FilePath → Result FileInfo) → FilePath → FilePath → (List IoError) ⊎ Bool
unfolding same_file
same_stat lstat a b = elim (lstat a) [
  | inl e ↦ elim (lstat b) [ inl f ↦ inl (e ∷ f ∷ []) | inr fb ↦ inl (e ∷ []) ]
  | inr fa ↦ elim (lstat b) [ inl f ↦ inl (f ∷ []) | inr fb ↦ inr (same_file fa fb) ]
]
