-- ===== src/Waryio/RelDir/Below.antt =====
-- Where EnsureRelDir of internal/waryio/reldir.go creates directories.
use baamhackl.Base.{◌≢◌, subst, List, [], ◌∷◌, ◌++◌, inl, inr, All, Bool-cases, Option-cases}
use baamhackl.FilePaths.{FilePath, dot_dot, join, clean}
use baamhackl.RelPath.{resolve, contained}
use baamhackl.FilePaths.Split.{IsElem}
use baamhackl.RelPath.Contained.{resolve-contained, resolve-IsElem, resolve-base}
use baamhackl.Waryio.{Result-cases}
use baamhackl.Waryio.RelDir.{DirCalls, is_dir, ignores, ensure_elems, ensure_rel_dir}

-- No element is "..", and each is a single one, without slashes.
abbrev pub NoUp : List FilePath → Type 0
NoUp = All (λ (e : FilePath). (e ≢ dot_dot) × IsElem e)

NoUp-and : (es : List FilePath) → All (λ (e : FilePath). e ≢ dot_dot) es → All IsElem es → NoUp es
NoUp-and [] h k = tt
NoUp-and (e ∷ es) (h, hs) (k, ks) = ((h, k), NoUp-and es hs ks)

NoUp-append : (xs ys : List FilePath) → NoUp xs → NoUp ys → NoUp (xs ++ ys)
NoUp-append [] ys h k = k
NoUp-append (x ∷ xs) ys (hx, h) k = (hx, NoUp-append xs ys h k)

-- The creation of any path that consists of the base and single elements other than ".." keeps what `P` says of the file system.
abbrev pub IsKeptBelow : {W : Type 0} → DirCalls W → FilePath → (W → Type 0) → Type 0
IsKeptBelow {W} calls base P =
    (w : W) (es : List FilePath) → NoUp es → P w → P (calls.mkdir w (join (base ∷ es))).0

module _ {W : Type 0} (calls : DirCalls W) (base : FilePath) (P : W → Type 0)
    (keeps : IsKeptBelow calls base P) where
  ensure_elems-IsKeptBelow :
      (done es : List FilePath) (w : W)
      → NoUp done
      → NoUp es
      → P w
      → P (ensure_elems calls (base ∷ done) es w).0
  unfolding ensure_elems
  ensure_elems-IsKeptBelow done [] w hd he h = h
  ensure_elems-IsKeptBelow done (e ∷ es) w hd (ne, he) h =
      let partpath = join (base ∷ done ++ e ∷ []) in
      let deeper = NoUp-append done (e ∷ []) hd (ne, tt) in
      let made = keeps w (done ++ e ∷ []) deeper h in
      elim (Result-cases (calls.stat w partpath)) [
        | inr (st, s) ↦ elim (Bool-cases (is_dir st)) [
          | inl d ↦
              rw (s, d, ensure_elems) (ensure_elems-IsKeptBelow (done ++ e ∷ []) es w deeper he h)
          | inr d ↦ rw (s, d, ensure_elems) h
        ]
        | inl (x, s) ↦ elim (Option-cases (calls.mkdir w partpath).1) [
          | inl m ↦
              rw (s, m, ensure_elems)
                (ensure_elems-IsKeptBelow (done ++ e ∷ []) es (calls.mkdir w partpath).0 deeper he
                  made)
          | inr (y, m) ↦
              elim (Bool-cases (ignores y (calls.stat (calls.mkdir w partpath).0 partpath))) [
                | inl i ↦
                    rw (s, m, i, ensure_elems)
                      (ensure_elems-IsKeptBelow (done ++ e ∷ []) es (calls.mkdir w partpath).0
                        deeper he made)
                | inr i ↦ rw (s, m, i, ensure_elems) made
              ]
        ]
      ]

-- EnsureRelDir creates only paths that lie below the base: whatever property of the file system is kept
-- by each Mkdir of the cleaned base joined with single elements other than ".." is kept by EnsureRelDir.
pub ensure_rel_dir-IsKeptBelow :
    {W : Type 0} (calls : DirCalls W) (base path : FilePath) (P : W → Type 0) (w : W)
    → IsKeptBelow calls (clean base) P
    → P w
    → P (ensure_rel_dir calls base path w).0
unfolding ensure_rel_dir
ensure_rel_dir-IsKeptBelow calls base path P w keeps h = elim (Option-cases (resolve base path)) [
  | inl n ↦ rw (n, ensure_rel_dir) h
  | inr (r, e) ↦ elim (Bool-cases (contained r)) [
    | inr c ↦ rw (e, c, ensure_rel_dir) h
    | inl c ↦
        let (no_up, rest) = resolve-contained base path r e c in
        let below = NoUp-and r.relative_elems no_up (resolve-IsElem base path r e) in
        rw (e, c, ensure_rel_dir)
          (ensure_elems-IsKeptBelow calls r.base P
            (subst (λ b. IsKeptBelow calls b P) (resolve-base base path r e) keeps) []
            r.relative_elems w tt below h)
  ]
]
