-- ===== src/RelPath/Contained.antt =====
-- What Contained of internal/relpath/relpath.go says about the two paths.
use mathlib.Core.Option
use mathlib.Core.List.{append-nil}
use baamhackl.Base.{
  ℕ, ◌==◌, true, false, ◌&&◌, ◌≡◌, ◌≢◌, refl, sym, subst, ◌∙◌, ◌⊎◌, inl, inr, none, some, List, [],
  ◌∷◌, ◌++◌, arith, All, Bool-cases, Option-cases, if◌then◌else◌,
}
use baamhackl.FilePaths.{
  FilePath, same_name, dot_dot, slash, split, join_text, is_abs, clean, join, rel, rel_elems,
  rel_from, ups, cons_first, elems, base_elems,
}
use baamhackl.FilePaths.Split.{IsElem, split-IsElem, split-join_text, same_name-eq, same_name_refl}
use baamhackl.RelPath.{Resolved, has_no_up, is_nonempty, contained, resolve}

pub elems-IsElem : (p : FilePath) → All IsElem (elems p)
unfolding elems
elems-IsElem [] = tt
elems-IsElem (c ∷ []) = elim (Bool-cases (c == slash)) [
  | inl e ↦ rw (e, elems) tt
  | inr e ↦ rw (e, elems) (split-IsElem (c ∷ []))
]
elems-IsElem (c ∷ d ∷ t) = elim (Bool-cases (c == slash)) [
  | inl e ↦ rw (e, elems) (split-IsElem (d ∷ t))
  | inr e ↦ rw (e, elems) (split-IsElem (c ∷ d ∷ t))
]

ups-IsElem : (bs es : List FilePath) → All IsElem es → All IsElem (ups bs es)
ups-IsElem [] es h = h
ups-IsElem (b ∷ bs) es h = ((omega arith, (omega arith, tt)), ups-IsElem bs es h)

-- Either the target lies below the base, or the relative path starts with "..".
abbrev Below : List FilePath → List FilePath → FilePath → Type 0
Below base targ r =
    ((es : List FilePath) × (targ ≡ base ++ es) × (r ≡ join_text es))
    ⊎ ((us : List FilePath) × All IsElem us × (r ≡ join_text (dot_dot ∷ us)))

rel_from-Below :
    (b : FilePath) (base targ : List FilePath) (r : FilePath)
    → All IsElem targ
    → rel_from (b ∷ base) targ ≡ some r
    → Below (b ∷ base) targ r
unfolding rel_from
rel_from-Below b base targ r h e = elim (Bool-cases (same_name b dot_dot)) [
  | inl s ↦ absurd (grind arith)
  | inr s ↦ inr (ups base targ, ups-IsElem base targ h, grind arith)
]

rel_elems-Below :
    (base targ : List FilePath) (r : FilePath)
    → All IsElem targ
    → rel_elems base targ ≡ some r
    → Below base targ r
unfolding rel_elems rel_from
rel_elems-Below [] targ r h e = inl (targ, refl, grind arith)
rel_elems-Below (b ∷ base) [] r h e = rel_from-Below b base [] r h e
rel_elems-Below (b ∷ base) (t ∷ targ) r (ht, h) e = elim (Bool-cases (same_name b t)) [
  | inl s ↦
      let tail : rel_elems base targ ≡ some r = grind arith in
      let same = same_name-eq b t s in
      elim (rel_elems-Below base targ r h tail) [
        | inl (es, f, g) ↦ inl (es, cc, g)
        | inr up ↦ inr up
      ]
  | inr s ↦ rel_from-Below b base (t ∷ targ) r (ht, h) (grind arith)
]

has_no_up-All : (es : List FilePath) → has_no_up es ≡ true → All (λ (e : FilePath). e ≢ dot_dot) es
unfolding has_no_up
has_no_up-All [] h = tt
has_no_up-All (e ∷ es) h = elim (Bool-cases (same_name e dot_dot)) [
  | inl s ↦ absurd (grind arith)
  | inr s ↦ (
    λ is_up. absurd (let up : same_name e dot_dot ≡ true = rw is_up (same_name_refl dot_dot) in cc),
    has_no_up-All es (grind arith),
  )
]

has_no_up-dot_dot : (us : List FilePath) → has_no_up (dot_dot ∷ us) ≡ false
unfolding has_no_up same_name
has_no_up-dot_dot us = refl

-- What the result of filepath.Rel says, when it does not go up.
rel-below :
    (basepath targpath r : FilePath)
    → rel basepath targpath ≡ some r
    → has_no_up (split r) ≡ true
    → (clean targpath ≡ clean basepath)
      ⊎ ((es : List FilePath) × (elems (clean targpath) ≡ base_elems (clean basepath) ++ es)
          × (r ≡ join_text es))
unfolding rel
rel-below basepath targpath r e h =
    elim (Bool-cases (same_name (clean targpath) (clean basepath))) [
      | inl s ↦ inl (same_name-eq (clean targpath) (clean basepath) s)
      | inr s ↦
          let from_elems : rel_elems (base_elems (clean basepath)) (elems (clean targpath))
              ≡ some r =
            grind arith in
          elim (rel_elems-Below (base_elems (clean basepath)) (elems (clean targpath)) r
            (elems-IsElem (clean targpath)) from_elems) [
              | inl below ↦ inr below
              | inr (us, hs, f) ↦ absurd (
                  let parts = split-join_text dot_dot us ((omega arith, (omega arith, tt)), hs) in
                  let up : has_no_up (split r) ≡ false = rw (f, parts) (has_no_up-dot_dot us) in cc)
            ]
    ]

has_no_up-contained :
    (es : List FilePath) → (has_no_up es && is_nonempty es) ≡ true → has_no_up es ≡ true
has_no_up-contained es h = ground arith

abbrev pub full_path : FilePath → FilePath → FilePath
full_path base path = if is_abs path then clean path else join (clean base ∷ path ∷ [])

cons_first_nonempty : (c : ℕ) (es : List FilePath) → is_nonempty (cons_first c es) ≡ true
unfolding cons_first
cons_first_nonempty c [] = refl
cons_first_nonempty c (e ∷ es) = refl

pub split_nonempty : (s : FilePath) → is_nonempty (split s) ≡ true
unfolding split
split_nonempty [] = refl
split_nonempty (c ∷ s) = elim (Bool-cases (c == slash)) [
  | inl e ↦ rw (e, split) refl
  | inr e ↦ rw (e, split) (cons_first_nonempty c (split s))
]

resolve-some :
    (base path x : FilePath)
    → rel (clean base) (full_path base path) ≡ some x
    → resolve base path
      ≡ some (record {
        path = full_path base path;
        base = clean base;
        relative = x;
        relative_elems = split x;
      })
unfolding resolve
resolve-some base path x e = rw (e, split_nonempty x, resolve) refl

resolve-none :
    (base path : FilePath)
    → rel (clean base) (full_path base path) ≡ none
    → resolve base path ≡ none
unfolding resolve
resolve-none base path e = rw (e, resolve) refl

resolve-rel :
    (base path : FilePath) (r : Resolved)
    → resolve base path ≡ some r
    → (rel r.base r.path ≡ some r.relative) × (r.relative_elems ≡ split r.relative)
resolve-rel base path r e = elim (Option-cases (rel (clean base) (full_path base path))) [
  | inl n ↦ absurd (let m = resolve-none base path n in cc)
  | inr (x, f) ↦
      subst
        (λ (z : Resolved).
          (rel z.base z.path ≡ some z.relative) × (z.relative_elems ≡ split z.relative))
        (Option.some-injective _ _ (sym (resolve-some base path x f) ∙ e)) (f, refl)
]

-- What Resolve gives, in terms of filepath.Rel.
pub resolve-full :
    (base path : FilePath) (r : Resolved)
    → resolve base path ≡ some r
    → (rel (clean base) (full_path base path) ≡ some r.relative)
      × (r.relative_elems ≡ split r.relative)
resolve-full base path r e = elim (Option-cases (rel (clean base) (full_path base path))) [
  | inl n ↦ absurd (let m = resolve-none base path n in cc)
  | inr (x, f) ↦
      subst
        (λ (z : Resolved).
          (rel (clean base) (full_path base path) ≡ some z.relative)
          × (z.relative_elems ≡ split z.relative))
        (Option.some-injective _ _ (sym (resolve-some base path x f) ∙ e)) (f, refl)
]

-- The relative path has single elements.
pub resolve-IsElem :
    (base path : FilePath) (r : Resolved) → resolve base path ≡ some r → All IsElem r.relative_elems
resolve-IsElem base path r e =
    subst (All IsElem) (sym (resolve-full base path r e).1) (split-IsElem r.relative)

pub resolve-base :
    (base path : FilePath) (r : Resolved) → resolve base path ≡ some r → clean base ≡ r.base
resolve-base base path r e = elim (Option-cases (rel (clean base) (full_path base path))) [
  | inl n ↦ absurd (let m = resolve-none base path n in cc)
  | inr (x, f) ↦
      subst (λ (z : Resolved). clean base ≡ z.base)
        (Option.some-injective _ _ (sym (resolve-some base path x f) ∙ e)) refl
]

All-append_right : (xs ys : List FilePath) → All IsElem (xs ++ ys) → All IsElem ys
All-append_right [] ys h = h
All-append_right (x ∷ xs) ys h = All-append_right xs ys h.1

-- The elements below the base come back from the text that joins them.
split_below :
    (base es : List FilePath) (p r : FilePath)
    → elems p ≡ base ++ es
    → r ≡ join_text es
    → (elems p ≡ base) ⊎ (elems p ≡ base ++ split r)
split_below base [] p r e f = inl (e ∙ append-nil base)
split_below base (x ∷ es) p r e f =
    let parts : split (join_text (x ∷ es)) ≡ x ∷ es =
      split-join_text x es
        (All-append_right base (x ∷ es) (subst (All IsElem) e (elems-IsElem p))) in
    inr (rw (f, parts) e)

-- Where Resolve finds the path contained in the base, no element of the relative path is "..", and the
-- path, cleaned, is the base itself or consists of the elements of the base, cleaned, followed by the
-- elements of the relative path.
pub resolve-contained :
    (base path : FilePath) (r : Resolved)
    → resolve base path ≡ some r
    → contained r ≡ true
    → All (λ (e : FilePath). e ≢ dot_dot) r.relative_elems
      × ((clean r.path ≡ clean r.base)
          ⊎ (elems (clean r.path) ≡ base_elems (clean r.base))
          ⊎ (elems (clean r.path) ≡ base_elems (clean r.base) ++ r.relative_elems))
unfolding resolve contained
resolve-contained base path r e h =
    let (is_rel, parts) = resolve-rel base path r e in
    let no_up : has_no_up r.relative_elems ≡ true = has_no_up-contained r.relative_elems h in
    let split_no_up : has_no_up (split r.relative) ≡ true =
      subst (λ es. has_no_up es ≡ true) parts no_up in
    (
      has_no_up-All r.relative_elems no_up,
      elim (rel-below r.base r.path r.relative is_rel split_no_up) [
        | inl same ↦ inl same
        | inr (es, f, g) ↦ inr (
            subst
              (λ fs.
                (elems (clean r.path) ≡ base_elems (clean r.base))
                ⊎ (elems (clean r.path) ≡ base_elems (clean r.base) ++ fs))
              (sym parts)
              (split_below (base_elems (clean r.base)) es (clean r.path) r.relative f g))
      ],
    )
