-- ===== src/Waryio/Copy.antt =====
-- internal/waryio/copy.go: copyInner, for two files that are open. Copy/Files has the rest.
pub mod Files
use baamhackl.Base.{
  ℕ, true, none, some, [], ◌∷◌, inl, inr, ◌==◌, ◌≡◌, refl, if◌then◌else◌, arith, Bool-cases,
  Option-cases, ==_iff,
}
use baamhackl.Waryio.{
  FileInfo, FileChanges, other, Result, Result-cases, describe_changes, changes_err, is_empty,
}
use baamhackl.Waryio.Changes.{IsUnchanged, describe_changes-IsUnchanged}

-- What copying calls: the Stat of the source, io.Copy from it to the destination, with the count of bytes.
pub record CopyCalls (W : Type 0) : Type 0 where
  pub stat : W → Result FileInfo
  pub io_copy : W → W × Result ℕ

-- copyInner, whose result is the permission of the source.
unfoldable pub copy_inner : {W : Type 0} → CopyCalls W → W → W × Result ℕ
unfolding describe_changes changes_err
copy_inner calls w =
    let (w', copied) = calls.io_copy w in
    elim (calls.stat w) [
      | inl e ↦ (w, inl e)
      | inr before ↦ elim copied [
        | inl e ↦ (w', inl e)
        | inr bytes ↦ elim (calls.stat w') [
          | inl e ↦ (w', inl e)
          | inr after ↦ elim (changes_err (describe_changes before after)) [
            | some e ↦ (w', inl e)
            | none ↦ if bytes == before.size then (w', inr before.perm) else (w', inl (other bytes))
          ]
        ]
      ]
    ]

changes_err-none : (cs : FileChanges) → changes_err cs ≡ none → is_empty cs ≡ true
unfolding changes_err is_empty
changes_err-none [] e = refl
changes_err-none (c ∷ cs) e = absurd (cc)

-- Where copyInner does not fail, the source is the same before and after, as many bytes were copied as
-- it has, and the result is its permission.
pub copy_inner-IsUnchanged :
    {W : Type 0} (calls : CopyCalls W) (w : W) (perm : ℕ)
    → (copy_inner calls w).1 ≡ inr perm
    → (b : FileInfo) × (a : FileInfo) × (calls.stat w ≡ inr b)
      × (calls.stat (calls.io_copy w).0 ≡ inr a)
      × IsUnchanged b a
      × ((calls.io_copy w).1 ≡ inr b.size)
      × (perm ≡ b.perm)
unfolding copy_inner
copy_inner-IsUnchanged calls w perm e = elim (Result-cases (calls.stat w)) [
  | inl (x, s) ↦ absurd (grind arith)
  | inr (b, s) ↦ elim (Result-cases (calls.io_copy w).1) [
    | inl (x, c) ↦ absurd (grind arith)
    | inr (bytes, c) ↦ elim (Result-cases (calls.stat (calls.io_copy w).0)) [
      | inl (x, t) ↦ absurd (grind arith)
      | inr (a, t) ↦ elim (Option-cases (changes_err (describe_changes b a))) [
        | inr (x, d) ↦ absurd (grind arith)
        | inl d ↦ elim (Bool-cases (bytes == b.size)) [
          | inr q ↦ absurd (grind arith)
          | inl q ↦
              let same = (==_iff bytes b.size).0 q in
              (
                b,
                a,
                s,
                t,
                (describe_changes-IsUnchanged b a).0 (changes_err-none (describe_changes b a) d),
                cc,
                grind arith,
              )
        ]
      ]
    ]
  ]
]
