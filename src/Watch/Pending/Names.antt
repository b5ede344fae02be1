-- ===== src/Watch/Pending/Names.antt =====
-- The maps from names of watch/handler.go: what put and delete do to each name.
use baamhackl.Base.{ℕ, ◌≡◌, inl, inr, refl, false, none, some, List, [], ◌∷◌, Bool-cases}
use baamhackl.FilePaths.{FilePath, same_name}
use baamhackl.FilePaths.Split.{same_name_refl, same_name-eq}
use baamhackl.Watch.{lookup, put, delete}

-- A deleted name is not there any more.
pub lookup-delete : (name : FilePath) (m : List (FilePath × ℕ)) → lookup name (delete name m) ≡ none
unfolding lookup delete
lookup-delete name [] = refl
lookup-delete name ((k, b) ∷ m) = elim (Bool-cases (same_name k name)) [
  | inl p ↦ rw (p, delete) (lookup-delete name m)
  | inr p ↦ rw (p, delete) (rw (p, lookup) (lookup-delete name m))
]

-- The name that is put in is there, and any other as before.
pub lookup-put {ℓ} :
    {A : Type ℓ} (name : FilePath) (a : A) (m : List (FilePath × A))
    → lookup name (put name a m) ≡ some a
unfolding put lookup
lookup-put name a [] = rw (same_name_refl name) refl
lookup-put name a ((k, b) ∷ m) = elim (Bool-cases (same_name k name)) [
  | inl p ↦ rw (p, put) (rw (p, lookup) refl)
  | inr p ↦ rw (p, put) (rw (p, lookup) (lookup-put name a m))
]

pub lookup-put_other :
    (n name : FilePath) (a : ℕ) (m : List (FilePath × ℕ))
    → same_name name n ≡ false
    → lookup n (put name a m) ≡ lookup n m
unfolding lookup put
lookup-put_other n name a [] f = rw f refl
lookup-put_other n name a ((k, b) ∷ m) f = elim (Bool-cases (same_name k name)) [
  | inl q ↦
      let same = same_name-eq k name q in
      let g : same_name k n ≡ false = rw same f in rw q (rw (g, lookup) refl)
  | inr q ↦ elim (Bool-cases (same_name k n)) [
    | inl p ↦ rw q (rw (p, lookup) refl)
    | inr p ↦ rw q (rw (p, lookup) (lookup-put_other n name a m f))
  ]
]

pub lookup-delete_other :
    (n name : FilePath) (m : List (FilePath × ℕ))
    → same_name name n ≡ false
    → lookup n (delete name m) ≡ lookup n m
unfolding lookup delete
lookup-delete_other n name [] f = refl
lookup-delete_other n name ((k, b) ∷ m) f = elim (Bool-cases (same_name k name)) [
  | inl q ↦
      let same = same_name-eq k name q in
      let g : same_name k n ≡ false = rw same f in
      rw q (rw (g, lookup) (lookup-delete_other n name m f))
  | inr q ↦ elim (Bool-cases (same_name k n)) [
    | inl p ↦ rw q (rw (p, lookup) refl)
    | inr p ↦ rw q (rw (p, lookup) (lookup-delete_other n name m f))
  ]
]
