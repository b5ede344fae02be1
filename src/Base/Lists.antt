-- ===== src/Base/Lists.antt =====
-- Lists measured and indexed by native numbers, under the library's names.
use Prim.Native.Nat.{ℕ, zero, suc, ◌+◌, ◌<◌, ◌≤◌}
use mathlib.Core.Path.{◌≡◌, refl, ap, subst, ◌∙◌}
use mathlib.Core.Logic.{∥∥₁_elim, ◌⊎◌, ◌≢◌, inl, inr}
use mathlib.Core.List.{List, [], ◌∷◌, ◌++◌, map, Perm, Permᴰ, perm_middle, append-nil}
use mathlib.Core.List.Perm
use mathlib.Core.Option
use mathlib.Core.Option.{Option, none, some}
use baamhackl.Base.Tests.{◌==◌, if◌then◌else◌}
use native.Mathlib.Nat.{ℕ_set}
use native.Mathlib.Omega.{arith}

module _ {ℓ} {A : Type ℓ} where
  abbrev pub length : List A → ℕ
  length [] = 0
  length (x ∷ xs) = suc (length xs)

  abbrev pub get_elem? : List A → ℕ → Option A
  get_elem? [] i = none
  get_elem? (x ∷ xs) zero = some x
  get_elem? (x ∷ xs) (suc i) = get_elem? xs i

  -- A write out of bounds changes nothing.
  abbrev pub set : List A → ℕ → A → List A
  set [] i v = []
  set (x ∷ xs) zero v = v ∷ xs
  set (x ∷ xs) (suc i) v = x ∷ set xs i v

  abbrev pub take : ℕ → List A → List A
  take zero xs = []
  take (suc n) [] = []
  take (suc n) (x ∷ xs) = x ∷ take n xs

  pub List-cases : (xs : List A) → (xs ≡ []) ⊎ ((x : A) × (ys : List A) × (xs ≡ x ∷ ys))
  List-cases [] = inl refl
  List-cases (x ∷ ys) = inr (x, ys, refl)

  pub length-append : (xs ys : List A) → length (xs ++ ys) ≡ length xs + length ys
  length-append [] ys = omega arith
  length-append (x ∷ xs) ys = omega (arith, length-append xs ys)

  pub length-set : (xs : List A) (i : ℕ) (v : A) → length (set xs i v) ≡ length xs
  length-set [] i v = refl
  length-set (x ∷ xs) zero v = refl
  length-set (x ∷ xs) (suc i) v = ap suc (length-set xs i v)

  pub length-take : (n : ℕ) (xs : List A) → n ≤ length xs → length (take n xs) ≡ n
  length-take zero xs h = refl
  length-take (suc n) [] h = absurd (omega arith)
  length-take (suc n) (x ∷ xs) h = ap suc (length-take n xs (omega arith))

  pub get_elem?-some : (xs : List A) (i : ℕ) → i < length xs → (x : A) × (get_elem? xs i ≡ some x)
  get_elem?-some [] i h = absurd (omega arith)
  get_elem?-some (x ∷ xs) zero h = (x, refl)
  get_elem?-some (x ∷ xs) (suc i) h = get_elem?-some xs i (omega arith)

  pub get_elem?-set_self :
      (xs : List A) (i : ℕ) (v : A) → i < length xs → get_elem? (set xs i v) i ≡ some v
  get_elem?-set_self [] i v h = absurd (omega arith)
  get_elem?-set_self (x ∷ xs) zero v h = refl
  get_elem?-set_self (x ∷ xs) (suc i) v h = get_elem?-set_self xs i v (omega arith)

  pub get_elem?-append_left :
      (xs ys : List A) (i : ℕ) → i < length xs → get_elem? (xs ++ ys) i ≡ get_elem? xs i
  get_elem?-append_left [] ys i h = absurd (omega arith)
  get_elem?-append_left (x ∷ xs) ys zero h = refl
  get_elem?-append_left (x ∷ xs) ys (suc i) h = get_elem?-append_left xs ys i (omega arith)

  pub get_elem?-append_end : (xs : List A) (y : A) → get_elem? (xs ++ y ∷ []) (length xs) ≡ some y
  get_elem?-append_end [] y = refl
  get_elem?-append_end (x ∷ xs) y = get_elem?-append_end xs y

  pub get_elem?-take :
      (n : ℕ) (xs : List A) (i : ℕ) → i < n → get_elem? (take n xs) i ≡ get_elem? xs i
  get_elem?-take zero xs i h = absurd (omega arith)
  get_elem?-take (suc n) [] i h = refl
  get_elem?-take (suc n) (x ∷ xs) zero h = refl
  get_elem?-take (suc n) (x ∷ xs) (suc i) h = get_elem?-take n xs i (omega arith)

  pub get_elem?-take-some :
      (n : ℕ) (xs : List A) (i : ℕ) (x : A)
      → get_elem? (take n xs) i ≡ some x
      → (i < n) × (get_elem? xs i ≡ some x)
  get_elem?-take-some zero xs i x e = cc
  get_elem?-take-some (suc n) [] i x e = cc
  get_elem?-take-some (suc n) (y ∷ xs) zero x e = (omega arith, e)
  get_elem?-take-some (suc n) (y ∷ xs) (suc i) x e =
      let (l, e') = get_elem?-take-some n xs i x e in (omega arith, e')

  -- A read that succeeds is in range.
  pub lt_of_get_elem? : (xs : List A) (i : ℕ) (x : A) → get_elem? xs i ≡ some x → i < length xs
  lt_of_get_elem? [] i x e = cc
  lt_of_get_elem? (y ∷ xs) zero x e = omega arith
  lt_of_get_elem? (y ∷ xs) (suc i) x e = omega (arith, lt_of_get_elem? xs i x e)

  -- A list is all but its last entry, and that entry.
  pub take-append_last :
      (n : ℕ) (xs : List A) (x : A)
      → length xs ≡ suc n
      → get_elem? xs n ≡ some x
      → take n xs ++ x ∷ [] ≡ xs
  take-append_last zero [] x h e = absurd (omega arith)
  take-append_last zero (y ∷ []) x h e = cc
  take-append_last zero (y ∷ z ∷ xs) x h e = absurd (omega arith)
  take-append_last (suc n) [] x h e = absurd (omega arith)
  take-append_last (suc n) (y ∷ xs) x h e =
      ap (λ zs. y ∷ zs) (take-append_last n xs x (omega arith) e)

  pub append_end_nonempty : (xs : List A) (x : A) → xs ++ x ∷ [] ≢ []
  append_end_nonempty [] x = λ h. cc
  append_end_nonempty (y ∷ ys) x = λ h. cc

  pub append_end-perm : (xs : List A) (x : A) → Perm (xs ++ x ∷ []) (x ∷ xs)
  append_end-perm xs x = rw (append-nil xs) at (perm_middle {a = x} xs [])

  -- Writing `v` over the entry `x` puts `v` in its place.
  pub set-perm :
      (xs : List A) (i : ℕ) (x v : A) → get_elem? xs i ≡ some x → Perm (x ∷ set xs i v) (v ∷ xs)
  set-perm [] i x v e = absurd (cc)
  set-perm (y ∷ xs) zero x v e =
      subst (λ (z : A). Perm (z ∷ v ∷ xs) (v ∷ y ∷ xs)) (cc) (Perm.swap v y xs)
  set-perm (y ∷ xs) (suc i) x v e =
      let under_y : Perm (y ∷ x ∷ set xs i v) (y ∷ v ∷ xs) = Perm.cons y (set-perm xs i x v e) in
      Perm.trans (Perm.trans (Perm.swap y x (set xs i v)) under_y) (Perm.swap v y xs)

  -- The sum of a weight over the entries.
  abbrev pub total : (A → ℕ) → List A → ℕ
  total w [] = 0
  total w (x ∷ xs) = w x + total w xs

  total-append : (w : A → ℕ) (xs ys : List A) → total w (xs ++ ys) ≡ total w xs + total w ys
  total-append w [] ys = omega arith
  total-append w (x ∷ xs) ys = let ih = total-append w xs ys in omega arith

  total-Permᴰ : (w : A → ℕ) {xs ys : List A} → Permᴰ xs ys → total w xs ≡ total w ys
  total-Permᴰ w Permᴰ.nil = refl
  total-Permᴰ w (Permᴰ.trans p q) = total-Permᴰ w p ∙ total-Permᴰ w q
  total-Permᴰ w (Permᴰ.cons e p) = omega (arith, ap w e, total-Permᴰ w p)
  total-Permᴰ w (Permᴰ.swap e f) = omega (arith, ap w e, ap w f)

  -- A total does not depend on the order.
  pub total-perm : (w : A → ℕ) {xs ys : List A} → Perm xs ys → total w xs ≡ total w ys
  total-perm w p = ∥∥₁_elim p (ℕ_set _ _) (total-Permᴰ w)

  length-total : (xs : List A) → length xs ≡ total (λ (x : A). 1) xs
  length-total [] = refl
  length-total (x ∷ xs) = omega (arith, length-total xs)

  pub length-perm : {xs ys : List A} → Perm xs ys → length xs ≡ length ys
  length-perm {xs} {ys} p =
      omega (arith, length-total xs, length-total ys, total-perm (λ (x : A). 1) p)

-- How often a number occurs in a list.
abbrev pub count : ℕ → List ℕ → ℕ
count a = total (λ (x : ℕ). if x == a then 1 else 0)

pub count-append : (a : ℕ) (xs ys : List ℕ) → count a (xs ++ ys) ≡ count a xs + count a ys
count-append a = total-append (λ (x : ℕ). if x == a then 1 else 0)

pub count-perm : (a : ℕ) {xs ys : List ℕ} → Perm xs ys → count a xs ≡ count a ys
count-perm a = total-perm (λ (x : ℕ). if x == a then 1 else 0)

-- Every entry satisfies the predicate.
abbrev pub All {ℓ κ} : {A : Type ℓ} → (A → Type κ) → List A → Type κ
All P [] = Unit
All P (x ∷ xs) = P x × All P xs

module _ {ℓ κ} {A : Type ℓ} {B : Type κ} (f : A → B) where
  pub length-map : (xs : List A) → length (map f xs) ≡ length xs
  length-map [] = refl
  length-map (x ∷ xs) = ap suc (length-map xs)

  pub get_elem?-map :
      (xs : List A) (i : ℕ) (x : A) → get_elem? xs i ≡ some x → get_elem? (map f xs) i ≡ some (f x)
  get_elem?-map [] i x e = absurd (cc)
  get_elem?-map (y ∷ xs) zero x e = ap (λ o. Option.map f o) e
  get_elem?-map (y ∷ xs) (suc i) x e = get_elem?-map xs i x e

  pub map-set : (xs : List A) (i : ℕ) (v : A) → map f (set xs i v) ≡ set (map f xs) i (f v)
  map-set [] i v = refl
  map-set (x ∷ xs) zero v = refl
  map-set (x ∷ xs) (suc i) v = ap (λ zs. f x ∷ zs) (map-set xs i v)

pub All-imp {ℓ κ κ'} :
    {A : Type ℓ} {P : A → Type κ} {Q : A → Type κ'} (xs : List A)
    → ((x : A) → P x → Q x)
    → All P xs
    → All Q xs
All-imp [] f h = tt
All-imp (x ∷ xs) f h = (f x h.0, All-imp xs f h.1)
