-- ===== src/Watch/Buckets/Ascending.antt =====
-- The buckets ascend, and the loop that overwrites its own array does what a fresh list would.
use mathlib.Core.List.{append-nil}
use baamhackl.Base.{
  ℕ, zero, suc, ◌+◌, ◌<◌, ◌≤◌, Bool, true, Option, none, some, List, [], ◌∷◌, ◌++◌, length,
  get_elem?, set, take, ◌≡◌, refl, sym, ap, ◌∙◌, inl, inr, arith, Bool-cases, if◌then◌else◌,
  get_elem?-some, length-set, get_elem?-set_self,
}
use baamhackl.Base.Int.{ℤ}
use baamhackl.Watch.Buckets.{is_new, compact, make_seconds_buckets}

-- The entries from `i` on.
unfoldable drop : {A : Type 0} → ℕ → List A → List A
drop zero xs = xs
drop (suc i) [] = []
drop (suc i) (x ∷ xs) = drop i xs

drop-all : {A : Type 0} (xs : List A) → drop (length xs) xs ≡ []
unfolding drop
drop-all [] = refl
drop-all (x ∷ xs) = drop-all xs

drop-get_elem? :
    {A : Type 0} (xs : List A) (i : ℕ) (x : A)
    → get_elem? xs i ≡ some x
    → drop i xs ≡ x ∷ drop (suc i) xs
unfolding drop
drop-get_elem? [] i x e = absurd (cc)
drop-get_elem? (y ∷ ys) zero x e = grind arith
drop-get_elem? (y ∷ ys) (suc i) x e = drop-get_elem? ys i x e

drop-set : {A : Type 0} (xs : List A) (j i : ℕ) (v : A) → i < j → drop j (set xs i v) ≡ drop j xs
unfolding drop
drop-set [] j i v h = refl
drop-set (x ∷ xs) zero i v h = absurd (omega arith)
drop-set (x ∷ xs) (suc j) zero v h = refl
drop-set (x ∷ xs) (suc j) (suc i) v h = drop-set xs j i v (omega arith)

take-set :
    {A : Type 0} (xs : List A) (i : ℕ) (v : A)
    → i < length xs
    → take (suc i) (set xs i v) ≡ take i xs ++ v ∷ []
take-set [] i v h = absurd (omega arith)
take-set (x ∷ xs) zero v h = refl
take-set (x ∷ xs) (suc i) v h = ap (λ l. x ∷ l) (take-set xs i v (omega arith))

append-one : {A : Type 0} (xs ys : List A) (v : A) → (xs ++ v ∷ []) ++ ys ≡ xs ++ v ∷ ys
append-one [] ys v = refl
append-one (x ∷ xs) ys v = ap (λ l. x ∷ l) (append-one xs ys v)

module _ {F : Type 0} (gt : F → F → Bool) (round : F → F) where
  abbrev pub above : Option F → F → Bool
  above none v = true
  above (some last) v = gt v last

  -- The rounded numbers, without those that are not above the one before.
  unfoldable pub distinct : Option F → List F → List F
  distinct last [] = []
  distinct last (x ∷ xs) =
      let more = distinct (some (round x)) xs in
      let fewer = distinct last xs in if above last (round x) then round x ∷ more else fewer

  -- Each number is above the one before.
  abbrev pub IsAscending : Option F → List F → Type 0
  IsAscending last [] = Unit
  IsAscending last (x ∷ xs) = (above last x ≡ true) × IsAscending (some x) xs

  -- The last of the first `dst` entries.
  abbrev IsLast : ℕ → List F → Option F → Type 0
  IsLast zero xs last = last ≡ none
  IsLast (suc d) xs last = get_elem? xs d ≡ last

  distinct-IsAscending : (last : Option F) (xs : List F) → IsAscending last (distinct last xs)
  unfolding distinct
  distinct-IsAscending last [] = tt
  distinct-IsAscending last (x ∷ xs) = elim (Bool-cases (above last (round x))) [
    | inl e ↦ rw e (e, distinct-IsAscending (some (round x)) xs)
    | inr e ↦ rw e (distinct-IsAscending last xs)
  ]

  is_new-above :
      (dst : ℕ) (v : F) (xs : List F) (last : Option F)
      → dst ≤ length xs
      → IsLast dst xs last
      → is_new gt round dst v xs ≡ some (above last v)
  unfolding is_new
  is_new-above zero v xs last h e = rw e refl
  is_new-above (suc d) v xs last h e =
      let (x, g) = get_elem?-some xs d h in let p : last ≡ some x = sym e ∙ g in rw (p, g) refl

  compact-distinct :
      (n i dst : ℕ) (xs : List F) (last : Option F)
      → i + n ≡ length xs
      → dst ≤ i
      → IsLast dst xs last
      → compact gt round n i dst xs ≡ some (take dst xs ++ distinct last (drop i xs))
  unfolding compact distinct
  compact-distinct zero i dst xs last e h l =
      let p : i ≡ length xs = omega (arith, e) in
      rw (p, drop-all xs) (ap some (sym (append-nil (take dst xs))))
  compact-distinct (suc n) i dst xs last e h l =
      let (x, g) = get_elem?-some xs i (omega (arith, e)) in
      let v = round x in
      let ys = set xs dst v in
      let new = is_new-above dst v xs last (omega (arith, e)) l in
      let rest = drop-get_elem? xs i x g in
      elim (Bool-cases (above last v)) [
        | inl t ↦
            let size = length-set xs dst v in
            let last_set = get_elem?-set_self xs dst v (omega (arith, e)) in
            let ih =
              compact-distinct n (suc i) (suc dst) ys (some v) (omega (arith, e, size))
                (omega arith) last_set in
            let start = take-set xs dst v (omega (arith, e)) in
            let tail = drop-set xs (suc i) dst v (omega arith) in
            rw (g, new, rest, t) (ih ∙ rw (start, tail) (ap some (append-one (take dst xs) _ v)))
        | inr t ↦
            let ih = compact-distinct n (suc i) dst xs last (omega (arith, e)) (omega arith) l in
            rw (g, new, rest, t) ih
      ]

  -- makeSecondsBuckets never reads outside its array, and although it overwrites the array that it reads,
  -- it returns what a fresh list would hold: the rounded numbers in order, without those that are not
  -- above the one before. So the buckets ascend.
  pub make_seconds_buckets-distinct :
      (range : ℤ → ℤ → ℕ → List F) (min max : ℤ) (count : ℕ)
      → (make_seconds_buckets gt round range min max count
          ≡ some (distinct none (range min max count)))
        × IsAscending none (distinct none (range min max count))
  unfolding make_seconds_buckets drop
  make_seconds_buckets-distinct range min max count =
      let xs = range min max count in
      (
        compact-distinct (length xs) 0 0 xs none (omega arith) (omega arith) refl,
        distinct-IsAscending none xs,
      )
