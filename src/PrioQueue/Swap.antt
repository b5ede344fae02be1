-- ===== src/PrioQueue/Swap.antt =====
-- What a swap of two items keeps and changes. Ranks, and what the sifting loops all preserve.
use mathlib.Core.List.Perm
use baamhackl.Base.{
  Bool, true, ℕ, zero, suc, ◌≤◌, ◌<◌, ◌≡◌, refl, ◌∙◌, List, [], ◌∷◌, map, Perm, none, some, arith,
  ltb, ◌==◌, if◌then◌else◌, length, get_elem?, set, length-set, get_elem?-some, set-perm,
  get_elem?-map, map-set, ℕ_discrete,
}
use baamhackl.PrioQueue.{Item, LessFunc, less_at, swap}

module _ {ℓ} {A : Type ℓ} where
  -- What an item is, apart from its place: the pointer and the value.
  abbrev pub entry : Item A → ℕ × A
  entry x = (x.id, x.value)

  abbrev pub entries : List (Item A) → List (ℕ × A)
  entries = map entry

  pub get_elem?-set :
      (xs : List (Item A)) (i c : ℕ) (v : Item A)
      → i < length xs
      → get_elem? (set xs i v) c ≡ (if i == c then some v else get_elem? xs c)
  get_elem?-set [] i c v h = absurd (omega arith)
  get_elem?-set (x ∷ xs) zero zero v h = refl
  get_elem?-set (x ∷ xs) zero (suc c) v h = ground arith
  get_elem?-set (x ∷ xs) (suc i) zero v h = ground arith
  get_elem?-set (x ∷ xs) (suc i) (suc c) v h = ground (arith, get_elem?-set xs i c v)

  -- The index field of an item agrees with its position.
  abbrev pub IsIndexed : List (Item A) → Type ℓ
  IsIndexed xs = (c : ℕ) (x : Item A) → get_elem? xs c ≡ some x → x.index ≡ some c

  -- Every value passes the test.
  abbrev pub AllFit : (A → Bool) → List (Item A) → Type ℓ
  AllFit fits xs = (c : ℕ) (x : Item A) → get_elem? xs c ≡ some x → fits x.value ≡ true

  -- `ys` holds the entries of `xs`, in another order below `n`; indices stay right.
  pub record Rearranged (n : ℕ) (xs ys : List (Item A)) : Type ℓ where
    pub same_length : length ys ≡ length xs
    pub same_entries : Perm (entries ys) (entries xs)
    pub indexed : IsIndexed xs → IsIndexed ys
    pub fitting : (fits : A → Bool) → AllFit fits xs → AllFit fits ys
    pub kept : (c : ℕ) → n ≤ c → get_elem? ys c ≡ get_elem? xs c

  pub Rearranged-refl : (n : ℕ) (xs : List (Item A)) → Rearranged n xs xs
  Rearranged-refl n xs = record {
    same_length = refl;
    same_entries = Perm.refl _;
    indexed = λ h. h;
    fitting = λ fits h. h;
    kept = λ c h. refl;
  }

  pub Rearranged-trans :
      {n : ℕ} {xs ys zs : List (Item A)}
      → Rearranged n xs ys
      → Rearranged n ys zs
      → Rearranged n xs zs
  Rearranged-trans r s = record {
    same_length = s.same_length ∙ r.same_length;
    same_entries = Perm.trans s.same_entries r.same_entries;
    indexed = λ h. s.indexed (r.indexed h);
    fitting = λ fits h. s.fitting fits (r.fitting fits h);
    kept = λ c h. s.kept c h ∙ r.kept c h;
  }

module _ {ℓ} {A : Type ℓ} (rank : A → ℕ) where
  -- The rank of the item at an index; 0 past the end.
  unfoldable pub key : List (Item A) → ℕ → ℕ
  key xs i = elim (get_elem? xs i) [ none ↦ 0 | some x ↦ rank x.value ]

  pub key-some :
      (xs : List (Item A)) (i : ℕ) (x : Item A) → get_elem? xs i ≡ some x → key xs i ≡ rank x.value
  unfolding key
  key-some xs i x e = rw (e, key)

  pub key-congr :
      (xs ys : List (Item A)) (i : ℕ) → get_elem? xs i ≡ get_elem? ys i → key xs i ≡ key ys i
  unfolding key
  key-congr xs ys i e = rw (e, key)

  -- Among the values that pass the test, `lt` is the strict order of the ranks.
  abbrev pub IsOrder : (A → Bool) → LessFunc A → Type ℓ
  IsOrder fits lt = (a b : A) → fits a ≡ true → fits b ≡ true → lt a b ≡ ltb (rank a) (rank b)

  pub less_at-some :
      (fits : A → Bool) (lt : LessFunc A) (xs : List (Item A)) (i j : ℕ)
      → IsOrder fits lt
      → AllFit fits xs
      → i < length xs
      → j < length xs
      → less_at lt xs i j ≡ some (ltb (key xs i) (key xs j))
  unfolding less_at
  less_at-some fits lt xs i j order ok hi hj =
      let (x, p) = get_elem?-some xs i hi in
      let (y, q) = get_elem?-some xs j hj in
      rw (p, q, order x.value y.value (ok i x p) (ok j y q), key-some xs i x p, key-some xs j y q)

  -- The keys after a swap.
  abbrev pub KeysSwapped : List (Item A) → ℕ → ℕ → List (Item A) → Type 0
  KeysSwapped xs i j ys =
      (c : ℕ) → key ys c ≡ (if j == c then key xs i else if i == c then key xs j else key xs c)

  module _ (n : ℕ) (xs : List (Item A)) (i j : ℕ) (hn : n ≤ length xs) (hi : i < n)
      (hj : j < n) where
    module _ (x y : Item A) (p : get_elem? xs i ≡ some x) (q : get_elem? xs j ≡ some y) where
      abbrev swapped : List (Item A)
      swapped = set (set xs i (record y { index = some i })) j (record x { index = some j })

      get_elem?-swapped :
          (c : ℕ)
          → get_elem? swapped c ≡ (
              if j == c
              then some (record x { index = some j })
              else if i == c
              then some (record y { index = some i })
              else get_elem? xs c)
      get_elem?-swapped c = rw (
        get_elem?-set (set xs i (record y { index = some i })) j c (record x { index = some j })
            (rw length-set (omega arith)),
        get_elem?-set xs i c (record y { index = some i }) (omega arith),
      )

      swapped-KeysSwapped : KeysSwapped xs i j swapped
      unfolding key
      swapped-KeysSwapped c = ground (arith, get_elem?-swapped c, p, q)

      swapped-perm : Perm (entries swapped) (entries xs)
      swapped-perm =
          let first = set-perm (entries xs) i (entry x) (entry y) (get_elem?-map entry xs i x p) in
          let kept : get_elem? (entries (set xs i (record y { index = some i }))) j
              ≡ some (entry y) =
            elim (ℕ_discrete i j) [
              | yes e ↦
                  get_elem?-map entry (set xs i (record y { index = some i })) j
                    (record y { index = some i })
                    (ground (arith, get_elem?-set xs i j (record y { index = some i })))
              | no ne ↦
                  get_elem?-map entry (set xs i (record y { index = some i })) j y
                    (ground (arith, get_elem?-set xs i j (record y { index = some i }), q))
            ] in
          let second = set-perm _ j (entry y) (entry x) kept in
          Perm.cons_inv {a = entry y} (
            rw (map-set entry _ j (record x { index = some j }))
              (Perm.trans second (rw (map-set entry xs i (record y { index = some i })) first)))

      swapped-Rearranged : Rearranged n xs swapped
      swapped-Rearranged = record {
        same_length = rw (length-set, length-set);
        same_entries = swapped-perm;
        indexed = λ h c z e. ground (arith, get_elem?-swapped c, h c z);
        fitting = λ fits h c z e. ground (arith, get_elem?-swapped c, h c z, h i x p, h j y q);
        kept = λ c h. ground (arith, get_elem?-swapped c);
      }

    -- A swap in range succeeds. Entry `i` is then at `j`.
    pub swap-some :
        (ys : List (Item A)) × (swap xs i j ≡ some ys)
        × KeysSwapped xs i j ys
        × Rearranged n xs ys
        × ((x : Item A)
            → get_elem? xs i ≡ some x
            → get_elem? ys j ≡ some (record x { index = some j }))
    unfolding swap
    swap-some =
        let (x, p) = get_elem?-some xs i (omega arith) in
        let (y, q) = get_elem?-some xs j (omega arith) in
        (
          swapped x y p q,
          rw (q, p),
          swapped-KeysSwapped x y p q,
          swapped-Rearranged x y p q,
          λ z e. ground (arith, get_elem?-swapped x y p q j, p, e),
        )
