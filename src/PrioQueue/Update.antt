-- ===== src/PrioQueue/Update.antt =====
-- Update, after a change of the value behind a pointer.
use baamhackl.Base.{
  Bool, true, ℕ, suc, ◌≡◌, ap, List, [], ◌∷◌, Perm, some, arith, length, get_elem?, set, ◌==◌,
  if◌then◌else◌, lt_of_get_elem?, ◌∙◌, length-set, Bool-cases, inl, inr,
}
use baamhackl.PrioQueue.{Item, PrioQueue, find_item, fix_at, update, parent}
use baamhackl.PrioQueue.Swap.{AllFit, entries, IsIndexed, key, get_elem?-set}
use baamhackl.PrioQueue.Order.{IsSiftReady}
use baamhackl.PrioQueue.Order.Down.{sift-Restores}
use baamhackl.PrioQueue.Invariant.{IsValid}

module _ {ℓ} {A : Type ℓ} where
  -- The caller gives the item behind the pointer another value.
  pub change_value : List (Item A) → ℕ → A → List (Item A)
  change_value [] id a = []
  change_value (x ∷ xs) id a =
      if x.id == id then record x { value = a } ∷ xs else x ∷ change_value xs id a

  find_item-change_value :
      (xs : List (Item A)) (id : ℕ) (a : A) (x : Item A)
      → find_item xs id ≡ some x
      → (i : ℕ) × (get_elem? xs i ≡ some x)
        × (change_value xs id a ≡ set xs i (record x { value = a }))
        × (find_item (change_value xs id a) id ≡ some (record x { value = a }))
  unfolding find_item change_value
  find_item-change_value [] id a x e = absurd (cc)
  find_item-change_value (y ∷ xs) id a x e = elim (Bool-cases (y.id == id)) [
    | inl here ↦
        let p : y ≡ x = cc (rw here at e) in
        (
          0,
          ap some p,
          rw here (ap {A = Item A} (λ z. record z { value = a } ∷ xs) p),
          rw (here, find_item, here) (ap {A = Item A} (λ z. some (record z { value = a })) p),
        )
    | inr past ↦
        let (i, at, changed, found) = find_item-change_value xs id a x (rw past at e) in
        (suc i, at, rw past (ap (λ zs. y ∷ zs) changed), rw (past, find_item, past) found)
  ]

module _ {ℓ} {A : Type ℓ} (fits : A → Bool) (rank : A → ℕ) where
  module _ (q : PrioQueue A) (i : ℕ) (x : Item A) (a : A) (v : IsValid fits rank q)
      (e : get_elem? q.items i ≡ some x) where
    abbrev changed : List (Item A)
    changed = set q.items i (record x { value = a })

    key-changed : (c : ℕ) → key rank changed c ≡ (if i == c then rank a else key rank q.items c)
    unfolding key
    key-changed c =
        ground (
          arith,
          get_elem?-set q.items i c (record x { value = a }) (lt_of_get_elem? q.items i x e),
        )

    changed-IsSiftReady : IsSiftReady rank (length q.items) changed i
    changed-IsSiftReady =
        let at = key-changed in
        record {
          edges = λ c p l r s. ground (arith, at c, at (parent c), v.heap c p l);
          bridged = λ c p l r s. ground (arith, at c, at (parent i), v.heap c p l, v.heap i s);
        }

    changed-IsIndexed : IsIndexed changed
    changed-IsIndexed c y f = ground (
      arith,
      get_elem?-set q.items i c (record x { value = a }) (lt_of_get_elem? q.items i x e),
      v.indexed c y,
      v.indexed i x e,
    )

    changed-AllFit : fits a ≡ true → AllFit fits changed
    changed-AllFit fit c y f = ground (
      arith,
      get_elem?-set q.items i c (record x { value = a }) (lt_of_get_elem? q.items i x e),
      v.fitting c y,
    )

    fix-IsValid :
        fits a ≡ true
        → (r : PrioQueue A) × (fix_at (record q { items = changed }) i ≡ some r)
          × IsValid fits rank r
          × Perm (entries r.items) (entries changed)
    unfolding fix_at
    fix-IsValid fit =
        let size = length-set q.items i (record x { value = a }) in
        let (ys, done, heap, r) =
          sift-Restores fits rank q.less v.order (length changed) changed i
            (omega (arith, lt_of_get_elem? q.items i x e, size)) (omega arith) (changed-AllFit fit)
            (rw size changed-IsSiftReady) in
        (
          record q { items = ys },
          rw done,
          record {
            order = v.order;
            fitting = r.fitting fits (changed-AllFit fit);
            heap = rw r.same_length heap;
            indexed = r.indexed changed-IsIndexed;
          },
          r.same_entries,
        )

  update-fix_at :
      (q : PrioQueue A) (id i : ℕ) (x : Item A)
      → find_item q.items id ≡ some x
      → x.index ≡ some i
      → update q id ≡ fix_at q i
  unfolding update
  update-fix_at q id i x found e = rw (found, e)

  -- After a change of the value behind a pointer, Update makes the queue valid again, with the
  -- changed entries and no others.
  pub update-IsValid :
      (q : PrioQueue A) (id : ℕ) (x : Item A) (a : A)
      → IsValid fits rank q
      → find_item q.items id ≡ some x
      → fits a ≡ true
      → (r : PrioQueue A) × (update (record q { items = change_value q.items id a }) id ≡ some r)
        × IsValid fits rank r
        × Perm (entries r.items) (entries (change_value q.items id a))
  update-IsValid q id x a v found fit =
      let (i, e, same, found') = find_item-change_value q.items id a x found in
      let (r, done, valid, perm) = fix-IsValid q i x a v e fit in
      (
        r,
        update-fix_at (record q { items = change_value q.items id a }) id i (record x { value = a })
              found' (v.indexed i x e)
            ∙ (rw same done),
        valid,
        rw same perm,
      )
