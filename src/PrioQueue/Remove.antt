-- ===== src/PrioQueue/Remove.antt =====
-- Remove, which reaches an item through its pointer and the index that it carries.
use mathlib.Core.List.Perm
use baamhackl.Base.{
  Bool, ℕ, suc, ◌-◌, ◌<◌, ◌≡◌, List, [], ◌∷◌, none, some, arith, length, get_elem?, ◌==◌,
  lt_of_get_elem?, ◌∙◌, take, Bool-cases, ==_iff, inl, inr, false,
}
use baamhackl.PrioQueue.{
  Item, PrioQueue, swap, sift, adapter_pop, find_item, update, remove_at, remove, parent,
}
use baamhackl.PrioQueue.Swap.{KeysSwapped, swap-some}
use baamhackl.PrioQueue.Order.{IsHeap, IsSiftReady}
use baamhackl.PrioQueue.Order.Down.{sift-Restores}
use baamhackl.PrioQueue.Invariant.{IsValid, Removed, adapter_pop-Removed}

module _ {ℓ} {A : Type ℓ} where
  pub find_item-get_elem? :
      (xs : List (Item A)) (id : ℕ) (x : Item A)
      → find_item xs id ≡ some x
      → (i : ℕ) × (get_elem? xs i ≡ some x)
  unfolding find_item
  find_item-get_elem? [] id x e = cc
  find_item-get_elem? (y ∷ xs) id x e = elim (Bool-cases (y.id == id)) [
    | inl here ↦ (0, ground arith)
    | inr past ↦ let (i, at) = find_item-get_elem? xs id x (ground arith) in (suc i, at)
  ]

module _ {ℓ} {A : Type ℓ} (fits : A → Bool) (rank : A → ℕ) where
  swap-IsSiftReady :
      (n i : ℕ) (xs ys : List (Item A))
      → IsHeap rank (suc n) xs
      → i < n
      → KeysSwapped rank xs i n ys
      → IsSiftReady rank n ys i
  swap-IsSiftReady n i xs ys h l at = record {
    edges = λ c p q r s. ground (arith, h c, at c, at (parent c));
    bridged = λ c p q r s. ground (arith, h c, h i, at c, at (parent i));
  }

  remove_at-inner :
      (q : PrioQueue A) (i : ℕ) (xs ys : List (Item A)) {p : Item A × List (Item A)}
      → (length q.items - 1 == i) ≡ false
      → swap q.items i (length q.items - 1) ≡ some xs
      → sift q.less xs i (length q.items - 1) ≡ some ys
      → adapter_pop ys ≡ some p
      → remove_at q i ≡ some (p.0, record q { items = p.1 })
  unfolding remove_at
  remove_at-inner q i xs ys ne s t u = rw (ne, s, t, u)

  remove_at-Removed :
      (q : PrioQueue A) (i : ℕ) (x : Item A)
      → IsValid fits rank q
      → get_elem? q.items i ≡ some x
      → (r : PrioQueue A) × (remove_at q i ≡ some (record x { index = none }, r))
        × Removed fits rank q x.id x.value r
  unfolding remove_at
  remove_at-Removed q i x v e =
      let inside = lt_of_get_elem? q.items i x e in
      let n = length q.items - 1 in
      elim (Bool-cases (n == i)) [
        | inl last ↦
            let (popped, removed) =
              adapter_pop-Removed fits rank q n q.items x v.order v.fitting (omega arith)
                (rw ((==_iff n i).0 last) e) (λ c p l. v.heap c p (omega arith)) v.indexed
                (Perm.refl _) in
            (record q { items = take n q.items }, rw (last, popped), removed)
        | inr inner ↦
            let (xs, swapped, at, r, moved) =
              swap-some rank (suc n) q.items i n (omega arith) (omega arith) (omega arith) in
            let (ys, sifted, heap, s) =
              sift-Restores fits rank q.less v.order n xs i (ground arith)
                (omega (arith, r.same_length)) (r.fitting fits v.fitting)
                (swap-IsSiftReady n i q.items xs (λ c p l. v.heap c p (omega arith)) (ground arith)
                  at) in
            let (popped, removed) =
              adapter_pop-Removed fits rank q n ys (record x { index = some n }) v.order
                (s.fitting fits (r.fitting fits v.fitting))
                (omega (arith, r.same_length, s.same_length)) (s.kept n (omega arith) ∙ moved x e)
                heap (s.indexed (r.indexed v.indexed)) (Perm.trans s.same_entries r.same_entries) in
            (
              record q { items = take n ys },
              remove_at-inner q i xs ys inner swapped sifted popped,
              removed,
            )
      ]

  remove-remove_at :
      (q : PrioQueue A) (id i : ℕ) (x : Item A)
      → find_item q.items id ≡ some x
      → x.index ≡ some i
      → remove q id ≡ remove_at q i
  unfolding remove
  remove-remove_at q id i x found e = rw (found, e)

  -- Remove takes off exactly the item behind the pointer, wherever it stands in the heap, and the
  -- queue stays valid.
  pub remove-Removed :
      (q : PrioQueue A) (id : ℕ) (x : Item A)
      → IsValid fits rank q
      → find_item q.items id ≡ some x
      → (r : PrioQueue A) × (remove q id ≡ some (record x { index = none }, r))
        × Removed fits rank q x.id x.value r
  remove-Removed q id x v found =
      let (i, e) = find_item-get_elem? q.items id x found in
      let (r, done, removed) = remove_at-Removed q i x v e in
      (r, remove-remove_at q id i x found (v.indexed i x e) ∙ done, removed)

  -- A pointer to an item that has left the queue: Update and Remove panic.
  pub remove-update-none :
      (q : PrioQueue A) (id : ℕ)
      → find_item q.items id ≡ none
      → (remove q id ≡ none) × (update q id ≡ none)
  unfolding remove update
  remove-update-none q id e = (rw e, rw e)
