-- ===== src/PrioQueue/Pop.antt =====
-- Pop, Peek and Clear.
use mathlib.Core.List.Perm
use baamhackl.Base.{
  Bool, ℕ, zero, suc, ◌-◌, ◌≤◌, ◌<◌, ◌≡◌, refl, List, [], none, some, arith, length, get_elem?,
  get_elem?-some, All, ◌∙◌, lt_of_get_elem?, take,
}
use baamhackl.PrioQueue.{Item, PrioQueue, heap_pop, pop, peek, clear_loop, clear, parent}
use baamhackl.PrioQueue.Swap.{entries, KeysSwapped, swap-some, key-some}
use baamhackl.PrioQueue.Order.{IsHeap, IsSiftReady}
use baamhackl.PrioQueue.Order.Down.{down_root-Restores}
use baamhackl.PrioQueue.Invariant.{IsValid, Removed, adapter_pop-Removed, root-All, Removed-length}

module _ {ℓ} {A : Type ℓ} (fits : A → Bool) (rank : A → ℕ) where
  root_swap-IsSiftReady :
      (n : ℕ) (xs ys : List (Item A))
      → IsHeap rank (suc n) xs
      → KeysSwapped rank xs 0 n ys
      → IsSiftReady rank n ys 0
  root_swap-IsSiftReady n xs ys h at = record {
    edges = λ c p q r s. ground (arith, h c, at c, at (parent c));
    bridged = omega arith;
  }

  heap_pop-some :
      (q : PrioQueue A) (x : Item A)
      → IsValid fits rank q
      → get_elem? q.items 0 ≡ some x
      → (r : PrioQueue A) × (heap_pop q ≡ some (record x { index = none }, r))
        × Removed fits rank q x.id x.value r
  unfolding heap_pop
  heap_pop-some q x v e =
      let n = length q.items - 1 in
      let full = lt_of_get_elem? q.items 0 x e in
      let (xs, swapped, at, r, moved) =
        swap-some rank (suc n) q.items 0 n (omega arith) (omega arith) (omega arith) in
      let (ys, b, sunk, heap, s) =
        down_root-Restores fits rank q.less v.order n xs (omega (arith, r.same_length))
          (r.fitting fits v.fitting)
          (root_swap-IsSiftReady n q.items xs (λ c p l. v.heap c p (omega arith)) at) in
      let (popped, removed) =
        adapter_pop-Removed fits rank q n ys (record x { index = some n }) v.order
          (s.fitting fits (r.fitting fits v.fitting)) (omega (arith, r.same_length, s.same_length))
          (s.kept n (omega arith) ∙ moved x e) heap (s.indexed (r.indexed v.indexed))
          (Perm.trans s.same_entries r.same_entries) in
      (record q { items = take n ys }, rw (swapped, sunk, popped), removed)

  -- Pop on a valid queue that is not empty takes off the item that Peek shows. No value in the queue
  -- ranks lower, and the queue left over is valid and holds the other items.
  pub pop-Removed :
      (q : PrioQueue A)
      → IsValid fits rank q
      → 0 < length q.items
      → (id : ℕ) × (a : A) × (r : PrioQueue A) × (peek q ≡ some a)
        × (pop q ≡ some (some a, r))
        × Removed fits rank q id a r
        × All (λ (e : ℕ × A). rank a ≤ rank e.1) (entries q.items)
  unfolding pop peek
  pop-Removed q v h =
      let (x, e) = get_elem?-some q.items 0 h in
      let (r, popped, removed) = heap_pop-some q x v e in
      (
        x.id,
        x.value,
        r,
        rw e,
        ground (arith, popped),
        removed,
        rw (key-some rank q.items 0 x e) at (root-All fits rank q v),
      )

  -- Pop on an empty queue returns nil and changes nothing.
  pub pop-empty : (q : PrioQueue A) → length q.items ≡ 0 → pop q ≡ some (none, q)
  unfolding pop
  pop-empty q h = ground arith

  -- Peek on an empty queue returns nil.
  pub peek-empty : (q : PrioQueue A) → length q.items ≡ 0 → peek q ≡ none
  unfolding peek
  peek-empty q h = let e : q.items ≡ [] = grind arith in rw e

  clear_loop-empties :
      (n : ℕ) (q : PrioQueue A)
      → IsValid fits rank q
      → length q.items ≡ n
      → (r : PrioQueue A) × (clear_loop n q ≡ some r) × (r.items ≡ []) × IsValid fits rank r
  unfolding clear_loop
  clear_loop-empties zero q v h = (q, refl, ground arith, v)
  clear_loop-empties (suc n) q v h =
      let (id, a, r, _, popped, removed, _) = pop-Removed q v (omega arith) in
      rw popped
        (clear_loop-empties n r removed.valid (omega (arith, Removed-length fits rank q r removed)))

  -- Clear leaves a valid queue with no items.
  pub clear-empties :
      (q : PrioQueue A)
      → IsValid fits rank q
      → (r : PrioQueue A) × (clear q ≡ some r) × (r.items ≡ []) × IsValid fits rank r
  unfolding clear
  clear-empties q v = clear_loop-empties (length q.items) q v refl
