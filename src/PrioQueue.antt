-- ===== src/PrioQueue.antt =====
-- internal/prioqueue/prioqueue.go: the min-heap queue, with the parts of Go's container/heap that
-- it calls (Push, Pop, Fix, Remove, and their loops up and down).
-- A panic, of an index out of range or of the code's own, is `none`. The fuel of a loop is more
-- than its number of rounds, and running out of it is `none` too.
pub mod Swap
pub mod Order
pub mod Invariant
pub mod Pop
pub mod Push
pub mod Remove
pub mod Update
mod Tests
use baamhackl.Base.{
  ℕ, zero, suc, ◌+◌, ◌-◌, ◌*◌, ◌/◌, ◌<◌, ◌≡◌, Bool, true, false, List, [], ◌∷◌, ◌++◌, Option, none,
  some, ltb, ◌==◌, if◌then◌else◌, length, get_elem?, set, take,
}

-- An `Item` is a pointer in the source: `id` stands for the pointer. `index` is `none` for
-- undefinedIndex.
pub record Item {ℓ} (A : Type ℓ) : Type ℓ where
  pub id : ℕ
  pub value : A
  pub index : Option ℕ

infixl 5 ◌>>=◌
abbrev pub ◌>>=◌ {ℓ κ} : {A : Type ℓ} {B : Type κ} → Option A → (A → Option B) → Option B
none >>= f = none
some a >>= f = f a

-- LessFunc.
abbrev pub LessFunc {ℓ} : Type ℓ → Type ℓ
LessFunc A = A → A → Bool

-- The fields `Less` and `items`; `next_id` is the next pointer that an allocation returns.
pub record PrioQueue {ℓ} (A : Type ℓ) : Type ℓ where
  pub less : LessFunc A
  pub items : List (Item A)
  pub next_id : ℕ

abbrev pub parent : ℕ → ℕ
parent j = (j - 1) / 2

module _ {ℓ} {A : Type ℓ} where
  -- heapAdapter.Less
  unfoldable pub less_at : LessFunc A → List (Item A) → ℕ → ℕ → Option Bool
  less_at lt items i j = do x ← get_elem? items i; y ← get_elem? items j; some (lt x.value y.value)

  -- heapAdapter.Swap
  unfoldable pub swap : List (Item A) → ℕ → ℕ → Option (List (Item A))
  swap items i j = do
    y ← get_elem? items j
    x ← get_elem? items i
    some (set (set items i (record y { index = some i })) j (record x { index = some j }))

  -- container/heap: `for { i := (j-1)/2; if i == j || !Less(j, i) { break }; Swap(i, j); j = i }`
  unfoldable pub up_loop : LessFunc A → ℕ → List (Item A) → ℕ → Option (List (Item A))
  up_loop lt zero items j = none
  up_loop lt (suc f) items j =
      let rise = swap items (parent j) j >>= λ ys. up_loop lt f ys (parent j) in
      let test = less_at lt items j (parent j) >>= λ b. if b then rise else some items in
      if parent j == j then some items else test

  unfoldable pub up : LessFunc A → List (Item A) → ℕ → Option (List (Item A))
  unfolding up_loop less_at swap
  up lt items j = up_loop lt (suc j) items j

  -- container/heap, in down: the index of the smaller child of `i` among the first `n` items.
  unfoldable pub smaller_child : LessFunc A → List (Item A) → ℕ → ℕ → Option ℕ
  smaller_child lt items i n =
      let j1 = 2 * i + 1 in
      let j2 = j1 + 1 in
      if ltb j2 n then (less_at lt items j2 j1 >>= λ b. some (if b then j2 else j1)) else some j1

  -- container/heap: the loop of down. The result has the index at which it ended.
  unfoldable pub down_loop : LessFunc A → ℕ → List (Item A) → ℕ → ℕ → Option (List (Item A) × ℕ)
  down_loop lt zero items i n = none
  down_loop lt (suc f) items i n =
      let step : Option (List (Item A) × ℕ) = do
        j ← smaller_child lt items i n
        b ← less_at lt items j i
        let sink = swap items i j >>= λ ys. down_loop lt f ys j n
        if b then sink else some (items, i)
      in if ltb (2 * i + 1) n then step else some (items, i)

  -- container/heap: down, which returns whether the item moved (`i > i0`).
  unfoldable pub down : LessFunc A → List (Item A) → ℕ → ℕ → Option (List (Item A) × Bool)
  unfolding down_loop smaller_child less_at swap
  down lt items i0 n = do (ys, i) ← down_loop lt (suc n) items i0 n; some (ys, ltb i0 i)

  -- container/heap, in Fix and Remove: `if !down(h, i, n) { up(h, i) }`
  unfoldable pub sift : LessFunc A → List (Item A) → ℕ → ℕ → Option (List (Item A))
  unfolding down up
  sift lt items i n = do (ys, moved) ← down lt items i n; if moved then some ys else up lt ys i

  -- heapAdapter.Pop: the last item is taken off and loses its index.
  unfoldable pub adapter_pop : List (Item A) → Option (Item A × List (Item A))
  adapter_pop items = do
    item ← get_elem? items (length items - 1)
    some (record item { index = none }, take (length items - 1) items)

  -- heapAdapter.Push: an item that is part of a heap already is a panic.
  unfoldable pub adapter_push : List (Item A) → Item A → Option (List (Item A))
  adapter_push items item = elim item.index [
    | some i ↦ none
    | none ↦ some (items ++ record item { index = some (length items) } ∷ [])
  ]

  abbrev pub len : PrioQueue A → ℕ
  len q = length q.items

  unfoldable pub empty_queue : LessFunc A → PrioQueue A
  empty_queue lt = record { less = lt; items = []; next_id = 0 }

  -- Push, with container/heap's `h.Push(x); up(h, h.Len()-1)`.
  -- The result is the pointer to the new item.
  unfoldable pub push : PrioQueue A → A → Option (ℕ × PrioQueue A)
  unfolding adapter_push up
  push q value = do
    let item : Item A = record { id = q.next_id; value = value; index = none }
    grown ← adapter_push q.items item
    ys ← up q.less grown (length grown - 1)
    some (item.id, record q { items = ys; next_id = q.next_id + 1 })

  -- heap.Pop: `n := h.Len() - 1; h.Swap(0, n); down(h, 0, n); return h.Pop()`
  unfoldable pub heap_pop : PrioQueue A → Option (Item A × PrioQueue A)
  unfolding swap down adapter_pop
  heap_pop q = do
    let n = length q.items - 1
    xs ← swap q.items 0 n
    (ys, moved) ← down q.less xs 0 n
    (item, rest) ← adapter_pop ys
    some (item, record q { items = rest })

  -- Pop: nil for an empty queue.
  unfoldable pub pop : PrioQueue A → Option (Option A × PrioQueue A)
  unfolding heap_pop
  pop q =
      if len q == 0 then some (none, q) else (heap_pop q >>= λ (item, r). some (some item.value, r))

  -- Peek
  unfoldable pub peek : PrioQueue A → Option A
  peek q = get_elem? q.items 0 >>= λ x. some x.value

  unfoldable pub clear_loop : ℕ → PrioQueue A → Option (PrioQueue A)
  unfolding pop
  clear_loop zero q = some q
  clear_loop (suc count) q = pop q >>= λ (_, r). clear_loop count r

  -- Clear
  unfoldable pub clear : PrioQueue A → Option (PrioQueue A)
  unfolding clear_loop
  clear q = clear_loop (len q) q

  -- The item behind a pointer, if it is in the queue. One that is not has no index.
  unfoldable pub find_item : List (Item A) → ℕ → Option (Item A)
  find_item [] id = none
  find_item (x ∷ xs) id = if x.id == id then some x else find_item xs id

  -- heap.Fix. An index that is not in the heap is a panic.
  unfoldable pub fix_at : PrioQueue A → ℕ → Option (PrioQueue A)
  unfolding sift
  fix_at q i = sift q.less q.items i (length q.items) >>= λ ys. some (record q { items = ys })

  -- Update
  unfoldable pub update : PrioQueue A → ℕ → Option (PrioQueue A)
  unfolding find_item fix_at
  update q id = do item ← find_item q.items id; i ← item.index; fix_at q i

  -- heap.Remove: `n := h.Len() - 1; if n != i { h.Swap(i, n); if !down(h, i, n) { up(h, i) } };
  -- return h.Pop()`
  unfoldable pub remove_at : PrioQueue A → ℕ → Option (Item A × PrioQueue A)
  unfolding swap sift adapter_pop
  remove_at q i =
      let n = length q.items - 1 in
      let moved = swap q.items i n >>= λ xs. sift q.less xs i n in
      (if n == i then some q.items else moved) >>= λ ys.
      adapter_pop ys >>= λ (item, rest). some (item, record q { items = rest })

  -- Remove
  unfoldable pub remove : PrioQueue A → ℕ → Option (Item A × PrioQueue A)
  unfolding find_item remove_at
  remove q id = do item ← find_item q.items id; i ← item.index; remove_at q i
