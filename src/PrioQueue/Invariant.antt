-- ===== src/PrioQueue/Invariant.antt =====
-- The invariant of a queue, and what taking off the last item of a heap does.
use mathlib.Core.List.{map-append}
use mathlib.Core.List.Perm
use baamhackl.Base.{
  true, Bool, ℕ, suc, ◌-◌, ◌≤◌, ◌<◌, ◌≡◌, refl, List, [], ◌∷◌, ◌++◌, Perm, none, some, arith,
  length, get_elem?, take, All, length-take, length-perm, length-map, sym, ap, append_end-perm, ◌∙◌,
  get_elem?-take, get_elem?-take-some, take-append_last,
}
use baamhackl.PrioQueue.{Item, PrioQueue, adapter_pop, parent, LessFunc, empty_queue}
use baamhackl.PrioQueue.Swap.{AllFit, entry, entries, IsIndexed, IsOrder, key, key-congr}
use baamhackl.PrioQueue.Order.{IsHeap, root_least}

module _ {ℓ} {A : Type ℓ} where
  adapter_pop-some :
      (n : ℕ) (ys : List (Item A)) (x : Item A)
      → length ys ≡ suc n
      → get_elem? ys n ≡ some x
      → adapter_pop ys ≡ some (record x { index = none }, take n ys)
  unfolding adapter_pop
  adapter_pop-some n ys x size e = let last : length ys - 1 ≡ n = omega arith in rw (last, e)

  entries-take :
      (n : ℕ) (ys : List (Item A)) (x : Item A)
      → length ys ≡ suc n
      → get_elem? ys n ≡ some x
      → Perm (entry x ∷ entries (take n ys)) (entries ys)
  entries-take n ys x size e =
      let whole : entries (take n ys) ++ entry x ∷ [] ≡ entries ys =
        sym (map-append entry (take n ys) (x ∷ [])) ∙ ap entries (take-append_last n ys x size e) in
      Perm.symm (rw whole at (append_end-perm (entries (take n ys)) (entry x)))

  IsIndexed-take : (n : ℕ) (ys : List (Item A)) → IsIndexed ys → IsIndexed (take n ys)
  IsIndexed-take n ys h c x e = h c x (get_elem?-take-some n ys c x e).1

  AllFit-take :
      (fits : A → Bool) (n : ℕ) (ys : List (Item A)) → AllFit fits ys → AllFit fits (take n ys)
  AllFit-take fits n ys h c x e = h c x (get_elem?-take-some n ys c x e).1

module _ {ℓ} {A : Type ℓ} (fits : A → Bool) (rank : A → ℕ) where
  IsHeap-take : (n : ℕ) (ys : List (Item A)) → IsHeap rank n ys → IsHeap rank n (take n ys)
  IsHeap-take n ys h c p q =
      rw
        (
          key-congr rank (take n ys) ys c (get_elem?-take n ys c q),
          key-congr rank (take n ys) ys (parent c) (get_elem?-take n ys (parent c) (omega arith)),
        )
        (h c p q)

  -- The values pass the test under which `less` is the order of the ranks. The items are a heap
  -- by rank, and each knows its index.
  pub record IsValid (q : PrioQueue A) : Type ℓ where
    pub order : IsOrder rank fits q.less
    pub fitting : AllFit fits q.items
    pub heap : IsHeap rank (length q.items) q.items
    pub indexed : IsIndexed q.items

  All-keys :
      (b : ℕ) (xs : List (Item A))
      → ((i : ℕ) → i < length xs → b ≤ key rank xs i)
      → All (λ (e : ℕ × A). b ≤ rank e.1) (entries xs)
  unfolding key
  All-keys b [] h = tt
  All-keys b (x ∷ xs) h = (h 0 (omega arith), All-keys b xs λ i p. h (suc i) (omega arith))

  -- The root of a valid queue ranks lowest of all.
  pub root-All :
      (q : PrioQueue A)
      → IsValid q
      → All (λ (e : ℕ × A). key rank q.items 0 ≤ rank e.1) (entries q.items)
  root-All q v =
      All-keys (key rank q.items 0) q.items
        λ i p. root_least rank (length q.items) q.items i v.heap p

  -- `r` is `q` without the item behind the pointer `id`, whose value was `a`.
  pub record Removed (q : PrioQueue A) (id : ℕ) (a : A) (r : PrioQueue A) : Type ℓ where
    pub valid : IsValid r
    pub same : Perm ((id, a) ∷ entries r.items) (entries q.items)
    pub kept : r.next_id ≡ q.next_id
    pub fit : fits a ≡ true

  -- heapAdapter.Pop takes the last item off a list whose other items are a heap.
  pub adapter_pop-Removed :
      (q : PrioQueue A) (n : ℕ) (ys : List (Item A)) (x : Item A)
      → IsOrder rank fits q.less
      → AllFit fits ys
      → length ys ≡ suc n
      → get_elem? ys n ≡ some x
      → IsHeap rank n ys
      → IsIndexed ys
      → Perm (entries ys) (entries q.items)
      → (adapter_pop ys ≡ some (record x { index = none }, take n ys))
        × Removed q x.id x.value (record q { items = take n ys })
  adapter_pop-Removed q n ys x order ok size e heap indexed same = (
    adapter_pop-some n ys x size e,
    record {
      valid = record {
        order = order;
        fitting = AllFit-take fits n ys ok;
        heap = rw (length-take n ys (omega arith)) (IsHeap-take n ys heap);
        indexed = IsIndexed-take n ys indexed;
      };
      same = Perm.trans (entries-take n ys x size e) same;
      kept = refl;
      fit = ok n x e;
    },
  )

  pub Removed-length :
      (q r : PrioQueue A) {id : ℕ} {a : A}
      → Removed q id a r
      → length q.items ≡ suc (length r.items)
  Removed-length q r v =
      omega (arith, length-perm v.same, length-map entry r.items, length-map entry q.items)

  -- A queue with no items is valid.
  pub empty_queue-IsValid : (lt : LessFunc A) → IsOrder rank fits lt → IsValid (empty_queue lt)
  unfolding empty_queue
  empty_queue-IsValid lt order = record {
    order = order;
    fitting = λ c x e. absurd (cc);
    heap = λ c p q. absurd (omega arith);
    indexed = λ c x e. absurd (cc);
  }
