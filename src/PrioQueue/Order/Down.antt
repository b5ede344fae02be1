-- ===== src/PrioQueue/Order/Down.antt =====
-- container/heap's down moves an item towards the leaves; with up behind it, as in Fix and Remove,
-- it restores the heap order around one changed item.
use baamhackl.Base.{
  ℕ, zero, suc, ◌+◌, ◌*◌, ◌≤◌, ◌<◌, ◌≡◌, ◌⊎◌, refl, List, some, arith, ltb, length, Bool-cases, inl,
  inr, Option, Bool, true, false,
}
use baamhackl.PrioQueue.{Item, LessFunc, parent, smaller_child, down_loop, down, sift}
use baamhackl.PrioQueue.Swap.{
  AllFit, IsOrder, KeysSwapped, key, less_at-some, swap-some, Rearranged, Rearranged-refl,
  Rearranged-trans,
}
use baamhackl.PrioQueue.Order.{IsHeap, IsUpReady, IsSiftReady, Restores}
use baamhackl.PrioQueue.Order.Up.{up-Restores}

module _ {ℓ} {A : Type ℓ} (fits : A → Bool) (rank : A → ℕ) (lt : LessFunc A)
    (order : IsOrder rank fits lt) where
  record IsSmallerChild (n : ℕ) (xs : List (Item A)) (i j : ℕ) : Type 0 where
    inside : j < n
    child : (j ≡ 2 * i + 1) ⊎ (j ≡ 2 * i + 2)
    least : (c : ℕ) → 0 < c → c < n → parent c ≡ i → key rank xs j ≤ key rank xs c

  smaller_child-some :
      (n : ℕ) (xs : List (Item A)) (i : ℕ)
      → 2 * i + 1 < n
      → n ≤ length xs
      → AllFit fits xs
      → (j : ℕ) × (smaller_child lt xs i n ≡ some j) × IsSmallerChild n xs i j
  unfolding smaller_child
  smaller_child-some n xs i h size ok = elim (Bool-cases (ltb (2 * i + 1 + 1) n)) [
    | inl two ↦
        let less =
          less_at-some rank fits lt xs (2 * i + 1 + 1) (2 * i + 1) order ok (ground arith)
            (ground arith) in
        elim (Bool-cases (ltb (key rank xs (2 * i + 1 + 1)) (key rank xs (2 * i + 1)))) [
          | inl b ↦ (
            2 * i + 1 + 1,
            ground (arith, less),
            record { inside = ground arith; child = omega arith; least = λ c p q r. ground arith },
          )
          | inr b ↦ (
            2 * i + 1,
            ground (arith, less),
            record { inside = ground arith; child = omega arith; least = λ c p q r. ground arith },
          )
        ]
    | inr one ↦ (
      2 * i + 1,
      ground arith,
      record { inside = omega arith; child = omega arith; least = λ c p q r. ground arith },
    )
  ]

  -- Where the loop of `down` that began at `i0` stands: it has not moved, or the edge above is fine.
  abbrev Moved : ℕ → List (Item A) → ℕ → Type 0
  Moved i0 xs i = (i ≡ i0) ⊎ ((i0 < i) × (key rank xs (parent i) ≤ key rank xs i))

  swap-IsSiftReady :
      (n : ℕ) (xs ys : List (Item A)) (i j i0 : ℕ)
      → IsSiftReady rank n xs i
      → Moved i0 xs i
      → IsSmallerChild n xs i j
      → key rank xs j < key rank xs i
      → KeysSwapped rank xs i j ys
      → IsSiftReady rank n ys j × Moved i0 ys j
  swap-IsSiftReady n xs ys i j i0 v m s below at = (
    record {
      edges = λ c p q r t. ground (arith, at c, at (parent c), v.edges c, v.bridged j, s.least c);
      bridged = λ c p q r t. ground (arith, at c, at (parent j), v.edges c);
    },
    ground (arith, at j, at (parent j)),
  )

  -- What the loop of `down` returns: the list and the place where the item came to rest.
  abbrev Sinks : ℕ → ℕ → List (Item A) → Option (List (Item A) × ℕ) → Type ℓ
  Sinks n i0 xs r =
      (ys : List (Item A)) × (i : ℕ) × (r ≡ some (ys, i))
      × IsUpReady rank n ys i
      × Moved i0 ys i
      × Rearranged n xs ys

  Sinks-trans :
      (n i0 : ℕ) (xs ys : List (Item A)) (r : Option (List (Item A) × ℕ))
      → Rearranged n xs ys
      → Sinks n i0 ys r
      → Sinks n i0 xs r
  Sinks-trans n i0 xs ys r s (zs, k, e, u, m, t) = (zs, k, e, u, m, Rearranged-trans s t)

  down_loop-Sinks :
      (f n i0 : ℕ) (xs : List (Item A)) (i : ℕ)
      → n < f + i
      → i ≤ n
      → n ≤ length xs
      → AllFit fits xs
      → IsSiftReady rank n xs i
      → Moved i0 xs i
      → Sinks n i0 xs (down_loop lt f xs i n)
  unfolding down_loop
  down_loop-Sinks zero n i0 xs i fuel inside size ok v m = absurd (omega arith)
  down_loop-Sinks (suc f) n i0 xs i fuel inside size ok v m =
      elim (Bool-cases (ltb (2 * i + 1) n)) [
        | inl more ↦
            let (j, found, s) = smaller_child-some n xs i (ground arith) size ok in
            let less = less_at-some rank fits lt xs j i order ok (omega arith) (ground arith) in
            elim (Bool-cases (ltb (key rank xs j) (key rank xs i))) [
              | inl below ↦
                  let (ys, done, at, r, _) = swap-some rank n xs i j size (ground arith) s.inside in
                  let (w, m') = swap-IsSiftReady n xs ys i j i0 v m s (ground arith) at in
                  rw (more, found, less, below, done)
                    (Sinks-trans n i0 xs ys _ r (
                      down_loop-Sinks f n i0 ys j (omega arith) (omega arith)
                        (omega (arith, r.same_length)) (r.fitting fits ok) w m'))
              | inr settled ↦ (
                xs,
                i,
                rw (more, found, less, settled),
                record {
                  edges = λ c p q r. ground (arith, v.edges c, s.least c);
                  bridged = v.bridged;
                },
                m,
                Rearranged-refl n xs,
              )
            ]
        | inr leaf ↦ (
          xs,
          i,
          ground arith,
          record { edges = λ c p q r. ground (arith, v.edges c); bridged = v.bridged },
          m,
          Rearranged-refl n xs,
        )
      ]

  -- `down`, from an item whose edges may be out of order on either side: if it moves, the whole
  -- is a heap, and otherwise only the edge above the item is left to mend.
  pub down-Sinks :
      (n : ℕ) (xs : List (Item A)) (i : ℕ)
      → i ≤ n
      → n ≤ length xs
      → AllFit fits xs
      → IsSiftReady rank n xs i
      → (ys : List (Item A)) × (((down lt xs i n ≡ some (ys, true)) × IsHeap rank n ys)
          ⊎ ((down lt xs i n ≡ some (ys, false)) × IsUpReady rank n ys i))
        × Rearranged n xs ys
  unfolding down
  down-Sinks n xs i inside size ok v =
      let (ys, k, done, u, m, r) =
        down_loop-Sinks (suc n) n i xs i (omega arith) inside size ok v (inl refl) in
      (
        ys,
        elim m [
          | inl e ↦ inr (rw done (ground arith), rw e at u)
          | inr (l, above) ↦ inl (rw done (ground arith), λ c p q. ground (arith, u.edges c))
        ],
        r,
      )

  -- `if !down(h, i, n) { up(h, i) }` restores the heap around one changed item.
  pub sift-Restores :
      (n : ℕ) (xs : List (Item A)) (i : ℕ)
      → i < n
      → n ≤ length xs
      → AllFit fits xs
      → IsSiftReady rank n xs i
      → Restores rank n xs (sift lt xs i n)
  unfolding sift
  sift-Restores n xs i inside size ok v =
      let (ys, outcome, r) = down-Sinks n xs i (omega arith) size ok v in
      elim outcome [
        | inl (e, heap) ↦ (ys, rw e, heap, r)
        | inr (e, u) ↦
            let (zs, e', heap, s) =
              up-Restores fits rank lt order n ys i inside (omega (arith, r.same_length))
                (r.fitting fits ok) u in
            (zs, rw (e, e'), heap, Rearranged-trans r s)
      ]

  -- From the root nothing is left to mend.
  pub down_root-Restores :
      (n : ℕ) (xs : List (Item A))
      → n ≤ length xs
      → AllFit fits xs
      → IsSiftReady rank n xs 0
      → (ys : List (Item A)) × (moved : Bool) × (down lt xs 0 n ≡ some (ys, moved))
        × IsHeap rank n ys
        × Rearranged n xs ys
  down_root-Restores n xs size ok v =
      let (ys, outcome, r) = down-Sinks n xs 0 (omega arith) size ok v in
      elim outcome [
        | inl (e, heap) ↦ (ys, true, e, heap, r)
        | inr (e, u) ↦ (ys, false, e, λ c p q. u.edges c p q (omega arith), r)
      ]
