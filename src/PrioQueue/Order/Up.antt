-- ===== src/PrioQueue/Order/Up.antt =====
-- container/heap's up restores the heap order above an item that is too deep.
use baamhackl.Base.{
  Bool, ℕ, zero, suc, ◌≤◌, ◌<◌, List, arith, ltb, length, ℕ_discrete, Bool-cases, inl, inr,
}
use baamhackl.PrioQueue.{Item, LessFunc, parent, up_loop, up}
use baamhackl.PrioQueue.Swap.{
  AllFit, IsOrder, KeysSwapped, key, less_at-some, swap-some, Rearranged-refl, Rearranged-trans,
}
use baamhackl.PrioQueue.Order.{IsUpReady, Restores}

module _ {ℓ} {A : Type ℓ} (fits : A → Bool) (rank : A → ℕ) (lt : LessFunc A)
    (order : IsOrder rank fits lt) where
  swap-IsUpReady :
      (n : ℕ) (xs ys : List (Item A)) (j : ℕ)
      → 0 < j
      → j < n
      → IsUpReady rank n xs j
      → key rank xs j < key rank xs (parent j)
      → KeysSwapped rank xs (parent j) j ys
      → IsUpReady rank n ys (parent j)
  swap-IsUpReady n xs ys j pos inside v below at = record {
    edges = λ c p q r. ground (arith, at c, at (parent c), v.edges c, v.bridged c);
    bridged =
        λ c p q r s. ground (arith, at c, at (parent (parent j)), v.edges c, v.edges (parent j));
  }

  up_loop-Restores :
      (f n : ℕ) (xs : List (Item A)) (j : ℕ)
      → j < f
      → j < n
      → n ≤ length xs
      → AllFit fits xs
      → IsUpReady rank n xs j
      → Restores rank n xs (up_loop lt f xs j)
  unfolding up_loop
  up_loop-Restores zero n xs j fuel inside size ok v = absurd (omega arith)
  up_loop-Restores (suc f) n xs j fuel inside size ok v = elim (ℕ_discrete (parent j) j) [
    | yes e ↦ (xs, ground arith, λ c p q. v.edges c p q (omega arith), Rearranged-refl n xs)
    | no e ↦
        rw (less_at-some rank fits lt xs j (parent j) order ok (omega arith) (omega arith))
          (elim (Bool-cases (ltb (key rank xs j) (key rank xs (parent j)))) [
            | inl below ↦
                let (ys, done, at, r, _) =
                  swap-some rank n xs (parent j) j size (omega arith) inside in
                let (zs, rest, heap, s) =
                  up_loop-Restores f n ys (parent j) (omega arith) (omega arith)
                    (omega (arith, r.same_length)) (r.fitting fits ok)
                    (swap-IsUpReady n xs ys j (omega arith) inside v (ground arith) at) in
                (zs, ground (arith, done, rest), heap, Rearranged-trans r s)
            | inr settled ↦
                (xs, ground arith, λ c p q. ground (arith, v.edges c), Rearranged-refl n xs)
          ])
  ]

  -- An item that may rank before its parent, in an otherwise ordered heap, finds its place.
  pub up-Restores :
      (n : ℕ) (xs : List (Item A)) (j : ℕ)
      → j < n
      → n ≤ length xs
      → AllFit fits xs
      → IsUpReady rank n xs j
      → Restores rank n xs (up lt xs j)
  unfolding up
  up-Restores n xs j inside size ok v =
      up_loop-Restores (suc j) n xs j (omega arith) inside size ok v
