-- ===== src/PrioQueue/Order.antt =====
-- The heap order, and container/heap's up and down, which restore it.
pub mod Up
pub mod Down
use baamhackl.Base.{ℕ, suc, zero, ◌+◌, ◌≤◌, ◌<◌, ◌≡◌, ◌≢◌, List, Option, some, length, arith}
use baamhackl.PrioQueue.{Item, parent}
use baamhackl.PrioQueue.Swap.{Rearranged, key}

module _ {ℓ} {A : Type ℓ} (rank : A → ℕ) where
  -- No item below `n` ranks before its parent.
  abbrev pub IsHeap : ℕ → List (Item A) → Type 0
  IsHeap n xs = (c : ℕ) → 0 < c → c < n → key rank xs (parent c) ≤ key rank xs c

  -- The parent of `i` ranks at most as high as the children of `i`.
  abbrev pub IsBridged : ℕ → List (Item A) → ℕ → Type 0
  IsBridged n xs i =
      (c : ℕ) → 0 < c → c < n → parent c ≡ i → 0 < i → key rank xs (parent i) ≤ key rank xs c

  -- Only the edge above `i` may be out of order.
  pub record IsUpReady (n : ℕ) (xs : List (Item A)) (i : ℕ) : Type 0 where
    pub edges : (c : ℕ) → 0 < c → c < n → c ≢ i → key rank xs (parent c) ≤ key rank xs c
    pub bridged : IsBridged n xs i

  -- Only the edges at `i` may be out of order.
  pub record IsSiftReady (n : ℕ) (xs : List (Item A)) (i : ℕ) : Type 0 where
    pub edges :
        (c : ℕ) → 0 < c → c < n → c ≢ i → parent c ≢ i → key rank xs (parent c) ≤ key rank xs c
    pub bridged : IsBridged n xs i

  -- The call returns a heap of the same entries.
  abbrev pub Restores : ℕ → List (Item A) → Option (List (Item A)) → Type ℓ
  Restores n xs r = (ys : List (Item A)) × (r ≡ some ys) × IsHeap n ys × Rearranged n xs ys

  root_least_below :
      (k n : ℕ) (xs : List (Item A)) (i : ℕ)
      → IsHeap n xs
      → i < k
      → i < n
      → key rank xs 0 ≤ key rank xs i
  root_least_below zero n xs i h f p = absurd (omega arith)
  root_least_below (suc k) n xs i h f p = ground (arith, h i, root_least_below k n xs (parent i) h)

  -- The root ranks lowest.
  pub root_least :
      (n : ℕ) (xs : List (Item A)) (i : ℕ) → IsHeap n xs → i < n → key rank xs 0 ≤ key rank xs i
  root_least n xs i h p = root_least_below (suc i) n xs i h (omega arith) p
