-- ===== src/Watch/Buckets.antt =====
-- watch/metrics.go and makeHandlerTimeBuckets of watch/handlermetrics.go: the buckets of the histograms.
-- Floating point numbers, their order `gt`, `round` and the exponential range are parameters.
pub mod Ascending
use baamhackl.Base.{
  ℕ, zero, suc, Bool, true, false, Option, none, some, List, [], ◌∷◌, length, get_elem?, set, take,
  if◌then◌else◌,
}
use baamhackl.Base.Int.{ℤ, pos, ltb_ℤ}
use baamhackl.PrioQueue.{◌>>=◌}
use baamhackl.Config.{second}

module _ {F : Type 0} (gt : F → F → Bool) (round : F → F) where
  -- dst == 0 || v > buckets[dst-1]; an index out of range is none.
  unfoldable pub is_new : ℕ → F → List F → Option Bool
  is_new zero v buckets = some true
  is_new (suc d) v buckets = get_elem? buckets d >>= λ last. some (gt v last)

  -- The loop, with the number of buckets to go, over the one array that is read and written.
  unfoldable pub compact : ℕ → ℕ → ℕ → List F → Option (List F)
  compact zero i dst buckets = some (take dst buckets)
  compact (suc n) i dst buckets = get_elem? buckets i >>= λ x.
      (let kept = compact n (suc i) (suc dst) (set buckets dst (round x)) in
        let skipped = compact n (suc i) dst buckets in
        is_new dst (round x) buckets >>= λ new. if new then kept else skipped)

  -- makeSecondsBuckets
  unfoldable pub make_seconds_buckets : (ℤ → ℤ → ℕ → List F) → ℤ → ℤ → ℕ → Option (List F)
  make_seconds_buckets range min max count =
      let buckets = range min max count in compact (length buckets) 0 0 buckets

  -- makeHandlerTimeBuckets, for the timeout of the handler.
  unfoldable pub make_handler_time_buckets : (ℤ → ℤ → ℕ → List F) → ℤ → Option (List F)
  make_handler_time_buckets range timeout =
      make_seconds_buckets range second (if ltb_ℤ second timeout then timeout else pos 1000000001)
        10
