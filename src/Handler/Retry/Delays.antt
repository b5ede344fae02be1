-- ===== src/Handler/Retry/Delays.antt =====
-- The delays of internal/handlerretrystrategy/strategy.go, and when they end.
use baamhackl.Base.{ℕ, zero, suc, ◌+◌, ◌<◌, true, ◌≡◌, refl, sym, ap, ◌-◌, arith, subst}
use baamhackl.Base.Int.{ℤ, pos, ltb_ℤ, pred_ℤ, ◌≤ℤ◌, pos_part, neg_part}
use baamhackl.Scheduler.{stop_delay}
use baamhackl.Handler.Retry.{FloatOps, RetryConfig, Strategy, new, advance, next_delay, current}

-- What float64 does, for an order `le` of its values: a product with a factor of at least `one` does
-- not fall, the minimum is the greatest value below both, and a value between two durations that
-- float64 holds exactly is converted to a duration between them, which it holds exactly too.
pub record FloatLaws {F : Type 0} (fl : FloatOps F) (one : F) (Exact : ℤ → Type 0) : Type 1 where
  pub le : F → F → Type 0
  pub of_duration_le : (d e : ℤ) → d ≤ℤ e → le (fl.of_duration d) (fl.of_duration e)
  pub le_mul :
      (d : ℤ) (f : F) → pos 0 ≤ℤ d → le one f → le (fl.of_duration d) (fl.mul (fl.of_duration d) f)
  pub min_le : (x y : F) → le (fl.min x y) y
  pub le_min : (x y z : F) → le z x → le z y → le z (fl.min x y)
  pub convert :
      (d e : ℤ) (x : F)
      → Exact d
      → Exact e
      → le (fl.of_duration d) x
      → le x (fl.of_duration e)
      → (d ≤ℤ fl.to_duration x) × (fl.to_duration x ≤ℤ e) × Exact (fl.to_duration x)

-- Advance, n times.
unfoldable pub advance_times : {F : Type 0} → FloatOps F → ℕ → Strategy F → Strategy F
advance_times fl zero r = r
advance_times fl (suc n) r = advance fl (advance_times fl n r)

-- A configuration with a limit on the delay, where the number of retries is no less than 0, the initial
-- delay lies between 0 and the limit, the factor is at least `one`, and float64 holds the initial delay and
-- the limit exactly.
pub record IsLimited {F : Type 0} (fl : FloatOps F) (one : F) (Exact : ℤ → Type 0)
    (laws : FloatLaws fl one Exact) (cfg : RetryConfig F) (count : ℕ) : Type 0 where
  pub counted : cfg.retry_count ≡ pos count
  pub positive : pos 0 ≤ℤ cfg.retry_delay_initial
  pub limit : ltb_ℤ (pos 0) cfg.retry_delay_max ≡ true
  pub below_limit : cfg.retry_delay_initial ≤ℤ cfg.retry_delay_max
  pub grows : laws.le one cfg.retry_delay_factor
  pub initial_exact : Exact cfg.retry_delay_initial
  pub max_exact : Exact cfg.retry_delay_max

module _ {F : Type 0} {fl : FloatOps F} {one : F} {Exact : ℤ → Type 0}
    (laws : FloatLaws fl one Exact) (cfg : RetryConfig F) (count : ℕ)
    (ok : IsLimited fl one Exact laws cfg count) where
  -- The state after some calls of Advance: with `left` retries to go.
  record IsAt (r : Strategy F) (left : ℤ) : Type 0 where
    remaining : r.remaining ≡ left
    lower : cfg.retry_delay_initial ≤ℤ r.delay
    upper : r.delay ≤ℤ r.max
    same_max : r.max ≡ cfg.retry_delay_max
    limited : ltb_ℤ (pos 0) r.max ≡ true
    growing : laws.le one r.factor
    delay_exact : Exact r.delay
    limit_exact : Exact r.max

  new-IsAt : IsAt (new cfg) (pos count)
  unfolding new
  new-IsAt = record {
    remaining = ok.counted;
    lower = omega arith;
    upper = ok.below_limit;
    same_max = refl;
    limited = ok.limit;
    growing = ok.grows;
    delay_exact = ok.initial_exact;
    limit_exact = ok.max_exact;
  }

  next_delay-capped :
      (r : Strategy F)
      → ltb_ℤ (pos 0) r.max ≡ true
      → next_delay fl r
        ≡ fl.to_duration (fl.min (fl.mul (fl.of_duration r.delay) r.factor) (fl.of_duration r.max))
  unfolding next_delay
  next_delay-capped r e = rw (e, next_delay) refl

  next_delay-between :
      (r : Strategy F) (left : ℤ)
      → IsAt r left
      → (r.delay ≤ℤ next_delay fl r) × (next_delay fl r ≤ℤ r.max) × Exact (next_delay fl r)
  next_delay-between r left at =
      let x = fl.min (fl.mul (fl.of_duration r.delay) r.factor) (fl.of_duration r.max) in
      let above : laws.le (fl.of_duration r.delay) x =
        laws.le_min (fl.mul (fl.of_duration r.delay) r.factor) (fl.of_duration r.max)
          (fl.of_duration r.delay)
          (laws.le_mul r.delay r.factor (omega (arith, ok.positive, at.lower)) at.growing)
          (laws.of_duration_le r.delay r.max at.upper) in
      let below : laws.le x (fl.of_duration r.max) =
        laws.min_le (fl.mul (fl.of_duration r.delay) r.factor) (fl.of_duration r.max) in
      subst (λ (y : ℤ). (r.delay ≤ℤ y) × (y ≤ℤ r.max) × Exact y)
        (sym (next_delay-capped r at.limited))
        (laws.convert r.delay r.max x at.delay_exact at.limit_exact above below)

  advance-counts :
      (r : Strategy F) (m : ℕ)
      → r.remaining ≡ pos m
      → advance fl r ≡ record r { delay = next_delay fl r; remaining = pred_ℤ (pos m) }
  unfolding advance
  advance-counts r m e =
      let counted : pred_ℤ r.remaining ≡ pred_ℤ (pos m) = ap pred_ℤ e in
      ground (arith, counted, ap pos_part e, ap neg_part e)

  advance-IsAt : (r : Strategy F) (n : ℕ) → IsAt r (pos (suc n)) → IsAt (advance fl r) (pos n)
  advance-IsAt r n at =
      let (not_less, not_more, exact) = next_delay-between r (pos (suc n)) at in
      subst (λ q. IsAt q (pos n)) (sym (advance-counts r (suc n) at.remaining))
        (record {
          remaining = refl;
          lower = omega (arith, at.lower, not_less);
          upper = not_more;
          same_max = at.same_max;
          limited = at.limited;
          growing = at.growing;
          delay_exact = exact;
          limit_exact = at.limit_exact;
        })

  advance_times-IsAt :
      (n left : ℕ) → n + left ≡ count → IsAt (advance_times fl n (new cfg)) (pos left)
  unfolding advance_times
  advance_times-IsAt zero left e = subst (λ k. IsAt (new cfg) (pos k)) (omega arith) new-IsAt
  advance_times-IsAt (suc n) left e =
      advance-IsAt (advance_times fl n (new cfg)) left
        (advance_times-IsAt n (suc left) (omega arith))

  current-some : (r : Strategy F) (m : ℕ) → r.remaining ≡ pos (suc m) → current r ≡ r.delay
  unfolding current
  current-some r m e = ground (arith, ap pos_part e, ap neg_part e)

  current-stop : (r : Strategy F) → r.remaining ≡ pos 0 → current r ≡ stop_delay
  unfolding current
  current-stop r e = ground (arith, ap pos_part e, ap neg_part e)

  current-between :
      (r : Strategy F) (left : ℕ)
      → IsAt r (pos (suc left))
      → (cfg.retry_delay_initial ≤ℤ current r)
        × (current r ≤ℤ cfg.retry_delay_max)
        × (current r ≤ℤ (advance fl r).delay)
  current-between r left at =
      let now = current-some r left at.remaining in
      let upper : current r ≤ℤ cfg.retry_delay_max =
        subst (λ d. current r ≤ℤ d) at.same_max (rw now at.upper) in
      let not_less : current r ≤ℤ next_delay fl r =
        rw now (next_delay-between r (pos (suc left)) at).0 in
      let later : (advance fl r).delay ≡ next_delay fl r =
        ap (λ (q : Strategy F). q.delay) (advance-counts r (suc left) at.remaining) in
      (rw now at.lower, upper, subst (λ d. current r ≤ℤ d) (sym later) not_less)

  delay_before :
      (n left : ℕ)
      → n + suc left ≡ count
      → (cfg.retry_delay_initial ≤ℤ current (advance_times fl n (new cfg)))
        × (current (advance_times fl n (new cfg)) ≤ℤ cfg.retry_delay_max)
        × (current (advance_times fl n (new cfg)) ≤ℤ (advance_times fl (suc n) (new cfg)).delay)
  unfolding advance_times
  delay_before n left e =
      current-between (advance_times fl n (new cfg)) left (advance_times-IsAt n (suc left) e)

-- Where the configuration limits the delay to no less than an initial delay that is not negative, with a
-- factor of at least one, and float64 holds the initial delay and the limit exactly, the delays before the
-- last attempt lie between the initial delay and the limit, and none is shorter than the one before it;
-- after as many calls of Advance as there are retries, Current returns Stop. It takes that float64
-- multiplies, compares and converts monotonically, and converts to exact durations between exact ones.
pub retry-delays :
    {F : Type 0} {fl : FloatOps F} {one : F} {Exact : ℤ → Type 0} (laws : FloatLaws fl one Exact)
    (cfg : RetryConfig F) (count : ℕ)
    → IsLimited fl one Exact laws cfg count
    → ((n : ℕ)
        → n < count
        → (cfg.retry_delay_initial ≤ℤ current (advance_times fl n (new cfg)))
          × (current (advance_times fl n (new cfg)) ≤ℤ cfg.retry_delay_max)
          × (current (advance_times fl n (new cfg)) ≤ℤ (advance_times fl (suc n) (new cfg)).delay))
      × (current (advance_times fl count (new cfg)) ≡ stop_delay)
retry-delays {fl = fl} laws cfg count ok = (
  λ n l. delay_before laws cfg count ok n (count - suc n) (omega arith),
  current-stop laws cfg count ok (advance_times fl count (new cfg))
      (advance_times-IsAt laws cfg count ok count 0 (omega arith)).remaining,
)
