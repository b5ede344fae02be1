-- ===== src/Handler/Retry.antt =====
-- internal/handlerretrystrategy/strategy.go and internal/fuzzduration: how long to wait before the
-- next attempt. Floating point numbers are a parameter; durations are integers without a bound.
pub mod Delays
use baamhackl.Base.{ℕ, zero, suc, Bool, true, false, not, Option, none, some, if◌then◌else◌}
use baamhackl.Base.Int.{ℤ, pos, negsuc, ltb_ℤ, ◌+ℤ◌, pred_ℤ}
use baamhackl.Scheduler.{stop_delay}

-- float64 or float32: conversions from and to time.Duration, and the operations used. `half` is
-- x / 2.
pub record FloatOps (F : Type 0) : Type 0 where
  pub of_duration : ℤ → F
  pub to_duration : F → ℤ
  pub add : F → F → F
  pub mul : F → F → F
  pub neg : F → F
  pub half : F → F
  pub min : F → F → F

-- The fields of config.Handler that decide about retries.
pub record RetryConfig (F : Type 0) : Type 0 where
  pub retry_count : ℤ
  pub retry_delay_initial : ℤ
  pub retry_delay_factor : F
  pub retry_delay_max : ℤ

-- Strategy
pub record Strategy (F : Type 0) : Type 0 where
  pub remaining : ℤ
  pub delay : ℤ
  pub factor : F
  pub max : ℤ

-- New
unfoldable pub new : {F : Type 0} → RetryConfig F → Strategy F
new cfg = record {
  remaining = cfg.retry_count;
  delay = cfg.retry_delay_initial;
  factor = cfg.retry_delay_factor;
  max = cfg.retry_delay_max;
}

-- The delay after the next one.
unfoldable pub next_delay : {F : Type 0} → FloatOps F → Strategy F → ℤ
next_delay fl r =
    let d = fl.mul (fl.of_duration r.delay) r.factor in
    let capped = fl.min d (fl.of_duration r.max) in
    fl.to_duration (if ltb_ℤ (pos 0) r.max then capped else d)

-- Advance
unfoldable pub advance : {F : Type 0} → FloatOps F → Strategy F → Strategy F
unfolding next_delay
advance fl r =
    if ltb_ℤ r.remaining (pos 0)
    then r
    else record r { delay = next_delay fl r; remaining = pred_ℤ r.remaining }

-- Current
unfoldable pub current : {F : Type 0} → Strategy F → ℤ
current r = if ltb_ℤ (pos 0) r.remaining then r.delay else stop_delay

-- fuzzduration.Random, where `drawn` is what rand.Float32 returns.
unfoldable pub random : {F : Type 0} → FloatOps F → F → ℤ → F → ℤ
random fl drawn d factor =
    let fuzz = fl.add (fl.neg (fl.half factor)) (fl.mul factor drawn) in
    d +ℤ fl.to_duration (fl.mul fuzz (fl.of_duration d))
