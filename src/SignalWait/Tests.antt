-- ===== src/SignalWait/Tests.antt =====
-- Tests of internal/signalwait/signalwait.go: two signals arrive before anybody waits.
use baamhackl.Base.{ℕ, false, some, none, List, [], ◌∷◌, ◌≡◌, ◌⊎◌, refl}
use baamhackl.SignalWait.{received, stopped, wait}
use baamhackl.SignalWait.Kept.{Signals, started, Reach, here, next, arrives, IsIn, Reach-wait}

arrived : (y : Signals) × Reach started y
arrived =
    let one : (y : Signals) × Reach started y = (_, next here (arrives 2)) in
    (_, next one.1 (arrives 15))

Reach-wait_example :
    (((arrived.0.unseen ≡ []) × (arrived.0.waiter.ch ≡ none))
      ⊎ ((sig : ℕ) × (sigs : List ℕ) × (arrived.0.unseen ≡ sig ∷ sigs)
          × IsIn
              (record arrived.0.waiter { ch = none }, received sig)
              (wait arrived.0.waiter false)))
    × ((arrived.0.was_stopped ≡ false)
        ⊎ IsIn (arrived.0.waiter, stopped) (wait arrived.0.waiter false))
Reach-wait_example = Reach-wait arrived.0 false arrived.1

first_signal : arrived.0.waiter.ch ≡ some 2
unfolding arrived baamhackl.SignalWait.arrive baamhackl.SignalWait.setup_waiter
first_signal = refl
