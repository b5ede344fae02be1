-- ===== src/SignalWait.antt =====
-- internal/signalwait/signalwait.go: signals are kept in a buffer of one until somebody waits for them. Of
-- os/signal it is taken what is documented: a signal is sent to the channel without blocking.
pub mod Kept
mod Tests
use baamhackl.Base.{ℕ, Bool, true, false, Option, none, some, List, [], ◌∷◌, ◌++◌, if◌then◌else◌}

-- waiter: the channel of signals, whether signals are sent to it, and whether `active` is closed.
pub record Waiter : Type 0 where
  pub ch : Option ℕ
  pub is_notified : Bool
  pub is_closed : Bool

-- The results of wait: none after stop, the signal, or the error of the context.
pub data WaitResult : Type 0 where
  stopped : WaitResult
  received : ℕ → WaitResult
  cancelled : WaitResult

-- setup, and Setup
unfoldable pub setup_waiter : Waiter
setup_waiter = record { ch = none; is_notified = true; is_closed = false }

-- A signal arrives: it is dropped where the buffer is full or signals are not captured any more.
unfoldable pub arrive : Waiter → ℕ → Waiter
arrive w sig =
    if w.is_notified then elim w.ch [ none ↦ record w { ch = some sig } | some old ↦ w ] else w

-- stop: the channel is closed once.
unfoldable pub stop : Waiter → Waiter
stop w = record w { is_notified = false; is_closed = true }

-- wait, as the cases of its select that can go ahead, each with the waiter after it; without any it
-- blocks.
unfoldable pub wait : Waiter → Bool → List (Waiter × WaitResult)
wait w context_ended =
    (if w.is_closed then (w, stopped) ∷ [] else [])
    ++ (elim w.ch [ none ↦ [] | some sig ↦ (record w { ch = none }, received sig) ∷ [] ]
        ++ (if context_ended then (w, cancelled) ∷ [] else []))
