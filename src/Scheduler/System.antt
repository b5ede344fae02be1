-- ===== src/Scheduler/System.antt =====
-- The scheduler with the goroutines around it, as a step relation: callers of Add, SetSlots, Start and
-- Stop, the loop, and one goroutine for each task that runs. Each step is one critical section of
-- `s.mu`, so any interleaving is a sequence of steps.
pub mod Invariant
pub mod Safety
use baamhackl.Base.{
  ℕ, zero, suc, ◌+◌, ◌-◌, ◌^◌, ◌≤◌, ◌<◌, ◌≡◌, Bool, true, false, Option, none, some, List, [], ◌∷◌,
  ◌++◌, map, if◌then◌else◌,
}
use baamhackl.Base.Int.{ℤ}
use baamhackl.Scheduler.{
  GoError, Task, Scheduler, LoopAction, returned, waiting, launched, new, set_slots, add,
  loop_round, loop_exit, run, run_task, start, stop_request, stop_timeout, stop_round,
}
use baamhackl.Scheduler.Queues.{queued}
use baamhackl.Scheduler.Ops.{delays}

-- `running` are the tasks between their launch and the end of runTask. `added` are the sequence numbers
-- that Add has given out, and `over` those of the tasks that are finished or abandoned by Stop.
pub record System : Type 0 where
  pub sched : Scheduler
  pub running : List Task
  pub added : List ℕ
  pub over : List ℕ
  pub counter : ℕ

-- A process that has just called New.
abbrev pub initial : ℕ → System
initial num_cpu = record { sched = new num_cpu; running = []; added = []; over = []; counter = 0 }

-- The signals of the three events, set and received by anyone.
abbrev pub signal : Scheduler → Bool → Bool → Bool → Scheduler
signal s a b c = record s { loop_notification = a; loop_finished = b; task_finished = c }

pub data Step (y : System) : System → Type 0 where
  -- Add, as long as the 64-bit counter is not used up.
  adds :
      (fn : ℕ) (ds : List (ℕ × ℤ)) (s' : Scheduler) (seq : ℕ)
      → suc y.counter < 2 ^ 63
      → add y.sched y.counter (some fn) (delays ds) ≡ some (s', seq)
      → Step y (record y { sched = s'; added = seq ∷ y.added; counter = seq })
  -- A round of the loop.
  launches :
      (now : ℕ) (t : Task) (s' : Scheduler)
      → 0 < y.sched.loop_active_count
      → loop_round y.sched now ≡ some (s', launched t)
      → Step y (record y { sched = s'; running = t ∷ y.running })
  waits :
      (now : ℕ) (timer : Option ℤ) (s' : Scheduler)
      → 0 < y.sched.loop_active_count
      → loop_round y.sched now ≡ some (s', waiting timer)
      → Step y (record y { sched = s' })
  returns :
      (now : ℕ) (s' : Scheduler)
      → 0 < y.sched.loop_active_count
      → loop_round y.sched now ≡ some (s', returned)
      → Step y (record y { sched = loop_exit s' })
  -- The end of runTask for any of the running tasks, whatever its function returned.
  ends :
      (before after : List Task) (t : Task) (now : ℕ) (result : Option GoError) (s' : Scheduler)
      → y.running ≡ before ++ t ∷ after
      → run_task y.sched t now result ≡ some s'
      → Step y (record y {
        sched = s';
        running = before ++ after;
        over = if (run t now result).1 then t.seq ∷ y.over else y.over;
      })
  starts : (s' : Scheduler) → start y.sched ≡ some s' → Step y (record y { sched = s' })
  resizes : (count : ℤ) → Step y (record y { sched = set_slots y.sched count })
  signals : (a b c : Bool) → Step y (record y { sched = signal y.sched a b c })
  stops : Step y (record y { sched = stop_request y.sched })
  times_out : Step y (record y { sched = stop_timeout y.sched })
  -- The last round of Stop, which abandons what is still queued.
  clears :
      (s' : Scheduler)
      → stop_round y.sched ≡ some (s', true)
      → Step y (record y { sched = s'; over = queued y.sched ++ y.over })

pub data Reach (x : System) : System → Type 0 where
  here : Reach x x
  next : {y z : System} → Reach x y → Step y z → Reach x z
