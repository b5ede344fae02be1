-- ===== src/Watch/Pending.antt =====
-- The pending tasks of watch/handler.go together with the scheduler. A step is a critical section of the
-- handler or of the scheduler.
pub mod Names
pub mod Live
pub mod Ended
pub mod Once
use baamhackl.Base.{
  ℕ, suc, ◌<◌, ◌^◌, ◌≡◌, true, false, Option, some, none, List, [], ◌∷◌, ◌++◌, ◌==◌, if◌then◌else◌,
}
use baamhackl.Scheduler.{GoError, Task, Scheduler, run, run_task}
use baamhackl.Scheduler.System
use baamhackl.Scheduler.System.{
  System, initial, adds, launches, waits, returns, ends, starts, resizes, signals, stops, times_out,
  clears,
}
use baamhackl.FilePaths.{FilePath}
use baamhackl.Watch.{Handler, new_handler, Shared, handle_name, invoked}

-- A table by sequence numbers.
abbrev pub set_at {ℓ} : {A : Type ℓ} → ℕ → A → (ℕ → A) → ℕ → A
set_at seq x f a = if a == seq then x else f a

-- Beside the program's state: the name for which the handler added a task, for each of its sequence
-- numbers, and the result that a task's function has returned, until runTask has finished with it.
pub record WatchSystem : Type 0 where
  pub sys : System
  pub handler : Handler
  pub own : ℕ → Option FilePath
  pub results : ℕ → Option (Option GoError)

-- A server that has just started, for one handler.
abbrev pub started : ℕ → FilePath → WatchSystem
started num_cpu path = record {
  sys = initial num_cpu;
  handler = new_handler path;
  own = λ seq. none;
  results = λ seq. none;
}

abbrev pub shared : WatchSystem → Shared
shared y = record { handler = y.handler; sched = y.sys.sched; counter = y.sys.counter }

-- The sequence numbers given out, where the counter has gone from `old` to `new`.
abbrev pub noted : ℕ → ℕ → List ℕ → List ℕ
noted old new added = if new == old then added else new ∷ added

-- The names of the tasks, where the counter has gone from `old` to `new`.
abbrev pub owned : ℕ → ℕ → FilePath → (ℕ → Option FilePath) → ℕ → Option FilePath
owned old new name own = if new == old then own else set_at new (some name) own

-- A step of the scheduler that is none of this handler's: it ends no task of the handler, and it is not the
-- last round of Stop, which abandons tasks.
abbrev pub IsOther : {y z : System} → (ℕ → Option FilePath) → System.Step y z → Type 0
IsOther own (ends before after t now result s' split e) = own t.seq ≡ none
IsOther own (clears s' e) = true ≡ false
IsOther own (adds fn ds s' seq room e) = Unit
IsOther own (launches now t s' live e) = Unit
IsOther own (waits now timer s' live e) = Unit
IsOther own (returns now s' live e) = Unit
IsOther own (starts s' e) = Unit
IsOther own (resizes n) = Unit
IsOther own (signals b c d) = Unit
IsOther own stops = Unit
IsOther own times_out = Unit

pub data Step (y : WatchSystem) : WatchSystem → Type 0 where
  -- A change of a file is reported: handle, as long as the counter is not used up.
  changes :
      (fn : ℕ) (name : FilePath) (s' : Shared)
      → suc y.sys.counter < 2 ^ 63
      → handle_name (shared y) fn name ≡ some s'
      → Step y (record y {
        sys = record y.sys {
          sched = s'.sched;
          added = noted y.sys.counter s'.counter y.sys.added;
          counter = s'.counter;
        };
        handler = s'.handler;
        own = owned y.sys.counter s'.counter name y.own;
      })
  -- The function of a running task has returned, once in a run: the rest of invokeTask.
  invokes :
      (name : FilePath) (t : Task) (before after : List Task) (err : Option GoError)
      → y.sys.running ≡ before ++ t ∷ after
      → y.own t.seq ≡ some name
      → y.results t.seq ≡ none
      → Step y (record y {
        handler = invoked y.handler name err;
        results = set_at t.seq (some err) y.results;
      })
  -- The end of runTask for a task of the handler, with what its function has returned.
  finishes :
      (before after : List Task) (t : Task) (now : ℕ) (result : Option GoError) (s' : Scheduler)
      → y.sys.running ≡ before ++ t ∷ after
      → y.results t.seq ≡ some result
      → run_task y.sys.sched t now result ≡ some s'
      → Step y (record y {
        sys = record y.sys {
          sched = s';
          running = before ++ after;
          over = if (run t now result).1 then t.seq ∷ y.sys.over else y.sys.over;
        };
        results = set_at t.seq none y.results;
      })
  -- Any other step of the scheduler.
  schedules :
      (z : System) (st : System.Step y.sys z) → IsOther y.own st → Step y (record y { sys = z })

pub data Reach (x : WatchSystem) : WatchSystem → Type 0 where
  here : Reach x x
  next : {y z : WatchSystem} → Reach x y → Step y z → Reach x z
