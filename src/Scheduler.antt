-- ===== src/Scheduler.antt =====
-- internal/scheduler: tasks, their errors, and the scheduler that runs them.
-- A panic is `none`. An instant is a number of nanoseconds since the zero Time, so 0 is a Time whose
-- IsZero holds; a duration is an integer. A `*Task` in a queue is kept by value: the fields that
-- decide its place do not change while it is queued, and the item pointer that enqueue stores
-- behind Push is known before the push (it is the queue's next pointer).
pub mod Queues
pub mod Ops
pub mod System
mod Tests
use baamhackl.Base.{
  ℕ, suc, ◌+◌, ◌-◌, ◌%◌, ◌^◌, Bool, true, false, not, ◌&&◌, ◌||◌, Option, none, some, List, [], ◌∷◌,
  ltb, leb, ◌==◌, if◌then◌else◌,
}
use baamhackl.Base.Int.{ℤ, pos, negsuc, pos_part, neg_part, sub_ℕ, ltb_ℤ}
use baamhackl.PrioQueue
use baamhackl.PrioQueue.{PrioQueue, ◌>>=◌, empty_queue, push, pop, peek, clear, len}

-- An error value, as far as errors.As looks into it: a leaf, a `%w` wrapper, or a *TaskError.
pub data GoError : Type 0 where
  plain : ℕ → GoError
  wrapped : ℕ → GoError → GoError
  task_error : GoError → ℤ → GoError

pub record TaskError : Type 0 where
  pub err : GoError
  pub retry_delay : ℤ

-- The constant Stop.
abbrev pub stop_delay : ℤ
stop_delay = negsuc 0

-- errors.As with a *TaskError target: the first match along the chain of Unwrap.
unfoldable pub find_task_error : GoError → Option TaskError
find_task_error (plain m) = none
find_task_error (wrapped m e) = find_task_error e
find_task_error (task_error e d) = some (record { err = e; retry_delay = d })

-- AsTaskError, of an error that is not nil.
unfoldable pub classify : GoError → TaskError
unfolding find_task_error
classify e = elim (find_task_error e) [
  | some te ↦ te
  | none ↦ record { err = e; retry_delay = stop_delay }
]

-- AsTaskError
unfoldable pub as_task_error : Option GoError → Option TaskError
unfolding classify
as_task_error none = none
as_task_error (some e) = some (classify e)

-- (*TaskError).Permanent, true of nil.
unfoldable pub is_permanent : Option TaskError → Bool
is_permanent none = true
is_permanent (some te) = ltb_ℤ te.retry_delay (pos 0)

pub record Task : Type 0 where
  pub fn : ℕ  -- the function, by an identity
  pub seq : ℕ  -- int64, as its bit pattern
  pub next_after : ℕ
  pub attempt_count : ℕ
  pub seq_item : Option ℕ
  pub time_item : Option ℕ

-- Time.Add and Time.Sub.
abbrev pub time_add : ℕ → ℤ → ℕ
time_add t d = t + pos_part d - neg_part d

abbrev pub time_sub : ℕ → ℕ → ℤ
time_sub t u = sub_ℕ t u

-- (*Task).run at the instant `now`, where the function returned `result`. True if it is finished.
unfoldable pub run : Task → ℕ → Option GoError → Task × Bool
unfolding as_task_error is_permanent
run t now result =
    let t' = record t { attempt_count = t.attempt_count + 1 } in
    elim (as_task_error result) [
      | none ↦ (t', true)
      | some te ↦
          if is_permanent (some te)
          then (t', true)
          else (record t' { next_after = time_add now te.retry_delay }, false)
    ]

-- atomic.AddInt64(&seqCounter, 1), which wraps around.
abbrev pub add_int64 : ℕ → ℕ
add_int64 counter = (counter + 1) % 2 ^ 64

-- nextSequenceNumber, which is also the counter's new value. A result of 0 is passed over by a second
-- call, whose result is 1.
unfoldable pub next_sequence_number : ℕ → ℕ
next_sequence_number counter =
    let seq = add_int64 counter in if seq == 0 then add_int64 seq else seq

-- `(lhs.seq - rhs.seq) < 0` on int64.
unfoldable pub less_by_order : Task → Task → Bool
less_by_order a b = leb (2 ^ 63) ((a.seq + 2 ^ 64 - b.seq) % 2 ^ 64)

-- lhs.nextAfter.Before(rhs.nextAfter)
unfoldable pub less_by_time : Task → Task → Bool
less_by_time a b = ltb a.next_after b.next_after

-- An event is a channel with room for one value: whether it holds one.
pub record Scheduler : Type 0 where
  pub slots : ℕ
  pub tasks_by_order : PrioQueue Task
  pub tasks_by_time : PrioQueue Task
  pub loop_active_count : ℕ
  pub loop_stop_requested : Bool
  pub loop_notification : Bool
  pub loop_finished : Bool
  pub task_context_cancelled : Bool
  pub task_active_count : ℕ
  pub task_finished : Bool

-- New
unfoldable pub new : ℕ → Scheduler
unfolding empty_queue less_by_order less_by_time
new num_cpu = record {
  slots = num_cpu;
  tasks_by_order = empty_queue less_by_order;
  tasks_by_time = empty_queue less_by_time;
  loop_active_count = 0;
  loop_stop_requested = false;
  loop_notification = false;
  loop_finished = false;
  task_context_cancelled = false;
  task_active_count = 0;
  task_finished = false;
}

-- SetSlots
unfoldable pub set_slots : Scheduler → ℤ → Scheduler
set_slots s count =
    let n = if ltb_ℤ count (pos 1) then pos 1 else count in
    record s { slots = pos_part n; loop_notification = true }

abbrev pub is_none : Option ℕ → Bool
is_none none = true
is_none (some i) = false

-- enqueue
unfoldable pub enqueue : Scheduler → Task → Option Scheduler
unfolding push
enqueue s t =
    let by_order =
      push s.tasks_by_order (record t { seq_item = some s.tasks_by_order.next_id }) >>= λ (_, q).
      some (record s { tasks_by_order = q }) in
    let by_time =
      push s.tasks_by_time (record t { time_item = some s.tasks_by_time.next_id }) >>= λ (_, q).
      some (record s { tasks_by_time = q }) in
    if t.seq == 0
    then none
    else if not (is_none t.seq_item && is_none t.time_item)
    then none
    else if t.next_after == 0
    then by_order
    else by_time

-- ScheduleOption
abbrev pub ScheduleOption : Type 0
ScheduleOption = Task → Task

-- NextAfterDuration, at the instant `now`.
unfoldable pub next_after_duration : ℕ → ℤ → ScheduleOption
next_after_duration now d t = record t { next_after = time_add now d }

unfoldable pub apply_options : List ScheduleOption → Task → Task
apply_options [] t = t
apply_options (opt ∷ opts) t = apply_options opts (opt t)

-- Add, with the counter of sequence numbers. A nil function is `none`.
unfoldable pub add : Scheduler → ℕ → Option ℕ → List ScheduleOption → Option (Scheduler × ℕ)
unfolding next_sequence_number enqueue apply_options
add s counter none opts = none
add s counter (some fn) opts = do
  let seq = next_sequence_number counter
  let t : Task = record {
    fn = fn;
    seq = seq;
    next_after = 0;
    attempt_count = 0;
    seq_item = none;
    time_item = none;
  }
  s' ← enqueue s (apply_options opts t)
  some (record s' { loop_notification = true }, seq)

-- popNextLocked, its second part: the queue by insertion order.
unfoldable pub pop_by_order : Scheduler → ℤ → Option (Scheduler × Option Task × ℤ)
unfolding pop
pop_by_order s remaining = do
  (t, q) ← pop s.tasks_by_order
  let s' = record s { tasks_by_order = q }
  elim t [
    | none ↦ some (s', none, remaining)
    | some runtask ↦ some (s', some (record runtask { seq_item = none }), remaining)
  ]

-- popNextLocked, where a task of the time queue is due.
unfoldable pub pop_by_time : Scheduler → Option (Scheduler × Option Task × ℤ)
unfolding pop
pop_by_time s = do
  (t, q) ← pop s.tasks_by_time
  runtask ← t
  some (record s { tasks_by_time = q }, some (record runtask { time_item = none }), stop_delay)

-- popNextLocked
unfoldable pub pop_next_locked : Scheduler → ℕ → Option (Scheduler × Option Task × ℤ)
unfolding peek pop_by_order pop_by_time
pop_next_locked s now = elim (peek s.tasks_by_time) [
  | none ↦ pop_by_order s (negsuc 0)
  | some next_by_time ↦
      let remaining = time_sub next_by_time.next_after now in
      if ltb_ℤ (pos 0) remaining then pop_by_order s remaining else pop_by_time s
]

-- What one round of the loop does: return, wait (for the timer too, if it is set), or launch a task.
pub data LoopAction : Type 0 where
  returned : LoopAction
  waiting : Option ℤ → LoopAction
  launched : Task → LoopAction

-- The end of a round: `remaining` sets the timer.
unfoldable pub dispatch : Scheduler → Option Task → ℤ → Scheduler × LoopAction
dispatch s none remaining = (s, waiting (if ltb_ℤ (pos 0) remaining then some remaining else none))
dispatch s (some runtask) remaining =
    (record s { task_active_count = s.task_active_count + 1 }, launched runtask)

-- One round of loop.
unfoldable pub loop_round : Scheduler → ℕ → Option (Scheduler × LoopAction)
unfolding pop_next_locked dispatch
loop_round s now =
    let pick = pop_next_locked s now >>= λ (s', t, remaining). some (dispatch s' t remaining) in
    if s.loop_stop_requested
    then some (s, returned)
    else if ltb s.task_active_count s.slots
    then pick
    else some (s, waiting none)

-- The deferred function behind loop.
unfoldable pub loop_exit : Scheduler → Scheduler
loop_exit s = record s { loop_active_count = s.loop_active_count - 1; loop_finished = true }

-- runTask, where `t` ran at the instant `now` and its function returned `result`.
unfoldable pub run_task : Scheduler → Task → ℕ → Option GoError → Option Scheduler
unfolding run enqueue
run_task s t now result = do
  let (t', finished) = run t now result
  let s1 = record s { task_active_count = s.task_active_count - 1 }
  let again = enqueue s1 t'
  s2 ← if finished then some s1 else again
  let more = ltb 0 (len s2.tasks_by_order) || ltb 0 (len s2.tasks_by_time)
  some (record s2 {
    loop_notification = if more then true else s2.loop_notification;
    task_finished = true;
  })

-- Start
unfoldable pub start : Scheduler → Option Scheduler
start s =
    if s.loop_stop_requested || not (s.loop_active_count == 0)
    then none
    else some (record s { loop_active_count = s.loop_active_count + 1 })

-- The test in the loop of Quiesce: whether it returns nil.
unfoldable pub is_quiet : Scheduler → Bool
is_quiet s = s.task_active_count == 0 && len s.tasks_by_order == 0 && len s.tasks_by_time == 0

-- Stop, up to its loop.
unfoldable pub stop_request : Scheduler → Scheduler
stop_request s = record s { loop_stop_requested = true; loop_notification = true }

-- Stop, when its context is done.
unfoldable pub stop_timeout : Scheduler → Scheduler
stop_timeout s = record s { task_context_cancelled = true }

-- A round of the loop of Stop. With nothing active any more the queues are cleared, the loop ends and
-- the deferred call cancels the context; otherwise it waits on.
unfoldable pub stop_round : Scheduler → Option (Scheduler × Bool)
unfolding clear
stop_round s =
    let finish : Option (Scheduler × Bool) = do
      by_order ← clear s.tasks_by_order
      by_time ← clear s.tasks_by_time
      some (
        record s {
          tasks_by_order = by_order;
          tasks_by_time = by_time;
          task_context_cancelled = true;
        },
        true,
      )
    in if s.loop_active_count == 0 && s.task_active_count == 0 then finish else some (s, false)
