-- ===== src/Scheduler/Tests.antt =====
-- A run of the scheduler, and the theorems at the states that it goes through.
use baamhackl.Base.{
  ℕ, suc, ◌+◌, ◌≤◌, ◌<◌, ◌≡◌, ◌≢◌, ◌⊎◌, refl, true, false, Option, none, some, List, [], ◌∷◌, ◌++◌,
  arith, length, count, ◌^◌,
}
use baamhackl.Base.Int.{ℤ, pos}
use baamhackl.Scheduler.{
  GoError, next_after_duration, stop_request, Task, Scheduler, new, add, start, loop_round,
  run_task, pop_next_locked, stop_round,
}
use baamhackl.Scheduler.Queues.{IsSound, queued, new-IsSound}
use baamhackl.Scheduler.Queues.Pick.{Picks, pop_next_locked-Picks}
use baamhackl.Scheduler.Ops.{delays, stop_round-outcome}
use baamhackl.Scheduler.System.{
  System, Step, Reach, initial, here, next, adds, launches, starts, stops, ends,
}
use baamhackl.Scheduler.System.Invariant.{initial-Inv, Reach-Inv, seqs_of}
use baamhackl.Scheduler.System.Safety.{Reach-once, Reach-slots, Step-stopped, Reach-no_panic}

abbrev task : ℕ → ℕ → ℕ → Task
task fn seq attempts = record {
  fn = fn;
  seq = seq;
  next_after = 0;
  attempt_count = attempts;
  seq_item = none;
  time_item = none;
}

-- Two tasks are added, the second with a delay; the loop starts and launches the first.
added : (y : System) × Reach (initial 2) y
unfolding new add next_after_duration
added =
    let first : (y : System) × Reach (initial 2) y =
      (_, next here (adds 7 [] _ 1 (omega arith) refl)) in
    (_, next first.1 (adds 8 ((100, pos 50) ∷ []) _ 2 (omega arith) refl))

launched_one : (y : System) × Reach (initial 2) y
unfolding added new add next_after_duration start loop_round
launched_one =
    let started : (y : System) × Reach (initial 2) y = (_, next added.1 (starts _ refl)) in
    (_, next started.1 (launches 120 (task 7 1 0) _ (omega arith) refl))

stopped_one : (y : System) × Reach (initial 2) y
stopped_one = (_, next launched_one.1 stops)

Reach-once_example :
    (count 1 (queued launched_one.0.sched)
        + count 1 (seqs_of launched_one.0.running)
        + count 1 launched_one.0.over
      ≡ count 1 launched_one.0.added)
    × (count 1 launched_one.0.added ≤ 1)
Reach-once_example = Reach-once 2 1 launched_one.1

Reach-slots_example : length launched_one.0.running ≤ 2
unfolding launched_one added new add next_after_duration start loop_round
Reach-slots_example = Reach-slots 2 2 launched_one.1 (omega arith)

-- After a stop request the task that runs ends.
last_end : (z : System) × Step stopped_one.0 z
unfolding stopped_one launched_one added new add next_after_duration start loop_round run_task
    stop_request
last_end = (_, ends [] [] (task 7 1 0) 200 none _ refl refl)

Step-stopped_example :
    (last_end.0.sched.loop_stop_requested ≡ true)
    × (length last_end.0.running ≤ length stopped_one.0.running)
    × (last_end.0.sched.loop_active_count ≤ stopped_one.0.sched.loop_active_count)
unfolding stopped_one stop_request
Step-stopped_example = Step-stopped last_end.1 (Reach-Inv stopped_one.1 (initial-Inv 2)) refl

Reach-no_panic_example :
    ((fn : ℕ) (ds : List (ℕ × ℤ))
      → suc launched_one.0.counter < 2 ^ 63
      → add launched_one.0.sched launched_one.0.counter (some fn) (delays ds) ≢ none)
    × ((now : ℕ) → loop_round launched_one.0.sched now ≢ none)
    × ((before after : List Task) (t : Task) (now : ℕ) (result : Option GoError)
        → launched_one.0.running ≡ before ++ t ∷ after
        → run_task launched_one.0.sched t now result ≢ none)
    × (stop_round launched_one.0.sched ≢ none)
Reach-no_panic_example = Reach-no_panic 2 launched_one.1

-- At instant 140 the second task, due at 150, waits; the queue by insertion order is empty.
pop_next_locked-Picks_example :
    Picks launched_one.0.sched 140 (pop_next_locked launched_one.0.sched 140)
pop_next_locked-Picks_example =
    pop_next_locked-Picks launched_one.0.sched 140 (Reach-Inv launched_one.1 (initial-Inv 2)).sound

stop_round-outcome_example :
    ((stop_round (new 2) ≡ some (new 2, false))
      × (((new 2).loop_active_count ≢ 0) ⊎ ((new 2).task_active_count ≢ 0)))
    ⊎ ((s' : Scheduler) × (stop_round (new 2) ≡ some (s', true))
        × IsSound s'
        × ((new 2).loop_active_count ≡ 0)
        × ((new 2).task_active_count ≡ 0)
        × (queued s' ≡ [])
        × (s'.task_context_cancelled ≡ true)
        × (s'.task_active_count ≡ 0)
        × (s'.loop_active_count ≡ 0)
        × (s'.slots ≡ (new 2).slots)
        × (s'.loop_stop_requested ≡ (new 2).loop_stop_requested))
stop_round-outcome_example = stop_round-outcome (new 2) (new-IsSound 2)
