-- ===== src/Scheduler/Ops.antt =====
-- What each operation does to a scheduler with sound queues: none of them panics.
use mathlib.Core.List.{perm_middle}
use mathlib.Core.List.Perm
use baamhackl.PrioQueue.Invariant.{Removed}
use baamhackl.Base.{
  ℕ, suc, ◌+◌, ◌-◌, ◌^◌, ◌<◌, ◌≡◌, ◌≢◌, refl, ap, true, false, Option, none, some, List, [], ◌∷◌,
  Perm, arith, ltb, Bool-cases, inl, inr, ◌⊎◌, ◌∙◌, if◌then◌else◌, ◌==◌, ◌&&◌, ◌||◌,
}
use baamhackl.Base.Int.{ℤ}
use baamhackl.PrioQueue.{PrioQueue, clear, len}
use baamhackl.PrioQueue.Pop.{clear-empties}
use baamhackl.Scheduler.{
  GoError, Task, Scheduler, ScheduleOption, LoopAction, returned, waiting, launched,
  next_sequence_number, next_after_duration, time_add, apply_options, enqueue, add, run, run_task,
  pop_next_locked, dispatch, loop_round, stop_round,
}
use baamhackl.Scheduler.Queues.{
  IsSound, IsFree, SameCounts, SameCounts-notified, queued, seqs, enqueue-IsSound, seqs-Removed,
  fits_order, fits_time, seq_of, due_of,
}
use baamhackl.Scheduler.Queues.Pick.{pop_next_locked-Picks}

-- The options of Add in the package: NextAfterDuration calls.
abbrev pub delays : List (ℕ × ℤ) → List ScheduleOption
delays [] = []
delays ((now, d) ∷ ds) = next_after_duration now d ∷ delays ds

-- Options change the due time alone.
apply_delays-IsFree :
    (ds : List (ℕ × ℤ)) (t : Task)
    → IsFree t
    → IsFree (apply_options (delays ds) t) × ((apply_options (delays ds) t).seq ≡ t.seq)
unfolding apply_options next_after_duration
apply_delays-IsFree [] t f = (f, refl)
apply_delays-IsFree ((now, d) ∷ ds) t f =
    apply_delays-IsFree ds (record t { next_after = time_add now d })
      (record { numbered = f.numbered; no_seq_item = f.no_seq_item; no_time_item = f.no_time_item })

-- Below 2^63 the next number is one more.
pub next_sequence_number-suc :
    (counter : ℕ) → suc counter < 2 ^ 63 → next_sequence_number counter ≡ suc counter
unfolding next_sequence_number
next_sequence_number-suc counter h = ground arith

-- A sequence number is never 0, also where the 64-bit counter wraps around.
pub next_sequence_number-pos : (counter : ℕ) → 0 < next_sequence_number counter
unfolding next_sequence_number
next_sequence_number-pos counter = ground arith

add-enqueue :
    (s s' : Scheduler) (counter fn : ℕ) (opts : List ScheduleOption)
    → enqueue s (
        apply_options opts (record {
          fn = fn;
          seq = next_sequence_number counter;
          next_after = 0;
          attempt_count = 0;
          seq_item = none;
          time_item = none;
        }))
      ≡ some s'
    → add s counter (some fn) opts
      ≡ some (record s' { loop_notification = true }, next_sequence_number counter)
unfolding add
add-enqueue s s' counter fn opts e = rw e

-- Add queues exactly the new task, under the next sequence number.
pub add-IsSound :
    (s : Scheduler) (counter fn : ℕ) (ds : List (ℕ × ℤ))
    → IsSound s
    → suc counter < 2 ^ 63
    → (s' : Scheduler) × (add s counter (some fn) (delays ds) ≡ some (s', suc counter))
      × IsSound s'
      × Perm (queued s') (suc counter ∷ queued s)
      × SameCounts s s'
add-IsSound s counter fn ds v h =
    let t : Task = record {
      fn = fn;
      seq = next_sequence_number counter;
      next_after = 0;
      attempt_count = 0;
      seq_item = none;
      time_item = none;
    } in
    let next = next_sequence_number-suc counter h in
    let (free, same) =
      apply_delays-IsFree ds t
        (record { numbered = rw next (omega arith, h); no_seq_item = refl; no_time_item = refl }) in
    let (s', done, sound, perm, counts) = enqueue-IsSound s (apply_options (delays ds) t) v free in
    (
      record s' { loop_notification = true },
      add-enqueue s s' counter fn (delays ds) done
          ∙ ap (λ n. some (record s' { loop_notification = true }, n)) next,
      record { by_order = sound.by_order; by_time = sound.by_time },
      rw (same ∙ next) at perm,
      SameCounts-notified s s' true counts,
    )

-- run changes nothing that decides a task's identity or its queue pointers.
run-IsFree :
    (t : Task) (now : ℕ) (result : Option GoError)
    → IsFree t
    → IsFree (run t now result).0 × ((run t now result).0.seq ≡ t.seq)
unfolding run
run-IsFree t now result f = ground arith

-- The tail of runTask.
abbrev settle : Scheduler → Scheduler
settle s2 =
    let more = ltb 0 (len s2.tasks_by_order) || ltb 0 (len s2.tasks_by_time) in
    record s2 {
      loop_notification = if more then true else s2.loop_notification;
      task_finished = true;
    }

run_task-finished :
    (s : Scheduler) (t : Task) (now : ℕ) (result : Option GoError)
    → (run t now result).1 ≡ true
    → run_task s t now result
      ≡ some (settle (record s { task_active_count = s.task_active_count - 1 }))
unfolding run_task
run_task-finished s t now result e = rw e

run_task-again :
    (s s' : Scheduler) (t : Task) (now : ℕ) (result : Option GoError)
    → (run t now result).1 ≡ false
    → enqueue (record s { task_active_count = s.task_active_count - 1 }) (run t now result).0
      ≡ some s'
    → run_task s t now result ≡ some (settle s')
unfolding run_task
run_task-again s s' t now result e e' = rw (e, e')

-- A task that ran leaves the scheduler if it is finished, and is queued again if it is not.
pub run_task-IsSound :
    (s : Scheduler) (t : Task) (now : ℕ) (result : Option GoError)
    → IsSound s
    → IsFree t
    → (s' : Scheduler) × (run_task s t now result ≡ some s')
      × IsSound s'
      × Perm (queued s') (if (run t now result).1 then queued s else t.seq ∷ queued s)
      × (s'.slots ≡ s.slots)
      × (s'.loop_stop_requested ≡ s.loop_stop_requested)
      × (s'.loop_active_count ≡ s.loop_active_count)
      × (s'.task_active_count ≡ s.task_active_count - 1)
run_task-IsSound s t now result v f = elim (Bool-cases (run t now result).1) [
  | inl e ↦ (
    settle (record s { task_active_count = s.task_active_count - 1 }),
    run_task-finished s t now result e,
    record { by_order = v.by_order; by_time = v.by_time },
    rw e (Perm.refl _),
    refl,
    refl,
    refl,
    refl,
  )
  | inr e ↦
      let (f', same) = run-IsFree t now result f in
      let (s', done, sound, perm, c) =
        enqueue-IsSound (record s { task_active_count = s.task_active_count - 1 })
          (run t now result).0 (record { by_order = v.by_order; by_time = v.by_time }) f' in
      let again : Perm (queued s') (if (run t now result).1 then queued s else t.seq ∷ queued s) =
        rw e (rw same at perm) in
      (
        settle s',
        run_task-again s s' t now result e done,
        record { by_order = sound.by_order; by_time = sound.by_time },
        again,
        c.same_slots,
        c.same_stop,
        c.same_loop,
        c.same_active,
      )
]

-- What a round of the loop that launched a task has done.
pub record Launches (s : Scheduler) (t : Task) (s' : Scheduler) : Type 0 where
  pub sound : IsSound s'
  pub free : IsFree t
  pub taken : Perm (t.seq ∷ queued s') (queued s)
  pub not_stopped : s.loop_stop_requested ≡ false
  pub had_slot : s.task_active_count < s.slots
  pub same_slots : s'.slots ≡ s.slots
  pub same_stop : s'.loop_stop_requested ≡ s.loop_stop_requested
  pub same_loop : s'.loop_active_count ≡ s.loop_active_count
  pub one_more : s'.task_active_count ≡ suc s.task_active_count

-- A round of the loop launches a task of the queues, or leaves the scheduler as it is.
abbrev pub RoundOutcome : Scheduler → Option (Scheduler × LoopAction) → Type 0
RoundOutcome s r =
    ((t : Task) × (s' : Scheduler) × (r ≡ some (s', launched t)) × Launches s t s')
    ⊎ ((wait : Option ℤ) × (r ≡ some (s, waiting wait)) × (s.loop_stop_requested ≡ false))
    ⊎ ((r ≡ some (s, returned)) × (s.loop_stop_requested ≡ true))

loop_round-picked :
    (s s' : Scheduler) (now : ℕ) (t : Option Task) (remaining : ℤ)
    → s.loop_stop_requested ≡ false
    → ltb s.task_active_count s.slots ≡ true
    → pop_next_locked s now ≡ some (s', t, remaining)
    → loop_round s now ≡ some (dispatch s' t remaining)
unfolding loop_round
loop_round-picked s s' now t remaining e f g = simp (e, f, g)

loop_round-stopped :
    (s : Scheduler) (now : ℕ) → s.loop_stop_requested ≡ true → loop_round s now ≡ some (s, returned)
unfolding loop_round
loop_round-stopped s now e = simp e

loop_round-full :
    (s : Scheduler) (now : ℕ)
    → s.loop_stop_requested ≡ false
    → ltb s.task_active_count s.slots ≡ false
    → loop_round s now ≡ some (s, waiting none)
unfolding loop_round
loop_round-full s now e f = simp (e, f)

module _ (s : Scheduler) (v : IsSound s) (going : s.loop_stop_requested ≡ false)
    (room : ltb s.task_active_count s.slots ≡ true) where
  due-Launches :
      (id : ℕ) (t : Task) (q : PrioQueue Task)
      → Removed fits_time due_of s.tasks_by_time id t q
      → Launches s
          (record t { time_item = none })
          (record s { tasks_by_time = q; task_active_count = s.task_active_count + 1 })
  due-Launches id t q removed =
      let fit : fits_time t ≡ true = removed.fit in
      record {
        sound = record { by_order = v.by_order; by_time = removed.valid };
        free = record { numbered = ground arith; no_seq_item = ground arith; no_time_item = refl };
        taken =
            Perm.trans (Perm.symm (perm_middle (seqs s.tasks_by_order) (seqs q)))
              (Perm.append_left (seqs s.tasks_by_order) (seqs-Removed removed));
        not_stopped = going;
        had_slot = ground arith;
        same_slots = refl;
        same_stop = refl;
        same_loop = refl;
        one_more = omega arith;
      }

  first-Launches :
      (id : ℕ) (t : Task) (q : PrioQueue Task)
      → Removed fits_order seq_of s.tasks_by_order id t q
      → Launches s
          (record t { seq_item = none })
          (record s { tasks_by_order = q; task_active_count = s.task_active_count + 1 })
  first-Launches id t q removed =
      let fit : fits_order t ≡ true = removed.fit in
      record {
        sound = record { by_order = removed.valid; by_time = v.by_time };
        free = record { numbered = ground arith; no_seq_item = refl; no_time_item = ground arith };
        taken = Perm.append_right (seqs s.tasks_by_time) (seqs-Removed removed);
        not_stopped = going;
        had_slot = ground arith;
        same_slots = refl;
        same_stop = refl;
        same_loop = refl;
        one_more = omega arith;
      }

-- A round of the loop never panics. After a stop request it returns; without a free slot it waits;
-- else it launches the task that popNextLocked picks, or waits if there is none.
pub loop_round-outcome : (s : Scheduler) (now : ℕ) → IsSound s → RoundOutcome s (loop_round s now)
unfolding dispatch
loop_round-outcome s now v = elim (Bool-cases s.loop_stop_requested) [
  | inl stopped ↦ inr (inr (loop_round-stopped s now stopped, stopped))
  | inr going ↦ elim (Bool-cases (ltb s.task_active_count s.slots)) [
    | inl room ↦ elim (pop_next_locked-Picks s now v) [
      | inl (id, t, q, e, due, removed, least) ↦ inl (
        _,
        _,
        loop_round-picked s _ now _ _ going room e,
        due-Launches s v going room id t q removed,
      )
      | inr rest ↦ elim rest [
        | inl (id, t, q, remaining, e, idle, removed, least) ↦ inl (
          _,
          _,
          loop_round-picked s _ now _ _ going room e,
          first-Launches s v going room id t q removed,
        )
        | inr (remaining, e, idle, none_left, left) ↦
            inr (inl (_, loop_round-picked s _ now _ _ going room e, going))
      ]
    ]
    | inr full ↦ inr (inl (none, loop_round-full s now going full, going))
  ]
]

stop_round-cleared :
    (s : Scheduler) (p q : PrioQueue Task)
    → (s.loop_active_count == 0 && s.task_active_count == 0) ≡ true
    → clear s.tasks_by_order ≡ some p
    → clear s.tasks_by_time ≡ some q
    → stop_round s
      ≡ some
          (record s { tasks_by_order = p; tasks_by_time = q; task_context_cancelled = true }, true)
unfolding stop_round
stop_round-cleared s p q idle e f = simp (idle, e, f)

-- Stop waits while the loop or a task is active. Otherwise it ends, with both queues empty and the
-- tasks' context cancelled.
pub stop_round-outcome :
    (s : Scheduler)
    → IsSound s
    → ((stop_round s ≡ some (s, false)) × ((s.loop_active_count ≢ 0) ⊎ (s.task_active_count ≢ 0)))
      ⊎ ((s' : Scheduler) × (stop_round s ≡ some (s', true))
          × IsSound s'
          × (s.loop_active_count ≡ 0)
          × (s.task_active_count ≡ 0)
          × (queued s' ≡ [])
          × (s'.task_context_cancelled ≡ true)
          × (s'.task_active_count ≡ 0)
          × (s'.loop_active_count ≡ 0)
          × (s'.slots ≡ s.slots)
          × (s'.loop_stop_requested ≡ s.loop_stop_requested))
unfolding stop_round
stop_round-outcome s v = elim (Bool-cases (s.loop_active_count == 0 && s.task_active_count == 0)) [
  | inl idle ↦
      let (p, e, no_p, vp) = clear-empties fits_order seq_of s.tasks_by_order v.by_order in
      let (q, f, no_q, vq) = clear-empties fits_time due_of s.tasks_by_time v.by_time in
      inr (
        record s { tasks_by_order = p; tasks_by_time = q; task_context_cancelled = true },
        stop_round-cleared s p q idle e f,
        record { by_order = vp; by_time = vq },
        ground arith,
        ground arith,
        rw (no_p, no_q),
        refl,
        ground arith,
        ground arith,
        refl,
        refl,
      )
  | inr busy ↦ inl (ground arith, ground arith)
]
