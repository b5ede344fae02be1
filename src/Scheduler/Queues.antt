-- ===== src/Scheduler/Queues.antt =====
-- The two queues of the scheduler: their invariant, and what enqueue and popNextLocked do to them.
pub mod Pick
use mathlib.Core.List.{perm_middle}
use mathlib.Core.List.Perm
use baamhackl.Base.{
  ℕ, zero, suc, ◌+◌, ◌-◌, ◌%◌, ◌^◌, ◌≤◌, ◌<◌, ◌≡◌, ◌≢◌, refl, Bool, true, false, ◌&&◌, Option, none,
  some, List, [], ◌∷◌, ◌++◌, map, Perm, arith, ltb, leb, ◌==◌, length, get_elem?, Bool-cases, inl,
  inr, ◌⊎◌,
}
use baamhackl.PrioQueue.{Item, PrioQueue, empty_queue, push}
use baamhackl.PrioQueue.Swap.{IsOrder, entries}
use baamhackl.PrioQueue.Invariant.{IsValid, Removed, empty_queue-IsValid}
use baamhackl.PrioQueue.Push.{Added, push-Added}
use baamhackl.Scheduler.{Task, Scheduler, less_by_order, less_by_time, is_none, enqueue, new}

abbrev pub seq_of : Task → ℕ
seq_of t = t.seq

abbrev pub due_of : Task → ℕ
due_of t = t.next_after

-- A sequence number that is not 0 and not negative as an int64.
abbrev pub is_numbered : Task → Bool
is_numbered t = ltb 0 t.seq && ltb t.seq (2 ^ 63)

abbrev pub fits_order : Task → Bool
fits_order t = is_numbered t && is_none t.time_item && t.next_after == 0

abbrev pub fits_time : Task → Bool
fits_time t = is_numbered t && is_none t.seq_item && ltb 0 t.next_after

-- Tasks with no due time wait in a heap by sequence number, the others in a heap by due time.
pub record IsSound (s : Scheduler) : Type 0 where
  pub by_order : IsValid fits_order seq_of s.tasks_by_order
  pub by_time : IsValid fits_time due_of s.tasks_by_time

abbrev pub seqs : PrioQueue Task → List ℕ
seqs q = map (λ (e : ℕ × Task). e.1.seq) (entries q.items)

-- The sequence numbers of the tasks in the queues.
abbrev pub queued : Scheduler → List ℕ
queued s = seqs s.tasks_by_order ++ seqs s.tasks_by_time

-- A task that may be enqueued: numbered, and in no queue.
pub record IsFree (t : Task) : Type 0 where
  pub numbered : (0 < t.seq) × (t.seq < 2 ^ 63)
  pub no_seq_item : t.seq_item ≡ none
  pub no_time_item : t.time_item ≡ none

-- All but the queues is the same.
pub record SameCounts (s s' : Scheduler) : Type 0 where
  pub same_slots : s'.slots ≡ s.slots
  pub same_loop : s'.loop_active_count ≡ s.loop_active_count
  pub same_stop : s'.loop_stop_requested ≡ s.loop_stop_requested
  pub same_active : s'.task_active_count ≡ s.task_active_count

-- Events do not count.
pub SameCounts-notified :
    (s s' : Scheduler) (b : Bool)
    → SameCounts s s'
    → SameCounts s (record s' { loop_notification = b })
SameCounts-notified s s' b c = record {
  same_slots = c.same_slots;
  same_loop = c.same_loop;
  same_stop = c.same_stop;
  same_active = c.same_active;
}

less_by_order-IsOrder : IsOrder seq_of fits_order less_by_order
unfolding less_by_order
less_by_order-IsOrder a b p q = ground arith

less_by_time-IsOrder : IsOrder due_of fits_time less_by_time
unfolding less_by_time
less_by_time-IsOrder a b p q = refl

-- A new scheduler's queues are sound.
pub new-IsSound : (num_cpu : ℕ) → IsSound (new num_cpu)
unfolding new
new-IsSound num_cpu = record {
  by_order = empty_queue-IsValid fits_order seq_of less_by_order less_by_order-IsOrder;
  by_time = empty_queue-IsValid fits_time due_of less_by_time less_by_time-IsOrder;
}

pub seqs-Added :
    {fits : Task → Bool} {rank : Task → ℕ} {q r : PrioQueue Task} {t : Task}
    → Added fits rank q t r
    → Perm (seqs r) (t.seq ∷ seqs q)
seqs-Added a = Perm.map (λ (e : ℕ × Task). e.1.seq) a.same

pub seqs-Removed :
    {fits : Task → Bool} {rank : Task → ℕ} {q r : PrioQueue Task} {id : ℕ} {t : Task}
    → Removed fits rank q id t r
    → Perm (t.seq ∷ seqs r) (seqs q)
seqs-Removed a = Perm.map (λ (e : ℕ × Task). e.1.seq) a.same

enqueue-order :
    (s : Scheduler) (t : Task) {id : ℕ} {q : PrioQueue Task}
    → IsFree t
    → (t.next_after == 0) ≡ true
    → push s.tasks_by_order (record t { seq_item = some s.tasks_by_order.next_id }) ≡ some (id, q)
    → enqueue s t ≡ some (record s { tasks_by_order = q })
unfolding enqueue
enqueue-order s t f now pushed = ground arith

enqueue-time :
    (s : Scheduler) (t : Task) {id : ℕ} {q : PrioQueue Task}
    → IsFree t
    → (t.next_after == 0) ≡ false
    → push s.tasks_by_time (record t { time_item = some s.tasks_by_time.next_id }) ≡ some (id, q)
    → enqueue s t ≡ some (record s { tasks_by_time = q })
unfolding enqueue
enqueue-time s t f later pushed = ground arith

-- enqueue of a task that is in no queue does not panic. It adds exactly the task, to the queue by
-- insertion order if it has no due time and to the other one if it has.
pub enqueue-IsSound :
    (s : Scheduler) (t : Task)
    → IsSound s
    → IsFree t
    → (s' : Scheduler) × (enqueue s t ≡ some s')
      × IsSound s'
      × Perm (queued s') (t.seq ∷ queued s)
      × SameCounts s s'
enqueue-IsSound s t v f = elim (Bool-cases (t.next_after == 0)) [
  | inl now ↦
      let (q, pushed, added) =
        push-Added fits_order seq_of s.tasks_by_order
          (record t { seq_item = some s.tasks_by_order.next_id }) v.by_order (ground arith) in
      (
        record s { tasks_by_order = q },
        enqueue-order s t f now pushed,
        record { by_order = added.valid; by_time = v.by_time },
        Perm.append_right (seqs s.tasks_by_time) (seqs-Added added),
        record { same_slots = refl; same_loop = refl; same_stop = refl; same_active = refl },
      )
  | inr later ↦
      let (q, pushed, added) =
        push-Added fits_time due_of s.tasks_by_time
          (record t { time_item = some s.tasks_by_time.next_id }) v.by_time (ground arith) in
      (
        record s { tasks_by_time = q },
        enqueue-time s t f later pushed,
        record { by_order = v.by_order; by_time = added.valid },
        Perm.trans (Perm.append_left (seqs s.tasks_by_order) (seqs-Added added))
            (perm_middle (seqs s.tasks_by_order) (seqs s.tasks_by_time)),
        record { same_slots = refl; same_loop = refl; same_stop = refl; same_active = refl },
      )
]
