-- ===== src/Scheduler/Queues/Pick.antt =====
-- Which task popNextLocked picks.
use baamhackl.Base.{
  ℕ, ◌-◌, ◌≤◌, ◌<◌, ◌≡◌, refl, Option, none, some, [], arith, ltb, length, All, All-imp, Bool-cases,
  inl, inr, ◌⊎◌, ℕ_discrete, ◌∙◌,
}
use baamhackl.Base.Int.{ℤ, pos}
use baamhackl.PrioQueue.{PrioQueue, pop, peek}
use baamhackl.PrioQueue.Swap.{entries}
use baamhackl.PrioQueue.Invariant.{Removed}
use baamhackl.PrioQueue.Pop.{pop-Removed, pop-empty, peek-empty}
use baamhackl.Scheduler.{Task, Scheduler, stop_delay, pop_by_order, pop_by_time, pop_next_locked}
use baamhackl.Scheduler.Queues.{IsSound, fits_order, fits_time, seq_of, due_of}

abbrev pub Outcome : Type 0
Outcome = Option (Scheduler × Option Task × ℤ)

-- No task of the time queue is due.
abbrev pub NoneDue : Scheduler → ℕ → Type 0
NoneDue s now = All (λ (e : ℕ × Task). now < e.1.next_after) (entries s.tasks_by_time.items)

-- A due task is taken, one with the earliest due time of all.
abbrev pub PicksDue : Scheduler → ℕ → Outcome → Type 0
PicksDue s now r =
    (id : ℕ) × (t : Task) × (q : PrioQueue Task) × (r
      ≡ some (record s { tasks_by_time = q }, some (record t { time_item = none }), stop_delay))
    × (t.next_after ≤ now)
    × Removed fits_time due_of s.tasks_by_time id t q
    × All (λ (e : ℕ × Task). t.next_after ≤ e.1.next_after) (entries s.tasks_by_time.items)

-- The task with the lowest sequence number of the other queue is taken.
abbrev pub PicksFirst : Scheduler → ℕ → Outcome → Type 0
PicksFirst s now r =
    (id : ℕ) × (t : Task) × (q : PrioQueue Task) × (remaining : ℤ) × (r
      ≡ some (record s { tasks_by_order = q }, some (record t { seq_item = none }), remaining))
    × NoneDue s now
    × Removed fits_order seq_of s.tasks_by_order id t q
    × All (λ (e : ℕ × Task). t.seq ≤ e.1.seq) (entries s.tasks_by_order.items)

-- The time until the first task of the time queue is due; -1 if there is none.
abbrev pub IsRemaining : Scheduler → ℕ → ℤ → Type 0
IsRemaining s now remaining =
    ((s.tasks_by_time.items ≡ []) × (remaining ≡ stop_delay))
    ⊎ ((t : Task) × (peek s.tasks_by_time ≡ some t)
        × (now < t.next_after)
        × (remaining ≡ pos (t.next_after - now)))

-- No task is taken.
abbrev pub PicksNone : Scheduler → ℕ → Outcome → Type 0
PicksNone s now r =
    (remaining : ℤ) × (r ≡ some (s, none, remaining))
    × NoneDue s now
    × (s.tasks_by_order.items ≡ [])
    × IsRemaining s now remaining

abbrev pub Picks : Scheduler → ℕ → Outcome → Type 0
Picks s now r = PicksDue s now r ⊎ PicksFirst s now r ⊎ PicksNone s now r

pop_by_order-some :
    (s : Scheduler) (remaining : ℤ) (t : Task) (q : PrioQueue Task)
    → pop s.tasks_by_order ≡ some (some t, q)
    → pop_by_order s remaining
      ≡ some (record s { tasks_by_order = q }, some (record t { seq_item = none }), remaining)
unfolding pop_by_order
pop_by_order-some s remaining t q e = rw e

pop_by_order-none :
    (s : Scheduler) (remaining : ℤ)
    → pop s.tasks_by_order ≡ some (none, s.tasks_by_order)
    → pop_by_order s remaining ≡ some (s, none, remaining)
unfolding pop_by_order
pop_by_order-none s remaining e = rw e

pop_by_time-some :
    (s : Scheduler) (t : Task) (q : PrioQueue Task)
    → pop s.tasks_by_time ≡ some (some t, q)
    → pop_by_time s
      ≡ some (record s { tasks_by_time = q }, some (record t { time_item = none }), stop_delay)
unfolding pop_by_time
pop_by_time-some s t q e = rw e

pop_by_order-Picks :
    (s : Scheduler) (now : ℕ) (remaining : ℤ)
    → IsSound s
    → NoneDue s now
    → IsRemaining s now remaining
    → Picks s now (pop_by_order s remaining)
pop_by_order-Picks s now remaining v idle left =
    elim (ℕ_discrete (length s.tasks_by_order.items) 0) [
      | yes e ↦
          let none_left : s.tasks_by_order.items ≡ [] = grind arith in
          inr (
            inr (
              remaining,
              pop_by_order-none s remaining (pop-empty fits_order seq_of s.tasks_by_order e),
              idle,
              none_left,
              left,
            ))
      | no ne ↦
          let (id, t, q, _, popped, removed, least) =
            pop-Removed fits_order seq_of s.tasks_by_order v.by_order (omega arith) in
          inr (
            inl
              (id, t, q, remaining, pop_by_order-some s remaining t q popped, idle, removed, least))
    ]

next-due :
    (s : Scheduler) (now : ℕ) (t : Task)
    → peek s.tasks_by_time ≡ some t
    → t.next_after ≤ now
    → pop_next_locked s now ≡ pop_by_time s
unfolding pop_next_locked
next-due s now t e due = ground arith

next-later :
    (s : Scheduler) (now : ℕ) (t : Task)
    → peek s.tasks_by_time ≡ some t
    → now < t.next_after
    → pop_next_locked s now ≡ pop_by_order s (pos (t.next_after - now))
unfolding pop_next_locked
next-later s now t e later = ground arith

next-idle :
    (s : Scheduler) (now : ℕ)
    → peek s.tasks_by_time ≡ none
    → pop_next_locked s now ≡ pop_by_order s stop_delay
unfolding pop_next_locked
next-idle s now e = rw (e, pop_next_locked)

-- popNextLocked takes a due task if there is one, the one due earliest; else the task that was added
-- first among those without a due time; else none, with the time until the first task is due.
pub pop_next_locked-Picks :
    (s : Scheduler) (now : ℕ) → IsSound s → Picks s now (pop_next_locked s now)
pop_next_locked-Picks s now v = elim (ℕ_discrete (length s.tasks_by_time.items) 0) [
  | yes e ↦
      let no_time : s.tasks_by_time.items ≡ [] = grind arith in
      rw (next-idle s now (peek-empty fits_time due_of s.tasks_by_time e))
        (pop_by_order-Picks s now stop_delay v (rw no_time tt) (inl (no_time, refl)))
  | no ne ↦
      let (id, t, q, peeked, popped, removed, least) =
        pop-Removed fits_time due_of s.tasks_by_time v.by_time (omega arith) in
      elim (Bool-cases (ltb now t.next_after)) [
        | inl later ↦ rw (next-later s now t peeked (ground arith)) (
            pop_by_order-Picks s now (pos (t.next_after - now)) v
              (All-imp (entries s.tasks_by_time.items)
                (λ (e : ℕ × Task) (h : t.next_after ≤ e.1.next_after). ground arith) least)
              (inr (t, peeked, ground arith, refl)))
        | inr due ↦ inl (
          id,
          t,
          q,
          next-due s now t peeked (ground arith) ∙ pop_by_time-some s t q popped,
          ground arith,
          removed,
          least,
        )
      ]
]
