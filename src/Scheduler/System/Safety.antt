-- ===== src/Scheduler/System/Safety.antt =====
-- What holds of every state that the scheduler and its goroutines can reach.
use baamhackl.Base.{
  ℕ, suc, ◌+◌, ◌≤◌, ◌<◌, ◌≡◌, ◌≢◌, ◌⊎◌, refl, true, Option, none, some, List, ◌∷◌, ◌++◌, arith,
  length, count, inl, inr, ap, ◌∙◌, ◌^◌,
}
use baamhackl.Base.Int.{ℤ}
use baamhackl.Scheduler.{
  GoError, Task, launched, waiting, returned, add, loop_round, run_task, stop_round, start,
  loop_exit, set_slots, stop_request, stop_timeout,
}
use baamhackl.Scheduler.Queues.{queued}
use baamhackl.Scheduler.Ops.{
  delays, add-IsSound, run_task-IsSound, loop_round-outcome, stop_round-outcome,
}
use baamhackl.Scheduler.System.{
  System, Step, Reach, initial, here, next, adds, launches, waits, returns, ends, starts, resizes,
  signals, stops, times_out, clears,
}
use baamhackl.Scheduler.System.Invariant.{
  Inv, seqs_of, count-le-one, initial-Inv, Reach-Inv, round-Inv, length-split, All-split,
}

-- In every reachable state each sequence number that Add has given out stands for one task in exactly
-- one place: in one of the queues, among the running tasks, or among those finished or abandoned.
-- No other number stands anywhere.
pub Reach-once :
    (num_cpu : ℕ) {y : System} (a : ℕ)
    → Reach (initial num_cpu) y
    → (count a (queued y.sched) + count a (seqs_of y.running) + count a y.over ≡ count a y.added)
      × (count a y.added ≤ 1)
Reach-once num_cpu {y} a r =
    let v = Reach-Inv r (initial-Inv num_cpu) in
    (v.balance a, count-le-one y.counter a y.added v.numbered)

-- A step adds a running task only where a slot is free.
pub Step-slots :
    {y z : System}
    → Step y z
    → Inv y
    → (length z.running ≤ length y.running) ⊎ (length z.running ≤ z.sched.slots)
Step-slots {y} (launches now t s' live e) v = elim (round-Inv y now s' (launched t) e v) [
  | inl (t', same, l) ↦ inr (omega (arith, l.had_slot, l.same_slots, v.active))
  | inr (_, never) ↦ absurd (never t refl)
]
Step-slots {y} (ends before after t now result s' split e) v =
    inl (omega (arith, ap length split, length-split before after t))
Step-slots _ v = inl (omega arith)

-- Along the way the number of slots never passes `k`.
abbrev pub AtMost : ℕ → {x y : System} → Reach x y → Type 0
AtMost k {x} here = x.sched.slots ≤ k
AtMost k (next {z = z} r st) = AtMost k r × (z.sched.slots ≤ k)

-- If the number of slots never passes k along the way, at most k tasks run at once.
pub Reach-slots :
    (k num_cpu : ℕ) {y : System} (r : Reach (initial num_cpu) y) → AtMost k r → length y.running ≤ k
Reach-slots k num_cpu here m = omega arith
Reach-slots k num_cpu (next r st) (m, l) =
    omega (arith, Reach-slots k num_cpu r m, Step-slots st (Reach-Inv r (initial-Inv num_cpu)))

-- Once Stop has been called, no step from a state that satisfies the invariant starts a task,
-- restarts the loop or takes the request back.
pub Step-stopped :
    {y z : System}
    → Step y z
    → Inv y
    → y.sched.loop_stop_requested ≡ true
    → (z.sched.loop_stop_requested ≡ true)
      × (length z.running ≤ length y.running)
      × (z.sched.loop_active_count ≤ y.sched.loop_active_count)
unfolding set_slots loop_exit stop_request stop_timeout start
Step-stopped {y} (adds fn ds s' seq room e) v h =
    let (s'', e', _, _, c) = add-IsSound y.sched y.counter fn ds v.sound room in
    let q : s'' ≡ s' = cc in rw (← q) (c.same_stop ∙ h, omega arith, omega (arith, c.same_loop))
Step-stopped {y} (launches now t s' live e) v h = elim (round-Inv y now s' (launched t) e v) [
  | inl (t', same, l) ↦ absurd (cc (l.not_stopped, h))
  | inr (_, never) ↦ absurd (never t refl)
]
Step-stopped {y} (waits now timer s' live e) v h = elim (round-Inv y now s' (waiting timer) e v) [
  | inl (t', same, l) ↦ absurd (cc)
  | inr (same, _) ↦ rw same (h, omega arith, omega arith)
]
Step-stopped {y} (returns now s' live e) v h = elim (round-Inv y now s' returned e v) [
  | inl (t', same, l) ↦ absurd (cc)
  | inr (same, _) ↦ rw same (h, omega arith, omega arith)
]
Step-stopped {y} (ends before after t now result s' split e) v h =
    let (free, rest) = All-split before t after (rw split at v.free) in
    let (s'', e', _, _, _, stop, loop, _) = run_task-IsSound y.sched t now result v.sound free in
    let p : s'' ≡ s' = cc in
    rw (← p)
      (stop ∙ h, omega (arith, ap length split, length-split before after t), omega (arith, loop))
Step-stopped {y} (starts s' e) v h = ground arith
Step-stopped {y} (resizes n) v h = (h, omega arith, omega arith)
Step-stopped {y} (signals a b c) v h = (h, omega arith, omega arith)
Step-stopped {y} stops v h = (refl, omega arith, omega arith)
Step-stopped {y} times_out v h = (h, omega arith, omega arith)
Step-stopped {y} (clears s' e) v h = elim (stop_round-outcome y.sched v.sound) [
  | inl (e', _) ↦ absurd (cc)
  | inr (s'', e', _, none_active, _, _, _, _, loop, _, stop) ↦
      let p : s'' ≡ s' = cc in rw (← p) (stop ∙ h, omega arith, omega (arith, loop))
]

-- In a reachable state nothing panics: neither Add, as long as the counter is not used up, nor a round
-- of the loop, nor the end of a running task, nor a round of Stop.
pub Reach-no_panic :
    (num_cpu : ℕ) {y : System}
    → Reach (initial num_cpu) y
    → ((fn : ℕ) (ds : List (ℕ × ℤ))
        → suc y.counter < 2 ^ 63
        → add y.sched y.counter (some fn) (delays ds) ≢ none)
      × ((now : ℕ) → loop_round y.sched now ≢ none)
      × ((before after : List Task) (t : Task) (now : ℕ) (result : Option GoError)
          → y.running ≡ before ++ t ∷ after
          → run_task y.sched t now result ≢ none)
      × (stop_round y.sched ≢ none)
Reach-no_panic num_cpu {y} r =
    let v = Reach-Inv r (initial-Inv num_cpu) in
    (
      λ fn ds room e.
          let (s', e', _, _, _) = add-IsSound y.sched y.counter fn ds v.sound room in cc,
      λ now e. elim (loop_round-outcome y.sched now v.sound) [
        | inl (t, s', e', _) ↦ cc
        | inr rest ↦ elim rest [ inl (w, e', _) ↦ cc | inr (e', _) ↦ cc ]
      ],
      λ before after t now result split e.
          let (free, rest) = All-split before t after (rw split at v.free) in
          let (s', e', _, _, _, _, _, _) = run_task-IsSound y.sched t now result v.sound free in cc,
      λ e. elim (stop_round-outcome y.sched v.sound) [
        | inl (e', _) ↦ cc
        | inr (s', e', _, _, _, _, _, _, _, _, _) ↦ cc
      ],
    )
