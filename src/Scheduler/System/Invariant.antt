-- ===== src/Scheduler/System/Invariant.antt =====
-- The invariant of the whole system: sound queues, a right count of active tasks, and each task that
-- was added in exactly one place.
use mathlib.Core.Option
use baamhackl.Base.{
  ℕ, suc, ◌+◌, ◌-◌, ◌^◌, ◌≤◌, ◌<◌, ◌≡◌, ◌≢◌, ◌⊎◌, refl, ap, sym, ◌∙◌, subst, true, Option, some,
  List, [], ◌∷◌, ◌++◌, map, arith, if◌then◌else◌, length, count, count-append, count-perm, All, inl,
  inr, ◌==◌,
}
use baamhackl.Base.Int.{ℤ}
use baamhackl.Scheduler.{
  GoError, Task, Scheduler, LoopAction, returned, waiting, launched, new, set_slots, add,
  loop_round, loop_exit, run, run_task, start, stop_request, stop_timeout, stop_round,
}
use baamhackl.Scheduler.Queues.{IsSound, IsFree, queued, new-IsSound}
use baamhackl.PrioQueue.{empty_queue}
use baamhackl.Scheduler.Ops.{
  delays, add-IsSound, run_task-IsSound, Launches, loop_round-outcome, stop_round-outcome,
}
use baamhackl.Scheduler.System.{
  System, signal, Step, Reach, initial, here, next, adds, launches, waits, returns, ends, starts,
  resizes, signals, stops, times_out, clears,
}

abbrev pub seqs_of : List Task → List ℕ
seqs_of = map (λ t. t.seq)

-- Strictly falling, from at most `n`, and positive.
abbrev pub Descends : ℕ → List ℕ → Type 0
Descends n [] = Unit
Descends n (x ∷ xs) = (x ≤ n) × (0 < x) × Descends (x - 1) xs

pub record Inv (y : System) : Type 0 where
  pub sound : IsSound y.sched
  pub active : y.sched.task_active_count ≡ length y.running
  pub free : All IsFree y.running
  pub balance :
      (a : ℕ)
      → count a (queued y.sched) + count a (seqs_of y.running) + count a y.over ≡ count a y.added
  pub numbered : Descends y.counter y.added

pub count-Descends : (n a : ℕ) (xs : List ℕ) → Descends n xs → n < a → count a xs ≡ 0
count-Descends n a [] d h = refl
count-Descends n a (x ∷ xs) (p, q, d) h = ground (arith, count-Descends (x - 1) a xs d)

-- A strictly falling list has no number twice.
pub count-le-one : (n a : ℕ) (xs : List ℕ) → Descends n xs → count a xs ≤ 1
count-le-one n a [] d = omega arith
count-le-one n a (x ∷ xs) (p, q, d) =
    ground (arith, count-le-one (x - 1) a xs d, count-Descends (x - 1) a xs d)

-- A new system satisfies the invariant.
pub initial-Inv : (num_cpu : ℕ) → Inv (initial num_cpu)
unfolding new empty_queue
initial-Inv num_cpu = record {
  sound = new-IsSound num_cpu;
  active = refl;
  free = tt;
  balance = λ a. refl;
  numbered = tt;
}

-- A scheduler that differs in events, slots or the loop's own fields.
same_queues-Inv :
    (y : System) (s' : Scheduler)
    → (s'.tasks_by_order ≡ y.sched.tasks_by_order)
    → (s'.tasks_by_time ≡ y.sched.tasks_by_time)
    → (s'.task_active_count ≡ y.sched.task_active_count)
    → Inv y
    → Inv (record y { sched = s' })
same_queues-Inv y s' p q r v = record {
  sound = record { by_order = rw p v.sound.by_order; by_time = rw q v.sound.by_time };
  active = rw r v.active;
  free = v.free;
  balance = rw (p, q) v.balance;
  numbered = v.numbered;
}

adds-Inv :
    (y : System) (fn : ℕ) (ds : List (ℕ × ℤ)) (r : Scheduler × ℕ)
    → suc y.counter < 2 ^ 63
    → add y.sched y.counter (some fn) (delays ds) ≡ some r
    → Inv y
    → Inv (record y { sched = r.0; added = r.1 ∷ y.added; counter = r.1 })
adds-Inv y fn ds r room e v =
    let (s', e', sound, perm, c) = add-IsSound y.sched y.counter fn ds v.sound room in
    let p : (s', suc y.counter) ≡ r = cc in
    let below : suc y.counter - 1 ≡ y.counter = omega arith in
    subst
      (λ (r : Scheduler × ℕ). Inv (record y { sched = r.0; added = r.1 ∷ y.added; counter = r.1 }))
      p
      (record {
        sound = sound;
        active = omega (arith, c.same_active, v.active);
        free = v.free;
        balance = λ a. omega (arith, v.balance a, count-perm a perm);
        numbered = (omega arith, omega arith, rw below v.numbered);
      })

launch-Inv :
    (y : System) (t : Task) (s' : Scheduler)
    → Launches y.sched t s'
    → Inv y
    → Inv (record y { sched = s'; running = t ∷ y.running })
launch-Inv y t s' l v = record {
  sound = l.sound;
  active = omega (arith, l.one_more, v.active);
  free = (l.free, v.free);
  balance = λ a. omega (arith, v.balance a, count-perm a l.taken);
  numbered = v.numbered;
}

-- What a round of the loop may have done, by its result.
pub round-Inv :
    (y : System) (now : ℕ) (s' : Scheduler) (act : LoopAction)
    → loop_round y.sched now ≡ some (s', act)
    → Inv y
    → ((t : Task) × (act ≡ launched t) × Launches y.sched t s')
      ⊎ ((s' ≡ y.sched) × ((t : Task) → act ≢ launched t))
round-Inv y now s' act e v = elim (loop_round-outcome y.sched now v.sound) [
  | inl (t, s'', e', l) ↦
      let p =
        Option.some-injective {A = Scheduler × LoopAction} (s'', launched t) (s', act)
          (sym e' ∙ e) in
      inl (
        t,
        sym (ap (λ (r : Scheduler × LoopAction). r.1) p),
        subst (λ (z : Scheduler). Launches y.sched t z) (ap (λ (r : Scheduler × LoopAction). r.0) p)
            l,
      )
  | inr rest ↦ elim rest [
    | inl (w, e', _) ↦ inr (cc, λ t f. cc)
    | inr (e', _) ↦ inr (cc, λ t f. cc)
  ]
]

pub All-split :
    (before : List Task) (t : Task) (after : List Task)
    → All IsFree (before ++ t ∷ after)
    → IsFree t × All IsFree (before ++ after)
All-split [] t after h = h
All-split (x ∷ before) t after h = let (p, q) = All-split before t after h.1 in (p, (h.0, q))

pub count-split :
    (a : ℕ) (before after : List Task) (t : Task)
    → count a (seqs_of (before ++ t ∷ after))
      ≡ (if t.seq == a then 1 else 0) + count a (seqs_of (before ++ after))
count-split a [] after t = refl
count-split a (x ∷ before) after t = omega (arith, count-split a before after t)

pub length-split :
    (before after : List Task) (t : Task)
    → length (before ++ t ∷ after) ≡ suc (length (before ++ after))
length-split [] after t = refl
length-split (x ∷ before) after t = ap suc (length-split before after t)

ends-Inv :
    (y : System) (before after : List Task) (t : Task) (now : ℕ) (result : Option GoError)
    (s' : Scheduler)
    → y.running ≡ before ++ t ∷ after
    → run_task y.sched t now result ≡ some s'
    → Inv y
    → Inv (record y {
      sched = s';
      running = before ++ after;
      over = if (run t now result).1 then t.seq ∷ y.over else y.over;
    })
ends-Inv y before after t now result s' split e v =
    let (free, rest) = All-split before t after (rw split at v.free) in
    let (s'', e', sound, perm, _, _, _, active) =
      run_task-IsSound y.sched t now result v.sound free in
    let p : s'' ≡ s' = cc in
    rw (← p) (record {
      sound = sound;
      active = omega (arith, active, v.active, ap length split, length-split before after t);
      free = rest;
      balance = λ a. ground (
        arith,
        v.balance a,
        count-perm a perm,
        count-split a before after t,
        ap (λ l. count a (seqs_of l)) split,
      );
      numbered = v.numbered;
    })

starts-Inv :
    (y : System) (s' : Scheduler) → start y.sched ≡ some s' → Inv y → Inv (record y { sched = s' })
unfolding start
starts-Inv y s' e v = same_queues-Inv y s' (ground arith) (ground arith) (ground arith) v

clears-Inv :
    (y : System) (s' : Scheduler)
    → stop_round y.sched ≡ some (s', true)
    → Inv y
    → Inv (record y { sched = s'; over = queued y.sched ++ y.over })
clears-Inv y s' e v = elim (stop_round-outcome y.sched v.sound) [
  | inl (e', _) ↦ cc
  | inr (s'', e', sound, _, idle, empty, _, active, _, _, _) ↦
      let p : s'' ≡ s' = cc in
      rw (← p) (record {
        sound = sound;
        active = omega (arith, active, idle, v.active);
        free = v.free;
        balance =
            λ a. rw empty (omega (arith, v.balance a, count-append a (queued y.sched) y.over));
        numbered = v.numbered;
      })
]

-- Every step keeps the invariant.
pub Step-Inv : {y z : System} → Step y z → Inv y → Inv z
unfolding set_slots loop_exit stop_request stop_timeout
Step-Inv {y} (adds fn ds s' seq room e) v = adds-Inv y fn ds (s', seq) room e v
Step-Inv {y} (launches now t s' live e) v = elim (round-Inv y now s' (launched t) e v) [
  | inl (t', same, l) ↦
      let p : t' ≡ t = cc in launch-Inv y t s' (subst (λ (u : Task). Launches y.sched u s') p l) v
  | inr (_, never) ↦ absurd (never t refl)
]
Step-Inv {y} (waits now timer s' live e) v = elim (round-Inv y now s' (waiting timer) e v) [
  | inl (t', same, l) ↦ cc
  | inr (same, _) ↦ rw same v
]
Step-Inv {y} (returns now s' live e) v = elim (round-Inv y now s' returned e v) [
  | inl (t', same, l) ↦ cc
  | inr (same, _) ↦ rw same (same_queues-Inv y (loop_exit y.sched) refl refl refl v)
]
Step-Inv {y} (ends before after t now result s' split e) v =
    ends-Inv y before after t now result s' split e v
Step-Inv {y} (starts s' e) v = starts-Inv y s' e v
Step-Inv {y} (resizes count) v = same_queues-Inv y (set_slots y.sched count) refl refl refl v
Step-Inv {y} (signals a b c) v = same_queues-Inv y (signal y.sched a b c) refl refl refl v
Step-Inv {y} stops v = same_queues-Inv y (stop_request y.sched) refl refl refl v
Step-Inv {y} times_out v = same_queues-Inv y (stop_timeout y.sched) refl refl refl v
Step-Inv {y} (clears s' e) v = clears-Inv y s' e v

-- The invariant holds of every state that can be reached.
pub Reach-Inv : {x y : System} → Reach x y → Inv x → Inv y
Reach-Inv here v = v
Reach-Inv (next r st) v = Step-Inv st (Reach-Inv r v)
