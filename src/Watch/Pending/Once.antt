-- ===== src/Watch/Pending/Once.antt =====
-- Each file has at most one task that is not done, the pending one, and that is queued or running.
use baamhackl.Base.{
  ℕ, ◌+◌, ◌<◌, ◌≤◌, ◌≡◌, ◌⊎◌, inl, inr, refl, true, Option, some, count, ◌==◌, arith, Bool-cases,
  Option-cases,
}
use baamhackl.Scheduler.{as_task_error, is_permanent, run}
use baamhackl.Scheduler.Queues.{queued}
use baamhackl.Scheduler.System
use baamhackl.Scheduler.System.{
  System, adds, launches, waits, returns, ends, starts, resizes, signals, stops, times_out, clears,
}
use baamhackl.Scheduler.System.Invariant.{initial-Inv, Step-Inv, seqs_of, count-le-one}
use baamhackl.FilePaths.{FilePath}
use baamhackl.Watch.{new_handler, lookup}
use baamhackl.Watch.Pending.{
  WatchSystem, started, IsOther, Step, changes, invokes, finishes, schedules, Reach, here, next,
}
use baamhackl.Watch.Pending.Live.{is_done, Live, changes-new, changes-known}
use baamhackl.Watch.Pending.Ended.{running-over, invokes-done, invokes-retried, finishes-Live}

-- A number that was given out stays so.
Step-added : {y z : System} → System.Step y z → (a : ℕ) → count a y.added ≤ count a z.added
Step-added (adds fn ds s' seq room e) a = omega arith
Step-added (launches now t s' live e) a = omega arith
Step-added (waits now timer s' live e) a = omega arith
Step-added (returns now s' live e) a = omega arith
Step-added (ends before after t now result s' split e) a = omega arith
Step-added (starts s' e) a = omega arith
Step-added (resizes n) a = omega arith
Step-added (signals b c d) a = omega arith
Step-added stops a = omega arith
Step-added times_out a = omega arith
Step-added (clears s' e) a = omega arith

-- The other steps end no task of the handler.
Step-over :
    {y z : System} (own : ℕ → Option FilePath) (st : System.Step y z)
    → IsOther own st
    → (seq : ℕ) (name : FilePath) → own seq ≡ some name
    → count seq z.over ≡ count seq y.over
Step-over {y} own (ends before after t now result s' split e) other seq name o =
    elim (Bool-cases (run t now result).1) [
      | inr r ↦ rw r refl
      | inl r ↦ elim (Bool-cases (seq == t.seq)) [
        | inl q ↦ let same : seq ≡ t.seq = ground arith in absurd (let f = rw same at o in cc)
        | inr q ↦ rw r (ground arith)
      ]
    ]
Step-over own (clears s' e) other seq name o = absurd (cc)
Step-over own (adds fn ds s' n room e) other seq name o = refl
Step-over own (launches now t s' live e) other seq name o = refl
Step-over own (waits now timer s' live e) other seq name o = refl
Step-over own (returns now s' live e) other seq name o = refl
Step-over own (starts s' e) other seq name o = refl
Step-over own (resizes n) other seq name o = refl
Step-over own (signals b c d) other seq name o = refl
Step-over own stops other seq name o = refl
Step-over own times_out other seq name o = refl

schedules-Live :
    (y : WatchSystem) (z : System) (st : System.Step y.sys z)
    → IsOther y.own st
    → Live y
    → Live (record y { sys = z })
schedules-Live y z st other v =
    let inv = Step-Inv st v.inv in
    record {
      inv = inv;
      tracked = v.tracked;
      status = λ seq n h. rw (Step-over y.own st other seq n h) (v.status seq n h);
      given = λ seq n h. omega (
        arith,
        v.given seq n h,
        Step-added st seq,
        count-le-one z.counter seq z.added inv.numbered,
      );
      known = v.known;
    }

Step-Live : {y z : WatchSystem} → Step y z → Live y → Live z
Step-Live {y} (changes fn name s' room e) v = elim (Option-cases (lookup name y.handler.pending)) [
  | inl h ↦ changes-new y fn name s' room h e v
  | inr (seq, h) ↦ changes-known y fn seq name s' h e v
]
Step-Live {y} (invokes name t before after err split o first) v =
    let live = running-over y before after t name split o v in
    elim (Bool-cases (is_permanent (as_task_error err))) [
      | inl p ↦ invokes-done y v t name err o first live p
      | inr p ↦ invokes-retried y v t name err o first live p
    ]
Step-Live {y} (finishes before after t now result s' split returned e) v =
    finishes-Live y before after t now result s' split returned e v
Step-Live {y} (schedules z st other) v = schedules-Live y z st other v

Reach-Live : {x y : WatchSystem} → Reach x y → Live x → Live y
Reach-Live here v = v
Reach-Live (next r st) v = Step-Live st (Reach-Live r v)

started-Live : (num_cpu : ℕ) (path : FilePath) → Live (started num_cpu path)
unfolding new_handler lookup
started-Live num_cpu path = record {
  inv = initial-Inv num_cpu;
  tracked = λ seq name h. absurd (cc);
  status = λ seq name h. absurd (cc);
  given = λ seq name h. absurd (cc);
  known = λ seq h. refl;
}

-- In every state that a server with one handler can reach by reported changes, by the ends of its tasks'
-- functions, by the ends of its tasks in the scheduler with what the functions have returned, and by the
-- steps of the scheduler and its other tasks but for the last round of Stop: the task of each pending name
-- is in exactly one place, once in the scheduler's queues or once among the running tasks. And each task
-- that was ever added for a name is the pending one of that name, until its function has returned a result
-- that ends it or the scheduler has dropped it; so no file has two tasks that are not done.
pub pending-once :
    (num_cpu : ℕ) (path : FilePath) (y : WatchSystem)
    → Reach (started num_cpu path) y
    → ((name : FilePath) (seq : ℕ)
        → lookup name y.handler.pending ≡ some seq
        → count seq (queued y.sys.sched) + count seq (seqs_of y.sys.running) ≡ 1)
      × ((name : FilePath) (seq : ℕ)
          → y.own seq ≡ some name
          → (lookup name y.handler.pending ≡ some seq)
            ⊎ (is_done (y.results seq) ≡ true)
            ⊎ (0 < count seq y.sys.over))
pending-once num_cpu path y r =
    let v = Reach-Live r (started-Live num_cpu path) in
    (
      λ name seq h.
          let o = v.tracked seq name h in
          elim (v.status seq name o) [
            | inl (_, over, _) ↦ omega (arith, over, v.given seq name o, v.inv.balance seq)
            | inr (k, _) ↦ absurd (k h)
          ],
      λ name seq o. elim (v.status seq name o) [
        | inl (k, _, _) ↦ inl k
        | inr (_, inl d) ↦ inr (inr d)
        | inr (_, inr d) ↦ inr (inl d)
      ],
    )
