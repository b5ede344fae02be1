-- ===== src/Watch/Pending/Ended.antt =====
-- The ends of the tasks' functions and of the tasks keep what is known of the pending ones.
use mathlib.Core.Option
use baamhackl.Base.{
  ℕ, ◌≡◌, inl, inr, refl, sym, ◌∙◌, ap, true, false, Option, none, some, List, ◌∷◌, ◌++◌, count,
  ◌==◌, if◌then◌else◌, arith, Bool-cases,
}
use baamhackl.Scheduler.{as_task_error, is_permanent, GoError, Task, Scheduler, run, run_task}
use baamhackl.Scheduler.System.{ends}
use baamhackl.Scheduler.System.Invariant.{Step-Inv, seqs_of, count-split}
use baamhackl.FilePaths.{FilePath, same_name}
use baamhackl.FilePaths.Split.{same_name-eq}
use baamhackl.Watch.{invoked, lookup, delete}
use baamhackl.Watch.Pending.Names.{lookup-delete, lookup-delete_other}
use baamhackl.Watch.Pending.{WatchSystem, set_at}
use baamhackl.Watch.Pending.Live.{Status, Live}

-- A running task is not over.
pub running-over :
    (y : WatchSystem) (before after : List Task) (t : Task) (name : FilePath)
    → y.sys.running ≡ before ++ t ∷ after
    → y.own t.seq ≡ some name
    → Live y
    → count t.seq y.sys.over ≡ 0
running-over y before after t name split o v =
    let here = count-split t.seq before after t in
    let moved = ap (λ l. count t.seq (seqs_of l)) split in
    ground (arith, v.inv.balance t.seq, v.given t.seq name o, here, moved)

-- What the end of a task's function does to the tasks of the handler.
module _ (y : WatchSystem) (v : Live y) (t : Task) (name : FilePath) (err : Option GoError)
    (o : y.own t.seq ≡ some name) (first : y.results t.seq ≡ none)
    (live : count t.seq y.sys.over ≡ 0) where
  abbrev ended : WatchSystem
  ended = record y {
    handler = invoked y.handler name err;
    results = set_at t.seq (some err) y.results;
  }

  -- The task was pending.
  was_pending : lookup name y.handler.pending ≡ some t.seq
  was_pending = elim (v.status t.seq name o) [
    | inl (k, _, _) ↦ k
    | inr (_, inl d) ↦ absurd (omega (arith, live, d))
    | inr (_, inr d) ↦ absurd (let f = rw first at d in cc)
  ]

  pub invokes-retried : is_permanent (as_task_error err) ≡ false → Live ended
  unfolding invoked
  invokes-retried p = rw p (record {
    inv = v.inv;
    tracked = v.tracked;
    status = λ seq n h. elim (Bool-cases (seq == t.seq)) [
      | inl q ↦
          let same : seq ≡ t.seq = ground arith in
          let named : name ≡ n = Option.some-injective {A = FilePath} _ _ (sym o ∙ rw same at h) in
          rw (q, ← named, same) (inl (was_pending, live, p))
      | inr q ↦ rw q (v.status seq n h)
    ];
    given = v.given;
    known = λ seq h. elim (Bool-cases (seq == t.seq)) [
      | inl q ↦ let same : seq ≡ t.seq = ground arith in absurd (let f = rw same at h in cc)
      | inr q ↦ rw q (v.known seq h)
    ];
  })

  -- Another task's name stays as it is.
  delete-Status :
      (seq : ℕ) (n : FilePath)
      → (seq == t.seq) ≡ false
      → Status y seq n
      → Status
          (record y { handler = record y.handler { pending = delete name y.handler.pending } })
          seq
          n
  delete-Status seq n q s = elim (Bool-cases (same_name name n)) [
    | inr b ↦ rw (lookup-delete_other n name y.handler.pending b) s
    | inl b ↦
        let same = same_name-eq name n b in
        let gone = lookup-delete name y.handler.pending in
        elim s [
          | inl (k, _, _) ↦
              let i = Option.some-injective {A = ℕ} _ _ (sym was_pending ∙ rw (← same) at k) in
              absurd (ground arith)
          | inr (_, d) ↦ inr (rw (← same, gone) (λ f. cc), d)
        ]
  ]

  pub invokes-done : is_permanent (as_task_error err) ≡ true → Live ended
  unfolding invoked
  invokes-done p = rw p (record {
    inv = v.inv;
    tracked = λ seq n h. elim (Bool-cases (same_name name n)) [
      | inl b ↦
          let same = same_name-eq name n b in
          let gone = lookup-delete name y.handler.pending in absurd (let f = rw (← same) at h in cc)
      | inr b ↦ v.tracked seq n (sym (lookup-delete_other n name y.handler.pending b) ∙ h)
    ];
    status = λ seq n h. elim (Bool-cases (seq == t.seq)) [
      | inl q ↦
          let same : seq ≡ t.seq = ground arith in
          let named : name ≡ n = Option.some-injective {A = FilePath} _ _ (sym o ∙ rw same at h) in
          let gone = lookup-delete name y.handler.pending in
          rw (q, ← named, gone) (inr (λ f. cc, inr p))
      | inr q ↦ rw q (delete-Status seq n q (v.status seq n h))
    ];
    given = v.given;
    known = λ seq h. elim (Bool-cases (seq == t.seq)) [
      | inl q ↦ let same : seq ≡ t.seq = ground arith in absurd (let f = rw same at h in cc)
      | inr q ↦ rw q (v.known seq h)
    ];
  })

-- runTask drops a task exactly if its function's result ends the task.
run-is_permanent :
    (t : Task) (now : ℕ) (result : Option GoError)
    → (run t now result).1 ≡ is_permanent (as_task_error result)
unfolding run is_permanent as_task_error
run-is_permanent t now none = refl
run-is_permanent t now (some e) = ground arith

pub finishes-Live :
    (y : WatchSystem) (before after : List Task) (t : Task) (now : ℕ) (result : Option GoError)
    (s' : Scheduler)
    → y.sys.running ≡ before ++ t ∷ after
    → y.results t.seq ≡ some result
    → run_task y.sys.sched t now result ≡ some s'
    → Live y
    → Live (record y {
      sys = record y.sys {
        sched = s';
        running = before ++ after;
        over = if (run t now result).1 then t.seq ∷ y.sys.over else y.sys.over;
      };
      results = set_at t.seq none y.results;
    })
finishes-Live y before after t now result s' split returned e v = record {
  inv = Step-Inv (ends before after t now result s' split e) v.inv;
  tracked = v.tracked;
  status = λ seq n h. elim (Bool-cases (seq == t.seq)) [
    | inl q ↦
        let same : seq ≡ t.seq = ground arith in
        elim (Bool-cases (is_permanent (as_task_error result))) [
          | inl p ↦ elim (v.status seq n h) [
            | inl (_, _, d) ↦ absurd (let f = rw (same, returned) at d in cc)
            | inr (k, _) ↦
                let r = run-is_permanent t now result ∙ p in inr (k, inl (rw r (ground arith)))
          ]
          | inr p ↦
              let r = run-is_permanent t now result ∙ p in
              elim (v.status seq n h) [
                | inl (k, d, _) ↦ inl (k, rw r d, rw q refl)
                | inr (k, inl d) ↦ inr (k, inl (rw r d))
                | inr (k, inr d) ↦ absurd (let f = rw (same, returned) at d in cc)
              ]
        ]
    | inr q ↦
        let kept : count seq (if (run t now result).1 then t.seq ∷ y.sys.over else y.sys.over)
            ≡ count seq y.sys.over =
          elim (Bool-cases (run t now result).1) [
            | inl r ↦ rw r (ground arith)
            | inr r ↦ rw r refl
          ] in
        rw (q, kept) (v.status seq n h)
  ];
  given = v.given;
  known = λ seq h. elim (Bool-cases (seq == t.seq)) [
    | inl q ↦ rw q refl
    | inr q ↦ rw q (v.known seq h)
  ];
}
