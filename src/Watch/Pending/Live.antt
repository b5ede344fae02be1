-- ===== src/Watch/Pending/Live.antt =====
-- What is known of the pending tasks in each state, and that reported changes keep it.
use mathlib.Core.Option
use baamhackl.Base.{
  ℕ, suc, ◌<◌, ◌^◌, ◌≡◌, ◌≢◌, ◌⊎◌, inl, inr, refl, sym, ◌∙◌, ap, Bool, true, false, Option, none,
  some, [], count, ◌==◌, arith, Bool-cases, Option-cases,
}
use baamhackl.Scheduler.{as_task_error, is_permanent, GoError, Scheduler, add}
use baamhackl.Scheduler.Ops.{add-IsSound}
use baamhackl.Scheduler.System.{adds}
use baamhackl.Scheduler.System.Invariant.{Inv, Step-Inv, count-Descends}
use baamhackl.FilePaths.{FilePath, same_name}
use baamhackl.FilePaths.Split.{same_name-eq}
use baamhackl.Watch.{report_file_change, Shared, handle_name, lookup, put}
use baamhackl.Watch.Pending.Names.{lookup-put, lookup-put_other}
use baamhackl.Watch.Pending.{WatchSystem, shared, noted, owned, set_at}

-- A file with a pending task gets no other.
pub handle_name-known :
    (s z : Shared) (fn seq : ℕ) (name : FilePath)
    → lookup name s.handler.pending ≡ some seq
    → handle_name s fn name ≡ some z
    → z ≡ record s { handler = record s.handler { mc = report_file_change s.handler.mc } }
unfolding handle_name
handle_name-known s z fn seq name e h =
    sym (Option.some-injective {A = Shared} _ _ (rw (e, handle_name) at h))

pub handle_name-new :
    (s z : Shared) (fn : ℕ) (name : FilePath) (sched' : Scheduler) (seq : ℕ)
    → lookup name s.handler.pending ≡ none
    → add s.sched s.counter (some fn) [] ≡ some (sched', seq)
    → handle_name s fn name ≡ some z
    → z ≡ record {
      handler = record s.handler {
        mc = report_file_change s.handler.mc;
        pending = put name seq s.handler.pending;
      };
      sched = sched';
      counter = seq;
    }
unfolding handle_name
handle_name-new s z fn name sched' seq e g h =
    sym (Option.some-injective {A = Shared} _ _ (rw (e, g, handle_name) at h))

-- A result that ends the task has been returned.
abbrev pub is_done : Option (Option GoError) → Bool
is_done none = false
is_done (some result) = is_permanent (as_task_error result)

-- A task that was added for a name is pending and goes on, or it is done and not pending.
abbrev pub Status : WatchSystem → ℕ → FilePath → Type 0
Status y seq name =
    ((lookup name y.handler.pending ≡ some seq)
      × (count seq y.sys.over ≡ 0)
      × (is_done (y.results seq) ≡ false))
    ⊎ ((lookup name y.handler.pending ≢ some seq)
        × ((0 < count seq y.sys.over) ⊎ (is_done (y.results seq) ≡ true)))

pub record Live (y : WatchSystem) : Type 0 where
  pub inv : Inv y.sys
  pub tracked :
      (seq : ℕ) (name : FilePath) → lookup name y.handler.pending ≡ some seq → y.own seq ≡ some name
  pub status : (seq : ℕ) (name : FilePath) → y.own seq ≡ some name → Status y seq name
  pub given : (seq : ℕ) (name : FilePath) → y.own seq ≡ some name → count seq y.sys.added ≡ 1
  pub known : (seq : ℕ) → y.own seq ≡ none → y.results seq ≡ none

-- The next number has not been given out.
fresh-none : (y : WatchSystem) → Live y → y.own (suc y.sys.counter) ≡ none
fresh-none y v = elim (Option-cases (y.own (suc y.sys.counter))) [
  | inl e ↦ e
  | inr (name, e) ↦
      let none_added =
        count-Descends y.sys.counter (suc y.sys.counter) y.sys.added v.inv.numbered (omega arith) in
      absurd (omega (arith, none_added, v.given (suc y.sys.counter) name e))
]

fresh-over : (y : WatchSystem) → Live y → count (suc y.sys.counter) y.sys.over ≡ 0
fresh-over y v = omega (
  arith,
  count-Descends y.sys.counter (suc y.sys.counter) y.sys.added v.inv.numbered (omega arith),
  v.inv.balance (suc y.sys.counter),
)

some_differs : (a b : ℕ) → (a == b) ≡ false → ◌≢◌ {A = Option ℕ} (some a) (some b)
some_differs a b e h = let p = Option.some-injective {A = ℕ} _ _ h in ground (arith, p)

-- A new name: the scheduler's own step adds the task.
module _ (y : WatchSystem) (v : Live y) (name : FilePath)
    (new : lookup name y.handler.pending ≡ none) where
  put-tracked :
      (seq : ℕ) (n : FilePath)
      → lookup n (put name (suc y.sys.counter) y.handler.pending) ≡ some seq
      → set_at (suc y.sys.counter) (some name) y.own seq ≡ some n
  put-tracked seq n h = elim (Bool-cases (same_name name n)) [
    | inl b ↦
        let same = same_name-eq name n b in
        let p : ◌≡◌ {A = Option ℕ} (some (suc y.sys.counter)) (some seq) =
          sym (lookup-put name (suc y.sys.counter) y.handler.pending) ∙ (rw (← same) at h) in
        let q : (seq == suc y.sys.counter) ≡ true =
          let i = Option.some-injective {A = ℕ} _ _ p in ground (arith, i) in
        rw q (ap some same)
    | inr b ↦
        let before =
          v.tracked seq n
            (sym (lookup-put_other n name (suc y.sys.counter) y.handler.pending b) ∙ h) in
        elim (Bool-cases (seq == suc y.sys.counter)) [
          | inl q ↦
              let same : seq ≡ suc y.sys.counter = ground arith in
              absurd (let f = rw same at before in let g = fresh-none y v in cc)
          | inr q ↦ rw q before
        ]
  ]

  put-lookup :
      (seq : ℕ) (n : FilePath)
      → (seq == suc y.sys.counter) ≡ false
      → Status y seq n
      → Status
          (record y {
            handler = record y.handler { pending = put name (suc y.sys.counter) y.handler.pending };
          })
          seq
          n
  put-lookup seq n q s = elim (Bool-cases (same_name name n)) [
    | inr b ↦ rw (lookup-put_other n name (suc y.sys.counter) y.handler.pending b) s
    | inl b ↦
        let same = same_name-eq name n b in
        let there = lookup-put name (suc y.sys.counter) y.handler.pending in
        elim s [
          | inl (k, _, _) ↦ absurd (let f = rw (← same) at k in cc)
          | inr (_, d) ↦
              inr (rw (← same) (rw there (some_differs (suc y.sys.counter) seq (ground arith))), d)
        ]
  ]

pub changes-new :
    (y : WatchSystem) (fn : ℕ) (name : FilePath) (s' : Shared)
    → suc y.sys.counter < 2 ^ 63
    → lookup name y.handler.pending ≡ none
    → handle_name (shared y) fn name ≡ some s'
    → Live y
    → Live (record y {
      sys = record y.sys {
        sched = s'.sched;
        added = noted y.sys.counter s'.counter y.sys.added;
        counter = s'.counter;
      };
      handler = s'.handler;
      own = owned y.sys.counter s'.counter name y.own;
    })
changes-new y fn name s' room e h v =
    let c = suc y.sys.counter in
    let (sched', g, _, _, _) = add-IsSound y.sys.sched y.sys.counter fn [] v.inv.sound room in
    let p = handle_name-new (shared y) s' fn name sched' c e g h in
    let fresh : (c == y.sys.counter) ≡ false = ground arith in
    let none_added = count-Descends y.sys.counter c y.sys.added v.inv.numbered (omega arith) in
    let none_returned = v.known c (fresh-none y v) in
    rw (p, fresh)
      (record {
        inv = Step-Inv (adds fn [] sched' c room g) v.inv;
        tracked = put-tracked y v name e;
        status = λ seq n o. elim (Bool-cases (seq == c)) [
          | inl q ↦
              let same : seq ≡ c = ground arith in
              let named : name ≡ n = Option.some-injective {A = FilePath} _ _ (rw q at o) in
              rw (same, ← named)
                (inl (lookup-put name c y.handler.pending, fresh-over y v, rw none_returned refl))
          | inr q ↦ put-lookup y v name e seq n q (v.status seq n (rw q at o))
        ];
        given = λ seq n o. elim (Bool-cases (seq == c)) [
          | inl q ↦ let same : seq ≡ c = ground arith in ground (arith, none_added)
          | inr q ↦ let before = v.given seq n (rw q at o) in ground (arith, before)
        ];
        known = λ seq o. elim (Bool-cases (seq == c)) [
          | inl q ↦ absurd (let f = rw q at o in cc)
          | inr q ↦ v.known seq (rw q at o)
        ];
      })

pub changes-known :
    (y : WatchSystem) (fn seq : ℕ) (name : FilePath) (s' : Shared)
    → lookup name y.handler.pending ≡ some seq
    → handle_name (shared y) fn name ≡ some s'
    → Live y
    → Live (record y {
      sys = record y.sys {
        sched = s'.sched;
        added = noted y.sys.counter s'.counter y.sys.added;
        counter = s'.counter;
      };
      handler = s'.handler;
      own = owned y.sys.counter s'.counter name y.own;
    })
changes-known y fn seq name s' e h v =
    let p = handle_name-known (shared y) s' fn seq name e h in
    let same : (y.sys.counter == y.sys.counter) ≡ true = ground arith in
    rw (p, same)
      (record {
        inv = v.inv;
        tracked = v.tracked;
        status = v.status;
        given = v.given;
        known = v.known;
      })
