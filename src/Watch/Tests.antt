-- ===== src/Watch/Tests.antt =====
-- Tests of watch/handler.go and watch/router.go: changes of two files, and requests.
use baamhackl.Base.{
  ℕ, ◌/◌, ltb, ◌+◌, ◌≡◌, length, ◌≢◌, ◌⊎◌, refl, true, false, Bool, Option, none, some, inr, List,
  [], ◌∷◌, arith, All, count, ◌^◌, ◌<◌,
}
use baamhackl.Base.Int.{ℤ, pos}
use baamhackl.Scheduler.{Task, new, add, start, loop_round, run_task}
use baamhackl.Scheduler.Queues.{queued}
use baamhackl.Scheduler.System.{starts, launches}
use baamhackl.Scheduler.System.Invariant.{seqs_of}
use baamhackl.FilePaths.{FilePath, same_name, is_abs, clean}
use baamhackl.Waryio.{FileInfo, IoError, Result}
use baamhackl.Watch.{
  new_handler, handle, handle_name, invoked, lookup, put, delete, report_file_change, Refusal,
  unknown_handler,
}
use baamhackl.Watch.Router.{Router, FileChangedRequest, new_router, file_changed, add_handlers}
use baamhackl.Watch.Router.Refusals.{file_changed-refusal}
use baamhackl.Watch.Buckets.{make_seconds_buckets, compact, is_new}
use baamhackl.Watch.Buckets.Ascending.{distinct, IsAscending, make_seconds_buckets-distinct}
use baamhackl.Watch.Collector.{
  Report, changed as file_reported, process_ended, retried, ended, collect, new_collector, report,
  count_code, same_code,
}
use baamhackl.Watch.Collector.Described.{
  IsDescribed, AreDistinct, sum_counts, reported, collect-IsDescribed,
}
use baamhackl.Watch.Pending.{
  WatchSystem, started, Reach, here, next, changes, invokes, finishes, schedules,
}
use baamhackl.Watch.Pending.Live.{is_done}
use baamhackl.Watch.Pending.Once.{pending-once}

-- Files a and b change, then a once more.
abbrev start_state : WatchSystem
start_state = started 2 (47 ∷ 119 ∷ [])

changed : (y : WatchSystem) × Reach start_state y
unfolding new new_handler handle_name lookup put add report_file_change same_name
changed =
    let a : (y : WatchSystem) × Reach start_state y =
      (_, next here (changes 7 (97 ∷ []) _ (omega arith) refl)) in
    let b : (y : WatchSystem) × Reach start_state y =
      (_, next a.1 (changes 8 (98 ∷ []) _ (omega arith) refl)) in
    (_, next b.1 (changes 7 (97 ∷ []) _ (omega arith) refl))

-- The task of a.
abbrev first_task : Task
first_task = record {
  fn = 7;
  seq = 1;
  next_after = 0;
  attempt_count = 0;
  seq_item = none;
  time_item = none;
}

-- The scheduler starts and launches that task, whose function succeeds, and whose end it then sees.
ended_one : (y : WatchSystem) × Reach start_state y
unfolding changed new new_handler handle_name lookup put delete add report_file_change same_name
    start loop_round invoked run_task
ended_one =
    let d : (y : WatchSystem) × Reach start_state y =
      (_, next changed.1 (schedules _ (starts _ refl) tt)) in
    let e : (y : WatchSystem) × Reach start_state y =
      (_, next d.1 (schedules _ (launches 0 first_task _ (omega arith) refl) tt)) in
    let f : (y : WatchSystem) × Reach start_state y =
      (_, next e.1 (invokes (97 ∷ []) first_task [] [] none refl refl refl)) in
    (_, next f.1 (finishes [] [] first_task 5 none _ refl refl refl))

pending-once_example :
    ((name : FilePath) (seq : ℕ)
      → lookup name ended_one.0.handler.pending ≡ some seq
      → count seq (queued ended_one.0.sys.sched) + count seq (seqs_of ended_one.0.sys.running) ≡ 1)
    × ((name : FilePath) (seq : ℕ)
        → ended_one.0.own seq ≡ some name
        → (lookup name ended_one.0.handler.pending ≡ some seq)
          ⊎ (is_done (ended_one.0.results seq) ≡ true)
          ⊎ (0 < count seq ended_one.0.sys.over))
pending-once_example = pending-once 2 (47 ∷ 119 ∷ []) ended_one.0 ended_one.1

abbrev directory : FileInfo
directory = record { identity = 1; file_type = 2 ^ 31; perm = 493; size = 0; mod_time = 0 }

abbrev lstat : FilePath → Result FileInfo
lstat p = inr directory

abbrev router : Router
router = new_router 2 ((104 ∷ [], 47 ∷ 119 ∷ []) ∷ [])

abbrev request : FilePath → FileChangedRequest
request name = record { handler_name = name; root_dir = 47 ∷ 119 ∷ []; change_name = 97 ∷ [] }

abbrev refused_as : Option (Router × Option Refusal) → Option (Option Refusal)
refused_as none = none
refused_as (some (r, x)) = some x

accepted : refused_as (file_changed lstat router 7 (request (104 ∷ []))) ≡ some none
unfolding file_changed same_name is_abs baamhackl.Watch.Router.dispatched lookup new_router
    add_handlers put handle baamhackl.Waryio.RelDir.same_stat clean handle_name add new new_handler
accepted = refl

file_changed-refusal_example :
    ((some unknown_handler ≡ none)
      × ((request (105 ∷ [])).handler_name ≢ [])
      × ((request (105 ∷ [])).change_name ≢ [])
      × (is_abs (request (105 ∷ [])).root_dir ≡ true)
      × (is_abs (request (105 ∷ [])).change_name ≡ false)
      × (lookup (105 ∷ []) router.handler_by_name ≢ none))
    ⊎ ((some unknown_handler ≢ none)
        × (router.sched ≡ router.sched)
        × (router.counter ≡ router.counter))
unfolding file_changed same_name is_abs baamhackl.Watch.Router.dispatched lookup new_router
    add_handlers put handle baamhackl.Waryio.RelDir.same_stat clean handle_name add new new_handler
file_changed-refusal_example =
    file_changed-refusal lstat router router 7 (request (105 ∷ [])) (some unknown_handler) refl

-- Eight steps of a quarter, from one quarter, in the place of an exponential range.
abbrev quarters : ℤ → ℤ → ℕ → List ℕ
quarters min max count = 1 ∷ 2 ∷ 3 ∷ 4 ∷ 5 ∷ 6 ∷ 7 ∷ 8 ∷ []

abbrev ltb_back : ℕ → ℕ → Bool
ltb_back a b = ltb b a

abbrev rounded : ℕ → ℕ
rounded x = (x + 2) / 4

make_seconds_buckets-distinct_example :
    (make_seconds_buckets ltb_back rounded quarters (pos 1) (pos 2) 8
      ≡ some (distinct ltb_back rounded none (quarters (pos 1) (pos 2) 8)))
    × IsAscending ltb_back rounded none
        (distinct ltb_back rounded none (quarters (pos 1) (pos 2) 8))
make_seconds_buckets-distinct_example =
    make_seconds_buckets-distinct ltb_back rounded quarters (pos 1) (pos 2) 8

three_buckets :
    make_seconds_buckets ltb_back rounded quarters (pos 1) (pos 2) 8 ≡ some (0 ∷ 1 ∷ 2 ∷ [])
unfolding make_seconds_buckets compact is_new
three_buckets = refl

-- A change whose command fails once and then succeeds.
abbrev reports : List (Report ℕ)
reports =
    ended none
    ∷ process_ended (pos 0) 5 2 1
    ∷ retried
    ∷ process_ended (pos 1) 3 1 1
    ∷ file_reported
    ∷ []

collect-IsDescribed_example :
    All IsDescribed (collect (reported (47 ∷ 119 ∷ []) reports) 1)
    × AreDistinct (reported (47 ∷ 119 ∷ []) reports).exit_codes
    × (sum_counts (reported (47 ∷ 119 ∷ []) reports).exit_codes
        ≡ length (reported (47 ∷ 119 ∷ []) reports).wall_times)
collect-IsDescribed_example = collect-IsDescribed (47 ∷ 119 ∷ []) reports 1

two_codes : (reported (47 ∷ 119 ∷ []) reports).exit_codes ≡ (pos 0, 1) ∷ (pos 1, 1) ∷ []
unfolding reported new_collector report count_code same_code
two_codes = refl
