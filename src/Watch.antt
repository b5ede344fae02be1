-- ===== src/Watch.antt =====
-- The server's core: watch/handler.go, which keeps one task for each changed file, with the counters of
-- watch/handlermetrics.go, and watch/router.go in front of the handlers. Logging is left out.
pub mod Router
pub mod Pending
pub mod Handled
pub mod Buckets
pub mod Collector
mod Tests
use baamhackl.Base.{
  ℕ, zero, suc, ◌+◌, Bool, true, false, not, ◌&&◌, Option, none, some, List, [], ◌∷◌, inl, inr,
  if◌then◌else◌,
}
use baamhackl.PrioQueue.{◌>>=◌}
use baamhackl.Scheduler.{GoError, Scheduler, as_task_error, is_permanent, add}
use baamhackl.FilePaths.{FilePath, same_name, clean}
use baamhackl.Waryio.{FileInfo, IoError, Result}
use baamhackl.Waryio.RelDir.{same_stat}

-- The counters of handlerMetricsCollector.
pub record Metrics : Type 0 where
  pub file_changes : ℕ
  pub retries : ℕ
  pub finished : ℕ
  pub failures : ℕ

abbrev pub no_metrics : Metrics
no_metrics = record { file_changes = 0; retries = 0; finished = 0; failures = 0 }

-- ReportFileChange
unfoldable pub report_file_change : Metrics → Metrics
report_file_change m = record m { file_changes = m.file_changes + 1 }

-- ReportTaskRetry
unfoldable pub report_task_retry : Metrics → Metrics
report_task_retry m = record m { retries = m.retries + 1 }

-- ReportFinalTaskStatus
unfoldable pub report_final_task_status : Metrics → Option GoError → Metrics
report_final_task_status m none = record m { finished = m.finished + 1 }
report_final_task_status m (some e) = record m {
  finished = m.finished + 1;
  failures = m.failures + 1;
}

-- A map from names, its entries once for each name.
unfoldable pub lookup {ℓ} : {A : Type ℓ} → FilePath → List (FilePath × A) → Option A
lookup name [] = none
lookup name ((n, a) ∷ m) = if same_name n name then some a else lookup name m

unfoldable pub delete {ℓ} : {A : Type ℓ} → FilePath → List (FilePath × A) → List (FilePath × A)
delete name [] = []
delete name ((n, a) ∷ m) =
    let rest = delete name m in if same_name n name then rest else (n, a) ∷ rest

unfoldable pub put {ℓ} : {A : Type ℓ} → FilePath → A → List (FilePath × A) → List (FilePath × A)
put name a [] = (name, a) ∷ []
put name a ((n, b) ∷ m) =
    let rest = put name a m in if same_name n name then (n, a) ∷ m else (n, b) ∷ rest

-- handler. A pending task is known by the sequence number of the one call of Add that it gets.
pub record Handler : Type 0 where
  pub path : FilePath
  pub pending : List (FilePath × ℕ)
  pub mc : Metrics

-- newHandler
unfoldable pub new_handler : FilePath → Handler
new_handler path = record { path = path; pending = []; mc = no_metrics }

-- What invokeTask does when the function of the task `name` has returned `err`, with the lock held.
unfoldable pub invoked : Handler → FilePath → Option GoError → Handler
invoked h name err =
    if is_permanent (as_task_error err)
    then record h { mc = report_final_task_status h.mc err; pending = delete name h.pending }
    else record h { mc = report_task_retry h.mc }

-- Why a change is refused.
pub data Refusal : Type 0 where
  stat_failed : List IoError → Refusal
  other_root missing_names relative_root absolute_name unknown_handler : Refusal

-- The state that handle changes: the handler, the scheduler and the counter of sequence numbers.
pub record Shared : Type 0 where
  pub handler : Handler
  pub sched : Scheduler
  pub counter : ℕ

-- handle, from the lock on, for a cleaned name; `fn` is the function of a new task.
unfoldable pub handle_name : Shared → ℕ → FilePath → Option Shared
handle_name s fn name =
    let counted = record s.handler { mc = report_file_change s.handler.mc } in
    let added = add s.sched s.counter (some fn) [] >>= λ (sched', seq). some (record {
      handler = record counted { pending = put name seq s.handler.pending };
      sched = sched';
      counter = seq;
    }) in
    elim (lookup name s.handler.pending) [
      | none ↦ added
      | some seq ↦ some (record s { handler = counted })
    ]

-- handle, for a request's root directory and name; a panic is none.
unfoldable pub handle :
    (FilePath → Result FileInfo)
    → Shared
    → ℕ
    → FilePath
    → FilePath
    → Option (Shared × Option Refusal)
handle lstat s fn root name =
    let done = handle_name s fn (clean name) >>= λ s'. some (s', none) in
    elim (same_stat lstat root s.handler.path) [
      | inl errs ↦ some (s, some (stat_failed errs))
      | inr same ↦ if same then done else some (s, some other_root)
    ]
