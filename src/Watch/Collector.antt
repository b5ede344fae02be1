-- ===== src/Watch/Collector.antt =====
-- watch/handlermetrics.go: the metrics of a handler, what is reported to them, and what Prometheus gets.
-- `F` are floating point numbers.
pub mod Described
use baamhackl.Base.{
  ℕ, ◌+◌, ◌==◌, Bool, true, false, Option, none, some, List, [], ◌∷◌, ◌++◌, map, if◌then◌else◌,
  length,
}
use baamhackl.Base.Int.{ℤ, pos, negsuc}
use baamhackl.Scheduler.{GoError}
use baamhackl.FilePaths.{FilePath, clean}
use baamhackl.Watch.{
  Metrics, no_metrics, report_file_change, report_task_retry, report_final_task_status,
}

-- The descriptions, by the metrics' names.
pub data MetricName : Type 0 where
  handler_info file_changes_total pending_total retries_total finished_total : MetricName
  failures_total command_exit_code_total : MetricName
  command_wall_time command_user_time command_system_time : MetricName

-- How many labels a description has.
unfoldable pub label_count : MetricName → ℕ
label_count handler_info = 1
label_count command_exit_code_total = 1
label_count name = 0

-- The value of a label: a path or an exit code.
pub data Label : Type 0 where
  path_label : FilePath → Label
  code_label : ℤ → Label

-- A metric that is sent: a number, or a histogram, by what it has observed.
pub data Value (F : Type 0) : Type 0 where
  number : ℕ → Value F
  histogram : List F → Value F

pub record Sample (F : Type 0) : Type 0 where
  pub name : MetricName
  pub labels : List Label
  pub value : Value F

-- handlerMetricsCollector: the counters, the counts by exit code, and the observations of the histograms.
pub record Collector (F : Type 0) : Type 0 where
  pub path : FilePath
  pub counters : Metrics
  pub exit_codes : List (ℤ × ℕ)
  pub wall_times : List F
  pub user_times : List F
  pub system_times : List F

-- newHandlerMetricsCollector: the exit code 0 has a counter from the start.
unfoldable pub new_collector : {F : Type 0} → FilePath → Collector F
new_collector path = record {
  path = path;
  counters = no_metrics;
  exit_codes = (pos 0, 0) ∷ [];
  wall_times = [];
  user_times = [];
  system_times = [];
}

unfoldable pub same_code : ℤ → ℤ → Bool
same_code (pos a) (pos b) = a == b
same_code (negsuc a) (negsuc b) = a == b
same_code _ _ = false

-- With and Inc of the counters by exit code.
unfoldable pub count_code : ℤ → List (ℤ × ℕ) → List (ℤ × ℕ)
count_code code [] = (code, 1) ∷ []
count_code code ((c, n) ∷ cs) =
    let rest = count_code code cs in if same_code c code then (c, n + 1) ∷ cs else (c, n) ∷ rest

-- What a handler reports.
pub data Report (F : Type 0) : Type 0 where
  changed : Report F
  process_ended : ℤ → F → F → F → Report F
  retried : Report F
  ended : Option GoError → Report F

-- ReportFileChange, ReportProcessState, ReportTaskRetry and ReportFinalTaskStatus
unfoldable pub report : {F : Type 0} → Collector F → Report F → Collector F
report c changed = record c { counters = report_file_change c.counters }
report c (process_ended code wall user system) = record c {
  exit_codes = count_code code c.exit_codes;
  wall_times = wall ∷ c.wall_times;
  user_times = user ∷ c.user_times;
  system_times = system ∷ c.system_times;
}
report c retried = record c { counters = report_task_retry c.counters }
report c (ended err) = record c { counters = report_final_task_status c.counters err }

-- Describe
unfoldable pub describe : List MetricName
describe =
    handler_info ∷ pending_total ∷ file_changes_total ∷ command_exit_code_total ∷ command_wall_time
    ∷ command_user_time ∷ command_system_time ∷ retries_total ∷ finished_total ∷ failures_total ∷ []

abbrev pub plain : {F : Type 0} → MetricName → Value F → Sample F
plain name value = record { name = name; labels = []; value = value }

unfoldable pub code_samples : {F : Type 0} → List (ℤ × ℕ) → List (Sample F)
code_samples [] = []
code_samples ((c, n) ∷ cs) =
    record { name = command_exit_code_total; labels = code_label c ∷ []; value = number n }
    ∷ code_samples cs

-- Collect, for the number of pending tasks.
unfoldable pub collect : {F : Type 0} → Collector F → ℕ → List (Sample F)
collect c pending =
    record { name = handler_info; labels = path_label (clean c.path) ∷ []; value = number 1 }
    ∷ plain file_changes_total (number c.counters.file_changes)
    ∷ (code_samples c.exit_codes
        ++ (plain command_wall_time (histogram c.wall_times)
            ∷ plain command_user_time (histogram c.user_times)
            ∷ plain command_system_time (histogram c.system_times)
            ∷ plain retries_total (number c.counters.retries)
            ∷ plain finished_total (number c.counters.finished)
            ∷ plain failures_total (number c.counters.failures)
            ∷ plain pending_total (number pending)
            ∷ []))
