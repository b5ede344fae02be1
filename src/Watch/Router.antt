-- ===== src/Watch/Router.antt =====
-- watch/router.go: requests are checked and given to the handler that they name, and the journals are
-- pruned at intervals.
pub mod Refusals
pub mod Accepted
use mathlib.Core.Option
use baamhackl.Base.{
  ℕ, zero, suc, ◌+◌, ◌/◌, Bool, true, false, not, ◌&&◌, ◌||◌, ◌≡◌, ◌≢◌, refl, ap, sym, ◌∙◌,
  Sum-cases, Option, none, some, List, [], ◌∷◌, ◌++◌, inl, inr, ◌⊎◌, arith, if◌then◌else◌,
  Bool-cases, Option-cases,
}
use baamhackl.Base.Int.{ℤ, pos, negsuc}
use baamhackl.PrioQueue.{◌>>=◌}
use baamhackl.Scheduler.{Scheduler, add, new, start, set_slots, next_after_duration}
use baamhackl.FilePaths.{FilePath, same_name, is_abs, clean}
use baamhackl.Waryio.{FileInfo, IoError, Result, Result-cases}
use baamhackl.Waryio.RelDir.{same_stat}
use baamhackl.Handler.Attempt.{Errors}
use baamhackl.Handler.Retry.{FloatOps, random}
use baamhackl.Watch.{
  Handler, new_handler, Shared, handle, handle_name, stat_failed, other_root, Refusal,
  missing_names, relative_root, absolute_name, unknown_handler, lookup, put,
}

-- router, with the counter of sequence numbers. Prometheus' registry is left out.
pub record Router : Type 0 where
  pub handler_by_name : List (FilePath × Handler)
  pub sched : Scheduler
  pub counter : ℕ
  pub prune_interval : ℤ

abbrev pub one_hour : ℤ
one_hour = pos 3600000000000

-- The loop of newRouter, over the names and paths of the handlers.
unfoldable pub add_handlers :
    List (FilePath × FilePath) → List (FilePath × Handler) → List (FilePath × Handler)
add_handlers [] m = m
add_handlers ((name, path) ∷ cfgs) m = add_handlers cfgs (put name (new_handler path) m)

-- newRouter
unfoldable pub new_router : ℕ → List (FilePath × FilePath) → Router
new_router num_cpu cfgs = record {
  handler_by_name = add_handlers cfgs [];
  sched = new num_cpu;
  counter = 0;
  prune_interval = one_hour;
}

-- start; a panic is none.
unfoldable pub start_router : Router → ℤ → Option Router
start_router r slots = start (set_slots r.sched slots) >>= λ s. some (record r { sched = s })

-- FileChangedRequest, as far as it is read.
pub record FileChangedRequest : Type 0 where
  pub handler_name : FilePath
  pub root_dir : FilePath
  pub change_name : FilePath

-- The state that a handler of the router changes, and its way back.
abbrev pub shared : Router → Handler → Shared
shared r h = record { handler = h; sched = r.sched; counter = r.counter }

abbrev pub update : Router → FileChangedRequest → Shared → Router
update r req s = record r {
  handler_by_name = put req.handler_name s.handler r.handler_by_name;
  sched = s.sched;
  counter = s.counter;
}

-- FileChanged after its checks of the request; `fn` is the function of a new task.
unfoldable pub dispatched :
    (FilePath → Result FileInfo)
    → Router
    → ℕ
    → FileChangedRequest
    → Option (Router × Option Refusal)
dispatched lstat r fn req = elim (lookup req.handler_name r.handler_by_name) [
  | none ↦ some (r, some unknown_handler)
  | some h ↦ handle lstat (shared r h) fn req.root_dir req.change_name >>= λ (s, refused).
      some (update r req s, refused)
]

-- FileChanged
unfoldable pub file_changed :
    (FilePath → Result FileInfo)
    → Router
    → ℕ
    → FileChangedRequest
    → Option (Router × Option Refusal)
file_changed lstat r fn req =
    if same_name req.handler_name [] || same_name req.change_name []
    then some (r, some missing_names)
    else if not (is_abs req.root_dir)
    then some (r, some relative_root)
    else if is_abs req.change_name
    then some (r, some absolute_name)
    else dispatched lstat r fn req

-- d / 10, rounded towards 0.
abbrev pub tenth : ℤ → ℤ
tenth (pos n) = pos (n / 10)
tenth (negsuc n) = elim ((n + 1) / 10) [ zero ↦ pos 0 | suc m ↦ negsuc m ]

module _ {F : Type 0} (fl : FloatOps F) (fuzz_factor : F) (prune_fn : ℕ) where
  -- schedulePruning, at an instant and with a random number.
  unfoldable pub schedule_pruning : Router → ℕ → F → ℤ → Option Router
  schedule_pruning r now drawn after =
      add r.sched r.counter (some prune_fn)
        (next_after_duration now (random fl drawn after fuzz_factor) ∷ [])
      >>= λ (s, seq). some (record r { sched = s; counter = seq })

  -- startPruning
  unfoldable pub start_pruning : Router → ℕ → F → ℤ → Option Router
  start_pruning r now drawn interval =
      schedule_pruning (record r { prune_interval = interval }) now drawn (tenth interval)

  -- The loop of pruneAll over the handlers, in the order that the map gives: whether it went through, and
  -- the errors.
  unfoldable pub prune_handlers :
      {W : Type 0}
      → (W → Option IoError)
      → (W → Handler → W × Errors)
      → List Handler
      → W
      → Errors
      → W × Bool × Errors
  prune_handlers context_err prune [] w errs = (w, true, errs)
  prune_handlers context_err prune (h ∷ hs) w errs =
      let (w', e) = prune w h in
      let rest = prune_handlers context_err prune hs w' (errs ++ e) in
      elim (context_err w) [ some e ↦ (w, false, e ∷ []) | none ↦ rest ]

  -- pruneAll: the next run is scheduled only where every handler had its turn.
  unfoldable pub prune_all :
      {W : Type 0}
      → (W → Option IoError)
      → (W → Handler → W × Errors)
      → List Handler
      → Router
      → ℕ
      → F
      → W
      → Option (Router × W × Errors)
  prune_all context_err prune handlers r now drawn w =
      let (w', complete, errs) = prune_handlers context_err prune handlers w [] in
      let again = schedule_pruning r now drawn r.prune_interval >>= λ r'. some (r', w', errs) in
      if complete then again else some (r, w', errs)
