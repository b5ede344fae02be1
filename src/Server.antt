-- ===== src/Server.antt =====
-- The "watch" command, ExecuteWithClient of watch/command.go, and internal/cleanupgroup. What the command
-- does in turn is an action; the state `W` and the effect of the actions are parameters.
pub mod Shutdown
pub mod Metrics
mod Tests
use baamhackl.Base.{ℕ, Bool, true, false, Option, none, some, List, [], ◌∷◌, ◌++◌, if◌then◌else◌}

pub data Action : Type 0 where
  load_config log_config wait_for_ready setup_signals create_temp_dir : Action
  start_router serve_metrics listen set_triggers recrawl_triggers : Action
  start_pruning wait_for_signal : Action
  close_socket delete_triggers stop_metrics stop_router : Action
  remove_temp_dir stop_signals : Action

-- The actions that do not fail are `act`, the others `try`.
pub record Effects (W : Type 0) : Type 0 where
  pub act : W → Action → W
  pub try : W → Action → W × Option ℕ

-- CleanupGroup: functions with an error, over a state.
abbrev pub CleanupGroup : Type 0 → Type 0
CleanupGroup W = List (W → W × Option ℕ)

-- Append
unfoldable pub append_fn : {W : Type 0} → CleanupGroup W → (W → W × Option ℕ) → CleanupGroup W
append_fn c fn = c ++ fn ∷ []

-- multierr.AppendInto
unfoldable pub append_error : List ℕ → Option ℕ → List ℕ
append_error errs none = errs
append_error errs (some e) = errs ++ e ∷ []

-- Call: the last function first, and all of them.
unfoldable pub call_group : {W : Type 0} → CleanupGroup W → W → W × List ℕ
call_group [] w = (w, [])
call_group (fn ∷ c) w =
    let (w1, errs) = call_group c w in let (w2, err) = fn w1 in (w2, append_error errs err)

-- A deferred call after the rest, whose error is appended.
unfoldable pub with_defer : {W : Type 0} → W × List ℕ → (W → W × Option ℕ) → W × List ℕ
with_defer r release = let (w', err) = release r.0 in (w', append_error r.1 err)

module _ {W : Type 0} (effects : Effects W) where
  -- With the socket open: the triggers, and the wait for a signal, whose error is only logged.
  unfoldable pub serve : W → W × List ℕ
  serve w =
      let (w1, set) = effects.try w set_triggers in
      let (w2, crawl) = effects.try w1 recrawl_triggers in
      let ready : W × List ℕ = (effects.act (effects.act w2 start_pruning) wait_for_signal, []) in
      let crawled : W × List ℕ = elim crawl [ some e ↦ (w2, e ∷ []) | none ↦ ready ] in
      elim set [ some e ↦ (w1, e ∷ []) | none ↦ crawled ]

  -- From the socket on, with the functions to be called at the end.
  unfoldable pub open_socket : CleanupGroup W → W → W × List ℕ × CleanupGroup W
  open_socket cleanup w =
      let cleanup' = append_fn cleanup (λ w. effects.try w delete_triggers) in
      let (w1, err) = effects.try w listen in
      let (w2, errs) = with_defer (serve w1) (λ w. effects.try w close_socket) in
      elim err [ some e ↦ (w1, e ∷ [], cleanup') | none ↦ (w2, errs, cleanup') ]

  -- From the router on.
  unfoldable pub run_router : Bool → W → W × List ℕ × CleanupGroup W
  run_router has_metrics w =
      let w1 = effects.act w start_router in
      let cleanup : CleanupGroup W = append_fn [] (λ w. effects.try w stop_router) in
      let cleanup' : CleanupGroup W = append_fn cleanup (λ w. effects.try w stop_metrics) in
      let (w2, err) = effects.try w1 serve_metrics in
      let served = open_socket cleanup' w2 in
      let with_metrics : W × List ℕ × CleanupGroup W = elim err [
        | some e ↦ (w2, e ∷ [], cleanup)
        | none ↦ served
      ] in
      let without_metrics = open_socket cleanup w1 in
      if has_metrics then with_metrics else without_metrics

  -- The router with the deferred call of the cleanup group.
  unfoldable pub run_and_clean : Bool → W → W × List ℕ
  run_and_clean has_metrics w =
      let (w1, errs, cleanup) = run_router has_metrics w in
      let (w2, more) = call_group cleanup w1 in (w2, errs ++ more)

  -- From the signals on.
  unfoldable pub with_signals : Bool → W → W × List ℕ
  with_signals has_metrics w =
      let w1 = effects.act w setup_signals in
      let (w2, err) = effects.try w1 create_temp_dir in
      let (w3, errs) =
        with_defer (run_and_clean has_metrics w2) (λ w. effects.try w remove_temp_dir) in
      elim err [
        | some e ↦ (effects.act w2 stop_signals, e ∷ [])
        | none ↦ (effects.act w3 stop_signals, errs)
      ]

  -- ExecuteWithClient; the flag tells whether an address for metrics is given.
  unfoldable pub execute_with_client : Bool → W → W × List ℕ
  execute_with_client has_metrics w =
      let (w1, load) = effects.try w load_config in
      let (w2, log) = effects.try w1 log_config in
      let (w3, wait) = effects.try w2 wait_for_ready in
      let served = with_signals has_metrics w3 in
      let waited : W × List ℕ = elim wait [ some e ↦ (w3, e ∷ []) | none ↦ served ] in
      let logged : W × List ℕ = elim log [ some e ↦ (w2, e ∷ []) | none ↦ waited ] in
      elim load [ some e ↦ (w1, e ∷ []) | none ↦ logged ]
