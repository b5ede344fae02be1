-- ===== src/Server/Tests.antt =====
-- Tests of the "watch" command: the triggers cannot be crawled, and the router does not stop.
use baamhackl.Base.{ℕ, true, Option, none, some, [], ◌∷◌, ◌++◌, ◌≡◌, refl}
use baamhackl.Server.{Action, stop_router, execute_with_client}
use baamhackl.Server.Shutdown.{
  Outcomes, traced, plan, attempted, undone, execute_with_client-undone,
}

abbrev stuck : Action → Option ℕ
stuck stop_router = some 9
stuck a = none

abbrev outcomes : Outcomes
outcomes = record {
  config = none;
  log = none;
  client = none;
  temp_dir = none;
  metrics = none;
  socket = none;
  triggers = none;
  crawl = some 4;
  undoing = stuck;
}

execute_with_client-undone_example :
    (execute_with_client (traced outcomes) true []).0
    ≡ attempted outcomes (plan true) ++ undone outcomes (attempted outcomes (plan true))
execute_with_client-undone_example = execute_with_client-undone true outcomes

-- Both errors are returned.
two_errors : (execute_with_client (traced outcomes) true []).1 ≡ 4 ∷ 9 ∷ []
unfolding execute_with_client baamhackl.Server.Shutdown.outcome baamhackl.Server.with_signals
    baamhackl.Server.with_defer baamhackl.Server.append_error baamhackl.Server.run_and_clean
    baamhackl.Server.run_router baamhackl.Server.open_socket baamhackl.Server.serve
    baamhackl.Server.call_group baamhackl.Server.append_fn
two_errors = refl
