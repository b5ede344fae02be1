-- ===== src/Server/Shutdown.antt =====
-- Whatever fails, the "watch" command undoes what it has done.
use baamhackl.Base.{
  ℕ, Bool, true, false, Option, none, some, List, [], ◌∷◌, ◌++◌, ◌≡◌, refl, if◌then◌else◌,
}
use baamhackl.Server.{
  Action, load_config, log_config, wait_for_ready, setup_signals, create_temp_dir, start_router,
  serve_metrics, listen, set_triggers, recrawl_triggers, start_pruning, wait_for_signal,
  close_socket, delete_triggers, stop_metrics, stop_router, remove_temp_dir, stop_signals, Effects,
  append_fn, call_group, with_defer, serve, open_socket, run_router, run_and_clean, with_signals,
  execute_with_client,
}

-- The errors of the steps that may fail on the way up, and those on the way down.
pub record Outcomes : Type 0 where
  pub config : Option ℕ
  pub log : Option ℕ
  pub client : Option ℕ
  pub temp_dir : Option ℕ
  pub metrics : Option ℕ
  pub socket : Option ℕ
  pub triggers : Option ℕ
  pub crawl : Option ℕ
  pub undoing : Action → Option ℕ

unfoldable pub outcome : Outcomes → Action → Option ℕ
outcome o load_config = o.config
outcome o log_config = o.log
outcome o wait_for_ready = o.client
outcome o create_temp_dir = o.temp_dir
outcome o serve_metrics = o.metrics
outcome o listen = o.socket
outcome o set_triggers = o.triggers
outcome o recrawl_triggers = o.crawl
outcome o setup_signals = none
outcome o start_router = none
outcome o start_pruning = none
outcome o wait_for_signal = none
outcome o a = o.undoing a

-- The state is the list of the actions so far.
abbrev pub traced : Outcomes → Effects (List Action)
traced o = record { act = λ w a. w ++ a ∷ []; try = λ w a. (w ++ a ∷ [], outcome o a) }

abbrev pub plan : Bool → List Action
plan has_metrics =
    load_config
    ∷ log_config
    ∷ wait_for_ready
    ∷ setup_signals
    ∷ create_temp_dir
    ∷ start_router
    ∷ ((if has_metrics then serve_metrics ∷ [] else [])
        ++ (listen ∷ set_triggers ∷ recrawl_triggers ∷ start_pruning ∷ wait_for_signal ∷ []))

-- The actions up to the first that fails, that one included.
unfoldable pub attempted : Outcomes → List Action → List Action
attempted o [] = []
attempted o (a ∷ as') =
    let rest = attempted o as' in elim (outcome o a) [ some e ↦ a ∷ [] | none ↦ a ∷ rest ]

-- What takes an action back, given its error. The triggers are deleted even where the socket failed.
unfoldable pub undo : Action → Option ℕ → List Action
undo setup_signals err = stop_signals ∷ []
undo create_temp_dir none = remove_temp_dir ∷ []
undo start_router err = stop_router ∷ []
undo serve_metrics none = stop_metrics ∷ []
undo listen none = close_socket ∷ delete_triggers ∷ []
undo listen (some e) = delete_triggers ∷ []
undo a err = []

-- All of them are taken back, the last first.
unfoldable pub undone : Outcomes → List Action → List Action
undone o [] = []
undone o (a ∷ as') = undone o as' ++ undo a (outcome o a)

by_outcome :
    (has_metrics : Bool) (c l r t m s g k : Option ℕ) (u : Action → Option ℕ)
    → let o : Outcomes = record {
      config = c;
      log = l;
      client = r;
      temp_dir = t;
      metrics = m;
      socket = s;
      triggers = g;
      crawl = k;
      undoing = u;
    } in
      (execute_with_client (traced o) has_metrics []).0
      ≡ attempted o (plan has_metrics) ++ undone o (attempted o (plan has_metrics))
unfolding execute_with_client with_signals run_and_clean run_router open_socket serve with_defer
    call_group append_fn attempted undone undo outcome
by_outcome true (some e) l r t m s g k u = refl
by_outcome true none (some e) r t m s g k u = refl
by_outcome true none none (some e) t m s g k u = refl
by_outcome true none none none (some e) m s g k u = refl
by_outcome true none none none none (some e) s g k u = refl
by_outcome true none none none none none (some e) g k u = refl
by_outcome true none none none none none none (some e) k u = refl
by_outcome true none none none none none none none (some e) u = refl
by_outcome true none none none none none none none none u = refl
by_outcome false (some e) l r t m s g k u = refl
by_outcome false none (some e) r t m s g k u = refl
by_outcome false none none (some e) t m s g k u = refl
by_outcome false none none none (some e) m s g k u = refl
by_outcome false none none none none m (some e) g k u = refl
by_outcome false none none none none m none (some e) k u = refl
by_outcome false none none none none m none none (some e) u = refl
by_outcome false none none none none m none none none u = refl

-- The actions of the command are those of its plan up to the first that fails, and after them everything
-- that takes these back, the last first, whatever fails on the way down.
pub execute_with_client-undone :
    (has_metrics : Bool) (o : Outcomes)
    → (execute_with_client (traced o) has_metrics []).0
      ≡ attempted o (plan has_metrics) ++ undone o (attempted o (plan has_metrics))
execute_with_client-undone m o =
    by_outcome m o.config o.log o.client o.temp_dir o.metrics o.socket o.triggers o.crawl o.undoing
