-- ===== src/Trigger/Group.antt =====
-- internal/watchmantrigger/group.go: the triggers of all handlers. The goroutines of a group run one after
-- the other here, in any order; the first error that one returns cancels the context of the later ones.
pub mod Deleted
use baamhackl.Base.{
  ℕ, Bool, true, false, Option, none, some, List, [], ◌∷◌, ◌++◌, ◌||◌, ◌⊎◌, inl, inr, if◌then◌else◌,
}
use baamhackl.FilePaths.{FilePath}
use baamhackl.Waryio.{IoError, Result}
use baamhackl.Config.{HandlerConfig}
use baamhackl.Trigger.{Json, TriggerConfig, new_trigger_config}

-- The errors, as far as their place of origin.
pub data TriggerError : Type 0 where
  no_executable no_config no_json : TriggerError
  write_failed : IoError → TriggerError
  client_failed : ℕ → TriggerError
  cancelled : TriggerError

-- What a trigger is set to.
pub record Descriptor : Type 0 where
  pub name : FilePath
  pub expression : List Json
  pub stdin : List FilePath
  pub command : List FilePath

-- The client, and the file system, over a state `W`. The first argument of a call of the client tells
-- whether its context has been cancelled.
pub record Calls (W : Type 0) : Type 0 where
  pub write_file : W → FilePath → TriggerConfig → W × Option IoError
  pub chmod : W → FilePath → W × Option IoError
  pub watch_set : Bool → W → FilePath → W × Option TriggerError
  pub recrawl : Bool → W → FilePath → W × Option TriggerError
  pub trigger_set : Bool → W → FilePath → Descriptor → W × Option TriggerError
  pub trigger_del : W → FilePath → FilePath → W × Option TriggerError
  pub marshals : TriggerConfig → Bool
  pub context_done : W → Bool

-- triggerSetter
pub record TriggerSetter : Type 0 where
  pub command : List FilePath

unfoldable pub new_trigger_setter :
    Result FilePath → FilePath → FilePath → TriggerError ⊎ TriggerSetter
new_trigger_setter exe subcommand socket_path = elim exe [
  | inl e ↦ inl no_executable
  | inr path ↦ inr (record { command = path ∷ subcommand ∷ socket_path ∷ [] })
]

-- Group
pub record Group (F : Type 0) : Type 0 where
  pub configured : List (HandlerConfig F)

abbrev pub failed : Option IoError → Option TriggerError
failed none = none
failed (some e) = some (write_failed e)

-- One call after the other, up to the first error.
unfoldable pub after :
    {W : Type 0} → W × Option TriggerError → (W → W × Option TriggerError) → W × Option TriggerError
after r next = let rest = next r.0 in elim r.1 [ none ↦ rest | some e ↦ r ]

-- The error that is kept, and whether the context of a group has been cancelled.
unfoldable pub first_error : Option TriggerError → Option TriggerError → Option TriggerError
first_error none err = err
first_error (some e) err = some e

unfoldable pub is_cancelled : Option TriggerError → Bool → Bool
is_cancelled none done = done
is_cancelled (some e) done = true

abbrev pub descriptor :
    {F : Type 0} → TriggerSetter → List FilePath → HandlerConfig F → TriggerConfig → Descriptor
descriptor s fields h cfg = record {
  name = h.name;
  expression = cfg.expression;
  stdin = fields;
  command = s.command;
}

module _ {F W : Type 0} (calls : Calls W) where
  unfoldable pub set_config :
      TriggerSetter
      → List FilePath
      → Bool
      → W
      → HandlerConfig F
      → TriggerConfig
      → W × Option TriggerError
  set_config s fields done w h cfg =
      let (w', e) = calls.write_file w cfg.config_file_path cfg in
      let changed : W → W × Option TriggerError =
        λ w. let (w', e) = calls.chmod w cfg.config_file_path in (w', failed e) in
      after (after (after (w', failed e) changed) (λ w. calls.watch_set done w h.path))
        (λ w. calls.trigger_set done w h.path (descriptor s fields h cfg))

  -- do
  unfoldable pub do_trigger :
      (List FilePath → List FilePath)
      → TriggerSetter
      → List FilePath
      → Bool
      → W
      → HandlerConfig F
      → W × Option TriggerError
  do_trigger sort s fields done w h = elim (new_trigger_config sort h) [
    | none ↦ (w, some no_config)
    | some cfg ↦ if calls.marshals cfg then set_config s fields done w h cfg else (w, some no_json)
  ]

  -- The goroutines of SetAll; `first` is the error that Wait returns.
  unfoldable pub set_handlers :
      (Bool → W → HandlerConfig F → W × Option TriggerError)
      → List (HandlerConfig F)
      → Option TriggerError
      → W
      → Group F
      → W × Group F × Option TriggerError
  set_handlers act [] first w g = (w, g, first)
  set_handlers act (h ∷ hs) first w g =
      let done = is_cancelled first (calls.context_done w) in
      let (w', err) = act done w h in
      let kept = record g { configured = g.configured ++ h ∷ [] } in
      let good = set_handlers act hs first w' kept in
      let bad = set_handlers act hs (first_error first err) w' g in
      elim err [ none ↦ good | some e ↦ bad ]

  -- SetAll
  unfoldable pub set_all :
      (List FilePath → List FilePath)
      → Result FilePath
      → FilePath
      → FilePath
      → List FilePath
      → List (HandlerConfig F)
      → W
      → Group F
      → W × Group F × Option TriggerError
  set_all sort exe subcommand socket_path fields all w g =
      elim (new_trigger_setter exe subcommand socket_path) [
        | inl e ↦ (w, g, some e)
        | inr s ↦ set_handlers (do_trigger sort s fields) all none w g
      ]

  unfoldable pub recrawl_handlers :
      List (HandlerConfig F) → Option TriggerError → W → W × Option TriggerError
  recrawl_handlers [] first w = (w, first)
  recrawl_handlers (h ∷ hs) first w =
      let done = is_cancelled first (calls.context_done w) in
      let (w', err) = calls.recrawl done w h.path in recrawl_handlers hs (first_error first err) w'

  -- RecrawlAll
  unfoldable pub recrawl_all : Group F → W → W × Option TriggerError
  recrawl_all g w = recrawl_handlers g.configured none w

  -- The goroutines of DeleteAll: the errors of TriggerDel, and whether the context ended before all had
  -- their turn.
  unfoldable pub delete_handlers : List (HandlerConfig F) → W → W × List TriggerError × Bool
  delete_handlers [] w = (w, [], false)
  delete_handlers (h ∷ hs) w =
      let (w', err) = calls.trigger_del w h.path h.name in
      let (w'', errs, ended) = delete_handlers hs w' in
      if calls.context_done w
      then (w, [], true)
      else (w'', elim err [ none ↦ errs | some e ↦ e ∷ errs ], ended)

  -- DeleteAll
  unfoldable pub delete_all : Group F → W → W × List TriggerError
  delete_all g w =
      let (w', errs, ended) = delete_handlers g.configured w in
      (w', if ended then errs ++ cancelled ∷ [] else errs)
