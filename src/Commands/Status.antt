-- ===== src/Commands/Status.antt =====
-- When a command reports success.
use baamhackl.Base.{◌≡◌, refl, false, Option, none, some, List, [], ◌∷◌, length, ltb, arith}
use baamhackl.FilePaths.{FilePath}
use baamhackl.Commands.{exit_success, execute_status, execute_move_into, run_main}

execute_status-success :
    {E : Type 0} (err : Option E) → execute_status err ≡ exit_success → err ≡ none
unfolding execute_status
execute_status-success none e = refl
execute_status-success (some x) e = absurd (cc)

module _ {W E : Type 0} where
  -- The program reports success of "move-into" only if the logger could be configured, there was at least
  -- one file to move, and moving the files returned no error; the world is then what that has left.
  pub run_main-move_into :
      {L : Type 0} (logger : Option L) (run : FilePath → List FilePath → W → W × Option E)
      (args : List FilePath) (w : W)
      → (run_main logger (execute_move_into run args) w).1 ≡ exit_success
      → (logger ≡ none)
        × ((dir : FilePath) × (source : FilePath) × (more : List FilePath) × (args
              ≡ dir ∷ source ∷ more)
            × ((run dir (source ∷ more) w).1 ≡ none)
            × ((run_main logger (execute_move_into run args) w).0 ≡ (run dir (source ∷ more) w).0))
  unfolding run_main execute_move_into
  run_main-move_into (some x) run args w e = absurd (cc)
  run_main-move_into none run [] w e = absurd (cc)
  run_main-move_into none run (dir ∷ []) w e = absurd (cc)
  run_main-move_into none run (dir ∷ source ∷ more) w e =
      let many : ltb (length (dir ∷ source ∷ more)) 2 ≡ false = ground arith in
      (refl, (dir, source, more, refl, execute_status-success _ (rw many at e), rw many refl))
