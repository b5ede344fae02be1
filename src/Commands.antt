-- ===== src/Commands.antt =====
-- The exit status of the program: internal/cmdutil/executestatus.go, Execute of the subcommands in
-- watch/command.go, move/into.go, sendfilechanges/command.go and selftest/command.go, and main in main.go.
-- What the commands do, and the parsing of flags, are parameters.
pub mod Emulation
pub mod Status
pub mod Moved
use baamhackl.Base.{
  ℕ, ◌<◌, Bool, true, false, not, Option, none, some, List, [], ◌∷◌, length, ltb, ◌==◌,
  if◌then◌else◌,
}
use baamhackl.FilePaths.{FilePath}

-- subcommands.ExitStatus
pub data ExitStatus : Type 0 where
  exit_success exit_failure exit_usage_error : ExitStatus

-- executeStatus
unfoldable pub execute_status : {E : Type 0} → Option E → ExitStatus
execute_status none = exit_success
execute_status (some e) = exit_failure

module _ {W E : Type 0} where
  -- Execute of the "watch" and of the "selftest" command: no arguments.
  unfoldable pub execute_plain : (W → W × Option E) → List FilePath → W → W × ExitStatus
  execute_plain run args w =
      let (w', err) = run w in
      if ltb 0 (length args) then (w, exit_usage_error) else (w', execute_status err)

  -- Execute of "move-into": the target directory and at least one file.
  unfoldable pub execute_move_into :
      (FilePath → List FilePath → W → W × Option E) → List FilePath → W → W × ExitStatus
  execute_move_into run [] w = (w, exit_usage_error)
  execute_move_into run (dir ∷ sources) w =
      let (w', err) = run dir sources w in
      if ltb (length (dir ∷ sources)) 2 then (w, exit_usage_error) else (w', execute_status err)

  -- Execute of "send-file-changes": the socket.
  unfoldable pub execute_send : (FilePath → W → W × Option E) → List FilePath → W → W × ExitStatus
  execute_send run [] w = (w, exit_usage_error)
  execute_send run (socket ∷ more) w =
      let (w', err) = run socket w in
      if not (length (socket ∷ more) == 1) then (w, exit_usage_error) else (w', execute_status err)

-- main, from the logger on: for the error of its configuration, and the chosen subcommand.
unfoldable pub run_main : {W E : Type 0} → Option E → (W → W × ExitStatus) → W → W × ExitStatus
run_main logger command w =
    let ran = command w in elim logger [ some e ↦ (w, exit_failure) | none ↦ ran ]
