-- ===== src/Commands/Emulation.antt =====
-- internal/cmdemu/emulation.go: a test program that stands in for other commands.
use baamhackl.Base.{Option, none, some, List, [], ◌∷◌, ◌++◌, ◌≡◌, refl, if◌then◌else◌}
use baamhackl.Base.Int.{ℤ, pos}
use baamhackl.FilePaths.{FilePath, same_name}
use baamhackl.FilePaths.Split.{same_name_refl}

-- An error with ExitCodeError in it, or another.
pub data EmulationError : Type 0 where
  exit_code_error : ℤ → EmulationError
  other_error : EmulationError

abbrev pub exit_success : ℤ
exit_success = pos 0

abbrev pub exit_usage : ℤ
exit_usage = pos 64

abbrev pub exit_unavailable : ℤ
exit_unavailable = pos 69

-- Command
pub record EmulatedCommand : Type 0 where
  pub name : FilePath
  pub run : List FilePath → Option EmulationError

-- Wrapper
pub record Wrapper : Type 0 where
  pub selected : FilePath
  pub commands : List EmulatedCommand

-- "-emulate" and "--"
abbrev pub emulate_flag : FilePath
emulate_flag = 45 ∷ 101 ∷ 109 ∷ 117 ∷ 108 ∷ 97 ∷ 116 ∷ 101 ∷ []

abbrev pub dashes : FilePath
dashes = 45 ∷ 45 ∷ []

-- MakeArgs, for the path of the program.
unfoldable pub make_args : FilePath → EmulatedCommand → List FilePath → List FilePath
make_args executable c args = (executable ∷ emulate_flag ∷ c.name ∷ dashes ∷ []) ++ args

-- Register: the command of this name is replaced, as the newest entry is found first.
unfoldable pub register : Wrapper → EmulatedCommand → Wrapper
register w c = record w { commands = c ∷ w.commands }

unfoldable pub find_command : FilePath → List EmulatedCommand → Option EmulatedCommand
find_command name [] = none
find_command name (c ∷ cs) = if same_name c.name name then some c else find_command name cs

unfoldable pub exit_code : Option EmulationError → ℤ
exit_code none = exit_success
exit_code (some (exit_code_error code)) = code
exit_code (some other_error) = exit_unavailable

-- run
unfoldable pub run_emulated : Wrapper → FilePath → List FilePath → ℤ
run_emulated w name args = elim (find_command name w.commands) [
  | none ↦ exit_usage
  | some c ↦ exit_code (c.run args)
]

-- Main, after the flags have been parsed, with the exit code of the tests.
unfoldable pub run_wrapper : Wrapper → List FilePath → ℤ → ℤ
run_wrapper w args tests = if same_name w.selected [] then tests else run_emulated w w.selected args

-- A registered command runs under its name, whatever has been registered before.
pub run_emulated-register :
    (w : Wrapper) (c : EmulatedCommand) (args : List FilePath)
    → run_emulated (register w c) c.name args ≡ exit_code (c.run args)
unfolding run_emulated register find_command
run_emulated-register w c args = rw (same_name_refl c.name, run_emulated) refl
