-- ===== src/HandlerCommand.antt =====
-- internal/handlercommand/command.go: the command of a handler, run on a copy of the changed file; with
-- internal/exepath/exepath.go. Starting a process and waiting for it is a parameter, and logging is left
-- out.
pub mod Exepath
pub mod Exact
mod Tests
use baamhackl.Base.{
  ℕ, Bool, true, false, Option, none, some, List, [], ◌∷◌, ◌++◌, ◌⊎◌, inl, inr, if◌then◌else◌,
}
use baamhackl.Base.Int.{ℤ}
use baamhackl.FilePaths.{FilePath, join, base}
use baamhackl.Waryio.{IoError, Result, is_exist}
use baamhackl.Waryio.Copy.Files.{
  OpenFlag, write_only, create, append, exclusive, no_follow, CopyOptions, default_copy_options,
  FileCalls, copy,
}

-- The errors of the package, with the errors of the calls in them.
pub data CommandError : Type 0 where
  no_executable : IoError → CommandError
  missing_command : CommandError
  mkdir_failed : List IoError → CommandError
  copy_failed : IoError → CommandError
  open_failed : IoError → CommandError
  close_failed : IoError → CommandError
  context_over : ℕ → CommandError
  command_failed : ℕ → CommandError

-- resolve of exepath, for the results of os.Executable and of filepath.Abs.
unfoldable pub resolve_executable : Result FilePath → (FilePath → Result FilePath) → Result FilePath
resolve_executable found abs = elim found [ inl e ↦ inl e | inr path ↦ abs path ]

pub record Options : Type 0 where
  pub source_file : FilePath
  pub base_dir : FilePath
  pub command : List FilePath

-- The process that is started: the program with its arguments, the directory, what is added to the
-- environment, and the file for both outputs.
pub record Process (H : Type 0) : Type 0 where
  pub args : List FilePath
  pub dir : FilePath
  pub environ : List FilePath
  pub output : H

-- The state of a process that has ended, as far as it is reported; after a signal the exit code is -1.
pub record ProcessState : Type 0 where
  pub exit_code : ℤ
  pub user_time : ℕ
  pub system_time : ℕ

-- cmd.Run gives the state of the process, unless it did not start, and an error.
pub record Calls (W H : Type 0) : Type 0 where
  pub files : FileCalls W H
  pub mkdir : W → FilePath → W × Option IoError
  pub run_process : W → Process H → W × Option ProcessState × Option ℕ
  pub context_err : W → Option ℕ
  pub report : W → ProcessState → W

-- Command
pub record Command : Type 0 where
  pub opts : Options
  pub input_dir : FilePath
  pub input_file : FilePath
  pub work_dir : FilePath
  pub output_file : FilePath
  pub environ : List FilePath

-- The four variables of the environment, up to their "=".
abbrev pub program_variable : FilePath
program_variable =
    66 ∷ 65 ∷ 65 ∷ 77 ∷ 72 ∷ 65 ∷ 67 ∷ 75 ∷ 76 ∷ 95 ∷ 80 ∷ 82 ∷ 79 ∷ 71 ∷ 82 ∷ 65 ∷ 77 ∷ 61 ∷ []

abbrev pub original_variable : FilePath
original_variable =
    66 ∷ 65 ∷ 65 ∷ 77 ∷ 72 ∷ 65 ∷ 67 ∷ 75 ∷ 76 ∷ 95 ∷ 79 ∷ 82 ∷ 73 ∷ 71 ∷ 73 ∷ 78 ∷ 65 ∷ 76 ∷ 61
    ∷ []

abbrev pub work_dir_variable : FilePath
work_dir_variable =
    66 ∷ 65 ∷ 65 ∷ 77 ∷ 72 ∷ 65 ∷ 67 ∷ 75 ∷ 76 ∷ 95 ∷ 87 ∷ 79 ∷ 82 ∷ 75 ∷ 68 ∷ 73 ∷ 82 ∷ 61 ∷ []

abbrev pub input_variable : FilePath
input_variable = 66 ∷ 65 ∷ 65 ∷ 77 ∷ 72 ∷ 65 ∷ 67 ∷ 75 ∷ 76 ∷ 95 ∷ 73 ∷ 78 ∷ 80 ∷ 85 ∷ 84 ∷ 61 ∷ []

abbrev pub input_name : FilePath
input_name = 105 ∷ 110 ∷ 112 ∷ 117 ∷ 116 ∷ []

abbrev pub work_name : FilePath
work_name = 119 ∷ 111 ∷ 114 ∷ 107 ∷ []

abbrev pub output_name : FilePath
output_name =
    99 ∷ 111 ∷ 109 ∷ 109 ∷ 97 ∷ 110 ∷ 100 ∷ 95 ∷ 111 ∷ 117 ∷ 116 ∷ 112 ∷ 117 ∷ 116 ∷ 46 ∷ 116 ∷ 120
    ∷ 116 ∷ []

-- New, for an executable that is known.
unfoldable pub command_for : Options → FilePath → Command
command_for opts exe =
    let input_dir = join (opts.base_dir ∷ input_name ∷ []) in
    let work_dir = join (opts.base_dir ∷ work_name ∷ []) in
    let input_file = join (input_dir ∷ base opts.source_file ∷ []) in
    record {
      opts = opts;
      input_dir = input_dir;
      input_file = input_file;
      work_dir = work_dir;
      output_file = join (opts.base_dir ∷ output_name ∷ []);
      environ =
          (program_variable ++ exe)
          ∷ (original_variable ++ opts.source_file)
          ∷ (work_dir_variable ++ work_dir)
          ∷ (input_variable ++ input_file)
          ∷ [];
    }

-- New
unfoldable pub new_command : Result FilePath → Options → CommandError ⊎ Command
new_command exe opts = elim exe [
  | inl e ↦ inl (no_executable e)
  | inr path ↦ elim opts.command [
    | [] ↦ inl missing_command
    | arg ∷ args ↦ inr (command_for opts path)
  ]
]

-- The options of copyInputFile.
abbrev pub input_options : FilePath → FilePath → CopyOptions
input_options source dest = record default_copy_options {
  source_path = source;
  source_flags = default_copy_options.source_flags ++ no_follow ∷ [];
  dest_path = dest;
  dest_flags = default_copy_options.dest_flags ++ (exclusive ∷ no_follow ∷ []);
}

module _ {W H : Type 0} (calls : Calls W H) where
  -- createDirectories: a directory that exists already is no error.
  unfoldable pub create_directories : List FilePath → W → W × List IoError
  create_directories [] w = (w, [])
  create_directories (dir ∷ dirs) w =
      let (w1, err) = calls.mkdir w dir in
      let (w2, errs) = create_directories dirs w1 in
      (w2, elim err [ none ↦ errs | some e ↦ if is_exist e then errs else e ∷ errs ])

  -- prepare, up to and from the creation of the directories.
  unfoldable pub copy_input : Command → W → W × Option CommandError
  copy_input c w =
      let (w', err) = copy calls.files (input_options c.opts.source_file c.input_file) w in
      (w', elim err [ none ↦ none | some e ↦ some (copy_failed e) ])

  unfoldable pub prepare : Command → W → W × Option CommandError
  prepare c w =
      let (w1, errs) = create_directories (c.input_dir ∷ c.work_dir ∷ []) w in
      let copied = copy_input c w1 in
      elim errs [ [] ↦ copied | e ∷ es ↦ (w1, some (mkdir_failed (e ∷ es))) ]

  -- runCommand
  unfoldable pub run_command : W → Process H → W × Option CommandError
  run_command w p =
      let (w1, state, err) = calls.run_process w p in
      let w2 : W = elim state [ none ↦ w1 | some s ↦ calls.report w1 s ] in
      elim err [
        | none ↦ (w2, none)
        | some e ↦ elim (calls.context_err w2) [
          | some c ↦ (w2, some (context_over c))
          | none ↦ (w2, some (command_failed e))
        ]
      ]

  abbrev pub process : Command → H → Process H
  process c output = record {
    args = c.opts.command;
    dir = c.work_dir;
    environ = c.environ;
    output = output;
  }

  -- Run with its output file open; the file is closed at the end.
  unfoldable pub run_open : Command → H → W → W × List CommandError
  run_open c output w =
      let (w1, err) = run_command w (process c output) in
      let (w2, closed) = calls.files.close w1 output in
      let errs : List CommandError = elim err [ none ↦ [] | some e ↦ e ∷ [] ] in
      (w2, elim closed [ none ↦ errs | some e ↦ errs ++ close_failed e ∷ [] ])

  -- Run, with its errors in order; the mode of the output file is octal 666.
  unfoldable pub run : Command → W → W × List CommandError
  run c w =
      let (w1, err) = prepare c w in
      let (w2, output) =
        calls.files.open_file w1 c.output_file (create ∷ write_only ∷ append ∷ exclusive ∷ [])
          438 in
      let opened : W × List CommandError = elim output [
        | inl e ↦ (w2, open_failed e ∷ [])
        | inr fh ↦ run_open c fh w2
      ] in
      elim err [ some e ↦ (w1, e ∷ []) | none ↦ opened ]
