-- ===== src/HandlerCommand/Exact.antt =====
-- When the command runs, and on what.
use baamhackl.Base.{ℕ, Option, some, ◌++◌, ◌↔◌, none, List, [], ◌∷◌, ◌≡◌, inr}
use baamhackl.Waryio.Copy.Files.{IsCopied, create, write_only, append, exclusive}
use baamhackl.FilePaths.{FilePath, join, base}
use baamhackl.HandlerCommand.{
  CommandError, Command, Options, Process, ProcessState, Calls, program_variable, original_variable,
  work_dir_variable, input_variable, input_name, work_name, output_name, input_options,
  create_directories, prepare,
}

-- The paths that the command gets, below the base directory.
abbrev pub input_dir_of : Options → FilePath
input_dir_of opts = join (opts.base_dir ∷ input_name ∷ [])

abbrev pub work_dir_of : Options → FilePath
work_dir_of opts = join (opts.base_dir ∷ work_name ∷ [])

abbrev pub input_file_of : Options → FilePath
input_file_of opts = join (input_dir_of opts ∷ base opts.source_file ∷ [])

-- The process: the configured program and arguments, in the working directory, with the four variables.
abbrev pub process_of : {H : Type 0} → Options → FilePath → H → Process H
process_of opts exe output = record {
  args = opts.command;
  dir = work_dir_of opts;
  environ =
      (program_variable ++ exe)
      ∷ (original_variable ++ opts.source_file)
      ∷ (work_dir_variable ++ work_dir_of opts)
      ∷ (input_variable ++ input_file_of opts)
      ∷ [];
  output = output;
}

module _ {W H : Type 0} (calls : Calls W H) where
  -- What a process has left, with its state reported where there is one.
  abbrev pub reported : W × Option ProcessState × Option ℕ → W
  reported (w, none, err) = w
  reported (w, some s, err) = calls.report w s

module _ {W H : Type 0} (calls : Calls W H) (c : Command) where
  abbrev pub made : W → W
  made w = (create_directories calls (c.input_dir ∷ c.work_dir ∷ []) w).0

module _ {W H : Type 0} (calls : Calls W H) (opts : Options) (exe : FilePath) where
  -- The state in which the command is started, the file for its output, and the end: the process that was
  -- started, its state reported, the output closed, and no error if neither the process nor the closing
  -- has one.
  pub record IsStarted (c : Command) (w : W) (r : W × List CommandError) : Type 0 where
    pub output : H
    pub w2 : W
    pub copied :
        IsCopied calls.files (input_options opts.source_file (input_file_of opts)) (made calls c w)
    pub opened :
        calls.files.open_file
          (prepare calls c w).0
          (join (opts.base_dir ∷ output_name ∷ []))
          (create ∷ write_only ∷ append ∷ exclusive ∷ [])
          438
        ≡ (w2, inr output)
    pub closed :
        r.0
        ≡ (calls.files.close
            (reported calls (calls.run_process w2 (process_of opts exe output)))
            output).0
    pub errors : (r.1 ≡ []) ↔ (
        ((calls.run_process w2 (process_of opts exe output)).2 ≡ none)
        × ((calls.files.close
              (reported calls (calls.run_process w2 (process_of opts exe output)))
              output).1
            ≡ none))
