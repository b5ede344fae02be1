-- ===== src/HandlerCommand/Tests.antt =====
-- Tests of internal/handlercommand/command.go. The state counts the directories, opened files and processes.
use baamhackl.Base.{ℕ, suc, ◌≡◌, inr, refl, none, some, List, [], ◌∷◌}
use baamhackl.Base.Int.{pos}
use baamhackl.Waryio.{FileInfo, exist}
use baamhackl.FilePaths.{FilePath}
use baamhackl.HandlerCommand.{
  CommandError, Command, Options, Calls, command_for, prepare, run, create_directories,
}

abbrev changed_file : FileInfo
changed_file = record { identity = 7; file_type = 0; perm = 420; size = 12; mod_time = 1000 }

abbrev calls : Calls ℕ ℕ
calls = record {
  files = record {
    open_file = λ w p flags mode. (suc w, inr w);
    close = λ w fh. (w, none);
    stat = λ fh w. inr changed_file;
    io_copy = λ dest src w. (w, inr 12);
    chmod = λ w fh perm. (w, none);
    sync = λ w fh. (w, none);
  };
  mkdir = λ w p. (suc w, some exist);
  run_process =
      λ w p. (suc w, some (record { exit_code = pos 0; user_time = 5; system_time = 1 }), none);
  context_err = λ w. none;
  report = λ w s. w;
}

abbrev options : Options
options = record {
  source_file = 47 ∷ 119 ∷ 47 ∷ 97 ∷ [];
  base_dir = 47 ∷ 106 ∷ [];
  command = (47 ∷ 98 ∷ []) ∷ [];
}

abbrev executable : FilePath
executable = 47 ∷ 101 ∷ []

abbrev command : Command
command = command_for options executable

-- Two directories, three files and one process.
succeeds : ◌≡◌ {A = ℕ × List CommandError} (run calls command 0) (6, [])
unfolding run prepare create_directories baamhackl.Waryio.is_exist
    baamhackl.HandlerCommand.copy_input baamhackl.Waryio.Copy.Files.copy
    baamhackl.Waryio.Copy.Files.close_file baamhackl.Waryio.Copy.Files.copy_open
    baamhackl.Waryio.Copy.copy_inner baamhackl.Waryio.Copy.Files.then_call
    baamhackl.HandlerCommand.run_open baamhackl.HandlerCommand.run_command
succeeds = refl
