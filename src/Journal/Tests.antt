-- ===== src/Journal/Tests.antt =====
-- Tests of internal/journal/journal.go. The state lists the names taken by files, and no directory has
-- to be made.
use baamhackl.Base.{
  ℕ, suc, Bool, true, false, ◌≡◌, refl, ◌⊎◌, inl, inr, none, some, List, [], ◌∷◌, ◌++◌, ◌||◌, arith,
  if◌then◌else◌, Bool-cases, ◌^◌,
}
use baamhackl.Base.Int.{pos}
use baamhackl.FilePaths.{FilePath, same_name, join, base}
use baamhackl.Waryio.{FileInfo, IoError, exist, not_exist, other, Result}
use baamhackl.Waryio.RelDir.{DirCalls}
use baamhackl.Waryio.Available.{nth_name}
use baamhackl.UniqueName.{Positions, Generator, Runtime}
use baamhackl.UniqueName.Create.{Clock}
use baamhackl.Handler.Attempt
use baamhackl.Handler.Attempt.{Options, run}
use baamhackl.Handler.Attempt.Outcome.{after_command}
use baamhackl.Journal.{
  JournalConfig, Journal, new, Calls, next_path, ensure_dir_for_name, archive_dir, move_to_archive,
}
use baamhackl.Journal.Archive.{NoReplace, move_to_archive-used}
use baamhackl.Journal.Handled.{with_journal, run-renamed}

abbrev taken : List FilePath → FilePath → Bool
unfolding same_name
taken [] p = false
taken (q ∷ qs) p = same_name q p || taken qs p

abbrev directory : FileInfo
directory = record { identity = 1; file_type = 2 ^ 31; perm = 493; size = 0; mod_time = 0 }

abbrev regular : FileInfo
regular = record { identity = 2; file_type = 0; perm = 420; size = 5; mod_time = 7 }

abbrev letters : Clock
letters = record { now = 116; format = λ layout t. t ∷ []; parse = λ layout s. none }

abbrev bytes_from : ℕ → FilePath → Positions
bytes_from n [] = []
bytes_from n (x ∷ xs) = (n, suc n) ∷ bytes_from (suc n) xs

abbrev calls : Calls (List FilePath)
calls = record {
  dirs = record { stat = λ w p. inr directory; mkdir = λ w p. (w, some exist) };
  rename_without_replace = λ w old p. if taken w p then (w, some exist) else (p ∷ w, none);
  clock = λ w. letters;
  runtime = λ n. record {
    graphemes = bytes_from 0;
    join = λ dir name. dir ++ name;
    random_hex = n ∷ [];
    format_time = λ t. t ∷ [];
  };
  prune_calls = λ dir. record {
    read_dir = λ w. inr [];
    remove_all = λ w p. (w, none);
    context_err = λ w. none;
    try_lock = λ w. (w, inr true);
    close_lock = λ w. (w, none);
  };
}

-- The handler of "/b" with "j", "s" and "f" in it.
abbrev journal : Journal
unfolding new
journal = new (record {
  path = 47 ∷ 98 ∷ [];
  journal_dir = 106 ∷ [];
  success_dir = 115 ∷ [];
  failure_dir = 102 ∷ [];
  journal_retention = pos 100;
})

calls-NoReplace : NoReplace calls taken
calls-NoReplace old v v' q e = elim (Bool-cases (taken v q)) [
  | inl b ↦ absurd (grind arith)
  | inr b ↦ b
]

abbrev file : FilePath
file = 47 ∷ 98 ∷ 47 ∷ 120 ∷ []

-- The file's new path, "/b/s/t x".
abbrev archived : FilePath
archived = 47 ∷ 98 ∷ 47 ∷ 115 ∷ 47 ∷ 116 ∷ 32 ∷ 120 ∷ []

moved : move_to_archive calls journal 3 file true [] ≡ some (archived ∷ [], inr archived)
unfolding baamhackl.Journal.ensure_dir baamhackl.Waryio.RelDir.ensure_rel_dir
    baamhackl.RelPath.resolve baamhackl.FilePaths.rel same_name baamhackl.FilePaths.clean
    baamhackl.FilePaths.is_abs archive_dir journal join baamhackl.FilePaths.join_text
    baamhackl.FilePaths.clean_elems baamhackl.FilePaths.split baamhackl.FilePaths.cons_first
    baamhackl.FilePaths.rel_elems baamhackl.FilePaths.base_elems base baamhackl.FilePaths.elems
    baamhackl.FilePaths.go_up baamhackl.FilePaths.last_elem baamhackl.FilePaths.rel_from new
    next_path baamhackl.RelPath.contained baamhackl.RelPath.has_no_up
    baamhackl.UniqueName.Create.create baamhackl.UniqueName.Create.extension
    baamhackl.UniqueName.Create.is_hex baamhackl.UniqueName.Create.is_re_space
    baamhackl.UniqueName.Create.is_space baamhackl.UniqueName.Create.make_generator
    baamhackl.UniqueName.Create.match_hex baamhackl.UniqueName.Create.match_suffix
    baamhackl.UniqueName.Create.remove_suffixes baamhackl.UniqueName.Create.skip_while
    baamhackl.UniqueName.Create.split_dir baamhackl.UniqueName.Create.split_name
    baamhackl.UniqueName.Create.trim_right baamhackl.UniqueName.next baamhackl.UniqueName.next_name
    baamhackl.Waryio.RelDir.ensure_elems baamhackl.Waryio.RelDir.is_dir
    baamhackl.Waryio.rename_to_available_name baamhackl.Waryio.try_from baamhackl.Waryio.try_names
    ensure_dir_for_name move_to_archive
moved = refl

move_to_archive-used_example :
    ((g : Generator) × (k : ℕ) × ((ensure_dir_for_name calls journal journal.success_dir
          (base file)
          []).1
        ≡ inr g)
      × (nth_name (next_path calls.runtime) (g, 0) k ≡ some archived))
    × (v : List FilePath) × (taken v archived ≡ false)
    × (calls.rename_without_replace v file archived ≡ (archived ∷ [], none))
move_to_archive-used_example =
    move_to_archive-used calls journal taken 3 file archived true [] (archived ∷ []) calls-NoReplace
      moved

abbrev regular_at : List FilePath → FilePath → Result FileInfo
regular_at w p = inr regular

abbrev succeeding : Attempt.Calls (List FilePath)
succeeding = record {
  lstat = regular_at;
  run_command = λ w. (w, none);
  move_to_archive = λ w p success. (w, inl not_exist);
}

abbrev first_attempt : Options (List FilePath)
first_attempt = record { changed_file = file; final = false; acquire_lock = none }

succeeds : (run (with_journal succeeding calls journal 3) first_attempt []).2 ≡ []
unfolding run with_journal baamhackl.Journal.Handled.archive Attempt.append_into Attempt.finish
    Attempt.run_and_lock Attempt.validate_changed_file baamhackl.Waryio.append_if
    baamhackl.Waryio.changes_err baamhackl.Waryio.describe_changes baamhackl.Waryio.is_empty
    baamhackl.Waryio.same_file baamhackl.Journal.ensure_dir baamhackl.Waryio.RelDir.ensure_rel_dir
    baamhackl.RelPath.resolve baamhackl.FilePaths.rel same_name baamhackl.FilePaths.clean
    baamhackl.FilePaths.is_abs archive_dir journal join baamhackl.FilePaths.join_text
    baamhackl.FilePaths.clean_elems baamhackl.FilePaths.split baamhackl.FilePaths.cons_first
    baamhackl.FilePaths.rel_elems baamhackl.FilePaths.base_elems base baamhackl.FilePaths.elems
    baamhackl.FilePaths.go_up baamhackl.FilePaths.last_elem baamhackl.FilePaths.rel_from new
    next_path baamhackl.RelPath.contained baamhackl.RelPath.has_no_up
    baamhackl.UniqueName.Create.create baamhackl.UniqueName.Create.extension
    baamhackl.UniqueName.Create.is_hex baamhackl.UniqueName.Create.is_re_space
    baamhackl.UniqueName.Create.is_space baamhackl.UniqueName.Create.make_generator
    baamhackl.UniqueName.Create.match_hex baamhackl.UniqueName.Create.match_suffix
    baamhackl.UniqueName.Create.remove_suffixes baamhackl.UniqueName.Create.skip_while
    baamhackl.UniqueName.Create.split_dir baamhackl.UniqueName.Create.split_name
    baamhackl.UniqueName.Create.trim_right baamhackl.UniqueName.next baamhackl.UniqueName.next_name
    baamhackl.Waryio.RelDir.ensure_elems baamhackl.Waryio.RelDir.is_dir
    baamhackl.Waryio.rename_to_available_name baamhackl.Waryio.try_from baamhackl.Waryio.try_names
    ensure_dir_for_name move_to_archive
succeeds = refl

run-renamed_example :
    (regular_at (after_command (with_journal succeeding calls journal 3) first_attempt []) file
      ≡ inl not_exist)
    ⊎ ((p : FilePath) × (v : List FilePath) × (taken v p ≡ false)
        × (calls.rename_without_replace v file p
            ≡ ((run (with_journal succeeding calls journal 3) first_attempt []).0, none)))
run-renamed_example =
    run-renamed succeeding calls journal taken 3 first_attempt [] calls-NoReplace succeeds
