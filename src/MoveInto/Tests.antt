-- ===== src/MoveInto/Tests.antt =====
-- Tests of the "move-into" command. The state lists the names that are taken.
use baamhackl.Base.{
  ℕ, suc, ◌≡◌, ◌≤◌, ◌⊎◌, length, refl, Bool, true, false, ◌||◌, Option, none, some, inl, inr, List,
  [], ◌∷◌, ◌++◌, if◌then◌else◌, arith, Bool-cases,
}
use baamhackl.FilePaths.{FilePath, same_name}
use baamhackl.Waryio.{IoError, exist}
use baamhackl.UniqueName.{Positions, Runtime}
use baamhackl.UniqueName.Create.{Clock}
use baamhackl.MoveInto.{MoveError, execute}
use baamhackl.MoveInto.Moved.{AreMoved}
use baamhackl.Commands.{exit_success, execute_move_into, run_main}
use baamhackl.Commands.Moved.{run_main-AreMoved}

abbrev taken : List FilePath → FilePath → Bool
taken [] p = false
taken (q ∷ qs) p = same_name q p || taken qs p

abbrev rename_to : List FilePath → FilePath → FilePath → List FilePath × Option IoError
rename_to w old p = if taken w p then (w, some exist) else (p ∷ w, none)

rename_to-free :
    (old : FilePath) (v v' : List FilePath) (q : FilePath)
    → rename_to v old q ≡ (v', none)
    → taken v q ≡ false
rename_to-free old v v' q e = elim (Bool-cases (taken v q)) [
  | inl b ↦ absurd (grind arith)
  | inr b ↦ b
]

abbrev clock : List FilePath → Clock
clock w = record { now = 116; format = λ layout t. t ∷ []; parse = λ layout s. none }

abbrev bytes_from : ℕ → FilePath → Positions
bytes_from n [] = []
bytes_from n (x ∷ xs) = (n, suc n) ∷ bytes_from (suc n) xs

abbrev runtime : ℕ → Runtime
runtime n = record {
  graphemes = bytes_from 0;
  join = λ dir name. dir ++ name;
  random_hex = n ∷ [];
  format_time = λ t. t ∷ [];
}

-- "/a" and "/b/a" go into "/d".
abbrev sources : List FilePath
sources = (47 ∷ 97 ∷ []) ∷ (47 ∷ 98 ∷ 47 ∷ 97 ∷ []) ∷ []

abbrev moving : List FilePath × Option MoveError
moving = execute rename_to clock runtime 3 [] (47 ∷ 100 ∷ []) sources []

moved : moving.1 ≡ none
unfolding execute baamhackl.MoveInto.move_files same_name baamhackl.MoveInto.move_file
    baamhackl.UniqueName.Create.create baamhackl.UniqueName.Create.split_dir
    baamhackl.FilePaths.join baamhackl.FilePaths.clean baamhackl.FilePaths.is_abs
    baamhackl.FilePaths.join_text baamhackl.FilePaths.clean_elems baamhackl.FilePaths.split
    baamhackl.FilePaths.cons_first baamhackl.MoveInto.preferred baamhackl.FilePaths.base
    baamhackl.FilePaths.last_elem baamhackl.Waryio.rename_to_available_name
    baamhackl.Journal.next_path baamhackl.FilePaths.go_up baamhackl.UniqueName.Create.extension
    baamhackl.UniqueName.Create.is_hex baamhackl.UniqueName.Create.is_re_space
    baamhackl.UniqueName.Create.is_space baamhackl.UniqueName.Create.make_generator
    baamhackl.UniqueName.Create.match_hex baamhackl.UniqueName.Create.match_suffix
    baamhackl.UniqueName.Create.remove_suffixes baamhackl.UniqueName.Create.skip_while
    baamhackl.UniqueName.Create.split_name baamhackl.UniqueName.Create.trim_right
    baamhackl.UniqueName.combine_with_max_len baamhackl.UniqueName.next
    baamhackl.UniqueName.next_name baamhackl.UniqueName.trim_prefix baamhackl.UniqueName.trim_suffix
    baamhackl.UniqueName.unique_part baamhackl.Waryio.is_exist baamhackl.Waryio.try_from
    baamhackl.Waryio.try_names
moved = refl

abbrev arguments : List FilePath
arguments = (47 ∷ 100 ∷ []) ∷ sources

-- The logger could be configured.
abbrev logger : Option ℕ
logger = none

succeeds :
    (run_main logger (execute_move_into (execute rename_to clock runtime 3 []) arguments) []).1
    ≡ exit_success
unfolding run_main execute_move_into baamhackl.Commands.execute_status
succeeds = rw moved refl

run_main-AreMoved_example :
    (dir : FilePath) × (source : FilePath) × (more : List FilePath) × (arguments
      ≡ dir ∷ source ∷ more)
    × ((same_name [] [] ≡ true) ⊎ (length (source ∷ more) ≤ 1))
    × AreMoved rename_to clock runtime 3 taken rename_to-free [] dir
        (source ∷ more)
        []
        (run_main logger (execute_move_into (execute rename_to clock runtime 3 []) arguments) []).0
run_main-AreMoved_example =
    run_main-AreMoved rename_to clock runtime 3 taken rename_to-free logger [] arguments [] succeeds
