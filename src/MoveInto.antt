-- ===== src/MoveInto.antt =====
-- The "move-into" command: execute of move/into.go. The renaming without replacement and the generator's
-- surroundings are parameters; logging is left out.
pub mod Moved
mod Tests
use baamhackl.Base.{
  ℕ, Bool, true, false, Option, none, some, List, [], ◌∷◌, inl, inr, if◌then◌else◌,
}
use baamhackl.FilePaths.{FilePath, same_name, join, base}
use baamhackl.Waryio.{IoError, rename_to_available_name}
use baamhackl.UniqueName.{Runtime}
use baamhackl.UniqueName.Create
use baamhackl.UniqueName.Create.{Options, default_options, Clock}
use baamhackl.Journal.{next_path}

-- errRenameNotSupported, a destination without a name, the errors of the renaming, and the end of the
-- fuel for its loop.
pub data MoveError : Type 0 where
  rename_not_supported : MoveError
  no_name : MoveError
  not_moved : IoError → MoveError
  out_of_names : MoveError

abbrev pub move_options : Options
move_options = record default_options { time_prefix_enabled = false }

-- The name in the target directory that is tried first.
unfoldable pub preferred : FilePath → FilePath → FilePath
preferred rename oldpath = if same_name rename [] then base oldpath else rename

module _ {W : Type 0} (rename_without_replace : W → FilePath → FilePath → W × Option IoError)
    (clock : W → Clock) (runtime : ℕ → Runtime) (fuel : ℕ) where
  -- One file, to a name in the target directory.
  unfoldable pub move_file : FilePath → FilePath → FilePath → W → W × Option MoveError
  move_file target_dir name oldpath w =
      elim (Create.create (clock w) (join (target_dir ∷ name ∷ [])) move_options) [
        | none ↦ (w, some no_name)
        | some g ↦
            elim (rename_to_available_name rename_without_replace oldpath (next_path runtime) fuel w
              (g, 0)) [
                | none ↦ (w, some out_of_names)
                | some (w', moved) ↦
                    (w', elim moved [ inl e ↦ some (not_moved e) | inr actual ↦ none ])
              ]
      ]

  -- The loop of execute, up to the first error; `several` tells whether there is more than one source.
  unfoldable pub move_files : Bool → FilePath → FilePath → List FilePath → W → W × Option MoveError
  move_files several rename target_dir [] w = (w, none)
  move_files several rename target_dir (oldpath ∷ rest) w =
      let (w', err) = move_file target_dir (preferred rename oldpath) oldpath w in
      let more = move_files several rename target_dir rest w' in
      let moved : W × Option MoveError = elim err [ some e ↦ (w', some e) | none ↦ more ] in
      if same_name rename []
      then moved
      else if several
      then (w, some rename_not_supported)
      else moved

  -- execute
  unfoldable pub execute : FilePath → FilePath → List FilePath → W → W × Option MoveError
  execute rename target_dir [] w = (w, none)
  execute rename target_dir (oldpath ∷ []) w = move_files false rename target_dir (oldpath ∷ []) w
  execute rename target_dir (oldpath ∷ next ∷ rest) w =
      move_files true rename target_dir (oldpath ∷ next ∷ rest) w
