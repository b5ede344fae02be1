-- ===== src/Commands/Moved.antt =====
-- The program as a whole, for "move-into": its exit status tells whether the files have been moved.
use baamhackl.Base.{
  ℕ, ◌≡◌, ◌≤◌, ◌⊎◌, length, sym, subst, Bool, true, false, Option, none, List, [], ◌∷◌,
}
use baamhackl.FilePaths.{FilePath, same_name}
use baamhackl.Waryio.{IoError}
use baamhackl.UniqueName.{Runtime}
use baamhackl.UniqueName.Create.{Clock}
use baamhackl.MoveInto.{execute}
use baamhackl.MoveInto.Moved.{AreMoved, execute-AreMoved}
use baamhackl.Commands.{exit_success, execute_move_into, run_main}
use baamhackl.Commands.Status.{run_main-move_into}

-- Where the program ends with success for "move-into", it was given a directory and at least one file, and
-- only one if there is a preferred name. It has renamed the files one after the other, each to a name that
-- was generated for the directory joined with the preferred name, or with the base name of the file where
-- there is none, and where nothing existed. It takes that a rename without replacement replaces nothing.
pub run_main-AreMoved :
    {W L : Type 0} (rename_without_replace : W → FilePath → FilePath → W × Option IoError)
    (clock : W → Clock) (runtime : ℕ → Runtime) (fuel : ℕ) (exists : W → FilePath → Bool)
    (no_replace : (old : FilePath) (v v' : W) (q : FilePath)
      → rename_without_replace v old q ≡ (v', none)
      → exists v q ≡ false)
    (logger : Option L) (rename : FilePath) (args : List FilePath) (w : W)
    → (run_main logger
        (execute_move_into (execute rename_without_replace clock runtime fuel rename) args)
        w).1
      ≡ exit_success
    → (dir : FilePath) × (source : FilePath) × (more : List FilePath) × (args ≡ dir ∷ source ∷ more)
      × ((same_name rename [] ≡ true) ⊎ (length (source ∷ more) ≤ 1))
      × AreMoved rename_without_replace clock runtime fuel exists no_replace rename dir
          (source ∷ more)
          w
          (run_main logger
            (execute_move_into (execute rename_without_replace clock runtime fuel rename) args)
            w).0
run_main-AreMoved r clock runtime fuel exists no_replace logger rename args w e =
    let (no_error, (dir, source, more, given, moved, world)) =
      run_main-move_into logger (execute r clock runtime fuel rename) args w e in
    let (one, all) =
      execute-AreMoved r clock runtime fuel exists no_replace rename dir (source ∷ more) w moved in
    (
      dir,
      source,
      more,
      given,
      one,
      subst (AreMoved r clock runtime fuel exists no_replace rename dir (source ∷ more) w)
          (sym world) all,
    )
