-- ===== src/Journal.antt =====
-- internal/journal/journal.go: where tasks keep their files, and where handled files go. `text` stands
-- for an error that is only reported.
pub mod Archive
pub mod Handled
mod Tests
use baamhackl.Base.{
  ℕ, zero, suc, ◌+◌, ◌-◌, ◌*◌, ◌%◌, Bool, true, false, Option, none, some, List, [], ◌∷◌, ◌++◌, map,
  inl, inr, if◌then◌else◌,
}
use baamhackl.Base.Int.{ℤ, pos_part, neg_part}
use baamhackl.FilePaths.{FilePath, join, base}
use baamhackl.Waryio.{IoError, other, Result, make_available_dir, rename_to_available_name}
use baamhackl.Waryio.RelDir.{DirCalls, ensure_rel_dir}
use baamhackl.UniqueName.{Generator, Runtime, next}
use baamhackl.UniqueName.Create.{Options, Clock, default_options, create, extract_time}
use baamhackl.Prune
use baamhackl.Prune.{AcceptFunc, make_age_filter}
use baamhackl.Handler.Attempt.{Errors}

-- The fields of config.Handler that the journal reads.
pub record JournalConfig : Type 0 where
  pub path : FilePath
  pub journal_dir : FilePath
  pub success_dir : FilePath
  pub failure_dir : FilePath
  pub journal_retention : ℤ

-- dirOptions
pub record DirOptions : Type 0 where
  pub dir : FilePath
  pub options : Options

-- Journal
pub record Journal : Type 0 where
  pub cfg : JournalConfig
  pub journal_dir : DirOptions
  pub success_dir : DirOptions
  pub failure_dir : DirOptions

-- New
unfoldable pub new : JournalConfig → Journal
new cfg = record {
  cfg = cfg;
  journal_dir = record {
    dir = cfg.journal_dir;
    options = record default_options { before_extension = false };
  };
  success_dir = record { dir = cfg.success_dir; options = default_options };
  failure_dir = record { dir = cfg.failure_dir; options = default_options };
}

-- What the journal calls: the file system, the clock, the runtime of a generator by the count of names
-- that it has given, and, for a directory, what a Pruner calls there.
pub record Calls (W : Type 0) : Type 0 where
  pub dirs : DirCalls W
  pub rename_without_replace : W → FilePath → FilePath → W × Option IoError
  pub clock : W → Clock
  pub runtime : ℕ → Runtime
  pub prune_calls : FilePath → Prune.Calls W

-- The generator as an iterator. That Next panics does not happen (UniqueName.Length).
unfoldable pub next_path : (ℕ → Runtime) → Generator × ℕ → Option (FilePath × (Generator × ℕ))
next_path runtime (g, n) = elim (next (runtime n) g) [
  | none ↦ none
  | some (p, g') ↦ some (p, (g', n + 1))
]

-- The directory that MoveToArchive chooses.
unfoldable pub archive_dir : Journal → Bool → DirOptions
archive_dir j success = if success then j.success_dir else j.failure_dir

-- Time.Truncate(time.Minute).
abbrev pub truncate_minute : ℕ → ℕ
truncate_minute t = t - t % (60 * 1000000000)

-- The deadline of Prune.
unfoldable pub deadline : Journal → ℕ → ℕ
deadline j now =
    truncate_minute (now + neg_part j.cfg.journal_retention - pos_part j.cfg.journal_retention)

-- A pruner of Prune: its directory and its filter.
abbrev pub Pruner : Type 0
Pruner = FilePath × AcceptFunc

abbrev pub time_in_name : Clock → Options → FilePath → Result ℕ
time_in_name clock opts name = elim (extract_time clock name opts) [
  | none ↦ inl (other 0)
  | some t ↦ inr t
]

module _ {W : Type 0} (calls : Calls W) (j : Journal) where
  -- ensureDir
  unfoldable pub ensure_dir : FilePath → W → W × Result FilePath
  ensure_dir path w = ensure_rel_dir calls.dirs j.cfg.path path w

  -- ensureDirForName. filepath.Base never returns an empty name.
  unfoldable pub ensure_dir_for_name : DirOptions → FilePath → W → W × Result Generator
  ensure_dir_for_name d hint w =
      let (w', made) = ensure_dir d.dir w in
      elim made [
        | inl e ↦ (w', inl e)
        | inr dir ↦ elim (create (calls.clock w') (join (dir ∷ base hint ∷ [])) d.options) [
          | none ↦ (w', inl (other 0))
          | some g ↦ (w', inr g)
        ]
      ]

  -- CreateTaskDir; none at the end of the fuel.
  unfoldable pub create_task_dir : ℕ → FilePath → W → Option (W × Result FilePath)
  create_task_dir fuel hint w =
      let (w', made) = ensure_dir_for_name j.journal_dir hint w in
      elim made [
        | inl e ↦ some (w', inl e)
        | inr g ↦ make_available_dir calls.dirs.mkdir (next_path calls.runtime) fuel w' (g, 0)
      ]

  -- MoveToArchive; none at the end of the fuel.
  unfoldable pub move_to_archive : ℕ → FilePath → Bool → W → Option (W × Result FilePath)
  move_to_archive fuel path success w =
      let (w', made) = ensure_dir_for_name (archive_dir j success) (base path) w in
      elim made [
        | inl e ↦ some (w', inl e)
        | inr g ↦
            rename_to_available_name calls.rename_without_replace path (next_path calls.runtime)
              fuel w' (g, 0)
      ]

  -- The first loop of Prune.
  unfoldable pub make_pruners : Clock → List DirOptions → W → W × Result (List Pruner)
  make_pruners clock [] w = (w, inr [])
  make_pruners clock (d ∷ ds) w =
      let (w', made) = ensure_dir d.dir w in
      let (w'', rest) = make_pruners clock ds w' in
      elim made [
        | inl e ↦ (w', inl e)
        | inr dir ↦ elim rest [
          | inl e ↦ (w'', inl e)
          | inr ps ↦ (
            w'',
            inr ((dir, make_age_filter (deadline j clock.now) (time_in_name clock d.options)) ∷ ps),
          )
        ]
      ]

  -- Its second loop; ErrUnavailable is `unavailable`.
  unfoldable pub run_pruners : IoError → List Pruner → W → Errors → W × Errors
  run_pruners unavailable [] w errs = (w, errs)
  run_pruners unavailable ((dir, accept) ∷ ps) w errs =
      let (w', e) = Prune.run (calls.prune_calls dir) accept unavailable w in
      run_pruners unavailable ps w' (errs ++ e)

  -- Prune
  unfoldable pub prune : IoError → W → W × Errors
  prune unavailable w =
      let (w', made) =
        make_pruners (calls.clock w) (j.journal_dir ∷ j.success_dir ∷ j.failure_dir ∷ []) w in
      elim made [ inl e ↦ (w', e ∷ []) | inr ps ↦ run_pruners unavailable ps w' [] ]
