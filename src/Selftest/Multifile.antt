-- ===== src/Selftest/Multifile.antt =====
-- selftest/multifile/test.go: files are added to a watched directory, and the test waits until each has its
-- checkmark, raising the generation all the while. The world `W` and the calls on it are parameters;
-- log messages are left out.
pub mod Rounds
pub mod Returns
use baamhackl.Base.{
  ℕ, zero, suc, ◌+◌, ◌%◌, ◌^◌, Bool, true, false, Option, none, some, List, [], ◌∷◌, ◌++◌, inl, inr,
}
use baamhackl.FilePaths.{FilePath, join}
use baamhackl.Waryio.{IoError, not_exist, Result}

-- renameio.WriteFile with a number as the text; os.MkdirTemp in a directory, for the start of the name;
-- whether os.Lstat fails; and the wait for the delay, with the context's error if it ends before.
pub record TestCalls (W : Type 0) : Type 0 where
  pub write_int : W → FilePath → ℕ → W × Option IoError
  pub make_temp : W → FilePath → FilePath → W × Result FilePath
  pub lstat : W → FilePath → Option IoError
  pub wait : W → W × Option IoError

pub record GenerationCounterFile : Type 0 where
  pub path : FilePath
  pub count : ℕ

pub record TestFile : Type 0 where
  pub name : FilePath
  pub input_path : FilePath
  pub checkmark_path : FilePath

-- multifileTest. The pending files are a list, in the order in which the map is gone through.
pub record MultifileTest : Type 0 where
  pub dir : FilePath
  pub status_dir : FilePath
  pub generation : GenerationCounterFile
  pub counter : ℕ
  pub pending : List TestFile

-- "multifile", "multifilestatus", "generation" and "checkmark_"
abbrev pub dir_start : FilePath
dir_start = 109 ∷ 117 ∷ 108 ∷ 116 ∷ 105 ∷ 102 ∷ 105 ∷ 108 ∷ 101 ∷ []

abbrev pub status_start : FilePath
status_start = dir_start ++ 115 ∷ 116 ∷ 97 ∷ 116 ∷ 117 ∷ 115 ∷ []

abbrev pub generation_name : FilePath
generation_name = 103 ∷ 101 ∷ 110 ∷ 101 ∷ 114 ∷ 97 ∷ 116 ∷ 105 ∷ 111 ∷ 110 ∷ []

abbrev pub checkmark_start : FilePath
checkmark_start = 99 ∷ 104 ∷ 101 ∷ 99 ∷ 107 ∷ 109 ∷ 97 ∷ 114 ∷ 107 ∷ 95 ∷ []

-- Whether there is a file, by the error of os.Lstat; that of a missing file is no error.
unfoldable pub is_there : Option IoError → Result Bool
is_there none = inr true
is_there (some not_exist) = inr false
is_there (some e) = inl e

module _ {W : Type 0} (calls : TestCalls W) where
  -- writeCount
  unfoldable pub write_count : GenerationCounterFile → W → W × Option IoError
  write_count f w = calls.write_int w f.path f.count

  -- newGenerationCounterFile
  unfoldable pub new_generation_counter_file :
      FilePath → W → W × GenerationCounterFile × Option IoError
  new_generation_counter_file path w =
      let f : GenerationCounterFile = record { path = path; count = 0 } in
      let (w', err) = write_count f w in (w', f, err)

  -- increment
  unfoldable pub increment : GenerationCounterFile → W → W × GenerationCounterFile × Option IoError
  increment f w =
      let f' = record f { count = f.count + 1 } in let (w', err) = write_count f' w in (w', f', err)

  -- finished
  unfoldable pub finished : TestFile → W → Result Bool
  finished f w = is_there (calls.lstat w f.checkmark_path)

  -- New, with a random start of the counter.
  unfoldable pub new_multifile : ℕ → FilePath → W → W × Result MultifileTest
  new_multifile random dir w =
      let (w1, made) = calls.make_temp w dir dir_start in
      let (w2, status) = calls.make_temp w1 dir status_start in
      let started : FilePath → FilePath → W × Result MultifileTest = λ d s.
        let (w3, f, err) = new_generation_counter_file (join (s ∷ generation_name ∷ [])) w2 in
        elim err [
          | some e ↦ (w3, inl e)
          | none ↦ (
            w3,
            inr (record {
              dir = d;
              status_dir = s;
              generation = f;
              counter = random;
              pending = [];
            }),
          )
        ] in
      elim made [
        | inl e ↦ (w1, inl e)
        | inr d ↦ elim status [ inl e ↦ (w2, inl e) | inr s ↦ started d s ]
      ]

  module _ (hex : ℕ → FilePath) where
    -- The file of newFile, for a counter; `hex` is the format "%x" of an int, given modulo 2 ^ 64.
    unfoldable pub file_for : MultifileTest → ℕ → TestFile
    file_for t n = record {
      name = hex n;
      input_path = join (t.dir ∷ hex n ∷ []);
      checkmark_path = join (t.status_dir ∷ (checkmark_start ++ hex n) ∷ []);
    }

    -- newFile and addTestFile: the counter moves on even where the file cannot be written.
    unfoldable pub add_test_file : ℕ → MultifileTest → W → W × MultifileTest × Option IoError
    add_test_file target_generation t w =
        let n = (t.counter + 1) % 2 ^ 64 in
        let t' = record t { counter = n } in
        let f = file_for t n in
        let (w', err) = calls.write_int w f.input_path target_generation in
        elim err [
          | some e ↦ (w', t', some e)
          | none ↦ (w', record t' { pending = f ∷ t.pending }, none)
        ]

    -- Setup
    unfoldable pub setup_multifile : MultifileTest → W → W × MultifileTest × Option IoError
    setup_multifile t w = add_test_file 3 t w

    -- The loop of Run that adds files, from the target generation i on, k times.
    unfoldable pub add_test_files : ℕ → ℕ → MultifileTest → W → W × MultifileTest × Option IoError
    add_test_files zero i t w = (w, t, none)
    add_test_files (suc k) i t w =
        let (w', t', err) = add_test_file i t w in
        let rest = add_test_files k (i + 1) t' w' in
        elim err [ some e ↦ (w', t', some e) | none ↦ rest ]

  -- deleteFinished, for the pending files: those that remain. The test's names of these are only logged.
  unfoldable pub delete_finished : List TestFile → W → Result (List TestFile)
  delete_finished [] w = inr []
  delete_finished (f ∷ fs) w =
      let rest = delete_finished fs w in
      elim (finished f w) [
        | inl e ↦ inl e
        | inr ok ↦ elim rest [
          | inl e ↦ inl e
          | inr remaining ↦ inr (elim ok [ true ↦ remaining | false ↦ f ∷ remaining ])
        ]
      ]

  -- The loop of Run that waits for the files; none at the end of the fuel.
  unfoldable pub wait_finished : ℕ → MultifileTest → W → Option (W × MultifileTest × Option IoError)
  wait_finished zero t w = none
  wait_finished (suc fuel) t w =
      let (w1, ended) = calls.wait w in
      let (w2, f, err) = increment t.generation w1 in
      let next : List TestFile → Option (W × MultifileTest × Option IoError) =
        λ remaining. wait_finished fuel (record t { pending = remaining; generation = f }) w2 in
      let again : List TestFile → Option (W × MultifileTest × Option IoError) = λ remaining.
        elim ended [
          | some e ↦ some (w1, record t { pending = remaining }, some e)
          | none ↦ elim err [
            | some e ↦ some (w2, record t { pending = remaining; generation = f }, some e)
            | none ↦ next remaining
          ]
        ] in
      elim (delete_finished t.pending w) [
        | inl e ↦ some (w, t, some e)
        | inr remaining ↦ elim remaining [
          | [] ↦ some (w, record t { pending = [] }, none)
          | f ∷ fs ↦ again (f ∷ fs)
        ]
      ]

  -- Run
  unfoldable pub run_multifile :
      (ℕ → FilePath) → ℕ → MultifileTest → W → Option (W × MultifileTest × Option IoError)
  run_multifile hex fuel t w =
      let (w', t', err) = add_test_files hex 10 0 t w in
      let waited = wait_finished fuel t' w' in
      elim err [ some e ↦ some (w', t', some e) | none ↦ waited ]
