-- ===== src/Selftest.antt =====
-- The self-test: the command of selftest/command.go, with tempdir.go, server.go and the preparations of
-- runner.go. The world `W`, what is called on it, and its errors `E` are parameters; log messages and the
-- text of the arguments are left out.
pub mod Multifile
pub mod Commandenv
pub mod Group
pub mod Stopped
mod Tests
use baamhackl.Base.{
  ℕ, Bool, true, false, Option, none, some, List, [], ◌∷◌, ◌++◌, ◌⊎◌, inl, inr, ◌≡◌, refl,
  append_end_nonempty, if◌then◌else◌,
}
use baamhackl.FilePaths.{FilePath}

-- multierr.AppendInto
unfoldable pub append_error : {E : Type 0} → List E → Option E → List E
append_error errs none = errs
append_error errs (some e) = errs ++ e ∷ []

-- No error is appended to none.
pub append_error-none :
    {E : Type 0} (errs : List E) (err : Option E)
    → append_error errs err ≡ []
    → (errs ≡ []) × (err ≡ none)
unfolding append_error
append_error-none errs none e = (e, refl)
append_error-none errs (some x) e = absurd (append_end_nonempty errs x e)

-- withTempDir: the error of os.RemoveAll goes to a variable that is not the result, so that it is lost.
unfoldable pub with_temp_dir :
    {W E : Type 0}
    → (W → W × (E ⊎ FilePath))
    → (W → FilePath → W × Option E)
    → Bool
    → (FilePath → W → W × List E)
    → W
    → W × List E
with_temp_dir make remove_all keep fn w =
    let (w1, made) = make w in
    elim made [
      | inl e ↦ (w1, e ∷ [])
      | inr dir ↦
          let (w2, errs) = fn dir w1 in if keep then (w2, errs) else ((remove_all w2 dir).0, errs)
    ]

-- The calls of withServer: the command's Start, the wait until Watchman is ready, whether the client's
-- context has ended, the clean shutdown whose errors are only logged, whether the process is known to have
-- exited, the signal SIGKILL to its group, the wait for the context, and the closing of the log.
pub record ServerCalls (W E : Type 0) : Type 0 where
  pub start : W → W × Option E
  pub wait_for_ready : W → W × Option E
  pub is_ended : W → Bool
  pub shut_down : W → W
  pub is_exited : W → Bool
  pub kill : W → W × Option E
  pub wait_ended : W → W
  pub close_log : W → W × Option E
  pub deadline_missing : E

module _ {W E : Type 0} (calls : ServerCalls W E) where
  -- The deferred killing of the process.
  unfoldable pub stop_process : W × List E → W × List E
  stop_process (w, errs) =
      let (w', err) = calls.kill w in
      if calls.is_exited w then (w, errs) else (calls.wait_ended w', append_error errs err)

  -- From the started process on.
  unfoldable pub serve_ready : (W → W × List E) → W → W × List E
  serve_ready ready w =
      let (w1, err) = calls.wait_for_ready w in
      let (w2, errs) = ready w1 in
      let w3 = if calls.is_ended w2 then w2 else calls.shut_down w2 in
      elim err [ some e ↦ (w1, e ∷ []) | none ↦ (w3, errs) ]

  -- withServer; the flag tells whether the context has a deadline.
  unfoldable pub with_server : Bool → (W → W × List E) → W → W × List E
  with_server has_deadline ready w =
      let (w1, err) = calls.start w in
      let served = stop_process (serve_ready ready w1) in
      let started : W × List E = elim err [ some e ↦ (w1, e ∷ []) | none ↦ served ] in
      let (w2, errs) = if has_deadline then started else (w, calls.deadline_missing ∷ []) in
      let (w3, closed) = calls.close_log w2 in (w3, append_error errs closed)

-- The test interface, less the configuration.
pub record Test (W E : Type 0) : Type 0 where
  pub setup : W → W × Option E
  pub run : W → W × Option E

-- writeConfig: the path of the file. It is left open where writing fails. The encoding as YAML is given by
-- its result.
pub record ConfigCalls (W E : Type 0) : Type 0 where
  pub create_temp : W → FilePath → W × (E ⊎ FilePath)
  pub write : W → List ℕ → W × Option E
  pub close : W → W × Option E

unfoldable pub write_config :
    {W E : Type 0} → ConfigCalls W E → FilePath → E ⊎ List ℕ → W → W × (E ⊎ FilePath)
write_config {W} {E} calls dir marshalled w =
    let (w1, created) = calls.create_temp w dir in
    let written : FilePath → List ℕ → W × (E ⊎ FilePath) = λ path buf.
      let (w2, err) = calls.write w1 buf in
      let (w3, closed) = calls.close w2 in
      elim err [
        | some e ↦ (w2, inl e)
        | none ↦ elim closed [ some e ↦ (w3, inl e) | none ↦ (w3, inr path) ]
      ] in
    elim created [
      | inl e ↦ (w1, inl e)
      | inr path ↦ elim marshalled [ inl e ↦ (w1, inl e) | inr buf ↦ written path buf ]
    ]

-- newRunner, for the input directory of EnsureRelDir and the tests' New.
unfoldable pub new_runner :
    {W E A B : Type 0}
    → (W → W × (E ⊎ FilePath))
    → (W → W × (E ⊎ A))
    → (W → W × (E ⊎ B))
    → W
    → W × (E ⊎ (FilePath × A × B))
new_runner {W} {E} {A} {B} ensure_input new_first new_second w =
    let (w1, input) = ensure_input w in
    let (w2, first) = new_first w1 in
    let (w3, second) = new_second w2 in
    let with_second : FilePath → A → W × (E ⊎ (FilePath × A × B)) =
      λ dir a. elim second [ inl e ↦ (w3, inl e) | inr b ↦ (w3, inr (dir, a, b)) ] in
    elim input [
      | inl e ↦ (w1, inl e)
      | inr dir ↦ elim first [ inl e ↦ (w2, inl e) | inr a ↦ with_second dir a ]
    ]

-- setupAll
unfoldable pub setup_all : {W E : Type 0} → List (Test W E) → W → W × List E
setup_all [] w = (w, [])
setup_all (t ∷ ts) w =
    let (w1, err) = t.setup w in
    let (w2, errs) = setup_all ts w1 in (w2, append_error [] err ++ errs)

-- runAll, for the order in which the goroutines run, one after the other.
unfoldable pub run_all : {W E : Type 0} → List (Test W E) → W → W × List E
run_all [] w = (w, [])
run_all (t ∷ ts) w =
    let (w1, err) = t.run w in let (w2, errs) = run_all ts w1 in (w2, append_error [] err ++ errs)

-- run of the runner, for the directory's configuration file, os.Unsetenv, newWatchCommand, and the group
-- of the two goroutines with the error of its Wait.
unfoldable pub run_tests :
    {W E : Type 0}
    → (W → W × (E ⊎ FilePath))
    → (W → W × Option E)
    → (FilePath → Option E)
    → (FilePath → W → W × List E)
    → List (Test W E)
    → W
    → W × List E
run_tests {W} {E} config unset_env new_watch_command group tests w =
    let (w1, written) = config w in
    let (w2, unset) = unset_env w1 in
    let (w3, setup) = setup_all tests w2 in
    let grouped : FilePath → W × List E = λ path.
      let ran = group path w3 in
      elim (new_watch_command path) [
        | some e ↦ (w2, e ∷ [])
        | none ↦ elim setup [ [] ↦ ran | e ∷ es ↦ (w3, e ∷ es) ]
      ] in
    elim written [
      | inl e ↦ (w1, e ∷ [])
      | inr path ↦ elim unset [ some e ↦ (w2, e ∷ []) | none ↦ grouped path ]
    ]

-- execute of the command, less the timeout of its context, for newRunner in a directory and the run of what
-- it gives.
unfoldable pub execute :
    {W E R : Type 0}
    → ServerCalls W E
    → (W → W × (E ⊎ FilePath))
    → (W → FilePath → W × Option E)
    → (FilePath → W → W × (E ⊎ R))
    → (R → W → W × List E)
    → Bool
    → W
    → W × List E
execute {W} {E} {R} calls make remove_all runner run keep w =
    with_temp_dir make remove_all keep
      (λ dir w1.
        let (w2, made) = runner dir w1 in
        elim made [ inl e ↦ (w2, e ∷ []) | inr r ↦ with_server calls true (run r) w2 ])
      w
