-- ===== src/Selftest/Commandenv.antt =====
-- selftest/commandenv/test.go: a large file that the handler's command is to copy and move. Its calls, the
-- digest and the repetition with a backoff are parameters.
pub mod Copied
use baamhackl.Base.{
  ℕ, zero, suc, ◌+◌, ◌*◌, Bool, Option, none, some, List, [], ◌∷◌, ◌++◌, ◌⊎◌, inl, inr,
  if◌then◌else◌,
}
use baamhackl.FilePaths.{FilePath, join, same_name}
use baamhackl.Selftest.{append_error}

-- os.MkdirTemp, os.Create, the writer's Fprintf and Flush, os.Open, io.Copy into the digest with the bytes
-- read, and Close; `digest` is that of all bytes written to it, and `line` is the format "%d\n".
pub record EnvCalls (W E : Type 0) : Type 0 where
  pub make_temp : W → FilePath → FilePath → W × (E ⊎ FilePath)
  pub create : W → FilePath → W × Option E
  pub print : W → List ℕ → W × Option E
  pub flush : W → W × Option E
  pub open_copy : W → FilePath → W × Option E
  pub copy : W → W × (E ⊎ List ℕ)
  pub close : W → W × Option E
  pub digest : List ℕ → List ℕ
  pub line : ℕ → List ℕ
  pub differs : E

-- commandEnvTest
pub record CommandEnvTest : Type 0 where
  pub dir : FilePath
  pub target_dir : FilePath
  pub want_digest : List ℕ

unfoldable pub line_count : ℕ
line_count = 1024 * 1024

-- "commandenv", "commandtarget", "trigger" and "done.txt"
abbrev pub env_start : FilePath
env_start = 99 ∷ 111 ∷ 109 ∷ 109 ∷ 97 ∷ 110 ∷ 100 ∷ 101 ∷ 110 ∷ 118 ∷ []

abbrev pub target_start : FilePath
target_start = 99 ∷ 111 ∷ 109 ∷ 109 ∷ 97 ∷ 110 ∷ 100 ∷ 116 ∷ 97 ∷ 114 ∷ 103 ∷ 101 ∷ 116 ∷ []

abbrev pub trigger_name : FilePath
trigger_name = 116 ∷ 114 ∷ 105 ∷ 103 ∷ 103 ∷ 101 ∷ 114 ∷ []

abbrev pub done_name : FilePath
done_name = 100 ∷ 111 ∷ 110 ∷ 101 ∷ 46 ∷ 116 ∷ 120 ∷ 116 ∷ []

module _ {W E : Type 0} (calls : EnvCalls W E) where
  -- New
  unfoldable pub new_commandenv : FilePath → W → W × (E ⊎ CommandEnvTest)
  new_commandenv parent w =
      let (w1, made) = calls.make_temp w parent env_start in
      let (w2, target) = calls.make_temp w1 parent target_start in
      let with_target : FilePath → W × (E ⊎ CommandEnvTest) = λ d. elim target [
        | inl e ↦ (w2, inl e)
        | inr t ↦ (w2, inr (record { dir = d; target_dir = t; want_digest = [] }))
      ] in
      elim made [ inl e ↦ (w1, inl e) | inr d ↦ with_target d ]

  -- The loop of Setup, k lines from the number i on, with the bytes that the digest has got.
  unfoldable pub print_lines : ℕ → ℕ → List ℕ → W → W × List ℕ × Option E
  print_lines zero i text w = (w, text, none)
  print_lines (suc k) i text w =
      let (w', err) = calls.print w (calls.line i) in
      let rest = print_lines k (i + 1) (text ++ calls.line i) w' in
      elim err [ some e ↦ (w', text, some e) | none ↦ rest ]

  -- Setup of so many lines, with the deferred closing of the file.
  unfoldable pub setup_lines : ℕ → CommandEnvTest → W → W × CommandEnvTest × List E
  setup_lines count t w =
      let (w1, created) = calls.create w (join (t.dir ∷ trigger_name ∷ [])) in
      let (w2, text, err) = print_lines count 0 [] w1 in
      let (w3, flushed) = calls.flush w2 in
      let ended : W → CommandEnvTest → List E → W × CommandEnvTest × List E =
        λ w t errs. let (w', closed) = calls.close w in (w', t, append_error errs closed) in
      let printed : W × CommandEnvTest × List E = elim err [
        | some e ↦ ended w2 t (e ∷ [])
        | none ↦ elim flushed [
          | some e ↦ ended w3 t (e ∷ [])
          | none ↦ ended w3 (record t { want_digest = calls.digest text }) []
        ]
      ] in
      elim created [ some e ↦ (w1, t, e ∷ []) | none ↦ printed ]

  unfoldable pub setup_commandenv : CommandEnvTest → W → W × CommandEnvTest × List E
  setup_commandenv t w = setup_lines line_count t w

  -- What Run repeats: the moved file must have the digest.
  unfoldable pub check_copy : CommandEnvTest → W → W × List E
  check_copy t w =
      let (w1, opened) = calls.open_copy w (join (t.target_dir ∷ done_name ∷ [])) in
      let (w2, copied) = calls.copy w1 in
      let (w3, closed) = calls.close w2 in
      let errs : List E = elim copied [
        | inl e ↦ e ∷ []
        | inr text ↦ if same_name t.want_digest (calls.digest text) then [] else calls.differs ∷ []
      ] in
      elim opened [ some e ↦ (w1, e ∷ []) | none ↦ (w3, append_error errs closed) ]
