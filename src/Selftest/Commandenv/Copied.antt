-- ===== src/Selftest/Commandenv/Copied.antt =====
-- The check of the copied file fits what Setup has written.
use mathlib.Core.List.{append-nil, append_assoc}
use baamhackl.Base.{
  ℕ, zero, suc, ◌+◌, none, List, [], ◌∷◌, ◌++◌, inl, inr, ◌≡◌, refl, sym, ap, ◌∙◌, Bool-cases,
  Option-cases, Sum-cases, if◌then◌else◌,
}
use baamhackl.FilePaths.{same_name, join}
use baamhackl.FilePaths.Split.{same_name-eq}
use baamhackl.Selftest.{append_error, append_error-none}
use baamhackl.Selftest.Commandenv.{
  EnvCalls, CommandEnvTest, trigger_name, done_name, print_lines, setup_lines, check_copy,
}

module _ {W E : Type 0} (calls : EnvCalls W E) where
  -- The lines with k numbers from i on.
  unfoldable pub lines : ℕ → ℕ → List ℕ
  lines zero i = []
  lines (suc k) i = calls.line i ++ lines k (i + 1)

  print_lines-lines :
      (k i : ℕ) (text : List ℕ) (w : W)
      → (print_lines calls k i text w).2 ≡ none
      → (print_lines calls k i text w).1 ≡ text ++ lines k i
  unfolding print_lines lines
  print_lines-lines zero i text w e = sym (append-nil text)
  print_lines-lines (suc k) i text w e = elim (Option-cases (calls.print w (calls.line i)).1) [
    | inr (x, p) ↦ absurd (let q = rw (p, print_lines) at e in cc)
    | inl p ↦
        rw (p, print_lines)
          (print_lines-lines k (i + 1) (text ++ calls.line i) (calls.print w (calls.line i)).0
              (rw (p, print_lines) at e)
            ∙ append_assoc text (calls.line i) (lines k (i + 1)))
  ]

  -- Where Setup returns no error, the digest that it keeps is that of all lines.
  setup_lines-digest :
      (count : ℕ) (t : CommandEnvTest) (w : W)
      → (setup_lines calls count t w).2 ≡ []
      → (setup_lines calls count t w).1 ≡ record t { want_digest = calls.digest (lines count 0) }
  unfolding setup_lines
  setup_lines-digest count t w e =
      let w1 = (calls.create w (join (t.dir ∷ trigger_name ∷ []))).0 in
      elim (Option-cases (calls.create w (join (t.dir ∷ trigger_name ∷ []))).1) [
        | inr (x, c) ↦ absurd (let q = rw (c, setup_lines) at e in cc)
        | inl c ↦ elim (Option-cases (print_lines calls count 0 [] w1).2) [
          | inr (x, p) ↦
              absurd (let q = (append_error-none _ _ (rw (c, p, setup_lines) at e)).0 in cc)
          | inl p ↦ elim (Option-cases (calls.flush (print_lines calls count 0 [] w1).0).1) [
            | inr (x, f) ↦
                absurd (let q = (append_error-none _ _ (rw (c, p, f, setup_lines) at e)).0 in cc)
            | inl f ↦
                rw (c, p, f, setup_lines)
                  (ap (λ text. record t { want_digest = calls.digest text })
                    (print_lines-lines count 0 [] w1 p))
          ]
        ]
      ]

  check_copy-open :
      (t : CommandEnvTest) (w : W)
      → (calls.open_copy w (join (t.target_dir ∷ done_name ∷ []))).1 ≡ none
      → (check_copy calls t w).1
        ≡ append_error
            (elim (calls.copy (calls.open_copy w (join (t.target_dir ∷ done_name ∷ []))).0).1 [
              | inl e ↦ e ∷ []
              | inr text ↦
                  if same_name t.want_digest (calls.digest text) then [] else calls.differs ∷ []
            ])
            (calls.close
              (calls.copy (calls.open_copy w (join (t.target_dir ∷ done_name ∷ []))).0).0).1
  unfolding check_copy
  check_copy-open t w o = rw (o, check_copy) refl

  -- A check without an error has read a text with the kept digest.
  check_copy-same :
      (t : CommandEnvTest) (w : W)
      → (check_copy calls t w).1 ≡ []
      → (text : List ℕ) × (calls.digest text ≡ t.want_digest)
        × ((calls.copy (calls.open_copy w (join (t.target_dir ∷ done_name ∷ []))).0).1 ≡ inr text)
  unfolding check_copy
  check_copy-same t w e =
      let w1 = (calls.open_copy w (join (t.target_dir ∷ done_name ∷ []))).0 in
      elim (Option-cases (calls.open_copy w (join (t.target_dir ∷ done_name ∷ []))).1) [
        | inr (x, o) ↦ absurd (let q = rw (o, check_copy) at e in cc)
        | inl o ↦
            let q = (append_error-none _ _ (sym (check_copy-open t w o) ∙ e)).0 in
            elim (Sum-cases (calls.copy w1).1) [
              | inl (x, c) ↦ absurd (let r = rw c at q in cc)
              | inr (text, c) ↦ elim (Bool-cases (same_name t.want_digest (calls.digest text))) [
                | inl b ↦ (text, sym (same_name-eq t.want_digest (calls.digest text) b), c)
                | inr b ↦ absurd (let r = rw (c, b) at q in cc)
              ]
            ]
      ]

  -- Where Setup returns no error, and a check of the copied file none either, what the check has read has
  -- the same digest as all the lines that were to be written, one after the other.
  pub check_copy-lines :
      (count : ℕ) (t : CommandEnvTest) (w w' : W)
      → (setup_lines calls count t w).2 ≡ []
      → (check_copy calls (setup_lines calls count t w).1 w').1 ≡ []
      → (text : List ℕ) × (calls.digest text ≡ calls.digest (lines count 0))
        × ((calls.copy (calls.open_copy w' (join (t.target_dir ∷ done_name ∷ []))).0).1 ≡ inr text)
  check_copy-lines count t w w' e f =
      let d = setup_lines-digest count t w e in
      check_copy-same (record t { want_digest = calls.digest (lines count 0) }) w'
        (ap (λ (u : CommandEnvTest). (check_copy calls u w').1) (sym d) ∙ f)
