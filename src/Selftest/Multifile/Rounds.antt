-- ===== src/Selftest/Multifile/Rounds.antt =====
-- What it means that the test ends without an error.
use mathlib.Core.Option
use baamhackl.Base.{
  ℕ, zero, suc, ◌+◌, ◌≡◌, ◌⊎◌, inl, inr, refl, sym, ap, ◌∙◌, subst, true, Option, none, some, List,
  [], ◌∷◌, All, arith, Option-cases, length, ◌%◌, ◌^◌, Bool-cases,
}
use baamhackl.FilePaths.{FilePath}
use baamhackl.Waryio.{IoError, not_exist, Result, Result-cases}
use baamhackl.Selftest.Multifile.{
  TestCalls, TestFile, MultifileTest, write_count, increment, is_there, finished, delete_finished,
  wait_finished, file_for, add_test_file, add_test_files, run_multifile,
}

is_there-true : (r : Option IoError) → is_there r ≡ inr true → r ≡ none
unfolding is_there
is_there-true none e = refl
is_there-true (some not_exist) e = absurd (cc)
is_there-true (some x) e = absurd (cc)

inr-injective : {A : Type 0} {a b : A} → ◌≡◌ {A = Result A} (inr a) (inr b) → a ≡ b
inr-injective {A} {a} e = ap (λ (z : Result A). elim z [ inl x ↦ a | inr y ↦ y ]) e

module _ {W : Type 0} (calls : TestCalls W) where
  abbrev pub Outcome : Type 0
  Outcome = W × MultifileTest × Option IoError

  -- The checkmark is there.
  abbrev pub IsMarked : W → TestFile → Type 0
  IsMarked w f = calls.lstat w f.checkmark_path ≡ none

  -- The world and the test of the next round.
  abbrev pub next_world : MultifileTest → W → W
  next_world t w = (increment calls t.generation (calls.wait w).0).0

  abbrev pub next_test : MultifileTest → List TestFile → W → MultifileTest
  next_test t remaining w = record t {
    pending = remaining;
    generation = (increment calls t.generation (calls.wait w).0).1;
  }

  failed_outcome :
      (w w' : W) (t t' : MultifileTest) (x : IoError)
      → ◌≡◌ {A = Option Outcome} (some (w, t, some x)) (some (w', t', none))
      → ⊥
  failed_outcome w w' t t' x e =
      let p = ap (λ (z : Outcome). z.2) (Option.some-injective {A = Outcome} _ _ e) in cc

  out_of_fuel :
      (t t' : MultifileTest) (w w' : W) → wait_finished calls 0 t w ≡ some (w', t', none) → ⊥
  unfolding wait_finished
  out_of_fuel t t' w w' e = cc

  pub wait_finished-done :
      (n : ℕ) (t : MultifileTest) (w : W)
      → delete_finished calls t.pending w ≡ inr []
      → wait_finished calls (suc n) t w ≡ some (w, record t { pending = [] }, none)
  unfolding wait_finished
  wait_finished-done n t w e = rw (e, wait_finished) refl

  pub wait_finished-next :
      (n : ℕ) (t : MultifileTest) (f : TestFile) (fs : List TestFile) (w : W)
      → delete_finished calls t.pending w ≡ inr (f ∷ fs)
      → (calls.wait w).1 ≡ none
      → (increment calls t.generation (calls.wait w).0).2 ≡ none
      → wait_finished calls (suc n) t w
        ≡ wait_finished calls n (next_test t (f ∷ fs) w) (next_world t w)
  unfolding wait_finished
  wait_finished-next n t f fs w e a b = rw (e, a, b, wait_finished) refl

  -- A round that ends, or is followed by others, without an error.
  wait_finished-round :
      (n : ℕ) (t t' : MultifileTest) (w w' : W)
      → wait_finished calls (suc n) t w ≡ some (w', t', none)
      → ((delete_finished calls t.pending w ≡ inr []) × (w ≡ w') × (t'.pending ≡ []))
        ⊎ ((remaining : List TestFile) × (delete_finished calls t.pending w ≡ inr remaining)
            × (wait_finished calls n (next_test t remaining w) (next_world t w)
                ≡ some (w', t', none)))
  unfolding wait_finished
  wait_finished-round n t t' w w' e = elim (Result-cases (delete_finished calls t.pending w)) [
    | inl (x, d) ↦ absurd (let p = rw (d, wait_finished) at e in failed_outcome _ w' _ t' x p)
    | inr ([], d) ↦
        let p = Option.some-injective {A = Outcome} _ _ (sym (wait_finished-done n t w d) ∙ e) in
        inl (d, ap (λ (z : Outcome). z.0) p, ap (λ (z : Outcome). z.1.pending) (sym p))
    | inr (f ∷ fs, d) ↦ elim (Option-cases (calls.wait w).1) [
      | inr (x, a) ↦ absurd (let p = rw (d, a, wait_finished) at e in failed_outcome _ w' _ t' x p)
      | inl a ↦ elim (Option-cases (increment calls t.generation (calls.wait w).0).2) [
        | inr (x, b) ↦
            absurd (let p = rw (d, a, b, wait_finished) at e in failed_outcome _ w' _ t' x p)
        | inl b ↦ inr (f ∷ fs, d, sym (wait_finished-next n t f fs w d a b) ∙ e)
      ]
    ]
  ]

  finished-IsMarked : (f : TestFile) (w : W) → finished calls f w ≡ inr true → IsMarked w f
  unfolding finished
  finished-IsMarked f w e = is_there-true (calls.lstat w f.checkmark_path) e

  -- What deleteFinished takes out has its checkmark.
  delete_finished-IsMarked :
      (P : TestFile → Type 0) (fs remaining : List TestFile) (w : W)
      → ((f : TestFile) → IsMarked w f → P f)
      → delete_finished calls fs w ≡ inr remaining
      → All P remaining
      → All P fs
  unfolding delete_finished
  delete_finished-IsMarked P [] remaining w marked e h = tt
  delete_finished-IsMarked P (f ∷ fs) remaining w marked e h =
      elim (Result-cases (finished calls f w)) [
        | inl (x, k) ↦ absurd (let p = rw (k, delete_finished) at e in cc)
        | inr (ok, k) ↦ elim (Result-cases (delete_finished calls fs w)) [
          | inl (x, r) ↦ absurd (let p = rw (k, r, delete_finished) at e in cc)
          | inr (rest, r) ↦ elim (Bool-cases ok) [
            | inl b ↦
                let q : rest ≡ remaining = inr-injective (rw (k, r, b, delete_finished) at e) in
                (
                  marked f (finished-IsMarked f w (k ∙ ap inr b)),
                  delete_finished-IsMarked P fs rest w marked r (subst (All P) (sym q) h),
                )
            | inr b ↦
                let q : f ∷ rest ≡ remaining = inr-injective (rw (k, r, b, delete_finished) at e) in
                let (hf, hs) : All P (f ∷ rest) = subst (All P) (sym q) h in
                (hf, delete_finished-IsMarked P fs rest w marked r hs)
          ]
        ]
      ]

  -- The world changes only so that no checkmark goes away.
  pub record Stays : Type 0 where
    pub waits : (w : W) (f : TestFile) → IsMarked w f → IsMarked (calls.wait w).0 f
    pub writes :
        (w : W) (path : FilePath) (n : ℕ) (f : TestFile)
        → IsMarked w f
        → IsMarked (calls.write_int w path n).0 f

  next_world-IsMarked :
      (t : MultifileTest) (w : W) (f : TestFile)
      → Stays
      → IsMarked w f
      → IsMarked (next_world t w) f
  unfolding increment write_count
  next_world-IsMarked t w f stays m = stays.writes _ _ _ f (stays.waits w f m)

  wait_finished-IsMarked :
      (n : ℕ) (t t' : MultifileTest) (w w' : W)
      → Stays
      → wait_finished calls n t w ≡ some (w', t', none)
      → ((f : TestFile) → IsMarked w f → IsMarked w' f)
        × All (IsMarked w') t.pending
        × (t'.pending ≡ [])
  wait_finished-IsMarked zero t t' w w' stays e = absurd (out_of_fuel t t' w w' e)
  wait_finished-IsMarked (suc n) t t' w w' stays e = elim (wait_finished-round n t t' w w' e) [
    | inl (d, same, empty) ↦
        let keeps : (f : TestFile) → IsMarked w f → IsMarked w' f =
          λ f m. subst (λ (z : W). IsMarked z f) same m in
        (keeps, delete_finished-IsMarked (IsMarked w') t.pending [] w keeps d tt, empty)
    | inr (remaining, d, r) ↦
        let (later, rest, empty) =
          wait_finished-IsMarked n (next_test t remaining w) t' (next_world t w) w' stays r in
        let keeps : (f : TestFile) → IsMarked w f → IsMarked w' f =
          λ f m. later f (next_world-IsMarked t w f stays m) in
        (keeps, delete_finished-IsMarked (IsMarked w') t.pending remaining w keeps d rest, empty)
  ]

  add_test_file-length :
      (hex : ℕ → FilePath) (i : ℕ) (t : MultifileTest) (w : W)
      → (add_test_file calls hex i t w).2 ≡ none
      → length (add_test_file calls hex i t w).1.pending ≡ suc (length t.pending)
  unfolding add_test_file
  add_test_file-length hex i t w e =
      let f = file_for calls hex t ((t.counter + 1) % 2 ^ 64) in
      elim (Option-cases (calls.write_int w f.input_path i).1) [
        | inr (x, p) ↦ absurd (let q = rw (p, add_test_file) at e in cc)
        | inl p ↦ rw (p, add_test_file) refl
      ]

  -- An added file is pending.
  add_test_files-next :
      (hex : ℕ → FilePath) (k i : ℕ) (t : MultifileTest) (w : W)
      → (add_test_files calls hex (suc k) i t w).2 ≡ none
      → (t' : MultifileTest) × (w' : W) × (add_test_files calls hex (suc k) i t w
          ≡ add_test_files calls hex k (i + 1) t' w')
        × (length t'.pending ≡ suc (length t.pending))
  unfolding add_test_files
  add_test_files-next hex k i t w e = elim (Option-cases (add_test_file calls hex i t w).2) [
    | inr (x, p) ↦ absurd (let q = rw (p, add_test_files) at e in cc)
    | inl p ↦ (
      (add_test_file calls hex i t w).1,
      (add_test_file calls hex i t w).0,
      rw (p, add_test_files) refl,
      add_test_file-length hex i t w p,
    )
  ]

  add_test_files-length :
      (hex : ℕ → FilePath) (k i : ℕ) (t : MultifileTest) (w : W)
      → (add_test_files calls hex k i t w).2 ≡ none
      → length (add_test_files calls hex k i t w).1.pending ≡ k + length t.pending
  unfolding add_test_files
  add_test_files-length hex zero i t w e = omega arith
  add_test_files-length hex (suc k) i t w e =
      let (t', w', p, longer) = add_test_files-next hex k i t w e in
      let ih = add_test_files-length hex k (i + 1) t' w' (ap (λ (z : Outcome). z.2) (sym p) ∙ e) in
      ap (λ (z : Outcome). length z.1.pending) p ∙ omega (arith, ih, longer)

  run_multifile-added :
      (hex : ℕ → FilePath) (fuel : ℕ) (t t' : MultifileTest) (w w' : W)
      → run_multifile calls hex fuel t w ≡ some (w', t', none)
      → ((add_test_files calls hex 10 0 t w).2 ≡ none)
        × (wait_finished calls fuel
              (add_test_files calls hex 10 0 t w).1
              (add_test_files calls hex 10 0 t w).0
            ≡ some (w', t', none))
  unfolding run_multifile
  run_multifile-added hex fuel t t' w w' e =
      elim (Option-cases (add_test_files calls hex 10 0 t w).2) [
        | inr (x, a) ↦ absurd (let p = rw (a, run_multifile) at e in failed_outcome _ w' _ t' x p)
        | inl a ↦ (a, rw (a, run_multifile) at e)
      ]

  -- Where Run returns no error, it has added ten files to the pending ones, and each of these has its
  -- checkmark in the end; none is pending any more. It takes that no checkmark goes away.
  pub run_multifile-IsMarked :
      (hex : ℕ → FilePath) (fuel : ℕ) (t t' : MultifileTest) (w w' : W)
      → Stays
      → run_multifile calls hex fuel t w ≡ some (w', t', none)
      → All (IsMarked w') (add_test_files calls hex 10 0 t w).1.pending
        × (length (add_test_files calls hex 10 0 t w).1.pending ≡ 10 + length t.pending)
        × (t'.pending ≡ [])
  run_multifile-IsMarked hex fuel t t' w w' stays e =
      let (added, waited) = run_multifile-added hex fuel t t' w w' e in
      let (later, marked, empty) =
        wait_finished-IsMarked fuel (add_test_files calls hex 10 0 t w).1 t'
          (add_test_files calls hex 10 0 t w).0 w' stays waited in
      (marked, add_test_files-length hex 10 0 t w added, empty)
