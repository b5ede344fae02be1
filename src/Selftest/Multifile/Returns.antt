-- ===== src/Selftest/Multifile/Returns.antt =====
-- When the test ends.
use baamhackl.Base.{
  ℕ, zero, suc, ◌+◌, ◌≤◌, ◌≡◌, ◌⊎◌, inl, inr, refl, sym, ap, ◌∙◌, subst, Option, none, some, List,
  [], ◌∷◌, All, arith, List-cases,
}
use baamhackl.FilePaths.{FilePath}
use baamhackl.Waryio.{IoError, not_exist}
use baamhackl.Selftest.Multifile.{
  TestCalls, GenerationCounterFile, TestFile, MultifileTest, is_there, write_count, increment,
  finished, delete_finished, wait_finished, add_test_files, run_multifile,
}
use baamhackl.Selftest.Multifile.Rounds.{
  IsMarked, next_world, next_test, wait_finished-done, wait_finished-next,
}

module _ {W : Type 0} (calls : TestCalls W) where
  -- The test's surroundings at work: the wait and the writing of the generation file succeed, and `value`
  -- is the number in it.
  pub record Works (value : W → ℕ) (path : FilePath) : Type 0 where
    pub waits : (w : W) → ((calls.wait w).1 ≡ none) × (value (calls.wait w).0 ≡ value w)
    pub writes :
        (w : W) (n : ℕ)
        → ((calls.write_int w path n).1 ≡ none) × (value (calls.write_int w path n).0 ≡ n)

  -- The checkmark of the file is there from the generation `ready` on, and can always be looked for.
  abbrev pub IsAnswered : (W → ℕ) → ℕ → TestFile → Type 0
  IsAnswered value ready f =
      (w : W)
      → (IsMarked calls w f ⊎ (calls.lstat w f.checkmark_path ≡ some not_exist))
        × ((ready ≤ value w) → IsMarked calls w f)

  delete_finished-step :
      (f : TestFile) (fs remaining : List TestFile) (w : W)
      → delete_finished calls fs w ≡ inr remaining
      → ((IsMarked calls w f → delete_finished calls (f ∷ fs) w ≡ inr remaining)
          × (calls.lstat w f.checkmark_path ≡ some not_exist
              → delete_finished calls (f ∷ fs) w ≡ inr (f ∷ remaining)))
  unfolding delete_finished finished is_there
  delete_finished-step f fs remaining w r =
      (λ m. rw (m, r, delete_finished) refl, λ m. rw (m, r, delete_finished) refl)

  delete_finished-IsAnswered :
      (value : W → ℕ) (ready : ℕ) (fs : List TestFile) (w : W)
      → All (IsAnswered value ready) fs
      → (remaining : List TestFile) × (delete_finished calls fs w ≡ inr remaining)
        × All (IsAnswered value ready) remaining
        × ((ready ≤ value w) → remaining ≡ [])
  unfolding delete_finished
  delete_finished-IsAnswered value ready [] w h = ([], refl, tt, λ r. refl)
  delete_finished-IsAnswered value ready (f ∷ fs) w (h, hs) =
      let (remaining, e, answered, empty) = delete_finished-IsAnswered value ready fs w hs in
      let (marked, missing) = delete_finished-step f fs remaining w e in
      elim (h w).0 [
        | inl m ↦ (remaining, marked m, answered, empty)
        | inr m ↦ (
          f ∷ remaining,
          missing m,
          (h, answered),
          λ r. absurd (let p = sym ((h w).1 r) ∙ m in cc),
        )
      ]

  increment-Works :
      (value : W → ℕ) (f : GenerationCounterFile) (w : W)
      → Works value f.path
      → ((increment calls f w).2 ≡ none)
        × (value (increment calls f w).0 ≡ f.count + 1)
        × ((increment calls f w).1 ≡ record f { count = f.count + 1 })
  unfolding increment write_count
  increment-Works value f w v = ((v.writes w (f.count + 1)).0, (v.writes w (f.count + 1)).1, refl)

  -- Where the checkmarks of all pending files are there from the generation `ready` on, as many rounds as
  -- the generation is below it, and one more, are enough for the test to end without an error.
  wait_finished-returns :
      (value : W → ℕ) (ready n : ℕ) (t : MultifileTest) (w : W)
      → Works value t.generation.path
      → All (IsAnswered value ready) t.pending
      → value w ≡ t.generation.count
      → ready ≤ t.generation.count + n
      → (w' : W) × (t' : MultifileTest) × (wait_finished calls (suc n) t w ≡ some (w', t', none))
        × (t'.generation.count ≤ t.generation.count + n)
  wait_finished-returns value ready zero t w works h current enough =
      let (remaining, d, answered, empty) = delete_finished-IsAnswered value ready t.pending w h in
      let all_there : ready ≤ value w = omega (arith, current, enough) in
      (
        w,
        record t { pending = [] },
        wait_finished-done calls 0 t w (d ∙ ap inr (empty all_there)),
        omega arith,
      )
  wait_finished-returns value ready (suc n) t w works h current enough =
      let (remaining, d, answered, empty) = delete_finished-IsAnswered value ready t.pending w h in
      elim (List-cases remaining) [
        | inl p ↦ (
          w,
          record t { pending = [] },
          wait_finished-done calls (suc n) t w (d ∙ ap inr p),
          omega arith,
        )
        | inr (f, fs, p) ↦
            let (ok, raised, gen) = increment-Works value t.generation (calls.wait w).0 works in
            let counted : (next_test calls t (f ∷ fs) w).generation.count ≡ t.generation.count + 1 =
              ap (λ (g : GenerationCounterFile). g.count) gen in
            let same_path : t.generation.path ≡ (next_test calls t (f ∷ fs) w).generation.path =
              ap (λ (g : GenerationCounterFile). g.path) (sym gen) in
            let (w', t', returns, bound) =
              wait_finished-returns value ready n (next_test calls t (f ∷ fs) w)
                (next_world calls t w) (subst (Works value) same_path works)
                (subst (All (IsAnswered value ready)) p answered) (raised ∙ sym counted)
                (omega (arith, counted, enough)) in
            (
              w',
              t',
              wait_finished-next calls (suc n) t f fs w (d ∙ ap inr p) (works.waits w).0 ok
                  ∙ returns,
              omega (arith, counted, bound),
            )
      ]

  run_multifile-next :
      (hex : ℕ → FilePath) (fuel : ℕ) (t t1 : MultifileTest) (w w1 : W)
      → add_test_files calls hex 10 0 t w ≡ (w1, t1, none)
      → run_multifile calls hex fuel t w ≡ wait_finished calls fuel t1 w1
  unfolding run_multifile
  run_multifile-next hex fuel t t1 w w1 e =
      let added = ap (λ (z : W × MultifileTest × Option IoError). z.2) e in
      let p : run_multifile calls hex fuel t w
          ≡ wait_finished calls fuel (add_test_files calls hex 10 0 t w).1
              (add_test_files calls hex 10 0 t w).0 =
        rw (added, run_multifile) refl in
      p ∙ ap (λ (z : W × MultifileTest × Option IoError). wait_finished calls fuel z.1 z.0) e

  -- Where the generation file says what the test knows, its waits, writes and inspections succeed, and the
  -- checkmarks are there from the generation `ready` on, Run returns no error after as many rounds as the
  -- generation is below that, and one more.
  pub run_multifile-returns :
      (value : W → ℕ) (ready n : ℕ) (hex : ℕ → FilePath) (t t1 : MultifileTest) (w w1 : W)
      → add_test_files calls hex 10 0 t w ≡ (w1, t1, none)
      → Works value t1.generation.path
      → All (IsAnswered value ready) t1.pending
      → value w1 ≡ t1.generation.count
      → ready ≤ t1.generation.count + n
      → (w' : W) × (t' : MultifileTest) × (run_multifile calls hex (suc n) t w
          ≡ some (w', t', none))
        × (t'.generation.count ≤ t1.generation.count + n)
  run_multifile-returns value ready n hex t t1 w w1 added works answered current enough =
      let (w', t', returns, bound) =
        wait_finished-returns value ready n t1 w1 works answered current enough in
      (w', t', run_multifile-next hex (suc n) t t1 w w1 added ∙ returns, bound)
