-- ===== src/Selftest/Tests.antt =====
-- Tests of the self-test: its files get their checkmarks in the third round, and its goroutines end.
use baamhackl.Base.{
  ℕ, ◌+◌, ◌≤◌, leb, ◌≡◌, ◌⊎◌, inr, refl, sym, ap, subst, Option, none, some, List, [], ◌∷◌, All,
  length, if◌then◌else◌, arith,
}
use baamhackl.FilePaths.{FilePath, same_name}
use baamhackl.Waryio.{IoError, not_exist}
use baamhackl.Selftest.Multifile.{
  TestCalls, TestFile, GenerationCounterFile, MultifileTest, add_test_files, run_multifile,
}
use baamhackl.Selftest.Multifile.Rounds.{IsMarked, Stays, run_multifile-IsMarked}
use baamhackl.Selftest.Multifile.Returns.{IsAnswered, Works, run_multifile-returns}
use baamhackl.Selftest.Group.{
  Group, new_group, Reach, here, next, tests_return, watch_returns, canceled,
}
use baamhackl.Selftest.Group.Ends.{Inv, Reach-Inv}

-- The world counts the waits, or holds the generation; from 2 on there are checkmarks.
abbrev looked_for : ℕ → Option IoError
looked_for w = if leb 2 w then none else some not_exist

abbrev counting : TestCalls ℕ
counting = record {
  write_int = λ w path n. (w, none);
  make_temp = λ w dir start. (w, inr start);
  lstat = λ w path. looked_for w;
  wait = λ w. (w + 1, none);
}

abbrev test : MultifileTest
test = record {
  dir = 100 ∷ [];
  status_dir = 115 ∷ [];
  generation = record { path = 103 ∷ []; count = 0 };
  counter = 7;
  pending = [];
}

abbrev hex : ℕ → FilePath
hex n = n ∷ []

looked_for-suc : (w : ℕ) → looked_for w ≡ none → looked_for (w + 1) ≡ none
looked_for-suc w e = ground arith

counting-Stays : Stays counting
counting-Stays = record { waits = λ w f m. looked_for-suc w m; writes = λ w path n f m. m }

ran : (t' : MultifileTest) × (run_multifile counting hex 3 test 0 ≡ some (2, t', none))
unfolding run_multifile add_test_files baamhackl.Selftest.Multifile.add_test_file
    baamhackl.Selftest.Multifile.wait_finished baamhackl.Selftest.Multifile.delete_finished
    baamhackl.Selftest.Multifile.finished baamhackl.Selftest.Multifile.is_there
    baamhackl.Selftest.Multifile.increment baamhackl.Selftest.Multifile.write_count
ran = (_, refl)

run_multifile-IsMarked_example :
    All (IsMarked counting 2) (add_test_files counting hex 10 0 test 0).1.pending
    × (length (add_test_files counting hex 10 0 test 0).1.pending ≡ 10 + length test.pending)
    × (ran.0.pending ≡ [])
run_multifile-IsMarked_example =
    run_multifile-IsMarked counting hex 3 test ran.0 0 2 counting-Stays ran.1

abbrev raising : TestCalls ℕ
raising = record {
  write_int = λ w path n. (if same_name path (103 ∷ []) then n else w, none);
  make_temp = λ w dir start. (w, inr start);
  lstat = λ w path. looked_for w;
  wait = λ w. (w, none);
}

raising-Works : Works raising (λ w. w) (103 ∷ [])
unfolding same_name
raising-Works = record { waits = λ w. (refl, refl); writes = λ w n. (refl, refl) }

added : (t' : MultifileTest) × (add_test_files raising hex 10 0 test 0 ≡ (0, t', none))
unfolding add_test_files baamhackl.Selftest.Multifile.add_test_file same_name
    baamhackl.Selftest.Multifile.file_for baamhackl.FilePaths.join baamhackl.FilePaths.clean
    baamhackl.FilePaths.split baamhackl.FilePaths.is_abs baamhackl.FilePaths.join_text
    baamhackl.FilePaths.clean_elems baamhackl.FilePaths.cons_first baamhackl.FilePaths.go_up
added = (_, refl)

looked_for-cases :
    (w : ℕ)
    → ((looked_for w ≡ none) ⊎ (looked_for w ≡ some not_exist)) × ((2 ≤ w) → looked_for w ≡ none)
looked_for-cases w = (ground arith, λ h. ground arith)

raising-IsAnswered : (fs : List TestFile) → All (IsAnswered raising (λ w. w) 2) fs
raising-IsAnswered [] = tt
raising-IsAnswered (f ∷ fs) = (looked_for-cases, raising-IsAnswered fs)

added-count : added.0.generation ≡ test.generation
unfolding added
added-count = refl

run_multifile-returns_example :
    (w' : ℕ) × (t' : MultifileTest) × (run_multifile raising hex 3 test 0 ≡ some (w', t', none))
    × (t'.generation.count ≤ added.0.generation.count + 2)
run_multifile-returns_example =
    run_multifile-returns raising (λ w. w) 2 2 hex test added.0 0 0 added.1
      (subst (λ (g : GenerationCounterFile). Works raising (λ w. w) g.path) (sym added-count)
        raising-Works)
      (raising-IsAnswered added.0.pending)
      (ap (λ (g : GenerationCounterFile). g.count) (sym added-count)) (omega arith)

ended : (g : Group) × Reach new_group g
unfolding baamhackl.Selftest.Group.tests_end
ended =
    let tested : (g : Group) × Reach new_group g = (_, next here (tests_return none refl)) in
    (_, next tested.1 (watch_returns (some canceled) refl))

Reach-Inv_example : Inv ended.0
Reach-Inv_example = Reach-Inv ended.0 ended.1
