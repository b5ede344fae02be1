-- ===== src/Selftest/Group.antt =====
-- The two goroutines of the runner's run, in selftest/runner.go: the "watch" command and the tests. A step
-- is the end of a goroutine or that of the surrounding context. Of the error group it is taken what is
-- documented: Wait returns the first error, and that error cancels the group's context.
pub mod Ends
use baamhackl.Base.{ℕ, Bool, true, false, Option, none, some, ◌≡◌, ◌||◌}

-- context.Canceled, or another error.
pub data RunError : Type 0 where
  canceled : RunError
  failed : ℕ → RunError

-- A goroutine's progress.
pub data Progress : Type 0 where
  running : Progress
  ended : Option RunError → Progress

-- The contexts' states, the goroutines, and the first error of the group.
pub record Group : Type 0 where
  pub outer_ended : Bool
  pub watch_cancelled : Bool
  pub test_cancelled : Bool
  pub watch : Progress
  pub tests : Progress
  pub first_error : Option RunError

abbrev pub new_group : Group
new_group = record {
  outer_ended = false;
  watch_cancelled = false;
  test_cancelled = false;
  watch = running;
  tests = running;
  first_error = none;
}

unfoldable pub is_error : Option RunError → Bool
is_error none = false
is_error (some e) = true

-- The first error is kept.
unfoldable pub first : Option RunError → Option RunError → Option RunError
first none err = err
first (some e) err = some e

-- What the goroutine of the command returns: a cancellation is no error.
unfoldable pub watch_result : Option RunError → Option RunError
watch_result none = none
watch_result (some canceled) = none
watch_result (some (failed e)) = some (failed e)

-- ExecuteWithClient has returned.
unfoldable pub watch_ends : Group → Option RunError → Group
watch_ends g err = record g {
  watch = ended err;
  test_cancelled = true;
  watch_cancelled = g.watch_cancelled || is_error (watch_result err);
  first_error = first g.first_error (watch_result err);
}

-- runAll has returned.
unfoldable pub tests_end : Group → Option RunError → Group
tests_end g err = record g {
  tests = ended err;
  watch_cancelled = true;
  test_cancelled = g.test_cancelled || is_error err;
  first_error = first g.first_error err;
}

pub data Step (g : Group) : Group → Type 0 where
  watch_returns : (err : Option RunError) → g.watch ≡ running → Step g (watch_ends g err)
  tests_return : (err : Option RunError) → g.tests ≡ running → Step g (tests_end g err)
  context_ends :
      Step g (record g { outer_ended = true; watch_cancelled = true; test_cancelled = true })

pub data Reach (x : Group) : Group → Type 0 where
  here : Reach x x
  next : {y z : Group} → Reach x y → Step y z → Reach x z
