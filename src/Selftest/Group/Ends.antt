-- ===== src/Selftest/Group/Ends.antt =====
-- Each goroutine tells the other to end, and an error of either is returned.
use baamhackl.Base.{
  Bool, true, false, ◌||◌, Option, none, some, ◌≡◌, ◌⊎◌, inl, inr, refl, ◌∙◌, ap, sym,
}
use baamhackl.Selftest.Group.{
  RunError, canceled, failed, Progress, running, ended, Group, new_group, is_error, first,
  watch_result, watch_ends, tests_end, Step, watch_returns, tests_return, context_ends, Reach, here,
  next,
}

-- The error of a goroutine that has ended: a command that was cancelled has none.
unfoldable pub watch_error : Progress → Option RunError
watch_error running = none
watch_error (ended none) = none
watch_error (ended (some canceled)) = none
watch_error (ended (some (failed e))) = some (failed e)

unfoldable pub tests_error : Progress → Option RunError
tests_error running = none
tests_error (ended err) = err

pub record Inv (g : Group) : Type 0 where
  pub test_told : (g.watch ≡ running) ⊎ (g.test_cancelled ≡ true)
  pub watch_told : (g.tests ≡ running) ⊎ (g.watch_cancelled ≡ true)
  pub errors :
      is_error g.first_error ≡ is_error (watch_error g.watch) || is_error (tests_error g.tests)

first-is_error : (a b : Option RunError) → is_error (first a b) ≡ is_error a || is_error b
unfolding is_error first
first-is_error none b = refl
first-is_error (some x) b = refl

or_true : (b : Bool) → (b || true) ≡ true
or_true true = refl
or_true false = refl

or_false : (b : Bool) → (b || false) ≡ b
or_false true = refl
or_false false = refl

or_comm : (a b : Bool) → (a || b) ≡ (b || a)
or_comm true b = sym (or_true b)
or_comm false b = sym (or_false b)

or_told : {P : Type 0} (c b : Bool) → P ⊎ (c ≡ true) → P ⊎ (c || b ≡ true)
or_told c b (inl p) = inl p
or_told c b (inr e) = inr (ap (λ z. z || b) e)

watch_result-watch_error : (err : Option RunError) → watch_result err ≡ watch_error (ended err)
unfolding watch_result watch_error
watch_result-watch_error none = refl
watch_result-watch_error (some canceled) = refl
watch_result-watch_error (some (failed e)) = refl

Step-Inv : {g h : Group} → Step g h → Inv g → Inv h
unfolding watch_ends tests_end watch_error tests_error is_error
Step-Inv {g} (watch_returns err r) v = record {
  test_told = inr refl;
  watch_told = or_told g.watch_cancelled _ v.watch_told;
  errors =
      let before : is_error g.first_error ≡ is_error (tests_error g.tests) =
        v.errors ∙ ap (λ p. is_error (watch_error p) || is_error (tests_error g.tests)) r in
      first-is_error g.first_error (watch_result err)
      ∙ ap (λ b. b || is_error (watch_result err)) before
      ∙ or_comm (is_error (tests_error g.tests)) (is_error (watch_result err))
      ∙ ap (λ r. is_error r || is_error (tests_error g.tests)) (watch_result-watch_error err);
}
Step-Inv {g} (tests_return err r) v = record {
  test_told = or_told g.test_cancelled _ v.test_told;
  watch_told = inr refl;
  errors =
      let before : is_error g.first_error ≡ is_error (watch_error g.watch) =
        v.errors
        ∙ ap (λ p. is_error (watch_error g.watch) || is_error (tests_error p)) r
        ∙ or_false _ in
      first-is_error g.first_error err ∙ ap (λ b. b || is_error err) before;
}
Step-Inv context_ends v = record { test_told = inr refl; watch_told = inr refl; errors = v.errors }

-- In every reachable state a goroutine that has ended has cancelled the context of the other, and the group
-- has an error exactly if the tests have returned one, or the command one that is no cancellation.
pub Reach-Inv : (g : Group) → Reach new_group g → Inv g
unfolding is_error watch_error tests_error
Reach-Inv g here = record { test_told = inl refl; watch_told = inl refl; errors = refl }
Reach-Inv g (next {y} r st) = Step-Inv st (Reach-Inv y r)
