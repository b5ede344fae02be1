-- ===== src/Handler/Tests.antt =====
-- Tests of the handling of a changed file. Numbers stand in for floating point ones.
use baamhackl.Base.{
  ℕ, zero, suc, ◌+◌, ◌*◌, ◌<◌, ◌≤◌, ◌≡◌, refl, ◌↔◌, ◌⊎◌, inl, inr, true, false, Option, none, some,
  [], ◌∷◌, leb, if◌then◌else◌, arith,
}
use baamhackl.Base.Int.{ℤ, pos, negsuc, pos_part, neg_part, ◌≤ℤ◌}
use baamhackl.Scheduler.{stop_delay}
use baamhackl.Waryio.{FilePath, FileInfo, not_exist, other, Result}
use baamhackl.Handler.Attempt
use baamhackl.Handler.Attempt.{Options, Errors, run, validate_changed_file, is_nil}
use baamhackl.Handler.Attempt.Outcome.{
  Succeeds, IsArchived, after_command, command_error, IsRegular, run-Succeeds, run-permanent,
  run-IsArchived,
}
use baamhackl.Handler.Retry.{FloatOps, RetryConfig, new, current}
use baamhackl.Handler.Retry.Delays.{FloatLaws, IsLimited, advance_times, retry-delays}
use baamhackl.Handler.Task
use baamhackl.Handler.Task.{HandlerTask, new_task}
use baamhackl.Watch.{Handler, no_metrics}
use baamhackl.Watch.Handled.{handled, IsHandled, new_task-IsHandled}

abbrev whole_numbers : FloatOps ℕ
whole_numbers = record {
  of_duration = pos_part;
  to_duration = pos;
  add = λ x y. x + y;
  mul = λ x y. x * y;
  neg = λ x. x;
  half = λ x. x;
  min = λ x y. if leb x y then x else y;
}

abbrev IsNatural : ℤ → Type 0
IsNatural d = neg_part d ≡ 0

le_mul_of_one_le : (d f : ℕ) → 1 ≤ f → d ≤ d * f
le_mul_of_one_le d zero h = absurd (omega arith)
le_mul_of_one_le d (suc f) h = grind arith

pos_part_le : (d e : ℤ) → d ≤ℤ e → pos_part d ≤ pos_part e
pos_part_le (pos a) (pos b) h = omega arith
pos_part_le (pos a) (negsuc b) h = omega arith
pos_part_le (negsuc a) (pos b) h = omega arith
pos_part_le (negsuc a) (negsuc b) h = omega arith

min_le : (x y : ℕ) → (if leb x y then x else y) ≤ y
min_le x y = ground arith

le_min : (x y z : ℕ) → z ≤ x → z ≤ y → z ≤ (if leb x y then x else y)
le_min x y z h k = ground arith

whole_laws : FloatLaws whole_numbers 1 IsNatural
whole_laws = record {
  le = λ x y. x ≤ y;
  of_duration_le = pos_part_le;
  le_mul = λ d f h k. le_mul_of_one_le (pos_part d) f k;
  min_le = min_le;
  le_min = le_min;
  convert = λ d e x d_nat e_nat h k. (omega arith, omega arith, refl);
}

abbrev config : RetryConfig ℕ
config = record {
  retry_count = pos 2;
  retry_delay_initial = pos 15;
  retry_delay_factor = 3;
  retry_delay_max = pos 60;
}

config-IsLimited : IsLimited whole_numbers 1 IsNatural whole_laws config 2
unfolding whole_laws
config-IsLimited = record {
  counted = refl;
  positive = omega arith;
  limit = refl;
  below_limit = omega arith;
  grows = omega arith;
  initial_exact = refl;
  max_exact = refl;
}

retry-delays_example :
    ((n : ℕ)
      → n < 2
      → (pos 15 ≤ℤ current (advance_times whole_numbers n (new config)))
        × (current (advance_times whole_numbers n (new config)) ≤ℤ pos 60)
        × (current (advance_times whole_numbers n (new config))
            ≤ℤ (advance_times whole_numbers (suc n) (new config)).delay))
    × (current (advance_times whole_numbers 2 (new config)) ≡ stop_delay)
retry-delays_example = retry-delays whole_laws config 2 config-IsLimited

-- The world is the size of the one file, if it exists.
abbrev regular : ℕ → FileInfo
regular n = record { identity = 1; file_type = 0; perm = 420; size = n; mod_time = 7 }

abbrev look : Option ℕ → FilePath → Result FileInfo
look none p = inl not_exist
look (some n) p = inr (regular n)

abbrev failing : Attempt.Calls (Option ℕ)
failing = record {
  lstat = look;
  run_command = λ w. (w, some (other 5));
  move_to_archive = λ w p success. (none, inr (1 ∷ p));
}

abbrev last_attempt : Options (Option ℕ)
last_attempt = record { changed_file = 9 ∷ []; final = true; acquire_lock = some (λ w. w) }

run-Succeeds_example : ((run failing last_attempt (some 4)).2 ≡ []) ↔ (
    (b : FileInfo) × IsRegular failing last_attempt (some 4) b
    × Succeeds failing last_attempt b
        (after_command failing last_attempt (some 4))
        (command_error failing (some 4)))
run-Succeeds_example = run-Succeeds failing last_attempt (some 4)

run-permanent_example : ((run failing last_attempt none).1 ≡ true) ↔ (
    (¬ ((b : FileInfo) × IsRegular failing last_attempt none b))
    ⊎ (look (after_command failing last_attempt none) (9 ∷ []) ≡ inl not_exist))
run-permanent_example = run-permanent failing last_attempt none

run-IsArchived_example :
    (IsArchived failing last_attempt
        (regular 4)
        (after_command failing last_attempt (some 4))
        (command_error failing (some 4))
      × ((run failing last_attempt (some 4)).0
          ≡ (failing.move_to_archive
              (after_command failing last_attempt (some 4))
              (9 ∷ [])
              (is_nil (command_error failing (some 4)))).0))
    ⊎ ((¬ IsArchived failing last_attempt
          (regular 4)
          (after_command failing last_attempt (some 4))
          (command_error failing (some 4)))
        × ((run failing last_attempt (some 4)).0 ≡ after_command failing last_attempt (some 4)))
run-IsArchived_example = run-IsArchived failing last_attempt (some 4) (regular 4) (refl, refl)

-- Every attempt fails, and the world counts them.
abbrev always_failing : Task.Calls ℕ
always_failing = record {
  create_task_dir = λ w. (w, inr (1 ∷ []));
  open_log = λ w p. (w, none);
  close_log = λ w. (w, none);
  ensure_attempt_dir = λ w p n. (w, inr (n ∷ p));
  invoke = λ w p final. (w + 1, false, other 5 ∷ []);
}

abbrev handler : Handler
handler = record {
  path = 47 ∷ 119 ∷ [];
  pending = (97 ∷ [], 4) ∷ (98 ∷ [], 5) ∷ [];
  mc = no_metrics;
}

new_task-IsHandled_example :
    (k : ℕ) × (0 < k)
    × (k ≤ 3)
    × ((h' : Handler) × (handled always_failing whole_numbers whole_numbers
            (λ es. 0)
            config
            1
            (λ n. 0)
            (97 ∷ [])
            3
            new_task
            0
            handler
          ≡ some h')
        × IsHandled always_failing whole_numbers whole_numbers
            (λ es. 0)
            config
            1
            (λ n. 0)
            (97 ∷ [])
            handler
            k
            h')
new_task-IsHandled_example =
    new_task-IsHandled always_failing whole_numbers whole_numbers (λ es. 0) config 1 (λ n. 0)
      (97 ∷ []) 2 0 handler (λ n. refl) refl
