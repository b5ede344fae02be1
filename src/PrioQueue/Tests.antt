-- ===== src/PrioQueue/Tests.antt =====
-- Runs of the queue, and its theorems at concrete queues of numbers.
use baamhackl.Base.{
  Bool, true, ℕ, zero, suc, ◌≤◌, ◌≡◌, refl, [], ◌∷◌, Perm, Option, none, some, arith, ltb, All,
}
use baamhackl.PrioQueue.{
  Item, PrioQueue, ◌>>=◌, empty_queue, push, pop, peek, update, remove, find_item, adapter_push, up,
  up_loop, less_at, swap,
}
use baamhackl.PrioQueue.Swap.{entries, IsIndexed, key}
use baamhackl.PrioQueue.Invariant.{IsValid, Removed}
use baamhackl.PrioQueue.Pop.{pop-Removed}
use baamhackl.PrioQueue.Push.{Added, push-Added}
use baamhackl.PrioQueue.Remove.{remove-Removed}
use baamhackl.PrioQueue.Update.{change_value, update-IsValid}

abbrev by_value : ℕ → ℕ
by_value n = n

-- Every number fits.
abbrev any : ℕ → Bool
any n = true

abbrev item : ℕ → ℕ → ℕ → Item ℕ
item id value index = record { id = id; value = value; index = some index }

abbrev sample : PrioQueue ℕ
sample = record {
  less = ltb;
  items = item 4 1 0 ∷ item 1 2 1 ∷ item 2 5 2 ∷ item 0 9 3 ∷ item 3 4 4 ∷ [];
  next_id = 5;
}

sample-IsIndexed : IsIndexed sample.items
sample-IsIndexed zero x e = ground arith
sample-IsIndexed (suc zero) x e = ground arith
sample-IsIndexed (suc (suc zero)) x e = ground arith
sample-IsIndexed (suc (suc (suc zero))) x e = ground arith
sample-IsIndexed (suc (suc (suc (suc zero)))) x e = ground arith
sample-IsIndexed (suc (suc (suc (suc (suc c))))) x e = ground arith

sample-IsValid : IsValid any by_value sample
unfolding key
sample-IsValid = record {
  order = λ a b _ _. refl;
  fitting = λ c x e. refl;
  heap = grind arith;
  indexed = sample-IsIndexed;
}

pop-Removed_example :
    (id : ℕ) × (a : ℕ) × (r : PrioQueue ℕ) × (peek sample ≡ some a)
    × (pop sample ≡ some (some a, r))
    × Removed any by_value sample id a r
    × All (λ (e : ℕ × ℕ). by_value a ≤ by_value e.1) (entries sample.items)
pop-Removed_example = pop-Removed any by_value sample sample-IsValid (omega arith)

push-Added_example :
    (r : PrioQueue ℕ) × (push sample 3 ≡ some (5, r)) × Added any by_value sample 3 r
push-Added_example = push-Added any by_value sample 3 sample-IsValid refl

remove-Removed_example :
    (r : PrioQueue ℕ) × (remove sample 1 ≡ some (record { id = 1; value = 2; index = none }, r))
    × Removed any by_value sample 1 2 r
unfolding find_item
remove-Removed_example = remove-Removed any by_value sample 1 (item 1 2 1) sample-IsValid refl

-- The value behind pointer 3 grows from 4 to 7.
update-IsValid_example :
    (r : PrioQueue ℕ) × (update (record sample { items = change_value sample.items 3 7 }) 3
      ≡ some r)
    × IsValid any by_value r
    × Perm (entries r.items) (entries (change_value sample.items 3 7))
unfolding find_item
update-IsValid_example =
    update-IsValid any by_value sample 3 (item 3 4 4) 7 sample-IsValid refl refl

-- Five pushes in the order of the pointers build the sample.
abbrev session : Option (PrioQueue ℕ)
session = do
  (_, a) ← push (empty_queue ltb) 9
  (_, b) ← push a 2
  (_, c) ← push b 5
  (_, d) ← push c 4
  (_, e) ← push d 1
  some e

session_result : session ≡ some sample
unfolding push empty_queue adapter_push up up_loop less_at swap
session_result = refl
