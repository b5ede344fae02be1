-- ===== src/Waryio/Tests.antt =====
-- Tests of the model of internal/waryio, on a file system that is the list of the names taken.
use baamhackl.Base.{
  ℕ, zero, suc, ◌≡◌, refl, false, Bool, Option, none, some, List, [], ◌∷◌, inl, inr, ◌==◌, ◌<◌,
  arith, if◌then◌else◌, ◌||◌, Bool-cases,
}
use baamhackl.Waryio.{
  FilePath, FileInfo, IoError, exist, make_available_dir, rename_to_available_name,
}
use baamhackl.Waryio.Available.{
  nth_name, IsFirst, make_available_dir-IsFirst, rename_to_available_name-used,
}

-- Names are single bytes here.
abbrev is_taken : List ℕ → FilePath → Bool
is_taken [] p = false
is_taken (x ∷ xs) [] = false
is_taken (x ∷ xs) (b ∷ p) = x == b || is_taken xs (b ∷ p)

abbrev add_name : List ℕ → FilePath → List ℕ × Option IoError
add_name w p = if is_taken w p then (w, some exist) else (elim p [ [] ↦ w | b ∷ q ↦ b ∷ w ], none)

-- An iterator without an end.
abbrev count_up : ℕ → Option (FilePath × ℕ)
count_up n = some (n ∷ [], suc n)

abbrev old_file : FileInfo
old_file = record { identity = 7; file_type = 0; perm = 420; size = 12; mod_time = 1000 }

first_taken :
    (i : ℕ)
    → i < 2
    → (q : FilePath) × (nth_name count_up 3 i ≡ some q)
      × (add_name (3 ∷ 4 ∷ []) q ≡ (3 ∷ 4 ∷ [], some exist))
unfolding nth_name
first_taken zero l = (3 ∷ [], refl, refl)
first_taken (suc zero) l = (4 ∷ [], refl, refl)
first_taken (suc (suc i)) l = absurd (omega arith)

-- 3 and 4 are taken.
two_taken : IsFirst count_up add_name (3 ∷ 4 ∷ []) 3 2 (5 ∷ []) (5 ∷ 3 ∷ 4 ∷ [])
unfolding IsFirst nth_name
two_taken = (first_taken, refl, refl)

make_available_dir-IsFirst_example :
    make_available_dir add_name count_up 5 (3 ∷ 4 ∷ []) 3 ≡ some (5 ∷ 3 ∷ 4 ∷ [], inr (5 ∷ []))
make_available_dir-IsFirst_example =
    make_available_dir-IsFirst add_name count_up 2 5 (3 ∷ 4 ∷ []) (5 ∷ 3 ∷ 4 ∷ []) 3 (5 ∷ [])
      two_taken (omega arith)

abbrev rename_in : List ℕ → FilePath → FilePath → List ℕ × Option IoError
rename_in w old p = add_name w p

rename_in-is_taken :
    (v v' : List ℕ) (q : FilePath) → rename_in v (9 ∷ []) q ≡ (v', none) → is_taken v q ≡ false
rename_in-is_taken v v' q e = elim (Bool-cases (is_taken v q)) [
  | inl b ↦ absurd (grind arith)
  | inr b ↦ b
]

rename_to_available_name-used_example :
    ((k : ℕ) × (nth_name count_up 3 k ≡ some (4 ∷ [])))
    × (v : List ℕ) × (is_taken v (4 ∷ []) ≡ false)
    × (rename_in v (9 ∷ []) (4 ∷ []) ≡ (4 ∷ 3 ∷ [], none))
unfolding rename_to_available_name
rename_to_available_name-used_example =
    rename_to_available_name-used rename_in count_up is_taken (9 ∷ []) (4 ∷ []) 5 (3 ∷ [])
      (4 ∷ 3 ∷ []) 3 rename_in-is_taken refl
