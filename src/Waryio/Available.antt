-- ===== src/Waryio/Available.antt =====
-- The loops of internal/waryio/mkdir.go and rename.go: which name they end on, and that they end.
use baamhackl.Base.{
  ℕ, zero, suc, ◌<◌, Bool, false, Option, none, some, ◌≡◌, refl, sym, ◌∙◌, inl, inr, arith,
  Option-cases, Bool-cases,
}
use baamhackl.Waryio.{
  FilePath, IoError, exist, try_from, try_names, is_exist, make_available_dir,
  rename_to_available_name,
}

module _ {G : Type 0} (next : G → Option (FilePath × G)) where
  -- The iterator's name number k.
  unfoldable pub nth_name : G → ℕ → Option FilePath
  nth_name g zero = elim (next g) [ none ↦ none | some (p, g') ↦ some p ]
  nth_name g (suc k) = elim (next g) [ none ↦ none | some (p, g') ↦ nth_name g' k ]

  nth_name-suc :
      (g g' : G) (q : FilePath) (k : ℕ) → next g ≡ some (q, g') → nth_name g (suc k) ≡ nth_name g' k
  unfolding nth_name
  nth_name-suc g g' q k n = rw (n, nth_name) refl

  nth_name-zero : (g g' : G) (q : FilePath) → next g ≡ some (q, g') → nth_name g 0 ≡ some q
  unfolding nth_name
  nth_name-zero g g' q n = rw (n, nth_name) refl

  -- If there is a name number k, the iterator goes on to a first one.
  next_of_nth_name :
      (g : G) (k : ℕ) (p : FilePath)
      → nth_name g k ≡ some p
      → (x : FilePath × G) × (next g ≡ some x)
  unfolding nth_name
  next_of_nth_name g zero p e = elim (Option-cases (next g)) [
    | inl n ↦ absurd (grind arith)
    | inr x ↦ x
  ]
  next_of_nth_name g (suc k) p e = elim (Option-cases (next g)) [
    | inl n ↦ absurd (grind arith)
    | inr x ↦ x
  ]

module _ {W G : Type 0} (next : G → Option (FilePath × G))
    (op : W → FilePath → W × Option IoError) where
  -- In the state w the names before number k all exist, and the call on number k, p, succeeds with
  -- the state w'.
  unfoldable pub IsFirst : W → G → ℕ → FilePath → W → Type 0
  IsFirst w g k p w' =
      ((i : ℕ) → i < k → (q : FilePath) × (nth_name next g i ≡ some q) × (op w q ≡ (w, some exist)))
      × (nth_name next g k ≡ some p)
      × (op w p ≡ (w', none))

  try_from-free :
      (n : ℕ) (w w' : W) (q : FilePath) (g : G)
      → op w q ≡ (w', none)
      → try_from next op (suc n) w q g ≡ some (w', inr q)
  unfolding try_from
  try_from-free n w w' q g e = grind arith

  try_from-taken :
      (n : ℕ) (w : W) (q q' : FilePath) (g g' : G)
      → op w q ≡ (w, some exist)
      → next g ≡ some (q', g')
      → try_from next op (suc n) w q g ≡ try_from next op n w q' g'
  unfolding try_from is_exist
  try_from-taken n w q q' g g' e f = grind arith

  try_from-IsFirst :
      (k fuel : ℕ) (w w' : W) (g g' : G) (q p : FilePath)
      → next g ≡ some (q, g')
      → IsFirst w g k p w'
      → k < fuel
      → try_from next op fuel w q g' ≡ some (w', inr p)
  unfolding IsFirst
  try_from-IsFirst k zero w w' g g' q p n h l = absurd (omega arith)
  try_from-IsFirst zero (suc fuel) w w' g g' q p n h l =
      let q_is_p : q ≡ p = cc (nth_name-zero next g g' q n, h.1) in
      rw q_is_p (try_from-free fuel w w' p g' h.2)
  try_from-IsFirst (suc k) (suc fuel) w w' g g' q p n (taken, named, free) l =
      let (r, r_named, r_taken) = taken 0 (omega arith) in
      let q_is_r : q ≡ r = cc (nth_name-zero next g g' q n, r_named) in
      let named' : nth_name next g' k ≡ some p = sym (nth_name-suc next g g' q k n) ∙ named in
      let ((q', g''), n') = next_of_nth_name next g' k p named' in
      let taken' : (i : ℕ)
          → i < k
          → (s : FilePath) × (nth_name next g' i ≡ some s) × (op w s ≡ (w, some exist)) =
        λ i i_lt.
          let (s, e, f) = taken (suc i) (omega arith) in
          (s, sym (nth_name-suc next g g' q i n) ∙ e, f) in
      try_from-taken fuel w q q' g' g'' (rw q_is_r r_taken) n'
      ∙ try_from-IsFirst k fuel w w' g' g'' q' p n' (taken', named', free) (omega arith)

  try_names-some :
      (fuel : ℕ) (w : W) (g g' : G) (q : FilePath)
      → next g ≡ some (q, g')
      → try_names next op fuel w g ≡ try_from next op fuel w q g'
  unfolding try_names
  try_names-some fuel w g g' q n = rw (n, try_names) refl

  -- If a first name is free, the loop ends on it: more fuel than names before it is enough.
  pub try_names-IsFirst :
      (k fuel : ℕ) (w w' : W) (g : G) (p : FilePath)
      → IsFirst w g k p w'
      → k < fuel
      → try_names next op fuel w g ≡ some (w', inr p)
  unfolding IsFirst
  try_names-IsFirst k fuel w w' g p h l =
      let ((q, g'), n) = next_of_nth_name next g k p h.1 in
      try_names-some fuel w g g' q n ∙ try_from-IsFirst k fuel w w' g g' q p n h l

  -- Whatever the loop returns as the path used is a name of the iterator, and the call succeeded on
  -- it as the last thing that happened to the file system.
  try_from-used :
      (fuel : ℕ) (w w' : W) (g g' : G) (q p : FilePath)
      → next g ≡ some (q, g')
      → try_from next op fuel w q g' ≡ some (w', inr p)
      → (k : ℕ) × (nth_name next g k ≡ some p) × (v : W) × (op v p ≡ (w', none))
  unfolding try_from
  try_from-used zero w w' g g' q p n e = absurd (grind arith)
  try_from-used (suc fuel) w w' g g' q p n e = elim (Option-cases (op w q).1) [
    | inl free ↦ (0, nth_name-zero next g g' p (grind arith), w, grind arith)
    | inr (er, taken) ↦ elim (Option-cases (next g')) [
      | inl over ↦ absurd (grind arith)
      | inr ((q', g''), n') ↦
          let (k, named, v, ok) =
            try_from-used fuel (op w q).0 w' g' g'' q' p n' (elim (Bool-cases (is_exist er)) [
              | inl b ↦ grind arith
              | inr b ↦ absurd (grind arith)
            ]) in
          (suc k, nth_name-suc next g g' q k n ∙ named, v, ok)
    ]
  ]

  pub try_names-used :
      (fuel : ℕ) (w w' : W) (g : G) (p : FilePath)
      → try_names next op fuel w g ≡ some (w', inr p)
      → (k : ℕ) × (nth_name next g k ≡ some p) × (v : W) × (op v p ≡ (w', none))
  unfolding try_names
  try_names-used fuel w w' g p e = elim (Option-cases (next g)) [
    | inl n ↦ absurd (grind arith)
    | inr ((q, g'), n) ↦
        try_from-used fuel w w' g g' q p n (sym (try_names-some fuel w g g' q n) ∙ e)
  ]

-- MakeAvailableDir creates the first directory that does not exist yet among the names of the
-- iterator, if there is one: with more fuel than the names before it the loop ends there.
pub make_available_dir-IsFirst :
    {W G : Type 0} (mkdir : W → FilePath → W × Option IoError) (next : G → Option (FilePath × G))
    (k fuel : ℕ) (w w' : W) (g : G) (p : FilePath)
    → IsFirst next mkdir w g k p w'
    → k < fuel
    → make_available_dir mkdir next fuel w g ≡ some (w', inr p)
unfolding make_available_dir
make_available_dir-IsFirst mkdir next = try_names-IsFirst next mkdir

-- RenameToAvailableName never replaces a file: if a rename without replacement succeeds only where
-- nothing exists, then the path that it returns is one of the iterator's, nothing existed there, and
-- renaming the old path to it is the last thing that happened.
pub rename_to_available_name-used :
    {W G : Type 0} (rename_without_replace : W → FilePath → FilePath → W × Option IoError)
    (next : G → Option (FilePath × G)) (exists : W → FilePath → Bool) (old p : FilePath) (fuel : ℕ)
    (w w' : W) (g : G)
    → ((v v' : W) (q : FilePath) → rename_without_replace v old q ≡ (v', none) → exists v q ≡ false)
    → rename_to_available_name rename_without_replace old next fuel w g ≡ some (w', inr p)
    → ((k : ℕ) × (nth_name next g k ≡ some p))
      × (v : W) × (exists v p ≡ false)
      × (rename_without_replace v old p ≡ (w', none))
unfolding rename_to_available_name
rename_to_available_name-used rename_without_replace next exists old p fuel w w' g no_replace e =
    let (k, named, v, ok) =
      try_names-used next (λ u q. rename_without_replace u old q) fuel w w' g p e in
    ((k, named), v, no_replace v w' p ok, ok)
