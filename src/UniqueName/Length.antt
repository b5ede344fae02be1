-- ===== src/UniqueName/Length.antt =====
-- How long the names of internal/uniquename are, and what is left of their parts.
use baamhackl.Base.{
  ℕ, zero, suc, ◌+◌, ◌-◌, ◌<◌, ◌≤◌, ◌≡◌, refl, sym, subst, ap, true, false, none, some, [], ◌∷◌,
  ◌++◌, length, take, leb, ltb, ◌==◌, arith, length-append, Bool-cases, inl, inr, ltb→lt, leb→le,
  ◌⊎◌,
}
use baamhackl.Waryio.{FilePath}
use baamhackl.UniqueName.{
  Positions, drop, trim_prefix, trim_suffix, combine_with_max_len, Generator, Runtime, unique_part,
  next_name, name_max,
}

length-take_le : (n : ℕ) (xs : FilePath) → length (take n xs) ≤ n
length-take_le zero xs = omega arith
length-take_le (suc n) [] = omega arith
length-take_le (suc n) (x ∷ xs) = omega (arith, length-take_le n xs)

length-drop : (n : ℕ) (xs : FilePath) → length (drop n xs) ≡ length xs - n
length-drop zero xs = omega arith
length-drop (suc n) [] = omega arith
length-drop (suc n) (x ∷ xs) = omega (arith, length-drop n xs)

drop-length : (xs : FilePath) → drop (length xs) xs ≡ []
drop-length [] = refl
drop-length (x ∷ xs) = drop-length xs

take-length : (xs : FilePath) → take (length xs) xs ≡ xs
take-length [] = refl
take-length (x ∷ xs) = ap (λ ys. x ∷ ys) (take-length xs)

trim_prefix-length :
    (prefix : FilePath) (others max_bytes : ℕ) (gs : Positions) (cur : FilePath)
    → (length cur ≡ 0) ⊎ (length cur + others ≤ max_bytes)
    → (length (trim_prefix prefix others max_bytes gs cur) ≡ 0)
      ⊎ (length (trim_prefix prefix others max_bytes gs cur) + others ≤ max_bytes)
unfolding trim_prefix
trim_prefix-length prefix others max_bytes [] cur h = h
trim_prefix-length prefix others max_bytes ((start, stop) ∷ gs) cur h =
    elim (Bool-cases (ltb max_bytes (stop + others))) [
      | inl b ↦ rw (b, trim_prefix) h
      | inr b ↦
          let short = length-take_le stop prefix in
          rw (b, trim_prefix)
            (trim_prefix-length prefix others max_bytes gs (take stop prefix) (inr (ground arith)))
    ]

trim_suffix-length :
    (suffix : FilePath) (others max_bytes : ℕ) (gs : Positions)
    → others ≤ max_bytes
    → length (trim_suffix suffix others max_bytes gs) + others ≤ max_bytes
unfolding trim_suffix
trim_suffix-length suffix others max_bytes [] h = omega arith
trim_suffix-length suffix others max_bytes ((start, stop) ∷ gs) h =
    elim (Bool-cases (leb (others + (length suffix - start)) max_bytes)) [
      | inl b ↦
          rw (b, trim_suffix)
            (omega (
              arith,
              length-drop start suffix,
              leb→le (others + (length suffix - start)) max_bytes b,
            ))
      | inr b ↦ rw (b, trim_suffix) (trim_suffix-length suffix others max_bytes gs h)
    ]

-- What is left of the prefix is a part of it from its start, and of the suffix a part up to its end.
trim_prefix-take :
    (prefix : FilePath) (others max_bytes : ℕ) (gs : Positions) (n : ℕ)
    → (k : ℕ) × (trim_prefix prefix others max_bytes gs (take n prefix) ≡ take k prefix)
unfolding trim_prefix
trim_prefix-take prefix others max_bytes [] n = (n, refl)
trim_prefix-take prefix others max_bytes ((start, stop) ∷ gs) n =
    elim (Bool-cases (ltb max_bytes (stop + others))) [
      | inl b ↦ (n, rw (b, trim_prefix) refl)
      | inr b ↦
          let (k, e) = trim_prefix-take prefix others max_bytes gs stop in
          (k, rw (b, trim_prefix) e)
    ]

trim_suffix-drop :
    (suffix : FilePath) (others max_bytes : ℕ) (gs : Positions)
    → (k : ℕ) × (trim_suffix suffix others max_bytes gs ≡ drop k suffix)
unfolding trim_suffix
trim_suffix-drop suffix others max_bytes [] = (length suffix, sym (drop-length suffix))
trim_suffix-drop suffix others max_bytes ((start, stop) ∷ gs) =
    elim (Bool-cases (leb (others + (length suffix - start)) max_bytes)) [
      | inl b ↦ (start, rw (b, trim_suffix) refl)
      | inr b ↦
          let (k, e) = trim_suffix-drop suffix others max_bytes gs in (k, rw (b, trim_suffix) e)
    ]

join-length :
    (p q middle s u : FilePath) (max_bytes : ℕ)
    → p ≡ q
    → s ≡ u
    → length s + (length p + length middle) ≤ max_bytes
    → length (q ++ middle ++ u) ≤ max_bytes
join-length p q middle s u max_bytes e f h =
    let joined : length (p ++ middle ++ s) ≤ max_bytes =
      omega (arith, length-append (p ++ middle) s, length-append p middle) in
    rw (sym e, sym f) joined

combine-joins :
    (graphemes : FilePath → Positions) (prefix middle suffix p s : FilePath) (max_bytes : ℕ)
    → ltb max_bytes (length middle) ≡ false
    → trim_prefix prefix (length middle + length suffix) max_bytes (graphemes prefix) [] ≡ p
    → trim_suffix suffix (length p + length middle) max_bytes (graphemes suffix) ≡ s
    → combine_with_max_len graphemes prefix middle suffix max_bytes ≡ some (p ++ middle ++ s)
unfolding combine_with_max_len
combine-joins graphemes prefix middle suffix p s max_bytes b e f =
    rw (b, e, f, combine_with_max_len) refl

combine-fits :
    (graphemes : FilePath → Positions) (prefix middle suffix : FilePath) (max_bytes : ℕ)
    → ltb max_bytes (length middle) ≡ false
    → (n : ℕ) × (k : ℕ) × (combine_with_max_len graphemes prefix middle suffix max_bytes
        ≡ some (take n prefix ++ middle ++ drop k suffix))
      × (length (take n prefix ++ middle ++ drop k suffix) ≤ max_bytes)
combine-fits graphemes prefix middle suffix max_bytes b =
    let (n, p_is) =
      trim_prefix-take prefix (length middle + length suffix) max_bytes (graphemes prefix) 0 in
    let (k, s_is) =
      trim_suffix-drop suffix (length (take n prefix) + length middle) max_bytes
        (graphemes suffix) in
    let short : (length (take n prefix) ≡ 0)
        ⊎ (length (take n prefix) + (length middle + length suffix) ≤ max_bytes) =
      subst
        (λ (z : FilePath).
          (length z ≡ 0) ⊎ (length z + (length middle + length suffix) ≤ max_bytes))
        p_is
        (trim_prefix-length prefix (length middle + length suffix) max_bytes (graphemes prefix) []
          (inl refl)) in
    let middle_fits : length middle ≤ max_bytes = ground arith in
    let room : length (take n prefix) + length middle ≤ max_bytes = elim short [
      | inl e ↦ omega arith
      | inr l ↦ omega arith
    ] in
    let all_short =
      trim_suffix-length suffix (length (take n prefix) + length middle) max_bytes
        (graphemes suffix) room in
    (
      n,
      k,
      combine-joins graphemes prefix middle suffix (take n prefix) (drop k suffix) max_bytes b p_is
          s_is,
      join-length (take n prefix) (take n prefix) middle _ (drop k suffix) max_bytes refl s_is
          all_short,
    )

-- combineWithMaxLen panics if and only if the middle part is too long. Otherwise its result is a start
-- of the prefix, the whole middle part and an end of the suffix, of no more than max_bytes bytes.
pub combine_with_max_len-length :
    (graphemes : FilePath → Positions) (prefix middle suffix : FilePath) (max_bytes : ℕ)
    → ((combine_with_max_len graphemes prefix middle suffix max_bytes ≡ none)
        × (max_bytes < length middle))
      ⊎ ((n : ℕ) × (k : ℕ) × (combine_with_max_len graphemes prefix middle suffix max_bytes
            ≡ some (take n prefix ++ middle ++ drop k suffix))
          × (length (take n prefix ++ middle ++ drop k suffix) ≤ max_bytes))
unfolding combine_with_max_len
combine_with_max_len-length graphemes prefix middle suffix max_bytes =
    elim (Bool-cases (ltb max_bytes (length middle))) [
      | inl b ↦ inl (rw (b, combine_with_max_len) refl, ltb→lt max_bytes (length middle) b)
      | inr b ↦ inr (combine-fits graphemes prefix middle suffix max_bytes b)
    ]

-- The segmentation of a string of `total` bytes, from the byte `start` on: the graphemes follow one
-- another up to its end.
abbrev pub IsSplit : ℕ → ℕ → Positions → Type 0
IsSplit start total [] = start ≡ total
IsSplit start total ((a, b) ∷ gs) = (a ≡ start) × (a < b) × (b ≤ total) × IsSplit b total gs

trim_prefix-whole :
    (prefix : FilePath) (others max_bytes : ℕ) (gs : Positions) (n : ℕ)
    → length prefix + others ≤ max_bytes
    → IsSplit n (length prefix) gs
    → trim_prefix prefix others max_bytes gs (take n prefix) ≡ prefix
unfolding trim_prefix
trim_prefix-whole prefix others max_bytes [] n h e = rw e (take-length prefix)
trim_prefix-whole prefix others max_bytes ((a, b) ∷ gs) n h (a_is, a_lt, b_le, rest) =
    let fits : ltb max_bytes (b + others) ≡ false = ground arith in
    rw (fits, trim_prefix) (trim_prefix-whole prefix others max_bytes gs b h rest)

trim_suffix-whole :
    (suffix : FilePath) (others max_bytes : ℕ) (gs : Positions)
    → others + length suffix ≤ max_bytes
    → IsSplit 0 (length suffix) gs
    → trim_suffix suffix others max_bytes gs ≡ suffix
unfolding trim_suffix
trim_suffix-whole [] others max_bytes [] h e = refl
trim_suffix-whole (x ∷ suffix) others max_bytes [] h e = absurd (omega arith)
trim_suffix-whole suffix others max_bytes ((a, b) ∷ gs) h (a_is, a_lt, b_le, rest) =
    let fits : leb (others + (length suffix - a)) max_bytes ≡ true = ground arith in
    rw (fits, trim_suffix) (rw a_is refl)

-- Where the three parts fit together, and the graphemes make up the prefix and the suffix,
-- combineWithMaxLen cuts nothing off.
pub combine_with_max_len-whole :
    (graphemes : FilePath → Positions) (prefix middle suffix : FilePath) (max_bytes : ℕ)
    → IsSplit 0 (length prefix) (graphemes prefix)
    → IsSplit 0 (length suffix) (graphemes suffix)
    → length prefix + length middle + length suffix ≤ max_bytes
    → combine_with_max_len graphemes prefix middle suffix max_bytes
      ≡ some (prefix ++ middle ++ suffix)
combine_with_max_len-whole graphemes prefix middle suffix max_bytes p s h =
    combine-joins graphemes prefix middle suffix prefix suffix max_bytes (ground arith)
      (trim_prefix-whole prefix (length middle + length suffix) max_bytes (graphemes prefix) 0
        (omega arith) p)
      (trim_suffix-whole suffix (length prefix + length middle) max_bytes (graphemes suffix)
        (omega arith) s)

unique_part-length :
    (rt : Runtime) (g : Generator)
    → length rt.random_hex ≤ 252
    → length (rt.format_time g.time_suffix) ≤ 252
    → length (unique_part rt g) ≤ name_max
unfolding unique_part
unique_part-length rt g h k = elim (Bool-cases (g.time_suffix == 0)) [
  | inl b ↦ rw (b, unique_part) (omega (arith, length-append rt.random_hex (41 ∷ [])))
  | inr b ↦
      rw (b, unique_part) (omega (arith, length-append (rt.format_time g.time_suffix) (41 ∷ [])))
]

next_name-later :
    (rt : Runtime) (g : Generator) (name : FilePath)
    → g.original_name ≡ []
    → combine_with_max_len rt.graphemes
        (g.time_prefix ++ g.prefix)
        (unique_part rt g)
        g.suffix
        name_max
      ≡ some name
    → next_name rt g ≡ some (name, record g { time_suffix = 0 })
unfolding next_name
next_name-later rt g name e f = grind arith

-- After the first name, which is the original one behind the time, Next does not panic and no name has
-- more than 255 bytes, where the random number and the time have at most 252.
pub next_name-length :
    (rt : Runtime) (g : Generator)
    → g.original_name ≡ []
    → length rt.random_hex ≤ 252
    → length (rt.format_time g.time_suffix) ≤ 252
    → (name : FilePath) × (g' : Generator) × (next_name rt g ≡ some (name, g'))
      × (length name ≤ name_max)
      × (g'.original_name ≡ [])
      × (g'.time_suffix ≡ 0)
next_name-length rt g e h k =
    let short = unique_part-length rt g h k in
    elim (combine_with_max_len-length rt.graphemes (g.time_prefix ++ g.prefix) (unique_part rt g)
      g.suffix name_max) [
        | inl (panics, long) ↦ absurd (omega arith)
        | inr (n, m, joins, bound) ↦
            (_, record g { time_suffix = 0 }, next_name-later rt g _ e joins, bound, e, refl)
      ]
