-- ===== src/UniqueName.antt =====
-- internal/uniquename: the names that are tried for a file (text.go, and Generator.Next of
-- uniquename.go). The segmentation into graphemes of rivo/uniseg is a parameter. A panic is `none`.
pub mod Length
pub mod Create
pub mod RoundTrip
mod Tests
use baamhackl.Base.{
  ℕ, zero, suc, ◌+◌, ◌-◌, Option, none, some, List, [], ◌∷◌, ◌++◌, length, take, leb, ltb, ◌==◌,
  if◌then◌else◌,
}
use baamhackl.Waryio.{FilePath}

-- What Positions returns for each grapheme: the bytes at which it starts and ends.
abbrev pub Positions : Type 0
Positions = List (ℕ × ℕ)

-- xs[n:]
abbrev pub drop : ℕ → FilePath → FilePath
drop zero xs = xs
drop (suc n) [] = []
drop (suc n) (x ∷ xs) = drop n xs

-- combineWithMaxLen, its first loop, where `others` is len(middle)+len(suffix).
unfoldable pub trim_prefix : FilePath → ℕ → ℕ → Positions → FilePath → FilePath
trim_prefix prefix others max_bytes [] cur = cur
trim_prefix prefix others max_bytes ((start, stop) ∷ gs) cur =
    let rest = trim_prefix prefix others max_bytes gs (take stop prefix) in
    if ltb max_bytes (stop + others) then cur else rest

-- Its second loop, where `others` is len(prefix)+len(middle).
unfoldable pub trim_suffix : FilePath → ℕ → ℕ → Positions → FilePath
trim_suffix suffix others max_bytes [] = []
trim_suffix suffix others max_bytes ((start, stop) ∷ gs) =
    let rest = trim_suffix suffix others max_bytes gs in
    if leb (others + (length suffix - start)) max_bytes then drop start suffix else rest

-- combineWithMaxLen
unfoldable pub combine_with_max_len :
    (FilePath → Positions) → FilePath → FilePath → FilePath → ℕ → Option FilePath
unfolding trim_prefix trim_suffix
combine_with_max_len graphemes prefix middle suffix max_bytes =
    let p = trim_prefix prefix (length middle + length suffix) max_bytes (graphemes prefix) [] in
    let s = trim_suffix suffix (length p + length middle) max_bytes (graphemes suffix) in
    if ltb max_bytes (length middle) then none else some (p ++ middle ++ s)

-- Generator. A zero `time_suffix` is the Time whose IsZero holds.
pub record Generator : Type 0 where
  pub dir : FilePath
  pub time_prefix : FilePath
  pub prefix : FilePath
  pub suffix : FilePath
  pub original_name : FilePath
  pub time_suffix : ℕ

-- What Next calls: the graphemes, filepath.Join, FormatInt of a random number with base 16, and Format
-- of the time suffix.
pub record Runtime : Type 0 where
  pub graphemes : FilePath → Positions
  pub join : FilePath → FilePath → FilePath
  pub random_hex : FilePath
  pub format_time : ℕ → FilePath

abbrev pub name_max : ℕ
name_max = 255

-- The part of Next that tells names apart: 32, 40 and 41 are a space and the parentheses.
unfoldable pub unique_part : Runtime → Generator → FilePath
unique_part rt g =
    (32 ∷ 40 ∷ [])
    ++ ((if g.time_suffix == 0 then rt.random_hex else rt.format_time g.time_suffix) ++ 41 ∷ [])

-- Next, up to the name without its directory.
unfoldable pub next_name : Runtime → Generator → Option (FilePath × Generator)
unfolding unique_part combine_with_max_len
next_name rt g = elim g.original_name [
  | b ∷ name ↦ some (g.time_prefix ++ (b ∷ name), record g { original_name = [] })
  | [] ↦
      elim (combine_with_max_len rt.graphemes (g.time_prefix ++ g.prefix) (unique_part rt g)
        g.suffix name_max) [ none ↦ none | some name ↦ some (name, record g { time_suffix = 0 }) ]
]

-- Next, which always has a path.
unfoldable pub next : Runtime → Generator → Option (FilePath × Generator)
unfolding next_name
next rt g = elim (next_name rt g) [ none ↦ none | some (name, g') ↦ some (rt.join g.dir name, g') ]
