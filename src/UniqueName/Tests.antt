-- ===== src/UniqueName/Tests.antt =====
-- Tests of the names of internal/uniquename, with a grapheme for every byte.
use baamhackl.Base.{ℕ, zero, suc, Option, ◌≤◌, ◌≡◌, refl, none, some, [], ◌∷◌, ◌++◌, length, arith}
use baamhackl.Waryio.{FilePath}
use baamhackl.UniqueName.{Positions, combine_with_max_len, Generator, Runtime, next_name, name_max}
use baamhackl.UniqueName.Create.{
  Clock, default_options, create, extract_time, make_generator, split_dir, split_name, extension,
  trim_right, is_space, is_re_space, is_hex, remove_suffixes, match_suffix, match_hex, skip_while,
}
use baamhackl.UniqueName.RoundTrip.{extract_time-next_name}
use baamhackl.UniqueName.Length.{next_name-length}

abbrev bytes_from : ℕ → FilePath → Positions
bytes_from n [] = []
bytes_from n (x ∷ xs) = (n, suc n) ∷ bytes_from (suc n) xs

abbrev runtime : Runtime
runtime = record {
  graphemes = bytes_from 0;
  join = λ dir name. dir ++ 47 ∷ name;
  random_hex = 102 ∷ 49 ∷ [];
  format_time = λ t. t ∷ [];
}

-- "file.txt" below "d", after its first name.
abbrev generator : Generator
generator = record {
  dir = 100 ∷ [];
  time_prefix = 50 ∷ 32 ∷ [];
  prefix = 102 ∷ 105 ∷ 108 ∷ 101 ∷ [];
  suffix = 46 ∷ 116 ∷ 120 ∷ 116 ∷ [];
  original_name = [];
  time_suffix = 0;
}

-- Two bytes of the prefix are left where six are the limit: "abcd", "(1)", "x".
combined :
    combine_with_max_len (bytes_from 0) (97 ∷ 98 ∷ 99 ∷ 100 ∷ []) (40 ∷ 49 ∷ 41 ∷ []) (120 ∷ []) 6
    ≡ some (97 ∷ 98 ∷ 40 ∷ 49 ∷ 41 ∷ 120 ∷ [])
unfolding combine_with_max_len
combined = refl

next_name-length_example :
    (name : FilePath) × (g' : Generator) × (next_name runtime generator ≡ some (name, g'))
    × (length name ≤ name_max)
    × (g'.original_name ≡ [])
    × (g'.time_suffix ≡ 0)
next_name-length_example = next_name-length runtime generator refl (omega arith) (omega arith)

abbrev first_byte : FilePath → Option ℕ
first_byte [] = none
first_byte (c ∷ s) = some c

-- A clock whose times are single letters, without a zone, which the layout 1 needs.
abbrev letters : Clock
letters = record {
  now = 116;
  format = λ layout t. t ∷ [];
  parse = λ layout s. elim layout [ zero ↦ first_byte s | suc n ↦ none ];
}

-- "d/f (1a).txt" gives the prefix "f" and the suffix ".txt".
abbrev created : Generator
created = record {
  dir = 100 ∷ 47 ∷ [];
  time_prefix = 116 ∷ 32 ∷ [];
  prefix = 102 ∷ [];
  suffix = 46 ∷ 116 ∷ 120 ∷ 116 ∷ [];
  original_name = 102 ∷ 32 ∷ 40 ∷ 49 ∷ 97 ∷ 41 ∷ 46 ∷ 116 ∷ 120 ∷ 116 ∷ [];
  time_suffix = 0;
}

abbrev long_path : FilePath
long_path = 100 ∷ 47 ∷ 102 ∷ 32 ∷ 40 ∷ 49 ∷ 97 ∷ 41 ∷ 46 ∷ 116 ∷ 120 ∷ 116 ∷ []

create_long : create letters long_path default_options ≡ some created
unfolding create make_generator split_dir split_name extension trim_right is_space is_re_space
    is_hex remove_suffixes match_suffix match_hex skip_while
create_long = refl

extract_time-next_name_example :
    (name : FilePath) × (g' : Generator) × (next_name runtime created ≡ some (name, g'))
    × (extract_time letters name default_options ≡ some 116)
unfolding is_space is_re_space
extract_time-next_name_example =
    extract_time-next_name runtime letters long_path default_options created (1 ∷ []) [] 116 refl
      (λ e. cc) (refl, tt) (omega arith, tt) refl (refl, tt) refl create_long
