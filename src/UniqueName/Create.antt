-- ===== src/UniqueName/Create.antt =====
-- internal/uniquename/uniquename.go: New, and ExtractTime. Texts are bytes; a space is one of ASCII, as
-- in the layouts of the options. Time formatting and parsing are parameters.
use baamhackl.Base.{
  ℕ, zero, suc, ◌-◌, Bool, true, ◌&&◌, ◌||◌, Option, none, some, List, [], ◌∷◌, ◌++◌, length, take,
  ltb, leb, ◌==◌, if◌then◌else◌,
}
use baamhackl.FilePaths.{FilePath, slash}
use baamhackl.UniqueName.{Generator}

-- Options
pub record Options : Type 0 where
  pub time_prefix_enabled : Bool
  pub time_prefix_layout : ℕ
  pub time_prefix_supported_layouts : List ℕ
  pub before_extension : Bool
  pub max_extension_length : ℕ

-- DefaultOptions; a layout is a number: 1 for the one with the zone, 0 for the other.
abbrev pub default_options : Options
default_options = record {
  time_prefix_enabled = true;
  time_prefix_layout = 0;
  time_prefix_supported_layouts = 1 ∷ 0 ∷ [];
  before_extension = true;
  max_extension_length = 10;
}

-- What the global Runtime and package time give: the time now, Format, and ParseInLocation.
pub record Clock : Type 0 where
  pub now : ℕ
  pub format : ℕ → ℕ → FilePath
  pub parse : ℕ → FilePath → Option ℕ

-- \s of a regular expression, and unicode.IsSpace on ASCII, which has "\v" too.
unfoldable pub is_re_space : ℕ → Bool
is_re_space c = c == 32 || c == 9 || c == 10 || c == 12 || c == 13

unfoldable pub is_space : ℕ → Bool
unfolding is_re_space
is_space c = is_re_space c || c == 11

unfoldable pub is_hex : ℕ → Bool
is_hex c = (leb 48 c && leb c 57) || (leb 97 c && leb c 102) || (leb 65 c && leb c 70)

unfoldable pub skip_while : (ℕ → Bool) → FilePath → FilePath
skip_while f [] = []
skip_while f (c ∷ s) = let rest = skip_while f s in if f c then rest else c ∷ s

-- strings.TrimRightFunc
unfoldable pub trim_right : (ℕ → Bool) → FilePath → FilePath
trim_right f [] = []
trim_right f (c ∷ s) = elim (trim_right f s) [ [] ↦ if f c then [] else c ∷ [] | d ∷ t ↦ c ∷ d ∷ t ]

-- The text before the first byte that satisfies `f`.
unfoldable pub before_first : (ℕ → Bool) → FilePath → FilePath
before_first f [] = []
before_first f (c ∷ s) = let rest = before_first f s in if f c then [] else c ∷ rest

-- filepath.Split: the directory with its slash, and the name.
unfoldable pub split_dir : FilePath → FilePath × FilePath
split_dir [] = ([], [])
split_dir (c ∷ s) =
    let (dir, name) = split_dir s in
    elim dir [
      | d ∷ ds ↦ (c ∷ d ∷ ds, name)
      | [] ↦ if c == slash then (c ∷ [], name) else ([], c ∷ name)
    ]

-- filepath.Ext of a name: from the last dot on.
unfoldable pub extension : FilePath → FilePath
extension [] = []
extension (c ∷ s) = elim (extension s) [ d ∷ t ↦ d ∷ t | [] ↦ if c == 46 then c ∷ s else [] ]

-- A match of suffixRe at the start, `\s+\([0-9a-fA-F]+\)\s*`: the rest of the text behind it.
unfoldable pub match_hex : FilePath → Option FilePath
unfolding skip_while is_hex is_re_space
match_hex [] = none
match_hex (c ∷ s) =
    let after = skip_while is_hex s in
    if is_hex c
    then elim after [
      | [] ↦ none
      | d ∷ t ↦ if d == 41 then some (skip_while is_re_space t) else none
    ]
    else none

unfoldable pub match_suffix : FilePath → Option FilePath
unfolding match_hex skip_while is_re_space
match_suffix [] = none
match_suffix (c ∷ s) =
    let after = skip_while is_re_space s in
    if is_re_space c
    then elim after [ [] ↦ none | d ∷ t ↦ if d == 40 then match_hex t else none ]
    else none

-- ReplaceAllLiteralString with "": as many rounds as there are bytes are enough.
unfoldable pub remove_suffixes : ℕ → FilePath → FilePath
unfolding match_suffix
remove_suffixes zero s = s
remove_suffixes (suc n) [] = []
remove_suffixes (suc n) (c ∷ s) = elim (match_suffix (c ∷ s)) [
  | some rest ↦ remove_suffixes n rest
  | none ↦ c ∷ remove_suffixes n s
]

-- New's split of the name at its extension: prefix and suffix.
unfoldable pub split_name : Options → FilePath → FilePath × FilePath
unfolding extension
split_name opts name =
    let ext = extension name in
    let base = take (length name - length ext) name in
    if opts.before_extension
      && ltb 0 opts.max_extension_length
      && ltb (length ext) opts.max_extension_length
    then elim base [ [] ↦ (ext, []) | c ∷ s ↦ (c ∷ s, ext) ]
    else (name, [])

-- New, for a name that is not empty.
unfoldable pub make_generator : Clock → Options → FilePath → FilePath → Generator
make_generator clock opts dir name =
    let (prefix, suffix) = split_name opts name in
    let stamp = trim_right is_space (clock.format opts.time_prefix_layout clock.now) ++ 32 ∷ [] in
    record {
      dir = dir;
      time_prefix = if opts.time_prefix_enabled then stamp else [];
      prefix = remove_suffixes (length prefix) prefix;
      suffix = suffix;
      original_name = name;
      time_suffix = if opts.time_prefix_enabled then 0 else clock.now;
    }

-- New; a path without a name is none.
unfoldable pub create : Clock → FilePath → Options → Option Generator
create clock path opts =
    let (dir, name) = split_dir path in
    elim name [ [] ↦ none | c ∷ s ↦ some (make_generator clock opts dir (c ∷ s)) ]

-- The loop of ExtractTime over the layouts.
unfoldable pub parse_any : Clock → List ℕ → FilePath → Option ℕ
parse_any clock [] name = none
parse_any clock (layout ∷ layouts) name =
    let rest = parse_any clock layouts name in
    elim (clock.parse layout name) [ some t ↦ some t | none ↦ rest ]

-- ExtractTime; ErrMissingTime is none.
unfoldable pub extract_time : Clock → FilePath → Options → Option ℕ
unfolding split_dir skip_while before_first is_space parse_any
extract_time clock path opts =
    let name = skip_while is_space (split_dir path).1 in
    parse_any clock opts.time_prefix_supported_layouts (before_first is_space name)
