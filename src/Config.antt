-- ===== src/Config.antt =====
-- internal/config: the configuration of a handler, its defaults and the loading of a file. The YAML
-- library, with the validation that it calls, is a parameter.
use baamhackl.Base.{
  ℕ, Bool, true, false, Option, none, some, List, [], ◌∷◌, ◌⊎◌, inl, inr, if◌then◌else◌,
}
use baamhackl.Base.Int.{ℤ, pos}
use baamhackl.FilePaths.{FilePath, same_name}
use baamhackl.Waryio.{IoError, Result}

-- The configuration of a handler; the type `F` stands for floating point numbers.
pub record HandlerConfig (F : Type 0) : Type 0 where
  pub name : FilePath
  pub path : FilePath
  pub command : List FilePath
  pub timeout : ℤ
  pub recursive : Bool
  pub include_hidden : Bool
  pub min_size_bytes : ℕ
  pub max_size_bytes : ℕ
  pub settle_duration : ℤ
  pub retry_count : ℤ
  pub retry_delay_initial : ℤ
  pub retry_delay_factor : F
  pub retry_delay_max : ℤ
  pub journal_dir : FilePath
  pub journal_retention : ℤ
  pub success_dir : FilePath
  pub failure_dir : FilePath

abbrev pub second : ℤ
second = pos 1000000000

abbrev pub hour : ℤ
hour = pos 3600000000000

-- HandlerDefaults, for the floating point number 1.5; "_/journal", "_/success" and "_/failure" are the
-- directories.
unfoldable pub handler_defaults : {F : Type 0} → F → HandlerConfig F
handler_defaults factor = record {
  name = [];
  path = [];
  command = [];
  timeout = hour;
  recursive = false;
  include_hidden = false;
  min_size_bytes = 0;
  max_size_bytes = 0;
  settle_duration = second;
  retry_count = pos 2;
  retry_delay_initial = pos 900000000000;
  retry_delay_factor = factor;
  retry_delay_max = hour;
  journal_dir = 95 ∷ 47 ∷ 106 ∷ 111 ∷ 117 ∷ 114 ∷ 110 ∷ 97 ∷ 108 ∷ [];
  journal_retention = pos 604800000000000;
  success_dir = 95 ∷ 47 ∷ 115 ∷ 117 ∷ 99 ∷ 99 ∷ 101 ∷ 115 ∷ 115 ∷ [];
  failure_dir = 95 ∷ 47 ∷ 102 ∷ 97 ∷ 105 ∷ 108 ∷ 117 ∷ 114 ∷ 101 ∷ [];
}

-- The errors of the loading: the end of the input, any other of the decoder, ErrMultipleFragments,
-- ErrMissingFile, and those of opening the file.
pub data LoadError : Type 0 where
  end_of_input : LoadError
  invalid : ℕ → LoadError
  multiple_fragments : LoadError
  missing_file : LoadError
  unreadable : IoError → LoadError

-- Whether an error is io.EOF.
unfoldable pub is_end : Option LoadError → Bool
is_end (some end_of_input) = true
is_end e = false

-- A decoder over a state, which reads one document after the other. It is given the value to fill in.
pub record Decoder (D V : Type 0) : Type 0 where
  pub decode : D → V → D × V × Option LoadError
  pub skip : D → D × Option LoadError

-- The second half of validatedUnmarshal: nothing may follow.
unfoldable pub expect_end : {D V : Type 0} → Decoder D V → D → V → LoadError ⊎ V
expect_end dec d v =
    let (d', err) = dec.skip d in if is_end err then inr v else inl multiple_fragments

-- validatedUnmarshal
unfoldable pub validated_unmarshal : {D V : Type 0} → Decoder D V → D → V → LoadError ⊎ V
validated_unmarshal dec d v =
    let (d', v', err) = dec.decode d v in
    let rest = expect_end dec d' v' in
    elim err [ none ↦ rest | some e ↦ if is_end (some e) then rest else inl e ]

-- Load, with read and Unmarshal, which starts at an empty list of handlers.
unfoldable pub load :
    {D H : Type 0} → (FilePath → Result D) → Decoder D (List H) → FilePath → LoadError ⊎ List H
load open_file dec path =
    if same_name path []
    then inl missing_file
    else elim (open_file path) [ inl e ↦ inl (unreadable e) | inr d ↦ validated_unmarshal dec d [] ]
