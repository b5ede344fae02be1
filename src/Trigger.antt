-- ===== src/Trigger.antt =====
-- internal/watchmantrigger/trigger.go: the trigger that Watchman gets for a handler.
pub mod Expression
pub mod Group
mod Tests
use mathlib.Core.List.{◌++◌}
use baamhackl.Base.{
  ℕ, zero, suc, ◌+◌, ◌/◌, Bool, true, false, Option, none, some, List, [], ◌∷◌, if◌then◌else◌, ltb,
}
use baamhackl.Base.Int.{ℤ, pos, negsuc}
use baamhackl.FilePaths.{FilePath, join}
use baamhackl.RelPath.{Resolved, resolve, contained}
use baamhackl.Config.{HandlerConfig}

mutual
  -- The values that are sent as JSON.
  pub data Json : Type 0 where
    text : FilePath → Json
    number : ℕ → Json
    array : Jsons → Json

  pub data Jsons : Type 0 where
    end : Jsons
    term : Json → Jsons → Jsons

unfoldable pub terms : List Json → Jsons
terms [] = end
terms (e ∷ es) = term e (terms es)

abbrev pub list : List Json → Json
list es = array (terms es)

-- The words of the query language, as bytes.
abbrev pub allof : FilePath
allof = 97 ∷ 108 ∷ 108 ∷ 111 ∷ 102 ∷ []

abbrev pub exists_word : FilePath
exists_word = 101 ∷ 120 ∷ 105 ∷ 115 ∷ 116 ∷ 115 ∷ []

abbrev pub type_word : FilePath
type_word = 116 ∷ 121 ∷ 112 ∷ 101 ∷ []

abbrev pub f_word : FilePath
f_word = 102 ∷ []

abbrev pub dirname : FilePath
dirname = 100 ∷ 105 ∷ 114 ∷ 110 ∷ 97 ∷ 109 ∷ 101 ∷ []

abbrev pub depth : FilePath
depth = 100 ∷ 101 ∷ 112 ∷ 116 ∷ 104 ∷ []

abbrev pub eq_word : FilePath
eq_word = 101 ∷ 113 ∷ []

abbrev pub not_word : FilePath
not_word = 110 ∷ 111 ∷ 116 ∷ []

abbrev pub match_word : FilePath
match_word = 109 ∷ 97 ∷ 116 ∷ 99 ∷ 104 ∷ []

abbrev pub dot_star : FilePath
dot_star = 46 ∷ 42 ∷ []

abbrev pub basename : FilePath
basename = 98 ∷ 97 ∷ 115 ∷ 101 ∷ 110 ∷ 97 ∷ 109 ∷ 101 ∷ []

abbrev pub size_word : FilePath
size_word = 115 ∷ 105 ∷ 122 ∷ 101 ∷ []

abbrev pub ge_word : FilePath
ge_word = 103 ∷ 101 ∷ []

abbrev pub le_word : FilePath
le_word = 108 ∷ 101 ∷ []

-- The loop of makeQueryExpression over the directories.
unfoldable pub ignoring : List FilePath → List Json
ignoring [] = []
ignoring (d ∷ ds) = list (text not_word ∷ list (text dirname ∷ text d ∷ []) ∷ []) ∷ ignoring ds

-- What makeQueryExpression appends, in order.
unfoldable pub in_root : {F : Type 0} → HandlerConfig F → List Json
in_root h =
    if h.recursive
    then []
    else list (text dirname ∷ text [] ∷ list (text depth ∷ text eq_word ∷ number 0 ∷ []) ∷ []) ∷ []

unfoldable pub not_hidden : {F : Type 0} → HandlerConfig F → List Json
not_hidden h =
    if h.include_hidden
    then []
    else list (text not_word ∷ list (text match_word ∷ text dot_star ∷ text basename ∷ []) ∷ [])
      ∷ []

unfoldable pub at_least : {F : Type 0} → HandlerConfig F → List Json
at_least h =
    if ltb 0 h.min_size_bytes
    then list (text size_word ∷ text ge_word ∷ number h.min_size_bytes ∷ []) ∷ []
    else []

unfoldable pub at_most : {F : Type 0} → HandlerConfig F → List Json
at_most h =
    if ltb 0 h.max_size_bytes
    then list (text size_word ∷ text le_word ∷ number h.max_size_bytes ∷ []) ∷ []
    else []

-- makeQueryExpression
unfoldable pub make_query_expression : {F : Type 0} → HandlerConfig F → List FilePath → List Json
make_query_expression h ignore_dirs =
    text allof
    ∷ list (text exists_word ∷ [])
    ∷ list (text type_word ∷ text f_word ∷ [])
    ∷ (in_root h ++ (ignoring ignore_dirs ++ (not_hidden h ++ (at_least h ++ at_most h))))

-- triggerConfig, with the entries of configData as fields: settle is in milliseconds.
pub record TriggerConfig : Type 0 where
  pub config_file_path : FilePath
  pub settle : ℤ
  pub ignore_dirs : List FilePath
  pub gc_age_seconds : ℕ
  pub gc_interval_seconds : ℕ
  pub idle_reap_age_seconds : ℕ
  pub suppress_recrawl_warnings : Bool
  pub expression : List Json

-- Duration.Milliseconds, rounded towards 0.
abbrev pub milliseconds : ℤ → ℤ
milliseconds (pos n) = pos (n / 1000000)
milliseconds (negsuc n) = elim ((n + 1) / 1000000) [ zero ↦ pos 0 | suc m ↦ negsuc m ]

-- The loop of newTriggerConfig: the directories that lie in the handler's own. An error is none.
unfoldable pub ignored_dirs : FilePath → List FilePath → Option (List FilePath)
ignored_dirs path [] = some []
ignored_dirs path (d ∷ ds) =
    let rest = ignored_dirs path ds in
    elim (resolve path d) [
      | none ↦ none
      | some r ↦ elim rest [
        | none ↦ none
        | some dirs ↦ if contained r then some (r.relative ∷ dirs) else some dirs
      ]
    ]

-- newTriggerConfig, with the sorting of the library.
unfoldable pub new_trigger_config :
    {F : Type 0} → (List FilePath → List FilePath) → HandlerConfig F → Option TriggerConfig
new_trigger_config sort h =
    elim (ignored_dirs h.path (h.journal_dir ∷ h.success_dir ∷ h.failure_dir ∷ [])) [
      | none ↦ none
      | some dirs ↦
          let sorted = sort dirs in
          some (record {
            config_file_path = join (
                h.path
                ∷ (46 ∷ 119 ∷ 97 ∷ 116 ∷ 99 ∷ 104 ∷ 109 ∷ 97 ∷ 110 ∷ 99 ∷ 111 ∷ 110 ∷ 102 ∷ 105
                    ∷ 103 ∷ [])
                ∷ []);
            settle = milliseconds h.settle_duration;
            ignore_dirs = sorted;
            gc_age_seconds = 3600;
            gc_interval_seconds = 3600;
            idle_reap_age_seconds = 60;
            suppress_recrawl_warnings = true;
            expression = make_query_expression h sorted;
          })
    ]
