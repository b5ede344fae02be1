-- ===== src/Trigger/Tests.antt =====
-- Tests of internal/watchmantrigger, with an evaluator of the operators in the expression.
use baamhackl.Base.{
  ℕ, Bool, true, false, not, ◌&&◌, Option, none, some, List, [], ◌∷◌, if◌then◌else◌, leb, ◌≡◌, refl,
  sym, Bool-cases, inl, inr, arith,
}
use mathlib.Core.List.Perm
use baamhackl.Base.Int.{pos}
use baamhackl.FilePaths.{
  FilePath, same_name, split, rel, clean, is_abs, join, join_text, clean_elems, cons_first,
  rel_elems, base_elems, elems, rel_from,
}
use baamhackl.RelPath.{resolve, contained, has_no_up}
use baamhackl.Config.{HandlerConfig, handler_defaults}
use baamhackl.Trigger.{
  Json, text, number, array, Jsons, end, term, terms, allof, exists_word, type_word, dirname,
  not_word, match_word, size_word, ge_word, le_word, TriggerConfig, ignored_dirs,
  new_trigger_config,
}
use baamhackl.Trigger.Group.{
  TriggerError, Calls, set_all, delete_all, Group, do_trigger, set_config, set_handlers,
  delete_handlers, after, new_trigger_setter,
}
use baamhackl.Trigger.Group.Deleted.{Tracks, set_all-delete_all}
use baamhackl.FilePaths.Split.{same_name-eq}
use baamhackl.Trigger.Expression.{WatchedFile, dotted, is_within}

abbrev size_test : Jsons → WatchedFile → Bool
size_test (term (text k) (term (number n) es)) f =
    if same_name k ge_word then leb n f.size else leb f.size n
size_test es f = false

abbrev dir_test : Jsons → WatchedFile → Bool
dir_test (term (text d) end) f = is_within d f.dir
dir_test es f = same_name f.dir []

abbrev operator : FilePath → Bool → Bool → Jsons → WatchedFile → Bool
operator k every first es f =
    if same_name k allof
    then every
    else if same_name k not_word
    then not first
    else if same_name k exists_word
    then f.present
    else if same_name k type_word
    then f.regular
    else if same_name k dirname
    then dir_test es f
    else if same_name k match_word
    then dotted f.base
    else size_test es f

unfoldable mutual
  evaluate : Json → WatchedFile → Bool
  evaluate (text s) f = false
  evaluate (number n) f = false
  evaluate (array es) f = evaluate_term es f

  evaluate_term : Jsons → WatchedFile → Bool
  evaluate_term end f = false
  evaluate_term (term (text k) es) f = operator k (every_of es f) (first_of es f) es f
  evaluate_term (term e es) f = false

  every_of : Jsons → WatchedFile → Bool
  every_of end f = true
  every_of (term e es) f = evaluate e f && every_of es f

  first_of : Jsons → WatchedFile → Bool
  first_of end f = false
  first_of (term e es) f = evaluate e f

-- The defaults, with the failures outside the directory of the handler.
abbrev config : HandlerConfig ℕ
config = record (handler_defaults 15) { path = 47 ∷ 119 ∷ []; failure_dir = 47 ∷ 102 ∷ [] }

abbrev trigger : TriggerConfig
trigger = elim (new_trigger_config (λ ds. ds) config) [
  | some c ↦ c
  | none ↦ record {
    config_file_path = [];
    settle = pos 0;
    ignore_dirs = [];
    gc_age_seconds = 0;
    gc_interval_seconds = 0;
    idle_reap_age_seconds = 0;
    suppress_recrawl_warnings = true;
    expression = [];
  }
]

-- A client whose state is the list of the triggers that are set, by path and name.
abbrev Triggers : Type 0
Triggers = List (FilePath × FilePath)

unfoldable without : FilePath → FilePath → Triggers → Triggers
without p n [] = []
without p n ((q, m) ∷ ts) =
    let rest = without p n ts in if same_name q p && same_name m n then rest else (q, m) ∷ rest

unfoldable has : FilePath → FilePath → Triggers → Bool
has p n [] = false
has p n ((q, m) ∷ ts) = if same_name q p && same_name m n then true else has p n ts

abbrev calls : Calls Triggers
calls = record {
  write_file = λ w file cfg. (w, none);
  chmod = λ w file. (w, none);
  watch_set = λ done w root. (w, none);
  recrawl = λ done w root. (w, none);
  trigger_set = λ done w root d. ((root, d.name) ∷ w, none);
  trigger_del = λ w root name. (without root name w, none);
  marshals = λ cfg. true;
  context_done = λ w. false;
}

abbrev Absent : FilePath → FilePath → Triggers → Type 0
Absent p n ts = has p n ts ≡ false

has-without : (p n : FilePath) (ts : Triggers) → has p n (without p n ts) ≡ false
unfolding has without
has-without p n [] = refl
has-without p n ((q, m) ∷ ts) = elim (Bool-cases (same_name q p && same_name m n)) [
  | inl e ↦ rw e (has-without p n ts)
  | inr e ↦ rw (e, has) (rw (e, has) (has-without p n ts))
]

has-tail :
    (p n a b : FilePath) (ts : Triggers)
    → has p n ((a, b) ∷ ts) ≡ false
    → ((same_name a p && same_name b n) ≡ false) × (has p n ts ≡ false)
unfolding has
has-tail p n a b ts h = elim (Bool-cases (same_name a p && same_name b n)) [
  | inl e ↦ absurd (ground arith)
  | inr e ↦ (e, rw e at h)
]

without-keeps :
    (p n q m : FilePath) (ts : Triggers) → has p n ts ≡ false → has p n (without q m ts) ≡ false
unfolding has without
without-keeps p n q m [] h = refl
without-keeps p n q m ((a, b) ∷ ts) h = elim (Bool-cases (same_name a q && same_name b m)) [
  | inl e ↦ rw e (without-keeps p n q m ts (has-tail p n a b ts h).1)
  | inr e ↦
      rw (e, has)
        (rw ((has-tail p n a b ts h).0, has) (without-keeps p n q m ts (has-tail p n a b ts h).1))
]

both : (a b : Bool) → (a && b) ≡ true → (a ≡ true) × (b ≡ true)
both true b e = (refl, e)
both false b e = absurd (cc)

calls-Tracks : Tracks calls Absent
unfolding has
calls-Tracks = record {
  writing = λ w file cfg p n a. a;
  changing = λ w file p n a. a;
  watching = λ done w root p n a. a;
  setting = λ done w root d p n a. elim (Bool-cases (same_name root p && same_name d.name n)) [
    | inl e ↦
        let (same, alike) = both (same_name root p) (same_name d.name n) e in
        inr (sym (same_name-eq root p same), sym (same_name-eq d.name n alike))
    | inr e ↦ inl (rw e a)
  ];
  deleting = λ w p n e. has-without p n w;
  keeping = λ w root name p n a. without-keeps p n root name w a;
}

-- The triggers of both handlers are set.
abbrev handlers : List (HandlerConfig ℕ)
handlers =
    record config { name = 97 ∷ [] } ∷ record config { name = 98 ∷ []; path = 47 ∷ 118 ∷ [] } ∷ []

abbrev set_up : Triggers × Group ℕ × Option TriggerError
set_up =
    set_all calls (λ ds. ds) (inr (47 ∷ 101 ∷ [])) (115 ∷ []) (47 ∷ 115 ∷ []) [] handlers []
      (record { configured = [] })

set_all-delete_all_example : Absent config.path (97 ∷ []) (delete_all calls set_up.1 set_up.0).0
unfolding has delete_all delete_handlers without same_name set_all new_trigger_setter set_handlers
    do_trigger new_trigger_config ignored_dirs resolve rel clean is_abs handler_defaults join
    join_text clean_elems split cons_first rel_elems base_elems elems baamhackl.FilePaths.go_up
    rel_from contained has_no_up after baamhackl.Trigger.Group.first_error
    baamhackl.Trigger.Group.is_cancelled set_config baamhackl.Trigger.at_least
    baamhackl.Trigger.at_most baamhackl.Trigger.ignoring baamhackl.Trigger.in_root
    baamhackl.Trigger.make_query_expression baamhackl.Trigger.not_hidden terms
set_all-delete_all_example =
    set_all-delete_all calls Absent calls-Tracks config.path (97 ∷ []) (λ ds. ds)
      (inr (47 ∷ 101 ∷ [])) (115 ∷ []) (47 ∷ 115 ∷ []) [] handlers [] set_up.0 set_up.1 refl refl
      refl
