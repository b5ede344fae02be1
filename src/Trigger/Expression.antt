-- ===== src/Trigger/Expression.antt =====
-- What the expression of a trigger matches, by Watchman's documentation of the operators in it.
use mathlib.Core.Option
use mathlib.Core.List.{◌++◌}
use baamhackl.Base.{
  ℕ, Bool, true, false, not, ◌&&◌, ◌||◌, some, List, [], ◌∷◌, if◌then◌else◌, ltb, leb, ◌≡◌, ◌≢◌,
  All, refl, ap, ◌∙◌, arith, Bool-cases, inl, inr,
}
use baamhackl.FilePaths.{FilePath, same_name, split, dot_dot, rel, clean}
use baamhackl.RelPath.Contained.{full_path}
use baamhackl.Config.{HandlerConfig}
use baamhackl.Trigger.{
  Json, text, number, list, allof, exists_word, type_word, f_word, dirname, depth, eq_word,
  not_word, match_word, dot_star, basename, size_word, ge_word, le_word, ignoring, in_root,
  not_hidden, at_least, at_most, make_query_expression,
}

-- A file that Watchman knows of, with its directory relative to the root.
pub record WatchedFile : Type 0 where
  pub present : Bool
  pub regular : Bool
  pub dir : FilePath
  pub base : FilePath
  pub size : ℕ

-- The elements `ds` are the first of `es`.
unfoldable pub starts_with : List FilePath → List FilePath → Bool
starts_with [] es = true
starts_with (d ∷ ds) [] = false
starts_with (d ∷ ds) (e ∷ es) = same_name d e && starts_with ds es

-- The directory or one below it.
abbrev pub is_within : FilePath → FilePath → Bool
is_within d dir = starts_with (split d) (split dir)

abbrev pub dotted : FilePath → Bool
dotted [] = false
dotted (c ∷ cs) = same_name (c ∷ []) (46 ∷ [])

unfoldable pub all_match : (Json → WatchedFile → Bool) → List Json → WatchedFile → Bool
all_match matches [] f = true
all_match matches (e ∷ es) f = matches e f && all_match matches es f

-- The documentation of the operators that the program uses, for its forms of them.
pub record IsWatchman (matches : Json → WatchedFile → Bool) : Type 0 where
  pub of_all :
      (es : List Json) (f : WatchedFile)
      → matches (list (text allof ∷ es)) f ≡ all_match matches es f
  pub of_not :
      (e : Json) (f : WatchedFile) → matches (list (text not_word ∷ e ∷ [])) f ≡ not (matches e f)
  pub of_exists : (f : WatchedFile) → matches (list (text exists_word ∷ [])) f ≡ f.present
  pub of_type : (f : WatchedFile) → matches (list (text type_word ∷ text f_word ∷ [])) f ≡ f.regular
  pub of_root :
      (f : WatchedFile)
      → matches
          (list (text dirname ∷ text [] ∷ list (text depth ∷ text eq_word ∷ number 0 ∷ []) ∷ []))
          f
        ≡ same_name f.dir []
  pub of_dirname :
      (d : FilePath) (f : WatchedFile)
      → matches (list (text dirname ∷ text d ∷ [])) f ≡ is_within d f.dir
  pub of_match :
      (f : WatchedFile)
      → matches (list (text match_word ∷ text dot_star ∷ text basename ∷ [])) f ≡ dotted f.base
  pub of_ge :
      (n : ℕ) (f : WatchedFile)
      → matches (list (text size_word ∷ text ge_word ∷ number n ∷ [])) f ≡ leb n f.size
  pub of_le :
      (n : ℕ) (f : WatchedFile)
      → matches (list (text size_word ∷ text le_word ∷ number n ∷ [])) f ≡ leb f.size n

-- None of the directories holds the file.
unfoldable pub outside : List FilePath → WatchedFile → Bool
outside [] f = true
outside (d ∷ ds) f = not (is_within d f.dir) && outside ds f

-- The files that a handler is for: existing regular files, in the root itself unless it is recursive,
-- outside the given directories, not hidden unless hidden ones are included, and within the limits of size.
unfoldable pub is_wanted : {F : Type 0} → HandlerConfig F → List FilePath → WatchedFile → Bool
is_wanted h dirs f =
    f.present
    && (f.regular
        && ((h.recursive || same_name f.dir [])
            && (outside dirs f
                && ((h.include_hidden || not (dotted f.base))
                    && (leb h.min_size_bytes f.size
                        && (leb f.size h.max_size_bytes || not (ltb 0 h.max_size_bytes)))))))

all_match-append :
    (matches : Json → WatchedFile → Bool) (es fs : List Json) (f : WatchedFile)
    → all_match matches (es ++ fs) f ≡ (all_match matches es f && all_match matches fs f)
unfolding all_match
all_match-append matches [] fs f = refl
all_match-append matches (e ∷ es) fs f = elim (Bool-cases (matches e f)) [
  | inl p ↦ rw (p, all_match-append matches es fs f) refl
  | inr p ↦ rw p refl
]

no_limit : (n size : ℕ) → (leb n size || not (ltb 0 n)) ≡ leb n size
no_limit n size = ground arith

-- A part that is there unless `b`, and one that is there if `b`.
all_match-unless :
    (matches : Json → WatchedFile → Bool) (b : Bool) (e : Json) (f : WatchedFile)
    → all_match matches (if b then [] else e ∷ []) f ≡ (b || matches e f)
unfolding all_match
all_match-unless matches true e f = refl
all_match-unless matches false e f = elim (Bool-cases (matches e f)) [
  | inl p ↦ rw p refl
  | inr p ↦ rw p refl
]

all_match-if :
    (matches : Json → WatchedFile → Bool) (b : Bool) (e : Json) (f : WatchedFile)
    → all_match matches (if b then e ∷ [] else []) f ≡ (matches e f || not b)
unfolding all_match
all_match-if matches b e f = elim (Bool-cases (matches e f)) [
  | inl p ↦ ground arith
  | inr p ↦ ground arith
]

-- No element of the path is "..".
abbrev pub IsBelow : FilePath → Type 0
IsBelow relative = All (λ (e : FilePath). e ≢ dot_dot) (split relative)

-- The directories that lie in a handler's own one, by their paths relative to it, as filepath.Rel gives
-- them; the others are left out.
pub data IsIgnored (path : FilePath) : List FilePath → List FilePath → Type 0 where
  no_more : IsIgnored path [] []
  inside :
      (d relative : FilePath) (ds dirs : List FilePath)
      → rel (clean path) (full_path path d) ≡ some relative
      → IsBelow relative
      → IsIgnored path ds dirs
      → IsIgnored path (d ∷ ds) (relative ∷ dirs)
  elsewhere :
      (d relative : FilePath) (ds dirs : List FilePath)
      → rel (clean path) (full_path path d) ≡ some relative
      → ¬ IsBelow relative
      → IsIgnored path ds dirs
      → IsIgnored path (d ∷ ds) dirs

module _ (matches : Json → WatchedFile → Bool) (docs : IsWatchman matches) where
  all_match-ignoring :
      (ds : List FilePath) (f : WatchedFile) → all_match matches (ignoring ds) f ≡ outside ds f
  unfolding ignoring all_match outside
  all_match-ignoring [] f = refl
  all_match-ignoring (d ∷ ds) f =
      rw
        (
          docs.of_not (list (text dirname ∷ text d ∷ [])) f,
          docs.of_dirname d f,
          all_match-ignoring ds f,
        )
        refl

  all_match-in_root :
      {F : Type 0} (h : HandlerConfig F) (f : WatchedFile)
      → all_match matches (in_root h) f ≡ (h.recursive || same_name f.dir [])
  unfolding in_root
  all_match-in_root h f =
      all_match-unless matches h.recursive _ f ∙ ap (λ b. h.recursive || b) (docs.of_root f)

  all_match-not_hidden :
      {F : Type 0} (h : HandlerConfig F) (f : WatchedFile)
      → all_match matches (not_hidden h) f ≡ (h.include_hidden || not (dotted f.base))
  unfolding not_hidden
  all_match-not_hidden h f =
      all_match-unless matches h.include_hidden _ f
      ∙ ap (λ b. h.include_hidden || b) (docs.of_not _ f ∙ ap not (docs.of_match f))

  all_match-at_least :
      {F : Type 0} (h : HandlerConfig F) (f : WatchedFile)
      → all_match matches (at_least h) f ≡ leb h.min_size_bytes f.size
  unfolding at_least
  all_match-at_least h f =
      all_match-if matches (ltb 0 h.min_size_bytes) _ f
      ∙ ap (λ b. b || not (ltb 0 h.min_size_bytes)) (docs.of_ge h.min_size_bytes f)
      ∙ no_limit h.min_size_bytes f.size

  all_match-at_most :
      {F : Type 0} (h : HandlerConfig F) (f : WatchedFile)
      → all_match matches (at_most h) f
        ≡ (leb f.size h.max_size_bytes || not (ltb 0 h.max_size_bytes))
  unfolding at_most
  all_match-at_most h f =
      all_match-if matches (ltb 0 h.max_size_bytes) _ f
      ∙ ap (λ b. b || not (ltb 0 h.max_size_bytes)) (docs.of_le h.max_size_bytes f)

  -- The expression that makeQueryExpression builds matches a file if and only if the handler wants it, by
  -- Watchman's documentation of the operators.
  pub make_query_expression-is_wanted :
      {F : Type 0} (h : HandlerConfig F) (ds : List FilePath) (f : WatchedFile)
      → matches (list (make_query_expression h ds)) f ≡ is_wanted h ds f
  unfolding make_query_expression is_wanted all_match
  make_query_expression-is_wanted h ds f =
      let sizes = at_least h ++ at_most h in
      let visible = not_hidden h ++ sizes in
      let below = ignoring ds ++ visible in
      docs.of_all _ f
      ∙ rw
          (
            docs.of_exists f,
            docs.of_type f,
            all_match-append matches (in_root h) below f,
            all_match-append matches (ignoring ds) visible f,
            all_match-append matches (not_hidden h) sizes f,
            all_match-append matches (at_least h) (at_most h) f,
            all_match-in_root h f,
            all_match-ignoring ds f,
            all_match-not_hidden h f,
            all_match-at_least h f,
            all_match-at_most h f,
          )
          refl
