-- ===== src/UniqueName/RoundTrip.antt =====
-- ExtractTime of internal/uniquename/uniquename.go reads the time that New put into a name.
use mathlib.Core.Option
use mathlib.Core.List.{append_assoc}
use baamhackl.Base.{
  ℕ, true, false, ◌≡◌, ◌≢◌, refl, subst, sym, ap, ◌∙◌, none, some, List, [], ◌∷◌, ◌++◌, ◌==◌, arith,
  All, Bool-cases, List-cases, inl, inr,
}
use baamhackl.FilePaths.{FilePath, slash}
use baamhackl.FilePaths.Split.{IsElem}
use baamhackl.UniqueName.{Generator, Runtime, next_name}
use baamhackl.UniqueName.Create.{
  Options, Clock, is_space, is_re_space, trim_right, skip_while, before_first, split_dir, create,
  make_generator, parse_any, extract_time,
}

split_dir-IsElem : (s : FilePath) → IsElem (split_dir s).1
unfolding split_dir
split_dir-IsElem [] = tt
split_dir-IsElem (c ∷ s) = elim (List-cases (split_dir s).0) [
  | inr (d, ds, e) ↦ rw (e, split_dir) (split_dir-IsElem s)
  | inl e ↦ elim (Bool-cases (c == slash)) [
    | inl b ↦ rw (e, b, split_dir) (split_dir-IsElem s)
    | inr b ↦
        let not_slash : c ≢ slash = ground arith in
        rw (e, b, split_dir) (not_slash, split_dir-IsElem s)
  ]
]

-- A name has no directory.
split_dir_name : (s : FilePath) → IsElem s → split_dir s ≡ ([], s)
unfolding split_dir
split_dir_name [] h = refl
split_dir_name (c ∷ s) (h, hs) = let ih = split_dir_name s hs in ground arith

IsElem-append : (xs ys : FilePath) → IsElem xs → IsElem ys → IsElem (xs ++ ys)
IsElem-append [] ys h k = k
IsElem-append (x ∷ xs) ys (hx, h) k = (hx, IsElem-append xs ys h k)

-- A text without spaces.
abbrev pub IsWord : FilePath → Type 0
IsWord = All (λ (c : ℕ). is_space c ≡ false)

trim_right-IsWord : (s : FilePath) → IsWord s → trim_right is_space s ≡ s
unfolding trim_right
trim_right-IsWord [] h = refl
trim_right-IsWord (c ∷ []) (h, hs) = rw h refl
trim_right-IsWord (c ∷ d ∷ s) (h, hs) = let ih = trim_right-IsWord (d ∷ s) hs in rw ih refl

before_first-IsWord : (s t : FilePath) → IsWord s → before_first is_space (s ++ 32 ∷ t) ≡ s
unfolding before_first is_space is_re_space
before_first-IsWord [] t h = ground arith
before_first-IsWord (c ∷ s) t (h, hs) = let ih = before_first-IsWord s t hs in rw (h, ih) refl

skip_while-IsWord : (s t : FilePath) → s ≢ [] → IsWord s → skip_while is_space (s ++ t) ≡ s ++ t
unfolding skip_while
skip_while-IsWord [] t ne h = absurd (ne refl)
skip_while-IsWord (c ∷ s) t ne (h, hs) = rw h refl

extract_time-prefix :
    (clock : Clock) (opts : Options) (stamp name : FilePath)
    → stamp ≢ []
    → IsWord stamp
    → IsElem stamp
    → IsElem name
    → extract_time clock (stamp ++ 32 ∷ name) opts
      ≡ parse_any clock opts.time_prefix_supported_layouts stamp
unfolding extract_time
extract_time-prefix clock opts stamp name ne word elem name_elem =
    let no_dir =
      split_dir_name (stamp ++ 32 ∷ name)
        (IsElem-append stamp (32 ∷ name) elem (omega arith, name_elem)) in
    let kept = skip_while-IsWord stamp (32 ∷ name) ne word in
    let cut = before_first-IsWord stamp name word in rw (no_dir, kept, cut, extract_time) refl

create-none :
    (clock : Clock) (path : FilePath) (opts : Options)
    → (split_dir path).1 ≡ []
    → create clock path opts ≡ none
unfolding create
create-none clock path opts e = rw (e, create) refl

-- New makes a generator of each path with a name.
create-some :
    (clock : Clock) (path : FilePath) (opts : Options) (c : ℕ) (s : FilePath)
    → (split_dir path).1 ≡ c ∷ s
    → create clock path opts ≡ some (make_generator clock opts (split_dir path).0 (c ∷ s))
unfolding create
create-some clock path opts c s e = rw (e, create) refl

make_generator-prefix :
    (clock : Clock) (opts : Options) (dir name : FilePath)
    → opts.time_prefix_enabled ≡ true
    → (make_generator clock opts dir name).time_prefix
      ≡ trim_right is_space (clock.format opts.time_prefix_layout clock.now) ++ 32 ∷ []
unfolding make_generator
make_generator-prefix clock opts dir name e = simp e

make_generator-name :
    (clock : Clock) (opts : Options) (dir name : FilePath)
    → (make_generator clock opts dir name).original_name ≡ name
unfolding make_generator
make_generator-name clock opts dir name = refl

next_name-first :
    (rt : Runtime) (g : Generator) (c : ℕ) (s : FilePath)
    → g.original_name ≡ c ∷ s
    → next_name rt g ≡ some (g.time_prefix ++ c ∷ s, record g { original_name = [] })
unfolding next_name
next_name-first rt g c s e = grind arith

first_name :
    (clock : Clock) (opts : Options) (dir name : FilePath)
    → opts.time_prefix_enabled ≡ true
    → IsWord (clock.format opts.time_prefix_layout clock.now)
    → (make_generator clock opts dir name).time_prefix ++ name
      ≡ clock.format opts.time_prefix_layout clock.now ++ 32 ∷ name
first_name clock opts dir name on word =
    let stamp = trim_right-IsWord (clock.format opts.time_prefix_layout clock.now) word in
    rw (make_generator-prefix clock opts dir name on, stamp) (append_assoc _ (32 ∷ []) name)

-- The first layout that reads the text decides.
parse_any-first :
    (clock : Clock) (before after : List ℕ) (layout t : ℕ) (stamp : FilePath)
    → All (λ (l : ℕ). clock.parse l stamp ≡ none) before
    → clock.parse layout stamp ≡ some t
    → parse_any clock (before ++ layout ∷ after) stamp ≡ some t
unfolding parse_any
parse_any-first clock [] after layout t stamp h e = rw e refl
parse_any-first clock (l ∷ before) after layout t stamp (h, hs) e =
    rw h (parse_any-first clock before after layout t stamp hs e)

-- The first name that Next gives after New, of the time now and the original name, gives the time back
-- to ExtractTime: what its own layout makes of the formatted time, if that layout is a supported one, and
-- the supported ones before it cannot read the text. The options put the time in front, and in their
-- layout it has no spaces and no slashes.
pub extract_time-next_name :
    (rt : Runtime) (clock : Clock) (path : FilePath) (opts : Options) (g : Generator)
    (before after : List ℕ) (t : ℕ)
    → opts.time_prefix_enabled ≡ true
    → clock.format opts.time_prefix_layout clock.now ≢ []
    → IsWord (clock.format opts.time_prefix_layout clock.now)
    → IsElem (clock.format opts.time_prefix_layout clock.now)
    → opts.time_prefix_supported_layouts ≡ before ++ opts.time_prefix_layout ∷ after
    → All (λ (l : ℕ). clock.parse l (clock.format opts.time_prefix_layout clock.now) ≡ none) before
    → clock.parse opts.time_prefix_layout (clock.format opts.time_prefix_layout clock.now) ≡ some t
    → create clock path opts ≡ some g
    → (name : FilePath) × (g' : Generator) × (next_name rt g ≡ some (name, g'))
      × (extract_time clock name opts ≡ some t)
extract_time-next_name rt clock path opts g before after t on ne word elem layouts unread reads e =
    let read : parse_any clock opts.time_prefix_supported_layouts
          (clock.format opts.time_prefix_layout clock.now)
        ≡ some t =
      ap (λ ls. parse_any clock ls (clock.format opts.time_prefix_layout clock.now)) layouts
      ∙ parse_any-first clock before after opts.time_prefix_layout t _ unread reads in
    elim (List-cases (split_dir path).1) [
      | inl n ↦ absurd (let none_made = create-none clock path opts n in cc)
      | inr (c, s, n) ↦
          let made : make_generator clock opts (split_dir path).0 (c ∷ s) ≡ g =
            Option.some-injective _ _ (sym (create-some clock path opts c s n) ∙ e) in
          let named : g.original_name ≡ c ∷ s =
            sym (ap (λ (h : Generator). h.original_name) made)
            ∙ make_generator-name clock opts (split_dir path).0 (c ∷ s) in
          let text : g.time_prefix ++ c ∷ s
              ≡ clock.format opts.time_prefix_layout clock.now ++ 32 ∷ c ∷ s =
            ap (λ (h : Generator). h.time_prefix ++ c ∷ s) (sym made)
            ∙ first_name clock opts (split_dir path).0 (c ∷ s) on word in
          (
            g.time_prefix ++ c ∷ s,
            record g { original_name = [] },
            next_name-first rt g c s named,
            rw text (
                extract_time-prefix clock opts (clock.format opts.time_prefix_layout clock.now)
                  (c ∷ s) ne word elem (subst IsElem n (split_dir-IsElem path))
                ∙ read),
          )
    ]
