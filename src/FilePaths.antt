-- ===== src/FilePaths.antt =====
-- The functions of Go's path/filepath and strings that the program uses on paths, for Unix.
pub mod Split
use mathlib.Core.List.{reverse}
use baamhackl.Base.{
  ℕ, zero, suc, Bool, true, false, not, ◌&&◌, Option, none, some, List, [], ◌∷◌, ◌++◌, length, ◌==◌,
  if◌then◌else◌,
}

-- A path, as its bytes.
abbrev pub FilePath : Type 0
FilePath = List ℕ

-- Equality of texts.
unfoldable pub same_name : FilePath → FilePath → Bool
same_name [] [] = true
same_name [] (y ∷ ys) = false
same_name (x ∷ xs) [] = false
same_name (x ∷ xs) (y ∷ ys) = x == y && same_name xs ys

abbrev pub slash : ℕ
slash = 47

-- "." and "..".
abbrev pub dot : FilePath
dot = 46 ∷ []

abbrev pub dot_dot : FilePath
dot_dot = 46 ∷ 46 ∷ []

-- A byte put before the first element.
unfoldable pub cons_first : ℕ → List FilePath → List FilePath
cons_first c [] = (c ∷ []) ∷ []
cons_first c (e ∷ es) = (c ∷ e) ∷ es

-- strings.Split with the separator "/".
unfoldable pub split : FilePath → List FilePath
split [] = [] ∷ []
split (c ∷ s) = let rest = split s in if c == slash then [] ∷ rest else cons_first c rest

-- strings.Join with the separator "/".
unfoldable pub join_text : List FilePath → FilePath
join_text [] = []
join_text (e ∷ []) = e
join_text (e ∷ f ∷ es) = e ++ slash ∷ join_text (f ∷ es)

-- filepath.IsAbs
unfoldable pub is_abs : FilePath → Bool
is_abs [] = false
is_abs (c ∷ s) = c == slash

-- ".." after the elements of the stack, whose top stands first.
unfoldable pub go_up : Bool → List FilePath → List FilePath
go_up rooted [] = if rooted then [] else dot_dot ∷ []
go_up rooted (e ∷ es) = if same_name e dot_dot then dot_dot ∷ e ∷ es else es

-- The elements that filepath.Clean keeps.
unfoldable pub clean_elems : Bool → List FilePath → List FilePath → List FilePath
clean_elems rooted stack [] = reverse stack
clean_elems rooted stack (e ∷ es) =
    clean_elems rooted
      (if same_name e []
        then stack
        else if same_name e dot
        then stack
        else if same_name e dot_dot
        then go_up rooted stack
        else e ∷ stack)
      es

abbrev pub or_dot : FilePath → FilePath
or_dot [] = dot
or_dot (c ∷ s) = c ∷ s

-- filepath.Clean
unfoldable pub clean : FilePath → FilePath
clean p =
    if is_abs p
    then slash ∷ join_text (clean_elems true [] (split p))
    else or_dot (join_text (clean_elems false [] (split p)))

-- filepath.Join: empty elements at the front are passed over.
unfoldable pub join : List FilePath → FilePath
join [] = []
join ([] ∷ es) = join es
join ((c ∷ e) ∷ es) = clean (join_text ((c ∷ e) ∷ es))

-- The elements of a cleaned path.
unfoldable pub elems : FilePath → List FilePath
elems [] = []
elems (c ∷ s) = if c == slash then (elim s [ [] ↦ [] | d ∷ t ↦ split (d ∷ t) ]) else split (c ∷ s)

abbrev pub ups : List FilePath → List FilePath → List FilePath
ups [] es = es
ups (b ∷ bs) es = dot_dot ∷ ups bs es

abbrev pub starts_up : List FilePath → Bool
starts_up [] = false
starts_up (e ∷ es) = same_name e dot_dot

-- filepath.Rel after the common elements: up from what is left of the base, then down.
unfoldable pub rel_from : List FilePath → List FilePath → Option FilePath
rel_from base targ = if starts_up base then none else some (join_text (ups base targ))

unfoldable pub rel_elems : List FilePath → List FilePath → Option FilePath
rel_elems [] targ = rel_from [] targ
rel_elems (b ∷ base) [] = rel_from (b ∷ base) []
rel_elems (b ∷ base) (t ∷ targ) =
    let rest = rel_elems base targ in if same_name b t then rest else rel_from (b ∷ base) (t ∷ targ)

-- The base's elements: "." has none.
unfoldable pub base_elems : FilePath → List FilePath
base_elems base = if same_name base dot then [] else elems base

abbrev pub same_bool : Bool → Bool → Bool
same_bool true b = b
same_bool false b = not b

-- filepath.Rel of two paths, an error is none.
unfoldable pub rel : FilePath → FilePath → Option FilePath
rel basepath targpath =
    let base = clean basepath in
    let targ = clean targpath in
    let rest = rel_elems (base_elems base) (elems targ) in
    if same_name targ base
    then some dot
    else if same_bool (is_abs base) (is_abs targ)
    then rest
    else none

-- filepath.Base, by the last element of the path without its slashes at the end.
unfoldable pub last_elem : FilePath → List FilePath → FilePath
last_elem cur [] = cur
last_elem cur (e ∷ es) = last_elem (if same_name e [] then cur else e) es

-- The last element that is not empty; "/" or "." if there is none.
unfoldable pub base : FilePath → FilePath
base [] = dot
base (c ∷ s) = elim (last_elem [] (split (c ∷ s))) [ [] ↦ slash ∷ [] | d ∷ t ↦ d ∷ t ]
