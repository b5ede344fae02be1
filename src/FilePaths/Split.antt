-- ===== src/FilePaths/Split.antt =====
-- Splitting a path at its slashes and joining the elements again.
use baamhackl.Base.{
  ℕ, true, ◌≡◌, ◌≢◌, refl, ap, ◌∙◌, List, [], ◌∷◌, ◌++◌, ◌==◌, ==_iff, arith, All, Bool-cases, inl,
  inr,
}
use baamhackl.FilePaths.{FilePath, slash, split, join_text, cons_first, same_name}

pub same_name_refl : (xs : FilePath) → same_name xs xs ≡ true
unfolding same_name
same_name_refl [] = refl
same_name_refl (x ∷ xs) = let ih = same_name_refl xs in ground arith

pub same_name-eq : (xs ys : FilePath) → same_name xs ys ≡ true → xs ≡ ys
unfolding same_name
same_name-eq [] [] e = refl
same_name-eq [] (y ∷ ys) e = absurd (cc)
same_name-eq (x ∷ xs) [] e = absurd (cc)
same_name-eq (x ∷ xs) (y ∷ ys) e =
    let ih = same_name-eq xs ys in let heads = ==_iff x y in grind arith

-- No byte is a slash.
abbrev pub IsElem : FilePath → Type 0
IsElem = All (λ (c : ℕ). c ≢ slash)

cons_first-IsElem :
    (c : ℕ) (es : List FilePath) → c ≢ slash → All IsElem es → All IsElem (cons_first c es)
unfolding cons_first
cons_first-IsElem c [] h a = ((h, tt), tt)
cons_first-IsElem c (e ∷ es) h (a, rest) = ((h, a), rest)

-- The parts between slashes have no slash.
pub split-IsElem : (s : FilePath) → All IsElem (split s)
unfolding split
split-IsElem [] = (tt, tt)
split-IsElem (c ∷ s) = elim (Bool-cases (c == slash)) [
  | inl e ↦ rw (e, split) (tt, split-IsElem s)
  | inr e ↦
      let not_slash : c ≢ slash = ground (arith) in
      rw (e, split) (cons_first-IsElem c (split s) not_slash (split-IsElem s))
]

split-append_slash : (e s : FilePath) → IsElem e → split (e ++ slash ∷ s) ≡ e ∷ split s
unfolding split cons_first
split-append_slash [] s h = refl
split-append_slash (c ∷ e) s (h, hs) = let ih = split-append_slash e s hs in ground arith

pub split_elem : (e : FilePath) → IsElem e → split e ≡ e ∷ []
unfolding split cons_first
split_elem [] h = refl
split_elem (c ∷ e) (h, hs) = let ih = split_elem e hs in ground arith

-- Elements without slashes come back from the text that joins them.
pub split-join_text :
    (e : FilePath) (es : List FilePath) → All IsElem (e ∷ es) → split (join_text (e ∷ es)) ≡ e ∷ es
unfolding join_text
split-join_text e [] (h, hs) = split_elem e h
split-join_text e (f ∷ es) (h, hs) =
    split-append_slash e (join_text (f ∷ es)) h ∙ ap (λ x. e ∷ x) (split-join_text f es hs)
