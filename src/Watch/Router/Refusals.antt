-- ===== src/Watch/Router/Refusals.antt =====
-- Which requests FileChanged of watch/router.go refuses, and what it leaves alone then.
use mathlib.Core.Option
use baamhackl.Base.{
  ℕ, true, false, ◌||◌, ◌≡◌, ◌≢◌, refl, ap, sym, ◌∙◌, Sum-cases, Option, none, some, [], ◌∷◌, inl,
  inr, ◌⊎◌, arith, Bool-cases, Option-cases,
}
use baamhackl.FilePaths.{FilePath, same_name, is_abs, clean}
use baamhackl.Waryio.{FileInfo, Result}
use baamhackl.Waryio.RelDir.{same_stat}
use baamhackl.Watch.{
  Handler, Shared, handle, handle_name, stat_failed, other_root, Refusal, missing_names,
  relative_root, absolute_name, unknown_handler, lookup,
}
use baamhackl.Watch.Router.{Router, FileChangedRequest, shared, update, dispatched, file_changed}

abbrev Answer : Type 0
Answer = Option (Router × Option Refusal)

refusal-keeps :
    (r r' : Router) (x : Refusal) (refused : Option Refusal)
    → ◌≡◌ {A = Answer} (some (r, some x)) (some (r', refused))
    → (refused ≢ none) × (r'.sched ≡ r.sched) × (r'.counter ≡ r.counter)
refusal-keeps r r' x refused e =
    let p = Option.some-injective {A = Router × Option Refusal} _ _ e in
    (
      λ n. absurd (let q : some x ≡ none = ap (λ (z : Router × Option Refusal). z.1) p ∙ n in cc),
      ap (λ (z : Router × Option Refusal). z.0.sched) (sym p),
      ap (λ (z : Router × Option Refusal). z.0.counter) (sym p),
    )

-- The answer of a handler: it refuses and changes nothing, or does not refuse.
handle-refusal :
    (lstat : FilePath → Result FileInfo) (s : Shared) (fn : ℕ) (root name : FilePath)
    → ((x : Refusal) × (handle lstat s fn root name ≡ some (s, some x)))
      ⊎ (handle lstat s fn root name ≡ none)
      ⊎ ((s' : Shared) × (handle lstat s fn root name ≡ some (s', none)))
unfolding handle
handle-refusal lstat s fn root name = elim (Sum-cases (same_stat lstat root s.handler.path)) [
  | inl (errs, e) ↦ inl (stat_failed errs, rw (e, handle) refl)
  | inr (same, e) ↦ elim (Bool-cases same) [
    | inr f ↦ inl (other_root, rw (e, f, handle) refl)
    | inl t ↦ elim (Option-cases (handle_name s fn (clean name))) [
      | inl n ↦ inr (inl (rw (e, t, n, handle) refl))
      | inr (s', n) ↦ inr (inr (s', rw (e, t, n, handle) refl))
    ]
  ]
]

file_changed-missing :
    (lstat : FilePath → Result FileInfo) (r : Router) (fn : ℕ) (req : FileChangedRequest)
    → (same_name req.handler_name [] || same_name req.change_name []) ≡ true
    → file_changed lstat r fn req ≡ some (r, some missing_names)
unfolding file_changed
file_changed-missing lstat r fn req b = rw (b, file_changed) refl

file_changed-relative :
    (lstat : FilePath → Result FileInfo) (r : Router) (fn : ℕ) (req : FileChangedRequest)
    → (same_name req.handler_name [] || same_name req.change_name []) ≡ false
    → is_abs req.root_dir ≡ false
    → file_changed lstat r fn req ≡ some (r, some relative_root)
unfolding file_changed
file_changed-relative lstat r fn req b c = rw (b, c, file_changed) refl

file_changed-absolute :
    (lstat : FilePath → Result FileInfo) (r : Router) (fn : ℕ) (req : FileChangedRequest)
    → (same_name req.handler_name [] || same_name req.change_name []) ≡ false
    → is_abs req.root_dir ≡ true
    → is_abs req.change_name ≡ true
    → file_changed lstat r fn req ≡ some (r, some absolute_name)
unfolding file_changed
file_changed-absolute lstat r fn req b c d = rw (b, c, d, file_changed) refl

file_changed-dispatched :
    (lstat : FilePath → Result FileInfo) (r : Router) (fn : ℕ) (req : FileChangedRequest)
    → (same_name req.handler_name [] || same_name req.change_name []) ≡ false
    → is_abs req.root_dir ≡ true
    → is_abs req.change_name ≡ false
    → file_changed lstat r fn req ≡ dispatched lstat r fn req
unfolding file_changed
file_changed-dispatched lstat r fn req b c d = rw (b, c, d, file_changed) refl

dispatched-unknown :
    (lstat : FilePath → Result FileInfo) (r : Router) (fn : ℕ) (req : FileChangedRequest)
    → lookup req.handler_name r.handler_by_name ≡ none
    → dispatched lstat r fn req ≡ some (r, some unknown_handler)
unfolding dispatched
dispatched-unknown lstat r fn req n = rw (n, dispatched) refl

dispatched-answer :
    (lstat : FilePath → Result FileInfo) (r : Router) (fn : ℕ) (req : FileChangedRequest)
    (h : Handler) (s : Shared) (refused : Option Refusal)
    → lookup req.handler_name r.handler_by_name ≡ some h
    → handle lstat (shared r h) fn req.root_dir req.change_name ≡ some (s, refused)
    → dispatched lstat r fn req ≡ some (update r req s, refused)
unfolding dispatched
dispatched-answer lstat r fn req h s refused l f = rw (l, f, dispatched) refl

dispatched-panic :
    (lstat : FilePath → Result FileInfo) (r : Router) (fn : ℕ) (req : FileChangedRequest)
    (h : Handler)
    → lookup req.handler_name r.handler_by_name ≡ some h
    → handle lstat (shared r h) fn req.root_dir req.change_name ≡ none
    → dispatched lstat r fn req ≡ none
unfolding dispatched
dispatched-panic lstat r fn req h l f = rw (l, f, dispatched) refl

dispatched-refusal :
    (lstat : FilePath → Result FileInfo) (r r' : Router) (fn : ℕ) (req : FileChangedRequest)
    (refused : Option Refusal)
    → dispatched lstat r fn req ≡ some (r', refused)
    → ((refused ≡ none) × (lookup req.handler_name r.handler_by_name ≢ none))
      ⊎ ((refused ≢ none) × (r'.sched ≡ r.sched) × (r'.counter ≡ r.counter))
unfolding dispatched
dispatched-refusal lstat r r' fn req refused e =
    elim (Option-cases (lookup req.handler_name r.handler_by_name)) [
      | inl n ↦ inr (
          refusal-keeps r r' unknown_handler refused
            (sym (dispatched-unknown lstat r fn req n) ∙ e))
      | inr (h, l) ↦
          let there : lookup req.handler_name r.handler_by_name ≢ none = λ n. cc in
          elim (handle-refusal lstat (shared r h) fn req.root_dir req.change_name) [
            | inl (x, f) ↦ inr (
                refusal-keeps (update r req (shared r h)) r' x refused
                  (sym (dispatched-answer lstat r fn req h (shared r h) (some x) l f) ∙ e))
            | inr rest ↦ elim rest [
              | inl f ↦ absurd (let g = dispatched-panic lstat r fn req h l f in cc)
              | inr (s', f) ↦
                  let p =
                    Option.some-injective {A = Router × Option Refusal} _ _
                      (sym (dispatched-answer lstat r fn req h s' none l f) ∙ e) in
                  inl (sym (ap (λ (z : Router × Option Refusal). z.1) p), there)
            ]
          ]
    ]

named : (a b : FilePath) → (same_name a [] || same_name b []) ≡ false → a ≢ []
unfolding same_name
named [] b e = absurd (cc)
named (x ∷ a) b e = λ h. cc

named_right : (a b : FilePath) → (same_name a [] || same_name b []) ≡ false → b ≢ []
unfolding same_name
named_right a [] e = absurd (grind arith)
named_right a (x ∷ b) e = λ h. cc

-- A request that FileChanged does not refuse names a handler that there is and a file, its root directory
-- is absolute and its file name relative. A request that it refuses leaves the scheduler as it is.
pub file_changed-refusal :
    (lstat : FilePath → Result FileInfo) (r r' : Router) (fn : ℕ) (req : FileChangedRequest)
    (refused : Option Refusal)
    → file_changed lstat r fn req ≡ some (r', refused)
    → ((refused ≡ none)
        × (req.handler_name ≢ [])
        × (req.change_name ≢ [])
        × (is_abs req.root_dir ≡ true)
        × (is_abs req.change_name ≡ false)
        × (lookup req.handler_name r.handler_by_name ≢ none))
      ⊎ ((refused ≢ none) × (r'.sched ≡ r.sched) × (r'.counter ≡ r.counter))
unfolding file_changed
file_changed-refusal lstat r r' fn req refused e =
    elim (Bool-cases (same_name req.handler_name [] || same_name req.change_name [])) [
      | inl b ↦ inr (
          refusal-keeps r r' missing_names refused
            (sym (file_changed-missing lstat r fn req b) ∙ e))
      | inr b ↦ elim (Bool-cases (is_abs req.root_dir)) [
        | inr c ↦ inr (
            refusal-keeps r r' relative_root refused
              (sym (file_changed-relative lstat r fn req b c) ∙ e))
        | inl c ↦ elim (Bool-cases (is_abs req.change_name)) [
          | inl d ↦ inr (
              refusal-keeps r r' absolute_name refused
                (sym (file_changed-absolute lstat r fn req b c d) ∙ e))
          | inr d ↦
              let f : dispatched lstat r fn req ≡ some (r', refused) =
                sym (file_changed-dispatched lstat r fn req b c d) ∙ e in
              elim (dispatched-refusal lstat r r' fn req refused f) [
                | inl (n, there) ↦ inl (
                  n,
                  named req.handler_name req.change_name b,
                  named_right req.handler_name req.change_name b,
                  c,
                  d,
                  there,
                )
                | inr kept ↦ inr kept
              ]
        ]
      ]
    ]
