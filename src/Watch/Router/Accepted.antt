-- ===== src/Watch/Router/Accepted.antt =====
-- What an accepted request leaves behind: its file has a pending task.
use mathlib.Core.Option
use baamhackl.Base.{
  ℕ, ◌≡◌, ◌⊎◌, inl, inr, refl, sym, ap, ◌∙◌, subst, ◌||◌, Option, none, some, List, [], ◌∷◌,
  Bool-cases, Option-cases, Sum-cases,
}
use baamhackl.Scheduler.{add}
use baamhackl.FilePaths.{FilePath, same_name, is_abs, clean}
use baamhackl.Waryio.{FileInfo, Result}
use baamhackl.Waryio.RelDir.{same_stat}
use baamhackl.Watch.{Handler, Shared, Refusal, handle, handle_name, lookup, put}
use baamhackl.Watch.Pending.Names.{lookup-put}
use baamhackl.Watch.Pending.Live.{handle_name-known, handle_name-new}
use baamhackl.Watch.Router.{Router, FileChangedRequest, shared, update, dispatched, file_changed}

-- There is an entry for the name.
abbrev pub IsKnown : {A : Type 0} → FilePath → List (FilePath × A) → Type 0
IsKnown {A} name m = (a : A) × (lookup name m ≡ some a)

pub IsKnown-put :
    {A : Type 0} (n name : FilePath) (a : A) (m : List (FilePath × A))
    → IsKnown n m
    → IsKnown n (put name a m)
unfolding lookup put
IsKnown-put n name a [] (b, e) = absurd (cc)
IsKnown-put n name a ((k, b) ∷ m) (c, l) = elim (Bool-cases (same_name k name)) [
  | inl p ↦ elim (Bool-cases (same_name k n)) [
    | inl q ↦ (a, rw (p, put) (rw (q, lookup) refl))
    | inr q ↦ (c, rw (p, put) (rw (q, lookup) (rw (q, lookup) at l)))
  ]
  | inr p ↦ elim (Bool-cases (same_name k n)) [
    | inl q ↦ (b, rw (p, put) (rw (q, lookup) refl))
    | inr q ↦
        let (d, g) = IsKnown-put n name a m (c, rw (q, lookup) at l) in
        (d, rw (p, put) (rw (q, lookup) g))
  ]
]

handle_name-IsKnown :
    (s s' : Shared) (fn : ℕ) (name n : FilePath)
    → handle_name s fn name ≡ some s'
    → (IsKnown n s.handler.pending ⊎ (n ≡ name))
    → IsKnown n s'.handler.pending
unfolding handle_name
handle_name-IsKnown s s' fn name n e h = elim (Option-cases (lookup name s.handler.pending)) [
  | inr (seq, l) ↦
      let p = handle_name-known s s' fn seq name l e in
      rw p (elim h [ inl k ↦ k | inr same ↦ rw same (seq, l) ])
  | inl l ↦ elim (Option-cases (add s.sched s.counter (some fn) [])) [
    | inl none_added ↦ absurd (let f = rw (l, none_added, handle_name) at e in cc)
    | inr ((sched', seq), g) ↦
        let p = handle_name-new s s' fn name sched' seq l g e in
        rw p (elim h [
          | inl k ↦ IsKnown-put n name seq s.handler.pending k
          | inr same ↦ rw same (seq, lookup-put name seq s.handler.pending)
        ])
  ]
]

answers :
    {A : Type 0} (a b : A) (x : Refusal)
    → ◌≡◌ {A = Option (A × Option Refusal)} (some (a, some x)) (some (b, none))
    → ⊥
answers {A} a b x e =
    let p =
      ap (λ (z : A × Option Refusal). z.1) (Option.some-injective {A = A × Option Refusal} _ _ e) in
    cc

handle-accepted :
    (lstat : FilePath → Result FileInfo) (s s' : Shared) (fn : ℕ) (root name : FilePath)
    → handle lstat s fn root name ≡ some (s', none)
    → handle_name s fn (clean name) ≡ some s'
unfolding handle
handle-accepted lstat s s' fn root name e = elim (Sum-cases (same_stat lstat root s.handler.path)) [
  | inl (errs, k) ↦ absurd (let f = rw (k, handle) at e in answers s s' _ f)
  | inr (same, k) ↦ elim (Bool-cases same) [
    | inr t ↦ absurd (let f = rw (k, t, handle) at e in answers s s' _ f)
    | inl t ↦ elim (Option-cases (handle_name s fn (clean name))) [
      | inl n ↦ absurd (let f = rw (k, t, n, handle) at e in cc)
      | inr (z, n) ↦
          let p =
            Option.some-injective {A = Shared × Option Refusal} _ _ (rw (k, t, n, handle) at e) in
          n ∙ ap (λ (z : Shared × Option Refusal). some z.0) p
    ]
  ]
]

dispatched-accepted :
    (lstat : FilePath → Result FileInfo) (r r' : Router) (fn : ℕ) (req : FileChangedRequest)
    → dispatched lstat r fn req ≡ some (r', none)
    → (h : Handler) × (s' : Shared) × (lookup req.handler_name r.handler_by_name ≡ some h)
      × (handle_name (shared r h) fn (clean req.change_name) ≡ some s')
      × (r' ≡ update r req s')
unfolding dispatched
dispatched-accepted lstat r r' fn req e =
    elim (Option-cases (lookup req.handler_name r.handler_by_name)) [
      | inl l ↦ absurd (let f = rw (l, dispatched) at e in answers r r' _ f)
      | inr (h, l) ↦
          elim (Option-cases (handle lstat (shared r h) fn req.root_dir req.change_name)) [
            | inl k ↦ absurd (let f = rw (l, k, dispatched) at e in cc)
            | inr ((s', refused), k) ↦
                let p =
                  Option.some-injective {A = Router × Option Refusal} _ _
                    (rw (l, k, dispatched) at e) in
                let q : refused ≡ none = ap (λ (z : Router × Option Refusal). z.1) p in
                (
                  h,
                  s',
                  l,
                  handle-accepted lstat (shared r h) s' fn req.root_dir req.change_name (rw q at k),
                  sym (ap (λ (z : Router × Option Refusal). z.0) p),
                )
          ]
    ]

-- The request's handler takes the change.
pub file_changed-accepted :
    (lstat : FilePath → Result FileInfo) (r r' : Router) (fn : ℕ) (req : FileChangedRequest)
    → file_changed lstat r fn req ≡ some (r', none)
    → (h : Handler) × (s' : Shared) × (lookup req.handler_name r.handler_by_name ≡ some h)
      × (handle_name (shared r h) fn (clean req.change_name) ≡ some s')
      × (r' ≡ update r req s')
unfolding file_changed
file_changed-accepted lstat r r' fn req e =
    elim (Bool-cases (same_name req.handler_name [] || same_name req.change_name [])) [
      | inl b ↦ absurd (let f = rw (b, file_changed) at e in answers r r' _ f)
      | inr b ↦ elim (Bool-cases (is_abs req.root_dir)) [
        | inr c ↦ absurd (let f = rw (b, c, file_changed) at e in answers r r' _ f)
        | inl c ↦ elim (Bool-cases (is_abs req.change_name)) [
          | inl d ↦ absurd (let f = rw (b, c, d, file_changed) at e in answers r r' _ f)
          | inr d ↦ dispatched-accepted lstat r r' fn req (rw (b, c, d, file_changed) at e)
        ]
      ]
    ]

-- The handler that the router knows by the one name has a pending task for the other.
abbrev pub IsPending : Router → FilePath → FilePath → Type 0
IsPending r handler_name name =
    (h : Handler) × (lookup handler_name r.handler_by_name ≡ some h) × IsKnown name h.pending

pub file_changed-IsPending :
    (lstat : FilePath → Result FileInfo) (r r' : Router) (fn : ℕ) (req : FileChangedRequest)
    (name : FilePath)
    → file_changed lstat r fn req ≡ some (r', none)
    → (IsPending r req.handler_name name ⊎ (name ≡ clean req.change_name))
    → IsPending r' req.handler_name name
file_changed-IsPending lstat r r' fn req name e h =
    let (g, s', l, taken, p) = file_changed-accepted lstat r r' fn req e in
    let known = handle_name-IsKnown (shared r g) s' fn (clean req.change_name) name taken (elim h [
      | inr same ↦ inr same
      | inl (g', l', k) ↦ inl (
          subst (λ (x : Handler). IsKnown name x.pending)
            (Option.some-injective {A = Handler} g' g (sym l' ∙ l)) k)
    ]) in
    rw p (s'.handler, lookup-put req.handler_name s'.handler r.handler_by_name, known)
