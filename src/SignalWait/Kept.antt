-- ===== src/SignalWait/Kept.antt =====
-- A signal that arrives before the wait is not lost.
use baamhackl.Base.{
  ℕ, Bool, true, false, not, Bool-cases, Option, none, some, List, [], ◌∷◌, ◌++◌, ◌≡◌, ◌⊎◌, inl,
  inr, refl, ap, ◌∙◌, if◌then◌else◌, Option-cases, List-cases, arith,
}
use baamhackl.SignalWait.{
  Waiter, WaitResult, stopped, received, cancelled, setup_waiter, arrive, stop, wait,
}

-- The waiter, whether stop has been called, and the signals that have arrived since the last one was
-- received and before stop, the first one first.
pub record Signals : Type 0 where
  pub waiter : Waiter
  pub unseen : List ℕ
  pub was_stopped : Bool

abbrev pub IsIn : {A : Type 0} → A → List A → Type 0
IsIn x [] = ⊥
IsIn x (y ∷ ys) = (x ≡ y) ⊎ IsIn x ys

pub data Step (y : Signals) : Signals → Type 0 where
  arrives :
      (sig : ℕ)
      → Step y (record y {
        waiter = arrive y.waiter sig;
        unseen = if y.was_stopped then y.unseen else y.unseen ++ sig ∷ [];
      })
  stops : Step y (record y { waiter = stop y.waiter; was_stopped = true })
  receives :
      (w : Waiter) (sig : ℕ) (context_ended : Bool)
      → IsIn (w, received sig) (wait y.waiter context_ended)
      → Step y (record y { waiter = w; unseen = [] })

pub data Reach (x : Signals) : Signals → Type 0 where
  here : Reach x x
  next : {y z : Signals} → Reach x y → Step y z → Reach x z

abbrev pub started : Signals
started = record { waiter = setup_waiter; unseen = []; was_stopped = false }

abbrev pub first : List ℕ → Option ℕ
first [] = none
first (sig ∷ sigs) = some sig

first-append :
    (sigs : List ℕ) (sig : ℕ)
    → first (sigs ++ sig ∷ []) ≡ elim (first sigs) [ none ↦ some sig | some old ↦ some old ]
first-append [] sig = refl
first-append (s ∷ sigs) sig = refl

IsIn-append : {A : Type 0} (x : A) (xs ys : List A) → IsIn x (xs ++ ys) → IsIn x xs ⊎ IsIn x ys
IsIn-append x [] ys h = inr h
IsIn-append x (y ∷ xs) ys (inl e) = inl (inl e)
IsIn-append x (y ∷ xs) ys (inr h) = elim (IsIn-append x xs ys h) [
  | inl i ↦ inl (inr i)
  | inr i ↦ inr i
]

IsIn-right : {A : Type 0} (x : A) (xs ys : List A) → IsIn x ys → IsIn x (xs ++ ys)
IsIn-right x [] ys h = h
IsIn-right x (y ∷ xs) ys h = inr (IsIn-right x xs ys h)

different :
    (x : Waiter × WaitResult) (w : Waiter) (r : WaitResult) (test : Bool)
    → IsIn x (if test then (w, r) ∷ [] else [])
    → x.1 ≡ r
different x w r true (inl e) = ap (λ (z : Waiter × WaitResult). z.1) e
different x w r true (inr h) = absurd h
different x w r false h = absurd h

-- The cases of the select.
abbrev stop_case : Waiter → List (Waiter × WaitResult)
stop_case w = if w.is_closed then (w, stopped) ∷ [] else []

abbrev signal_case : Waiter → List (Waiter × WaitResult)
signal_case w = elim w.ch [ none ↦ [] | some sig ↦ (record w { ch = none }, received sig) ∷ [] ]

abbrev context_case : Waiter → Bool → List (Waiter × WaitResult)
context_case w context_ended = if context_ended then (w, cancelled) ∷ [] else []

-- Only the buffer's signal is received.
received-ch :
    (w w' : Waiter) (sig : ℕ) (context_ended : Bool)
    → IsIn (w', received sig) (wait w context_ended)
    → w' ≡ record w { ch = none }
unfolding wait
received-ch w w' sig context_ended h =
    elim (IsIn-append (w', received sig) (stop_case w)
      (signal_case w ++ context_case w context_ended) h) [
        | inl i ↦ absurd (let p = different (w', received sig) w stopped w.is_closed i in cc)
        | inr i ↦
            elim (IsIn-append (w', received sig) (signal_case w) (context_case w context_ended) i) [
              | inr j ↦
                  absurd (let p = different (w', received sig) w cancelled context_ended j in cc)
              | inl j ↦ elim (Option-cases w.ch) [
                | inl c ↦ absurd (rw c at j)
                | inr (old, c) ↦ elim (rw c at j) [
                  | inl e ↦ ap (λ (z : Waiter × WaitResult). z.0) e
                  | inr k ↦ absurd k
                ]
              ]
            ]
      ]

pub record Inv (y : Signals) : Type 0 where
  pub buffered : y.waiter.ch ≡ first y.unseen
  pub notified : y.waiter.is_notified ≡ not y.was_stopped
  pub closed : y.waiter.is_closed ≡ y.was_stopped

arrive-first :
    (w : Waiter) (sigs : List ℕ) (sig : ℕ) (over : Bool)
    → w.ch ≡ first sigs
    → w.is_notified ≡ not over
    → (arrive w sig).ch ≡ first (if over then sigs else sigs ++ sig ∷ [])
unfolding arrive
arrive-first w [] sig true e n = ground (arith, e, n)
arrive-first w [] sig false e n = ground (arith, e, n)
arrive-first w (s ∷ sigs) sig true e n = ground (arith, e, n)
arrive-first w (s ∷ sigs) sig false e n = ground (arith, e, n)

arrive-same :
    (w : Waiter) (sig : ℕ)
    → ((arrive w sig).is_notified ≡ w.is_notified) × ((arrive w sig).is_closed ≡ w.is_closed)
unfolding arrive
arrive-same w sig = elim (Bool-cases w.is_notified) [
  | inr n ↦ (grind arith, grind arith)
  | inl n ↦ elim (Option-cases w.ch) [
    | inl c ↦ (grind arith, grind arith)
    | inr (old, c) ↦ (grind arith, grind arith)
  ]
]

Step-Inv : {y z : Signals} → Step y z → Inv y → Inv z
unfolding stop
Step-Inv {y} (arrives sig) v = record {
  buffered = arrive-first y.waiter y.unseen sig y.was_stopped v.buffered v.notified;
  notified = (arrive-same y.waiter sig).0 ∙ v.notified;
  closed = (arrive-same y.waiter sig).1 ∙ v.closed;
}
Step-Inv {y} stops v = record { buffered = v.buffered; notified = refl; closed = refl }
Step-Inv {y} (receives w sig context_ended h) v =
    let p = received-ch y.waiter w sig context_ended h in
    record {
      buffered = ap (λ (u : Waiter). u.ch) p;
      notified = ap (λ (u : Waiter). u.is_notified) p ∙ v.notified;
      closed = ap (λ (u : Waiter). u.is_closed) p ∙ v.closed;
    }

Reach-Inv : {x y : Signals} → Reach x y → Inv x → Inv y
Reach-Inv here v = v
Reach-Inv (next r st) v = Step-Inv st (Reach-Inv r v)

started-Inv : Inv started
unfolding setup_waiter
started-Inv = record { buffered = refl; notified = refl; closed = refl }

signal-IsIn :
    (w : Waiter) (sig : ℕ) (context_ended : Bool)
    → w.ch ≡ some sig
    → IsIn (record w { ch = none }, received sig) (signal_case w ++ context_case w context_ended)
signal-IsIn w sig context_ended c = rw c (inl refl)

wait-IsIn :
    (w : Waiter) (sig : ℕ) (context_ended : Bool)
    → w.ch ≡ some sig
    → IsIn (record w { ch = none }, received sig) (wait w context_ended)
unfolding wait
wait-IsIn w sig context_ended c =
    IsIn-right (record w { ch = none }, received sig) (stop_case w)
      (signal_case w ++ context_case w context_ended) (signal-IsIn w sig context_ended c)

stop-IsIn :
    (w : Waiter) (context_ended : Bool)
    → w.is_closed ≡ true
    → IsIn (w, stopped) (wait w context_ended)
unfolding wait
stop-IsIn w context_ended c = rw c (inl refl)

-- Whatever has happened before, if signals have arrived since one was received, and before stop was first
-- called, a wait does not block, and may return the first of them; else the waiter has no signal. Once stop
-- has been called, a wait does not block, and may return without an error.
pub Reach-wait :
    (y : Signals) (context_ended : Bool)
    → Reach started y
    → (((y.unseen ≡ []) × (y.waiter.ch ≡ none))
        ⊎ ((sig : ℕ) × (sigs : List ℕ) × (y.unseen ≡ sig ∷ sigs)
            × IsIn (record y.waiter { ch = none }, received sig) (wait y.waiter context_ended)))
      × ((y.was_stopped ≡ false) ⊎ IsIn (y.waiter, stopped) (wait y.waiter context_ended))
Reach-wait y context_ended r =
    let v = Reach-Inv r started-Inv in
    (
      elim (List-cases y.unseen) [
        | inl e ↦ inl (e, v.buffered ∙ ap first e)
        | inr (sig, sigs, e) ↦
            let c : y.waiter.ch ≡ some sig = v.buffered ∙ ap first e in
            inr (sig, sigs, e, wait-IsIn y.waiter sig context_ended c)
      ],
      elim (Bool-cases y.was_stopped) [
        | inr b ↦ inl b
        | inl b ↦ inr (stop-IsIn y.waiter context_ended (v.closed ∙ b))
      ],
    )
