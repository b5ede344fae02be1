-- ===== src/UnixServer/Sockets.antt =====
-- A server together with the listeners that the system has open for it.
use baamhackl.Base.{
  ℕ, suc, Bool, true, false, Option, none, some, List, [], ◌∷◌, ◌++◌, ◌⊎◌, inl, inr, ◌≡◌, ◌≢◌, refl,
  sym, ap, ◌∙◌, arith, if◌then◌else◌, ◌==◌, Option-cases, Bool-cases,
}
use baamhackl.UnixServer.{
  ServerError, Server, fresh_server, is_closed, made, listen_and_serve, serve_error, close,
}

-- `accepting` are the listeners with a goroutine that accepts connections, `logged` the errors of these,
-- and `is_late` tells whether a listener was opened after Close.
pub record Sockets : Type 0 where
  pub server : Server
  pub opened : List ℕ
  pub accepting : List ℕ
  pub logged : List ServerError
  pub next_listener : ℕ
  pub is_late : Bool

abbrev pub no_sockets : Sockets
no_sockets = record {
  server = fresh_server;
  opened = [];
  accepting = [];
  logged = [];
  next_listener = 0;
  is_late = false;
}

abbrev pub without : Option ℕ → List ℕ → List ℕ
without none ls = ls
without (some l) [] = []
without (some l) (k ∷ ls) = let rest = without (some l) ls in if k == l then rest else k ∷ rest

abbrev pub log : Option ServerError → List ServerError → List ServerError
log none errs = errs
log (some e) errs = e ∷ errs

pub data Step (y : Sockets) : Sockets → Type 0 where
  -- ListenAndServe with a listener.
  listens :
      (s' : Server)
      → listen_and_serve y.server (inr y.next_listener) ≡ (s', none)
      → Step y (record y {
        server = s';
        opened = y.next_listener ∷ y.opened;
        accepting = y.next_listener ∷ y.accepting;
        next_listener = suc y.next_listener;
        is_late = is_closed y.server.quit;
      })
  -- ListenAndServe with an error.
  refuses :
      (listening : ℕ ⊎ ℕ) (s' : Server) (e : ServerError)
      → listen_and_serve y.server listening ≡ (s', some e)
      → Step y (record y { server = s' })
  closes :
      (s' : Server) (l : Option ℕ)
      → close y.server ≡ (s', l)
      → Step y (record y { server = s'; opened = without l y.opened })
  -- Accept fails for one of the goroutines, which ends.
  ends :
      (before after : List ℕ) (l e : ℕ)
      → y.accepting ≡ before ++ l ∷ after
      → Step y
          (record y { accepting = before ++ after; logged = log (serve_error y.server e) y.logged })

pub data Reach (x : Sockets) : Sockets → Type 0 where
  here : Reach x x
  next : {y z : Sockets} → Reach x y → Step y z → Reach x z

-- Nothing has been opened; the server's one listener is open; or it has been closed.
abbrev pub Phase : Server → List ℕ → Bool → Type 0
Phase s opened late =
    ((s.listener ≡ none) × (opened ≡ []) × (late ≡ false))
    ⊎ ((l : ℕ) × (s.listener ≡ some l) × (opened ≡ l ∷ []) × (s.quit ≡ some late))
    ⊎ ((l : ℕ) × (s.listener ≡ some l) × (opened ≡ []) × (s.quit ≡ some true) × (late ≡ false))

made-is_closed : (q : Option Bool) → made q ≡ some (is_closed q)
unfolding is_closed made
made-is_closed none = refl
made-is_closed (some c) = refl

started-none :
    (s s' : Server) (l : ℕ) (listening : ℕ ⊎ ℕ) (x : Option ServerError)
    → s.listener ≡ some l
    → listen_and_serve s listening ≡ (s', x)
    → (x ≢ none) × (s ≡ s')
unfolding listen_and_serve
started-none s s' l listening x a e =
    let p = rw (a, listen_and_serve) at e in
    (
      λ n. absurd (let q = ap (λ (z : Server × Option ServerError). z.1) p ∙ n in cc),
      ap (λ (z : Server × Option ServerError). z.0) p,
    )

listens-Phase :
    (s s' : Server) (opened : List ℕ) (late : Bool) (n : ℕ)
    → listen_and_serve s (inr n) ≡ (s', none)
    → Phase s opened late
    → Phase s' (n ∷ opened) (is_closed s.quit)
unfolding listen_and_serve
listens-Phase s s' opened late n e (inl (a, b, c)) =
    let p = ap (λ (z : Server × Option ServerError). z.0) (rw (a, listen_and_serve) at e) in
    rw (← p) (inr (inl (n, refl, ap (λ ls. n ∷ ls) b, made-is_closed s.quit)))
listens-Phase s s' opened late n e (inr (inl (l, a, b, c))) =
    absurd ((started-none s s' l (inr n) none a e).0 refl)
listens-Phase s s' opened late n e (inr (inr (l, a, b, c, d))) =
    absurd ((started-none s s' l (inr n) none a e).0 refl)

refuses-Phase :
    (s s' : Server) (opened : List ℕ) (late : Bool) (listening : ℕ ⊎ ℕ) (x : ServerError)
    → listen_and_serve s listening ≡ (s', some x)
    → Phase s opened late
    → Phase s' opened late
unfolding listen_and_serve
refuses-Phase s s' opened late (inl y) x e (inl (a, b, c)) =
    let p = ap (λ (z : Server × Option ServerError). z.0) (rw (a, listen_and_serve) at e) in
    rw (← p) (inl (a, b, c))
refuses-Phase s s' opened late (inr n) x e (inl (a, b, c)) =
    let p = ap (λ (z : Server × Option ServerError). z.1) (rw (a, listen_and_serve) at e) in
    absurd (cc)
refuses-Phase s s' opened late listening x e (inr (inl (l, a, b, c))) =
    rw (← (started-none s s' l listening (some x) a e).1) (inr (inl (l, a, b, c)))
refuses-Phase s s' opened late listening x e (inr (inr (l, a, b, c, d))) =
    rw (← (started-none s s' l listening (some x) a e).1) (inr (inr (l, a, b, c, d)))

close-closed : (s : Server) → s.quit ≡ some true → close s ≡ (s, none)
unfolding close
close-closed s q = grind arith

close-open :
    (s : Server) → s.quit ≡ some false → close s ≡ (record s { quit = some true }, s.listener)
unfolding close
close-open s q = rw (q, close) refl

-- Close without a listener has none to close.
close-none :
    (s s' : Server) (l : Option ℕ)
    → s.listener ≡ none
    → close s ≡ (s', l)
    → (s'.listener ≡ none) × (l ≡ none)
unfolding close
close-none s s' l a e = elim (Option-cases s.quit) [
  | inl q ↦ (grind arith, grind arith)
  | inr (b, q) ↦ elim (Bool-cases b) [
    | inl c ↦ (grind arith, grind arith)
    | inr c ↦ (grind arith, grind arith)
  ]
]

closes-Phase :
    (s s' : Server) (opened : List ℕ) (late : Bool) (l : Option ℕ)
    → close s ≡ (s', l)
    → Phase s opened late
    → Phase s' (without l opened) late
closes-Phase s s' opened late l e (inl (a, b, c)) =
    let (a', n) = close-none s s' l a e in rw n (inl (a', b, c))
closes-Phase s s' opened true l e (inr (inl (k, a, b, c))) =
    let p = sym (close-closed s c) ∙ e in
    rw (← ap (λ (z : Server × Option ℕ). z.0) p, ← ap (λ (z : Server × Option ℕ). z.1) p)
      (inr (inl (k, a, b, c)))
closes-Phase s s' opened false l e (inr (inl (k, a, b, c))) =
    let p = sym (close-open s c) ∙ e in
    rw (← ap (λ (z : Server × Option ℕ). z.0) p, ← ap (λ (z : Server × Option ℕ). z.1) p)
      (inr (inr (k, a, rw (a, b) (ground arith), refl, refl)))
closes-Phase s s' opened late l e (inr (inr (k, a, b, c, d))) =
    let p = sym (close-closed s c) ∙ e in
    rw (← ap (λ (z : Server × Option ℕ). z.0) p, ← ap (λ (z : Server × Option ℕ). z.1) p)
      (inr (inr (k, a, b, c, d)))

Step-Phase :
    {y z : Sockets}
    → Step y z
    → Phase y.server y.opened y.is_late
    → Phase z.server z.opened z.is_late
Step-Phase {y} (listens s' e) v = listens-Phase y.server s' y.opened y.is_late y.next_listener e v
Step-Phase {y} (refuses listening s' x e) v =
    refuses-Phase y.server s' y.opened y.is_late listening x e v
Step-Phase {y} (closes s' l e) v = closes-Phase y.server s' y.opened y.is_late l e v
Step-Phase {y} (ends before after l e split) v = v

Reach-Phase :
    {x y : Sockets}
    → Reach x y
    → Phase x.server x.opened x.is_late
    → Phase y.server y.opened y.is_late
Reach-Phase here v = v
Reach-Phase (next r st) v = Step-Phase st (Reach-Phase r v)

-- Whatever is called in whichever order, a server has no listener open, or its own one. If it has one,
-- Close closes it, unless it was opened after an earlier Close: then Close does nothing.
pub Reach-opened :
    (y : Sockets)
    → Reach no_sockets y
    → ((y.opened ≡ []) × (y.is_late ≡ false))
      ⊎ ((l : ℕ) × (y.opened ≡ l ∷ [])
          × (y.server.listener ≡ some l)
          × (((is_closed y.server.quit ≡ false)
                × (close y.server ≡ (record y.server { quit = some true }, some l)))
              ⊎ ((y.is_late ≡ true) × (close y.server ≡ (y.server, none)))))
unfolding is_closed
Reach-opened y r = elim (Reach-Phase r (inl (refl, refl, refl))) [
  | inl (a, b, c) ↦ inl (b, c)
  | inr rest ↦ elim rest [
    | inr (l, a, b, c, d) ↦ inl (b, d)
    | inl (l, a, b, c) ↦ inr (
      l,
      b,
      a,
      elim (Bool-cases y.is_late) [
        | inl late ↦ inr (late, close-closed y.server (c ∙ ap some late))
        | inr late ↦ inl (
          rw (c ∙ ap some late, is_closed) refl,
          close-open y.server (c ∙ ap some late)
              ∙ ap (λ (x : Option ℕ). (record y.server { quit = some true }, x)) a,
        )
      ],
    )
  ]
]
