-- ===== src/Trigger/Group/Deleted.antt =====
-- DeleteAll takes back what SetAll has set up.
use baamhackl.Base.{
  append_end_nonempty, Bool, false, Option, none, some, List, [], ◌∷◌, ◌++◌, ◌≡◌, refl, ap, subst,
  ◌⊎◌, inl, inr, arith, Bool-cases, Option-cases, Sum-cases,
}
use baamhackl.FilePaths.{FilePath}
use baamhackl.Waryio.{Result}
use baamhackl.Config.{HandlerConfig}
use baamhackl.Trigger.{TriggerConfig, new_trigger_config}
use baamhackl.Trigger.Group.{
  TriggerError, Descriptor, Calls, TriggerSetter, new_trigger_setter, Group, after, is_cancelled,
  first_error, descriptor, set_config, do_trigger, set_handlers, set_all, delete_handlers,
  delete_all,
}

-- One of the handlers has the path `p` and the name `n`.
abbrev pub Owns : {F : Type 0} → FilePath → FilePath → List (HandlerConfig F) → Type 0
Owns p n [] = ⊥
Owns p n (h ∷ hs) = ((p ≡ h.path) × (n ≡ h.name)) ⊎ Owns p n hs

Owns-append :
    {F : Type 0} (p n : FilePath) (hs : List (HandlerConfig F)) (h : HandlerConfig F)
    → Owns p n hs ⊎ ((p ≡ h.path) × (n ≡ h.name))
    → Owns p n (hs ++ h ∷ [])
Owns-append p n [] h (inl o) = absurd o
Owns-append p n [] h (inr e) = inl e
Owns-append p n (k ∷ hs) h (inl (inl e)) = inl e
Owns-append p n (k ∷ hs) h (inl (inr o)) = inr (Owns-append p n hs h (inl o))
Owns-append p n (k ∷ hs) h (inr e) = inr (Owns-append p n hs h (inr e))

-- How the calls act on a trigger, given by path and name, that is not set: only TriggerSet sets one, the
-- one it is called for, be it that it fails or not. TriggerDel takes one away if it does not fail.
pub record Tracks {W : Type 0} (calls : Calls W) (Absent : FilePath → FilePath → W → Type 0)
    : Type 0 where
  pub writing :
      (w : W) (file : FilePath) (cfg : TriggerConfig) (p n : FilePath)
      → Absent p n w
      → Absent p n (calls.write_file w file cfg).0
  pub changing : (w : W) (file p n : FilePath) → Absent p n w → Absent p n (calls.chmod w file).0
  pub watching :
      (done : Bool) (w : W) (root p n : FilePath)
      → Absent p n w
      → Absent p n (calls.watch_set done w root).0
  pub setting :
      (done : Bool) (w : W) (root : FilePath) (d : Descriptor) (p n : FilePath)
      → Absent p n w
      → Absent p n (calls.trigger_set done w root d).0 ⊎ ((p ≡ root) × (n ≡ d.name))
  pub deleting :
      (w : W) (p n : FilePath)
      → (calls.trigger_del w p n).1 ≡ none
      → Absent p n (calls.trigger_del w p n).0
  pub keeping :
      (w : W) (root name p n : FilePath)
      → Absent p n w
      → Absent p n (calls.trigger_del w root name).0

after-Absent :
    {W : Type 0} (P : W → Type 0) (r : W × Option TriggerError) (next : W → W × Option TriggerError)
    → P r.0
    → ((w : W) → P w → P (next w).0)
    → P (after r next).0
unfolding after
after-Absent P (w, none) next h f = f w h
after-Absent P (w, some e) next h f = h

after-last :
    {W : Type 0} (P : W → Type 0) (Q : Type 0) (r : W × Option TriggerError)
    (next : W → W × Option TriggerError)
    → P r.0
    → ((w : W) → P w → P (next w).0 ⊎ Q)
    → P (after r next).0 ⊎ Q
unfolding after
after-last P Q (w, none) next h f = f w h
after-last P Q (w, some e) next h f = inl h

module _ {F W : Type 0} (calls : Calls W) (Absent : FilePath → FilePath → W → Type 0)
    (tracks : Tracks calls Absent) (p n : FilePath) where
  set_config-Absent :
      (s : TriggerSetter) (fields : List FilePath) (done : Bool) (w : W) (h : HandlerConfig F)
      (cfg : TriggerConfig)
      → Absent p n w
      → Absent p n (set_config calls s fields done w h cfg).0 ⊎ ((p ≡ h.path) × (n ≡ h.name))
  unfolding set_config
  set_config-Absent s fields done w h cfg a =
      after-last (Absent p n) ((p ≡ h.path) × (n ≡ h.name)) _ _
        (after-Absent (Absent p n) _ _
          (after-Absent (Absent p n) _ _ (tracks.writing w cfg.config_file_path cfg p n a)
            (λ w a. tracks.changing w cfg.config_file_path p n a))
          (λ w a. tracks.watching done w h.path p n a))
        (λ w a. tracks.setting done w h.path (descriptor s fields h cfg) p n a)

  do_trigger-Absent :
      (sort : List FilePath → List FilePath) (s : TriggerSetter) (fields : List FilePath)
      (done : Bool) (w : W) (h : HandlerConfig F)
      → Absent p n w
      → Absent p n (do_trigger calls sort s fields done w h).0 ⊎ ((p ≡ h.path) × (n ≡ h.name))
  unfolding do_trigger set_config
  do_trigger-Absent sort s fields done w h a = elim (Option-cases (new_trigger_config sort h)) [
    | inl e ↦ inl (rw (e, do_trigger) a)
    | inr (cfg, e) ↦ elim (Bool-cases (calls.marshals cfg)) [
      | inl m ↦ rw (e, m, do_trigger) (set_config-Absent s fields done w h cfg a)
      | inr m ↦ inl (rw (e, m, do_trigger) a)
    ]
  ]

  -- The first error is returned in the end.
  set_handlers-failed :
      (act : Bool → W → HandlerConfig F → W × Option TriggerError) (hs : List (HandlerConfig F))
      (x : TriggerError) (w : W) (g : Group F)
      → (set_handlers calls act hs (some x) w g).2 ≡ some x
  unfolding set_handlers first_error
  set_handlers-failed act [] x w g = refl
  set_handlers-failed act (h ∷ hs) x w g =
      let done = is_cancelled (some x) (calls.context_done w) in
      elim (Option-cases (act done w h).1) [
        | inl e ↦ rw (e, set_handlers) (set_handlers-failed act hs x (act done w h).0 _)
        | inr (err, e) ↦ rw (e, set_handlers) (set_handlers-failed act hs x (act done w h).0 g)
      ]

  set_handlers-Owns :
      (act : Bool → W → HandlerConfig F → W × Option TriggerError)
      → ((done : Bool) (w : W) (h : HandlerConfig F)
          → Absent p n w
          → Absent p n (act done w h).0 ⊎ ((p ≡ h.path) × (n ≡ h.name)))
      → (hs : List (HandlerConfig F)) (w : W) (g : Group F) → Absent p n w ⊎ Owns p n g.configured
      → (set_handlers calls act hs none w g).2 ≡ none
      → Absent p n (set_handlers calls act hs none w g).0
        ⊎ Owns p n (set_handlers calls act hs none w g).1.configured
  unfolding set_handlers first_error
  set_handlers-Owns act f [] w g o ok = o
  set_handlers-Owns act f (h ∷ hs) w g o ok =
      let done = is_cancelled none (calls.context_done w) in
      let w' = (act done w h).0 in
      let kept : Group F = record g { configured = g.configured ++ h ∷ [] } in
      elim (Option-cases (act done w h).1) [
        | inl e ↦
            rw (e, set_handlers)
              (set_handlers-Owns act f hs w' kept
                (elim o [
                  | inr q ↦ inr (Owns-append p n g.configured h (inl q))
                  | inl a ↦ elim (f done w h a) [
                    | inl a' ↦ inl a'
                    | inr q ↦ inr (Owns-append p n g.configured h (inr q))
                  ]
                ])
                (rw (e, set_handlers) at ok))
        | inr (err, e) ↦ absurd (
            let failed = set_handlers-failed act hs err w' g in
            let ok' = rw (e, set_handlers) at ok in cc)
      ]

  delete_handlers-Absent :
      (hs : List (HandlerConfig F)) (w : W)
      → Absent p n w ⊎ Owns p n hs
      → (delete_handlers calls hs w).1 ≡ []
      → (delete_handlers calls hs w).2 ≡ false
      → Absent p n (delete_handlers calls hs w).0
  unfolding delete_handlers
  delete_handlers-Absent [] w (inl a) e f = a
  delete_handlers-Absent [] w (inr o) e f = absurd o
  delete_handlers-Absent (h ∷ hs) w o e f =
      let w' = (calls.trigger_del w h.path h.name).0 in
      elim (Bool-cases (calls.context_done w)) [
        | inl d ↦ absurd (ground arith)
        | inr d ↦ elim (Option-cases (calls.trigger_del w h.path h.name).1) [
          | inr (err, k) ↦ absurd (ground arith)
          | inl k ↦
              rw (d, delete_handlers)
                (delete_handlers-Absent hs w'
                  (elim o [
                    | inl a ↦ inl (tracks.keeping w h.path h.name p n a)
                    | inr (inl (same, alike)) ↦
                        inl (rw (same, alike) (tracks.deleting w h.path h.name k))
                    | inr (inr q) ↦ inr q
                  ])
                  (rw (d, k, delete_handlers) at e) (rw (d, delete_handlers) at f))
        ]
      ]

  delete_all-Absent :
      (g : Group F) (w : W)
      → Absent p n w ⊎ Owns p n g.configured
      → (delete_all calls g w).1 ≡ []
      → Absent p n (delete_all calls g w).0
  unfolding delete_all
  delete_all-Absent g w o e = elim (Bool-cases (delete_handlers calls g.configured w).2) [
    | inl f ↦ absurd (append_end_nonempty _ _ (rw f at e))
    | inr f ↦ delete_handlers-Absent g.configured w o (rw f at e) f
  ]

  -- If SetAll starts where a trigger is not set and no handler configured, and returns no error, in which
  -- order its goroutines ever run, and DeleteAll afterwards returns no error either, the trigger is not set
  -- in the end. It takes that only TriggerSet sets a trigger, the one it is called for, and that TriggerDel
  -- takes one away if it does not fail.
  pub set_all-delete_all :
      (sort : List FilePath → List FilePath) (exe : Result FilePath)
      (subcommand socket_path : FilePath) (fields : List FilePath) (order : List (HandlerConfig F))
      (w w1 : W) (g1 : Group F)
      → Absent p n w
      → set_all calls sort exe subcommand socket_path fields order w (record { configured = [] })
        ≡ (w1, g1, none)
      → (delete_all calls g1 w1).1 ≡ []
      → Absent p n (delete_all calls g1 w1).0
  unfolding set_all
  set_all-delete_all sort exe subcommand socket_path fields order w w1 g1 a e f =
      let kept : W × Group F × Option TriggerError → Type 0 =
        λ z. Absent p n z.0 ⊎ Owns p n z.1.configured in
      delete_all-Absent g1 w1
        (elim (Sum-cases (new_trigger_setter exe subcommand socket_path)) [
          | inl (x, k) ↦ absurd (
              let q = ap (λ (z : W × Group F × Option TriggerError). z.2) (rw (k, set_all) at e) in
              cc)
          | inr (s, k) ↦
              let done = rw (k, set_all) at e in
              subst kept done (
                set_handlers-Owns (do_trigger calls sort s fields) (do_trigger-Absent sort s fields)
                  order w (record { configured = [] }) (inl a)
                  (ap (λ (z : W × Group F × Option TriggerError). z.2) done))
        ])
        f
