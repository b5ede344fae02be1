-- ===== src/SendFileChanges/Delivered.antt =====
-- The command at work with the router of the server as its service: what was sent is pending.
use baamhackl.Base.{
  ℕ, ◌≡◌, ◌≢◌, sym, ap, ◌∙◌, subst, inl, inr, refl, Option, none, some, List, [], ◌∷◌, ◌⊎◌, All,
  Bool-cases, Option-cases,
}
use baamhackl.FilePaths.{FilePath, same_name, clean}
use baamhackl.Waryio.{FileInfo, Result}
use baamhackl.Watch.{Refusal}
use baamhackl.Watch.Router.{Router, FileChangedRequest, file_changed}
use baamhackl.Watch.Router.Accepted.{IsPending, file_changed-IsPending}
use baamhackl.Watchman.FileChange.{FileChange}
use baamhackl.SendFileChanges.{SendError, Request, Service, send_all, connect_and_send, execute}

-- FileChanged of internal/service/service.go passes the request on to the router, of which a panic ends
-- the connection.
abbrev pub answer : Router → Option (Router × Option Refusal) → Router × Option ℕ
answer r none = (r, some 0)
answer r (some (r', none)) = (r', none)
answer r (some (r', some x)) = (r', some 1)

abbrev pub request : Request → FileChangedRequest
request req = record {
  handler_name = req.handler_name;
  root_dir = req.root_dir;
  change_name = req.change.name;
}

-- The router behind the socket, with the outcomes of dialing and closing; `fn` is the function of new tasks.
abbrev pub router_service :
    (FilePath → Result FileInfo) → ℕ → (FilePath → Option ℕ) → Option ℕ → Service Router
router_service lstat fn dialed closed = record {
  dial = λ r path. (r, dialed path);
  call = λ r req. answer r (file_changed lstat r fn (request req));
  close = λ r. (r, closed);
}

answer-none :
    (r : Router) (a : Option (Router × Option Refusal))
    → (answer r a).1 ≡ none
    → a ≡ some ((answer r a).0, none)
answer-none r none e = absurd (cc)
answer-none r (some (r', none)) e = refl
answer-none r (some (r', some x)) e = absurd (cc)

module _ (lstat : FilePath → Result FileInfo) (fn : ℕ) (dialed : FilePath → Option ℕ)
    (closed : Option ℕ) (handler_name root : FilePath) where
  abbrev service : Service Router
  service = router_service lstat fn dialed closed

  abbrev called : FileChange → Router → Router × Option ℕ
  called c r = service.call r (record { handler_name = handler_name; root_dir = root; change = c })

  called-IsPending :
      (c : FileChange) (r : Router) (name : FilePath)
      → (called c r).1 ≡ none
      → IsPending r handler_name name ⊎ (name ≡ clean c.name)
      → IsPending (called c r).0 handler_name name
  called-IsPending c r name e h =
      let req : FileChangedRequest =
        request (record { handler_name = handler_name; root_dir = root; change = c }) in
      file_changed-IsPending lstat r (called c r).0 fn req name
        (answer-none r (file_changed lstat r fn req) e) h

  send_all-failed :
      (c : FileChange) (cs : List FileChange) (r : Router) (x : ℕ)
      → (called c r).1 ≡ some x
      → (send_all service handler_name root (c ∷ cs) r).1 ≢ none
  unfolding send_all
  send_all-failed c cs r x k e = let f = rw (k, send_all) at e in cc

  send_all-keeps :
      (cs : List FileChange) (r : Router) (name : FilePath)
      → (send_all service handler_name root cs r).1 ≡ none
      → IsPending r handler_name name
      → IsPending (send_all service handler_name root cs r).0 handler_name name
  unfolding send_all
  send_all-keeps [] r name e h = h
  send_all-keeps (c ∷ cs) r name e h = elim (Option-cases (called c r).1) [
    | inr (x, k) ↦ absurd (send_all-failed c cs r x k e)
    | inl k ↦
        rw (k, send_all)
          (send_all-keeps cs (called c r).0 name (rw (k, send_all) at e)
            (called-IsPending c r name k (inl h)))
  ]

  send_all-next :
      (c : FileChange) (cs : List FileChange) (r : Router)
      → (called c r).1 ≡ none
      → send_all service handler_name root (c ∷ cs) r
        ≡ send_all service handler_name root cs (called c r).0
  unfolding send_all
  send_all-next c cs r k = rw (k, send_all) refl

  -- The changes that are pending.
  abbrev pub ArePending : List FileChange → Router × Option SendError → Type 0
  ArePending cs z = All (λ (c : FileChange). IsPending z.0 handler_name (clean c.name)) cs

  send_all-ArePending :
      (cs : List FileChange) (r : Router)
      → (send_all service handler_name root cs r).1 ≡ none
      → ArePending cs (send_all service handler_name root cs r)
  send_all-ArePending [] r e = tt
  send_all-ArePending (c ∷ cs) r e = elim (Option-cases (called c r).1) [
    | inr (x, k) ↦ absurd (send_all-failed c cs r x k e)
    | inl k ↦
        let p = send_all-next c cs r k in
        let e' : (send_all service handler_name root cs (called c r).0).1 ≡ none =
          ap (λ (z : Router × Option SendError). z.1) (sym p) ∙ e in
        subst (ArePending (c ∷ cs)) (sym p) (
          send_all-keeps cs (called c r).0 (clean c.name) e'
              (called-IsPending c r (clean c.name) k (inr refl)),
          send_all-ArePending cs (called c r).0 e',
        )
  ]

  connect_and_send-ArePending :
      (socket_path : FilePath) (cs : List FileChange) (r : Router)
      → (connect_and_send service socket_path handler_name root cs r).1 ≡ none
      → ArePending cs (connect_and_send service socket_path handler_name root cs r)
  unfolding connect_and_send
  connect_and_send-ArePending socket_path cs r e = elim (Option-cases (dialed socket_path)) [
    | inr (x, d) ↦ absurd (let f = rw (d, connect_and_send) at e in cc)
    | inl d ↦ rw (d, connect_and_send) (send_all-ArePending cs r (rw (d, connect_and_send) at e))
  ]

  -- Where send-file-changes returns no error, each file that it was told of has a pending task, by its
  -- cleaned name, in the handler that it was given, as long as nothing else changes the router meanwhile.
  pub execute-ArePending :
      (socket_path : FilePath) (cs : List FileChange) (r : Router)
      → (execute service socket_path handler_name (inr root) (inr cs) r).1 ≡ none
      → ArePending cs (execute service socket_path handler_name (inr root) (inr cs) r)
  unfolding execute
  execute-ArePending socket_path [] r e = elim (Bool-cases (same_name handler_name [])) [
    | inl b ↦ absurd (let f = rw (b, execute) at e in cc)
    | inr b ↦ tt
  ]
  execute-ArePending socket_path (c ∷ cs) r e = elim (Bool-cases (same_name handler_name [])) [
    | inl b ↦ absurd (let f = rw (b, execute) at e in cc)
    | inr b ↦
        let p : execute service socket_path handler_name (inr root) (inr (c ∷ cs)) r
            ≡ connect_and_send service socket_path handler_name root (c ∷ cs) r =
          rw (b, execute) refl in
        subst (ArePending (c ∷ cs)) (sym p)
          (connect_and_send-ArePending socket_path (c ∷ cs) r (rw (b, execute) at e))
  ]
