-- ===== src/UnixServer.antt =====
-- internal/unixserver/unixserver.go: a server on a Unix socket, and ListenAndServe of
-- internal/service/service.go. net.Listen and the registration with net/rpc are parameters.
pub mod Sockets
mod Tests
use baamhackl.Base.{ℕ, Bool, true, false, Option, none, some, List, [], ◌∷◌, ◌⊎◌, inl, inr}

pub data ServerError : Type 0 where
  already_started : ServerError
  unable_to_listen : ℕ → ServerError
  accept_failed : ℕ → ServerError
  not_registered : ℕ → ServerError

-- Server, as far as it changes: the listener by its number, and the channel quit, which is nil, open or
-- closed; `true` is closed.
pub record Server : Type 0 where
  pub listener : Option ℕ
  pub quit : Option Bool

abbrev pub fresh_server : Server
fresh_server = record { listener = none; quit = none }

-- Whether a receive from quit goes through.
unfoldable pub is_closed : Option Bool → Bool
is_closed none = false
is_closed (some closed) = closed

-- A nil channel is made.
unfoldable pub made : Option Bool → Option Bool
made none = some false
made (some closed) = some closed

-- ListenAndServe, for the result of net.Listen; where there is no error a goroutine runs serve.
unfoldable pub listen_and_serve : Server → ℕ ⊎ ℕ → Server × Option ServerError
listen_and_serve s listening = elim s.listener [
  | some l ↦ (s, some already_started)
  | none ↦ elim listening [
    | inl e ↦ (record s { quit = made s.quit }, some (unable_to_listen e))
    | inr l ↦ (record s { quit = made s.quit; listener = some l }, none)
  ]
]

-- The error that serve returns when Accept has failed.
unfoldable pub serve_error : Server → ℕ → Option ServerError
serve_error s e = elim (is_closed s.quit) [ true ↦ none | false ↦ some (accept_failed e) ]

-- Close, with the listener that is to be closed.
unfoldable pub close : Server → Server × Option ℕ
close s = elim s.quit [
  | none ↦ (s, none)
  | some closed ↦ elim closed [
    | true ↦ (s, none)
    | false ↦ (record s { quit = some true }, s.listener)
  ]
]

-- ListenAndServe of the service: a new server, for the results of the registration and of net.Listen.
unfoldable pub serve_service : Option ℕ → ℕ ⊎ ℕ → ServerError ⊎ Server
serve_service registered listening =
    let (s, err) = listen_and_serve fresh_server listening in
    elim registered [
      | some e ↦ inl (not_registered e)
      | none ↦ elim err [ some e ↦ inl e | none ↦ inr s ]
    ]
