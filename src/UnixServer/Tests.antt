-- ===== src/UnixServer/Tests.antt =====
-- Tests of internal/unixserver/unixserver.go: listening fails, the server is closed, and listening works.
use baamhackl.Base.{ℕ, true, false, none, some, [], ◌∷◌, ◌⊎◌, inl, ◌≡◌, refl}
use baamhackl.UnixServer.{Server, is_closed, listen_and_serve, close, unable_to_listen}
use baamhackl.UnixServer.Sockets.{
  Sockets, no_sockets, Reach, here, next, listens, refuses, closes, Reach-opened,
}

late : (y : Sockets) × Reach no_sockets y
unfolding listen_and_serve close baamhackl.UnixServer.made
late =
    let failed : (y : Sockets) × Reach no_sockets y =
      (_, next here (refuses (inl 98) _ (unable_to_listen 98) refl)) in
    let ended : (y : Sockets) × Reach no_sockets y = (_, next failed.1 (closes _ _ refl)) in
    (_, next ended.1 (listens _ refl))

Reach-opened_example :
    ((late.0.opened ≡ []) × (late.0.is_late ≡ false))
    ⊎ ((l : ℕ) × (late.0.opened ≡ l ∷ [])
        × (late.0.server.listener ≡ some l)
        × (((is_closed late.0.server.quit ≡ false)
              × (close late.0.server ≡ (record late.0.server { quit = some true }, some l)))
            ⊎ ((late.0.is_late ≡ true) × (close late.0.server ≡ (late.0.server, none)))))
Reach-opened_example = Reach-opened late.0 late.1

stays_open : late.0.opened ≡ 0 ∷ []
unfolding late listen_and_serve close baamhackl.UnixServer.made
stays_open = refl
