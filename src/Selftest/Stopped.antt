-- ===== src/Selftest/Stopped.antt =====
-- The Watchman server of the self-test does not outlive it.
use baamhackl.Base.{◌≡◌, inl, inr, Bool, true, false, none, List, [], Bool-cases, Option-cases}
use baamhackl.Selftest.{ServerCalls, append_error-none, stop_process, serve_ready, with_server}

module _ {W E : Type 0} (calls : ServerCalls W E) where
  -- What is taken of the system, where `is_alive` tells whether a process of the server is left: one that is
  -- known to have exited is gone, after a signal that was sent and the wait none is left, and closing the
  -- log starts none.
  pub record Laws (is_alive : W → Bool) : Type 0 where
    pub is_exited : (w : W) → calls.is_exited w ≡ true → is_alive w ≡ false
    pub kill :
        (w : W) → (calls.kill w).1 ≡ none → is_alive (calls.wait_ended (calls.kill w).0) ≡ false
    pub close_log : (w : W) → is_alive w ≡ false → is_alive (calls.close_log w).0 ≡ false

  stop_process-IsStopped :
      (is_alive : W → Bool) (z : W × List E)
      → Laws is_alive
      → (stop_process calls z).1 ≡ []
      → is_alive (stop_process calls z).0 ≡ false
  unfolding stop_process
  stop_process-IsStopped is_alive (w, errs) laws e = elim (Bool-cases (calls.is_exited w)) [
    | inl x ↦ rw (x, stop_process) (laws.is_exited w x)
    | inr x ↦
        let sent = (append_error-none errs (calls.kill w).1 (rw (x, stop_process) at e)).1 in
        rw (x, stop_process) (laws.kill w sent)
  ]

  -- Where withServer returns no error, no process of the server is left after it, whatever the tests do. It
  -- takes that a process that is known to have exited is gone, and that none is left after a signal that
  -- was sent and the wait.
  pub with_server-IsStopped :
      (is_alive : W → Bool) (has_deadline : Bool) (ready : W → W × List E) (w : W)
      → Laws is_alive
      → (with_server calls has_deadline ready w).1 ≡ []
      → is_alive (with_server calls has_deadline ready w).0 ≡ false
  unfolding with_server
  with_server-IsStopped is_alive false ready w laws e =
      absurd (let p = (append_error-none _ _ e).0 in cc)
  with_server-IsStopped is_alive true ready w laws e = elim (Option-cases (calls.start w).1) [
    | inr (x, s) ↦ absurd (let p = (append_error-none _ _ (rw (s, with_server) at e)).0 in cc)
    | inl s ↦
        let stopped = (append_error-none _ _ (rw (s, with_server) at e)).0 in
        rw (s, with_server)
          (laws.close_log _ (
            stop_process-IsStopped is_alive (serve_ready calls ready (calls.start w).0) laws
              stopped))
  ]
