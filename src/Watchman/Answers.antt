-- ===== src/Watchman/Answers.antt =====
-- When a call of the client goes through.
use baamhackl.Base.{
  true, Option, none, some, List, [], ◌≡◌, arith, Bool-cases, Option-cases, inl, inr,
}
use baamhackl.FilePaths.{FilePath}
use baamhackl.Watchman.{
  Response, ClientCalls, response_error, is_encodable, finish_process, run_process, run_client,
}

-- Wait has succeeded, and the response that was decoded before holds no error.
pub record IsAnswered {W I : Type 0} (calls : ClientCalls W I) (args : List FilePath)
    (input : Option I) (w : W) : Type 0 where
  pub response : Response
  pub encodable : is_encodable calls input ≡ true
  pub piped : (calls.open_pipe w).1 ≡ none
  pub started : (calls.start (calls.open_pipe w).0 args input).1 ≡ none
  pub decoded : (calls.decode (calls.start (calls.open_pipe w).0 args input).0).1 ≡ some response
  pub waited :
      (calls.wait (calls.decode (calls.start (calls.open_pipe w).0 args input).0).0).1 ≡ none
  pub no_error : response_error (some response) ≡ none

module _ {W I : Type 0} (calls : ClientCalls W I) (args : List FilePath) (input : Option I)
    (w : W) where
  finish_process-none :
      (v : W)
      → (finish_process calls v).1 ≡ none
      → (r : Response) × ((calls.decode v).1 ≡ some r)
        × ((calls.wait (calls.decode v).0).1 ≡ none)
        × (response_error (some r) ≡ none)
  unfolding finish_process response_error
  finish_process-none v e = elim (Option-cases (calls.wait (calls.decode v).0).1) [
    | inr (x, k) ↦ absurd (grind arith)
    | inl k ↦ elim (Option-cases (calls.decode v).1) [
      | inl d ↦ absurd (grind arith)
      | inr (r, d) ↦ (r, d, k, grind arith)
    ]
  ]

  run_process-none :
      (run_process calls args input w).1 ≡ none
      → (is_encodable calls input ≡ true)
        × ((calls.open_pipe w).1 ≡ none)
        × ((calls.start (calls.open_pipe w).0 args input).1 ≡ none)
        × ((finish_process calls (calls.start (calls.open_pipe w).0 args input).0).1 ≡ none)
  unfolding run_process
  run_process-none e = elim (Bool-cases (is_encodable calls input)) [
    | inr b ↦ absurd (grind arith)
    | inl b ↦ elim (Option-cases (calls.open_pipe w).1) [
      | inr (x, p) ↦ absurd (grind arith)
      | inl p ↦ elim (Option-cases (calls.start (calls.open_pipe w).0 args input).1) [
        | inr (x, s) ↦ absurd (grind arith)
        | inl s ↦ (b, p, s, rw (b, p, s, run_process) at e)
      ]
    ]
  ]

  run_client-none :
      (run_client calls args input w).1 ≡ [] → (run_process calls args input w).1 ≡ none
  unfolding run_client
  run_client-none e = elim (Option-cases (run_process calls args input w).1) [
    | inl k ↦ k
    | inr (x, k) ↦ elim (Option-cases (calls.close_log (run_process calls args input w).0).1) [
      | inl c ↦ absurd (grind arith)
      | inr (y, c) ↦ absurd (grind arith)
    ]
  ]

  -- runClient returns no error only if the input could be encoded, the program was started and ended
  -- without an error, and its output was a response without an error in it.
  pub run_client-IsAnswered : (run_client calls args input w).1 ≡ [] → IsAnswered calls args input w
  run_client-IsAnswered e =
      let (encodable, piped, started, finished) = run_process-none (run_client-none e) in
      let (r, decoded, waited, no_error) =
        finish_process-none (calls.start (calls.open_pipe w).0 args input).0 finished in
      record {
        response = r;
        encodable = encodable;
        piped = piped;
        started = started;
        decoded = decoded;
        waited = waited;
        no_error = no_error;
      }
