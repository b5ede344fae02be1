-- ===== src/Watchman.antt =====
-- internal/watchman/client.go: the client, which runs Watchman's command line program. The process, its
-- pipe and the encoding as JSON are parameters; logging is left out.
pub mod Answers
pub mod FileChange
use baamhackl.Base.{ℕ, Bool, true, false, Option, none, some, List, [], ◌∷◌, ◌++◌, if◌then◌else◌}
use baamhackl.FilePaths.{FilePath, clean}

-- The errors of the client, with those of the calls in them.
pub data ClientError : Type 0 where
  not_encoded : ClientError
  no_pipe : ℕ → ClientError
  not_started : ℕ → ClientError
  client_failed : ℕ → ClientError
  not_decoded : ClientError
  refused : ℕ → ClientError
  not_closed : ℕ → ClientError

-- A response, as far as it is read: the value of "error", where null is none, if there is one.
pub record Response : Type 0 where
  pub error : Option (Option ℕ)

-- What running the client calls, over a state `W` and inputs `I`: the encoding, StdoutPipe, Start, the
-- decoding of the output, Wait, and the closing of the writer for the log.
pub record ClientCalls (W I : Type 0) : Type 0 where
  pub encodes : I → Bool
  pub open_pipe : W → W × Option ℕ
  pub start : W → List FilePath → Option I → W × Option ℕ
  pub decode : W → W × Option Response
  pub wait : W → W × Option ℕ
  pub close_log : W → W × Option ℕ

-- defaultClientCommand
unfoldable pub default_client_command : List FilePath → List FilePath
default_client_command base =
    base
    ++ ((45 ∷ 45 ∷ 108 ∷ 111 ∷ 103 ∷ 102 ∷ 105 ∷ 108 ∷ 101 ∷ 61 ∷ 47 ∷ 100 ∷ 101 ∷ 118 ∷ 47 ∷ 115
          ∷ 116 ∷ 100 ∷ 101 ∷ 114 ∷ 114 ∷ [])
        ∷ (45 ∷ 45 ∷ 108 ∷ 111 ∷ 103 ∷ 45 ∷ 108 ∷ 101 ∷ 118 ∷ 101 ∷ 108 ∷ 61 ∷ 49 ∷ [])
        ∷ (45 ∷ 45 ∷ 110 ∷ 111 ∷ 45 ∷ 108 ∷ 111 ∷ 99 ∷ 97 ∷ 108 ∷ [])
        ∷ (45 ∷ 45 ∷ 110 ∷ 111 ∷ 45 ∷ 115 ∷ 112 ∷ 97 ∷ 119 ∷ 110 ∷ [])
        ∷ (45 ∷ 45 ∷ 110 ∷ 111 ∷ 45 ∷ 112 ∷ 114 ∷ 101 ∷ 116 ∷ 116 ∷ 121 ∷ [])
        ∷ (45 ∷ 45 ∷ 110 ∷ 111 ∷ 45 ∷ 115 ∷ 97 ∷ 118 ∷ 101 ∷ 45 ∷ 115 ∷ 116 ∷ 97 ∷ 116 ∷ 101 ∷ [])
        ∷ [])

-- The error that a response is.
unfoldable pub response_error : Option Response → Option ClientError
response_error none = some not_decoded
response_error (some r) = elim r.error [
  | none ↦ none
  | some msg ↦ elim msg [ none ↦ none | some m ↦ some (refused m) ]
]

-- Whether an input that is given can be encoded.
unfoldable pub is_encodable : {W I : Type 0} → ClientCalls W I → Option I → Bool
is_encodable calls none = true
is_encodable calls (some input) = calls.encodes input

module _ {W I : Type 0} (calls : ClientCalls W I) where
  -- The process has been started: its output is decoded before the wait, but an error of the wait counts
  -- first.
  unfoldable pub finish_process : W → W × Option ClientError
  finish_process w =
      let (w1, response) = calls.decode w in
      let (w2, err) = calls.wait w1 in
      (w2, elim err [ some e ↦ some (client_failed e) | none ↦ response_error response ])

  -- runClient up to the deferred closing.
  unfoldable pub run_process : List FilePath → Option I → W → W × Option ClientError
  run_process args input w =
      let (w1, pipe) = calls.open_pipe w in
      let (w2, err) = calls.start w1 args input in
      let finished = finish_process w2 in
      let started : W × Option ClientError = elim err [
        | some e ↦ (w2, some (not_started e))
        | none ↦ finished
      ] in
      let piped : W × Option ClientError = elim pipe [
        | some e ↦ (w1, some (no_pipe e))
        | none ↦ started
      ] in
      if is_encodable calls input then piped else (w, some not_encoded)

  -- runClient, with its errors in order.
  unfoldable pub run_client : List FilePath → Option I → W → W × List ClientError
  run_client args input w =
      let (w1, err) = run_process args input w in
      let (w2, closed) = calls.close_log w1 in
      let errs : List ClientError = elim err [ none ↦ [] | some e ↦ e ∷ [] ] in
      (w2, elim closed [ none ↦ errs | some e ↦ errs ++ not_closed e ∷ [] ])

abbrev pub version : FilePath
version = 118 ∷ 101 ∷ 114 ∷ 115 ∷ 105 ∷ 111 ∷ 110 ∷ []

abbrev pub watch : FilePath
watch = 119 ∷ 97 ∷ 116 ∷ 99 ∷ 104 ∷ []

abbrev pub debug_recrawl : FilePath
debug_recrawl = 100 ∷ 101 ∷ 98 ∷ 117 ∷ 103 ∷ 45 ∷ 114 ∷ 101 ∷ 99 ∷ 114 ∷ 97 ∷ 119 ∷ 108 ∷ []

abbrev pub trigger : FilePath
trigger = 116 ∷ 114 ∷ 105 ∷ 103 ∷ 103 ∷ 101 ∷ 114 ∷ []

abbrev pub json_command : FilePath
json_command = 45 ∷ 45 ∷ 106 ∷ 115 ∷ 111 ∷ 110 ∷ 45 ∷ 99 ∷ 111 ∷ 109 ∷ 109 ∷ 97 ∷ 110 ∷ 100 ∷ []

abbrev pub trigger_del_word : FilePath
trigger_del_word = 116 ∷ 114 ∷ 105 ∷ 103 ∷ 103 ∷ 101 ∷ 114 ∷ 45 ∷ 100 ∷ 101 ∷ 108 ∷ []

abbrev pub shutdown_server_word : FilePath
shutdown_server_word =
    115 ∷ 104 ∷ 117 ∷ 116 ∷ 100 ∷ 111 ∷ 119 ∷ 110 ∷ 45 ∷ 115 ∷ 101 ∷ 114 ∷ 118 ∷ 101 ∷ 114 ∷ []

-- CommandClient, whose methods are the commands that it runs. TriggerSet sends its descriptor in the form
-- that `command` gives it: the list of "trigger", the root and the descriptor.
pub record CommandClient : Type 0 where
  pub args : List FilePath

-- NewCommandClient
unfoldable pub new_command_client : List FilePath → CommandClient
new_command_client base = record { args = default_client_command base }

module _ {W I : Type 0} (calls : ClientCalls W I) (c : CommandClient) where
  unfoldable pub run : List FilePath → Option I → W → W × List ClientError
  run args input w = run_client calls (c.args ++ args) input w

  -- Ping
  unfoldable pub ping : W → W × List ClientError
  ping w = run (version ∷ []) none w

  -- WatchSet
  unfoldable pub watch_set : FilePath → W → W × List ClientError
  watch_set root w = run (watch ∷ clean root ∷ []) none w

  -- Recrawl
  unfoldable pub recrawl : FilePath → W → W × List ClientError
  recrawl root w = run (debug_recrawl ∷ clean root ∷ []) none w

  -- TriggerSet
  unfoldable pub trigger_set :
      {D : Type 0} → (FilePath → FilePath → D → I) → FilePath → D → W → W × List ClientError
  trigger_set command root descriptor w =
      run (trigger ∷ json_command ∷ []) (some (command trigger (clean root) descriptor)) w

  -- TriggerDel
  unfoldable pub trigger_del : FilePath → FilePath → W → W × List ClientError
  trigger_del root name w = run (trigger_del_word ∷ clean root ∷ name ∷ []) none w

  -- ShutdownServer
  unfoldable pub shutdown_server : W → W × List ClientError
  shutdown_server w = run (shutdown_server_word ∷ []) none w
