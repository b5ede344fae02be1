-- ===== src/SendFileChanges.antt =====
-- The "send-file-changes" command: execute of sendfilechanges/command.go. The input, the connection and
-- the absolute path of the root are parameters; logging, and the connection that a
-- test passes in, are left out.
pub mod Delivered
mod Tests
use baamhackl.Base.{ℕ, Option, none, some, List, [], ◌∷◌, ◌++◌, ◌⊎◌, inl, inr, if◌then◌else◌}
use baamhackl.FilePaths.{FilePath, same_name}
use baamhackl.Watchman.FileChange.{FileChange}

pub data SendError : Type 0 where
  no_root : ℕ → SendError
  missing_handler : SendError
  not_read : ℕ → SendError
  not_connected : ℕ → SendError
  not_sent : ℕ → SendError

-- FileChangedRequest
pub record Request : Type 0 where
  pub handler_name : FilePath
  pub root_dir : FilePath
  pub change : FileChange

-- The calls on the connection, over a state.
pub record Service (W : Type 0) : Type 0 where
  pub dial : W → FilePath → W × Option ℕ
  pub call : W → Request → W × Option ℕ
  pub close : W → W × Option ℕ

module _ {W : Type 0} (service : Service W) where
  -- The loop over the changes, one at a time and in order, up to the first error.
  unfoldable pub send_all : FilePath → FilePath → List FileChange → W → W × Option SendError
  send_all handler_name root_dir [] w = (w, none)
  send_all handler_name root_dir (c ∷ cs) w =
      let req : Request = record { handler_name = handler_name; root_dir = root_dir; change = c } in
      let (w', err) = service.call w req in
      let rest = send_all handler_name root_dir cs w' in
      elim err [ some e ↦ (w', some (not_sent e)) | none ↦ rest ]

  -- With the connection, which is closed at the end. The error of Close is appended to the variable of the
  -- block that dials, which is not the result, so that it is lost.
  unfoldable pub connect_and_send :
      FilePath → FilePath → FilePath → List FileChange → W → W × Option SendError
  connect_and_send socket_path handler_name root_dir changes w =
      let (w1, err) = service.dial w socket_path in
      let (w2, sent) = send_all handler_name root_dir changes w1 in
      let (w3, closed) = service.close w2 in
      elim err [ some e ↦ (w1, some (not_connected e)) | none ↦ (w3, sent) ]

  -- execute, for the result of filepath.Abs and the changes that readInput gives: without changes there
  -- is no connection.
  unfoldable pub execute :
      FilePath → FilePath → ℕ ⊎ FilePath → ℕ ⊎ List FileChange → W → W × Option SendError
  execute socket_path handler_name root input w = elim root [
    | inl e ↦ (w, some (no_root e))
    | inr root_dir ↦ if same_name handler_name [] then (w, some missing_handler) else elim input [
      | inl e ↦ (w, some (not_read e))
      | inr changes ↦ elim changes [
        | [] ↦ (w, none)
        | c ∷ cs ↦ connect_and_send socket_path handler_name root_dir (c ∷ cs) w
      ]
    ]
  ]
