-- ===== src/Handler/Teelog.antt =====
-- internal/teelog/teelog.go: a log file around a function. The calls on the file are parameters; what is
-- logged is left out.
use baamhackl.Base.{
  Bool, false, Option, none, some, List, [], ◌∷◌, ◌++◌, ◌≡◌, inl, inr, Option-cases,
}

-- What Sync of the logger returns: unix.EINVAL, or another error.
pub data SyncError (E : Type 0) : Type 0 where
  invalid : SyncError E
  not_synced : E → SyncError E

-- OpenFile, Sync and Close.
pub record LogCalls (W E : Type 0) : Type 0 where
  pub open_file : W → W × Option E
  pub sync : W → W × Option (SyncError E)
  pub close : W → W × Option E

-- A file that cannot be synchronized is no error.
unfoldable pub relevant : {E : Type 0} → Option (SyncError E) → List E
relevant none = []
relevant (some invalid) = []
relevant (some (not_synced e)) = e ∷ []

abbrev pub listed : {E : Type 0} → Option E → List E
listed none = []
listed (some e) = e ∷ []

module _ {W E : Type 0} (calls : LogCalls W E) where
  -- The function that open returns: the file is closed even where Sync fails.
  unfoldable pub close_log : W → W × List E
  close_log w =
      let (w1, unsynced) = calls.sync w in
      let (w2, unclosed) = calls.close w1 in (w2, relevant unsynced ++ listed unclosed)

  -- Wrap
  unfoldable pub wrap_log : (W → W × List E) → W → W × List E
  wrap_log fn w =
      let (w1, err) = calls.open_file w in
      let (w2, errs) = fn w1 in
      let (w3, more) = close_log w2 in
      elim err [ some e ↦ (w1, e ∷ []) | none ↦ (w3, errs ++ more) ]

  -- Wrap leaves no log file open, whatever the function does, where a failed OpenFile opens none and Close
  -- closes the file even with an error.
  pub wrap_log-IsClosed :
      (is_open : W → Bool) (fn : W → W × List E) (w : W)
      → ((v : W) (e : E) → (calls.open_file v).1 ≡ some e → is_open (calls.open_file v).0 ≡ false)
      → ((v : W) → is_open (calls.close v).0 ≡ false)
      → is_open (wrap_log fn w).0 ≡ false
  unfolding wrap_log close_log
  wrap_log-IsClosed is_open fn w failed closes = elim (Option-cases (calls.open_file w).1) [
    | inl o ↦ rw (o, wrap_log) (closes (calls.sync (fn (calls.open_file w).0).0).0)
    | inr (e, o) ↦ rw (o, wrap_log) (failed w e o)
  ]
