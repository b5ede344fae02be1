-- ===== src/Prune/Tests.antt =====
-- Tests of internal/prune/prune.go, on a directory that is the list of its entries.
use baamhackl.Base.{
  ℕ, ◌≤◌, ◌≡◌, ◌≢◌, refl, sym, ◌∙◌, ◌⊎◌, inl, inr, true, none, List, [], ◌∷◌, if◌then◌else◌,
  Bool-cases,
}
use baamhackl.Waryio.{FilePath, other, Result}
use baamhackl.FilePaths.{same_name}
use baamhackl.FilePaths.Split.{same_name-eq}
use baamhackl.Prune.{Entry, lock_name, Calls, run_locked}
use baamhackl.Prune.Removal.{run_locked-IsKept}

abbrev entry : FilePath → ℕ → Entry
entry name t = record {
  name = name;
  info = record { identity = 1; file_type = 0; perm = 420; size = 3; mod_time = t };
}

-- No name holds a time.
abbrev no_time : FilePath → Result ℕ
no_time name = inl (other 1)

abbrev without : FilePath → List Entry → List Entry
without name [] = []
without name (e ∷ es) =
    let rest = without name es in if same_name e.name name then rest else e ∷ rest

abbrev calls : Calls (List Entry)
calls = record {
  read_dir = λ w. inr w;
  remove_all = λ w name. (without name w, none);
  context_err = λ w. none;
  try_lock = λ w. (w, inr true);
  close_lock = λ w. (w, none);
}

-- The lock file is there.
abbrev HasLock : List Entry → Type 0
HasLock [] = 1 ≤ 0
HasLock (e ∷ es) = (e.name ≡ lock_name) ⊎ HasLock es

abbrev before : List Entry
before = entry (97 ∷ []) 20 ∷ entry lock_name 10 ∷ []

without-HasLock :
    (name : FilePath) (es : List Entry) → name ≢ lock_name → HasLock es → HasLock (without name es)
without-HasLock name [] other_name h = h
without-HasLock name (e ∷ es) other_name h = elim (Bool-cases (same_name e.name name)) [
  | inl b ↦ elim h [
    | inl is_lock ↦ absurd (other_name (sym (same_name-eq e.name name b) ∙ is_lock))
    | inr later ↦ rw b (without-HasLock name es other_name later)
  ]
  | inr b ↦ elim h [
    | inl is_lock ↦ rw b (inl is_lock)
    | inr later ↦ rw b (inr (without-HasLock name es other_name later))
  ]
]

run_locked-IsKept_example : HasLock (run_locked calls (λ name fi. true) before).0
run_locked-IsKept_example =
    run_locked-IsKept calls (λ name fi. true) HasLock before
      (λ w fi other_name accepted h. without-HasLock fi.name w other_name h) (inr (inl refl))
