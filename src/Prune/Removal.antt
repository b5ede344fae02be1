-- ===== src/Prune/Removal.antt =====
-- Which entries internal/prune/prune.go removes.
use baamhackl.Base.{
  ℕ, ◌≤◌, ◌<◌, ◌≡◌, ◌≢◌, refl, ◌↔◌, ◌⊎◌, inl, inr, true, Bool, not, ◌&&◌, List, [], ◌∷◌, arith,
  Bool-cases, Option-cases,
}
use baamhackl.Waryio.{Result-cases, FilePath, FileInfo, IoError, Result}
use baamhackl.Handler.Attempt.{Errors}
use baamhackl.FilePaths.{same_name}
use baamhackl.FilePaths.Split.{same_name_refl}
use baamhackl.Prune.{
  Entry, AcceptFunc, lock_name, make_age_filter, Calls, remove_entries, run_locked,
}

inr-injective : {x y : ℕ} → ◌≡◌ {A = Result ℕ} (inr x) (inr y) → x ≡ y
inr-injective e = cc

-- The age filter accepts a file if and only if it was not modified after the deadline, and its name
-- holds no time or one that is not zero and lies before the deadline.
pub make_age_filter-accepts :
    (deadline : ℕ) (extract : FilePath → Result ℕ) (name : FilePath) (fi : FileInfo)
    → (make_age_filter deadline extract name fi ≡ true) ↔ (
        (fi.mod_time ≤ deadline)
        × (((e : IoError) × (extract name ≡ inl e))
            ⊎ ((ts : ℕ) × (extract name ≡ inr ts) × (0 < ts) × (ts < deadline))))
unfolding make_age_filter
make_age_filter-accepts deadline extract name fi = elim (Result-cases (extract name)) [
  | inl (e, h) ↦
      rw (h, make_age_filter)
        (λ x. (ground arith, inl (e, refl)), λ x. let old = x.0 in ground arith)
  | inr (ts, h) ↦
      rw (h, make_age_filter)
        (
          λ x. (ground arith, inr (ts, refl, ground arith, ground arith)),
          λ x.
              let old = x.0 in
              elim x.1 [
                | inl y ↦ absurd (let z = y.1 in cc)
                | inr (ts', is, positive, before) ↦
                    let same : ts ≡ ts' = inr-injective is in ground arith
              ],
        )
]

not_and :
    (xs : FilePath) (b : Bool)
    → (not (same_name xs lock_name) && b) ≡ true
    → (xs ≢ lock_name) × (b ≡ true)
not_and xs b e =
    let same : same_name lock_name lock_name ≡ true = same_name_refl lock_name in
    (λ x. absurd (let s : same_name xs lock_name ≡ true = rw x same in grind arith), ground arith)

-- The removal of any accepted entry other than the lock keeps what `P` says of the file system.
abbrev pub IsKept : {W : Type 0} → Calls W → AcceptFunc → (W → Type 0) → Type 0
IsKept {W} calls accept P =
    (w : W) (fi : Entry)
    → fi.name ≢ lock_name
    → accept fi.name fi.info ≡ true
    → P w
    → P (calls.remove_all w fi.name).0

module _ {W : Type 0} (calls : Calls W) (accept : AcceptFunc) (P : W → Type 0)
    (keeps : IsKept calls accept P) where
  remove_entries-IsKept :
      (entries : List Entry) (w : W) (errs : Errors)
      → P w
      → P (remove_entries calls accept entries w errs).0
  unfolding remove_entries
  remove_entries-IsKept [] w errs h = h
  remove_entries-IsKept (fi ∷ entries) w errs h = elim (Option-cases (calls.context_err w)) [
    | inr (e, c) ↦ rw (c, remove_entries) h
    | inl c ↦ elim (Bool-cases (not (same_name fi.name lock_name) && accept fi.name fi.info)) [
      | inr b ↦ rw (c, b, remove_entries) (remove_entries-IsKept entries w errs h)
      | inl b ↦
          rw (c, b, remove_entries)
            (remove_entries-IsKept entries (calls.remove_all w fi.name).0 _ (
              let (not_lock, accepted) = not_and fi.name (accept fi.name fi.info) b in
              keeps w fi not_lock accepted h))
    ]
  ]

-- Whatever property of the file system the removal of each accepted entry but the lock keeps is kept
-- by runLocked, also where it fails or its context ends: it removes nothing else.
pub run_locked-IsKept :
    {W : Type 0} (calls : Calls W) (accept : AcceptFunc) (P : W → Type 0) (w : W)
    → IsKept calls accept P
    → P w
    → P (run_locked calls accept w).0
unfolding run_locked
run_locked-IsKept calls accept P w keeps h = elim (Result-cases (calls.read_dir w)) [
  | inl (e, r) ↦ rw (r, run_locked) h
  | inr (entries, r) ↦
      rw (r, run_locked) (remove_entries-IsKept calls accept P keeps entries w [] h)
]
