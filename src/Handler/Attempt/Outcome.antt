-- ===== src/Handler/Attempt/Outcome.antt =====
-- What Run of internal/handlerattempt/handlerattempt.go does with the changed file, and when it fails.
use baamhackl.Base.{
  Bool, true, false, ◌≡◌, ◌&&◌, ◌||◌, if◌then◌else◌, ◌≢◌, refl, sym, subst, ap, ◌∙◌, ◌↔◌, ◌⊎◌, inl,
  inr, ◌==◌, Option, none, some, [], ◌∷◌, arith, Bool-cases,
}
use baamhackl.Waryio.{
  not_relative, not_directory, Result-cases, FilePath, FileInfo, IoError, not_exist, exist,
  vanished, not_regular, changed, iter_exhausted, other, FileChanges, Result, is_not_exist,
  describe_changes, is_empty, changes_err,
}
use baamhackl.Waryio.Changes.{IsUnchanged, describe_changes-IsUnchanged}
use baamhackl.Handler.Attempt.{
  Calls, Options, Errors, append_into, is_nil, err_of, validate_changed_file, run_and_lock, finish,
  run,
}

append_into-nil :
    (es : Errors) (o : Option IoError) → (append_into es o ≡ []) ↔ ((es ≡ []) × (o ≡ none))
unfolding append_into
append_into-nil [] none = ground arith
append_into-nil [] (some e) = ground arith
append_into-nil (x ∷ es) none = ground arith
append_into-nil (x ∷ es) (some e) = ground arith

is_not_exist_iff : (e : IoError) → (is_not_exist e ≡ true) ↔ (e ≡ not_exist)
unfolding is_not_exist
is_not_exist_iff not_exist = ground arith
is_not_exist_iff exist = ground arith
is_not_exist_iff vanished = ground arith
is_not_exist_iff (not_regular t) = ground arith
is_not_exist_iff (changed cs) = ground arith
is_not_exist_iff iter_exhausted = ground arith
is_not_exist_iff not_relative = ground arith
is_not_exist_iff (not_directory p) = ground arith
is_not_exist_iff (other n) = ground arith

inl-injective : {A : Type 0} {x y : IoError} → ◌≡◌ {A = Result A} (inl x) (inl y) → x ≡ y
inl-injective e = cc

not_archived :
    (c : Option IoError) (final : Bool)
    → (is_nil c || final) ≡ false
    → ¬ ((c ≡ none) ⊎ (final ≡ true))
not_archived none final e = absurd (grind arith)
not_archived (some x) final e = ground arith

archived :
    (c : Option IoError) (final : Bool) → (is_nil c || final) ≡ true → (c ≡ none) ⊎ (final ≡ true)
archived none final e = inl refl
archived (some x) final e = inr e

inr-injective : {A : Type 0} {x y : A} → ◌≡◌ {A = Result A} (inr x) (inr y) → x ≡ y
inr-injective e = cc

gone-nil :
    (c : Option IoError) (e : IoError)
    → ((if is_nil c && is_not_exist e
          then append_into [] c
          else append_into (append_into [] c) (some e))
        ≡ [])
      ↔ ((c ≡ none) × (e ≡ not_exist))
unfolding append_into
gone-nil none e = let iff = is_not_exist_iff e in grind arith
gone-nil (some x) e = ground arith

err_of-none : {A : Type 0} (r : Result A) → (err_of r ≡ none) ↔ ((a : A) × (r ≡ inr a))
err_of-none (inl e) = (λ h. absurd (cc), λ h. absurd (cc))
err_of-none (inr a) = (λ h. (a, refl), λ h. refl)

is_nil-true : (c : Option IoError) → c ≡ none → is_nil c ≡ true
is_nil-true c e = rw e refl

changes_err-some :
    (b a : FileInfo)
    → is_empty (describe_changes b a) ≡ false
    → changes_err (describe_changes b a) ≢ none
unfolding changes_err is_empty
changes_err-some b a e f = some_err (describe_changes b a) e f
  where
    some_err : (cs : FileChanges) → is_empty cs ≡ false → changes_err cs ≢ none
    some_err [] e f = absurd (grind arith)
    some_err (c ∷ cs) e f = absurd (grind arith)

module _ {W : Type 0} (calls : Calls W) (opts : Options W) where
  -- With the lock held in the state w the attempt succeeds: the command did not fail, and the file
  -- is gone, or it is unchanged and its move to the archive works.
  unfoldable pub Succeeds : FileInfo → W → Option IoError → Type 0
  Succeeds stat_before w command_err =
      (command_err ≡ none)
      × ((calls.lstat w opts.changed_file ≡ inl not_exist)
          ⊎ ((stat_after : FileInfo) × (calls.lstat w opts.changed_file ≡ inr stat_after)
              × IsUnchanged stat_before stat_after
              × (p : FilePath) × ((calls.move_to_archive w opts.changed_file true).1 ≡ inr p)))

  -- The errors, where the file can be looked at after the command.
  finish-gone :
      (b : FileInfo) (w : W) (c : Option IoError) (e : IoError)
      → calls.lstat w opts.changed_file ≡ inl e
      → finish calls opts b w c ≡ (
        w,
        is_not_exist e,
        if is_nil c && is_not_exist e
            then append_into [] c
            else append_into (append_into [] c) (some e),
      )
  unfolding finish
  finish-gone b w c e h = rw (h, finish) refl

  finish-changed :
      (b a : FileInfo) (w : W) (c : Option IoError)
      → calls.lstat w opts.changed_file ≡ inr a
      → is_empty (describe_changes b a) ≡ false
      → finish calls opts b w c
        ≡ (w, false, append_into (append_into [] c) (changes_err (describe_changes b a)))
  unfolding finish
  finish-changed b a w c h k = rw (h, k, finish) refl

  finish-kept :
      (b a : FileInfo) (w : W) (c : Option IoError)
      → calls.lstat w opts.changed_file ≡ inr a
      → is_empty (describe_changes b a) ≡ true
      → (is_nil c || opts.final) ≡ false
      → finish calls opts b w c ≡ (w, false, append_into [] c)
  unfolding finish
  finish-kept b a w c h k l = rw (h, k, l, finish) refl

  finish-moved :
      (b a : FileInfo) (w : W) (c : Option IoError)
      → calls.lstat w opts.changed_file ≡ inr a
      → is_empty (describe_changes b a) ≡ true
      → (is_nil c || opts.final) ≡ true
      → finish calls opts b w c ≡ (
        (calls.move_to_archive w opts.changed_file (is_nil c)).0,
        false,
        append_into
            (append_into [] c)
            (err_of (calls.move_to_archive w opts.changed_file (is_nil c)).1),
      )
  unfolding finish
  finish-moved b a w c h k l = rw (h, k, l, finish) refl

  gone-Succeeds :
      (b : FileInfo) (w : W) (c : Option IoError) (e : IoError)
      → calls.lstat w opts.changed_file ≡ inl e
      → ((c ≡ none) × (e ≡ not_exist)) ↔ Succeeds b w c
  unfolding Succeeds
  gone-Succeeds b w c e h = (
    λ (c_nil, e_gone). (c_nil, inl (h ∙ ap (λ x. inl x) e_gone)),
    λ (c_nil, rest). elim rest [ inl g ↦ (c_nil, cc) | inr x ↦ absurd (let g = x.1 in cc) ],
  )

  -- Where the file is there after the command, the attempt succeeds if the command did, the file
  -- is unchanged and its move works.
  there-Succeeds :
      (b a : FileInfo) (w : W) (c : Option IoError)
      → calls.lstat w opts.changed_file ≡ inr a
      → ((c ≡ none)
          × (is_empty (describe_changes b a) ≡ true)
          × (err_of (calls.move_to_archive w opts.changed_file (is_nil c)).1 ≡ none))
        ↔ Succeeds b w c
  unfolding Succeeds
  there-Succeeds b a w (some x) h =
      (λ y. absurd (let z = y.0 in cc), λ y. absurd (let z = y.0 in cc))
  there-Succeeds b a w none h =
      let (to_unchanged, to_empty) = describe_changes-IsUnchanged b a in
      let (to_moved, to_none) = err_of-none (calls.move_to_archive w opts.changed_file true).1 in
      (
        λ (c_nil, empty, moved).
            let (p, m) = to_moved moved in (c_nil, inr (a, h, to_unchanged empty, p, m)),
        λ (c_nil, rest). elim rest [
          | inl g ↦ absurd (cc)
          | inr x ↦
              let same : x.0 ≡ a = inr-injective (sym x.1 ∙ h) in
              (refl, to_empty (subst (λ z. IsUnchanged b z) same x.2), to_none (x.3, x.4))
        ],
      )

  finish-Succeeds :
      (b : FileInfo) (w : W) (c : Option IoError)
      → ((finish calls opts b w c).2 ≡ []) ↔ Succeeds b w c
  finish-Succeeds b w c = elim (Result-cases (calls.lstat w opts.changed_file)) [
    | inl (e, h) ↦ rw (finish-gone b w c e h) (
        let (f, g) = gone-Succeeds b w c e h in
        let (f', g') = gone-nil c e in (λ x. f (f' x), λ x. g' (g x)))
    | inr (a, h) ↦
        let (f, g) = there-Succeeds b a w c h in
        elim (Bool-cases (is_empty (describe_changes b a))) [
          | inr k ↦ rw (finish-changed b a w c h k) (
              (
                λ e. absurd (changes_err-some b a k ((append_into-nil (append_into [] c) _).0 e).1),
                λ e. absurd (let z = (g e).1 in cc),
              ))
          | inl k ↦ elim (Bool-cases (is_nil c || opts.final)) [
            | inr l ↦ rw (finish-kept b a w c h k l) (
                (
                  λ e. absurd (let z = is_nil-true c ((append_into-nil [] c).0 e).1 in grind arith),
                  λ e. absurd (let z = is_nil-true c (g e).0 in grind arith),
                ))
            | inl l ↦ rw (finish-moved b a w c h k l) (
                (
                  λ e.
                      let (c_nil, moved) = (append_into-nil (append_into [] c) _).0 e in
                      f (((append_into-nil [] c).0 c_nil).1, k, moved),
                  λ e.
                      let c_nil = (append_into-nil [] c).1 (refl, (g e).0) in
                      (append_into-nil (append_into [] c) _).1 (c_nil, (g e).2),
                ))
          ]
        ]
  ]

  finish-there :
      (b a : FileInfo) (w : W) (c : Option IoError)
      → calls.lstat w opts.changed_file ≡ inr a
      → (finish calls opts b w c).1 ≡ false
  finish-there b a w c h = elim (Bool-cases (is_empty (describe_changes b a))) [
    | inr k ↦ rw (finish-changed b a w c h k) refl
    | inl k ↦ elim (Bool-cases (is_nil c || opts.final)) [
      | inr l ↦ rw (finish-kept b a w c h k l) refl
      | inl l ↦ rw (finish-moved b a w c h k l) refl
    ]
  ]

  finish-permanent :
      (b : FileInfo) (w : W) (c : Option IoError)
      → ((finish calls opts b w c).1 ≡ true) ↔ (calls.lstat w opts.changed_file ≡ inl not_exist)
  finish-permanent b w c = elim (Result-cases (calls.lstat w opts.changed_file)) [
    | inl (e, h) ↦
        let (f, g) = is_not_exist_iff e in
        rw (finish-gone b w c e h)
          (λ x. h ∙ ap (λ z. inl z) (f x), λ x. g (inl-injective (sym h ∙ x)))
    | inr (a, h) ↦
        let not_permanent = finish-there b a w c h in (λ x. absurd (cc), λ x. absurd (cc))
  ]

  -- The archive takes the file: it is unchanged, and the command succeeded or this is the last
  -- attempt.
  unfoldable pub IsArchived : FileInfo → W → Option IoError → Type 0
  IsArchived b w c =
      (a : FileInfo) × (calls.lstat w opts.changed_file ≡ inr a)
      × IsUnchanged b a
      × ((c ≡ none) ⊎ (opts.final ≡ true))

  finish-IsArchived :
      (b : FileInfo) (w : W) (c : Option IoError)
      → (IsArchived b w c
          × ((finish calls opts b w c).0
              ≡ (calls.move_to_archive w opts.changed_file (is_nil c)).0))
        ⊎ ((¬ IsArchived b w c) × ((finish calls opts b w c).0 ≡ w))
  unfolding IsArchived
  finish-IsArchived b w c = elim (Result-cases (calls.lstat w opts.changed_file)) [
    | inl (e, h) ↦ inr (λ x. let g = x.1 in cc, ap (λ z. z.0) (finish-gone b w c e h))
    | inr (a, h) ↦
        let (to_unchanged, to_empty) = describe_changes-IsUnchanged b a in
        let same : (x : FileInfo) → calls.lstat w opts.changed_file ≡ inr x → x ≡ a =
          λ x g. inr-injective (sym g ∙ h) in
        elim (Bool-cases (is_empty (describe_changes b a))) [
          | inr k ↦ inr (
            λ x. let z = to_empty (subst (λ y. IsUnchanged b y) (same x.0 x.1) x.2) in cc,
            ap (λ z. z.0) (finish-changed b a w c h k),
          )
          | inl k ↦ elim (Bool-cases (is_nil c || opts.final)) [
            | inr l ↦
                inr
                  (λ x. not_archived c opts.final l x.3, ap (λ z. z.0) (finish-kept b a w c h k l))
            | inl l ↦ inl (
              (a, h, to_unchanged k, archived c opts.final l),
              ap (λ z. z.0) (finish-moved b a w c h k l),
            )
          ]
        ]
  ]

-- After the command, and after the lock where there is one: the state, and the error of the command.
abbrev pub after_command : {W : Type 0} → Calls W → Options W → W → W
after_command calls opts w =
    let (w1, command_err) = calls.run_command w in
    elim opts.acquire_lock [ none ↦ w1 | some lock ↦ lock w1 ]

abbrev pub command_error : {W : Type 0} → Calls W → W → Option IoError
command_error calls w = (calls.run_command w).1

-- There is a regular file, with this information.
abbrev pub IsRegular : {W : Type 0} → Calls W → Options W → W → FileInfo → Type 0
IsRegular calls opts w b = (calls.lstat w opts.changed_file ≡ inr b) × (b.file_type ≡ 0)

validate_changed_file-cases :
    {W : Type 0} (calls : Calls W) (opts : Options W) (w : W)
    → ((b : FileInfo) × IsRegular calls opts w b
        × (validate_changed_file calls w opts.changed_file ≡ inr b))
      ⊎ ((e : IoError) × (validate_changed_file calls w opts.changed_file ≡ inl e)
          × (¬ ((b : FileInfo) × IsRegular calls opts w b)))
unfolding validate_changed_file
validate_changed_file-cases calls opts w = elim (Result-cases (calls.lstat w opts.changed_file)) [
  | inl (e, h) ↦ inr (elim (Bool-cases (is_not_exist e)) [
    | inl g ↦ (vanished, rw (h, g, validate_changed_file) refl, λ x. let z = x.1.0 in cc)
    | inr g ↦ (e, rw (h, g, validate_changed_file) refl, λ x. let z = x.1.0 in cc)
  ])
  | inr (b, h) ↦ elim (Bool-cases (b.file_type == 0)) [
    | inl g ↦ inl (b, (h, ground arith), rw (h, g, validate_changed_file) refl)
    | inr g ↦ inr (
      not_regular b.file_type,
      rw (h, g, validate_changed_file) refl,
      λ x.
          let same : x.0 ≡ b = inr-injective (sym x.1.0 ∙ h) in
          let zero_type : b.file_type ≡ 0 = subst (λ (y : FileInfo). y.file_type ≡ 0) same x.1.1 in
          ground arith,
    )
  ]
]

run-valid :
    {W : Type 0} (calls : Calls W) (opts : Options W) (w : W) (b : FileInfo)
    → validate_changed_file calls w opts.changed_file ≡ inr b
    → run calls opts w ≡ finish calls opts b (after_command calls opts w) (command_error calls w)
unfolding run run_and_lock
run-valid calls opts w b h = rw (h, run) refl

run-invalid :
    {W : Type 0} (calls : Calls W) (opts : Options W) (w : W) (e : IoError)
    → validate_changed_file calls w opts.changed_file ≡ inl e
    → run calls opts w ≡ (w, true, e ∷ [])
unfolding run
run-invalid calls opts w e h = rw (h, run) refl

-- There is only one such file.
IsRegular-one :
    {W : Type 0} (calls : Calls W) (opts : Options W) (w : W) (b c : FileInfo)
    → IsRegular calls opts w b
    → IsRegular calls opts w c
    → c ≡ b
IsRegular-one calls opts w b c g h = inr-injective (sym h.0 ∙ g.0)

-- Run returns no error if and only if there was a regular file before the command, the command
-- succeeded, and the file is gone after it and after the lock was acquired, or it is unchanged by then
-- and its move to the archive of successes worked.
pub run-Succeeds :
    {W : Type 0} (calls : Calls W) (opts : Options W) (w : W)
    → ((run calls opts w).2 ≡ []) ↔ (
        (b : FileInfo) × IsRegular calls opts w b
        × Succeeds calls opts b (after_command calls opts w) (command_error calls w))
run-Succeeds calls opts w = elim (validate_changed_file-cases calls opts w) [
  | inr (e, h, none_there) ↦
      rw (run-invalid calls opts w e h) (λ x. absurd (cc), λ x. absurd (none_there (x.0, x.1)))
  | inl (b, regular, h) ↦
      let (f, g) =
        finish-Succeeds calls opts b (after_command calls opts w) (command_error calls w) in
      rw (run-valid calls opts w b h) (
        λ x. (b, regular, f x),
        λ x. g (
            subst (λ z. Succeeds calls opts z (after_command calls opts w) (command_error calls w))
              (IsRegular-one calls opts w b x.0 regular x.1) x.2),
      )
]

-- Run says that no further attempt is of use, be it with an error or not, if and only if there was no
-- regular file to begin with, or the file does not exist after the command and after the lock was acquired.
pub run-permanent :
    {W : Type 0} (calls : Calls W) (opts : Options W) (w : W)
    → ((run calls opts w).1 ≡ true) ↔ (
        (¬ ((b : FileInfo) × IsRegular calls opts w b))
        ⊎ (calls.lstat (after_command calls opts w) opts.changed_file ≡ inl not_exist))
run-permanent calls opts w = elim (validate_changed_file-cases calls opts w) [
  | inr (e, h, none_there) ↦ rw (run-invalid calls opts w e h) (λ x. inl none_there, λ x. refl)
  | inl (b, regular, h) ↦
      let (f, g) =
        finish-permanent calls opts b (after_command calls opts w) (command_error calls w) in
      rw (run-valid calls opts w b h)
        (λ x. inr (f x), λ x. elim x [ inl y ↦ absurd (y (b, regular)) | inr y ↦ g y ])
]

-- After the command on a regular file, and after the lock was acquired, Run asks the journal to archive
-- the file if it is unchanged and the command succeeded or the attempt is the last one, as a success if
-- the command succeeded; otherwise it leaves the file alone.
pub run-IsArchived :
    {W : Type 0} (calls : Calls W) (opts : Options W) (w : W) (b : FileInfo)
    → IsRegular calls opts w b
    → (IsArchived calls opts b (after_command calls opts w) (command_error calls w)
        × ((run calls opts w).0
            ≡ (calls.move_to_archive
                (after_command calls opts w)
                opts.changed_file
                (is_nil (command_error calls w))).0))
      ⊎ ((¬ IsArchived calls opts b (after_command calls opts w) (command_error calls w))
          × ((run calls opts w).0 ≡ after_command calls opts w))
run-IsArchived calls opts w b regular = elim (validate_changed_file-cases calls opts w) [
  | inr (e, h, none_there) ↦ absurd (none_there (b, regular))
  | inl (c, regular', h) ↦
      let same : b ≡ c = IsRegular-one calls opts w c b regular' regular in
      rw (run-valid calls opts w b (h ∙ ap (λ (x : FileInfo). inr x) (sym same)))
        (finish-IsArchived calls opts b (after_command calls opts w) (command_error calls w))
]
