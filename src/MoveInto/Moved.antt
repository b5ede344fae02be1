-- ===== src/MoveInto/Moved.antt =====
-- move-into overwrites nothing.
use baamhackl.Base.{
  ℕ, ◌≡◌, refl, sym, ap, ◌∙◌, subst, ◌⊎◌, ◌≤◌, length, Bool, true, false, Option, none, some, List,
  [], ◌∷◌, inl, inr, arith, Bool-cases, Option-cases,
}
use baamhackl.FilePaths.{FilePath, same_name, join, base}
use baamhackl.Waryio.{IoError, Result-cases, rename_to_available_name}
use baamhackl.Waryio.Available.{nth_name, rename_to_available_name-used}
use baamhackl.UniqueName.{Runtime, Generator}
use baamhackl.UniqueName.Create
use baamhackl.UniqueName.Create.{Clock}
use baamhackl.Journal.{next_path}
use baamhackl.MoveInto.{MoveError, move_options, preferred, move_file, move_files, execute}

-- The name that a file is to get: the preferred one, or its own where there is none.
abbrev pub wanted : FilePath → FilePath → FilePath
wanted [] oldpath = base oldpath
wanted (c ∷ cs) oldpath = c ∷ cs

preferred-wanted : (rename oldpath : FilePath) → preferred rename oldpath ≡ wanted rename oldpath
unfolding preferred same_name
preferred-wanted [] oldpath = refl
preferred-wanted (c ∷ cs) oldpath = refl

module _ {W : Type 0} (rename_without_replace : W → FilePath → FilePath → W × Option IoError)
    (clock : W → Clock) (runtime : ℕ → Runtime) (fuel : ℕ) (exists : W → FilePath → Bool)
    (no_replace : (old : FilePath) (v v' : W) (q : FilePath)
      → rename_without_replace v old q ≡ (v', none)
      → exists v q ≡ false) where
  -- The file has gone to a path where nothing existed, a name that was generated for its wanted place.
  pub record IsMoved (target_dir name oldpath : FilePath) (w w' : W) : Type 0 where
    pub generator : Generator
    pub generated :
        Create.create (clock w) (join (target_dir ∷ name ∷ [])) move_options ≡ some generator
    pub attempts : ℕ
    pub newpath : FilePath
    pub named : nth_name (next_path runtime) (generator, 0) attempts ≡ some newpath
    pub before : W
    pub free : exists before newpath ≡ false
    pub renamed : rename_without_replace before oldpath newpath ≡ (w', none)

  -- All files have, one after the other.
  abbrev pub AreMoved : FilePath → FilePath → List FilePath → W → W → Type 0
  AreMoved rename target_dir [] w z = z ≡ w
  AreMoved rename target_dir (oldpath ∷ rest) w z =
      (w' : W) × IsMoved target_dir (wanted rename oldpath) oldpath w w'
      × AreMoved rename target_dir rest w' z

  abbrev moving : FilePath → FilePath → FilePath → W → W × Option MoveError
  moving = move_file rename_without_replace clock runtime fuel

  move_file-IsMoved :
      (target_dir name oldpath : FilePath) (w : W)
      → (moving target_dir name oldpath w).1 ≡ none
      → IsMoved target_dir name oldpath w (moving target_dir name oldpath w).0
  unfolding move_file
  move_file-IsMoved target_dir name oldpath w e =
      elim (Option-cases (Create.create (clock w) (join (target_dir ∷ name ∷ [])) move_options)) [
        | inl c ↦ absurd (let f = rw (c, move_file) at e in cc)
        | inr (g, c) ↦
            elim (Option-cases (
              rename_to_available_name rename_without_replace oldpath (next_path runtime) fuel w
                (g, 0))) [
                  | inl r ↦ absurd (let f = rw (c, r, move_file) at e in cc)
                  | inr ((w', moved), r) ↦ elim (Result-cases moved) [
                    | inl (x, m) ↦ absurd (let f = rw (c, r, m, move_file) at e in cc)
                    | inr (p, m) ↦
                        let ((k, named), v, free, renamed) =
                          rename_to_available_name-used rename_without_replace (next_path runtime)
                            exists oldpath p fuel w w' (g, 0) (no_replace oldpath) (rw m at r) in
                        rw (c, r, move_file)
                          (record {
                            generator = g;
                            generated = c;
                            attempts = k;
                            newpath = p;
                            named = named;
                            before = v;
                            free = free;
                            renamed = renamed;
                          })
                  ]
                ]
      ]

  abbrev moving_all : Bool → FilePath → FilePath → List FilePath → W → W × Option MoveError
  moving_all = move_files rename_without_replace clock runtime fuel

  -- A file that could be moved is followed by the others.
  move_files-next :
      (several : Bool) (rename target_dir oldpath : FilePath) (rest : List FilePath) (w : W)
      → (moving_all several rename target_dir (oldpath ∷ rest) w).1 ≡ none
      → ((moving target_dir (preferred rename oldpath) oldpath w).1 ≡ none)
        × (moving_all several rename target_dir (oldpath ∷ rest) w
            ≡ moving_all several rename target_dir rest
                (moving target_dir (preferred rename oldpath) oldpath w).0)
  unfolding move_files
  move_files-next several rename target_dir oldpath rest w e =
      elim (Option-cases (moving target_dir (preferred rename oldpath) oldpath w).1) [
        | inr (x, k) ↦ absurd (elim (Bool-cases (same_name rename [])) [
          | inl b ↦ let f = rw (b, k, move_files) at e in cc
          | inr b ↦ elim (Bool-cases several) [
            | inl c ↦ let f = rw (b, c, move_files) at e in cc
            | inr c ↦ let f = rw (b, c, k, move_files) at e in cc
          ]
        ])
        | inl k ↦ (
          k,
          elim (Bool-cases (same_name rename [])) [
            | inl b ↦ rw (b, k, move_files) refl
            | inr b ↦ elim (Bool-cases several) [
              | inl c ↦ absurd (let f = rw (b, c, move_files) at e in cc)
              | inr c ↦ rw (b, c, k, move_files) refl
            ]
          ],
        )
      ]

  move_files-AreMoved :
      (several : Bool) (rename target_dir : FilePath) (sources : List FilePath) (w : W)
      → (moving_all several rename target_dir sources w).1 ≡ none
      → AreMoved rename target_dir sources w (moving_all several rename target_dir sources w).0
  unfolding move_files
  move_files-AreMoved several rename target_dir [] w e = refl
  move_files-AreMoved several rename target_dir (oldpath ∷ rest) w e =
      let name = preferred rename oldpath in
      let w' = (moving target_dir name oldpath w).0 in
      let (k, p) = move_files-next several rename target_dir oldpath rest w e in
      let e' : (moving_all several rename target_dir rest w').1 ≡ none =
        ap (λ (z : W × Option MoveError). z.1) (sym p) ∙ e in
      (
        w',
        subst (λ n. IsMoved target_dir n oldpath w w') (preferred-wanted rename oldpath)
            (move_file-IsMoved target_dir name oldpath w k),
        subst (λ (z : W × Option MoveError). AreMoved rename target_dir rest w' z.0) (sym p)
            (move_files-AreMoved several rename target_dir rest w' e'),
      )

  -- Where move-into returns no error, there is one file or no preferred name, and it has renamed the files
  -- one after the other, each to a name that was generated for the target directory joined with the
  -- preferred name, or with the base name of the file where there is none, and where nothing existed. It takes that a rename without replacement replaces nothing.
  pub execute-AreMoved :
      (rename target_dir : FilePath) (sources : List FilePath) (w : W)
      → (execute rename_without_replace clock runtime fuel rename target_dir sources w).1 ≡ none
      → ((same_name rename [] ≡ true) ⊎ (length sources ≤ 1))
        × AreMoved rename target_dir sources w
            (execute rename_without_replace clock runtime fuel rename target_dir sources w).0
  unfolding execute move_files
  execute-AreMoved rename target_dir [] w e = (inr (omega arith), refl)
  execute-AreMoved rename target_dir (x ∷ []) w e =
      (inr (omega arith), move_files-AreMoved false rename target_dir (x ∷ []) w e)
  execute-AreMoved rename target_dir (x ∷ y ∷ rest) w e = (
    elim (Bool-cases (same_name rename [])) [
      | inl b ↦ inl b
      | inr b ↦ absurd (let f = rw (b, move_files) at e in cc)
    ],
    move_files-AreMoved true rename target_dir (x ∷ y ∷ rest) w e,
  )
