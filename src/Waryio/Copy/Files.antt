-- ===== src/Waryio/Copy/Files.antt =====
-- Copy of internal/waryio/copy.go, which opens the two files and closes them. The calls on files are
-- parameters; `H` is the type of open files.
use baamhackl.Base.{
  ℕ, Bool, true, false, Option, none, some, List, [], ◌∷◌, inl, inr, ◌≡◌, refl, ap, if◌then◌else◌,
  arith,
}
use baamhackl.Waryio.{FilePath, FileInfo, IoError, Result, Result-cases}
use baamhackl.Waryio.Changes.{IsUnchanged}
use baamhackl.Waryio.Copy.{CopyCalls, copy_inner, copy_inner-IsUnchanged}

-- The flags of OpenFile: a set of them is a list.
pub data OpenFlag : Type 0 where
  read_only write_only create truncate append exclusive no_follow : OpenFlag

pub record CopyOptions : Type 0 where
  pub source_path : FilePath
  pub source_flags : List OpenFlag
  pub source_mode : ℕ
  pub source_perm_preserve : Bool
  pub dest_path : FilePath
  pub dest_flags : List OpenFlag
  pub dest_mode : ℕ
  pub dest_sync : Bool

-- DefaultCopyOptions; the mode is octal 666.
abbrev pub default_copy_options : CopyOptions
default_copy_options = record {
  source_path = [];
  source_flags = read_only ∷ no_follow ∷ [];
  source_mode = 0;
  source_perm_preserve = true;
  dest_path = [];
  dest_flags = write_only ∷ create ∷ truncate ∷ no_follow ∷ [];
  dest_mode = 438;
  dest_sync = false;
}

pub record FileCalls (W H : Type 0) : Type 0 where
  pub open_file : W → FilePath → List OpenFlag → ℕ → W × Result H
  pub close : W → H → W × Option IoError
  pub stat : H → W → Result FileInfo
  pub io_copy : H → H → W → W × Result ℕ
  pub chmod : W → H → ℕ → W × Option IoError
  pub sync : W → H → W × Option IoError

-- One call after the other, up to the first error.
unfoldable pub then_call :
    {W : Type 0} → W × Option IoError → (W → W × Option IoError) → W × Option IoError
then_call r next = let rest = next r.0 in elim r.1 [ none ↦ rest | some e ↦ r ]

module _ {W H : Type 0} (calls : FileCalls W H) where
  -- The deferred closing of a file: its error counts where there was none before.
  unfoldable pub close_file : H → W × Option IoError → W × Option IoError
  close_file fh r =
      let (w', e) = calls.close r.0 fh in elim r.1 [ none ↦ (w', e) | some err ↦ (w', some err) ]

  abbrev pub inner_calls : H → H → CopyCalls W
  inner_calls src dest = record { stat = calls.stat src; io_copy = calls.io_copy dest src }

  -- Between the opening and the closing.
  unfoldable pub copy_open : CopyOptions → H → H → W → W × Option IoError
  copy_open opts src dest w =
      let (w', r) = copy_inner (inner_calls src dest) w in
      elim r [
        | inl e ↦ (w', some e)
        | inr perm ↦
            then_call (if opts.source_perm_preserve then calls.chmod w' dest perm else (w', none))
              (λ w. if opts.dest_sync then calls.sync w dest else (w, none))
      ]

  -- Copy
  unfoldable pub copy : CopyOptions → W → W × Option IoError
  copy opts w =
      let (w1, src) = calls.open_file w opts.source_path opts.source_flags opts.source_mode in
      elim src [
        | inl e ↦ (w1, some e)
        | inr src ↦
            let (w2, dest) = calls.open_file w1 opts.dest_path opts.dest_flags opts.dest_mode in
            elim dest [
              | inl e ↦ close_file src (w2, some e)
              | inr dest ↦ close_file dest (close_file src (copy_open opts src dest w2))
            ]
      ]

  -- What a Copy that did not fail has done.
  pub record IsCopied (opts : CopyOptions) (w : W) : Type 0 where
    pub src : H
    pub dest : H
    pub w1 : W
    pub w2 : W
    pub before : FileInfo
    pub after : FileInfo
    pub source_open :
        calls.open_file w opts.source_path opts.source_flags opts.source_mode ≡ (w1, inr src)
    pub dest_open :
        calls.open_file w1 opts.dest_path opts.dest_flags opts.dest_mode ≡ (w2, inr dest)
    pub stat_before : calls.stat src w2 ≡ inr before
    pub stat_after : calls.stat src (calls.io_copy dest src w2).0 ≡ inr after
    pub unchanged : IsUnchanged before after
    pub whole : (calls.io_copy dest src w2).1 ≡ inr before.size

  close_file-none : (fh : H) (r : W × Option IoError) → (close_file fh r).1 ≡ none → r.1 ≡ none
  unfolding close_file
  close_file-none fh (w, none) e = refl
  close_file-none fh (w, some x) e = absurd (cc)

  copy_open-none :
      (opts : CopyOptions) (src dest : H) (w : W)
      → (copy_open opts src dest w).1 ≡ none
      → (perm : ℕ) × ((copy_inner (inner_calls src dest) w).1 ≡ inr perm)
  unfolding copy_open
  copy_open-none opts src dest w e = elim (Result-cases (copy_inner (inner_calls src dest) w).1) [
    | inl (x, c) ↦ absurd (grind arith)
    | inr (perm, c) ↦ (perm, c)
  ]

  -- Where Copy does not fail, it has opened both files as the options say, the source was the same before
  -- and after the copying, and as many bytes were copied as it has.
  pub copy-IsCopied : (opts : CopyOptions) (w : W) → (copy opts w).1 ≡ none → IsCopied opts w
  unfolding copy
  copy-IsCopied opts w e =
      elim (Result-cases
        (calls.open_file w opts.source_path opts.source_flags opts.source_mode).1) [
          | inl (x, s) ↦ absurd (grind arith)
          | inr (src, s) ↦
              let w1 = (calls.open_file w opts.source_path opts.source_flags opts.source_mode).0 in
              elim (Result-cases
                (calls.open_file w1 opts.dest_path opts.dest_flags opts.dest_mode).1) [
                  | inl (x, d) ↦
                      let w2 =
                        (calls.open_file w1 opts.dest_path opts.dest_flags opts.dest_mode).0 in
                      let f : (close_file src (w2, some x)).1 ≡ none = rw (s, d, copy) at e in
                      absurd (let g = close_file-none src (w2, some x) f in cc)
                  | inr (dest, d) ↦
                      let w2 =
                        (calls.open_file w1 opts.dest_path opts.dest_flags opts.dest_mode).0 in
                      let f : (close_file dest (close_file src (copy_open opts src dest w2))).1
                          ≡ none =
                        rw (s, d, copy) at e in
                      let (perm, c) =
                        copy_open-none opts src dest w2
                          (close_file-none src _ (close_file-none dest _ f)) in
                      let (b, a, sb, sa, same, all, _) =
                        copy_inner-IsUnchanged (inner_calls src dest) w2 perm c in
                      record {
                        src = src;
                        dest = dest;
                        w1 = w1;
                        w2 = w2;
                        before = b;
                        after = a;
                        source_open = ap (λ (r : Result H). (w1, r)) s;
                        dest_open = ap (λ (r : Result H). (w2, r)) d;
                        stat_before = sb;
                        stat_after = sa;
                        unchanged = same;
                        whole = all;
                      }
                ]
        ]
