-- ===== src/Watchman/FileChange.antt =====
-- internal/watchman/filechange.go: a file change as Watchman sends it, with its time in microseconds. The
-- JSON library is a parameter, for the form that the file gives it.
use baamhackl.Base.{ℕ, ◌*◌, ◌/◌, ◌≡◌, refl, Option, none, some}
use baamhackl.Base.Int.{ℤ}
use baamhackl.FilePaths.{FilePath}

-- FileChange; `mtime` is in nanoseconds.
pub record FileChange : Type 0 where
  pub name : FilePath
  pub size : ℤ
  pub mtime : ℕ
  pub cclock : FilePath

-- rawFileChange
pub record RawFileChange : Type 0 where
  pub name : FilePath
  pub size : ℤ
  pub mtime_us : ℕ
  pub cclock : FilePath

-- The library's encoding and decoding of the raw form, over texts `J`.
pub record Json (J : Type 0) : Type 0 where
  pub encode : RawFileChange → J
  pub decode : J → Option RawFileChange

-- MarshalJSON, with that of usecTimeWrapper.
unfoldable pub marshal : {J : Type 0} → Json J → FileChange → J
marshal json c =
    json.encode
      (record { name = c.name; size = c.size; mtime_us = c.mtime / 1000; cclock = c.cclock })

-- UnmarshalJSON, with that of usecTimeWrapper; an error is none.
unfoldable pub unmarshal : {J : Type 0} → Json J → J → Option FileChange
unmarshal json text = elim (json.decode text) [
  | none ↦ none
  | some r ↦
      some (record { name = r.name; size = r.size; mtime = r.mtime_us * 1000; cclock = r.cclock })
]

-- A file change that is sent and read again has its time cut to microseconds, and is else the same. It
-- takes that the library reads what it has written.
pub unmarshal-marshal :
    {J : Type 0} (json : Json J) (c : FileChange)
    → ((r : RawFileChange) → json.decode (json.encode r) ≡ some r)
    → unmarshal json (marshal json c) ≡ some (record c { mtime = c.mtime / 1000 * 1000 })
unfolding unmarshal marshal
unmarshal-marshal json c law =
    let sent : RawFileChange = record {
      name = c.name;
      size = c.size;
      mtime_us = c.mtime / 1000;
      cclock = c.cclock;
    } in
    rw (law sent, unmarshal) refl
