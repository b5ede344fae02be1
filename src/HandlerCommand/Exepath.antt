-- ===== src/HandlerCommand/Exepath.antt =====
-- Get and MustGet of internal/exepath/exepath.go: the path of the program is found once.
use baamhackl.Base.{Option, none, some, ◌≡◌, refl, inl, inr}
use baamhackl.FilePaths.{FilePath}
use baamhackl.Waryio.{Result}
use baamhackl.HandlerCommand.{resolve_executable}

-- The global variables: what was found, once it has been looked for.
abbrev pub Global : Type 0
Global = Option (Result FilePath)

-- Get, for what os.Executable and filepath.Abs return at this moment.
unfoldable pub get :
    Global → Result FilePath → (FilePath → Result FilePath) → Global × Result FilePath
get g found abs =
    let looked = resolve_executable found abs in
    elim g [ some r ↦ (some r, r) | none ↦ (some looked, looked) ]

-- MustGet; a panic is none.
unfoldable pub must_get :
    Global → Result FilePath → (FilePath → Result FilePath) → Global × Option FilePath
must_get g found abs =
    let (g', r) = get g found abs in (g', elim r [ inl e ↦ none | inr path ↦ some path ])

-- A later call returns what the first one did, whatever the system says by then.
pub get-get :
    (g : Global) (found found' : Result FilePath) (abs abs' : FilePath → Result FilePath)
    → get (get g found abs).0 found' abs' ≡ get g found abs
unfolding get
get-get none found found' abs abs' = refl
get-get (some r) found found' abs abs' = refl
