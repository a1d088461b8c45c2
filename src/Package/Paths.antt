-- ===== src/Package/Paths.antt =====
-- `forbidden` of scripts/package_source.py, with what it uses of `pathlib`.
use coupon_service.Base.{
  ℕ, ◌+◌, Bool, not, ◌&&◌, ◌||◌, List, [], ◌∷◌, ◌++◌, ◌==◌, ◌=?◌, if◌then◌else◌, within, Text,
  codes, text_eq, contains, select, any_of, split_on, starts_with,
}
use coupon_service.Package.Failure.{Result, ok, err, uncaught, index_error}

abbrev pub slash : ℕ
slash = b'/'

-- `PurePosixPath(path).parts`: empty and `.` components are dropped; a leading slash is a part of
-- its own, and exactly two of them are the part `//`.
abbrev pub is_component : Text → Bool
is_component part = not (part =? []) && not (part =? codes ".")

abbrev pub root_parts : Text → List Text
root_parts path =
    if starts_with path (codes "///")
    then codes "/" ∷ []
    else if starts_with path (codes "//")
    then codes "//" ∷ []
    else if starts_with path (codes "/")
    then codes "/" ∷ []
    else []

abbrev pub components : Text → List Text
components path = select is_component (split_on slash path)

unfoldable pub parts : Text → List Text
unfolding split_on starts_with
parts path = root_parts path ++ components path

abbrev pub or_here : Text → Bool → Text → Text
or_here here is_dot (x ∷ later) = x ∷ later
or_here here is_dot [] = if is_dot then here else []

-- the last dot, with what follows it
unfoldable pub last_extension : Text → Text
last_extension [] = []
last_extension (c ∷ cs) = or_here (c ∷ cs) (c == b'.') (last_extension cs)

abbrev pub unless_only_dot : Text → Text
unless_only_dot (d ∷ []) = []
unless_only_dot ext = ext

-- `Path(name).suffix` of one component: the last dot must be neither its first nor its last character.
unfoldable pub suffix : Text → Text
unfolding last_extension
suffix [] = []
suffix (c ∷ cs) = unless_only_dot (last_extension cs)

-- `str.lower`, as far as ASCII results go: the ASCII capitals, and the Kelvin sign, the one other
-- character whose lower case is a single ASCII letter. Other characters are left as they are, so the
-- outcome is that of `lower` for membership in a set of ASCII texts.
abbrev pub lower_char : ℕ → ℕ
lower_char c = if within b'A' b'Z' c then c + 32 else if c == 0x212a then b'k' else c

unfoldable pub lower : Text → Text
lower [] = []
lower (c ∷ cs) = lower_char c ∷ lower cs

abbrev pub forbidden_parts : List Text
forbidden_parts =
    codes ".git"
    ∷ codes "target"
    ∷ codes "build"
    ∷ codes "dist"
    ∷ codes ".idea"
    ∷ codes ".vscode"
    ∷ codes ".settings"
    ∷ codes ".gradle"
    ∷ codes "coverage"
    ∷ codes "__pycache__"
    ∷ []

abbrev pub forbidden_suffixes : List Text
forbidden_suffixes =
    codes ".zip"
    ∷ codes ".log"
    ∷ codes ".pem"
    ∷ codes ".key"
    ∷ codes ".p12"
    ∷ codes ".pfx"
    ∷ codes ".crt"
    ∷ codes ".cer"
    ∷ []

-- `path.name == ".env" or (path.name.startswith(".env.") and path.name != ".env.example")`
unfoldable pub is_env_file : Text → Bool
unfolding starts_with
is_env_file name =
    name =? codes ".env" || starts_with name (codes ".env.") && not (name =? codes ".env.example")

unfoldable pub forbidden_name : Text → Bool
unfolding suffix lower is_env_file
forbidden_name name =
    name =? codes ".DS_Store"
    || contains (lower (suffix name)) forbidden_suffixes
    || name =? codes "CODEX_PROMPT.md"
    || is_env_file name
    || contains name (codes "id_rsa" ∷ codes "id_ed25519" ∷ [])

-- `parts[-1]`
unfoldable pub last_part : List Text → Result Text
last_part [] = err (uncaught index_error)
last_part (p ∷ []) = ok p
last_part (p ∷ q ∷ ps) = last_part (q ∷ ps)

abbrev pub has_forbidden_part : List Text → Bool
has_forbidden_part = any_of λ part. contains part forbidden_parts

abbrev pub forbidden_of_parts : List Text → Result Text → Result Bool
forbidden_of_parts ps (err e) = err e
forbidden_of_parts ps (ok name) = ok (has_forbidden_part ps || forbidden_name name)

unfoldable pub forbidden : Text → Result Bool
unfolding parts last_part forbidden_name
forbidden path = forbidden_of_parts (parts path) (last_part (parts path))
