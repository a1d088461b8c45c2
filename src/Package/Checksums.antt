-- ===== src/Package/Checksums.antt =====
-- scripts/generate_checksums.py: which files are listed in CHECKSUMS.sha256, and its text.
pub mod Agreement
pub mod Readable
use coupon_service.Base.{
  ◌≡◌, refl, Bool, true, false, not, ◌&&◌, ◌||◌, Option, none, some, List, [], ◌∷◌, ◌++◌, map, ◌=?◌,
  if◌then◌else◌, Text, codes, text_eq, contains, any_of, join, starts_with, Dict,
}
use coupon_service.Base.Sort.{parts_le}
use coupon_service.Package.Paths.{parts, components, suffix, is_env_file}

-- What `rglob` finds at a path below `ROOT`: a file with its bytes, or something else.
pub data Node : Type 0 where
  file : Text → Node
  other : Node

abbrev pub excluded_parts : List Text
excluded_parts =
    codes ".git"
    ∷ codes "target"
    ∷ codes "build"
    ∷ codes "dist"
    ∷ codes ".idea"
    ∷ codes ".vscode"
    ∷ codes "__pycache__"
    ∷ []

abbrev pub excluded_names : List Text
excluded_names = codes "CHECKSUMS.sha256" ∷ codes ".DS_Store" ∷ []

abbrev pub excluded_suffixes : List Text
excluded_suffixes = codes ".zip" ∷ codes ".log" ∷ codes ".pem" ∷ codes ".key" ∷ []

-- `path.name` of a path below `ROOT`
abbrev pub name_in : List Text → Text
name_in [] = []
name_in (p ∷ []) = p
name_in (p ∷ q ∷ ps) = name_in (q ∷ ps)

-- the tests on the name
unfoldable pub name_included : Text → Bool
unfolding suffix is_env_file
name_included name =
    not (contains name excluded_names)
    && not (contains (suffix name) excluded_suffixes)
    && not (is_env_file name)

-- the tests of `included` on the path of a file
unfoldable pub path_included : Text → Bool
unfolding parts name_included
path_included path =
    not (any_of (λ part. contains part excluded_parts) (parts path))
    && name_included (name_in (parts path))

-- the files that are included, with their bytes
unfoldable pub included : Dict Text Node → Dict Text Text
unfolding path_included
included [] = []
included ((path, file bytes) ∷ nodes) =
    let rest = included nodes in if path_included path then (path, bytes) ∷ rest else rest
included ((path, other) ∷ nodes) = included nodes

unfoldable pub insert_file : Text × Text → Dict Text Text → Dict Text Text
unfolding parts_le parts
insert_file f [] = f ∷ []
insert_file f (g ∷ gs) =
    let rest = insert_file f gs in if parts_le (parts f.0) (parts g.0) then f ∷ g ∷ gs else g ∷ rest

-- `sorted(paths)`
unfoldable pub sorted_files : Dict Text Text → Dict Text Text
unfolding insert_file
sorted_files [] = []
sorted_files (f ∷ fs) = insert_file f (sorted_files fs)

module _ (sha256 : Text → Text) where
  abbrev pub digest_of : Text × Text → Text × Text
  digest_of (path, bytes) = (path, sha256 bytes)

  -- the paths in their order, each with the digest of its file
  unfoldable pub digests : Dict Text Node → Dict Text Text
  unfolding included sorted_files
  digests nodes = map digest_of (sorted_files (included nodes))

  -- `f"{sha256(path)}  {path.relative_to(ROOT).as_posix()}"`
  abbrev pub checksum_line : Text × Text → Text
  checksum_line (path, digest) = digest ++ (codes "  " ++ path)

  -- the text that `main` writes to CHECKSUMS.sha256
  unfoldable pub manifest : Dict Text Node → Text
  unfolding digests join
  manifest nodes = join (codes "\n") (map checksum_line (digests nodes)) ++ codes "\n"
