-- ===== src/Package/Source.antt =====
-- `verify_source` of scripts/package_source.py. Git and SHA-256 are parameters: `check_output` either
-- gives the output of a command or raises `CalledProcessError`, here `none`.
pub mod Verified
use coupon_service.Base.{
  ℕ, Bool, true, false, not, ◌&&◌, Option, none, some, List, [], ◌∷◌, ◌=?◌, if◌then◌else◌, Text,
  codes, text_eq, select, is_empty, Dict, keys, lookup, has_key,
}
use coupon_service.Base.Sets.{subset, minus}
use coupon_service.Base.Sort.{sorted}
use coupon_service.Package.Failure.{
  Result, ok, ◌>>=◌, ◌>>◌, require, from_option, uncaught, key_error, called_process_error,
  unclean_tree, untracked_manifest, forbidden_files, manifest_mismatch, stale_checksum,
}
use coupon_service.Package.Index.{Entry, Tracked}
use coupon_service.Package.Manifest.{Digests, parse_checksums}
use coupon_service.Package.Paths.{forbidden}

-- What the script asks of Git.
pub record Git : Type 0 where
  -- `git rev-parse --is-inside-work-tree`
  pub inside_work_tree : Option Text
  -- `git rev-parse HEAD`
  pub head : Option Text
  -- `git status --porcelain=v1 -z`
  pub status : Option Text
  -- `git ls-files --stage -z`
  pub ls_files : Option Text
  -- `git cat-file blob ID`
  pub cat_file : Text → Option Text

abbrev pub run : Option Text → Result Text
run = from_option (uncaught called_process_error)

-- file contents by path
abbrev pub Blobs : Type 0
Blobs = Dict Text Text

abbrev pub checksum_name : Text
checksum_name = codes "CHECKSUMS.sha256"

-- the paths of which `forbidden` holds
unfoldable pub forbidden_among : List Text → Result (List Text)
forbidden_among [] = ok []
forbidden_among (path ∷ paths) = do
  bad ← forbidden path
  rest ← forbidden_among paths
  ok (if bad then path ∷ rest else rest)

-- `{path: blob_bytes(entry[1]) for path, entry in tracked.items()}`
unfoldable pub read_blobs : (Text → Option Text) → Tracked → Result Blobs
read_blobs cat_file [] = ok []
read_blobs cat_file ((path, entry) ∷ tracked) = do
  bytes ← run (cat_file entry.object_id)
  rest ← read_blobs cat_file tracked
  ok ((path, bytes) ∷ rest)

abbrev pub item : Text → Dict Text Text → Result Text
item key d = from_option (uncaught key_error) (lookup key d)

-- `sorted(path for path in tracked if path != CHECKSUM_NAME)`
unfoldable pub included_paths : Tracked → List Text
unfolding sorted
included_paths tracked = sorted (select (λ path. not (path =? checksum_name)) (keys tracked))

module _ (sha256 : Text → Text) where
  -- the last loop
  unfoldable pub check_digests : Blobs → Digests → List Text → Result (Unit {0})
  check_digests blobs manifest [] = ok tt
  check_digests blobs manifest (path ∷ paths) = do
    bytes ← item path blobs
    expected ← item path manifest
    require (sha256 bytes =? expected) (stale_checksum path)
    check_digests blobs manifest paths

  -- the second half of `verify_source`: from the reading of the blobs on
  unfoldable pub verify_blobs : Git → Tracked → Result (List Text × Blobs)
  unfolding read_blobs included_paths check_digests
  verify_blobs git tracked = do
    blobs ← read_blobs git.cat_file tracked
    let included = included_paths tracked
    checksums ← item checksum_name blobs
    manifest ← parse_checksums checksums
    let listed = keys manifest
    require (subset listed included && subset included listed)
        (manifest_mismatch (sorted (minus included listed)) (sorted (minus listed included)))
    check_digests blobs manifest included
    ok (sorted (keys tracked), blobs)

  unfoldable pub verify_source : Git → Tracked → Result (List Text × Blobs)
  unfolding forbidden_among verify_blobs
  verify_source git tracked = do
    status ← run git.status
    require (is_empty status) unclean_tree
    require (has_key checksum_name tracked) untracked_manifest
    bad ← forbidden_among (keys tracked)
    require (is_empty bad) (forbidden_files (sorted bad))
    verify_blobs git tracked
