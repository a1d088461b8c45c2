-- ===== src/Package/Archive.antt =====
-- `main` of scripts/package_source.py: the members of the archive, in the order in which they are
-- written, and the output directory after the run. The bytes of the ZIP format are left to `zipfile`.
pub mod Exported
use coupon_service.Base.{
  ℕ, suc, zero, ◌+◌, ◌*◌, ◌%◌, ◌^◌, Bool, true, false, ◌&&◌, Option, none, some, List, [], ◌∷◌,
  ◌++◌, ◌==◌, ◌=?◌, Text, codes, text_eq, all_of, is_hex, is_space, is_byte_space, strip, length,
  take, Dict, lookup, insert,
}
use coupon_service.Base.Utf8.{decode_ascii}
use coupon_service.Package.Failure.{
  Result, ok, ◌>>=◌, ◌>>◌, require, from_option, uncaught, key_error, unicode_decode_error,
  not_a_work_tree, no_commit,
}
use coupon_service.Package.Index.{Entry, Tracked, tracked_entries}
use coupon_service.Package.Source.{Git, run, Blobs, item, verify_source}

-- One `ZipInfo` with its content. The date is `FIXED_TIME`, the system is 3 (Unix).
pub record Member : Type 0 where
  pub name : Text
  pub date_time : List ℕ
  pub create_system : ℕ
  pub external_attr : ℕ
  pub content : Text

abbrev pub fixed_time : List ℕ
fixed_time = 1980 ∷ 1 ∷ 1 ∷ 0 ∷ 0 ∷ 0 ∷ []

abbrev pub entry_of : Text → Tracked → Result Entry
entry_of path tracked = from_option (uncaught key_error) (lookup path tracked)

-- `(permission & 0xFFFF) << 16`
unfoldable pub external_attr_of : ℕ → ℕ
external_attr_of permission = permission % 2 ^ 16 * 2 ^ 16

-- the loop over the paths
unfoldable pub members : Text → Tracked → Blobs → List Text → Result (List Member)
unfolding external_attr_of
members package_name tracked blobs [] = ok []
members package_name tracked blobs (path ∷ paths) = do
  entry ← entry_of path tracked
  bytes ← item path blobs
  rest ← members package_name tracked blobs paths
  ok (
      record {
        name = package_name ++ codes "/" ++ path;
        date_time = fixed_time;
        create_system = 3;
        external_attr = external_attr_of entry.permission;
        content = bytes;
      }
      ∷ rest)

-- `re.fullmatch(r"[0-9a-f]{40}", commit)`
unfoldable pub is_commit : Text → Bool
is_commit id = all_of is_hex id && length id == 40

abbrev pub package_name : Text → Text
package_name commit = codes "coupon-service-source-" ++ take 12 commit

-- the archives of the output directory, by file name
abbrev pub OutputDir : Type 0
OutputDir = Dict Text (List Member)

module _ (sha256 : Text → Text) where
  -- the name of the archive and its members
  unfoldable pub export : Git → Result (Text × List Member)
  unfolding strip is_commit tracked_entries verify_source members
  export git = do
    inside ← run git.inside_work_tree
    require (strip is_byte_space inside =? codes "true") not_a_work_tree
    head ← run git.head
    head_text ← from_option (uncaught unicode_decode_error) (decode_ascii head)
    let commit = strip is_space head_text
    require (is_commit commit) no_commit
    raw ← run git.ls_files
    tracked ← tracked_entries raw
    (paths, blobs) ← verify_source sha256 git tracked
    zipped ← members (package_name commit) tracked blobs paths
    ok (package_name commit ++ codes ".zip", zipped)

  -- An archive of that name is replaced, and nothing else in the directory is touched.
  unfoldable pub main : Git → OutputDir → Result OutputDir
  unfolding export
  main git dir = do (archive, zipped) ← export git; ok (insert archive zipped dir)
