-- ===== src/Examples/Source.antt =====
-- A repository of two files, README.md and CHECKSUMS.sha256, that scripts/package_source.py exports.
use coupon_service.Base.{
  String, All, ℕ, ◌+◌, ◌%◌, ◌≡◌, refl, ◌↔◌, Bool, true, false, Option, none, some, List, [], ◌∷◌,
  ◌++◌, ◌=?◌, if◌then◌else◌, Text, codes, text_eq, text_beq, length, map, keys, Dict, All,
  splitlines, Distinct,
}
use coupon_service.Base.Utf8.{decode_utf8}
use coupon_service.Delivery.Hygiene.{IsByEnd, export-IsByEnd}
use coupon_service.Package.Archive.{Member, fixed_time, export}
use coupon_service.Package.Archive.Exported.{IsExport, export-IsExport}
use coupon_service.Package.Checksums.{Node, file, other, digests, manifest, path_included}
use coupon_service.Package.Checksums.Agreement.{path_included_of_allowed}
use coupon_service.Package.Checksums.Readable.{parse_checksums-manifest}
use coupon_service.Package.Failure.{ok}
use coupon_service.Package.Index.{Entry, Tracked, tracked_entries}
use coupon_service.Package.Index.Accepted.{IsIndex, tracked_entries-IsIndex}
use coupon_service.Package.Index.RoundTrip.{
  IndexFile, IsListable, listing, entries, tracked_entries-listing,
}
use coupon_service.Package.Manifest.{Digests, parse_checksums}
use coupon_service.Package.Manifest.Accepted.{MatchedLines, parse_checksums_lem}
use coupon_service.Package.Manifest.RoundTrip.{
  IsWritable, manifest_line, manifest_text, parse_checksums-manifest_text,
}
use coupon_service.Package.Source.{Git, Blobs, verify_source}
use coupon_service.Package.Source.Verified.{IsVerified, verify_source_iff}

abbrev times : ℕ → Text → Text
times Prim.Native.Nat.zero t = []
times (Prim.Native.Nat.suc n) t = t ++ times n t

-- a digest of 64 digits: the number of bytes, modulo ten
abbrev toy_digest : Text → Text
toy_digest bytes = times 64 ((b'0' + length bytes % 10) ∷ [])

abbrev readme_id : Text
readme_id = times 40 (codes "a")

abbrev manifest_id : Text
manifest_id = times 40 (codes "b")

abbrev readme_bytes : Text
readme_bytes = codes "hello"

abbrev entries_example : Digests
entries_example = (codes "README.md", times 64 (codes "5")) ∷ []

abbrev manifest_bytes : Text
manifest_bytes = manifest_text entries_example

abbrev index_example : List IndexFile
index_example =
    record {
      executable = false;
      object_id = manifest_id;
      path_bytes = codes "CHECKSUMS.sha256";
      path = codes "CHECKSUMS.sha256";
    }
    ∷ record {
      executable = true;
      object_id = readme_id;
      path_bytes = codes "README.md";
      path = codes "README.md";
    }
    ∷ []

abbrev object_of : Text → Option Text
object_of id =
    if id =? readme_id
    then some readme_bytes
    else if id =? manifest_id
    then some manifest_bytes
    else none

abbrev git_example : Git
git_example = record {
  inside_work_tree = some (codes "true\n");
  head = some (times 40 (codes "c") ++ codes "\n");
  status = some [];
  ls_files = some (listing index_example);
  cat_file = object_of;
}

abbrev tracked_example : Tracked
tracked_example = entries index_example

abbrev paths_example : List Text
paths_example = codes "CHECKSUMS.sha256" ∷ codes "README.md" ∷ []

abbrev blobs_example : Blobs
blobs_example = (codes "CHECKSUMS.sha256", manifest_bytes) ∷ (codes "README.md", readme_bytes) ∷ []

abbrev member_example : Text → ℕ → Text → Member
member_example path permission bytes = record {
  name = codes "coupon-service-source-cccccccccccc/" ++ path;
  date_time = fixed_time;
  create_system = 3;
  external_attr = permission;
  content = bytes;
}

abbrev members_example : List Member
members_example =
    member_example (codes "CHECKSUMS.sha256") 27525120 manifest_bytes
    ∷ member_example (codes "README.md") 32309248 readme_bytes
    ∷ []

verify_source_iff_example :
    IsVerified toy_digest git_example tracked_example paths_example blobs_example
unfolding verify_source text_beq coupon_service.Package.Paths.forbidden parse_checksums decode_utf8
    splitlines coupon_service.Base.insert
verify_source_iff_example =
    (verify_source_iff toy_digest git_example tracked_example paths_example blobs_example).0 refl

export-IsExport_example :
    IsExport toy_digest git_example (codes "coupon-service-source-cccccccccccc.zip") members_example
unfolding export text_beq coupon_service.Base.Utf8.decode_ascii coupon_service.Base.split_on
    coupon_service.Base.split_once decode_utf8 coupon_service.Base.insert
    coupon_service.Package.Paths.forbidden parse_checksums splitlines
export-IsExport_example =
    export-IsExport toy_digest git_example (codes "coupon-service-source-cccccccccccc.zip")
      members_example refl

export-IsByEnd_example : All IsByEnd members_example
unfolding export text_beq coupon_service.Base.Utf8.decode_ascii coupon_service.Base.split_on
    coupon_service.Base.split_once decode_utf8 coupon_service.Base.insert
    coupon_service.Package.Paths.forbidden parse_checksums splitlines
export-IsByEnd_example =
    export-IsByEnd toy_digest git_example (codes "coupon-service-source-cccccccccccc.zip")
      members_example refl

entries_example-IsWritable : All IsWritable entries_example
entries_example-IsWritable =
    (record { digest_hex = refl; digest_length = refl; path_some = refl; path_line = refl }, tt)

parse_checksums-manifest_text_example : parse_checksums manifest_bytes ≡ ok entries_example
unfolding decode_utf8
parse_checksums-manifest_text_example =
    parse_checksums-manifest_text manifest_bytes entries_example refl entries_example-IsWritable
      (refl, tt)

parse_checksums_lem_example :
    (text : Text) × (decode_utf8 manifest_bytes ≡ some text)
    × (splitlines text ≡ map manifest_line entries_example)
    × MatchedLines entries_example
    × Distinct (keys entries_example)
unfolding parse_checksums text_beq decode_utf8 splitlines coupon_service.Base.insert
parse_checksums_lem_example = parse_checksums_lem manifest_bytes entries_example refl

index_example-IsListable : All IsListable index_example
unfolding decode_utf8 coupon_service.Package.Index.is_object_id
index_example-IsListable = (
  record { id_ok = refl; no_nul = refl; decodes = refl },
  (record { id_ok = refl; no_nul = refl; decodes = refl }, tt),
)

tracked_entries-listing_example : tracked_entries (listing index_example) ≡ ok tracked_example
unfolding text_beq
tracked_entries-listing_example =
    tracked_entries-listing index_example index_example-IsListable (refl, (refl, tt))

tracked_entries-IsIndex_example : IsIndex (listing index_example) tracked_example
unfolding tracked_entries text_beq coupon_service.Base.split_on coupon_service.Base.split_once
    coupon_service.Base.Utf8.decode_ascii decode_utf8 coupon_service.Base.insert
tracked_entries-IsIndex_example =
    (tracked_entries-IsIndex (listing index_example) tracked_example).0 refl

-- a working tree with a file that is left out and a directory
abbrev nodes_example : Dict Text Node
nodes_example =
    (codes "target", other)
    ∷ (codes "target/app.jar", file (codes "jar"))
    ∷ (codes "README.md", file readme_bytes)
    ∷ []

nodes_example-IsWritable :
    All
      (λ f. IsWritable (coupon_service.Package.Checksums.digest_of toy_digest f))
      (coupon_service.Package.Checksums.included nodes_example)
unfolding coupon_service.Package.Checksums.included text_beq
nodes_example-IsWritable =
    (record { digest_hex = refl; digest_length = refl; path_some = refl; path_line = refl }, tt)

parse_checksums-manifest_example :
    parse_checksums manifest_bytes ≡ ok (digests toy_digest nodes_example)
unfolding manifest decode_utf8 text_beq
parse_checksums-manifest_example =
    parse_checksums-manifest toy_digest nodes_example manifest_bytes refl (refl, (refl, (refl, tt)))
      nodes_example-IsWritable refl

path_included_of_allowed_example : path_included (codes "src/main/App.java") ≡ true
unfolding coupon_service.Package.Paths.forbidden text_beq
path_included_of_allowed_example = path_included_of_allowed (codes "src/main/App.java") refl refl
