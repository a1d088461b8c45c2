-- ===== src/Package/Source/Verified.antt =====
-- What `verify_source` promises: it accepts exactly the clean, allowed and correctly checksummed trees.
use mathlib.Core.Path.{subst}
use coupon_service.Base.{
  ◌≡◌, refl, ap, sym, ◌∙◌, ◌↔◌, true, false, not, ◌&&◌, Option, some, List, [], ◌∷◌, arith, ◌=?◌,
  =?_refl, Text, text_eq, text_beq_iff, contains, is_empty, keys, lookup, has_key, All,
}
use coupon_service.Base.Sets.{
  subset, subset_both_iff, contains-select, All-contains, All-of_contains,
}
use coupon_service.Base.Sort.{sorted, contains-sorted}
use coupon_service.Package.Failure.{
  ok, >>=-eq-ok, require_then-eq-ok, from_option_then-eq-ok, ok-injective, uncaught,
  called_process_error, key_error, unclean_tree, untracked_manifest, forbidden_files,
  stale_checksum,
}
use coupon_service.Package.Index.{Tracked}
use coupon_service.Package.Manifest.{Digests, parse_checksums}
use coupon_service.Package.Paths.{forbidden}
use coupon_service.Package.Source.{
  Git, Blobs, checksum_name, forbidden_among, read_blobs, included_paths, check_digests,
  verify_blobs, verify_source,
}

-- No path of the list is forbidden.
abbrev pub NoneForbidden : List Text → Type 0
NoneForbidden = All (λ path. forbidden path ≡ ok false)

forbidden_among_lem : (paths : List Text) → forbidden_among paths ≡ ok [] → NoneForbidden paths
unfolding forbidden_among
forbidden_among_lem [] h = tt
forbidden_among_lem (p ∷ ps) h = ground (arith, forbidden_among_lem ps)

forbidden_among_none : (paths : List Text) → NoneForbidden paths → forbidden_among paths ≡ ok []
unfolding forbidden_among
forbidden_among_none [] a = refl
forbidden_among_none (p ∷ ps) (h, a) = rw (h, forbidden_among_none ps a)

-- The blobs are the objects of the entries, path by path.
abbrev pub Contents : (Text → Option Text) → Tracked → Blobs → Type 0
Contents cat_file [] [] = Unit
Contents cat_file ((path, entry) ∷ tracked) ((name, bytes) ∷ blobs) =
    (path ≡ name) × (cat_file entry.object_id ≡ some bytes) × Contents cat_file tracked blobs
Contents cat_file _ _ = ⊥

read_blobs_iff :
    (cat_file : Text → Option Text) (tracked : Tracked) (blobs : Blobs)
    → (read_blobs cat_file tracked ≡ ok blobs) ↔ Contents cat_file tracked blobs
unfolding read_blobs
read_blobs_iff cat_file [] [] = (λ _. tt, λ _. refl)
read_blobs_iff cat_file [] (b ∷ bs) = (λ h. cc, λ h. absurd h)
read_blobs_iff cat_file ((path, entry) ∷ tracked) [] = ground arith
read_blobs_iff cat_file ((path, entry) ∷ tracked) ((name, bytes) ∷ blobs) =
    ground (arith, read_blobs_iff cat_file tracked blobs)

-- `path` has a blob whose digest the manifest gives.
pub record IsChecked (sha256 : Text → Text) (blobs : Blobs) (manifest : Digests) (path : Text)
    : Type 0 where
  pub bytes : Text
  pub has_blob : lookup path blobs ≡ some bytes
  pub has_digest : lookup path manifest ≡ some (sha256 bytes)

module _ (sha256 : Text → Text) (blobs : Blobs) (manifest : Digests) where
  check_digests_sound :
      (paths : List Text)
      → check_digests sha256 blobs manifest paths ≡ ok tt
      → All (IsChecked sha256 blobs manifest) paths
  unfolding check_digests
  check_digests_sound [] h = tt
  check_digests_sound (p ∷ ps) h =
      let (b, blob, after_blob) =
        from_option_then-eq-ok (uncaught key_error) (lookup p blobs) _ h in
      let (d, digest, after_digest) =
        from_option_then-eq-ok (uncaught key_error) (lookup p manifest) _ after_blob in
      let (same, rest) = require_then-eq-ok (sha256 b =? d) (stale_checksum p) _ after_digest in
      (
        record {
          bytes = b;
          has_blob = blob;
          has_digest = digest ∙ ap some (sym ((text_beq_iff (sha256 b) d).0 same));
        },
        check_digests_sound ps rest,
      )

  check_digests_complete :
      (paths : List Text)
      → All (IsChecked sha256 blobs manifest) paths
      → check_digests sha256 blobs manifest paths ≡ ok tt
  unfolding check_digests
  check_digests_complete [] a = refl
  check_digests_complete (p ∷ ps) (c, a) =
      rw (c.has_blob, c.has_digest, =?_refl (sha256 c.bytes)) (check_digests_complete ps a)

-- The tree of `tracked` is clean, allowed, and described by its manifest; `paths` and `blobs` are the
-- sorted paths and the contents.
pub record IsVerified (sha256 : Text → Text) (git : Git) (tracked : Tracked) (paths : List Text)
    (blobs : Blobs) : Type 0 where
  pub clean : git.status ≡ some []
  pub has_manifest : has_key checksum_name tracked ≡ true
  pub allowed : NoneForbidden (keys tracked)
  pub contents : Contents git.cat_file tracked blobs
  pub manifest_bytes : Text
  pub manifest_blob : lookup checksum_name blobs ≡ some manifest_bytes
  pub manifest : Digests
  pub manifest_read : parse_checksums manifest_bytes ≡ ok manifest
  pub same_paths : (p : Text) → has_key p manifest ≡ (has_key p tracked && not (p =? checksum_name))
  pub checked :
      (p : Text)
      → has_key p tracked ≡ true
      → (p =? checksum_name) ≡ false
      → IsChecked sha256 blobs manifest p
  pub ordered : paths ≡ sorted (keys tracked)

contains-included :
    (p : Text) (tracked : Tracked)
    → contains p (included_paths tracked) ≡ (has_key p tracked && not (p =? checksum_name))
unfolding included_paths
contains-included p tracked =
    contains-sorted p _ ∙ contains-select (λ path. not (path =? checksum_name)) p (keys tracked)

is_empty-eq : (s : Text) → is_empty s ≡ true → s ≡ []
is_empty-eq [] h = refl
is_empty-eq (c ∷ cs) h = cc

is_empty-eq_paths : (l : List Text) → is_empty l ≡ true → l ≡ []
is_empty-eq_paths [] h = refl
is_empty-eq_paths (c ∷ cs) h = cc

module _ (sha256 : Text → Text) (tracked : Tracked) (blobs : Blobs) (manifest : Digests) where
  same_paths_iff :
      ((subset (keys manifest) (included_paths tracked)
          && subset (included_paths tracked) (keys manifest))
        ≡ true)
      ↔ ((p : Text) → has_key p manifest ≡ (has_key p tracked && not (p =? checksum_name)))
  same_paths_iff =
      let both = subset_both_iff (keys manifest) (included_paths tracked) in
      (
        λ h p. both.0 h p ∙ contains-included p tracked,
        λ h. both.1 (λ p. h p ∙ sym (contains-included p tracked)),
      )

  IsChecked-iff : (check_digests sha256 blobs manifest (included_paths tracked) ≡ ok tt) ↔ (
      (p : Text)
      → has_key p tracked ≡ true
      → (p =? checksum_name) ≡ false
      → IsChecked sha256 blobs manifest p)
  IsChecked-iff = (
    λ h p t other.
        All-contains (IsChecked sha256 blobs manifest) p (included_paths tracked)
          (check_digests_sound sha256 blobs manifest (included_paths tracked) h)
          (rw (contains-included p tracked, t, other)),
    λ h. check_digests_complete sha256 blobs manifest (included_paths tracked) (
        All-of_contains (IsChecked sha256 blobs manifest) (included_paths tracked) (λ p m.
          let both = sym (contains-included p tracked) ∙ m in h p (ground arith) (ground arith))),
  )

module _ (sha256 : Text → Text) (git : Git) (tracked : Tracked) (paths : List Text)
    (blobs : Blobs) where
  -- the facts that the tests give, put together
  assemble :
      (bytes : Text) (manifest : Digests)
      → git.status ≡ some []
      → has_key checksum_name tracked ≡ true
      → forbidden_among (keys tracked) ≡ ok []
      → read_blobs git.cat_file tracked ≡ ok blobs
      → lookup checksum_name blobs ≡ some bytes
      → parse_checksums bytes ≡ ok manifest
      → (subset (keys manifest) (included_paths tracked)
          && subset (included_paths tracked) (keys manifest))
        ≡ true
      → check_digests sha256 blobs manifest (included_paths tracked) ≡ ok tt
      → paths ≡ sorted (keys tracked)
      → IsVerified sha256 git tracked paths blobs
  assemble bytes manifest clean has allowed contents blob parsed same checked ordered = record {
    clean = clean;
    has_manifest = has;
    allowed = forbidden_among_lem (keys tracked) allowed;
    contents = (read_blobs_iff git.cat_file tracked blobs).0 contents;
    manifest_bytes = bytes;
    manifest_blob = blob;
    manifest = manifest;
    manifest_read = parsed;
    same_paths = (same_paths_iff sha256 tracked blobs manifest).0 same;
    checked = (IsChecked-iff sha256 tracked blobs manifest).0 checked;
    ordered = ordered;
  }

  -- what is left of `verify_source` once the paths have been looked at
  after_blobs :
      (status : Text) (bad : List Text)
      → git.status ≡ some status
      → is_empty status ≡ true
      → has_key checksum_name tracked ≡ true
      → forbidden_among (keys tracked) ≡ ok bad
      → is_empty bad ≡ true
      → verify_blobs sha256 git tracked ≡ ok (paths, blobs)
      → IsVerified sha256 git tracked paths blobs
  unfolding verify_blobs
  after_blobs status bad status_is clean has among none_bad h =
      let (read, read_is, h1) = >>=-eq-ok (read_blobs git.cat_file tracked) _ h in
      let (bytes, blob, h2) =
        from_option_then-eq-ok (uncaught key_error) (lookup checksum_name read) _ h1 in
      let (manifest, parsed, h3) = >>=-eq-ok (parse_checksums bytes) _ h2 in
      let (same, h4) = require_then-eq-ok _ _ _ h3 in
      let (u, digests, last) =
        >>=-eq-ok (check_digests sha256 read manifest (included_paths tracked)) _ h4 in
      let ends = ok-injective last in
      let read_eq = ap (λ (r : List Text × Blobs). r.1) ends in
      assemble bytes manifest (status_is ∙ ap some (is_empty-eq status clean)) has
        (among ∙ ap ok (is_empty-eq_paths bad none_bad)) (read_is ∙ ap ok read_eq)
        (subst (λ b. lookup checksum_name b ≡ some bytes) read_eq blob) parsed same
        (subst (λ b. check_digests sha256 b manifest (included_paths tracked) ≡ ok tt) read_eq
          digests)
        (sym (ap (λ (r : List Text × Blobs). r.0) ends))

  verify_source_sound :
      verify_source sha256 git tracked ≡ ok (paths, blobs)
      → IsVerified sha256 git tracked paths blobs
  unfolding verify_source
  verify_source_sound h =
      let (status, status_is, h1) =
        from_option_then-eq-ok (uncaught called_process_error) git.status _ h in
      let (clean, h2) = require_then-eq-ok (is_empty status) unclean_tree _ h1 in
      let (has, h3) = require_then-eq-ok (has_key checksum_name tracked) untracked_manifest _ h2 in
      let (bad, among, h4) = >>=-eq-ok (forbidden_among (keys tracked)) _ h3 in
      let (none_bad, h5) = require_then-eq-ok (is_empty bad) (forbidden_files (sorted bad)) _ h4 in
      after_blobs status bad status_is clean has among none_bad h5

  verify_source_complete :
      IsVerified sha256 git tracked paths blobs
      → verify_source sha256 git tracked ≡ ok (paths, blobs)
  unfolding verify_source
  verify_source_complete v = rw (
    v.clean,
    v.has_manifest,
    forbidden_among_none (keys tracked) v.allowed,
    (read_blobs_iff git.cat_file tracked blobs).1 v.contents,
    v.manifest_blob,
    v.manifest_read,
    (same_paths_iff sha256 tracked blobs v.manifest).1 v.same_paths,
    (IsChecked-iff sha256 tracked blobs v.manifest).1 v.checked,
    v.ordered,
  )

  -- `verify_source` accepts a tree exactly when the work tree is clean, CHECKSUMS.sha256 is tracked, no
  -- tracked path is forbidden, every blob can be read, and the manifest lists every other tracked path
  -- and nothing else, each with the digest of its content. It returns the sorted paths and the blobs.
  pub verify_source_iff :
      (verify_source sha256 git tracked ≡ ok (paths, blobs))
      ↔ IsVerified sha256 git tracked paths blobs
  verify_source_iff = (verify_source_sound, verify_source_complete)
