-- ===== src/Package/Archive/Exported.antt =====
-- What stands in the archive that scripts/package_source.py writes.
use mathlib.Core.Path.{subst}
use coupon_service.Base.{
  ◌≡◌, refl, ap, sym, true, some, List, [], ◌∷◌, ◌++◌, ◌=?◌, Text, codes, text_eq, is_space,
  is_byte_space, strip, lookup,
}
use coupon_service.Base.Utf8.{decode_ascii}
use coupon_service.Package.Archive.{
  Member, fixed_time, external_attr_of, members, is_commit, package_name, export,
}
use coupon_service.Package.Failure.{
  ok, >>=-eq-ok, require_then-eq-ok, from_option_then-eq-ok, ok-injective, uncaught,
  called_process_error, key_error, unicode_decode_error, not_a_work_tree, no_commit,
}
use coupon_service.Package.Index.{Entry, Tracked, tracked_entries}
use coupon_service.Package.Source.{Git, Blobs, verify_source}
use coupon_service.Package.Source.Verified.{IsVerified, verify_source_iff}

-- The member of a path: the permission of its entry, the content of its blob, and the fixed date.
pub record IsMember (prefix : Text) (tracked : Tracked) (blobs : Blobs) (path : Text) (m : Member)
    : Type 0 where
  pub entry : Entry
  pub has_entry : lookup path tracked ≡ some entry
  pub has_blob : lookup path blobs ≡ some m.content
  pub named : m.name ≡ prefix ++ codes "/" ++ path
  pub dated : m.date_time ≡ fixed_time
  pub on_unix : m.create_system ≡ 3
  pub permission : m.external_attr ≡ external_attr_of entry.permission

-- A member for each path, in the order of the paths.
abbrev pub AreMembers : Text → Tracked → Blobs → List Text → List Member → Type 0
AreMembers prefix tracked blobs [] [] = Unit
AreMembers prefix tracked blobs (p ∷ ps) (m ∷ ms) =
    IsMember prefix tracked blobs p m × AreMembers prefix tracked blobs ps ms
AreMembers prefix tracked blobs _ _ = ⊥

members-AreMembers :
    (prefix : Text) (tracked : Tracked) (blobs : Blobs) (paths : List Text) (ms : List Member)
    → members prefix tracked blobs paths ≡ ok ms
    → AreMembers prefix tracked blobs paths ms
unfolding members
members-AreMembers prefix tracked blobs [] ms h =
    subst (AreMembers prefix tracked blobs []) (ok-injective h) tt
members-AreMembers prefix tracked blobs (p ∷ ps) ms h =
    let (e, entry, h1) = from_option_then-eq-ok (uncaught key_error) (lookup p tracked) _ h in
    let (b, blob, h2) = from_option_then-eq-ok (uncaught key_error) (lookup p blobs) _ h1 in
    let (rest, others, last) = >>=-eq-ok (members prefix tracked blobs ps) _ h2 in
    subst (AreMembers prefix tracked blobs (p ∷ ps)) (ok-injective last) (
      record {
        entry = e;
        has_entry = entry;
        has_blob = blob;
        named = refl;
        dated = refl;
        on_unix = refl;
        permission = refl;
      },
      members-AreMembers prefix tracked blobs ps rest others,
    )

module _ (sha256 : Text → Text) (git : Git) (archive : Text) (zipped : List Member) where
  -- the archive of the commit that git names, whose tracked source was verified
  pub record IsExport : Type 0 where
    pub inside : Text
    pub asked : git.inside_work_tree ≡ some inside
    pub in_work_tree : strip is_byte_space inside ≡ codes "true"
    pub head : Text
    pub resolved : git.head ≡ some head
    pub head_text : Text
    pub decoded : decode_ascii head ≡ some head_text
    pub commit : Text
    pub stripped : commit ≡ strip is_space head_text
    pub full_id : is_commit commit ≡ true
    pub file_name : archive ≡ package_name commit ++ codes ".zip"
    pub raw : Text
    pub listed : git.ls_files ≡ some raw
    pub tracked : Tracked
    pub index : tracked_entries raw ≡ ok tracked
    pub paths : List Text
    pub blobs : Blobs
    pub verified : IsVerified sha256 git tracked paths blobs
    pub complete : AreMembers (package_name commit) tracked blobs paths zipped

  -- A run that exports an archive ran in a work tree and resolved a full commit id, which is the stripped
  -- output of `git rev-parse HEAD` and after which the archive is named, and verified the tracked source; the archive has exactly one member for each tracked path, in their
  -- sorted order, with the content of its blob, the permission of its index entry and the fixed date.
  pub export-IsExport : export sha256 git ≡ ok (archive, zipped) → IsExport
  unfolding export
  export-IsExport h =
      let (inside, asked, h1) =
        from_option_then-eq-ok (uncaught called_process_error) git.inside_work_tree _ h in
      let (in_tree, h2) =
        require_then-eq-ok (strip is_byte_space inside =? codes "true") not_a_work_tree _ h1 in
      let (head, resolved, h3) =
        from_option_then-eq-ok (uncaught called_process_error) git.head _ h2 in
      let (text, decoded, h4) =
        from_option_then-eq-ok (uncaught unicode_decode_error) (decode_ascii head) _ h3 in
      let (full, h5) = require_then-eq-ok (is_commit (strip is_space text)) no_commit _ h4 in
      let (raw, listed, h6) =
        from_option_then-eq-ok (uncaught called_process_error) git.ls_files _ h5 in
      let (tracked, index, h7) = >>=-eq-ok (tracked_entries raw) _ h6 in
      let ((paths, blobs), checked, h8) = >>=-eq-ok (verify_source sha256 git tracked) _ h7 in
      let prefix = package_name (strip is_space text) in
      let (ms, are, last) = >>=-eq-ok (members prefix tracked blobs paths) _ h8 in
      let ends = ok-injective last in
      record {
        inside = inside;
        asked = asked;
        in_work_tree = (text_eq.beq_iff (strip is_byte_space inside) (codes "true")).0 in_tree;
        head = head;
        resolved = resolved;
        head_text = text;
        decoded = decoded;
        commit = strip is_space text;
        stripped = refl;
        full_id = full;
        file_name = sym (ap (λ (r : Text × List Member). r.0) ends);
        raw = raw;
        listed = listed;
        tracked = tracked;
        index = index;
        paths = paths;
        blobs = blobs;
        verified = (verify_source_iff sha256 git tracked paths blobs).0 checked;
        complete =
            subst (AreMembers prefix tracked blobs paths)
              (ap (λ (r : Text × List Member). r.1) ends)
              (members-AreMembers prefix tracked blobs paths ms are);
      }
