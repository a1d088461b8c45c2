-- ===== src/Package/Index/Accepted.antt =====
-- Which index listings `tracked_entries` accepts, and the dict that it makes of one.
use coupon_service.Base.{
  ℕ, ◌≡◌, ◌↔◌, refl, sym, ap, ◌∙◌, inl, inr, Bool, Bool-cases, true, false, Option, some, none,
  List, [], ◌∷◌, ◌++◌, arith, ◌==◌, ==_iff, ◌=?◌, Text, codes, text_eq, text_beq, split_on,
  split_once, keys, insert, Distinct, insert-Distinct,
}
use mathlib.Core.Path.{subst}
use coupon_service.Base.Utf8.{decode_ascii, decode_utf8}
use coupon_service.Package.Failure.{
  ok, uncaught, value_error, unicode_decode_error, unmerged_path, unsupported_mode,
  malformed_object_id, >>=-eq-ok, require_then-eq-ok, from_option_then-eq-ok, ok-injective,
}
use coupon_service.Package.Index.{
  Entry, Tracked, is_object_id, is_ordinary_mode, permission_of, read_record, entries_from,
  tracked_entries,
}
use coupon_service.Package.Index.RoundTrip.{
  IndexFile, IsReadable, mode_of, listed, entry_for, read_record-listed,
}

-- `result[path] = ...` for each file, in the order of the records
abbrev pub assign_all : List IndexFile → Tracked → Tracked
assign_all [] d = d
assign_all (f ∷ fs) d = assign_all fs (insert f.path (entry_for f) d)

-- Leaving out the empty ones, each record is the line `MODE ID 0`, a tab and the path of one of the
-- files, the mode being 100644 or 100755.
abbrev pub AreListed : List Text → List IndexFile → Type 0
AreListed [] [] = Unit
AreListed [] (f ∷ fs) = ⊥
AreListed ([] ∷ records) files = AreListed records files
AreListed ((c ∷ cs) ∷ records) [] = ⊥
AreListed ((c ∷ cs) ∷ records) (f ∷ fs) =
    (c ∷ cs ≡ listed f) × (IsReadable f × AreListed records fs)

-- The listing names these files, with their modes and ids; the dict has the last entry of each path,
-- and each path once.
pub record IsIndex (raw : Text) (tracked : Tracked) : Type 0 where
  pub files : List IndexFile
  pub are_listed : AreListed (split_on 0 raw) files
  pub assigned : assign_all files [] ≡ tracked
  pub distinct : Distinct (keys tracked)

split_once-parts :
    (sep : ℕ) (bytes : Text) {a b : Text}
    → split_once sep bytes ≡ some (a, b)
    → bytes ≡ a ++ sep ∷ b
unfolding split_once
split_once-parts sep [] h = cc
split_once-parts sep (x ∷ xs) {a} {b} h =
    after (x == sep) (split_once sep xs) refl (λ c d read. split_once-parts sep xs read) h
  where
    after :
        (t : Bool) (r : Option (Text × Text))
        → (x == sep) ≡ t
        → ((c d : Text) → r ≡ some (c, d) → xs ≡ c ++ sep ∷ d)
        → ◌≡◌ {A = Option (Text × Text)}
            (elim t [
              | true ↦ some ([], xs)
              | false ↦ elim r [ none ↦ none | some (c, d) ↦ some (x ∷ c, d) ]
            ])
            (some (a, b))
        → x ∷ xs ≡ a ++ sep ∷ b
    after true r same later h = ground (arith, ==_iff x sep)
    after false none same later h = cc
    after false (some (c, d)) same later h = ground (arith, later c d refl)

decode_ascii-same : (bytes : Text) {text : Text} → decode_ascii bytes ≡ some text → bytes ≡ text
unfolding decode_ascii
decode_ascii-same bytes h = ground arith

-- an ordinary mode is one of the two
mode-cases : (mode : Text) → is_ordinary_mode mode ≡ true → (x : Bool) × (mode ≡ mode_of x)
mode-cases mode h = elim (Bool-cases (mode =? codes "100755")) [
  | inl same ↦ (true, (text_eq.beq_iff mode (codes "100755")).0 same)
  | inr other ↦ (false, (text_eq.beq_iff mode (codes "100644")).0 (ground arith))
]

permission_of-mode_of :
    (x : Bool) (id : Text) (bytes path : Text)
    → record { permission = permission_of (mode_of x); object_id = id }
      ≡ entry_for (record { executable = x; object_id = id; path_bytes = bytes; path = path })
unfolding permission_of text_beq
permission_of-mode_of true id bytes path = refl
permission_of-mode_of false id bytes path = refl

-- what one record says
record IsRecord (bytes path : Text) (e : Entry) : Type 0 where
  file : IndexFile
  is_listed : bytes ≡ listed file
  readable : IsReadable file
  named : file.path ≡ path
  entry : entry_for file ≡ e

module _ (bytes metadata path_bytes mode_bytes after_mode id_bytes stage_bytes : Text) where
  -- the fields that the three splits and the decoding have given
  fields-IsRecord :
      (mode stage id path : Text) {e : Text × Entry}
      → split_once b'\t' bytes ≡ some (metadata, path_bytes)
      → split_once b' ' metadata ≡ some (mode_bytes, after_mode)
      → split_once b' ' after_mode ≡ some (id_bytes, stage_bytes)
      → decode_ascii mode_bytes ≡ some mode
      → decode_ascii stage_bytes ≡ some stage
      → decode_ascii id_bytes ≡ some id
      → (stage =? codes "0") ≡ true
      → is_ordinary_mode mode ≡ true
      → decode_utf8 path_bytes ≡ some path
      → is_object_id id ≡ true
      → (path, record { permission = permission_of mode; object_id = id }) ≡ e
      → IsRecord bytes e.0 e.1
  fields-IsRecord mode stage id path tab space space' m s i merged ordinary decodes id_ok is =
      let (x, mode_is) = mode-cases mode ordinary in
      let by_tab = split_once-parts b'\t' bytes tab in
      let by_space = split_once-parts b' ' metadata space in
      let by_last = split_once-parts b' ' after_mode space' in
      let mode_same = decode_ascii-same mode_bytes m in
      let id_same = decode_ascii-same id_bytes i in
      let stage_same = decode_ascii-same stage_bytes s in
      let zero_stage = (text_eq.beq_iff stage (codes "0")).0 merged in
      record {
        file = record { executable = x; object_id = id; path_bytes = path_bytes; path = path };
        is_listed = cc;
        readable = (id_ok, decodes);
        named = ap (λ r. r.0) is;
        entry =
            sym (permission_of-mode_of x id path_bytes path)
            ∙ (sym (ap (λ m. record { permission = permission_of m; object_id = id }) mode_is)
                ∙ ap (λ r. r.1) is);
      }

read_record-IsRecord :
    (bytes : Text) {path : Text} {e : Entry}
    → read_record bytes ≡ ok (path, e)
    → IsRecord bytes path e
unfolding read_record
read_record-IsRecord bytes h =
    let ((metadata, path_bytes), tab, h1) =
      from_option_then-eq-ok (uncaught value_error) (split_once b'\t' bytes) _ h in
    let ((mode_bytes, after_mode), space, h2) =
      from_option_then-eq-ok (uncaught value_error) (split_once b' ' metadata) _ h1 in
    let ((id_bytes, stage_bytes), space', h3) =
      from_option_then-eq-ok (uncaught value_error) (split_once b' ' after_mode) _ h2 in
    let (mode, mode_read, h4) =
      from_option_then-eq-ok (uncaught unicode_decode_error) (decode_ascii mode_bytes) _ h3 in
    let (stage, stage_read, h5) =
      from_option_then-eq-ok (uncaught unicode_decode_error) (decode_ascii stage_bytes) _ h4 in
    let (path, path_read, h6) =
      from_option_then-eq-ok (uncaught unicode_decode_error) (decode_utf8 path_bytes) _ h5 in
    let (merged, h7) = require_then-eq-ok (stage =? codes "0") (unmerged_path path) _ h6 in
    let (ordinary, h8) =
      require_then-eq-ok (is_ordinary_mode mode) (unsupported_mode mode path) _ h7 in
    let (id, id_read, h9) =
      from_option_then-eq-ok (uncaught unicode_decode_error) (decode_ascii id_bytes) _ h8 in
    let (id_ok, last) = require_then-eq-ok (is_object_id id) (malformed_object_id path) _ h9 in
    fields-IsRecord bytes metadata path_bytes mode_bytes after_mode id_bytes stage_bytes mode stage
      id path tab space space' mode_read stage_read id_read merged ordinary path_read id_ok
      (ok-injective last)

entries_from-listed :
    (records : List Text) (d : Tracked) {t : Tracked}
    → entries_from records d ≡ ok t
    → (files : List IndexFile) × (AreListed records files × (assign_all files d ≡ t))
unfolding entries_from
entries_from-listed [] d h = ([], (tt, ok-injective h))
entries_from-listed ([] ∷ rs) d h = entries_from-listed rs d h
entries_from-listed ((c ∷ cs) ∷ rs) d h =
    let ((path, e), read, later) = >>=-eq-ok (read_record (c ∷ cs)) _ h in
    let found = read_record-IsRecord (c ∷ cs) read in
    let (files, (are, assigned)) = entries_from-listed rs (insert path e d) later in
    (
      found.file ∷ files,
      ((found.is_listed, (found.readable, are)), rw (found.named, found.entry) assigned),
    )

listed-entries_from :
    (records : List Text) (files : List IndexFile) (d : Tracked)
    → AreListed records files
    → entries_from records d ≡ ok (assign_all files d)
unfolding entries_from
listed-entries_from [] [] d are = refl
listed-entries_from [] (f ∷ fs) d are = elim are [ ]
listed-entries_from ([] ∷ rs) files d are = listed-entries_from rs files d are
listed-entries_from ((c ∷ cs) ∷ rs) [] d are = elim are [ ]
listed-entries_from ((c ∷ cs) ∷ rs) (f ∷ fs) d (is, (readable, are)) =
    rw (is, read_record-listed f readable)
      (listed-entries_from rs fs (insert f.path (entry_for f) d) are)

assign_all-Distinct :
    (files : List IndexFile) (d : Tracked)
    → Distinct (keys d)
    → Distinct (keys (assign_all files d))
assign_all-Distinct [] d u = u
assign_all-Distinct (f ∷ fs) d u =
    assign_all-Distinct fs (insert f.path (entry_for f) d)
      (insert-Distinct f.path (entry_for f) d u)

-- A listing is accepted exactly when each of its records, the empty ones left out, is a mode of 100644 or
-- 100755, an object id of 40 to 64 hexadecimal digits, stage 0, a tab and a path in UTF-8. The dict then
-- has for each path, once, permission 0o755 or 0o644 by the mode and the id of its last record.
pub tracked_entries-IsIndex :
    (raw : Text) (t : Tracked) → (tracked_entries raw ≡ ok t) ↔ IsIndex raw t
unfolding tracked_entries
tracked_entries-IsIndex raw t = (
  λ h.
      let (files, (are, assigned)) = entries_from-listed (split_on 0 raw) [] h in
      record {
        files = files;
        are_listed = are;
        assigned = assigned;
        distinct = subst (λ d. Distinct (keys d)) assigned (assign_all-Distinct files [] tt);
      },
  λ i. listed-entries_from (split_on 0 raw) i.files [] i.are_listed ∙ ap ok i.assigned,
)
