-- ===== src/Package/Index/RoundTrip.antt =====
-- Reading back an index listing of ordinary files.
use coupon_service.Base.{
  ℕ, ◌≡◌, refl, ap, ◌∙◌, Bool, true, false, not, some, List, [], ◌∷◌, ◌++◌, arith, ◌==◌,
  if◌then◌else◌, Text, codes, text_eq, text_beq, all_of, all_of-append, lacks, is_hex, split_on,
  split_on-append, split_once-append, keys, insert, insert_new, not_contains-Distinct, is_empty,
  keys-append, Distinct, All,
}
use mathlib.Core.List.{append-nil, append_assoc}
use coupon_service.Base.Characters.{hex-ascii, hex-lacks}
use coupon_service.Base.Utf8.{is_ascii, decode_ascii, decode_utf8}
use coupon_service.Package.Failure.{ok, ◌>>=◌}
use coupon_service.Package.Index.{
  Entry, Tracked, is_object_id, is_ordinary_mode, permission_of, read_record, entries_from,
  tracked_entries,
}

-- One tracked file, with its path as bytes and decoded.
pub record IndexFile : Type 0 where
  pub executable : Bool
  pub object_id : Text
  pub path_bytes : Text
  pub path : Text

pub record IsListable (f : IndexFile) : Type 0 where
  pub id_ok : is_object_id f.object_id ≡ true
  pub no_nul : lacks 0 f.path_bytes ≡ true
  pub decodes : decode_utf8 f.path_bytes ≡ some f.path

abbrev pub mode_of : Bool → Text
mode_of true = codes "100755"
mode_of false = codes "100644"

-- the object id is well-formed and the path is UTF-8
abbrev pub IsReadable : IndexFile → Type 0
IsReadable f = (is_object_id f.object_id ≡ true) × (decode_utf8 f.path_bytes ≡ some f.path)

-- `MODE ID 0`, a tab and the path
abbrev pub listed : IndexFile → Text
listed f =
    (mode_of f.executable ++ b' ' ∷ (f.object_id ++ b' ' ∷ codes "0")) ++ b'\t' ∷ f.path_bytes

abbrev pub listing : List IndexFile → Text
listing [] = []
listing (f ∷ fs) = listed f ++ 0 ∷ listing fs

abbrev pub entry_for : IndexFile → Entry
entry_for f = record { permission = if f.executable then 0o755 else 0o644; object_id = f.object_id }

abbrev pub entries : List IndexFile → Tracked
entries [] = []
entries (f ∷ fs) = (f.path, entry_for f) ∷ entries fs

id-hex : (id : Text) → is_object_id id ≡ true → all_of is_hex id ≡ true
unfolding is_object_id
id-hex id h = ground arith

module _ (m id bytes path : Text) (hex : all_of is_hex id ≡ true) where
  header_tab : lacks b'\t' m ≡ true → lacks b'\t' (m ++ b' ' ∷ (id ++ b' ' ∷ codes "0")) ≡ true
  header_tab h = rw (
    all_of-append (λ x. not (x == b'\t')) m,
    h,
    all_of-append (λ x. not (x == b'\t')) id,
    hex-lacks b'\t' refl id hex,
  )

  -- a record whose mode field is `m` is read field by field
  read_record-fields :
      lacks b'\t' m ≡ true
      → lacks b' ' m ≡ true
      → all_of is_ascii m ≡ true
      → is_ordinary_mode m ≡ true
      → is_object_id id ≡ true
      → decode_utf8 bytes ≡ some path
      → read_record ((m ++ b' ' ∷ (id ++ b' ' ∷ codes "0")) ++ b'\t' ∷ bytes)
        ≡ ok (path, record { permission = permission_of m; object_id = id })
  unfolding read_record decode_ascii is_object_id text_beq
  read_record-fields tab space ascii ordinary id_ok decodes =
      rw
        (
          split_once-append b'\t' _ bytes (header_tab tab),
          split_once-append b' ' m (id ++ b' ' ∷ codes "0") space,
          split_once-append b' ' id (codes "0") (hex-lacks b' ' refl id hex),
          ascii,
          hex-ascii id hex,
          decodes,
          ordinary,
        )
        (rw id_ok)

pub read_record-listed :
    (f : IndexFile) → IsReadable f → read_record (listed f) ≡ ok (f.path, entry_for f)
unfolding text_beq permission_of
read_record-listed f (id_ok, decodes) = of_mode f.executable
  where
    hex : all_of is_hex f.object_id ≡ true
    hex = id-hex f.object_id id_ok

    of_mode :
        (x : Bool)
        → read_record (listed (record f { executable = x }))
          ≡ ok (f.path, entry_for (record f { executable = x }))
    of_mode true =
        read_record-fields (mode_of true) f.object_id f.path_bytes f.path hex refl refl refl refl
          id_ok decodes
    of_mode false =
        read_record-fields (mode_of false) f.object_id f.path_bytes f.path hex refl refl refl refl
          id_ok decodes

mode_of-lacks_nul : (x : Bool) → lacks 0 (mode_of x) ≡ true
mode_of-lacks_nul true = refl
mode_of-lacks_nul false = refl

listed-lacks_nul : (f : IndexFile) → IsListable f → lacks 0 (listed f) ≡ true
listed-lacks_nul f v =
    let p : ℕ → Bool = λ x. not (x == 0) in
    let hex = hex-lacks 0 refl f.object_id (id-hex f.object_id v.id_ok) in
    rw (
      all_of-append p (mode_of f.executable ++ b' ' ∷ (f.object_id ++ b' ' ∷ codes "0")),
      all_of-append p (mode_of f.executable),
      all_of-append p f.object_id,
      hex,
      v.no_nul,
      mode_of-lacks_nul f.executable,
    )

entries_from-cons :
    (r : Text) (rs : List Text) (d : Tracked)
    → is_empty r ≡ false
    → entries_from (r ∷ rs) d ≡ (read_record r >>= λ e. entries_from rs (insert e.0 e.1 d))
unfolding entries_from
entries_from-cons [] rs d h = cc
entries_from-cons (c ∷ cs) rs d h = refl

mode_of-not_empty : (x : Bool) → is_empty (mode_of x) ≡ false
mode_of-not_empty true = refl
mode_of-not_empty false = refl

append-not_empty : (m r s : Text) → is_empty m ≡ false → is_empty ((m ++ r) ++ s) ≡ false
append-not_empty [] r s h = cc
append-not_empty (c ∷ cs) r s h = refl

listed-not_empty : (f : IndexFile) → is_empty (listed f) ≡ false
listed-not_empty f = append-not_empty (mode_of f.executable) _ _ (mode_of-not_empty f.executable)

entries_from-listing :
    (fs : List IndexFile) (d : Tracked)
    → All IsListable fs
    → Distinct (keys d ++ keys (entries fs))
    → entries_from (split_on 0 (listing fs)) d ≡ ok (d ++ entries fs)
unfolding entries_from split_on
entries_from-listing [] d v u = rw append-nil
entries_from-listing (f ∷ fs) d (v, vs) u =
    let fresh = not_contains-Distinct f.path (keys d) (keys (entries fs)) u in
    rw
      (
        split_on-append 0 (listed f) (listing fs) (listed-lacks_nul f v),
        entries_from-cons (listed f) (split_on 0 (listing fs)) d (listed-not_empty f),
        read_record-listed f (v.id_ok, v.decodes),
        insert_new f.path (entry_for f) d fresh,
      )
      (entries_from-listing fs (d ++ (f.path, entry_for f) ∷ []) vs
          (rw (keys-append d, append_assoc (keys d)) u)
        ∙ ap ok (append_assoc d _ (entries fs)))

-- The listing of ordinary files with distinct paths is read back entry by entry.
pub tracked_entries-listing :
    (fs : List IndexFile)
    → All IsListable fs
    → Distinct (keys (entries fs))
    → tracked_entries (listing fs) ≡ ok (entries fs)
unfolding tracked_entries
tracked_entries-listing fs v u = entries_from-listing fs [] v u
