-- ===== src/Package/Index.antt =====
-- `tracked_entries` of scripts/package_source.py: the output of `git ls-files --stage -z` as a dict
-- from path to permission and blob id.
pub mod RoundTrip
pub mod Accepted
use coupon_service.Base.{
  ℕ, Bool, true, false, ◌&&◌, ◌||◌, Option, none, some, List, [], ◌∷◌, leb, ◌=?◌, if◌then◌else◌,
  Text, codes, text_eq, all_of, is_hex, split_on, split_once, Dict, insert, length,
}
use coupon_service.Base.Utf8.{decode_ascii, decode_utf8}
use coupon_service.Package.Failure.{
  Result, ok, ◌>>=◌, ◌>>◌, require, from_option, uncaught, value_error, unicode_decode_error,
  unmerged_path, unsupported_mode, malformed_object_id,
}

-- `0o755` or `0o644`, and the blob id
pub record Entry : Type 0 where
  pub permission : ℕ
  pub object_id : Text

abbrev pub Tracked : Type 0
Tracked = Dict Text Entry

-- `re.fullmatch(r"[0-9a-f]{40,64}", object_id)`
unfoldable pub is_object_id : Text → Bool
is_object_id id = all_of is_hex id && leb 40 (length id) && leb (length id) 64

unfoldable pub permission_of : Text → ℕ
permission_of mode = if mode =? codes "100755" then 0o755 else 0o644

abbrev pub is_ordinary_mode : Text → Bool
is_ordinary_mode mode = mode =? codes "100644" || mode =? codes "100755"

abbrev pub split_value : ℕ → Text → Result (Text × Text)
split_value sep bytes = from_option (uncaught value_error) (split_once sep bytes)

abbrev pub decoded : Option Text → Result Text
decoded = from_option (uncaught unicode_decode_error)

-- The body of the loop, up to the assignment: the path and its entry.
unfoldable pub read_record : Text → Result (Text × Entry)
unfolding is_object_id permission_of
read_record bytes = do
  (metadata, path_bytes) ← split_value b'\t' bytes
  (mode_bytes, after_mode) ← split_value b' ' metadata
  (object_id_bytes, stage_bytes) ← split_value b' ' after_mode
  mode ← decoded (decode_ascii mode_bytes)
  stage ← decoded (decode_ascii stage_bytes)
  path ← decoded (decode_utf8 path_bytes)
  require (stage =? codes "0") (unmerged_path path)
  require (is_ordinary_mode mode) (unsupported_mode mode path)
  object_id ← decoded (decode_ascii object_id_bytes)
  require (is_object_id object_id) (malformed_object_id path)
  ok (path, record { permission = permission_of mode; object_id = object_id })

-- The loop over the records, skipping empty ones.
unfoldable pub entries_from : List Text → Tracked → Result Tracked
entries_from [] tracked = ok tracked
entries_from ([] ∷ records) tracked = entries_from records tracked
entries_from ((c ∷ cs) ∷ records) tracked = do
  (path, entry) ← read_record (c ∷ cs)
  entries_from records (insert path entry tracked)

unfoldable pub tracked_entries : Text → Result Tracked
unfolding entries_from read_record
tracked_entries raw = entries_from (split_on 0 raw) []
