-- ===== src/Package/Manifest.antt =====
-- `parse_checksums` of scripts/package_source.py: the text of CHECKSUMS.sha256 as a dict from path to
-- digest.
pub mod RoundTrip
pub mod Accepted
use coupon_service.Base.{
  ℕ, zero, suc, Bool, true, false, not, ◌&&◌, Option, none, some, List, [], ◌∷◌, ◌==◌,
  if◌then◌else◌, Text, text_eq, is_hex, lacks, splitlines, Dict, insert, has_key,
}
use coupon_service.Base.Utf8.{decode_utf8}
use coupon_service.Package.Failure.{
  Result, ok, ◌>>=◌, ◌>>◌, require, from_option, manifest_not_utf8, malformed_line, duplicate_entry,
}

-- digests by path
abbrev pub Digests : Type 0
Digests = Dict Text Text

abbrev cons_first : ℕ → Option (Text × Text) → Option (Text × Text)
cons_first c none = none
cons_first c (some (a, b)) = some (c ∷ a, b)

-- `[0-9a-f]{n}` at the start of a text, and what follows it
unfoldable pub take_hex : ℕ → Text → Option (Text × Text)
take_hex zero text = some ([], text)
take_hex (suc n) [] = none
take_hex (suc n) (c ∷ cs) = if is_hex c then cons_first c (take_hex n cs) else none

-- `  (.+)` up to the end: two spaces, then at least one character, and no line feed
unfoldable pub after_spaces : Text → Option Text
after_spaces (a ∷ b ∷ c ∷ cs) =
    if (a == b' ') && (b == b' ') && lacks b'\n' (c ∷ cs) then some (c ∷ cs) else none
after_spaces _ = none

abbrev with_path : Text → Option Text → Option (Text × Text)
with_path digest none = none
with_path digest (some path) = some (digest, path)

abbrev match_rest : Option (Text × Text) → Option (Text × Text)
match_rest none = none
match_rest (some (digest, rest)) = with_path digest (after_spaces rest)

-- `re.fullmatch(r"([0-9a-f]{64})  (.+)", line)` and its groups
unfoldable pub match_line : Text → Option (Text × Text)
unfolding take_hex after_spaces
match_line line = match_rest (take_hex 64 line)

-- the loop over the lines
unfoldable pub digests_from : List Text → Digests → Result Digests
digests_from [] entries = ok entries
digests_from (line ∷ lines) entries = do
  (digest, path) ← from_option (malformed_line line) (match_line line)
  require (not (has_key path entries)) (duplicate_entry path)
  digests_from lines (insert path digest entries)

unfoldable pub parse_checksums : Text → Result Digests
unfolding digests_from match_line
parse_checksums bytes = do
  text ← from_option manifest_not_utf8 (decode_utf8 bytes)
  digests_from (splitlines text) []
