-- ===== src/Package/Manifest/Accepted.antt =====
-- What `parse_checksums` has checked: an accepted manifest is the rendering of what it returns.
use mathlib.Core.List.{append_assoc, append-nil}
use mathlib.Core.Path.{subst, ap₂}
use coupon_service.Base.{
  ℕ, zero, suc, ◌≡◌, refl, ap, sym, ◌∙◌, true, false, not, some, List, [], ◌∷◌, ◌++◌, map, arith,
  Text, text_eq, all_of, lacks, is_empty, is_hex, splitlines, length, keys, insert_new,
  insert-Distinct, has_key, Distinct, All, Option-cases, inl, inr,
}
use coupon_service.Base.Utf8.{decode_utf8}
use coupon_service.Package.Failure.{
  ok, ok-injective, require_then-eq-ok, from_option_then-eq-ok, duplicate_entry, malformed_line,
  manifest_not_utf8,
}
use coupon_service.Package.Manifest.{
  Digests, take_hex, after_spaces, match_line, digests_from, parse_checksums,
}
use coupon_service.Package.Manifest.RoundTrip.{manifest_line}

-- `line` is 64 hexadecimal digits, two spaces and a path.
pub record Matches (line digest path : Text) : Type 0 where
  pub line_is : line ≡ manifest_line (path, digest)
  pub digest_hex : all_of is_hex digest ≡ true
  pub digest_length : length digest ≡ 64
  pub path_some : is_empty path ≡ false
  pub path_line : lacks b'\n' path ≡ true

take_hex_lem :
    (n : ℕ) (text : Text) {digest rest : Text}
    → take_hex n text ≡ some (digest, rest)
    → (text ≡ digest ++ rest) × (all_of is_hex digest ≡ true) × (length digest ≡ n)
unfolding take_hex
take_hex_lem zero text h = ground arith
take_hex_lem (suc n) [] h = cc
take_hex_lem (suc n) (c ∷ cs) h = elim (Option-cases (take_hex n cs)) [
  | inl failed ↦ ground arith
  | inr ((d, r), taken) ↦ let (whole, hex, len) = take_hex_lem n cs taken in ground arith
]

after_spaces_lem :
    (text : Text) {path : Text}
    → after_spaces text ≡ some path
    → (text ≡ b' ' ∷ b' ' ∷ path) × (is_empty path ≡ false) × (lacks b'\n' path ≡ true)
unfolding after_spaces
after_spaces_lem [] h = cc
after_spaces_lem (a ∷ []) h = cc
after_spaces_lem (a ∷ b ∷ []) h = cc
after_spaces_lem (a ∷ b ∷ c ∷ cs) h = ground arith

match_line_lem :
    (line : Text) {digest path : Text}
    → match_line line ≡ some (digest, path)
    → Matches line digest path
unfolding match_line
match_line_lem line {digest} {path} h = elim (Option-cases (take_hex 64 line)) [
  | inl failed ↦ ground arith
  | inr ((d, r), taken) ↦ elim (Option-cases (after_spaces r)) [
    | inl failed ↦ ground arith
    | inr (p, spaced) ↦
        let (whole, hex, len) = take_hex_lem 64 line taken in
        let (split, nonempty, one_line) = after_spaces_lem r spaced in ground arith
  ]
]

abbrev pub MatchedLines : Digests → Type 0
MatchedLines = All (λ (e : Text × Text). Matches (manifest_line e) e.1 e.0)

-- What the loop adds to `d` to get `m`: an entry for each line, which is its rendering.
record Reads (lines : List Text) (d m : Digests) : Type 0 where
  distinct : Distinct (keys m)
  added : Digests
  result_is : m ≡ d ++ added
  lines_are : lines ≡ map manifest_line added
  matched : MatchedLines added

Reads-nil : (d : Digests) → Distinct (keys d) → Reads [] d d
Reads-nil d u = record {
  distinct = u;
  added = [];
  result_is = sym (append-nil d);
  lines_are = refl;
  matched = tt;
}

Reads-cons :
    (line path digest : Text) (lines : List Text) (d m : Digests)
    → Matches line digest path
    → Reads lines (d ++ (path, digest) ∷ []) m
    → Reads (line ∷ lines) d m
Reads-cons line path digest lines d m w r = record {
  distinct = r.distinct;
  added = (path, digest) ∷ r.added;
  result_is = r.result_is ∙ append_assoc d ((path, digest) ∷ []) r.added;
  lines_are = ap₂ ◌∷◌ w.line_is r.lines_are;
  matched = (subst (λ l. Matches l digest path) w.line_is w, r.matched);
}

digests_from_lem :
    (lines : List Text) (d m : Digests)
    → Distinct (keys d)
    → digests_from lines d ≡ ok m
    → Reads lines d m
unfolding digests_from
digests_from_lem [] d m u h = subst (Reads [] d) (ok-injective h) (Reads-nil d u)
digests_from_lem (line ∷ lines) d m u h =
    let ((digest, path), matched, later) =
      from_option_then-eq-ok (malformed_line line) (match_line line) _ h in
    let (new, last) = require_then-eq-ok (not (has_key path d)) (duplicate_entry path) _ later in
    Reads-cons line path digest lines d m (match_line_lem line matched) (
      digests_from_lem lines (d ++ (path, digest) ∷ []) m
        (rw (← insert_new path digest d (ground arith)) (insert-Distinct path digest d u))
        (rw (← insert_new path digest d (ground arith)) last))

-- An accepted manifest has one line for each entry that is returned, and the line is the entry's
-- rendering: 64 hexadecimal digits, two spaces and a path that is not empty. No path comes twice.
pub parse_checksums_lem :
    (bytes : Text) (m : Digests)
    → parse_checksums bytes ≡ ok m
    → (text : Text) × (decode_utf8 bytes ≡ some text)
      × (splitlines text ≡ map manifest_line m)
      × MatchedLines m
      × Distinct (keys m)
unfolding parse_checksums
parse_checksums_lem bytes m h =
    let (text, decoded, later) = from_option_then-eq-ok manifest_not_utf8 (decode_utf8 bytes) _ h in
    let r = digests_from_lem (splitlines text) [] m tt later in
    (
      text,
      decoded,
      r.lines_are ∙ ap (map manifest_line) (sym r.result_is),
      subst MatchedLines (sym r.result_is) r.matched,
      r.distinct,
    )
