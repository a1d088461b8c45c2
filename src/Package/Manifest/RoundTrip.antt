-- ===== src/Package/Manifest/RoundTrip.antt =====
-- Reading back a manifest: the lines that scripts/generate_checksums.py writes, as
-- scripts/package_source.py parses them.
use mathlib.Core.List.{append-nil, append_assoc}
use coupon_service.Base.{
  ℕ, zero, suc, ◌≡◌, refl, ap, ◌∙◌, true, false, some, [], ◌∷◌, ◌++◌, map, any_of-append, arith,
  Text, text_eq, all_of, any_of, lacks, is_empty, is_hex, is_line_break, lines_from,
  lines_from-line, splitlines, length, keys, keys-append, insert_new, Distinct,
  not_contains-Distinct, All,
}
use coupon_service.Base.Utf8.{decode_utf8}
use coupon_service.Package.Failure.{ok}
use coupon_service.Package.Manifest.{
  Digests, take_hex, after_spaces, match_line, digests_from, parse_checksums,
}

-- `f"{digest}  {path}"`
abbrev pub manifest_line : Text × Text → Text
manifest_line (path, digest) = digest ++ b' ' ∷ b' ' ∷ path

-- `"\n".join(lines) + "\n"` of one or more lines
abbrev pub manifest_text : Digests → Text
manifest_text [] = []
manifest_text (e ∷ es) = manifest_line e ++ b'\n' ∷ manifest_text es

-- 64 hexadecimal digits, and a path that is not empty and has no line boundary in it
pub record IsWritable (e : Text × Text) : Type 0 where
  pub digest_hex : all_of is_hex e.1 ≡ true
  pub digest_length : length e.1 ≡ 64
  pub path_some : is_empty e.0 ≡ false
  pub path_line : any_of is_line_break e.0 ≡ false

take_hex-append :
    (n : ℕ) (digest rest : Text)
    → all_of is_hex digest ≡ true
    → length digest ≡ n
    → take_hex n (digest ++ rest) ≡ some (digest, rest)
unfolding take_hex
take_hex-append zero [] rest h l = refl
take_hex-append zero (c ∷ cs) rest h l = absurd (omega arith)
take_hex-append (suc n) [] rest h l = absurd (omega arith)
take_hex-append (suc n) (c ∷ cs) rest h l = ground (arith, take_hex-append n cs rest)

no_break-lacks : (s : Text) → any_of is_line_break s ≡ false → lacks b'\n' s ≡ true
no_break-lacks [] h = refl
no_break-lacks (c ∷ cs) h = ground (arith, no_break-lacks cs)

after_spaces-path :
    (path : Text)
    → is_empty path ≡ false
    → any_of is_line_break path ≡ false
    → after_spaces (b' ' ∷ b' ' ∷ path) ≡ some path
unfolding after_spaces
after_spaces-path [] e h = cc
after_spaces-path (c ∷ cs) e h = ground (arith, no_break-lacks (c ∷ cs) h)

match_line-manifest_line :
    (path digest : Text)
    → IsWritable (path, digest)
    → match_line (manifest_line (path, digest)) ≡ some (digest, path)
unfolding match_line
match_line-manifest_line path digest w = rw (
  take_hex-append 64 digest (b' ' ∷ b' ' ∷ path) w.digest_hex w.digest_length,
  after_spaces-path path w.path_some w.path_line,
)

hex-no_break : (s : Text) → all_of is_hex s ≡ true → any_of is_line_break s ≡ false
hex-no_break [] h = refl
hex-no_break (c ∷ cs) h = ground (arith, hex-no_break cs)

writable-no_break :
    (e : Text × Text) → IsWritable e → any_of is_line_break (manifest_line e) ≡ false
writable-no_break (path, digest) w =
    rw (any_of-append is_line_break digest, hex-no_break digest w.digest_hex, w.path_line)

splitlines-manifest_text :
    (es : Digests) → All IsWritable es → splitlines (manifest_text es) ≡ map manifest_line es
unfolding splitlines lines_from
splitlines-manifest_text [] a = refl
splitlines-manifest_text (e ∷ es) (w, a) =
    lines_from-line is_line_break [] (manifest_line e) (manifest_text es) refl
      (writable-no_break e w)
    ∙ ap (◌∷◌ (manifest_line e)) (splitlines-manifest_text es a)

digests_from-lines :
    (es d : Digests)
    → All IsWritable es
    → Distinct (keys d ++ keys es)
    → digests_from (map manifest_line es) d ≡ ok (d ++ es)
unfolding digests_from
digests_from-lines [] d a u = rw append-nil
digests_from-lines ((path, digest) ∷ es) d (w, a) u =
    let fresh = not_contains-Distinct path (keys d) (keys es) u in
    rw (match_line-manifest_line path digest w, fresh, insert_new path digest d fresh)
      (digests_from-lines es (d ++ (path, digest) ∷ []) a
          (rw (keys-append d, append_assoc (keys d)) u)
        ∙ ap ok (append_assoc d _ es))

-- A manifest of distinct writable paths is read back as it was written, where its bytes decode to
-- its text.
pub parse_checksums-manifest_text :
    (bytes : Text) (es : Digests)
    → decode_utf8 bytes ≡ some (manifest_text es)
    → All IsWritable es
    → Distinct (keys es)
    → parse_checksums bytes ≡ ok es
unfolding parse_checksums
parse_checksums-manifest_text bytes es d a u =
    rw (d, splitlines-manifest_text es a) (digests_from-lines es [] a u)
