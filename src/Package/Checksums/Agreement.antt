-- ===== src/Package/Checksums/Agreement.antt =====
-- scripts/generate_checksums.py lists what scripts/package_source.py lets through.
use coupon_service.Base.{
  ◌≡◌, refl, Bool, true, false, ◌||◌, List, [], ◌∷◌, arith, ◌=?◌, Text, codes, text_eq, text_beq,
  contains, any_of, all_of,
}
use coupon_service.Base.Sets.{all_of-contains}
use coupon_service.Package.Failure.{Result, ok, err}
use coupon_service.Package.Paths.{
  parts, suffix, lower, forbidden, forbidden_name, forbidden_parts, forbidden_suffixes,
  forbidden_of_parts, has_forbidden_part, last_part,
}
use coupon_service.Package.Checksums.{
  excluded_parts, excluded_suffixes, name_in, name_included, path_included,
}

excluded_parts-forbidden : all_of (λ x. contains x forbidden_parts) excluded_parts ≡ true
unfolding text_beq
excluded_parts-forbidden = refl

excluded_suffixes-forbidden :
    all_of (λ x. contains (lower x) forbidden_suffixes) excluded_suffixes ≡ true
unfolding lower text_beq
excluded_suffixes-forbidden = refl

-- A test that fails on `b` fails on `a` where `a` implies `b`.
contrapositive : (a b : Bool) → (a ≡ true → b ≡ true) → b ≡ false → a ≡ false
contrapositive true b f h = ground (arith, f refl)
contrapositive false b f h = refl

any_part :
    (ps : List Text)
    → has_forbidden_part ps ≡ false
    → any_of (λ part. contains part excluded_parts) ps ≡ false
any_part [] h = refl
any_part (p ∷ ps) h =
    let here = contrapositive (contains p excluded_parts) (contains p forbidden_parts) (
      all_of-contains (λ x. contains x forbidden_parts) p excluded_parts
        excluded_parts-forbidden) in
    ground (arith, here, any_part ps)

suffix_allowed :
    (s : Text)
    → contains (lower s) forbidden_suffixes ≡ false
    → contains s excluded_suffixes ≡ false
suffix_allowed s =
    contrapositive (contains s excluded_suffixes) (contains (lower s) forbidden_suffixes) (
      all_of-contains (λ x. contains (lower x) forbidden_suffixes) s excluded_suffixes
        excluded_suffixes-forbidden)

name_allowed :
    (name : Text)
    → forbidden_name name ≡ false
    → (name =? codes "CHECKSUMS.sha256") ≡ false
    → name_included name ≡ true
unfolding forbidden_name name_included
name_allowed name h k = ground (arith, suffix_allowed (suffix name))

last_part-name_in : (ps : List Text) (name : Text) → last_part ps ≡ ok name → name_in ps ≡ name
unfolding last_part
last_part-name_in [] name h = cc
last_part-name_in (p ∷ []) name h = cc
last_part-name_in (p ∷ q ∷ ps) name h = last_part-name_in (q ∷ ps) name h

parts_allowed :
    (ps : List Text) (last : Result Text)
    → last_part ps ≡ last
    → forbidden_of_parts ps last ≡ ok false
    → (name_in ps =? codes "CHECKSUMS.sha256") ≡ false
    → (any_of (λ part. contains part excluded_parts) ps ≡ false)
      × (name_included (name_in ps) ≡ true)
parts_allowed ps (err e) is h k = cc
parts_allowed ps (ok name) is h k =
    let same = last_part-name_in ps name is in
    let none_of : (has_forbidden_part ps || forbidden_name name) ≡ false = cc in
    let both : (has_forbidden_part ps ≡ false) × (forbidden_name name ≡ false) =
      ground (arith, none_of) in
    (any_part ps both.0, rw same (name_allowed name both.1 (rw same at k)))

-- A path that package_source.py does not forbid, and that does not end in the name CHECKSUMS.sha256,
-- is one that generate_checksums.py includes.
pub path_included_of_allowed :
    (path : Text)
    → forbidden path ≡ ok false
    → (name_in (parts path) =? codes "CHECKSUMS.sha256") ≡ false
    → path_included path ≡ true
unfolding forbidden path_included
path_included_of_allowed path h k =
    let (no_part, name) = parts_allowed (parts path) (last_part (parts path)) refl h k in
    ground (arith, no_part, name)
