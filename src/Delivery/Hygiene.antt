-- ===== src/Delivery/Hygiene.antt =====
-- What the hygiene check of the delivery finds in an archive of scripts/package_source.py.
use coupon_service.Base.{
  ℕ, zero, suc, text_beq, ◌≡◌, refl, sym, ap, ◌∙◌, Bool, true, false, ◌&&◌, ◌||◌, List, [], ◌∷◌,
  ◌++◌, ◌=?◌, arith, Text, codes, text_eq, All, All-imp, any_of, all_of, contains, contains-append,
  split_on, split_on-append, take, is_hex, keys, lacks, Bool-cases, inl, inr,
}
use mathlib.Core.Path.{subst}
use mathlib.Core.List.{append_assoc}
use mathlib.Core.Bool.{true≢false}
use coupon_service.Base.Sets.{contains-select, All-contains, All-of_contains}
use coupon_service.Base.Sort.{sorted, contains-sorted}
use coupon_service.Base.Characters.{hex-lacks}
use coupon_service.Delivery.{unwanted_parts, has_unwanted_part, has_unwanted_end, is_unwanted}
use coupon_service.Package.Archive.{Member, is_commit, package_name, export}
use coupon_service.Package.Archive.Exported.{AreMembers, export-IsExport}
use coupon_service.Package.Failure.{Result, ok, err, ok-injective}
use coupon_service.Package.Paths.{
  forbidden_parts, has_forbidden_part, parts, components, is_component, root_parts, forbidden,
  forbidden_of_parts, last_part, slash,
}
use coupon_service.Package.Source.{Git, Blobs}
use coupon_service.Package.Index.{Tracked}

first_false : (a b : Bool) → (a || b) ≡ false → a ≡ false
first_false a b h = ground arith

rest_false : (a b : Bool) → (a || b) ≡ false → b ≡ false
rest_false a b h = ground arith

-- A part that is forbidden is in no path that is let through.
none_forbidden :
    (d : Text) (ps : List Text)
    → has_forbidden_part ps ≡ false
    → contains d forbidden_parts ≡ true
    → contains d ps ≡ false
none_forbidden d [] h listed = refl
none_forbidden d (p ∷ ps) h listed = elim (Bool-cases (d =? p)) [
  | inl same ↦
      let is = (text_eq.beq_iff d p).0 same in
      let bad : contains p forbidden_parts ≡ true =
        ap (λ (t : Text). contains t forbidden_parts) (sym is) ∙ listed in
      absurd (true≢false (sym bad ∙ first_false _ _ h))
  | inr other ↦ rw other (none_forbidden d ps (rest_false _ _ h) listed)
]

allowed_parts :
    (ps : List Text) (name : Result Text)
    → forbidden_of_parts ps name ≡ ok false
    → has_forbidden_part ps ≡ false
allowed_parts ps (err e) h = cc
allowed_parts ps (ok name) h = first_false _ _ (ok-injective h)

take-is_hex : (n : ℕ) (s : Text) → all_of is_hex s ≡ true → all_of is_hex (take n s) ≡ true
take-is_hex zero s h = refl
take-is_hex (suc n) [] h = refl
take-is_hex (suc n) (c ∷ cs) h = ground (arith, take-is_hex n cs)

lacks-append : (c : ℕ) (s t : Text) → lacks c s ≡ true → lacks c t ≡ true → lacks c (s ++ t) ≡ true
lacks-append c [] t h k = k
lacks-append c (x ∷ s) t h k = ground (arith, lacks-append c s t)

-- A directory of the list is forbidden in the export, and is not the directory of the archive.
abbrev IsKept : Text → Type 0
IsKept d =
    ((commit : Text) → (d =? package_name commit) ≡ false)
    × ((contains d forbidden_parts ≡ true) × (is_component d ≡ true))

kept : All IsKept unwanted_parts
unfolding text_beq
kept = (
  ((λ c. refl), (refl, refl)),
  (
    ((λ c. refl), (refl, refl)),
    (
      ((λ c. refl), (refl, refl)),
      (
        ((λ c. refl), (refl, refl)),
        (((λ c. refl), (refl, refl)), (((λ c. refl), (refl, refl)), tt)),
      ),
    ),
  ),
)

not_in_path :
    (d path : Text)
    → IsKept d
    → has_forbidden_part (parts path) ≡ false
    → contains d (split_on slash path) ≡ false
unfolding parts
not_in_path d path (_, (listed, component)) h = ground (
  arith,
  none_forbidden d (parts path) h listed,
  contains-append d (root_parts path) (components path),
  contains-select is_component d (split_on slash path),
)

package_name-lacks :
    (commit : Text) → is_commit commit ≡ true → lacks slash (package_name commit) ≡ true
unfolding is_commit
package_name-lacks commit h =
    lacks-append slash (codes "coupon-service-source-") (take 12 commit) refl
      (hex-lacks slash refl (take 12 commit) (take-is_hex 12 commit (both_true _ _ h)))
  where
    both_true : (a b : Bool) → (a && b) ≡ true → a ≡ true
    both_true a b h = ground arith

none_in :
    (xs ds : List Text)
    → All (λ d. contains d xs ≡ false) ds
    → any_of (λ part. contains part xs) ds ≡ false
none_in xs [] a = refl
none_in xs (d ∷ ds) (h, a) = rw (h, none_in xs ds a) refl

no_unwanted_part :
    (commit path : Text)
    → is_commit commit ≡ true
    → forbidden path ≡ ok false
    → has_unwanted_part (package_name commit ++ codes "/" ++ path) ≡ false
unfolding forbidden
no_unwanted_part commit path full allowed =
    ap (λ (xs : List Text). any_of (λ part. contains part xs) unwanted_parts)
      (ap (split_on slash) (append_assoc (package_name commit) (codes "/") path)
        ∙ split_on-append slash (package_name commit) path (package_name-lacks commit full))
    ∙ (none_in (package_name commit ∷ split_on slash path) unwanted_parts
        (All-imp {P = IsKept} absent unwanted_parts kept))
  where
    absent : (d : Text) → IsKept d → contains d (package_name commit ∷ split_on slash path) ≡ false
    absent d k =
        rw (k.0 commit)
          (not_in_path d path k (allowed_parts (parts path) (last_part (parts path)) allowed))

-- The hygiene check refuses the entries by their ends alone.
abbrev pub IsByEnd : Member → Type 0
IsByEnd m = is_unwanted m.name ≡ has_unwanted_end m.name

members-IsByEnd :
    (commit : Text) (tracked : Tracked) (blobs : Blobs) (paths : List Text) (zipped : List Member)
    → is_commit commit ≡ true
    → All (λ path. forbidden path ≡ ok false) paths
    → AreMembers (package_name commit) tracked blobs paths zipped
    → All IsByEnd zipped
unfolding is_unwanted
members-IsByEnd commit tracked blobs [] [] full a ms = tt
members-IsByEnd commit tracked blobs [] (m ∷ zipped) full a ms = elim ms [ ]
members-IsByEnd commit tracked blobs (p ∷ ps) [] full a ms = elim ms [ ]
members-IsByEnd commit tracked blobs (p ∷ ps) (m ∷ zipped) full (allowed, a) (is, ms) =
    (by_end, members-IsByEnd commit tracked blobs ps zipped full a ms)
  where
    by_end : is_unwanted m.name ≡ has_unwanted_end m.name
    by_end = rw is.named (rw (no_unwanted_part commit p full allowed) refl)

sorted-All {ℓ} : (P : Text → Type ℓ) (xs : List Text) → All P xs → All P (sorted xs)
sorted-All P xs a =
    All-of_contains P (sorted xs) (λ x m. All-contains P x xs a (sym (contains-sorted x xs) ∙ m))

-- In an archive that was exported, the hygiene check of the delivery refuses an entry exactly when its
-- name ends in `CODEX_PROMPT.md` or `.zip`: no entry has a part that the check does not want.
pub export-IsByEnd :
    (sha256 : Text → Text) (git : Git) (archive : Text) (zipped : List Member)
    → export sha256 git ≡ ok (archive, zipped)
    → All IsByEnd zipped
export-IsByEnd sha256 git archive zipped h =
    let e = export-IsExport sha256 git archive zipped h in
    members-IsByEnd e.commit e.tracked e.blobs e.paths zipped e.full_id
      (subst (λ ps. All (λ path. forbidden path ≡ ok false) ps) (sym e.verified.ordered)
        (sorted-All _ (keys e.tracked) e.verified.allowed))
      e.complete
