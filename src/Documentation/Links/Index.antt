-- ===== src/Documentation/Links/Index.antt =====
-- When `validate_documentation_index` finds no error.
use coupon_service.Base.{
  ◌≡◌, refl, sym, ◌∙◌, ◌↔◌, Bool, true, ◌&&◌, some, List, [], ◌∷◌, arith, Text, text_eq, contains,
  keys,
}
use coupon_service.Base.Empty.{sorted-empty}
use coupon_service.Base.Sets.{minus, unique, subset, contains-unique, subset_both_iff}
use coupon_service.Base.Sort.{sorted}
use coupon_service.Contract.Laws.{Checks, seq, binding, complaints}
use coupon_service.Documentation.Links.{
  index_path, listed_in, below_docs, check_index, validate_documentation_index,
}
use coupon_service.Documentation.Pattern.{find_all, link}
use coupon_service.Documentation.Problem.{not_indexed, stale_index}
use coupon_service.Documentation.Tree.{Tree, read, text_of}

minus-empty : (xs ys : List Text) → (minus xs ys ≡ []) ↔ (subset xs ys ≡ true)
minus-empty [] ys = ground arith
minus-empty (x ∷ xs) ys = ground (arith, minus-empty xs ys)

and_true : (a b : Bool) → (a && b) ≡ true → (a ≡ true) × (b ≡ true)
and_true a b h = ground arith

-- The two differences are empty exactly when the lists have the same elements.
missing_and_stale :
    (actual listed : List Text)
    → ((sorted (minus actual listed) ≡ []) × (sorted (minus listed actual) ≡ []))
      ↔ ((a : Text) → contains a actual ≡ contains a listed)
missing_and_stale actual listed = (
  λ (m, s).
      let missing = (minus-empty actual listed).0 ((sorted-empty _).0 m) in
      let stale = (minus-empty listed actual).0 ((sorted-empty _).0 s) in
      (subset_both_iff actual listed).0 (rw (missing, stale) refl),
  λ h.
      let (there, back) = and_true _ _ ((subset_both_iff actual listed).1 h) in
      (
        (sorted-empty _).1 ((minus-empty actual listed).1 there),
        (sorted-empty _).1 ((minus-empty listed actual).1 back),
      ),
)

module _ (root : List Text) (tree : Tree) where
  -- The index links the Markdown files below `docs` and nothing else there.
  abbrev pub IsIndex : Text → Type 0
  IsIndex text =
      (item : Text)
      → contains item (below_docs root tree (keys tree))
        ≡ contains item (listed_in root tree (find_all link text))

  unique-same :
      (xs ys : List Text)
      → ((a : Text) → contains a (unique xs) ≡ contains a (unique ys))
        ↔ ((a : Text) → contains a xs ≡ contains a ys)
  unique-same xs ys = (
    λ h a. sym (contains-unique a xs) ∙ h a ∙ contains-unique a ys,
    λ h a. contains-unique a xs ∙ h a ∙ sym (contains-unique a ys),
  )

  check_index-Checks : (text : Text) → Checks (check_index root tree text) (IsIndex text)
  unfolding check_index
  check_index-Checks text =
      let actual = below_docs root tree (keys tree) in
      let listed = listed_in root tree (find_all link text) in
      let both =
        seq _ _ (complaints not_indexed (sorted (minus (unique actual) (unique listed))))
          (complaints stale_index (sorted (minus (unique listed) (unique actual)))) in
      let same = missing_and_stale (unique actual) (unique listed) in
      let all = unique-same actual listed in
      (λ h. all.0 (same.0 (both.0 h)), λ h. both.1 (same.1 (all.1 h)))

  -- No error is found exactly when the index is a UTF-8 text whose links lead to the same paths below
  -- `docs` as there are Markdown files, the index itself left out.
  pub validate_documentation_index-Checks :
      Checks
        (validate_documentation_index root tree)
        ((text : Text) × (text_of (read tree index_path) ≡ some text) × IsIndex text)
  unfolding validate_documentation_index
  validate_documentation_index-Checks =
      binding (text_of (read tree index_path)) _ IsIndex check_index-Checks
