-- ===== src/Documentation/Links/Inside.antt =====
-- When `validate_links` finds no error, and where an accepted link leads.
use mathlib.Core.List.{reverse, reverse-cons}
use mathlib.Core.Path.{subst}
use coupon_service.Base.{
  ◌≡◌, ◌↔◌, ◌⊎◌, inl, inr, Bool, true, false, ◌||◌, if◌then◌else◌, Option, none, some, List, [],
  ◌∷◌, ◌++◌, ◌=?◌, arith, Text, text_eq, codes, All, is_empty, split_on, starts_with, Bool-cases,
}
use coupon_service.Contract.Laws.{Checks, binding, each, unless, otherwise}
use coupon_service.Contract.Report.{Clean}
use coupon_service.Documentation.Links.{
  normalize, is_external, schemes, directory_of, check_target, check_link, check_document,
  validate_links,
}
use coupon_service.Documentation.Pattern.{find_all, link}
use coupon_service.Documentation.Problem.{link_broken}
use coupon_service.Documentation.Tree.{
  Tree, read, text_of, parent, step_to, walk, resolve, relative_to, exists, markdown_files,
}

-- A part that names a file or a directory: it is not empty, `.` or `..`.
abbrev pub IsName : Text → Type 0
IsName part =
    ((part =? []) ≡ false) × ((part =? codes ".") ≡ false) × ((part =? codes "..") ≡ false)

abbrev pub AreNames : List Text → Type 0
AreNames = All IsName

parent-AreNames : (up : List Text) → AreNames up → AreNames (parent up)
parent-AreNames [] n = tt
parent-AreNames (p ∷ up) (_, n) = n

step_to-AreNames : (up : List Text) (part : Text) → AreNames up → AreNames (step_to up part)
unfolding step_to
step_to-AreNames up part n = elim (Bool-cases (part =? [])) [
  | inl empty ↦ rw empty n
  | inr some_part ↦ elim (Bool-cases (part =? codes ".")) [
    | inl here ↦ rw (some_part, here) n
    | inr not_here ↦ elim (Bool-cases (part =? codes "..")) [
      | inl above ↦ rw (some_part, not_here, above) (parent-AreNames up n)
      | inr other ↦ rw (some_part, not_here, other) ((some_part, not_here, other), n)
    ]
  ]
]

walk-AreNames : (up parts : List Text) → AreNames up → AreNames (walk up parts)
unfolding walk
walk-AreNames up [] n = n
walk-AreNames up (part ∷ parts) n =
    walk-AreNames (step_to up part) parts (step_to-AreNames up part n)

All-append {ℓ κ} :
    {A : Type ℓ} (P : A → Type κ) (xs ys : List A) → All P xs → All P ys → All P (xs ++ ys)
All-append P [] ys a b = b
All-append P (x ∷ xs) ys (p, a) b = (p, All-append P xs ys a b)

AreNames-reverse : (xs : List Text) → AreNames xs → AreNames (reverse xs)
AreNames-reverse [] n = tt
AreNames-reverse (x ∷ xs) (p, n) =
    rw (reverse-cons x xs) (All-append IsName (reverse xs) (x ∷ []) (AreNames-reverse xs n) (p, tt))

start-AreNames :
    (b : Bool) (directory : List Text)
    → AreNames directory
    → AreNames (if b then [] else reverse directory)
start-AreNames true directory n = tt
start-AreNames false directory n = AreNames-reverse directory n

resolve-AreNames :
    (directory : List Text) (target : Text)
    → AreNames directory
    → AreNames (resolve directory target)
unfolding resolve
resolve-AreNames directory target n = AreNames-reverse _ (
    walk-AreNames _ (split_on b'/' target)
      (start-AreNames (starts_with target (codes "/")) directory n))

relative_to_iff :
    (directory path inside : List Text)
    → (relative_to directory path ≡ some inside) ↔ (path ≡ directory ++ inside)
unfolding relative_to
relative_to_iff [] path inside = ground arith
relative_to_iff (d ∷ ds) [] inside = ground arith
relative_to_iff (d ∷ ds) (p ∷ ps) inside =
    ground (arith, relative_to_iff ds ps inside, text_eq.beq_iff d p)

AreNames-suffix : (xs ys : List Text) → AreNames (xs ++ ys) → AreNames ys
AreNames-suffix [] ys n = n
AreNames-suffix (x ∷ xs) ys (p, n) = AreNames-suffix xs ys n

module _ (root : List Text) (tree : Tree) where
  -- The link is skipped: it is a place in its own document, or has one of the schemes.
  abbrev pub IsSkipped : Text → Type 0
  IsSkipped raw = (is_empty (normalize raw) || is_external schemes (normalize raw)) ≡ true

  -- The link leads to a file or directory of the tree.
  abbrev pub LeadsInside : Text → Text → Type 0
  LeadsInside path raw =
      (inside : List Text) × (resolve (directory_of root tree path) (normalize raw)
        ≡ root ++ inside)
      × (exists tree inside ≡ true)

  abbrev pub IsLink : Text → Text → Type 0
  IsLink path raw = IsSkipped raw ⊎ LeadsInside path raw

  target-Checks :
      (path raw : Text) (found : Option (List Text))
      → Checks
          (check_target root tree path raw found)
          ((inside : List Text) × (found ≡ some inside) × (exists tree inside ≡ true))
  target-Checks path raw none = (λ h. cc, λ (inside, is, _). cc)
  target-Checks path raw (some inside) =
      binding (some inside) (λ i. check_target root tree path raw (some i)) _
        (λ i. unless (exists tree i) (link_broken path raw))

  leads-Checks :
      (path raw : Text)
      → Checks
          (check_target root tree path raw
            (relative_to root (resolve (directory_of root tree path) (normalize raw))))
          (LeadsInside path raw)
  leads-Checks path raw = (
    λ h.
        let (inside, is, there) = (target-Checks path raw _).0 h in
        (inside, (relative_to_iff root _ inside).0 is, there),
    λ (inside, is, there).
        (target-Checks path raw _).1 (inside, (relative_to_iff root _ inside).1 is, there),
  )

  check_link-Checks : (path raw : Text) → Checks (check_link root tree path raw) (IsLink path raw)
  unfolding check_link
  check_link-Checks path raw =
      otherwise (is_empty (normalize raw) || is_external schemes (normalize raw)) _
        (leads-Checks path raw)

  -- the document is a UTF-8 text, and all its links are in order
  abbrev pub HasGoodLinks : Text → Type 0
  HasGoodLinks path =
      (text : Text) × (text_of (read tree path) ≡ some text)
      × All (IsLink path) (find_all link text)

  -- No error is found exactly when every Markdown file is a UTF-8 text each of whose links is skipped
  -- or resolves to the root followed by the parts of a file or directory that is there.
  pub validate_links-Checks :
      Checks (validate_links root tree) (All HasGoodLinks (markdown_files tree))
  unfolding validate_links check_document
  validate_links-Checks =
      each HasGoodLinks (markdown_files tree) (check_document root tree) (λ path.
        binding (text_of (read tree path)) _ (λ text. All (IsLink path) (find_all link text))
          (λ text.
            each (IsLink path) (find_all link text) (check_link root tree path)
              (check_link-Checks path)))

  -- A link that is checked without an error and not skipped does not lead out of the repository: the
  -- parts that it resolves to are those of the root, and then names that are neither empty nor `.` or
  -- `..`.
  pub check_link-stays_inside :
      (path raw : Text)
      → AreNames (directory_of root tree path)
      → (is_empty (normalize raw) || is_external schemes (normalize raw)) ≡ false
      → Clean (check_link root tree path raw)
      → (inside : List Text) × (resolve (directory_of root tree path) (normalize raw)
          ≡ root ++ inside)
        × AreNames inside
        × (exists tree inside ≡ true)
  check_link-stays_inside path raw names checked clean =
      elim ((check_link-Checks path raw).0 clean) [
        | inl skipped ↦ cc
        | inr (inside, is, there) ↦
            let normal = resolve-AreNames (directory_of root tree path) (normalize raw) names in
            (inside, is, AreNames-suffix root inside (subst AreNames is normal), there)
      ]
