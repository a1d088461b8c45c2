-- ===== src/Documentation/Registers/Unique.antt =====
-- When `validate_unique_register_ids` finds no error.
use coupon_service.Base.{
  ◌≡◌, refl, ◌↔◌, true, false, some, List, [], ◌∷◌, arith, Text, text_eq, contains, select,
  is_empty, All, All-imp, =?_refl, Distinct, ltb,
}
use coupon_service.Base.Empty.{sorted-empty, unique-empty, select-none}
use coupon_service.Base.Sets.{unique}
use coupon_service.Contract.Laws.{Checks, seq, binding, each, complaints}
use coupon_service.Contract.Report.{complain, complain_if, Clean-complain_if, for_each}
use coupon_service.Documentation.Pattern.{Unicode, find_all, register_entry}
use coupon_service.Documentation.Problem.{Register, decision, risk, duplicate_id, register_empty}
use coupon_service.Documentation.Registers.{
  count, duplicates, path_of, letter_of, check_ids, check_register, validate_unique_register_ids,
}
use coupon_service.Documentation.Tree.{Tree, read, text_of}

-- what is not in a list has no count, what is in a list without repetitions has the count 1
count-absent : (a : Text) (ids : List Text) → contains a ids ≡ false → count a ids ≡ 0
count-absent a [] h = refl
count-absent a (x ∷ xs) h = ground (arith, count-absent a xs)

count-present : (a : Text) (ids : List Text) → contains a ids ≡ true → ltb 0 (count a ids) ≡ true
count-present a [] h = cc
count-present a (x ∷ xs) h = ground (arith, count-present a xs)

count-Distinct : (a : Text) (ids : List Text) → Distinct ids → ltb 1 (count a ids) ≡ false
count-Distinct a [] d = refl
count-Distinct a (x ∷ xs) (new, d) =
    ground (arith, count-Distinct a xs d, count-absent a xs, text_eq.beq_iff a x)

counts_of_Distinct : (xs ids : List Text) → Distinct ids → All (λ v. ltb 1 (count v ids) ≡ false) xs
counts_of_Distinct [] ids d = tt
counts_of_Distinct (x ∷ xs) ids d = (count-Distinct x ids d, counts_of_Distinct xs ids d)

Distinct-of_counts : (ids : List Text) → All (λ v. ltb 1 (count v ids) ≡ false) ids → Distinct ids
Distinct-of_counts [] a = tt
Distinct-of_counts (x ∷ xs) (once, a) = (
  ground (arith, count-present x xs, =?_refl x),
  Distinct-of_counts xs (All-imp (λ v h. ground arith) xs a),
)

-- No id is listed as a duplicate exactly when none comes twice.
pub duplicates-empty : (ids : List Text) → (duplicates ids ≡ []) ↔ Distinct ids
unfolding duplicates
duplicates-empty ids =
    let repeated = select (λ value. ltb 1 (count value ids)) ids in
    let none_left = select-none (λ value. ltb 1 (count value ids)) ids in
    (
      λ h.
          Distinct-of_counts ids
            (none_left.0 ((unique-empty repeated).0 ((sorted-empty (unique repeated)).0 h))),
      λ d.
          (sorted-empty (unique repeated)).1
            ((unique-empty repeated).1 (none_left.1 (counts_of_Distinct ids ids d))),
    )

-- There are ids, and none comes twice.
abbrev pub AreUnique : List Text → Type 0
AreUnique ids = Distinct ids × (is_empty ids ≡ false)

check_ids-Checks :
    (register : Register) (ids : List Text) → Checks (check_ids register ids) (AreUnique ids)
unfolding check_ids
check_ids-Checks register ids =
    seq _ (complain_if (is_empty ids) (register_empty register)) duplicates-Checks
      (Clean-complain_if (is_empty ids) (register_empty register))
  where
    duplicates-Checks :
        Checks
          (for_each (duplicates ids) (λ value. complain (duplicate_id register value)))
          (Distinct ids)
    duplicates-Checks =
        let found = complaints (duplicate_id register) (duplicates ids) in
        (λ h. (duplicates-empty ids).0 (found.0 h), λ d. found.1 ((duplicates-empty ids).1 d))

module _ (u : Unicode) (tree : Tree) where
  -- the register is a UTF-8 text that lists ids
  abbrev pub IsRegister : Register → Type 0
  IsRegister register =
      (text : Text) × (text_of (read tree (path_of register)) ≡ some text)
      × AreUnique (find_all (register_entry u (letter_of register)) text)

  -- No error is found exactly when the decision log and the risk register are UTF-8 texts that list
  -- ids of their forms, none of them twice.
  pub validate_unique_register_ids-Checks :
      Checks (validate_unique_register_ids u tree) (All IsRegister (decision ∷ risk ∷ []))
  unfolding validate_unique_register_ids check_register
  validate_unique_register_ids-Checks =
      each IsRegister (decision ∷ risk ∷ []) (check_register u tree) (λ register.
        binding (text_of (read tree (path_of register))) _
          (λ text. AreUnique (find_all (register_entry u (letter_of register)) text))
          (λ text.
            check_ids-Checks register (find_all (register_entry u (letter_of register)) text)))
