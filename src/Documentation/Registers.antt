-- ===== src/Documentation/Registers.antt =====
-- `validate_unique_register_ids` of scripts/check_documentation.py.
pub mod Unique
use coupon_service.Base.{
  ℕ, suc, Bool, true, false, Option, none, some, List, [], ◌∷◌, ◌=?◌, if◌then◌else◌, Text, codes,
  text_eq, is_empty, select, ltb,
}
use coupon_service.Base.Sets.{unique}
use coupon_service.Base.Sort.{sorted}
use coupon_service.Contract.Report.{Reported, ◌>>◌, ◌>>=◌, complain, complain_if, for_each}
use coupon_service.Documentation.Pattern.{Unicode, find_all, register_entry}
use coupon_service.Documentation.Problem.{
  Problem, Register, decision, risk, duplicate_id, register_empty,
}
use coupon_service.Documentation.Tree.{Tree, read, text_of}

abbrev pub path_of : Register → Text
path_of decision = codes "docs/project/decision-log.md"
path_of risk = codes "docs/project/risk-register.md"

abbrev pub letter_of : Register → ℕ
letter_of decision = b'D'
letter_of risk = b'R'

-- `ids.count(value)`
abbrev pub count : Text → List Text → ℕ
count value [] = 0
count value (id ∷ ids) = let rest = count value ids in if value =? id then suc rest else rest

-- `sorted({value for value in ids if ids.count(value) > 1})`
unfoldable pub duplicates : List Text → List Text
unfolding sorted
duplicates ids = sorted (unique (select (λ value. ltb 1 (count value ids)) ids))

unfoldable pub check_ids : Register → List Text → Reported Problem
unfolding duplicates for_each complain_if
check_ids register ids =
    for_each (duplicates ids) (λ value. complain (duplicate_id register value))
    >> complain_if (is_empty ids) (register_empty register)

module _ (u : Unicode) (tree : Tree) where
  unfoldable pub check_register : Register → Reported Problem
  unfolding read find_all register_entry check_ids
  check_register register = do
    text ← text_of (read tree (path_of register))
    check_ids register (find_all (register_entry u (letter_of register)) text)

  unfoldable pub validate_unique_register_ids : Reported Problem
  unfolding check_register for_each
  validate_unique_register_ids = for_each (decision ∷ risk ∷ []) check_register
