-- ===== src/Contract/Refinement011.antt =====
-- scripts/check_emp011_refinement.py: the refinement of the final review, over the states of its life.
pub mod Phase
pub mod Content
pub mod Documents
pub mod Main
use coupon_service.Base.{
  ℕ, zero, suc, ◌+◌, ◌-◌, Bool, true, false, not, ◌&&◌, ◌||◌, Option, none, some, List, [], ◌∷◌,
  ◌++◌, ◌==◌, ◌=?◌, String, Text, codes, text_eq, text_beq, contains, any_of, if◌then◌else◌,
  is_space, is_empty, rstrip, select, length, lookup, split_on, Dict, take, ltb,
}
use coupon_service.Contract.Emp009.Method.{after}
use coupon_service.Contract.Report.{Reported, ◌>>◌, ◌>>=◌, nothing, complain, complain_if, for_each}
use coupon_service.Contract.Repo.{Repo, is_file, read, in_text, has_prompt_file, ends_with}
use coupon_service.Documentation.Pattern.{
  Unicode, Pattern, at_line_start, find_all, last_blank, span, value_of,
}

-- `re.search(r"^KEY:\s*(.+?)\s*$", text, re.MULTILINE)` for a literal key: the first match
abbrev pub value_at : Option Text → Option (Text × ℕ)
value_at none = none
value_at (some rest) = value_of (span is_space rest)

abbrev pub field_line : Text → Pattern Text
field_line key before text =
    if at_line_start before then value_at (after (key ++ codes ":") text) else none

abbrev pub first_match : List Text → Option Text
first_match [] = none
first_match (value ∷ values) = some value

unfoldable pub metadata : Text → String → Option Text
unfolding find_all after span last_blank rstrip
metadata text key = first_match (find_all (field_line (codes key)) text)

-- `value == expected` and `value in {...}`, where the value may be None
abbrev pub is_value : Option Text → String → Bool
is_value none expected = false
is_value (some value) expected = value =? codes expected

abbrev pub is_among : Option Text → List String → Bool
is_among value allowed = any_of (is_value value) allowed

abbrev pub has_field : Text → String × String → Bool
has_field text (key, expected) = is_value (metadata text key) expected

-- the fields of a draft, and those of every accepted refinement
abbrev pub draft_fields : List (String × String)
draft_fields =
    ("Status", "REFINEMENT")
    ∷ ("Implementation", "NOT_STARTED")
    ∷ ("Implementation-Allowed", "NO")
    ∷ ("Scope-Frozen", "NO")
    ∷ ("Zaakceptował", "N/A")
    ∷ ("Data-Akceptacji", "N/A")
    ∷ ("Review-Result", "DRAFT")
    ∷ []

abbrev pub fixed_fields : List (String × String)
fixed_fields =
    ("Implementation-Allowed", "YES")
    ∷ ("Scope-Frozen", "YES")
    ∷ ("Zaakceptował", "Radosław Piątek")
    ∷ ("Data-Akceptacji", "2026-08-07")
    ∷ []

abbrev pub require_field : String → Text → String × String → Reported Text
require_field state text (key, expected) =
    complain_if (not (has_field text (key, expected)))
      (codes state ++ codes " EMP-011 requires " ++ codes key ++ codes "=" ++ codes expected)

-- the status, and what it asks of the implementation and of the review
abbrev pub require_stage : Text → String → String → String → Reported Text
require_stage text status implementation review = do
  complain_if (not (is_value (metadata text "Implementation") implementation)) (
      codes "ACCEPTED EMP-011 status "
      ++ codes status
      ++ codes " requires Implementation="
      ++ codes implementation)
  complain_if (not (is_value (metadata text "Review-Result") review)) (
      codes "ACCEPTED EMP-011 status "
      ++ codes status
      ++ codes " requires Review-Result="
      ++ codes review)

unfoldable pub check_lifecycle : Text → Reported Text
unfolding metadata text_beq complain_if
check_lifecycle text =
    if is_value (metadata text "Status") "READY"
    then require_stage text "READY" "NOT_STARTED" "ACCEPTED"
    else if is_value (metadata text "Status") "IN_PROGRESS"
    then require_stage text "IN_PROGRESS" "IN_PROGRESS" "IN_PROGRESS"
    else if is_value (metadata text "Status") "DONE_AND_VERIFIED"
    then require_stage text "DONE_AND_VERIFIED" "DONE_AND_VERIFIED" "PASS"
    else complain (codes "ACCEPTED EMP-011 has invalid lifecycle status")

unfoldable pub check_state : Text → Reported Text
unfolding metadata text_beq complain_if for_each check_lifecycle
check_state text =
    if is_value (metadata text "Stan-Refinementu") "DRAFT"
    then for_each draft_fields (require_field "DRAFT" text)
    else if is_value (metadata text "Stan-Refinementu") "ACCEPTED"
    then (for_each fixed_fields (require_field "ACCEPTED" text) >> check_lifecycle text)
    else nothing

abbrev pub measured : List String
measured = "NOT_MEASURED" ∷ "MEASURED" ∷ "MEASURED_AND_VERIFIED" ∷ []

unfoldable pub validate_metadata : Text → Reported Text
unfolding metadata text_beq complain_if check_state
validate_metadata text = do
  complain_if (not (is_among (metadata text "Stan-Refinementu") ("DRAFT" ∷ "ACCEPTED" ∷ [])))
      (codes "EMP-011 refinement must be DRAFT or ACCEPTED")
  complain_if
      (not (
        is_among (metadata text "Status")
          ("REFINEMENT" ∷ "READY" ∷ "IN_PROGRESS" ∷ "DONE_AND_VERIFIED" ∷ [])))
      (codes "EMP-011 uses unsupported Status")
  complain_if
      (not (
        is_among (metadata text "Implementation")
          ("NOT_STARTED" ∷ "IN_PROGRESS" ∷ "DONE_AND_VERIFIED" ∷ [])))
      (codes "EMP-011 uses unsupported Implementation state")
  complain_if (not (is_among (metadata text "Final-Review-Evidence") measured))
      (codes "EMP-011 Final-Review-Evidence has unsupported value")
  complain_if (not (is_among (metadata text "Public-Repo-Evidence") measured))
      (codes "EMP-011 Public-Repo-Evidence has unsupported value")
  check_state text
