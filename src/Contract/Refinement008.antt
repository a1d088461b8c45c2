-- ===== src/Contract/Refinement008.antt =====
-- scripts/check_emp008_refinement.py: the refinement of the coverage task and its state.
pub mod Tokens
pub mod Checked
use coupon_service.Base.{
  ℕ, Bool, true, false, not, ◌&&◌, ◌||◌, Option, none, some, List, [], ◌∷◌, ◌==◌, ◌=?◌, String,
  ◌<>◌, if◌then◌else◌, Text, codes, text_eq, any_of, is_space, lstrip,
}
use coupon_service.Contract.Emp004.{check_file}
use coupon_service.Contract.Emp009.Method.{after}
use coupon_service.Contract.Report.{
  Report, Exit, ◌>>◌, ◌>>=◌, nothing, complain, complain_if, for_each, error_lines, conclude,
}
use coupon_service.Contract.Repo.{Repo, is_file, read, missing_tokens, has_prompt_file}
use coupon_service.Contract.Refinement008.Tokens.{files, accepted_tokens, criteria}

-- `\S+` at the start, as far as it goes
unfoldable pub word : Text → Text
word [] = []
word (c ∷ cs) = let rest = word cs in if is_space c then [] else c ∷ rest

abbrev pub some_word : Text → Option Text
some_word [] = none
some_word (c ∷ cs) = some (c ∷ cs)

abbrev pub value_after : Option Text → Option Text
value_after none = none
value_after (some rest) = some_word (word (lstrip is_space rest))

abbrev pub or_later : Option Text → Option Text → Option Text
or_later none later = later
or_later (some v) later = some v

-- The search from a place that is the start of a line or not.
unfoldable pub field_from : Bool → Text → Text → Option Text
unfolding word lstrip after
field_from start label [] = none
field_from start label (c ∷ cs) =
    let later = field_from (c == b'\n') label cs in
    if start then or_later (value_after (after label (c ∷ cs))) later else later

-- `re.search(r"^LABEL:\s*(\S+)", text, re.MULTILINE)` and its group. What follows the spaces is no
-- space, so taking them all loses no match.
unfoldable pub field : String → String → Option Text
unfolding field_from
field label content = field_from true (codes (label <> ":")) (codes content)

abbrev pub is_value : Option Text → String → Bool
is_value none value = false
is_value (some v) value = v =? codes value

abbrev pub is_one_of : Option Text → List String → Bool
is_one_of v = any_of (is_value v)

abbrev pub wrong_state : String
wrong_state = "EMP-008 refinement must be DRAFT or ACCEPTED"

abbrev pub draft_allowed : String
draft_allowed = "DRAFT EMP-008 must retain Implementation-Allowed: NO"

abbrev pub accepted_forbidden : String
accepted_forbidden = "ACCEPTED EMP-008 must require Implementation-Allowed: YES"

-- the chain on the state, by its tests: draft, accepted, and what is allowed
unfoldable pub check_state : Bool → Bool → Bool → Bool → Report
check_state draft accepted denied granted =
    if not (draft || accepted)
    then complain wrong_state
    else if draft && not denied
    then complain draft_allowed
    else if accepted && not granted
    then complain accepted_forbidden
    else nothing

-- a status is optional
abbrev pub status_unknown : Option Text → Bool
status_unknown none = false
status_unknown (some s) =
    not (is_one_of (some s) ("REFINEMENT" ∷ "READY" ∷ "IN_PROGRESS" ∷ "DONE_AND_VERIFIED" ∷ []))

abbrev pub coverage_known : Option Text → Bool
coverage_known v = is_one_of v ("NOT_MEASURED" ∷ "MEASURED" ∷ "MEASURED_AND_VERIFIED" ∷ [])

abbrev pub decision_missing : String → String
decision_missing token = "ACCEPTED EMP-008 missing owner decision: " <> token

abbrev pub criterion_missing : String → String
criterion_missing criterion = "ACCEPTED EMP-008 missing " <> criterion

unfoldable pub check_accepted : String → Report
unfolding missing_tokens
check_accepted content = do
  missing_tokens decision_missing accepted_tokens content
  missing_tokens criterion_missing criteria content

abbrev pub state_of : String → Option Text
state_of content = field "Stan-Refinementu" content

abbrev pub allowed_of : String → Option Text
allowed_of content = field "Implementation-Allowed" content

abbrev pub is_accepted : String → Bool
is_accepted content = is_value (state_of content) "ACCEPTED"

unfoldable pub check_refinement : String → Report
unfolding field check_state complain_if check_accepted
check_refinement content = do
  check_state (is_value (state_of content) "DRAFT") (is_accepted content)
      (is_value (allowed_of content) "NO") (is_value (allowed_of content) "YES")
  complain_if (status_unknown (field "Status" content)) "EMP-008 uses an unsupported status"
  complain_if (not (coverage_known (field "Coverage-Evidence" content)))
      "EMP-008 must declare Coverage-Evidence as NOT_MEASURED, MEASURED or MEASURED_AND_VERIFIED"
  if is_accepted content then check_accepted content else nothing

abbrev pub refinement_path : String
refinement_path = "docs/project/refinements/EMP-008.md"

-- the text of the refinement, empty where there is no such file
unfoldable pub refinement : Repo → Option String
unfolding is_file read
refinement repo = if is_file repo refinement_path then read repo refinement_path else some ""

unfoldable pub errors : Repo → Report
unfolding for_each check_file refinement check_refinement complain_if has_prompt_file
errors repo = do
  for_each files (check_file repo)
  content ← refinement repo
  check_refinement content
  complain_if (has_prompt_file repo) "forbidden CODEX_PROMPT.md"

abbrev pub success : String
success = "SUCCESS: EMP-008 coverage and quality refinement contract valid"

unfoldable pub script : Repo → Exit
unfolding errors conclude
script repo = conclude error_lines success (errors repo)
