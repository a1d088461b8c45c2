-- ===== src/Contract/Refinement011/Documents.antt =====
-- The checks of scripts/check_emp011_refinement.py on the documents beside the refinement.
use coupon_service.Base.{
  ℕ, not, Option, none, some, List, [], ◌∷◌, ◌++◌, String, string_eq, Text, codes, text_beq, any_of,
  has_key, occurs, if◌then◌else◌,
}
use coupon_service.Contract.Refinement011.{metadata, is_value}
use coupon_service.Contract.Refinement011.Content.{
  require_token, require_tokens, numbers_from, two_digits,
}
use coupon_service.Contract.Report.{Reported, ◌>>◌, ◌>>=◌, nothing, complain_if, for_each}
use coupon_service.Contract.Repo.{Repo, is_file, read, has_prompt_file}

-- `%s` of a value that may be None
abbrev pub shown : Option Text → Text
shown none = codes "None"
shown (some value) = value

abbrev pub decision_id : ℕ → Text
decision_id number = codes "D-0" ++ two_digits number

abbrev pub expected_state : Text → Text
expected_state text =
    if is_value (metadata text "Stan-Refinementu") "DRAFT"
    then codes "PROPOSED"
    else codes "ACCEPTED"

abbrev pub check_decision : Text → Text → ℕ → Reported Text
check_decision text decisions number = do
  require_token "decision-log" decisions (codes "| " ++ decision_id number ++ codes " |")
  complain_if
      (not (
        occurs
          (codes "| "
            ++ decision_id number
            ++ codes " | 2026-08-07 | "
            ++ expected_state text
            ++ codes " |")
          decisions))
      (decision_id number
        ++ codes " must be "
        ++ expected_state text
        ++ codes " for EMP-011 lifecycle state")

abbrev pub check_status : Text → Text → Text → Reported Text
check_status text backlog status_doc =
    if is_value (metadata text "Stan-Refinementu") "DRAFT"
    then (require_token "backlog" backlog
          (codes "| EMP-011 | EMP-001 | P0 | REFINEMENT | EMP-011 |")
        >> (require_token "current-status" status_doc (codes "refinement `DRAFT`")
            >> require_token "current-status" status_doc (codes "Implementation-Allowed: NO")))
    else (require_token "backlog" backlog (
          codes "| EMP-011 | EMP-001 | P0 | "
          ++ shown (metadata text "Status")
          ++ codes " | EMP-011 |")
        >> (require_token "current-status" status_doc (codes "refinement `ACCEPTED`")
            >> require_token "current-status" status_doc (codes "Implementation-Allowed: YES")))

unfoldable pub validate_governance : Repo → Text → Reported Text
unfolding read metadata text_beq require_token occurs complain_if for_each
validate_governance repo text = do
  backlog ← read repo "docs/project/backlog.md"
  status_doc ← read repo "docs/project/current-status.md"
  check_status text (codes backlog) (codes status_doc)
  log ← read repo "docs/project/decision-log.md"
  for_each (numbers_from 61 8) (check_decision text (codes log))

abbrev pub summary_path : String
summary_path = "docs/project/refinements/EMP-011-summary.md"

abbrev pub checklist_path : String
checklist_path = "docs/project/refinements/EMP-011-review-checklist.md"

abbrev pub check_summary : Text → Reported Text
check_summary summary =
    require_tokens "EMP-011 summary" summary
      ("README" ∷ "api-contract.md" ∷ "112 unit + 23 integration" ∷ [])
    >> complain_if
        (not (
          any_of (λ token. occurs (codes token) summary)
            ("NOT_STARTED" ∷ "IN_PROGRESS" ∷ "DONE_AND_VERIFIED" ∷ [])))
        (codes "EMP-011 summary missing lifecycle state")

-- `if path.is_file():` with the checks of its text
abbrev pub if_file : Repo → String → (Text → Reported Text) → Reported Text
if_file repo path check =
    let checked = read repo path >>= (λ text. check (codes text)) in
    if is_file repo path then checked else nothing

unfoldable pub validate_supporting_docs : Repo → Reported Text
unfolding is_file read require_tokens occurs complain_if for_each
validate_supporting_docs repo = do
  for_each (summary_path ∷ checklist_path ∷ [])
      (λ path. complain_if (not (is_file repo path)) (codes "Missing " ++ codes path))
  if_file repo summary_path check_summary
  if_file repo checklist_path (λ checklist.
      require_tokens "EMP-011 checklist" checklist
        ("pre-implementation boundary" ∷ "owner decisions" ∷ "CODEX_PROMPT" ∷ []))

-- the stale markers that are still there before the implementation
abbrev pub expected_stale : List (String × String)
expected_stale =
    ("README.md", "EMP-010:** `IN_PROGRESS`")
    ∷ ("README.md", "odświeża `CHECKSUMS.sha256`")
    ∷ ("docs/api/api-contract.md", "Endpoint wykorzystania kuponu pozostaje niezaimplementowany.")
    ∷ ("docs/architecture/overview.md", "Przepływ redemption nadal pozostaje planem")
    ∷ ("docs/testing/test-strategy.md", "106 unit + 22 integration")
    ∷ ("docs/project/refinements/README.md", "evidence pozostaje `NOT_MEASURED`")
    ∷ []

abbrev pub check_stale : Repo → String × String → Reported Text
check_stale repo (path, token) = do
  text ← read repo path
  complain_if (not (occurs (codes token) (codes text))) (
      codes "Pre-implementation EMP-011 unexpectedly changed audited stale marker in "
      ++ codes path)

unfoldable pub validate_preimplementation_boundary : Repo → Text → Reported Text
unfolding metadata text_beq read occurs complain_if for_each
validate_preimplementation_boundary repo text =
    if not (is_value (metadata text "Implementation") "NOT_STARTED")
    then nothing
    else (for_each expected_stale (check_stale repo)
        >> complain_if (has_key "scripts/check_emp011.py" repo) (
            codes
              "Pre-implementation EMP-011 must not contain implementation checker scripts/check_emp011.py"))

unfoldable pub validate_hygiene : Repo → Reported Text
unfolding has_prompt_file complain_if
validate_hygiene repo = complain_if (has_prompt_file repo) (codes "CODEX_PROMPT.md is forbidden")
