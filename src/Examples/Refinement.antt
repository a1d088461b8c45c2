-- ===== src/Examples/Refinement.antt =====
-- Repositories that scripts/check_emp011_refinement.py and scripts/check_emp011.py accept.
use coupon_service.Base.{◌≡◌, refl, some, [], ◌∷◌, String, ◌<>◌, codes, is_digit, map}
use coupon_service.Contract.Refinement011.Main.{main, main-IsIn, refinement_path, HasDecisions}
use coupon_service.Contract.Refinement011.Phase.{Phase, IsIn, IsMeasured, validate_metadata-IsIn}
use coupon_service.Contract.Refinement011.{validate_metadata}
use coupon_service.Contract.Repo.{Repo, Item, read, join_strings}
use coupon_service.Contract.Emp011.{
  Document, ref, readme, api, architecture, testing, registry, trace, backlog, status_doc,
  checklist, mitigated, open_risks,
}
use coupon_service.Contract.Emp011.Checked.{IsReviewed, emp011-passed}
use coupon_service.Documentation.Pattern.{Unicode}

abbrev digits_example : Unicode
digits_example = record { is_decimal = is_digit; is_word = is_digit }

abbrev metadata_example : String
metadata_example =
    "Stan-Refinementu: ACCEPTED\nStatus: IN_PROGRESS\nImplementation: IN_PROGRESS\nImplementation-Allowed: YES\nScope-Frozen: YES\nZaakceptował: Radosław Piątek\nData-Akceptacji: 2026-08-07\nReview-Result: IN_PROGRESS\nFinal-Review-Evidence: MEASURED\nPublic-Repo-Evidence: NOT_MEASURED\n"

abbrev review_example : String
review_example =
    metadata_example
    <> "F-01 F-02 F-03 F-04 F-05 F-06 F-07 F-08 F-09 F-10 112 unit + 23 integration 95.76% 86.39% 95.06% 88.21% api-contract.md architecture/overview.md testing/test-strategy.md Risk register CHECKSUMS.sha256 Idempotency-Key IPWhois make verify make delivery-check make export-source GitHub Actions docs/api/openapi.yaml CODEX_PROMPT R-030 R-034\n**AC-01:** **AC-02:** **AC-03:** **AC-04:** **AC-05:** **AC-06:** **AC-07:** **AC-08:** **AC-09:** **AC-10:** **AC-11:** **AC-12:** **AC-13:** **AC-14:** **AC-15:** **AC-16:** **AC-17:** **AC-18:** **AC-19:** **AC-20:** **AC-21:** **AC-22:** **AC-23:** **AC-24:** **AC-25:** **AC-26:** **AC-27:** **AC-28:**\n1. **x — ACCEPT.**\n2. **x — ACCEPT.**\n3. **x — ACCEPT.**\n4. **x — ACCEPT.**\n5. **x — ACCEPT.**\n6. **x — ACCEPT.**\n7. **x — ACCEPT.**\n8. **x — ACCEPT.**\n"

abbrev emp011_example : Repo
emp011_example =
    ("docs/project/refinements/EMP-011.md", Item.text review_example)
    ∷ (
      "docs/project/refinements/EMP-011-summary.md",
      Item.text "README api-contract.md 112 unit + 23 integration IN_PROGRESS",
    )
    ∷ (
      "docs/project/refinements/EMP-011-review-checklist.md",
      Item.text "pre-implementation boundary owner decisions CODEX_PROMPT",
    )
    ∷ ("docs/project/backlog.md", Item.text "| EMP-011 | EMP-001 | P0 | IN_PROGRESS | EMP-011 |")
    ∷ (
      "docs/project/current-status.md",
      Item.text "refinement `ACCEPTED` Implementation-Allowed: YES",
    )
    ∷ (
      "docs/project/decision-log.md",
      Item.text
          "| D-061 | 2026-08-07 | ACCEPTED |\n| D-062 | 2026-08-07 | ACCEPTED |\n| D-063 | 2026-08-07 | ACCEPTED |\n| D-064 | 2026-08-07 | ACCEPTED |\n| D-065 | 2026-08-07 | ACCEPTED |\n| D-066 | 2026-08-07 | ACCEPTED |\n| D-067 | 2026-08-07 | ACCEPTED |\n| D-068 | 2026-08-07 | ACCEPTED |\n",
    )
    ∷ []

validate_metadata-IsIn_example :
    (phase : Phase) × IsIn (codes metadata_example) phase × IsMeasured (codes metadata_example)
unfolding validate_metadata
validate_metadata-IsIn_example = (validate_metadata-IsIn (codes metadata_example)).0 refl

main-IsIn_example :
    (text : String) × (read emp011_example refinement_path ≡ some text)
    × (phase : Phase) × IsIn (codes text) phase
    × IsMeasured (codes text)
    × HasDecisions digits_example emp011_example (codes text) phase
unfolding main
main-IsIn_example = main-IsIn digits_example emp011_example refl

-- the tokens of a document, on lines of their own
abbrev document_example : Document → String × Item
document_example document = (document.path, Item.text (join_strings "\n" document.tokens))

abbrev risks_example : String
risks_example =
    join_strings "\n" (map (λ id. "| " <> id <> " | HIGH | MITIGATED |") mitigated)
    <> join_strings "\n" (map (λ id. "| " <> id <> " | MEDIUM | OPEN |") open_risks)

abbrev accepted_example : String
accepted_example =
    "\n1. **x — ACCEPT.**\n2. **x — ACCEPT.**\n3. **x — ACCEPT.**\n4. **x — ACCEPT.**\n5. **x — ACCEPT.**\n6. **x — ACCEPT.**\n7. **x — ACCEPT.**\n8. **x — ACCEPT.**\n"

abbrev reviewed_example : Repo
reviewed_example =
    (
      "docs/project/refinements/EMP-011.md",
      Item.text (join_strings "\n" ref.tokens <> accepted_example),
    )
    ∷ ("docs/project/risk-register.md", Item.text risks_example)
    ∷ ("docs/api/openapi.yaml", Item.text "paths:\n  /a:\n    post:\n  /b:\n    post:\n")
    ∷ map document_example (
        readme ∷ api ∷ architecture ∷ testing ∷ registry ∷ trace ∷ backlog ∷ status_doc ∷ checklist
        ∷ [])

emp011-passed_example : IsReviewed digits_example reviewed_example
unfolding coupon_service.Contract.Emp011.main join_strings
emp011-passed_example = (emp011-passed digits_example reviewed_example).0 refl
