-- ===== src/Contract/Emp011.antt =====
-- scripts/check_emp011.py: the contract of the final review.
pub mod Checked
use coupon_service.Base.{
  ℕ, zero, suc, ◌+◌, Bool, true, false, not, ◌&&◌, ◌||◌, Option, none, some, List, [], ◌∷◌, ◌++◌,
  ◌==◌, String, Text, codes, is_space, length, occurs, join, map, if◌then◌else◌,
}
use coupon_service.Contract.Emp009.Method.{after}
use coupon_service.Contract.Refinement011.Content.{decisions, accepted_end, are_eight}
use coupon_service.Contract.Refinement011.Main.{exit_status}
use coupon_service.Contract.Report.{Reported, ◌>>◌, ◌>>=◌, complain_if, for_each}
use coupon_service.Contract.Repo.{Repo, read, has_prompt_file}
use coupon_service.Documentation.Backlog.{same_texts}
use coupon_service.Documentation.Pattern.{Unicode, Pattern, at_line_start, find_all}

-- `require(text, token, errors, where)` and `forbid(...)`
abbrev pub require : String → Text → String → Reported Text
require place text token =
    complain_if (not (occurs (codes token) text))
      (codes place ++ codes " missing '" ++ codes token ++ codes "'")

abbrev pub forbid : String → Text → String → Reported Text
forbid place text token =
    complain_if (occurs (codes token) text)
      (codes place ++ codes " contains stale/forbidden marker '" ++ codes token ++ codes "'")

-- a document: its path, its name in the messages, the tokens that are required, and those that are
-- forbidden
pub record Document : Type 0 where
  pub path : String
  pub place : String
  pub tokens : List String
  pub stale : List String

abbrev pub readme : Document
readme = record {
  path = "README.md";
  place = "README.md";
  tokens =
      "POST /api/v1/coupons" ∷ "POST /api/v1/coupons/{code}/redemptions" ∷ "make verify"
      ∷ "make docker-up APP_PORT=18080" ∷ "http://localhost:18080/swagger-ui"
      ∷ "http://localhost:18080/openapi.yaml" ∷ "112 unit tests" ∷ "23 integration tests"
      ∷ "95.76% LINE / 86.39% BRANCH" ∷ "95.06% LINE / 88.21% BRANCH" ∷ "SELECT ... FOR UPDATE"
      ∷ "client-asserted opaque identifier" ∷ "Idempotency-Key" ∷ "ipwho.is"
      ∷ "read-only względem `CHECKSUMS.sha256`" ∷ "make checksums" ∷ "Recovery / rollback" ∷ [];
  stale =
      "0.0.22-emp-010-refinement-draft" ∷ "EMP-010:** `IN_PROGRESS`" ∷ "odświeża `CHECKSUMS.sha256`"
      ∷ [];
}

abbrev pub api : Document
api = record {
  path = "docs/api/api-contract.md";
  place = "api-contract.md";
  tokens = "POST /api/v1/coupons/{code}/redemptions" ∷ [];
  stale =
      "Endpoint wykorzystania kuponu pozostaje niezaimplementowany"
      ∷ "Endpoint nie istnieje jeszcze w runtime" ∷ [];
}

abbrev pub architecture : Document
architecture = record {
  path = "docs/architecture/overview.md";
  place = "architecture/overview.md";
  tokens = "Przepływ wykorzystania kuponu — zweryfikowany EMP-004" ∷ [];
  stale =
      "Przepływ redemption nadal pozostaje planem" ∷ "Planowany przepływ wykorzystania kuponu" ∷ [];
}

abbrev pub testing : Document
testing = record {
  path = "docs/testing/test-strategy.md";
  place = "testing/test-strategy.md";
  tokens =
      "112 unit + 23 integration tests" ∷ "655/684 LINE = 95.76%" ∷ "292/338 BRANCH = 86.39%"
      ∷ "462/486 LINE = 95.06%" ∷ "247/280 BRANCH = 88.21%"
      ∷ "EMP-010 — zweryfikowane CI, delivery i obserwowalność" ∷ [];
  stale = "106 unit + 22 integration" ∷ "zaakceptowany plan CI, delivery i obserwowalności" ∷ [];
}

abbrev pub registry : Document
registry = record {
  path = "docs/project/refinements/README.md";
  place = "refinements/README.md";
  tokens =
      "EMP-010 — CI, delivery hardening i obserwowalność](EMP-010.md) — `ACCEPTED`, `DONE_AND_VERIFIED`"
      ∷ "EMP-011 — finalny review, README i closeout](EMP-011.md) — `ACCEPTED`, `DONE_AND_VERIFIED`"
      ∷ [];
  stale = "evidence pozostaje `NOT_MEASURED`" ∷ [];
}

abbrev pub trace : Document
trace = record {
  path = "docs/product/requirements-traceability.md";
  place = "requirements-traceability.md";
  tokens =
      "recruiter-first README"
      ∷ "green CI #5 on `5c7d3f5` + delivery SHA `579f4957…` + package hygiene" ∷ [];
  stale = [];
}

abbrev pub ref : Document
ref = record {
  path = "docs/project/refinements/EMP-011.md";
  place = "EMP-011.md";
  tokens =
      "Stan-Refinementu: ACCEPTED" ∷ "Implementation-Allowed: YES" ∷ "Scope-Frozen: YES"
      ∷ "Status: DONE_AND_VERIFIED" ∷ "Implementation: DONE_AND_VERIFIED"
      ∷ "Final-Review-Evidence: MEASURED_AND_VERIFIED"
      ∷ "Public-Repo-Evidence: MEASURED_AND_VERIFIED" ∷ "Review-Result: PASS"
      ∷ "5c7d3f5b9e48ff88a90f11047f45b249b4ee7e65" ∷ "CI #5" ∷ [];
  stale = [];
}

abbrev pub backlog : Document
backlog = record {
  path = "docs/project/backlog.md";
  place = "backlog.md";
  tokens = "| EMP-011 | EMP-001 | P0 | DONE_AND_VERIFIED | EMP-011 |" ∷ [];
  stale = [];
}

abbrev pub status_doc : Document
status_doc = record {
  path = "docs/project/current-status.md";
  place = "current-status.md";
  tokens = "EMP-011:** `DONE_AND_VERIFIED`" ∷ "GITHUB_CI_5c7d3f5_PASS" ∷ [];
  stale = [];
}

abbrev pub checklist : Document
checklist = record {
  path = "docs/project/refinements/EMP-011-review-checklist.md";
  place = "EMP-011-review-checklist.md";
  tokens =
      "public GitHub Actions final SHA | PASS"
      ∷ "579f49576318bba67d8a2a553cb548b0fa6118b05058c4bd730ad83d6b897d63" ∷ [];
  stale = [];
}

abbrev pub mitigated : List String
mitigated =
    "R-006" ∷ "R-022" ∷ "R-023" ∷ "R-025" ∷ "R-027" ∷ "R-030" ∷ "R-031" ∷ "R-032" ∷ "R-033"
    ∷ "R-034" ∷ "R-014" ∷ "R-017" ∷ []

abbrev pub open_risks : List String
open_risks = "R-003" ∷ "R-009" ∷ "R-012" ∷ "R-024" ∷ "R-026" ∷ []

-- `\| ID \| (?:HIGH|MEDIUM) \| STATE \|`
abbrev pub risk_row : String → String → String → Text
risk_row id level state =
    codes "| " ++ codes id ++ codes " | " ++ codes level ++ codes " | " ++ codes state ++ codes " |"

abbrev pub has_risk : Text → String → String → Bool
has_risk risks state id =
    occurs (risk_row id "HIGH" state) risks || occurs (risk_row id "MEDIUM" state) risks

abbrev pub not_mitigated : String → Text
not_mitigated id = codes "risk-register.md does not mark " ++ codes id ++ codes " MITIGATED"

abbrev pub not_open : String → Text
not_open id = codes "risk-register.md must keep " ++ codes id ++ codes " OPEN"

unfoldable pub check_document : Repo → Document → Reported Text
unfolding read occurs complain_if for_each
check_document repo document = do
  text ← read repo document.path
  for_each document.tokens (require document.place (codes text))
  for_each document.stale (forbid document.place (codes text))

unfoldable pub check_risks : Text → Reported Text
unfolding occurs complain_if for_each
check_risks risks = do
  for_each mitigated (λ id. complain_if (not (has_risk risks "MITIGATED" id)) (not_mitigated id))
  for_each open_risks (λ id. complain_if (not (has_risk risks "OPEN" id)) (not_open id))

-- `^\s{4}(get|post|put|patch|delete):\s*$`: four spaces, the method, and the longest run of spaces that
-- ends before a line feed or at the end
abbrev pub methods : List String
methods = "get" ∷ "post" ∷ "put" ∷ "patch" ∷ "delete" ∷ []

unfoldable pub spaces : ℕ → Text → Option Text
spaces zero text = some text
spaces (suc n) [] = none
spaces (suc n) (c ∷ cs) = let rest = spaces n cs in if is_space c then rest else none

abbrev pub longer : ℕ → Option ℕ → Option ℕ
longer c (some n) = some (n + 1)
longer c none = if c == b'\n' then some 0 else none

unfoldable pub to_line_end : Text → Option ℕ
to_line_end [] = some 0
to_line_end (c ∷ cs) = let rest = to_line_end cs in longer c (if is_space c then rest else none)

abbrev pub with_end : String → Option ℕ → Option (Text × ℕ)
with_end method none = none
with_end method (some n) = some (codes method, 5 + length (codes method) + n)

abbrev pub method_then : String → Option Text → Option (Text × ℕ) → Option (Text × ℕ)
method_then method none others = others
method_then method (some rest) others = with_end method (to_line_end rest)

abbrev pub one_method : List String → Text → Option (Text × ℕ)
one_method [] text = none
one_method (method ∷ others) text =
    method_then method (after (codes method ++ codes ":") text) (one_method others text)

abbrev pub after_spaces : Option Text → Option (Text × ℕ)
after_spaces none = none
after_spaces (some rest) = one_method methods rest

unfoldable pub operation : Pattern Text
unfolding spaces to_line_end after
operation before text = if at_line_start before then after_spaces (spaces 4 text) else none

abbrev pub public_methods : Text → List Text
public_methods openapi = find_all operation openapi

-- the list as Python prints it
abbrev pub shown_list : List Text → Text
shown_list found =
    codes "[" ++ join (codes ", ") (map (λ m. codes "'" ++ m ++ codes "'") found) ++ codes "]"

unfoldable pub check_openapi : Text → Reported Text
unfolding find_all operation same_texts join complain_if
check_openapi openapi =
    complain_if (not (same_texts (public_methods openapi) (codes "post" ∷ codes "post" ∷ []))) (
      codes "canonical OpenAPI must expose exactly two POST operations, got "
      ++ shown_list (public_methods openapi))

module _ (u : Unicode) (repo : Repo) where
  -- the refinement is read once for its tokens and its decisions
  abbrev pub check_decisions : Text → Reported Text
  check_decisions text =
      complain_if (not (are_eight u (decisions u accepted_end text)))
        (codes "EMP-011.md must retain exactly 8 accepted owner decisions")

  unfoldable pub errors : Reported Text
  unfolding check_document read check_risks decisions check_openapi has_prompt_file complain_if
      for_each
  errors = do
    for_each (readme ∷ api ∷ architecture ∷ testing ∷ registry ∷ []) (check_document repo)
    risks ← read repo "docs/project/risk-register.md"
    check_risks (codes risks)
    for_each (trace ∷ ref ∷ []) (check_document repo)
    refinement ← read repo "docs/project/refinements/EMP-011.md"
    check_decisions (codes refinement)
    for_each (backlog ∷ status_doc ∷ checklist ∷ []) (check_document repo)
    openapi ← read repo "docs/api/openapi.yaml"
    check_openapi (codes openapi)
    complain_if (has_prompt_file repo) (codes "CODEX_PROMPT.md is forbidden")

  unfoldable pub main : Option ℕ
  unfolding errors exit_status
  main = exit_status errors
