-- ===== src/Contract/Emp003/Checked.antt =====
-- What scripts/check_emp003.py establishes when it succeeds.
use coupon_service.Base.{◌≡◌, ◌↔◌, ◌⊎◌, true, false, List, String, ◌<>◌, All}
use coupon_service.Contract.Report.{passed, error_lines, Clean-complain_if}
use coupon_service.Contract.Repo.{Repo, is_file, in_text, has_line, HasAll, HasNone, Reads}
use coupon_service.Contract.Laws.{
  Checks, seq, gate, reading, each, unless, missing, present, required, files, passing, branch,
  refused,
}
use coupon_service.Contract.Emp003
use coupon_service.Contract.Emp003.Tokens.{
  required_files, refinement_tokens, coupon_code_tokens, country_code_tokens, coupon_tokens,
  service_tokens, repository_tokens, preflight_tokens, controller_tokens, handler_tokens,
  test_tokens, openapi_tokens, candidate_tokens, verified_tokens,
}
use coupon_service.Contract.Emp003.{
  java_root, test_root, repository_path, api_test, has_any, readme_groups, candidate_row,
  verified_row, audit_evidence, success, main, validate_all, repository_missing,
  repository_forbidden, status_missing, file_missing, audit_missing, candidate_missing, wrong_state,
}

-- `path` is a readable text with all the tokens.
abbrev pub Has : Repo → String → List String → Type 0
Has repo path tokens = Reads repo path (λ content. HasAll content tokens)

abbrev pub Domain : Repo → Type 0
Domain repo =
    All
      (λ path. Reads repo path (λ content. has_line "import org.springframework." content ≡ false))
      (Emp003.domain_sources repo)
    × (Has repo (java_root <> "/coupon/domain/CouponCode.java") coupon_code_tokens
        × (Has repo (java_root <> "/coupon/domain/CountryCode.java") country_code_tokens
            × Has repo (java_root <> "/coupon/domain/Coupon.java") coupon_tokens))

abbrev pub Persistence : Repo → Type 0
Persistence repo =
    Has repo (java_root <> "/coupon/application/CreateCouponService.java") service_tokens
    × Reads repo repository_path
        (λ content. HasAll content repository_tokens × HasNone content preflight_tokens)

abbrev pub Api : Repo → Type 0
Api repo =
    Has repo (java_root <> "/coupon/adapters/web/CouponController.java") controller_tokens
    × Has repo (java_root <> "/coupon/adapters/web/ApiExceptionHandler.java") handler_tokens

abbrev pub ConcurrencyTest : Repo → Type 0
ConcurrencyTest repo =
    Has repo api_test test_tokens
    × Reads repo api_test (λ content. in_text "Thread.sleep" content ≡ false)

-- The task is done and verified, as the status, the readme and the audit say.
abbrev pub Verified : Repo → String → Type 0
Verified repo status =
    HasAll status verified_tokens
    × Reads repo "README.md" (λ readme. Reads repo "AUDIT.md" (λ audit.
      All (λ (group : String × List String). has_any readme group.1 ≡ true) readme_groups
      × (in_text audit_evidence audit ≡ true)))

-- The backlog has the row of a task in progress with the candidate status, or the row of a verified
-- one with all its evidence.
abbrev pub StateOk : Repo → String → String → Type 0
StateOk repo backlog status =
    ((in_text candidate_row backlog ≡ true) × HasAll status candidate_tokens)
    ⊎ ((in_text candidate_row backlog ≡ false)
        × (((in_text verified_row backlog ≡ true) × Verified repo status)
            ⊎ ((in_text verified_row backlog ≡ false) × ⊥)))

abbrev pub State : Repo → Type 0
State repo =
    Reads repo "docs/project/backlog.md" (λ backlog.
      Reads repo "docs/project/current-status.md" (λ status. StateOk repo backlog status))

abbrev pub Contract : Repo → Type 0
Contract repo =
    Has repo "docs/project/refinements/EMP-003.md" refinement_tokens
    × (Domain repo
        × (Persistence repo
            × (Api repo
                × (ConcurrencyTest repo
                    × (Has repo "docs/api/openapi.yaml" openapi_tokens × State repo)))))

module _ (repo : Repo) where
  Domain-Checks : Checks (Emp003.validate_domain_boundaries repo) (Domain repo)
  unfolding Emp003.validate_domain_boundaries Emp003.no_spring
  Domain-Checks =
      seq _ _
        (each _ (Emp003.domain_sources repo) (Emp003.no_spring repo) λ path.
          reading repo path _ (λ content. has_line "import org.springframework." content ≡ false)
            (λ content. Clean-complain_if (has_line "import org.springframework." content) _))
        (seq _ _ (required repo _ coupon_code_tokens)
          (seq _ _ (required repo _ country_code_tokens) (required repo _ coupon_tokens)))

  Persistence-Checks : Checks (Emp003.validate_application_and_persistence repo) (Persistence repo)
  unfolding Emp003.validate_application_and_persistence
  Persistence-Checks = seq _ _ (required repo _ service_tokens) (
      reading repo repository_path _
        (λ content. HasAll content repository_tokens × HasNone content preflight_tokens)
        (λ content.
          seq _ _ (missing repository_missing repository_tokens content)
            (present repository_forbidden preflight_tokens content)))

  Api-Checks : Checks (Emp003.validate_api repo) (Api repo)
  unfolding Emp003.validate_api
  Api-Checks = seq _ _ (required repo _ controller_tokens) (required repo _ handler_tokens)

  tests-Checks : Checks (Emp003.validate_tests repo) (ConcurrencyTest repo)
  unfolding Emp003.validate_tests
  tests-Checks = seq _ _ (required repo _ test_tokens) (
      reading repo api_test _ (λ content. in_text "Thread.sleep" content ≡ false)
        (λ content. Clean-complain_if (in_text "Thread.sleep" content) _))

  Verified-Checks :
      (status : String) → Checks (Emp003.verified_state repo status) (Verified repo status)
  unfolding Emp003.verified_state Emp003.readme_group
  Verified-Checks status = seq _ _ (missing status_missing verified_tokens status) (
      reading repo "README.md" _ _ λ readme. reading repo "AUDIT.md" _ _ λ audit.
        seq _ _
          (each _ readme_groups (Emp003.readme_group readme)
            λ (label, alternatives). unless (has_any readme alternatives) _)
          (unless (in_text audit_evidence audit) audit_missing))

  State-Checks : Checks (Emp003.validate_project_state repo) (State repo)
  unfolding Emp003.validate_project_state
  State-Checks = reading repo "docs/project/backlog.md" _ _ λ backlog.
      reading repo "docs/project/current-status.md" _ (StateOk repo backlog) λ status.
        branch (in_text candidate_row backlog) _ _
          (missing candidate_missing candidate_tokens status)
          (branch (in_text verified_row backlog) _ _ (Verified-Checks status) (refused wrong_state))

  all-Checks : Checks (validate_all repo) (Contract repo)
  unfolding validate_all Emp003.validate_refinement Emp003.validate_openapi
  all-Checks = seq _ _ (required repo _ refinement_tokens) (
      seq _ _ Domain-Checks (
        seq _ _ Persistence-Checks (
          seq _ _ Api-Checks
            (seq _ _ tests-Checks (seq _ _ (required repo _ openapi_tokens) State-Checks)))))

  -- check_emp003.py succeeds exactly when every required file exists and the contract holds: the
  -- refinement, the domain classes without Spring, the repository without preflight queries, the web
  -- adapter, the concurrency test without `Thread.sleep`, the OpenAPI document, and a backlog row with
  -- the evidence that it calls for.
  pub emp003-passed :
      (main repo ≡ passed success)
      ↔ (All (λ path. is_file repo path ≡ true) required_files × Contract repo)
  unfolding main
  emp003-passed =
      passing error_lines success _ (gate _ _ (files file_missing repo required_files) all-Checks)
