-- ===== src/Contract/Emp007/Checked.antt =====
-- What scripts/check_emp007.py establishes when it succeeds.
use coupon_service.Base.{
  ◌≡◌, refl, ◌↔◌, ◌⊎◌, true, false, not, ◌&&◌, ◌||◌, List, [], ◌∷◌, arith, String, ◌<>◌, All,
}
use coupon_service.Contract.Emp006.{describes_redemption, implementation_started}
use coupon_service.Contract.Report.{
  nothing, passed, error_lines, Clean->>, Clean-complain_if, for_each,
}
use coupon_service.Contract.Repo.{Repo, is_file, in_text, HasAll, Reads}
use coupon_service.Contract.Laws.{
  Checks, seq, gate, reading, each, unless, missing, required, files, passing, branch,
}
use coupon_service.Contract.Emp007
use coupon_service.Contract.Emp007.Tokens.{
  required_files, refinement_tokens, openapi_tokens, pom_tokens, application_tokens,
  public_contracts, use_case_tokens, coupon_code_tokens, test_tokens, emp004_rows, release_tokens,
  emp006_rows,
}
use coupon_service.Contract.Emp007.{
  java_root, documentation_test, has_row, is_verified, is_candidate, required_status,
  required_readme, prompt_files, prompt_found, success, main, validate_all, file_missing,
  pom_lacking, status_lacking, readme_lacking, release_lacking, too_early, emp004_unknown,
  emp007_unknown, emp006_unknown,
}

abbrev pub Has : Repo → String → List String → Type 0
Has repo path tokens = Reads repo path (λ content. HasAll content tokens)

abbrev pub OpenApi : Repo → Type 0
OpenApi repo =
    Has repo "docs/api/openapi.yaml" openapi_tokens
    × Reads repo "docs/api/openapi.yaml" (λ openapi.
      Reads repo "docs/project/current-status.md"
        (λ status. (describes_redemption openapi && not (implementation_started status)) ≡ false))

abbrev pub Wiring : Repo → Type 0
Wiring repo = Reads repo "pom.xml" (λ pom.
    HasAll pom pom_tokens
    × (Has repo "src/main/resources/application.yml" application_tokens
        × (Has repo ".dockerignore" ("!docs/api/openapi.yaml" ∷ [])
            × Has repo "Dockerfile" ("COPY docs/api/openapi.yaml docs/api/openapi.yaml" ∷ []))))

abbrev pub Javadocs : Repo → Type 0
Javadocs repo =
    All (λ path. Reads repo path (λ content. in_text "/**" content ≡ true)) public_contracts
    × (Has repo (java_root <> "/coupon/application/CreateCouponUseCase.java") use_case_tokens
        × Has repo (java_root <> "/coupon/domain/CouponCode.java") coupon_code_tokens)

-- A task that is no candidate has its evidence in the release history; a verified one also has
-- EMP-006 in a state with its own refinement.
abbrev pub StateOk : Repo → String → String → String → Type 0
StateOk repo backlog status readme =
    (has_row backlog emp004_rows ≡ true)
    × (((is_candidate backlog || is_verified backlog) ≡ true)
        × ((((is_candidate backlog ≡ true) × Unit {0})
              ⊎ ((is_candidate backlog ≡ false)
                  × Has repo "docs/project/release-history.md" release_tokens))
            × (HasAll status (required_status (is_candidate backlog))
                × (HasAll readme (required_readme (is_candidate backlog))
                    × (((is_verified backlog ≡ true) × (has_row backlog emp006_rows ≡ true))
                        ⊎ ((is_verified backlog ≡ false) × Unit {0}))))))

abbrev pub State : Repo → Type 0
State repo = Reads repo "docs/project/backlog.md" (λ backlog.
    Reads repo "docs/project/current-status.md"
      (λ status. Reads repo "README.md" (λ readme. StateOk repo backlog status readme)))

abbrev pub Contract : Repo → Type 0
Contract repo =
    Has repo "docs/project/refinements/EMP-007.md" refinement_tokens
    × (OpenApi repo
        × (Wiring repo
            × (Javadocs repo
                × (Has repo documentation_test test_tokens
                    × (State repo × (prompt_files repo ≡ []))))))

nothing-Checks : Checks {M = String} nothing (Unit {0})
nothing-Checks = (λ _. tt, λ _. refl)

prompts-Checks : (paths : List String) → Checks (for_each paths prompt_found) (paths ≡ [])
unfolding for_each
prompts-Checks [] = (λ _. refl, λ _. refl)
prompts-Checks (p ∷ ps) = (
  λ h.
      let both = (Clean->> (prompt_found p) (for_each ps prompt_found)).0 h in
      ground (arith, both.0),
  λ h. cc,
)

module _ (repo : Repo) where
  openapi-Checks : Checks (Emp007.validate_openapi repo) (OpenApi repo)
  unfolding Emp007.validate_openapi
  openapi-Checks = seq _ _ (required repo _ openapi_tokens) (
      reading repo "docs/api/openapi.yaml" _ _ λ openapi.
        reading repo "docs/project/current-status.md" _ _ λ status.
          Clean-complain_if (describes_redemption openapi && not (implementation_started status))
            too_early)

  Wiring-Checks : Checks (Emp007.validate_runtime_wiring repo) (Wiring repo)
  unfolding Emp007.validate_runtime_wiring
  Wiring-Checks = reading repo "pom.xml" _ _ λ pom. seq _ _ (missing pom_lacking pom_tokens pom) (
      seq _ _ (required repo _ application_tokens) (
        seq _ _ (required repo _ ("!docs/api/openapi.yaml" ∷ []))
          (required repo _ ("COPY docs/api/openapi.yaml docs/api/openapi.yaml" ∷ []))))

  Javadocs-Checks : Checks (Emp007.validate_javadocs repo) (Javadocs repo)
  unfolding Emp007.validate_javadocs Emp007.has_javadoc
  Javadocs-Checks =
      seq _ _
        (each _ public_contracts (Emp007.has_javadoc repo) λ path.
          reading repo path _ (λ content. in_text "/**" content ≡ true)
            (λ content. unless (in_text "/**" content) _))
        (seq _ _ (required repo _ use_case_tokens) (required repo _ coupon_code_tokens))

  release-Checks :
      Checks
        (Emp007.release_evidence repo)
        (Has repo "docs/project/release-history.md" release_tokens)
  unfolding Emp007.release_evidence
  release-Checks =
      reading repo "docs/project/release-history.md" _ _
        (λ history. missing release_lacking release_tokens history)

  State-Checks : Checks (Emp007.validate_project_state repo) (State repo)
  unfolding Emp007.validate_project_state
  State-Checks = reading repo "docs/project/backlog.md" _ _ λ backlog.
      reading repo "docs/project/current-status.md" _ _ λ status.
        reading repo "README.md" _ (StateOk repo backlog status) λ readme.
          seq _ _ (unless (has_row backlog emp004_rows) emp004_unknown) (
            seq _ _ (unless (is_candidate backlog || is_verified backlog) emp007_unknown) (
              seq _ _ (branch (is_candidate backlog) _ _ nothing-Checks release-Checks) (
                seq _ _ (missing status_lacking (required_status (is_candidate backlog)) status) (
                  seq _ _ (missing readme_lacking (required_readme (is_candidate backlog)) readme) (
                    branch (is_verified backlog) _ _
                      (unless (has_row backlog emp006_rows) emp006_unknown) nothing-Checks)))))

  all-Checks : Checks (validate_all repo) (Contract repo)
  unfolding validate_all Emp007.validate_refinement Emp007.validate_tests
      Emp007.validate_no_prompt_file
  all-Checks = seq _ _ (required repo _ refinement_tokens) (
      seq _ _ openapi-Checks (
        seq _ _ Wiring-Checks (
          seq _ _ Javadocs-Checks (
            seq _ _ (required repo _ test_tokens)
              (seq _ _ State-Checks (prompts-Checks (prompt_files repo)))))))

  -- check_emp007.py succeeds exactly when every required file exists and the contract holds: the
  -- refinement, the OpenAPI document, the runtime wiring, the Javadoc of the public contracts, the
  -- documentation test, a project state with the evidence of a candidate or of a verified task, and no
  -- file named CODEX_PROMPT.md.
  pub emp007-passed :
      (main repo ≡ passed success)
      ↔ (All (λ path. is_file repo path ≡ true) required_files × Contract repo)
  unfolding main
  emp007-passed =
      passing error_lines success _ (gate _ _ (files file_missing repo required_files) all-Checks)
