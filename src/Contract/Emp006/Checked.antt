-- ===== src/Contract/Emp006/Checked.antt =====
-- What scripts/check_emp006.py establishes when it succeeds.
use coupon_service.Base.{
  ◌≡◌, refl, ◌↔◌, true, false, not, ◌&&◌, ◌||◌, Bool-cases, inl, inr, some, List, String, All,
}
use coupon_service.Contract.Report.{passed, error_lines, Clean-complain_if}
use coupon_service.Contract.Repo.{Repo, is_file, in_text, has_prompt_file, HasAll, Reads}
use coupon_service.Contract.Laws.{Checks, seq, binding, reading, each, unless, missing, passing}
use coupon_service.Contract.Emp006.{
  lacking, require, smoke_text, smoke_isolated, pom_lacking, implementation_started,
  describes_redemption, sources, leaks, privacy, not_loopback, too_early, prompt_file, loopback,
  errors, success, main,
}
use coupon_service.Contract.Emp006.Tokens.{required, pom_tokens}

abbrev pub FileOk : Repo → String × List String → Type 0
FileOk repo (path, tokens) =
    (is_file repo path ≡ true) × Reads repo path (λ content. HasAll content tokens)

-- The smoke test uses no fixed port, and stops no container but those of its own project.
abbrev pub IsIsolated : String → Type 0
IsIsolated content =
    (in_text "18080" content ≡ false)
    × ((in_text "docker stop" content || in_text "docker rm" content) ≡ false)

-- Redemption is described only once its implementation has started.
abbrev pub NotTooEarly : String → String → Type 0
NotTooEarly openapi status =
    (describes_redemption openapi && not (implementation_started status)) ≡ false

abbrev pub Contract : Repo → Type 0
Contract repo =
    All (FileOk repo) required
    × ((content : String) × (smoke_text repo ≡ some content)
        × (IsIsolated content
            × Reads repo "docker-compose.yml" (λ compose.
              (in_text loopback compose ≡ true)
              × Reads repo "pom.xml" (λ pom.
                HasAll pom pom_tokens
                × Reads repo "docs/api/openapi.yaml" (λ openapi.
                  Reads repo "docs/project/current-status.md" (λ status.
                    NotTooEarly openapi status
                    × ((has_prompt_file repo ≡ false)
                        × All (λ path. Reads repo path (λ content. leaks content ≡ false))
                            (sources repo))))))))

module _ (repo : Repo) where
  require-Checks : (f : String × List String) → Checks (require repo f) (FileOk repo f)
  unfolding require
  require-Checks (path, tokens) = elim (Bool-cases (is_file repo path)) [
    | inr gone ↦ rw gone (λ h. cc, λ (h, _). cc)
    | inl there ↦
        let tests =
          reading repo path _ (λ content. HasAll content tokens)
            (λ content. missing (lacking path) tokens content) in
        rw there (λ h. (refl, tests.0 h), λ (_, h). tests.1 h)
  ]

  IsIsolated-Checks : (content : String) → Checks (smoke_isolated content) (IsIsolated content)
  unfolding smoke_isolated
  IsIsolated-Checks content =
      seq _ _ (Clean-complain_if (in_text "18080" content) _)
        (Clean-complain_if (in_text "docker stop" content || in_text "docker rm" content) _)

  privacy-Checks :
      (path : String)
      → Checks (privacy repo path) (Reads repo path (λ content. leaks content ≡ false))
  unfolding privacy
  privacy-Checks path =
      reading repo path _ (λ content. leaks content ≡ false)
        (λ content. Clean-complain_if (leaks content) _)

  errors-Checks : Checks (errors repo) (Contract repo)
  unfolding errors
  errors-Checks = seq _ _ (each (FileOk repo) required (require repo) require-Checks) (
      binding (smoke_text repo) _ _ λ content. seq _ _ (IsIsolated-Checks content) (
        reading repo "docker-compose.yml" _ _ λ compose.
          seq _ _ (unless (in_text loopback compose) not_loopback) (
            reading repo "pom.xml" _ _ λ pom. seq _ _ (missing pom_lacking pom_tokens pom) (
              reading repo "docs/api/openapi.yaml" _ _ λ openapi.
                reading repo "docs/project/current-status.md" _ _ λ status.
                  seq _ _
                    (Clean-complain_if
                      (describes_redemption openapi && not (implementation_started status))
                      too_early)
                    (seq _ _ (Clean-complain_if (has_prompt_file repo) prompt_file)
                      (each _ (sources repo) (privacy repo) privacy-Checks))))))

  -- check_emp006.py succeeds exactly when every required file has its tokens, the smoke test is
  -- isolated, the port is bound to loopback, the dependencies are declared, redemption is not described
  -- before its implementation starts, no file is named CODEX_PROMPT.md, and no geolocation source
  -- has the word Logger or MDC, or the words raw IP without the word Javadoc.
  pub emp006-passed : (main repo ≡ passed success) ↔ Contract repo
  unfolding main
  emp006-passed = passing error_lines success _ errors-Checks
