-- ===== src/Examples/Contracts.antt =====
-- Repositories that meet the contracts: each file holds the tokens that are required of it.
use coupon_service.Base.{
  ◌≡◌, refl, List, [], ◌∷◌, ◌++◌, map, String, ◌<>◌, Bool, true, false, All, text_beq,
}
use coupon_service.Contract.Emp003
use coupon_service.Contract.Emp003.Checked.{emp003-passed}
use coupon_service.Contract.Emp004
use coupon_service.Contract.Emp004.Checked.{emp004-passed}
use coupon_service.Contract.Emp006
use coupon_service.Contract.Emp006.Checked.{emp006-passed}
use coupon_service.Contract.Emp007
use coupon_service.Contract.Emp007.Checked.{emp007-passed}
use coupon_service.Contract.Emp009
use coupon_service.Contract.Emp009.Checked.{emp009-passed}
use coupon_service.Contract.Refinement008
use coupon_service.Contract.Refinement008.Checked.{refinement008-passed}
use coupon_service.Contract.Repo.{Repo, Item, text, is_file, join_strings}

abbrev with_tokens : String × List String → String × Item
with_tokens (path, tokens) = (path, text (join_strings "\n" tokens))

abbrev blank : String → String × Item
blank path = (path, text "")

abbrev repo_emp003 : Repo
repo_emp003 =
    map with_tokens (
      ("docs/project/refinements/EMP-003.md", Emp003.Tokens.refinement_tokens)
      ∷ (Emp003.java_root <> "/coupon/domain/CouponCode.java", Emp003.Tokens.coupon_code_tokens)
      ∷ (Emp003.java_root <> "/coupon/domain/CountryCode.java", Emp003.Tokens.country_code_tokens)
      ∷ (Emp003.java_root <> "/coupon/domain/Coupon.java", Emp003.Tokens.coupon_tokens)
      ∷ (
        Emp003.java_root <> "/coupon/application/CreateCouponService.java",
        Emp003.Tokens.service_tokens,
      )
      ∷ (Emp003.repository_path, Emp003.Tokens.repository_tokens)
      ∷ (
        Emp003.java_root <> "/coupon/adapters/web/CouponController.java",
        Emp003.Tokens.controller_tokens,
      )
      ∷ (
        Emp003.java_root <> "/coupon/adapters/web/ApiExceptionHandler.java",
        Emp003.Tokens.handler_tokens,
      )
      ∷ (Emp003.api_test, Emp003.Tokens.test_tokens)
      ∷ ("docs/api/openapi.yaml", Emp003.Tokens.openapi_tokens)
      ∷ ("docs/project/backlog.md", Emp003.candidate_row ∷ [])
      ∷ ("docs/project/current-status.md", Emp003.Tokens.candidate_tokens)
      ∷ [])
    ++ map blank Emp003.Tokens.required_files

emp003-passed_example :
    All (λ path. is_file repo_emp003 path ≡ true) Emp003.Tokens.required_files
    × Emp003.Checked.Contract repo_emp003
unfolding Emp003.main is_file coupon_service.Contract.Repo.read coupon_service.Contract.Repo.in_text
    join_strings coupon_service.Contract.Repo.is_child coupon_service.Base.split_on
    coupon_service.Contract.Repo.has_suffix coupon_service.Contract.Repo.has_line
emp003-passed_example = (emp003-passed repo_emp003).0 refl

abbrev repo_emp004 : Repo
repo_emp004 = map with_tokens Emp004.required

emp004-passed_example : Emp004.Checked.Contract repo_emp004
unfolding Emp004.script is_file coupon_service.Contract.Repo.read
    coupon_service.Contract.Repo.in_text join_strings coupon_service.Contract.Repo.has_prompt_file
    coupon_service.Base.split_on coupon_service.Contract.Repo.is_under
    coupon_service.Contract.Repo.has_suffix
emp004-passed_example = (emp004-passed repo_emp004).0 refl

abbrev repo_emp006 : Repo
repo_emp006 =
    map with_tokens (
      Emp006.Tokens.required
      ++ ("docker-compose.yml", Emp006.loopback ∷ []) ∷ ("pom.xml", Emp006.Tokens.pom_tokens) ∷ [])
    ++ map blank ("docs/api/openapi.yaml" ∷ "docs/project/current-status.md" ∷ [])

emp006-passed_example : Emp006.Checked.Contract repo_emp006
unfolding Emp006.main is_file coupon_service.Contract.Repo.read coupon_service.Contract.Repo.in_text
    join_strings coupon_service.Base.split_on
emp006-passed_example = (emp006-passed repo_emp006).0 refl

abbrev documented : String → String × List String
documented path = (path, "/**" ∷ [])

abbrev repo_emp007 : Repo
repo_emp007 =
    map with_tokens (
      ("docs/project/refinements/EMP-007.md", Emp007.Tokens.refinement_tokens)
      ∷ ("docs/api/openapi.yaml", Emp007.Tokens.openapi_tokens)
      ∷ ("pom.xml", Emp007.Tokens.pom_tokens)
      ∷ ("src/main/resources/application.yml", Emp007.Tokens.application_tokens)
      ∷ (".dockerignore", "!docs/api/openapi.yaml" ∷ [])
      ∷ ("Dockerfile", "COPY docs/api/openapi.yaml docs/api/openapi.yaml" ∷ [])
      ∷ (
        Emp007.java_root <> "/coupon/application/CreateCouponUseCase.java",
        "/**" ∷ Emp007.Tokens.use_case_tokens,
      )
      ∷ (
        Emp007.java_root <> "/coupon/domain/CouponCode.java",
        "/**" ∷ Emp007.Tokens.coupon_code_tokens,
      )
      ∷ (Emp007.documentation_test, Emp007.Tokens.test_tokens)
      ∷ (
        "docs/project/backlog.md",
        "| EMP-007 | EMP-001 | P0 | IN_PROGRESS | EMP-007 |" ∷ Emp007.Tokens.emp004_rows,
      )
      ∷ ("docs/project/current-status.md", Emp007.Tokens.candidate_status)
      ∷ ("README.md", Emp007.Tokens.candidate_readme)
      ∷ map documented Emp007.Tokens.public_contracts)
    ++ map blank Emp007.Tokens.required_files

emp007-passed_example :
    All (λ path. is_file repo_emp007 path ≡ true) Emp007.Tokens.required_files
    × Emp007.Checked.Contract repo_emp007
unfolding Emp007.main is_file coupon_service.Contract.Repo.read coupon_service.Contract.Repo.in_text
    join_strings coupon_service.Base.split_on
emp007-passed_example = (emp007-passed repo_emp007).0 refl

abbrev test_method : String → List String → String
test_method name tokens =
    "\n  @Test\n  void " <> name <> "() {\n" <> join_strings "\n" tokens <> "}\n"

abbrev redemption_example : String
redemption_example =
    join_strings "\n" (Emp009.Tokens.fixture_tokens ++ Emp009.Tokens.cleanup_tokens)
    <> test_method Emp009.Tokens.capacity_test Emp009.Tokens.capacity_tokens
    <> test_method Emp009.Tokens.same_user_test Emp009.Tokens.same_user_tokens
    <> test_method Emp009.Tokens.last_slot_test Emp009.Tokens.last_slot_tokens
    <> test_method Emp009.Tokens.no_global_lock_test Emp009.Tokens.no_global_lock_tokens

abbrev create_example : String
create_example =
    test_method Emp009.Tokens.concurrent_create_test Emp009.Tokens.concurrent_create_tokens

abbrev repo_emp009 : Repo
repo_emp009 =
    (Emp009.redemption_path, text redemption_example)
    ∷ (Emp009.create_path, text create_example)
    ∷ []

emp009-passed_example : Emp009.Checked.Contract repo_emp009
unfolding Emp009.script is_file coupon_service.Contract.Repo.read join_strings
    coupon_service.Base.split_on
emp009-passed_example = (emp009-passed repo_emp009).0 refl

-- The labels stand at the start of a line before the tokens of the first document.
abbrev accepted_example : List String
accepted_example =
    "Stan-Refinementu: ACCEPTED" ∷ "Implementation-Allowed: YES" ∷ "Status: READY"
      ∷ "Coverage-Evidence: MEASURED" ∷ Refinement008.Tokens.accepted_tokens
    ++ Refinement008.Tokens.criteria

abbrev with_accepted : List (String × List String) → List (String × List String)
with_accepted [] = []
with_accepted ((path, tokens) ∷ rest) = (path, accepted_example ++ tokens) ∷ rest

abbrev repo_refinement008 : Repo
repo_refinement008 = map with_tokens (with_accepted Refinement008.Tokens.files)

refinement008-passed_example : Refinement008.Checked.Contract repo_refinement008
unfolding Refinement008.script coupon_service.Contract.Repo.in_text join_strings
    coupon_service.Base.split_on
refinement008-passed_example = (refinement008-passed repo_refinement008).0 refl
