-- ===== src/Contract/Emp007.antt =====
-- scripts/check_emp007.py: the contract of the OpenAPI document, Swagger UI and Javadoc.
pub mod Tokens
pub mod Checked
use coupon_service.Base.{
  Bool, true, false, not, ◌&&◌, ◌||◌, List, [], ◌∷◌, String, ◌<>◌, if◌then◌else◌, select, keys,
  any_of,
}
use coupon_service.Contract.Emp006.{describes_redemption, implementation_started}
use coupon_service.Contract.Report.{
  Report, Exit, ◌>>◌, ◌>>=◌, nothing, complain_if, complain, for_each, if_clean, error_lines,
  conclude,
}
use coupon_service.Contract.Repo.{
  Repo, read, in_text, missing_tokens, require_tokens, missing_files, is_named, sorted_paths,
}
use coupon_service.Contract.Emp007.Tokens.{
  required_files, refinement_tokens, openapi_tokens, pom_tokens, application_tokens,
  public_contracts, use_case_tokens, coupon_code_tokens, test_tokens, emp004_rows, candidate_status,
  candidate_readme, verified_status, verified_readme, release_tokens, emp006_rows,
}

abbrev pub file_missing : String → String
file_missing path = "missing EMP-007 file: " <> path

abbrev pub pom_lacking : String → String
pom_lacking token = "pom.xml missing EMP-007 token: " <> token

abbrev pub status_lacking : String → String
status_lacking token = "current status missing EMP-007 state token: " <> token

abbrev pub readme_lacking : String → String
readme_lacking token = "README missing EMP-007 state token: " <> token

abbrev pub release_lacking : String → String
release_lacking token = "release history missing verified EMP-007 evidence: " <> token

abbrev pub too_early : String
too_early = "OpenAPI must not describe redemption before EMP-004 implementation starts"

abbrev pub emp004_unknown : String
emp004_unknown = "backlog must keep EMP-004 in a governance-recognized state"

abbrev pub emp007_unknown : String
emp007_unknown = "backlog must expose EMP-007 candidate or verified state"

abbrev pub emp006_unknown : String
emp006_unknown = "verified EMP-007 requires EMP-006 to reference its own refinement"

unfoldable pub validate_refinement : Repo → Report
unfolding require_tokens
validate_refinement repo =
    require_tokens repo "docs/project/refinements/EMP-007.md" refinement_tokens

unfoldable pub validate_openapi : Repo → Report
unfolding require_tokens complain_if
validate_openapi repo = do
  require_tokens repo "docs/api/openapi.yaml" openapi_tokens
  openapi ← read repo "docs/api/openapi.yaml"
  status ← read repo "docs/project/current-status.md"
  complain_if (describes_redemption openapi && not (implementation_started status)) too_early

unfoldable pub validate_runtime_wiring : Repo → Report
unfolding require_tokens missing_tokens
validate_runtime_wiring repo = do
  pom ← read repo "pom.xml"
  missing_tokens pom_lacking pom_tokens pom
  require_tokens repo "src/main/resources/application.yml" application_tokens
  require_tokens repo ".dockerignore" ("!docs/api/openapi.yaml" ∷ [])
  require_tokens repo "Dockerfile" ("COPY docs/api/openapi.yaml docs/api/openapi.yaml" ∷ [])

unfoldable pub has_javadoc : Repo → String → Report
unfolding complain_if
has_javadoc repo path = do
  content ← read repo path
  complain_if (not (in_text "/**" content)) ("public contract lacks Javadoc: " <> path)

abbrev pub java_root : String
java_root = "src/main/java/pl/radoslawpiatek/couponservice"

unfoldable pub validate_javadocs : Repo → Report
unfolding for_each has_javadoc require_tokens
validate_javadocs repo = do
  for_each public_contracts (has_javadoc repo)
  require_tokens repo (java_root <> "/coupon/application/CreateCouponUseCase.java") use_case_tokens
  require_tokens repo (java_root <> "/coupon/domain/CouponCode.java") coupon_code_tokens

abbrev pub documentation_test : String
documentation_test = "src/test/java/pl/radoslawpiatek/couponservice/OpenApiDocumentationIT.java"

unfoldable pub validate_tests : Repo → Report
unfolding require_tokens
validate_tests repo = require_tokens repo documentation_test test_tokens

abbrev pub has_row : String → List String → Bool
has_row backlog = any_of (λ row. in_text row backlog)

abbrev pub is_verified : String → Bool
is_verified backlog = in_text "| EMP-007 | EMP-001 | P0 | DONE_AND_VERIFIED | EMP-007 |" backlog

abbrev pub is_candidate : String → Bool
is_candidate backlog = in_text "| EMP-007 | EMP-001 | P0 | IN_PROGRESS | EMP-007 |" backlog

-- the reading of the release history, in the branch of a task that is no candidate
unfoldable pub release_evidence : Repo → Report
unfolding missing_tokens
release_evidence repo = do
  history ← read repo "docs/project/release-history.md"
  missing_tokens release_lacking release_tokens history

-- `required_status` and `required_readme` of the branch taken
abbrev pub required_status : Bool → List String
required_status candidate = if candidate then candidate_status else verified_status

abbrev pub required_readme : Bool → List String
required_readme candidate = if candidate then candidate_readme else verified_readme

unfoldable pub validate_project_state : Repo → Report
unfolding complain_if release_evidence missing_tokens
validate_project_state repo = do
  backlog ← read repo "docs/project/backlog.md"
  status ← read repo "docs/project/current-status.md"
  readme ← read repo "README.md"
  complain_if (not (has_row backlog emp004_rows)) emp004_unknown
  complain_if (not (is_candidate backlog || is_verified backlog)) emp007_unknown
  if is_candidate backlog then nothing else release_evidence repo
  missing_tokens status_lacking (required_status (is_candidate backlog)) status
  missing_tokens readme_lacking (required_readme (is_candidate backlog)) readme
  if is_verified backlog
      then complain_if (not (has_row backlog emp006_rows)) emp006_unknown
      else nothing

-- `sorted(ROOT.rglob("CODEX_PROMPT.md"))`
unfoldable pub prompt_files : Repo → List String
unfolding sorted_paths is_named
prompt_files repo = sorted_paths (select (is_named "CODEX_PROMPT.md") (keys repo))

abbrev pub prompt_found : String → Report
prompt_found path = complain ("forbidden Codex prompt file in repository: " <> path)

unfoldable pub validate_no_prompt_file : Repo → Report
unfolding for_each prompt_files
validate_no_prompt_file repo = for_each (prompt_files repo) prompt_found

unfoldable pub validate_all : Repo → Report
unfolding validate_refinement validate_openapi validate_runtime_wiring validate_javadocs
    validate_tests validate_project_state validate_no_prompt_file
validate_all repo = do
  validate_refinement repo
  validate_openapi repo
  validate_runtime_wiring repo
  validate_javadocs repo
  validate_tests repo
  validate_project_state repo
  validate_no_prompt_file repo

abbrev pub success : String
success = "SUCCESS: EMP-007 static OpenAPI and Javadoc contract valid"

unfoldable pub main : Repo → Exit
unfolding missing_files if_clean validate_all conclude
main repo =
    conclude error_lines success
      (if_clean (missing_files file_missing repo required_files) (validate_all repo))
