-- ===== src/Contract/Emp003.antt =====
-- scripts/check_emp003.py: the static contract of coupon creation.
pub mod Tokens
pub mod Checked
use coupon_service.Base.{
  Bool, true, false, not, ◌&&◌, ◌||◌, List, [], ◌∷◌, String, ◌<>◌, if◌then◌else◌, select, keys,
  any_of,
}
use coupon_service.Contract.Report.{
  Report, Exit, ◌>>◌, ◌>>=◌, nothing, complain, complain_if, for_each, if_clean, error_lines,
  conclude,
}
use coupon_service.Contract.Repo.{
  Repo, is_file, read, in_text, missing_tokens, present_tokens, require_tokens, missing_files,
  has_suffix, is_child, sorted_paths, has_line, join_strings,
}
use coupon_service.Contract.Emp003.Tokens.{
  required_files, refinement_tokens, coupon_code_tokens, country_code_tokens, coupon_tokens,
  service_tokens, repository_tokens, preflight_tokens, controller_tokens, handler_tokens,
  test_tokens, openapi_tokens, candidate_tokens, verified_tokens,
}

abbrev pub java_root : String
java_root = "src/main/java/pl/radoslawpiatek/couponservice"

abbrev pub test_root : String
test_root = "src/test/java/pl/radoslawpiatek/couponservice"

-- messages
abbrev pub repository_missing : String → String
repository_missing token = "JdbcCouponRepository missing token: " <> token

abbrev pub repository_forbidden : String → String
repository_forbidden token =
    "JdbcCouponRepository contains forbidden preflight/dynamic SQL token: " <> token

abbrev pub status_missing : String → String
status_missing token = "current status missing EMP-003 verified token: " <> token

abbrev pub candidate_missing : String → String
candidate_missing token = "current status missing EMP-003 candidate token: " <> token

abbrev pub wrong_state : String
wrong_state = "EMP-003 must be IN_PROGRESS or DONE_AND_VERIFIED with its own refinement"

abbrev pub file_missing : String → String
file_missing path = "missing EMP-003 file: " <> path

abbrev pub audit_missing : String
audit_missing = "AUDIT missing EMP-003 verified evidence"

unfoldable pub validate_refinement : Repo → Report
unfolding require_tokens
validate_refinement repo =
    require_tokens repo "docs/project/refinements/EMP-003.md" refinement_tokens

-- `sorted(domain_dir.glob("*.java"))`
unfoldable pub domain_sources : Repo → List String
unfolding sorted_paths
domain_sources repo = sorted_paths (
    select (λ path. is_child (java_root <> "/coupon/domain") path && has_suffix ".java" path)
      (keys repo))

-- `re.search(r"^import org\.springframework\.", text, re.MULTILINE)`
unfoldable pub no_spring : Repo → String → Report
unfolding complain_if
no_spring repo path = do
  content ← read repo path
  complain_if (has_line "import org.springframework." content) ("domain imports Spring: " <> path)

unfoldable pub validate_domain_boundaries : Repo → Report
unfolding domain_sources no_spring for_each require_tokens
validate_domain_boundaries repo = do
  for_each (domain_sources repo) (no_spring repo)
  require_tokens repo (java_root <> "/coupon/domain/CouponCode.java") coupon_code_tokens
  require_tokens repo (java_root <> "/coupon/domain/CountryCode.java") country_code_tokens
  require_tokens repo (java_root <> "/coupon/domain/Coupon.java") coupon_tokens

abbrev pub repository_path : String
repository_path = java_root <> "/coupon/adapters/persistence/JdbcCouponRepository.java"

unfoldable pub validate_application_and_persistence : Repo → Report
unfolding require_tokens missing_tokens present_tokens
validate_application_and_persistence repo = do
  require_tokens repo (java_root <> "/coupon/application/CreateCouponService.java") service_tokens
  content ← read repo repository_path
  missing_tokens repository_missing repository_tokens content
  present_tokens repository_forbidden preflight_tokens content

unfoldable pub validate_api : Repo → Report
unfolding require_tokens
validate_api repo = do
  require_tokens repo (java_root <> "/coupon/adapters/web/CouponController.java") controller_tokens
  require_tokens repo (java_root <> "/coupon/adapters/web/ApiExceptionHandler.java") handler_tokens

abbrev pub api_test : String
api_test = test_root <> "/coupon/adapters/web/CreateCouponApiIT.java"

unfoldable pub validate_tests : Repo → Report
unfolding require_tokens complain_if
validate_tests repo = do
  require_tokens repo api_test test_tokens
  content ← read repo api_test
  complain_if (in_text "Thread.sleep" content)
      "CreateCouponApiIT must not synchronize with Thread.sleep"

unfoldable pub validate_openapi : Repo → Report
unfolding require_tokens
validate_openapi repo = require_tokens repo "docs/api/openapi.yaml" openapi_tokens

abbrev pub candidate_row : String
candidate_row = "| EMP-003 | EMP-001 | P0 | IN_PROGRESS | EMP-003 |"

abbrev pub verified_row : String
verified_row = "| EMP-003 | EMP-001 | P0 | DONE_AND_VERIFIED | EMP-003 |"

-- `verified_readme_groups`: a label, and alternatives of which one has to stand in README.md
abbrev pub readme_groups : List (String × List String)
readme_groups =
    (
      "EMP-003 verified status",
      "EMP-003:** `DONE_AND_VERIFIED`" ∷ "EMP-000–EMP-003:** `DONE_AND_VERIFIED`" ∷ [],
    )
    ∷ ("create endpoint", "POST /api/v1/coupons" ∷ [])
    ∷ ("verified scope heading", "Zweryfikowany zakres EMP-003" ∷ [])
    ∷ []

abbrev pub audit_evidence : String
audit_evidence =
    "EMP-003 został zamknięty jako `DONE_AND_VERIFIED` dopiero po pełnym lokalnym `make verify`, runtime HTTP i exact-count concurrency test."

abbrev pub has_any : String → List String → Bool
has_any content = any_of (λ token. in_text token content)

unfoldable pub readme_group : String → String × List String → Report
unfolding complain_if
readme_group readme (label, alternatives) = complain_if (not (has_any readme alternatives)) (
    "README missing EMP-003 verified public-status evidence ("
    <> label
    <> "): "
    <> join_strings " or " alternatives)

-- the branch `elif verified_row in backlog`
unfoldable pub verified_state : Repo → String → Report
unfolding missing_tokens for_each readme_group complain_if
verified_state repo status = do
  missing_tokens status_missing verified_tokens status
  readme ← read repo "README.md"
  audit ← read repo "AUDIT.md"
  for_each readme_groups (readme_group readme)
  complain_if (not (in_text audit_evidence audit)) audit_missing

unfoldable pub validate_project_state : Repo → Report
unfolding missing_tokens verified_state
validate_project_state repo = do
  backlog ← read repo "docs/project/backlog.md"
  status ← read repo "docs/project/current-status.md"
  if in_text candidate_row backlog
      then missing_tokens candidate_missing candidate_tokens status
      else if in_text verified_row backlog
      then verified_state repo status
      else complain wrong_state

unfoldable pub validate_all : Repo → Report
unfolding validate_refinement validate_domain_boundaries validate_application_and_persistence
    validate_api validate_tests validate_openapi validate_project_state
validate_all repo = do
  validate_refinement repo
  validate_domain_boundaries repo
  validate_application_and_persistence repo
  validate_api repo
  validate_tests repo
  validate_openapi repo
  validate_project_state repo

abbrev pub success : String
success = "SUCCESS: EMP-003 static create-coupon contract valid"

unfoldable pub main : Repo → Exit
unfolding missing_files if_clean validate_all conclude
main repo =
    conclude error_lines success
      (if_clean (missing_files file_missing repo required_files) (validate_all repo))
