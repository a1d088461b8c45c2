-- ===== src/Contract/Emp009.antt =====
-- scripts/check_emp009.py: the evidence of the concurrency tests.
pub mod Tokens
pub mod Method
pub mod Checked
use coupon_service.Base.{
  ℕ, ◌-◌, Bool, true, false, not, ◌&&◌, ◌||◌, Option, none, some, List, [], ◌∷◌, ◌++◌, ◌==◌, String,
  ◌<>◌, if◌then◌else◌, Text, codes, occurs, starts_with, is_space, lstrip, length, take,
}
use coupon_service.Contract.Report.{
  Report, Exit, ◌>>◌, ◌>>=◌, nothing, complain, complain_if, for_each, error_lines, conclude,
}
use coupon_service.Contract.Repo.{Repo, is_file, read, has_prompt_file}
use coupon_service.Contract.Emp009.Method.{method}
use coupon_service.Contract.Emp009.Tokens.{
  fixture_tokens, capacity_tokens, same_user_tokens, last_slot_tokens, no_global_lock_tokens,
  cleanup_tokens, concurrent_create_tokens, capacity_test, same_user_test, last_slot_test,
  no_global_lock_test, concurrent_create_test,
}

-- `token in section`
unfoldable pub in_section : String → Text → Bool
unfolding occurs
in_section token section = occurs (codes token) section

abbrev pub lacking : String → String → String
lacking label token = label <> " missing required evidence: " <> token

-- `require(section, label, *tokens)`
unfoldable pub require : Text → String → List String → Report
unfolding for_each complain_if in_section
require section label tokens =
    for_each tokens (λ token. complain_if (not (in_section token section)) (lacking label token))

-- the `except` clause, or the rest of the `try` block
abbrev pub on_method : String → Option Text → (Text → Report) → Report
on_method name none k = complain ("missing test method " <> name)
on_method name (some section) k = k section

abbrev pub with_method : Text → String → (Text → Report) → Report
with_method source name k = on_method name (method source (codes name)) k

abbrev pub test_root : String
test_root = "src/test/java/pl/radoslawpiatek/couponservice/coupon/adapters/web"

abbrev pub redemption_path : String
redemption_path = test_root <> "/CouponRedemptionApiIT.java"

abbrev pub create_path : String
create_path = test_root <> "/CreateCouponApiIT.java"

abbrev pub exhausted_accepted : String
exhausted_accepted = "same-user evidence must not classify exhausted outcomes as accepted"

abbrev pub redeemed_accepted : String
redeemed_accepted = "last-slot evidence must not accept already-redeemed outcomes"

unfoldable pub same_user : Text → Report
unfolding require complain_if
same_user section = do
  require section "same-user" same_user_tokens
  complain_if (in_section "COUPON_EXHAUSTED" section) exhausted_accepted

unfoldable pub last_slot : Text → Report
unfolding require complain_if
last_slot section = do
  require section "last-slot" last_slot_tokens
  complain_if (in_section "COUPON_ALREADY_REDEEMED" section) redeemed_accepted

-- the branch in which both tests are there
unfoldable pub evidence : Text → Text → Report
unfolding complain_if require method same_user last_slot
evidence redemption create = do
  complain_if (in_section "Thread.sleep" redemption || in_section "Thread.sleep" create)
      "Thread.sleep is forbidden in EMP-009 evidence"
  require redemption "redemption test fixture" fixture_tokens
  with_method redemption capacity_test (λ section. require section "100/10" capacity_tokens)
  with_method redemption same_user_test same_user
  with_method redemption last_slot_test last_slot
  with_method redemption no_global_lock_test
      (λ section. require section "no-global-lock" no_global_lock_tokens)
  require redemption "executor cleanup" cleanup_tokens
  with_method create concurrent_create_test
      (λ section. require section "concurrent create" concurrent_create_tokens)

unfoldable pub read_evidence : Repo → Report
unfolding evidence
read_evidence repo = do
  redemption ← read repo redemption_path
  create ← read repo create_path
  evidence (codes redemption) (codes create)

abbrev pub source_missing : String
source_missing = "missing concurrency integration-test source"

unfoldable pub errors : Repo → Report
unfolding read_evidence complain_if has_prompt_file
errors repo = do
  if is_file repo redemption_path && is_file repo create_path
      then read_evidence repo
      else complain source_missing
  complain_if (has_prompt_file repo) "forbidden CODEX_PROMPT.md"

abbrev pub success : String
success = "SUCCESS: EMP-009 deterministic concurrency evidence implementation contract valid"

unfoldable pub script : Repo → Exit
unfolding errors conclude
script repo = conclude error_lines success (errors repo)
