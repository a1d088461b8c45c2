-- ===== src/Contract/Emp004.antt =====
-- scripts/check_emp004.py: the redemption of coupons is there as source and tests.
pub mod Checked
use coupon_service.Base.{
  Bool, true, false, not, ◌&&◌, List, [], ◌∷◌, String, ◌<>◌, if◌then◌else◌, Dict, select, keys,
}
use coupon_service.Contract.Report.{
  Report, Exit, ◌>>◌, ◌>>=◌, complain, complain_if, for_each, error_lines, conclude,
}
use coupon_service.Contract.Repo.{
  Repo, is_file, read, in_text, missing_tokens, has_prompt_file, has_suffix, is_under,
}

-- the tokens that each file has to contain
abbrev pub required : Dict String (List String)
required =
    (
      "src/main/resources/db/migration/V2__enforce_redemption_user_id.sql",
      "ck_coupon_redemptions_user_id_visible_ascii" ∷ "^[!-~]{1,128}$" ∷ [],
    )
    ∷ (
      "src/main/java/pl/radoslawpiatek/couponservice/coupon/application/RedeemCouponService.java",
      "findSnapshot" ∷ "clientIpResolver.resolve" ∷ "geoLocationResolver.resolve"
          ∷ "transaction.redeem" ∷ [],
    )
    ∷ (
      "src/main/java/pl/radoslawpiatek/couponservice/coupon/application/TransactionalCouponRedemptionService.java",
      "@Transactional" ∷ "Isolation.READ_COMMITTED" ∷ "findForUpdate" ∷ "incrementIfCapacity" ∷ [],
    )
    ∷ (
      "src/main/java/pl/radoslawpiatek/couponservice/coupon/adapters/persistence/JdbcCouponRedemptionRepository.java",
      "FOR UPDATE" ∷ "uq_coupon_redemptions_coupon_user" ∷ "current_uses < max_uses"
          ∷ "RETURNING current_uses" ∷ [],
    )
    ∷ (
      "src/main/java/pl/radoslawpiatek/couponservice/coupon/adapters/web/RedeemCouponRequest.java",
      "^[!-~]{1,128}$" ∷ [],
    )
    ∷ (
      "src/test/java/pl/radoslawpiatek/couponservice/coupon/domain/UserIdTest.java",
      "auth0|123" ∷ "tenant/user+external" ∷ "customer@example.com" ∷ "urn:customer:123"
          ∷ "customer-A" ∷ "customer-a" ∷ [],
    )
    ∷ (
      "src/test/java/pl/radoslawpiatek/couponservice/coupon/application/RedeemCouponServiceTest.java",
      "InOrder" ∷ "notFoundStopsBeforeClientIpGeoIpAndTransaction"
          ∷ "geoIpFailureStopsBeforeTransaction" ∷ "wrongCountryStopsBeforeTransaction" ∷ [],
    )
    ∷ (
      "src/test/java/pl/radoslawpiatek/couponservice/coupon/adapters/web/CouponRedemptionApiIT.java",
      "COUPON_ALREADY_REDEEMED" ∷ "COUPON_EXHAUSTED"
          ∷ "sameUserConcurrentRetriesProduceExactlyOneSuccessAndNineteenConflicts"
          ∷ "twoDifferentUsersCompeteForTheLastSlotWithExactOutcomes"
          ∷ "rowLockOnOneCouponDoesNotGloballySerializeAnotherCoupon" ∷ "CountDownLatch"
          ∷ "FOR UPDATE" ∷ "shutdownNow" ∷ [],
    )
    ∷ (
      "src/test/java/pl/radoslawpiatek/couponservice/coupon/adapters/web/CouponRedemptionErrorApiIT.java",
      "COUNTRY_NOT_ALLOWED" ∷ "GEOLOCATION_UNAVAILABLE" ∷ "MockBean" ∷ "assertInvariant" ∷ [],
    )
    ∷ (
      "src/test/java/pl/radoslawpiatek/couponservice/coupon/adapters/web/CouponRedemptionRollbackIT.java",
      "fail_redemption_insert_test" ∷ "fail_coupon_update_test" ∷ "uq_test_redemption_country"
          ∷ "INTERNAL_ERROR" ∷ "dropTestObjects" ∷ [],
    )
    ∷ (
      "docs/api/openapi.yaml",
      "operationId: redeemCoupon" ∷ "COUPON_ALREADY_REDEEMED" ∷ "^[!-~]{1,128}$" ∷ [],
    )
    ∷ []

-- the body of the first loop
unfoldable pub check_file : Repo → String × List String → Report
unfolding missing_tokens
check_file repo (name, tokens) =
    if not (is_file repo name) then complain ("missing " <> name) else (do
      content ← read repo name
      missing_tokens (λ token. name <> " missing " <> token) tokens content)

-- `(ROOT / "src/test/java").rglob("*.java")`
unfoldable pub java_tests : Repo → List String
java_tests repo =
    select (λ path. is_under "src/test/java" path && has_suffix ".java" path) (keys repo)

unfoldable pub no_sleep : Repo → String → Report
unfolding complain_if
no_sleep repo path = do
  content ← read repo path
  complain_if (in_text "Thread.sleep" content) ("forbidden Thread.sleep in " <> path)

unfoldable pub errors : Repo → Report
unfolding for_each check_file complain_if java_tests no_sleep
errors repo = do
  for_each required (check_file repo)
  complain_if (has_prompt_file repo) "forbidden CODEX_PROMPT.md"
  for_each (java_tests repo) (no_sleep repo)

abbrev pub success : String
success = "SUCCESS: EMP-004 transactional redemption implementation contract valid"

unfoldable pub script : Repo → Exit
unfolding errors conclude
script repo = conclude error_lines success (errors repo)
