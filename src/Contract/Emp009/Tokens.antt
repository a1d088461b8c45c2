-- ===== src/Contract/Emp009/Tokens.antt =====
-- The evidence that scripts/check_emp009.py requires of the tests.
use coupon_service.Base.{List, [], ◌∷◌, String}

abbrev pub fixture_tokens : List String
fixture_tokens = "@Testcontainers" ∷ "PostgreSQLContainer" ∷ "@ActiveProfiles(\"test\")" ∷ []

abbrev pub capacity_tokens : List String
capacity_tokens =
    "round < 3" ∷ "newFixedThreadPool(100)" ∷ "new CountDownLatch(100)"
    ∷ "Future<ResponseEntity<Map>>" ∷ "COUPON_EXHAUSTED" ∷ "couponExhausted" ∷ "isEqualTo(90)"
    ∷ "otherExpectedBusinessErrors" ∷ "unknownOutcomes" ∷ "isZero()" ∷ "current_uses"
    ∷ "isEqualTo(10)" ∷ "SELECT COUNT(*) FROM coupon_redemptions" ∷ "isEqualTo(10L)"
    ∷ "COUNT(DISTINCT r.user_id)" ∷ []

abbrev pub same_user_tokens : List String
same_user_tokens =
    "for (int index = 0; index < 20; index++)" ∷ "isEqualTo(1)" ∷ "isEqualTo(19)"
    ∷ "COUPON_ALREADY_REDEEMED" ∷ "isEqualTo(1L)" ∷ []

abbrev pub last_slot_tokens : List String
last_slot_tokens =
    "List.of(\"user-A\", \"user-B\")" ∷ "HttpStatus.CREATED" ∷ "HttpStatus.CONFLICT"
    ∷ "COUPON_EXHAUSTED" ∷ "COUNT(*) FROM coupon_redemptions r JOIN coupons c"
    ∷ "r.user_id IN ('user-A', 'user-B')" ∷ "isEqualTo(1L)" ∷ []

abbrev pub no_global_lock_tokens : List String
no_global_lock_tokens =
    "LOCKA' FOR UPDATE" ∷ "CountDownLatch" ∷ "locked.await" ∷ "release.await"
    ∷ "independentRedemption.get" ∷ "HttpStatus.CREATED" ∷ "release.countDown(); holder.get" ∷ []

abbrev pub cleanup_tokens : List String
cleanup_tokens =
    "shutdownNow()" ∷ "awaitTermination(15, TimeUnit.SECONDS)" ∷ "future.get(60, TimeUnit.SECONDS)"
    ∷ []

abbrev pub concurrent_create_tokens : List String
concurrent_create_tokens =
    "CONCURRENT_ATTEMPTS" ∷ "isEqualTo(1)" ∷ "CONCURRENT_ATTEMPTS - 1" ∷ "unexpectedStatuses"
    ∷ "SELECT COUNT(*) FROM coupons" ∷ []

abbrev pub capacity_test : String
capacity_test = "concurrentUsersRespectExactCapacityInThreeRounds"

abbrev pub same_user_test : String
same_user_test = "sameUserConcurrentRetriesProduceExactlyOneSuccessAndNineteenConflicts"

abbrev pub last_slot_test : String
last_slot_test = "twoDifferentUsersCompeteForTheLastSlotWithExactOutcomes"

abbrev pub no_global_lock_test : String
no_global_lock_test = "rowLockOnOneCouponDoesNotGloballySerializeAnotherCoupon"

abbrev pub concurrent_create_test : String
concurrent_create_test = "concurrentCaseVariantsProduceExactlyOneCreatedCoupon"
