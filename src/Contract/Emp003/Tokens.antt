-- ===== src/Contract/Emp003/Tokens.antt =====
-- The constants of scripts/check_emp003.py: the files it requires, and the tokens that it looks for.
use coupon_service.Base.{List, [], ◌∷◌, String}

abbrev pub required_files : List String
required_files =
    "docs/project/refinements/EMP-003.md" ∷ "docs/project/refinements/EMP-003-summary.md"
    ∷ "docs/project/refinements/EMP-003-review-checklist.md" ∷ "docs/api/openapi.yaml"
    ∷ "src/main/java/pl/radoslawpiatek/couponservice/coupon/domain/CouponCode.java"
    ∷ "src/main/java/pl/radoslawpiatek/couponservice/coupon/domain/CountryCode.java"
    ∷ "src/main/java/pl/radoslawpiatek/couponservice/coupon/domain/Coupon.java"
    ∷ "src/main/java/pl/radoslawpiatek/couponservice/coupon/domain/InvalidCouponValueException.java"
    ∷ "src/main/java/pl/radoslawpiatek/couponservice/coupon/domain/CouponCodeConflictException.java"
    ∷ "src/main/java/pl/radoslawpiatek/couponservice/coupon/application/CreateCouponCommand.java"
    ∷ "src/main/java/pl/radoslawpiatek/couponservice/coupon/application/CreateCouponUseCase.java"
    ∷ "src/main/java/pl/radoslawpiatek/couponservice/coupon/application/CreateCouponService.java"
    ∷ "src/main/java/pl/radoslawpiatek/couponservice/coupon/ports/CouponRepository.java"
    ∷ "src/main/java/pl/radoslawpiatek/couponservice/coupon/ports/UuidGenerator.java"
    ∷ "src/main/java/pl/radoslawpiatek/couponservice/coupon/adapters/persistence/JdbcCouponRepository.java"
    ∷ "src/main/java/pl/radoslawpiatek/couponservice/coupon/adapters/web/CreateCouponRequest.java"
    ∷ "src/main/java/pl/radoslawpiatek/couponservice/coupon/adapters/web/CouponResponse.java"
    ∷ "src/main/java/pl/radoslawpiatek/couponservice/coupon/adapters/web/CouponController.java"
    ∷ "src/main/java/pl/radoslawpiatek/couponservice/coupon/adapters/web/ApiExceptionHandler.java"
    ∷ "src/main/java/pl/radoslawpiatek/couponservice/configuration/CoreConfiguration.java"
    ∷ "src/test/java/pl/radoslawpiatek/couponservice/coupon/domain/CouponCodeTest.java"
    ∷ "src/test/java/pl/radoslawpiatek/couponservice/coupon/domain/CountryCodeTest.java"
    ∷ "src/test/java/pl/radoslawpiatek/couponservice/coupon/application/CreateCouponServiceTest.java"
    ∷ "src/test/java/pl/radoslawpiatek/couponservice/coupon/adapters/web/CreateCouponApiIT.java"
    ∷ []

abbrev pub refinement_tokens : List String
refinement_tokens =
    "Task-ID: EMP-003" ∷ "Stan-Refinementu: ACCEPTED" ∷ "Implementation-Allowed: YES"
    ∷ "Scope-Frozen: YES" ∷ "### Blokujące\n\nBrak." ∷ "EMP003-AC-06" ∷ "make verify" ∷ []

abbrev pub coupon_code_tokens : List String
coupon_code_tokens = "trim()" ∷ "toUpperCase(Locale.ROOT)" ∷ "[A-Za-z0-9_-]{3,64}" ∷ []

abbrev pub country_code_tokens : List String
country_code_tokens = "Locale.getISOCountries()" ∷ "toUpperCase(Locale.ROOT)" ∷ []

abbrev pub coupon_tokens : List String
coupon_tokens =
    "currentUses" ∷ "1_000_000" ∷ "return new Coupon(id, code, createdAt, maxUses, 0, countryCode)"
    ∷ []

abbrev pub service_tokens : List String
service_tokens =
    "@Transactional" ∷ "UuidGenerator" ∷ "Clock" ∷ "couponRepository.insert(coupon)" ∷ []

abbrev pub repository_tokens : List String
repository_tokens =
    "INSERT INTO coupons" ∷ ":normalizedCode" ∷ "POSTGRES_UNIQUE_VIOLATION = \"23505\""
    ∷ "CouponCodeConflictException" ∷ ".param(\"code\"" ∷ []

abbrev pub preflight_tokens : List String
preflight_tokens = "existsByCode" ∷ "SELECT COUNT" ∷ "SELECT 1" ∷ "String.format(" ∷ []

abbrev pub controller_tokens : List String
controller_tokens =
    "@RequestMapping(\"/api/v1/coupons\")" ∷ "@PostMapping" ∷ "@ResponseStatus(HttpStatus.CREATED)"
    ∷ "@Valid @RequestBody" ∷ []

abbrev pub handler_tokens : List String
handler_tokens =
    "MediaType.APPLICATION_PROBLEM_JSON" ∷ "\"INVALID_REQUEST\"" ∷ "\"COUPON_CODE_CONFLICT\""
    ∷ "\"INTERNAL_ERROR\"" ∷ "\"urn:problem:coupon-code-conflict\"" ∷ []

abbrev pub test_tokens : List String
test_tokens =
    "@Testcontainers" ∷ "org.testcontainers.postgresql.PostgreSQLContainer" ∷ "postgres:18.4-alpine"
    ∷ "concurrentCaseVariantsProduceExactlyOneCreatedCoupon" ∷ "CountDownLatch"
    ∷ "Executors.newFixedThreadPool" ∷ "CONCURRENT_ATTEMPTS - 1"
    ∷ "assertThat(result.created()).isEqualTo(1)" ∷ "assertThat(persisted).isEqualTo(1L)"
    ∷ "executor.shutdownNow()" ∷ []

abbrev pub openapi_tokens : List String
openapi_tokens =
    "openapi: 3.1.0" ∷ "/api/v1/coupons:" ∷ "operationId: createCoupon" ∷ "CreateCouponRequest"
    ∷ "CouponResponse" ∷ "application/problem+json" ∷ "COUPON_CODE_CONFLICT" ∷ []

abbrev pub candidate_tokens : List String
candidate_tokens =
    "CREATE_COUPON_CANDIDATE" ∷ "CREATE_COUPON_IMPLEMENTED_PENDING_LOCAL_GATE"
    ∷ "PENDING_LOCAL_DOCKER_GATE" ∷ []

abbrev pub verified_tokens : List String
verified_tokens = "CREATE_COUPON_DONE_AND_VERIFIED" ∷ "LOCAL_EMP003_GATE_PASS" ∷ []
