-- ===== src/Contract/Emp007/Tokens.antt =====
-- The constants of scripts/check_emp007.py: the files it requires, and the tokens that it looks for.
use coupon_service.Base.{List, [], ◌∷◌, String}

abbrev pub required_files : List String
required_files =
    "docs/project/refinements/EMP-007.md" ∷ "docs/project/refinements/EMP-007-summary.md"
    ∷ "docs/project/refinements/EMP-007-review-checklist.md" ∷ "docs/api/openapi.yaml"
    ∷ "src/test/java/pl/radoslawpiatek/couponservice/OpenApiDocumentationIT.java" ∷ []

abbrev pub refinement_tokens : List String
refinement_tokens =
    "Task-ID: EMP-007" ∷ "Stan-Refinementu: ACCEPTED" ∷ "Implementation-Allowed: YES"
    ∷ "Scope-Frozen: YES" ∷ "### Blokujące\n\nBrak." ∷ "EMP007-AC-14" ∷ "make verify" ∷ []

abbrev pub openapi_tokens : List String
openapi_tokens =
    "openapi: 3.1.0" ∷ "/api/v1/coupons:" ∷ "operationId: createCoupon" ∷ "polishSpringCampaign:"
    ∷ "application/problem+json" ∷ "COUPON_CODE_CONFLICT" ∷ []

abbrev pub pom_tokens : List String
pom_tokens =
    "<springdoc-openapi.version>2.9.0</springdoc-openapi.version>"
    ∷ "<artifactId>springdoc-openapi-starter-webmvc-ui</artifactId>"
    ∷ "<maven-javadoc-plugin.version>3.12.0</maven-javadoc-plugin.version>"
    ∷ "<artifactId>maven-javadoc-plugin</artifactId>" ∷ "<doclint>all</doclint>"
    ∷ "<directory>docs/api</directory>" ∷ "<targetPath>static</targetPath>" ∷ []

abbrev pub application_tokens : List String
application_tokens =
    "springdoc:" ∷ "path: /swagger-ui" ∷ "url: /openapi.yaml" ∷ "disable-swagger-default-url: true"
    ∷ "try-it-out-enabled: true" ∷ []

abbrev pub public_contracts : List String
public_contracts =
    "src/main/java/pl/radoslawpiatek/couponservice/coupon/domain/CouponCode.java"
    ∷ "src/main/java/pl/radoslawpiatek/couponservice/coupon/domain/CountryCode.java"
    ∷ "src/main/java/pl/radoslawpiatek/couponservice/coupon/domain/Coupon.java"
    ∷ "src/main/java/pl/radoslawpiatek/couponservice/coupon/application/CreateCouponCommand.java"
    ∷ "src/main/java/pl/radoslawpiatek/couponservice/coupon/application/CreateCouponUseCase.java"
    ∷ "src/main/java/pl/radoslawpiatek/couponservice/coupon/ports/CouponRepository.java"
    ∷ "src/main/java/pl/radoslawpiatek/couponservice/coupon/ports/UuidGenerator.java"
    ∷ "src/main/java/pl/radoslawpiatek/couponservice/coupon/adapters/web/CreateCouponRequest.java"
    ∷ "src/main/java/pl/radoslawpiatek/couponservice/coupon/adapters/web/CouponResponse.java"
    ∷ "src/main/java/pl/radoslawpiatek/couponservice/coupon/adapters/web/CouponController.java" ∷ []

abbrev pub use_case_tokens : List String
use_case_tokens = "@param command" ∷ "@return" ∷ "@throws" ∷ []

abbrev pub coupon_code_tokens : List String
coupon_code_tokens = "canonical" ∷ "@param rawValue" ∷ "@return" ∷ []

abbrev pub test_tokens : List String
test_tokens =
    "@Testcontainers" ∷ "postgres:18.4-alpine" ∷ "getForEntity(\"/openapi.yaml\""
    ∷ "getForEntity(\"/swagger-ui/index.html\"" ∷ "\"/v3/api-docs/swagger-config\""
    ∷ "containsEntry(\"url\", \"/openapi.yaml\")" ∷ "contains(\"operationId: redeemCoupon\")" ∷ []

abbrev pub emp004_rows : List String
emp004_rows =
    "| EMP-004 | EMP-001 | P0 | BLOCKED | EMP-001 |"
    ∷ "| EMP-004 | EMP-001 | P0 | REFINEMENT | EMP-004 |"
    ∷ "| EMP-004 | EMP-001 | P0 | READY | EMP-004 |"
    ∷ "| EMP-004 | EMP-001 | P0 | IN_PROGRESS | EMP-004 |"
    ∷ "| EMP-004 | EMP-001 | P0 | DONE_AND_VERIFIED | EMP-004 |" ∷ []

abbrev pub candidate_status : List String
candidate_status = "OPENAPI_DOCUMENTATION_CANDIDATE" ∷ "PENDING_LOCAL_EMP007_GATE" ∷ []

abbrev pub candidate_readme : List String
candidate_readme = "0.0.8-emp-007-candidate" ∷ []

abbrev pub verified_status : List String
verified_status =
    "OPENAPI_DOCUMENTATION_DONE_AND_VERIFIED" ∷ "LOCAL_EMP007_GATE_PASS"
    ∷ "Javadoc/DocLint policy:** `ACTIVE_AND_VERIFIED`" ∷ []

abbrev pub verified_readme : List String
verified_readme =
    "EMP-007:** `DONE_AND_VERIFIED`" ∷ "OpenAPI/Swagger UI:** `DONE_AND_VERIFIED`" ∷ []

abbrev pub release_tokens : List String
release_tokens =
    "0.0.9-emp-007-verified" ∷ "OpenApiDocumentationIT" ∷ "DocLint" ∷ "/openapi.yaml" ∷ []

abbrev pub emp006_rows : List String
emp006_rows =
    "| EMP-006 | EMP-001 | P0 | REFINEMENT | EMP-006 |"
    ∷ "| EMP-006 | EMP-001 | P0 | READY | EMP-006 |"
    ∷ "| EMP-006 | EMP-001 | P0 | IN_PROGRESS | EMP-006 |"
    ∷ "| EMP-006 | EMP-001 | P0 | DONE_AND_VERIFIED | EMP-006 |" ∷ []
