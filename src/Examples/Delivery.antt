-- ===== src/Examples/Delivery.antt =====
-- A repository that meets the static contract of scripts/check_emp010.py, and a run of the delivery check.
use coupon_service.Base.{◌≡◌, refl, true, some, List, [], ◌∷◌, String, ◌<>◌, Text, codes, text_beq}
use coupon_service.Base.Int.{pos}
use coupon_service.Contract.Emp010.Checked.{Static}
use coupon_service.Contract.Repo.{Repo, Item, join_strings}
use coupon_service.Delivery.{Zip, Export, Commands, Candidate, main}
use coupon_service.Delivery.Evidence.{
  Delivered, CandidateDelivered, delivery_check-done, emp010-passed,
}

-- lines of a file
abbrev lines_example : List String → Item
lines_example lines = Item.text (join_strings "\n" lines)

abbrev emp010_example : Repo
emp010_example =
    (
      ".github/workflows/ci.yml",
      lines_example (
          "pull_request:" ∷ "workflow_dispatch:" ∷ "branches: [main]" ∷ "runs-on: ubuntu-24.04"
          ∷ "timeout-minutes: 30" ∷ "permissions:\n  contents: read" ∷ "persist-credentials: false"
          ∷ "distribution: temurin" ∷ "java-version: '21'" ∷ "DOCKER=docker make verify"
          ∷ "make delivery-check" ∷ "git diff --exit-code" ∷ "cancel-in-progress: true"
          ∷ "- uses: actions/checkout@3d3c42e5aac5ba805825da76410c181273ba90b1"
          ∷ "- uses: actions/setup-java@b6effb05e454b25005698d916606bdc6ffcbf961" ∷ []),
    )
    ∷ (
      "Dockerfile",
      lines_example (
          "eclipse-temurin:21-jdk-jammy@sha256:55fb9bf738f5d9b4a6c01b39337e3070d3e27370dd3c478fd1d5d3cd2233c6d8"
          ∷ "eclipse-temurin:21-jre-jammy@sha256:3097cbbebb7d490494a98aed2301f284b38f79eba158eef098c6fc8c8af11c23"
          ∷ []),
    )
    ∷ (
      "pom.xml",
      lines_example (
          "<dependency>\n<groupId>io.micrometer</groupId>\n<artifactId>micrometer-registry-prometheus</artifactId>\n</dependency>"
          ∷ []),
    )
    ∷ (
      "src/main/resources/application.yml",
      lines_example ("include: health,info,prometheus" ∷ "show-details: never" ∷ []),
    )
    ∷ ("docker-compose.yml", lines_example ("LOGGING_STRUCTURED_FORMAT_CONSOLE: logstash" ∷ []))
    ∷ (
      "src/main/java/pl/radoslawpiatek/couponservice/observability/web/RequestIdFilter.java",
      lines_example (
          "X-Request-Id" ∷ "^[A-Za-z0-9][A-Za-z0-9._-]{0,63}$" ∷ "MDC.put" ∷ "MDC.remove"
          ∷ "finally" ∷ []),
    )
    ∷ (
      "src/main/java/pl/radoslawpiatek/couponservice/observability/CouponServiceMetrics.java",
      lines_example (
          ("\"" <> "coupon.create" <> "\"")
          ∷ ("\"" <> "coupon.redemption" <> "\"")
          ∷ ("\"" <> "client.ip.resolution" <> "\"")
          ∷ ("\"" <> "geolocation.resolution" <> "\"")
          ∷ ("\"" <> "geolocation.provider" <> "\"")
          ∷ ("\"" <> "coupon.redemption.transaction" <> "\"")
          ∷ ("\"" <> "success" <> "\"")
          ∷ ("\"" <> "conflict" <> "\"")
          ∷ ("\"" <> "not_found" <> "\"")
          ∷ ("\"" <> "country_not_allowed" <> "\"")
          ∷ ("\"" <> "already_redeemed" <> "\"")
          ∷ ("\"" <> "exhausted" <> "\"")
          ∷ ("\"" <> "geolocation_unavailable" <> "\"")
          ∷ ("\"" <> "internal_error" <> "\"")
          ∷ ("\"" <> "direct" <> "\"")
          ∷ ("\"" <> "forwarded" <> "\"")
          ∷ ("\"" <> "x_forwarded_for" <> "\"")
          ∷ ("\"" <> "failure" <> "\"")
          ∷ ("\"" <> "ipwhois" <> "\"")
          ∷ ("\"" <> "stub" <> "\"")
          ∷ ("\"" <> "timeout" <> "\"")
          ∷ ("\"" <> "rate_limited" <> "\"")
          ∷ ("\"" <> "provider_error" <> "\"")
          ∷ ("\"" <> "invalid_response" <> "\"")
          ∷ ("\"" <> "non_public_ip" <> "\"")
          ∷ ("\"" <> "database_error" <> "\"")
          ∷ []),
    )
    ∷ (
      "src/main/java/pl/radoslawpiatek/couponservice/coupon/application/CreateCouponService.java",
      lines_example ("recordCreate" ∷ "CreateOutcome.CONFLICT" ∷ []),
    )
    ∷ (
      "src/main/java/pl/radoslawpiatek/couponservice/coupon/application/RedeemCouponService.java",
      lines_example (
          ("RedemptionOutcome." <> "SUCCESS")
          ∷ ("RedemptionOutcome." <> "NOT_FOUND")
          ∷ ("RedemptionOutcome." <> "COUNTRY_NOT_ALLOWED")
          ∷ ("RedemptionOutcome." <> "ALREADY_REDEEMED")
          ∷ ("RedemptionOutcome." <> "EXHAUSTED")
          ∷ ("RedemptionOutcome." <> "GEOLOCATION_UNAVAILABLE")
          ∷ ("RedemptionOutcome." <> "INTERNAL_ERROR")
          ∷ "clientIpResolver.resolve(request)"
          ∷ "transaction.redeem"
          ∷ []),
    )
    ∷ (
      "src/main/java/pl/radoslawpiatek/couponservice/coupon/application/TransactionalCouponRedemptionService.java",
      lines_example ("startTransactionTimer" ∷ "stopTransactionTimer" ∷ []),
    )
    ∷ (
      "src/main/java/pl/radoslawpiatek/couponservice/geolocation/adapters/ServletClientIpResolver.java",
      lines_example
          ("recordClientIp" ∷ "ClientIpSource.FORWARDED" ∷ "ClientIpSource.X_FORWARDED_FOR" ∷ []),
    )
    ∷ (
      "src/main/java/pl/radoslawpiatek/couponservice/geolocation/adapters/IpWhoisGeoLocationResolver.java",
      lines_example ("httpClient.send" ∷ "startGeolocationTimer" ∷ "stopGeolocationTimer" ∷ []),
    )
    ∷ (
      "src/test/java/pl/radoslawpiatek/couponservice/observability/web/RequestIdFilterTest.java",
      lines_example (
          "reusesOneValidIncomingValue" ∷ "missingInvalidAndMultipleValuesGenerateFreshUuids"
          ∷ "cleanupRunsEvenWhenDownstreamFails" ∷ "MDC.get" ∷ []),
    )
    ∷ (
      "src/test/java/pl/radoslawpiatek/couponservice/geolocation/adapters/ServletClientIpResolverTest.java",
      lines_example (
          "recordsExactBoundedSourceAndOutcomeMetrics"
          ∷ "\"x_forwarded_for\", \"outcome\", \"success\""
          ∷ "\"forwarded\", \"outcome\", \"failure\"" ∷ []),
    )
    ∷ (
      "src/test/java/pl/radoslawpiatek/couponservice/geolocation/adapters/IpWhoisGeoLocationResolverTest.java",
      lines_example (
          ("\"" <> "success" <> "\"")
          ∷ ("\"" <> "rate_limited" <> "\"")
          ∷ ("\"" <> "invalid_response" <> "\"")
          ∷ ("\"" <> "provider_error" <> "\"")
          ∷ ("\"" <> "timeout" <> "\"")
          ∷ ("\"" <> "non_public_ip" <> "\"")
          ∷ "LOCAL_STUB_RESPONSE_TIMEOUT = Duration.ofSeconds(1)"
          ∷ "http://127.0.0.1:"
          ∷ "LOCAL_TRANSPORT_WARMUP_TIMEOUT = Duration.ofSeconds(5)"
          ∷ "LOCAL_HTTP_CLIENT"
          ∷ "warmUpLocalTransport()"
          ∷ "/__test-transport-warmup"
          ∷ "HttpClient.newBuilder()"
          ∷ []),
    )
    ∷ (
      "src/test/java/pl/radoslawpiatek/couponservice/observability/ObservabilityApiIT.java",
      lines_example (
          "management.endpoints.web.exposure.include" ∷ "health,info,prometheus"
          ∷ "org.springframework.boot.test.autoconfigure.actuate.observability.AutoConfigureObservability"
          ∷ "@AutoConfigureObservability" ∷ "java.net.http.HttpClient"
          ∷ "HttpClient.newHttpClient()" ∷ []),
    )
    ∷ (
      "src/test/java/pl/radoslawpiatek/couponservice/geolocation/configuration/GeolocationConfigurationTest.java",
      lines_example ("withBean(CouponServiceMetrics.class" ∷ "SimpleMeterRegistry" ∷ []),
    )
    ∷ (
      "docs/api/openapi.yaml",
      lines_example ("X-Request-Id:" ∷ "#/components/headers/RequestId" ∷ []),
    )
    ∷ (
      "scripts/package_source.py",
      lines_example (
          "git\", \"ls-files" ∷ "FIXED_TIME" ∷ "CHECKSUMS.sha256" ∷ "strict_timestamps=True"
          ∷ "compresslevel=9" ∷ []),
    )
    ∷ (
      "scripts/docker_smoke.sh",
      lines_example (
          "/actuator/prometheus" ∷ "X-Request-Id: smoke-request-010"
          ∷ "container structured JSON logging detected" ∷ "tr -d '\\r' < \"$headers_file\""
          ∷ "smoke-request-010[[:space:]]*$" ∷ []),
    )
    ∷ (
      "Makefile",
      lines_example
          ("emp010-check:" ∷ "\tpython3 scripts/check_emp010.py" ∷ "delivery-check: " ∷ []),
    )
    ∷ []

-- a digest that is not one
abbrev digest_example : Text → Text
digest_example bytes = bytes

abbrev zip_example : Zip
zip_example = record { bytes = codes "PK"; names = some (codes "coupon/README.md" ∷ []) }

abbrev good_export_example : Export
good_export_example = record { returncode = pos 0; stdout = []; zips = zip_example ∷ [] }

abbrev commands_example : Commands
commands_example = record {
  status = some [];
  first = good_export_example;
  second = good_export_example;
  clone = true;
  user_name = true;
  user_email = true;
  append = true;
  add = true;
  commit = true;
  mutated = record {
    returncode = pos 1;
    stdout = codes "ERROR: stale checksum: README.md";
    zips = [];
  };
}

abbrev candidate_example : Candidate
candidate_example = record {
  copy = true;
  init = true;
  user_name = true;
  user_email = true;
  checksums = true;
  add = true;
  commit = true;
  delivery = commands_example;
}

delivery_check-done_example :
    Delivered digest_example commands_example (digest_example (codes "PK"))
unfolding coupon_service.Delivery.delivery_check text_beq
delivery_check-done_example =
    (delivery_check-done digest_example commands_example (digest_example (codes "PK"))).0 refl

emp010-passed_example :
    Static emp010_example
    × (((true ≡ true) → (digest : Text) × Delivered digest_example commands_example digest)
        × ((true ≡ true)
            → (digest : Text) × CandidateDelivered digest_example candidate_example digest))
unfolding main
emp010-passed_example =
    (emp010-passed digest_example true true emp010_example commands_example candidate_example).0
      refl
