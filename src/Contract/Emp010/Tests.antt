-- ===== src/Contract/Emp010/Tests.antt =====
-- What `static_check` of scripts/check_emp010.py asks of the tests.
pub mod Checked
use coupon_service.Base.{
  Bool, true, false, not, ◌&&◌, List, [], ◌∷◌, ◌++◌, String, ◌<>◌, Text, codes, text_beq,
}
use coupon_service.Contract.Report.{Reported, ◌>>◌, for_each, complain_if}
use coupon_service.Contract.Repo.{in_text}
use coupon_service.Contract.Emp010.Pattern.{
  require, uses, is_pinned, has_managed_registry, occurs_once, has_target,
}
use coupon_service.Documentation.Pattern.{find_all}

abbrev pub request_test_tokens : List String
request_test_tokens =
    "reusesOneValidIncomingValue" ∷ "missingInvalidAndMultipleValuesGenerateFreshUuids"
    ∷ "cleanupRunsEvenWhenDownstreamFails" ∷ "MDC.get" ∷ []

unfoldable pub check_request_test : String → Reported Text
unfolding in_text complain_if for_each uses
check_request_test request_test = do
  for_each request_test_tokens (λ token.
      require (in_text token request_test) (codes ("request-ID test evidence missing: " <> token)))

unfoldable pub check_client_test : String → Reported Text
unfolding in_text complain_if for_each
check_client_test client_test = do
  require
      (in_text "recordsExactBoundedSourceAndOutcomeMetrics" client_test
        && in_text "\"x_forwarded_for\", \"outcome\", \"success\"" client_test
        && in_text "\"forwarded\", \"outcome\", \"failure\"" client_test)
      (codes "client-IP metric mapping test evidence missing")

abbrev pub provider_test_outcomes : List String
provider_test_outcomes =
    "success" ∷ "rate_limited" ∷ "invalid_response" ∷ "provider_error" ∷ "timeout" ∷ "non_public_ip"
    ∷ []

unfoldable pub check_provider_test : String → Reported Text
unfolding in_text complain_if for_each occurs_once
check_provider_test provider_test = do
  for_each provider_test_outcomes (λ outcome.
      require (in_text ("\"" <> outcome <> "\"") provider_test)
        (codes ("GeoIP metric mapping test evidence missing: " <> outcome)))
  require
      (in_text "LOCAL_STUB_RESPONSE_TIMEOUT = Duration.ofSeconds(1)" provider_test
        && in_text "http://127.0.0.1:" provider_test
        && not (in_text "http://localhost:" provider_test))
      (codes
        "GeoIP WireMock tests must use deterministic IPv4 loopback and the frozen 1s provider timeout")
  require
      (in_text "LOCAL_TRANSPORT_WARMUP_TIMEOUT = Duration.ofSeconds(5)" provider_test
        && in_text "LOCAL_HTTP_CLIENT" provider_test
        && in_text "warmUpLocalTransport()" provider_test
        && in_text "/__test-transport-warmup" provider_test
        && occurs_once "HttpClient.newBuilder()" provider_test)
      (codes
        "GeoIP WireMock tests must warm one shared production-shaped JDK HttpClient before bounded provider assertions")

unfoldable pub check_observability_it : String → Reported Text
unfolding in_text complain_if for_each
check_observability_it observability_it = do
  require
      (in_text "management.endpoints.web.exposure.include" observability_it
        && in_text "health,info,prometheus" observability_it)
      (codes
        "ObservabilityApiIT must explicitly expose Prometheus because test application.yml shadows main application.yml")
  require
      (in_text
          "org.springframework.boot.test.autoconfigure.actuate.observability.AutoConfigureObservability"
          observability_it
        && in_text "@AutoConfigureObservability" observability_it)
      (codes "ObservabilityApiIT must enable real metrics exporters under @SpringBootTest")
  require
      (in_text "java.net.http.HttpClient" observability_it
        && in_text "HttpClient.newHttpClient()" observability_it
        && not (in_text "TestRestTemplate" observability_it))
      (codes
        "ObservabilityApiIT must use an uninstrumented JDK HTTP client so test request URLs cannot pollute the Prometheus scrape")

unfoldable pub check_geolocation_configuration_test : String → Reported Text
unfolding in_text complain_if for_each
check_geolocation_configuration_test geolocation_configuration_test = do
  require
      (in_text "withBean(CouponServiceMetrics.class" geolocation_configuration_test
        && in_text "SimpleMeterRegistry" geolocation_configuration_test)
      (codes
        "GeolocationConfigurationTest must provide the observability dependency in its isolated context")
