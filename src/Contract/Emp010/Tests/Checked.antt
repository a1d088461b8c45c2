-- ===== src/Contract/Emp010/Tests/Checked.antt =====
-- When the checks of the tests find no error.
use coupon_service.Base.{◌≡◌, true, not, ◌&&◌, String, ◌<>◌, codes, All}
use coupon_service.Contract.Emp010.Pattern.{occurs_once}
use coupon_service.Contract.Laws.{Checks, seq, each, unless}
use coupon_service.Contract.Repo.{in_text}
use coupon_service.Contract.Emp010.Tests.{
  check_request_test, check_client_test, check_provider_test, check_observability_it,
  check_geolocation_configuration_test, request_test_tokens, provider_test_outcomes,
}

abbrev pub IsRequestTest : String → Type 0
IsRequestTest request_test = All (λ token. (in_text token request_test) ≡ true) request_test_tokens

pub check_request_test-Checks :
    (request_test : String) → Checks (check_request_test request_test) (IsRequestTest request_test)
unfolding check_request_test
check_request_test-Checks request_test =
    (each (λ token. (in_text token request_test) ≡ true) request_test_tokens _
      (λ token.
        unless (in_text token request_test)
          (codes ("request-ID test evidence missing: " <> token))))

abbrev pub IsClientTest : String → Type 0
IsClientTest client_test =
    ((in_text "recordsExactBoundedSourceAndOutcomeMetrics" client_test
        && in_text "\"x_forwarded_for\", \"outcome\", \"success\"" client_test
        && in_text "\"forwarded\", \"outcome\", \"failure\"" client_test)
      ≡ true)

pub check_client_test-Checks :
    (client_test : String) → Checks (check_client_test client_test) (IsClientTest client_test)
unfolding check_client_test
check_client_test-Checks client_test =
    (unless
      (in_text "recordsExactBoundedSourceAndOutcomeMetrics" client_test
        && in_text "\"x_forwarded_for\", \"outcome\", \"success\"" client_test
        && in_text "\"forwarded\", \"outcome\", \"failure\"" client_test)
      (codes "client-IP metric mapping test evidence missing"))

abbrev pub IsProviderTest : String → Type 0
IsProviderTest provider_test =
    (All (λ outcome. (in_text ("\"" <> outcome <> "\"") provider_test) ≡ true)
        provider_test_outcomes
      × (((in_text "LOCAL_STUB_RESPONSE_TIMEOUT = Duration.ofSeconds(1)" provider_test
              && in_text "http://127.0.0.1:" provider_test
              && not (in_text "http://localhost:" provider_test))
            ≡ true)
          × ((in_text "LOCAL_TRANSPORT_WARMUP_TIMEOUT = Duration.ofSeconds(5)" provider_test
                && in_text "LOCAL_HTTP_CLIENT" provider_test
                && in_text "warmUpLocalTransport()" provider_test
                && in_text "/__test-transport-warmup" provider_test
                && occurs_once "HttpClient.newBuilder()" provider_test)
              ≡ true)))

pub check_provider_test-Checks :
    (provider_test : String)
    → Checks (check_provider_test provider_test) (IsProviderTest provider_test)
unfolding check_provider_test
check_provider_test-Checks provider_test =
    (seq _ _
      (each (λ outcome. (in_text ("\"" <> outcome <> "\"") provider_test) ≡ true)
        provider_test_outcomes _
        (λ outcome.
          unless (in_text ("\"" <> outcome <> "\"") provider_test)
            (codes ("GeoIP metric mapping test evidence missing: " <> outcome))))
      (seq _ _
        (unless
          (in_text "LOCAL_STUB_RESPONSE_TIMEOUT = Duration.ofSeconds(1)" provider_test
            && in_text "http://127.0.0.1:" provider_test
            && not (in_text "http://localhost:" provider_test))
          (codes
            "GeoIP WireMock tests must use deterministic IPv4 loopback and the frozen 1s provider timeout"))
        (unless
          (in_text "LOCAL_TRANSPORT_WARMUP_TIMEOUT = Duration.ofSeconds(5)" provider_test
            && in_text "LOCAL_HTTP_CLIENT" provider_test
            && in_text "warmUpLocalTransport()" provider_test
            && in_text "/__test-transport-warmup" provider_test
            && occurs_once "HttpClient.newBuilder()" provider_test)
          (codes
            "GeoIP WireMock tests must warm one shared production-shaped JDK HttpClient before bounded provider assertions"))))

abbrev pub IsObservabilityIt : String → Type 0
IsObservabilityIt observability_it =
    (((in_text "management.endpoints.web.exposure.include" observability_it
          && in_text "health,info,prometheus" observability_it)
        ≡ true)
      × (((in_text
                "org.springframework.boot.test.autoconfigure.actuate.observability.AutoConfigureObservability"
                observability_it
              && in_text "@AutoConfigureObservability" observability_it)
            ≡ true)
          × ((in_text "java.net.http.HttpClient" observability_it
                && in_text "HttpClient.newHttpClient()" observability_it
                && not (in_text "TestRestTemplate" observability_it))
              ≡ true)))

pub check_observability_it-Checks :
    (observability_it : String)
    → Checks (check_observability_it observability_it) (IsObservabilityIt observability_it)
unfolding check_observability_it
check_observability_it-Checks observability_it =
    (seq _ _
      (unless
        (in_text "management.endpoints.web.exposure.include" observability_it
          && in_text "health,info,prometheus" observability_it)
        (codes
          "ObservabilityApiIT must explicitly expose Prometheus because test application.yml shadows main application.yml"))
      (seq _ _
        (unless
          (in_text
              "org.springframework.boot.test.autoconfigure.actuate.observability.AutoConfigureObservability"
              observability_it
            && in_text "@AutoConfigureObservability" observability_it)
          (codes "ObservabilityApiIT must enable real metrics exporters under @SpringBootTest"))
        (unless
          (in_text "java.net.http.HttpClient" observability_it
            && in_text "HttpClient.newHttpClient()" observability_it
            && not (in_text "TestRestTemplate" observability_it))
          (codes
            "ObservabilityApiIT must use an uninstrumented JDK HTTP client so test request URLs cannot pollute the Prometheus scrape"))))

abbrev pub IsGeolocationConfigurationTest : String → Type 0
IsGeolocationConfigurationTest geolocation_configuration_test =
    ((in_text "withBean(CouponServiceMetrics.class" geolocation_configuration_test
        && in_text "SimpleMeterRegistry" geolocation_configuration_test)
      ≡ true)

pub check_geolocation_configuration_test-Checks :
    (geolocation_configuration_test : String)
    → Checks
        (check_geolocation_configuration_test geolocation_configuration_test)
        (IsGeolocationConfigurationTest geolocation_configuration_test)
unfolding check_geolocation_configuration_test
check_geolocation_configuration_test-Checks geolocation_configuration_test =
    (unless
      (in_text "withBean(CouponServiceMetrics.class" geolocation_configuration_test
        && in_text "SimpleMeterRegistry" geolocation_configuration_test)
      (codes
        "GeolocationConfigurationTest must provide the observability dependency in its isolated context"))
