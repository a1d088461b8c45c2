-- ===== src/Contract/Emp010/Code.antt =====
-- What `static_check` of scripts/check_emp010.py asks of the application code.
pub mod Checked
use coupon_service.Base.{
  Bool, true, false, not, ◌&&◌, List, [], ◌∷◌, ◌++◌, String, ◌<>◌, Text, codes, text_beq,
}
use coupon_service.Contract.Report.{Reported, ◌>>◌, for_each, complain_if}
use coupon_service.Contract.Repo.{in_text}
use coupon_service.Contract.Emp010.Pattern.{
  require, uses, is_pinned, has_managed_registry, occurs_once, has_target,
}
use coupon_service.Documentation.Pattern.{find_all}

abbrev pub request_filter_tokens : List String
request_filter_tokens =
    "X-Request-Id" ∷ "^[A-Za-z0-9][A-Za-z0-9._-]{0,63}$" ∷ "MDC.put" ∷ "MDC.remove" ∷ "finally" ∷ []

unfoldable pub check_request_filter : String → Reported Text
unfolding in_text complain_if for_each
check_request_filter request_filter = do
  for_each request_filter_tokens (λ token.
      require (in_text token request_filter)
        (codes ("request-ID contract missing token '" <> token <> "'")))

abbrev pub critical_meters : List String
critical_meters =
    "coupon.create" ∷ "coupon.redemption" ∷ "client.ip.resolution" ∷ "geolocation.resolution"
    ∷ "geolocation.provider" ∷ "coupon.redemption.transaction" ∷ []

abbrev pub metrics_tag_values : List String
metrics_tag_values =
    "success" ∷ "conflict" ∷ "not_found" ∷ "country_not_allowed" ∷ "already_redeemed" ∷ "exhausted"
    ∷ "geolocation_unavailable" ∷ "internal_error" ∷ "direct" ∷ "forwarded" ∷ "x_forwarded_for"
    ∷ "failure" ∷ "ipwhois" ∷ "stub" ∷ "timeout" ∷ "rate_limited" ∷ "provider_error"
    ∷ "invalid_response" ∷ "non_public_ip" ∷ "database_error" ∷ []

abbrev pub forbidden_label_tokens : List String
forbidden_label_tokens =
    "userId" ∷ "couponCode" ∷ "requestId" ∷ "resolvedCountry" ∷ "countryCode" ∷ "rawIp" ∷ []

unfoldable pub check_metrics : String → Reported Text
unfolding in_text complain_if for_each
check_metrics metrics = do
  for_each critical_meters (λ meter.
      require (in_text ("\"" <> meter <> "\"") metrics) (codes ("missing frozen meter " <> meter)))
  for_each metrics_tag_values (λ value.
      require (in_text ("\"" <> value <> "\"") metrics)
        (codes ("missing frozen low-cardinality tag value " <> value)))
  for_each forbidden_label_tokens (λ token.
      require (not (in_text (".tag(\"" <> token <> "\"") metrics))
        (codes ("forbidden metric label key " <> token)))

abbrev pub services_outcomes : List String
services_outcomes =
    "SUCCESS" ∷ "NOT_FOUND" ∷ "COUNTRY_NOT_ALLOWED" ∷ "ALREADY_REDEEMED" ∷ "EXHAUSTED"
    ∷ "GEOLOCATION_UNAVAILABLE" ∷ "INTERNAL_ERROR" ∷ []

unfoldable pub check_services : String → String → String → String → String → Reported Text
unfolding in_text complain_if for_each occurs_once
check_services create_service redeem_service transaction_service client_resolver provider_resolver =
    do
      require
          (in_text "recordCreate" create_service && in_text "CreateOutcome.CONFLICT" create_service)
          (codes "create terminal outcome instrumentation missing")
      for_each services_outcomes (λ outcome.
          require (in_text ("RedemptionOutcome." <> outcome) redeem_service)
            (codes ("redemption outcome mapping missing: " <> outcome)))
      require
          (in_text "startTransactionTimer" transaction_service
            && in_text "stopTransactionTimer" transaction_service)
          (codes "transaction timer instrumentation missing")
      require
          (in_text "clientIpResolver.resolve(request)" redeem_service
            && in_text "transaction.redeem" redeem_service)
          (codes "redemption orchestration boundary changed unexpectedly")
      require
          (in_text "recordClientIp" client_resolver
            && in_text "ClientIpSource.FORWARDED" client_resolver
            && in_text "ClientIpSource.X_FORWARDED_FOR" client_resolver)
          (codes "client-IP outcome/source mapping missing")
      require
          (in_text "httpClient.send" provider_resolver
            && occurs_once "httpClient.send" provider_resolver)
          (codes "GeoIP adapter must keep exactly one provider send site")
      require
          (in_text "startGeolocationTimer" provider_resolver
            && in_text "stopGeolocationTimer" provider_resolver)
          (codes "GeoIP provider timer instrumentation missing")

unfoldable pub check_domain_sources : String → Reported Text
unfolding in_text complain_if for_each
check_domain_sources domain_sources = do
  require
      (not (in_text "io.micrometer" domain_sources)
        && not (in_text "CouponServiceMetrics" domain_sources))
      (codes "domain layer must remain free of Micrometer/observability dependencies")
