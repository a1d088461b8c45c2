-- ===== src/Contract/Emp010/Code/Checked.antt =====
-- When the checks of the application code find no error.
use coupon_service.Base.{◌≡◌, true, not, ◌&&◌, String, ◌<>◌, codes, All}
use coupon_service.Contract.Emp010.Pattern.{occurs_once}
use coupon_service.Contract.Laws.{Checks, seq, each, unless}
use coupon_service.Contract.Repo.{in_text}
use coupon_service.Contract.Emp010.Code.{
  check_request_filter, check_metrics, check_services, check_domain_sources, request_filter_tokens,
  critical_meters, metrics_tag_values, forbidden_label_tokens, services_outcomes,
}

abbrev pub IsRequestFilter : String → Type 0
IsRequestFilter request_filter =
    All (λ token. (in_text token request_filter) ≡ true) request_filter_tokens

pub check_request_filter-Checks :
    (request_filter : String)
    → Checks (check_request_filter request_filter) (IsRequestFilter request_filter)
unfolding check_request_filter
check_request_filter-Checks request_filter =
    (each (λ token. (in_text token request_filter) ≡ true) request_filter_tokens _
      (λ token.
        unless (in_text token request_filter)
          (codes ("request-ID contract missing token '" <> token <> "'"))))

abbrev pub IsMetrics : String → Type 0
IsMetrics metrics =
    (All (λ meter. (in_text ("\"" <> meter <> "\"") metrics) ≡ true) critical_meters
      × (All (λ value. (in_text ("\"" <> value <> "\"") metrics) ≡ true) metrics_tag_values
          × All (λ token. (not (in_text (".tag(\"" <> token <> "\"") metrics)) ≡ true)
              forbidden_label_tokens))

pub check_metrics-Checks : (metrics : String) → Checks (check_metrics metrics) (IsMetrics metrics)
unfolding check_metrics
check_metrics-Checks metrics =
    (seq _ _
      (each (λ meter. (in_text ("\"" <> meter <> "\"") metrics) ≡ true) critical_meters _
        (λ meter.
          unless (in_text ("\"" <> meter <> "\"") metrics)
            (codes ("missing frozen meter " <> meter))))
      (seq _ _
        (each (λ value. (in_text ("\"" <> value <> "\"") metrics) ≡ true) metrics_tag_values _
          (λ value.
            unless (in_text ("\"" <> value <> "\"") metrics)
              (codes ("missing frozen low-cardinality tag value " <> value))))
        (each (λ token. (not (in_text (".tag(\"" <> token <> "\"") metrics)) ≡ true)
          forbidden_label_tokens _
          (λ token.
            unless (not (in_text (".tag(\"" <> token <> "\"") metrics))
              (codes ("forbidden metric label key " <> token))))))

abbrev pub IsServices : String → String → String → String → String → Type 0
IsServices create_service redeem_service transaction_service client_resolver provider_resolver =
    (((in_text "recordCreate" create_service && in_text "CreateOutcome.CONFLICT" create_service)
        ≡ true)
      × (All (λ outcome. (in_text ("RedemptionOutcome." <> outcome) redeem_service) ≡ true)
            services_outcomes
          × (((in_text "startTransactionTimer" transaction_service
                  && in_text "stopTransactionTimer" transaction_service)
                ≡ true)
              × (((in_text "clientIpResolver.resolve(request)" redeem_service
                      && in_text "transaction.redeem" redeem_service)
                    ≡ true)
                  × (((in_text "recordClientIp" client_resolver
                          && in_text "ClientIpSource.FORWARDED" client_resolver
                          && in_text "ClientIpSource.X_FORWARDED_FOR" client_resolver)
                        ≡ true)
                      × (((in_text "httpClient.send" provider_resolver
                              && occurs_once "httpClient.send" provider_resolver)
                            ≡ true)
                          × ((in_text "startGeolocationTimer" provider_resolver
                                && in_text "stopGeolocationTimer" provider_resolver)
                              ≡ true)))))))

pub check_services-Checks :
    (create_service redeem_service transaction_service client_resolver provider_resolver : String)
    → Checks
        (check_services create_service redeem_service transaction_service client_resolver
          provider_resolver)
        (IsServices create_service redeem_service transaction_service client_resolver
          provider_resolver)
unfolding check_services
check_services-Checks create_service redeem_service transaction_service client_resolver
      provider_resolver =
    (seq _ _
      (unless
        (in_text "recordCreate" create_service && in_text "CreateOutcome.CONFLICT" create_service)
        (codes "create terminal outcome instrumentation missing"))
      (seq _ _
        (each (λ outcome. (in_text ("RedemptionOutcome." <> outcome) redeem_service) ≡ true)
          services_outcomes _
          (λ outcome.
            unless (in_text ("RedemptionOutcome." <> outcome) redeem_service)
              (codes ("redemption outcome mapping missing: " <> outcome))))
        (seq _ _
          (unless
            (in_text "startTransactionTimer" transaction_service
              && in_text "stopTransactionTimer" transaction_service)
            (codes "transaction timer instrumentation missing"))
          (seq _ _
            (unless
              (in_text "clientIpResolver.resolve(request)" redeem_service
                && in_text "transaction.redeem" redeem_service)
              (codes "redemption orchestration boundary changed unexpectedly"))
            (seq _ _
              (unless
                (in_text "recordClientIp" client_resolver
                  && in_text "ClientIpSource.FORWARDED" client_resolver
                  && in_text "ClientIpSource.X_FORWARDED_FOR" client_resolver)
                (codes "client-IP outcome/source mapping missing"))
              (seq _ _
                (unless
                  (in_text "httpClient.send" provider_resolver
                    && occurs_once "httpClient.send" provider_resolver)
                  (codes "GeoIP adapter must keep exactly one provider send site"))
                (unless
                  (in_text "startGeolocationTimer" provider_resolver
                    && in_text "stopGeolocationTimer" provider_resolver)
                  (codes "GeoIP provider timer instrumentation missing"))))))))

abbrev pub IsDomainSources : String → Type 0
IsDomainSources domain_sources =
    ((not (in_text "io.micrometer" domain_sources)
        && not (in_text "CouponServiceMetrics" domain_sources))
      ≡ true)

pub check_domain_sources-Checks :
    (domain_sources : String)
    → Checks (check_domain_sources domain_sources) (IsDomainSources domain_sources)
unfolding check_domain_sources
check_domain_sources-Checks domain_sources =
    (unless
      (not (in_text "io.micrometer" domain_sources)
        && not (in_text "CouponServiceMetrics" domain_sources))
      (codes "domain layer must remain free of Micrometer/observability dependencies"))
