-- ===== src/Contract/Emp010/Checked.antt =====
-- When the static contract of scripts/check_emp010.py has no error.
use coupon_service.Base.{◌≡◌, true, not, some, String, codes}
use coupon_service.Contract.Laws.{Checks, seq, binding, unless}
use coupon_service.Contract.Repo.{Repo, read, has_prompt_file, Reads}
use coupon_service.Contract.Emp010.{domain_sources, service_files, static_check}
use coupon_service.Contract.Emp010.Build.{
  check_workflow, check_dockerfile, check_pom, check_app, check_compose,
}
use coupon_service.Contract.Emp010.Build.Checked.{
  IsWorkflow, check_workflow-Checks, IsDockerfile, check_dockerfile-Checks, IsPom, check_pom-Checks,
  IsApp, check_app-Checks, IsCompose, check_compose-Checks,
}
use coupon_service.Contract.Emp010.Code.{check_request_filter, check_metrics, check_domain_sources}
use coupon_service.Contract.Emp010.Code.Checked.{
  IsRequestFilter, check_request_filter-Checks, IsMetrics, check_metrics-Checks, IsServices,
  check_services-Checks, IsDomainSources, check_domain_sources-Checks,
}
use coupon_service.Contract.Emp010.Tests.{
  check_request_test, check_client_test, check_provider_test, check_observability_it,
  check_geolocation_configuration_test,
}
use coupon_service.Contract.Emp010.Tests.Checked.{
  IsRequestTest, check_request_test-Checks, IsClientTest, check_client_test-Checks, IsProviderTest,
  check_provider_test-Checks, IsObservabilityIt, check_observability_it-Checks,
  IsGeolocationConfigurationTest, check_geolocation_configuration_test-Checks,
}
use coupon_service.Contract.Emp010.Tooling.{
  check_openapi, check_package_py, check_smoke, check_makefile,
}
use coupon_service.Contract.Emp010.Tooling.Checked.{
  IsOpenapi, check_openapi-Checks, IsPackagePy, check_package_py-Checks, IsSmoke,
  check_smoke-Checks, IsMakefile, check_makefile-Checks,
}

abbrev pub HasServices : Repo → Type 0
HasServices repo =
    Reads repo
      "src/main/java/pl/radoslawpiatek/couponservice/coupon/application/CreateCouponService.java"
      (λ create_service.
        Reads repo
          "src/main/java/pl/radoslawpiatek/couponservice/coupon/application/RedeemCouponService.java"
          (λ redeem_service.
            Reads repo
              "src/main/java/pl/radoslawpiatek/couponservice/coupon/application/TransactionalCouponRedemptionService.java"
              (λ transaction_service.
                Reads repo
                  "src/main/java/pl/radoslawpiatek/couponservice/geolocation/adapters/ServletClientIpResolver.java"
                  (λ client_resolver.
                    Reads repo
                      "src/main/java/pl/radoslawpiatek/couponservice/geolocation/adapters/IpWhoisGeoLocationResolver.java"
                      (λ provider_resolver.
                        IsServices create_service redeem_service transaction_service client_resolver
                          provider_resolver)))))

service_files-Checks : (repo : Repo) → Checks (service_files repo) (HasServices repo)
service_files-Checks repo =
    binding
      (read repo
        "src/main/java/pl/radoslawpiatek/couponservice/coupon/application/CreateCouponService.java")
      _ _
      (λ create_service.
        binding
          (read repo
            "src/main/java/pl/radoslawpiatek/couponservice/coupon/application/RedeemCouponService.java")
          _ _
          (λ redeem_service.
            binding
              (read repo
                "src/main/java/pl/radoslawpiatek/couponservice/coupon/application/TransactionalCouponRedemptionService.java")
              _ _
              (λ transaction_service.
                binding
                  (read repo
                    "src/main/java/pl/radoslawpiatek/couponservice/geolocation/adapters/ServletClientIpResolver.java")
                  _ _
                  (λ client_resolver.
                    binding
                      (read repo
                        "src/main/java/pl/radoslawpiatek/couponservice/geolocation/adapters/IpWhoisGeoLocationResolver.java")
                      _ _
                      (λ provider_resolver.
                        check_services-Checks create_service redeem_service transaction_service
                          client_resolver provider_resolver)))))

-- Every file that the contract names is a readable text with what the contract asks of it.
abbrev pub Static : Repo → Type 0
Static repo =
    (Reads repo ".github/workflows/ci.yml" IsWorkflow
      × (Reads repo "Dockerfile" IsDockerfile
          × (Reads repo "pom.xml" IsPom
              × (Reads repo "src/main/resources/application.yml" IsApp
                  × (Reads repo "docker-compose.yml" IsCompose
                      × (Reads repo
                            "src/main/java/pl/radoslawpiatek/couponservice/observability/web/RequestIdFilter.java"
                            IsRequestFilter
                          × (Reads repo
                                "src/main/java/pl/radoslawpiatek/couponservice/observability/CouponServiceMetrics.java"
                                IsMetrics
                              × (HasServices repo
                                  × (((sources : String) × (domain_sources repo ≡ some sources)
                                        × IsDomainSources sources)
                                      × (Reads repo
                                            "src/test/java/pl/radoslawpiatek/couponservice/observability/web/RequestIdFilterTest.java"
                                            IsRequestTest
                                          × (Reads repo
                                                "src/test/java/pl/radoslawpiatek/couponservice/geolocation/adapters/ServletClientIpResolverTest.java"
                                                IsClientTest
                                              × (Reads repo
                                                    "src/test/java/pl/radoslawpiatek/couponservice/geolocation/adapters/IpWhoisGeoLocationResolverTest.java"
                                                    IsProviderTest
                                                  × (Reads repo
                                                        "src/test/java/pl/radoslawpiatek/couponservice/observability/ObservabilityApiIT.java"
                                                        IsObservabilityIt
                                                      × (Reads repo
                                                            "src/test/java/pl/radoslawpiatek/couponservice/geolocation/configuration/GeolocationConfigurationTest.java"
                                                            IsGeolocationConfigurationTest
                                                          × (Reads repo "docs/api/openapi.yaml"
                                                            IsOpenapi
                                                            × (Reads repo
                                                            "scripts/package_source.py" IsPackagePy
                                                            × (Reads repo "scripts/docker_smoke.sh"
                                                            IsSmoke
                                                            × (Reads repo "Makefile" IsMakefile
                                                            × ((not (has_prompt_file repo))
                                                            ≡ true)))))))))))))))))))

pub static_check-Checks : (repo : Repo) → Checks (static_check repo) (Static repo)
unfolding static_check
static_check-Checks repo =
    (seq _ _
      (binding (read repo ".github/workflows/ci.yml") check_workflow IsWorkflow
        check_workflow-Checks)
      (seq _ _
        (binding (read repo "Dockerfile") check_dockerfile IsDockerfile check_dockerfile-Checks)
        (seq _ _ (binding (read repo "pom.xml") check_pom IsPom check_pom-Checks) (
          seq _ _
            (binding (read repo "src/main/resources/application.yml") check_app IsApp
              check_app-Checks)
            (seq _ _
              (binding (read repo "docker-compose.yml") check_compose IsCompose
                check_compose-Checks)
              (seq _ _
                (binding
                  (read repo
                    "src/main/java/pl/radoslawpiatek/couponservice/observability/web/RequestIdFilter.java")
                  check_request_filter IsRequestFilter check_request_filter-Checks)
                (seq _ _
                  (binding
                    (read repo
                      "src/main/java/pl/radoslawpiatek/couponservice/observability/CouponServiceMetrics.java")
                    check_metrics IsMetrics check_metrics-Checks)
                  (seq _ _ (service_files-Checks repo) (
                    seq _ _
                      (binding (domain_sources repo) check_domain_sources IsDomainSources
                        check_domain_sources-Checks)
                      (seq _ _
                        (binding
                          (read repo
                            "src/test/java/pl/radoslawpiatek/couponservice/observability/web/RequestIdFilterTest.java")
                          check_request_test IsRequestTest check_request_test-Checks)
                        (seq _ _
                          (binding
                            (read repo
                              "src/test/java/pl/radoslawpiatek/couponservice/geolocation/adapters/ServletClientIpResolverTest.java")
                            check_client_test IsClientTest check_client_test-Checks)
                          (seq _ _
                            (binding
                              (read repo
                                "src/test/java/pl/radoslawpiatek/couponservice/geolocation/adapters/IpWhoisGeoLocationResolverTest.java")
                              check_provider_test IsProviderTest check_provider_test-Checks)
                            (seq _ _
                              (binding
                                (read repo
                                  "src/test/java/pl/radoslawpiatek/couponservice/observability/ObservabilityApiIT.java")
                                check_observability_it IsObservabilityIt
                                check_observability_it-Checks)
                              (seq _ _
                                (binding
                                  (read repo
                                    "src/test/java/pl/radoslawpiatek/couponservice/geolocation/configuration/GeolocationConfigurationTest.java")
                                  check_geolocation_configuration_test
                                  IsGeolocationConfigurationTest
                                  check_geolocation_configuration_test-Checks)
                                (seq _ _
                                  (binding (read repo "docs/api/openapi.yaml") check_openapi
                                    IsOpenapi check_openapi-Checks)
                                  (seq _ _
                                    (binding (read repo "scripts/package_source.py")
                                      check_package_py IsPackagePy check_package_py-Checks)
                                    (seq _ _
                                      (binding (read repo "scripts/docker_smoke.sh") check_smoke
                                        IsSmoke check_smoke-Checks)
                                      (seq _ _
                                        (binding (read repo "Makefile") check_makefile IsMakefile
                                          check_makefile-Checks)
                                        (unless (not (has_prompt_file repo))
                                          (codes "CODEX_PROMPT.md is forbidden"))))))))))))))))))))
