-- ===== src/Contract/Emp010.antt =====
-- scripts/check_emp010.py: the static contract of the delivery and of the observability. The delivery check
-- itself is in Delivery.
pub mod Pattern
pub mod Build
pub mod Code
pub mod Tests
pub mod Tooling
pub mod Checked
use coupon_service.Base.{
  Option, none, some, List, [], ◌∷◌, ◌++◌, ◌&&◌, not, String, Text, codes, keys, select,
}
use coupon_service.Contract.Report.{Reported, ◌>>◌, ◌>>=◌, complain_if}
use coupon_service.Contract.Repo.{Repo, read, is_child, has_suffix, join_strings, has_prompt_file}
use coupon_service.Contract.Emp010.Pattern.{require}
use coupon_service.Contract.Emp010.Build.{
  check_workflow, check_dockerfile, check_pom, check_app, check_compose,
}
use coupon_service.Contract.Emp010.Code.{
  check_request_filter, check_metrics, check_services, check_domain_sources,
}
use coupon_service.Contract.Emp010.Tests.{
  check_request_test, check_client_test, check_provider_test, check_observability_it,
  check_geolocation_configuration_test,
}
use coupon_service.Contract.Emp010.Tooling.{
  check_openapi, check_package_py, check_smoke, check_makefile,
}

-- `path.read_text(encoding="utf-8") for ... in directory.glob("*.java")`
abbrev pub cons_text : Option String → Option (List String) → Option (List String)
cons_text none later = none
cons_text (some text) none = none
cons_text (some text) (some texts) = some (text ∷ texts)

unfoldable pub read_all : Repo → List String → Option (List String)
unfolding read
read_all repo [] = some []
read_all repo (path ∷ paths) = cons_text (read repo path) (read_all repo paths)

abbrev pub java_files : Repo → String → List String
java_files repo directory =
    select (λ path. is_child directory path && has_suffix ".java" path) (keys repo)

abbrev pub joined : Option (List String) → Option String
joined none = none
joined (some texts) = some (join_strings "\n" texts)

unfoldable pub domain_sources : Repo → Option String
unfolding read_all is_child has_suffix join_strings
domain_sources repo = joined (
    read_all repo (
      java_files repo "src/main/java/pl/radoslawpiatek/couponservice/coupon/domain"
      ++ java_files repo "src/main/java/pl/radoslawpiatek/couponservice/geolocation/domain"))

-- a text that is used in its own checks only
abbrev pub check_file : Repo → String → (String → Reported Text) → Reported Text
check_file repo path check = read repo path >>= check

-- the five services that are read together
abbrev pub service_files : Repo → Reported Text
service_files repo = do
  create_service ←
      read repo
        "src/main/java/pl/radoslawpiatek/couponservice/coupon/application/CreateCouponService.java"
  redeem_service ←
      read repo
        "src/main/java/pl/radoslawpiatek/couponservice/coupon/application/RedeemCouponService.java"
  transaction_service ←
      read repo
        "src/main/java/pl/radoslawpiatek/couponservice/coupon/application/TransactionalCouponRedemptionService.java"
  client_resolver ←
      read repo
        "src/main/java/pl/radoslawpiatek/couponservice/geolocation/adapters/ServletClientIpResolver.java"
  provider_resolver ←
      read repo
        "src/main/java/pl/radoslawpiatek/couponservice/geolocation/adapters/IpWhoisGeoLocationResolver.java"
  check_services create_service redeem_service transaction_service client_resolver provider_resolver

unfoldable pub static_check : Repo → Reported Text
unfolding read domain_sources has_prompt_file complain_if check_workflow check_dockerfile check_pom
    check_app check_compose check_request_filter check_metrics check_services check_domain_sources
    check_request_test check_client_test check_provider_test check_observability_it
    check_geolocation_configuration_test check_openapi check_package_py check_smoke check_makefile
static_check repo = do
  check_file repo ".github/workflows/ci.yml" check_workflow
  check_file repo "Dockerfile" check_dockerfile
  check_file repo "pom.xml" check_pom
  check_file repo "src/main/resources/application.yml" check_app
  check_file repo "docker-compose.yml" check_compose
  check_file repo
      "src/main/java/pl/radoslawpiatek/couponservice/observability/web/RequestIdFilter.java"
      check_request_filter
  check_file repo
      "src/main/java/pl/radoslawpiatek/couponservice/observability/CouponServiceMetrics.java"
      check_metrics
  service_files repo
  domain_sources repo >>= check_domain_sources
  check_file repo
      "src/test/java/pl/radoslawpiatek/couponservice/observability/web/RequestIdFilterTest.java"
      check_request_test
  check_file repo
      "src/test/java/pl/radoslawpiatek/couponservice/geolocation/adapters/ServletClientIpResolverTest.java"
      check_client_test
  check_file repo
      "src/test/java/pl/radoslawpiatek/couponservice/geolocation/adapters/IpWhoisGeoLocationResolverTest.java"
      check_provider_test
  check_file repo
      "src/test/java/pl/radoslawpiatek/couponservice/observability/ObservabilityApiIT.java"
      check_observability_it
  check_file repo
      "src/test/java/pl/radoslawpiatek/couponservice/geolocation/configuration/GeolocationConfigurationTest.java"
      check_geolocation_configuration_test
  check_file repo "docs/api/openapi.yaml" check_openapi
  check_file repo "scripts/package_source.py" check_package_py
  check_file repo "scripts/docker_smoke.sh" check_smoke
  check_file repo "Makefile" check_makefile
  require (not (has_prompt_file repo)) (codes "CODEX_PROMPT.md is forbidden")
