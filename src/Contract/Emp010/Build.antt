-- ===== src/Contract/Emp010/Build.antt =====
-- What `static_check` of scripts/check_emp010.py asks of the workflow, the images and the configuration.
pub mod Checked
use coupon_service.Base.{
  Bool, true, false, not, ◌&&◌, List, [], ◌∷◌, ◌++◌, String, ◌<>◌, Text, codes, text_beq,
}
use coupon_service.Contract.Report.{Reported, ◌>>◌, for_each, complain_if}
use coupon_service.Contract.Repo.{in_text}
use coupon_service.Contract.Emp010.Pattern.{
  require, uses, is_pinned, has_managed_registry, occurs_once, has_target,
}
use coupon_service.Documentation.Pattern.{find_all}

unfoldable pub check_workflow : String → Reported Text
unfolding in_text complain_if for_each find_all uses is_pinned
check_workflow workflow = do
  require
      (in_text "pull_request:" workflow
        && in_text "workflow_dispatch:" workflow
        && in_text "branches: [main]" workflow)
      (codes "CI triggers are incomplete")
  require (in_text "runs-on: ubuntu-24.04" workflow && in_text "timeout-minutes: 30" workflow)
      (codes "CI runner/timeout contract missing")
  require (in_text "permissions:\n  contents: read" workflow)
      (codes "CI permissions must be contents: read")
  require (not (in_text "pull_request_target" workflow)) (codes "pull_request_target is forbidden")
  require
      (in_text "actions/checkout@3d3c42e5aac5ba805825da76410c181273ba90b1" workflow
        && in_text "persist-credentials: false" workflow)
      (codes "checkout must use the frozen full SHA with credentials disabled")
  require
      (in_text "actions/setup-java@b6effb05e454b25005698d916606bdc6ffcbf961" workflow
        && in_text "distribution: temurin" workflow
        && in_text "java-version: '21'" workflow)
      (codes "setup-java must use the frozen full SHA for Temurin 21")
  for_each (find_all uses (codes workflow))
      (λ match. require (is_pinned match) (codes "mutable GitHub Action reference: " ++ match))
  require
      (in_text "DOCKER=docker make verify" workflow
        && in_text "make delivery-check" workflow
        && in_text "git diff --exit-code" workflow)
      (codes "CI must run canonical verify, tracked diff check and delivery gate")
  require (not (in_text "services:" workflow))
      (codes "CI must not define a PostgreSQL service container")
  require (not (in_text "secrets." workflow) && not (in_text "write" workflow))
      (codes "CI must not require secrets or write permissions")
  require (in_text "cancel-in-progress: true" workflow)
      (codes "CI concurrency cancellation missing")

unfoldable pub check_dockerfile : String → Reported Text
unfolding in_text complain_if for_each
check_dockerfile dockerfile = do
  require
      (in_text
        "eclipse-temurin:21-jdk-jammy@sha256:55fb9bf738f5d9b4a6c01b39337e3070d3e27370dd3c478fd1d5d3cd2233c6d8"
        dockerfile)
      (codes "JDK base image digest mismatch")
  require
      (in_text
        "eclipse-temurin:21-jre-jammy@sha256:3097cbbebb7d490494a98aed2301f284b38f79eba158eef098c6fc8c8af11c23"
        dockerfile)
      (codes "JRE base image digest mismatch")

unfoldable pub check_pom : String → Reported Text
unfolding in_text complain_if for_each has_managed_registry
check_pom pom = do
  require (in_text "<artifactId>micrometer-registry-prometheus</artifactId>" pom)
      (codes "Prometheus registry dependency missing")
  require (has_managed_registry pom) (codes "Prometheus dependency must use Spring Boot BOM")

unfoldable pub check_app : String → Reported Text
unfolding in_text complain_if for_each
check_app app = do
  require (in_text "include: health,info,prometheus" app)
      (codes "Prometheus actuator exposure missing")
  require (in_text "show-details: never" app) (codes "health detail privacy contract changed")

unfoldable pub check_compose : String → Reported Text
unfolding in_text complain_if for_each
check_compose compose = do
  require (in_text "LOGGING_STRUCTURED_FORMAT_CONSOLE: logstash" compose)
      (codes "container Logstash JSON configuration missing")
