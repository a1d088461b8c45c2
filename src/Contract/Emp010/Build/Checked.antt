-- ===== src/Contract/Emp010/Build/Checked.antt =====
-- When the checks of the workflow, the images and the configuration find no error.
use coupon_service.Base.{◌≡◌, true, not, ◌&&◌, ◌++◌, String, codes, All}
use coupon_service.Contract.Emp010.Pattern.{uses, is_pinned, has_managed_registry}
use coupon_service.Contract.Laws.{Checks, seq, each, unless}
use coupon_service.Contract.Repo.{in_text}
use coupon_service.Documentation.Pattern.{find_all}
use coupon_service.Contract.Emp010.Build.{
  check_workflow, check_dockerfile, check_pom, check_app, check_compose,
}

abbrev pub IsWorkflow : String → Type 0
IsWorkflow workflow =
    (((in_text "pull_request:" workflow
          && in_text "workflow_dispatch:" workflow
          && in_text "branches: [main]" workflow)
        ≡ true)
      × (((in_text "runs-on: ubuntu-24.04" workflow && in_text "timeout-minutes: 30" workflow)
            ≡ true)
          × (((in_text "permissions:\n  contents: read" workflow) ≡ true)
              × (((not (in_text "pull_request_target" workflow)) ≡ true)
                  × (((in_text "actions/checkout@3d3c42e5aac5ba805825da76410c181273ba90b1" workflow
                          && in_text "persist-credentials: false" workflow)
                        ≡ true)
                      × (((in_text "actions/setup-java@b6effb05e454b25005698d916606bdc6ffcbf961"
                                workflow
                              && in_text "distribution: temurin" workflow
                              && in_text "java-version: '21'" workflow)
                            ≡ true)
                          × (All (λ match. (is_pinned match) ≡ true)
                                (find_all uses (codes workflow))
                              × (((in_text "DOCKER=docker make verify" workflow
                                      && in_text "make delivery-check" workflow
                                      && in_text "git diff --exit-code" workflow)
                                    ≡ true)
                                  × (((not (in_text "services:" workflow)) ≡ true)
                                      × (((not (in_text "secrets." workflow)
                                              && not (in_text "write" workflow))
                                            ≡ true)
                                          × ((in_text "cancel-in-progress: true" workflow)
                                              ≡ true)))))))))))

pub check_workflow-Checks :
    (workflow : String) → Checks (check_workflow workflow) (IsWorkflow workflow)
unfolding check_workflow
check_workflow-Checks workflow =
    (seq _ _
      (unless
        (in_text "pull_request:" workflow
          && in_text "workflow_dispatch:" workflow
          && in_text "branches: [main]" workflow)
        (codes "CI triggers are incomplete"))
      (seq _ _
        (unless (in_text "runs-on: ubuntu-24.04" workflow && in_text "timeout-minutes: 30" workflow)
          (codes "CI runner/timeout contract missing"))
        (seq _ _
          (unless (in_text "permissions:\n  contents: read" workflow)
            (codes "CI permissions must be contents: read"))
          (seq _ _
            (unless (not (in_text "pull_request_target" workflow))
              (codes "pull_request_target is forbidden"))
            (seq _ _
              (unless
                (in_text "actions/checkout@3d3c42e5aac5ba805825da76410c181273ba90b1" workflow
                  && in_text "persist-credentials: false" workflow)
                (codes "checkout must use the frozen full SHA with credentials disabled"))
              (seq _ _
                (unless
                  (in_text "actions/setup-java@b6effb05e454b25005698d916606bdc6ffcbf961" workflow
                    && in_text "distribution: temurin" workflow
                    && in_text "java-version: '21'" workflow)
                  (codes "setup-java must use the frozen full SHA for Temurin 21"))
                (seq _ _
                  (each (λ match. (is_pinned match) ≡ true) (find_all uses (codes workflow)) _
                    (λ match.
                      unless (is_pinned match)
                        (codes "mutable GitHub Action reference: " ++ match)))
                  (seq _ _
                    (unless
                      (in_text "DOCKER=docker make verify" workflow
                        && in_text "make delivery-check" workflow
                        && in_text "git diff --exit-code" workflow)
                      (codes "CI must run canonical verify, tracked diff check and delivery gate"))
                    (seq _ _
                      (unless (not (in_text "services:" workflow))
                        (codes "CI must not define a PostgreSQL service container"))
                      (seq _ _
                        (unless
                          (not (in_text "secrets." workflow) && not (in_text "write" workflow))
                          (codes "CI must not require secrets or write permissions"))
                        (unless (in_text "cancel-in-progress: true" workflow)
                          (codes "CI concurrency cancellation missing"))))))))))))

abbrev pub IsDockerfile : String → Type 0
IsDockerfile dockerfile =
    (((in_text
          "eclipse-temurin:21-jdk-jammy@sha256:55fb9bf738f5d9b4a6c01b39337e3070d3e27370dd3c478fd1d5d3cd2233c6d8"
          dockerfile)
        ≡ true)
      × ((in_text
            "eclipse-temurin:21-jre-jammy@sha256:3097cbbebb7d490494a98aed2301f284b38f79eba158eef098c6fc8c8af11c23"
            dockerfile)
          ≡ true))

pub check_dockerfile-Checks :
    (dockerfile : String) → Checks (check_dockerfile dockerfile) (IsDockerfile dockerfile)
unfolding check_dockerfile
check_dockerfile-Checks dockerfile =
    (seq _ _
      (unless
        (in_text
          "eclipse-temurin:21-jdk-jammy@sha256:55fb9bf738f5d9b4a6c01b39337e3070d3e27370dd3c478fd1d5d3cd2233c6d8"
          dockerfile)
        (codes "JDK base image digest mismatch"))
      (unless
        (in_text
          "eclipse-temurin:21-jre-jammy@sha256:3097cbbebb7d490494a98aed2301f284b38f79eba158eef098c6fc8c8af11c23"
          dockerfile)
        (codes "JRE base image digest mismatch")))

abbrev pub IsPom : String → Type 0
IsPom pom =
    (((in_text "<artifactId>micrometer-registry-prometheus</artifactId>" pom) ≡ true)
      × ((has_managed_registry pom) ≡ true))

pub check_pom-Checks : (pom : String) → Checks (check_pom pom) (IsPom pom)
unfolding check_pom
check_pom-Checks pom =
    (seq _ _
      (unless (in_text "<artifactId>micrometer-registry-prometheus</artifactId>" pom)
        (codes "Prometheus registry dependency missing"))
      (unless (has_managed_registry pom) (codes "Prometheus dependency must use Spring Boot BOM")))

abbrev pub IsApp : String → Type 0
IsApp app =
    (((in_text "include: health,info,prometheus" app) ≡ true)
      × ((in_text "show-details: never" app) ≡ true))

pub check_app-Checks : (app : String) → Checks (check_app app) (IsApp app)
unfolding check_app
check_app-Checks app =
    (seq _ _
      (unless (in_text "include: health,info,prometheus" app)
        (codes "Prometheus actuator exposure missing"))
      (unless (in_text "show-details: never" app) (codes "health detail privacy contract changed")))

abbrev pub IsCompose : String → Type 0
IsCompose compose = ((in_text "LOGGING_STRUCTURED_FORMAT_CONSOLE: logstash" compose) ≡ true)

pub check_compose-Checks : (compose : String) → Checks (check_compose compose) (IsCompose compose)
unfolding check_compose
check_compose-Checks compose =
    (unless (in_text "LOGGING_STRUCTURED_FORMAT_CONSOLE: logstash" compose)
      (codes "container Logstash JSON configuration missing"))
