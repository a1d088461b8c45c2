-- ===== src/Examples/Coverage.antt =====
-- A build and a coverage report that scripts/check_emp008.py accepts.
use coupon_service.Base.{
  ℕ, ◌<◌, ◌≤◌, ◌≡◌, ◌≢◌, refl, ◌↔◌, Bool, true, false, Option, none, some, List, [], ◌∷◌, ◌++◌,
  arith, map, String, ◌<>◌, Text, codes, ◌=?◌, text_eq, text_beq, ltb, All,
}
use coupon_service.Base.Int.{pos}
use coupon_service.Contract.Report.{Clean}
use coupon_service.Contract.Repo.{Repo, Item}
use coupon_service.Contract.Repo
use coupon_service.Coverage.Counter.{
  CounterType, line, branch, counter, package_root, critical_prefixes,
}
use coupon_service.Coverage.Floats.{fractions, fractions-IsExact}
use coupon_service.Coverage.Main
use coupon_service.Coverage.Main.{passed}
use coupon_service.Coverage.Main.Passing.{ReportPasses, main-passed}
use coupon_service.Coverage.ReportTree.{
  global, critical, Metrics, memory_files, memory_files-IsFaithful, validate_report_tree,
  required_classes, critical_packages,
}
use coupon_service.Coverage.ReportTree.Complete.{MeetsGates, validate_report_tree-Silent}
use coupon_service.Coverage.SelfTest.{self_test_tree}
use coupon_service.Coverage.SelfTest.FailsClosed.{self_test_tree-fails_closed}
use coupon_service.Coverage.StaticContract.{Gate, gates, named, static_contract_errors}
use coupon_service.Coverage.Xml.{Element, element, Elements, nil, cons, tag}

abbrev elements : List Element → Elements
elements [] = nil
elements (e ∷ es) = cons e (elements es)

abbrev counter_example : String → String → String → Element
counter_example type missed covered =
    element (codes "counter")
      ((codes "type", codes type)
        ∷ (codes "missed", codes missed)
        ∷ (codes "covered", codes covered)
        ∷ [])
      none nil

abbrev class_example : Text → Element
class_example name = element (codes "class") ((codes "name", name) ∷ []) none nil

-- 9 lines and 4 branches of the package are covered, 1 of each is missed
abbrev package_example : Text → List Text → Element
package_example name classes = element (codes "package") ((codes "name", name) ∷ []) none (
    elements (
      map class_example classes
      ++ counter_example "LINE" "1" "9" ∷ counter_example "BRANCH" "1" "4" ∷ []))

abbrev class_names_example : List Text
class_names_example = map (λ (label, name). name) required_classes

abbrev packages_example : List Element
packages_example = map (λ prefix. package_example prefix class_names_example) critical_prefixes

abbrev report_example : Element
report_example = element (codes "report") [] none (
    elements (
      packages_example
      ++ counter_example "LINE" "10" "90" ∷ counter_example "BRANCH" "5" "20" ∷ []))

validate_report_tree-Silent_example :
    ((tag report_example =? codes "report") ≡ true) × MeetsGates fractions report_example
unfolding validate_report_tree text_beq
validate_report_tree-Silent_example = (validate_report_tree-Silent fractions report_example).0 refl

report_example-counter : (ct : CounterType) → counter report_example ct ≢ none
unfolding counter text_beq
report_example-counter line h = cc
report_example-counter branch h = cc

abbrev first_example : Element
first_example = package_example (package_root ++ codes "/coupon/domain") class_names_example

first_example-counter : (ct : CounterType) → counter first_example ct ≢ none
unfolding counter text_beq
first_example-counter line h = cc
first_example-counter branch h = cc

abbrev others_example : List Element
others_example =
    package_example (package_root ++ codes "/coupon/application") class_names_example
    ∷ package_example (package_root ++ codes "/coupon/adapters/persistence") class_names_example
    ∷ package_example (package_root ++ codes "/geolocation/domain") class_names_example
    ∷ package_example (package_root ++ codes "/geolocation/adapters") class_names_example
    ∷ []

self_test_tree-fails_closed_example : self_test_tree fractions memory_files report_example ≡ some []
unfolding critical_packages text_beq
self_test_tree-fails_closed_example =
    self_test_tree-fails_closed fractions fractions-IsExact memory_files memory_files-IsFaithful
      report_example first_example others_example report_example-counter refl first_example-counter

-- an element of pom.xml with its text, and one with children
abbrev leaf : String → String → Element
leaf name content = element (named name) [] (some (codes content)) nil

abbrev inner : String → List Element → Element
inner name kids = element (named name) [] none (elements kids)

abbrev limit_example : String → String → Element
limit_example type minimum =
    inner "limit" (leaf "counter" type ∷ leaf "value" "COVEREDRATIO" ∷ leaf "minimum" minimum ∷ [])

abbrev rule_example : Gate → Element
rule_example g = inner "rules" (
    inner "rule" (
      leaf "element" "BUNDLE"
      ∷ inner "limits" (limit_example "LINE" g.line ∷ limit_example "BRANCH" g.branch ∷ [])
      ∷ [])
    ∷ [])

abbrev gate_example : Gate → Element
gate_example g = inner "execution" (
    leaf "id" g.id
    ∷ leaf "phase" "verify"
    ∷ inner "goals" (leaf "goal" "check" ∷ [])
    ∷ inner "configuration"
        (inner "includes" (map (leaf "include") g.includes) ∷ rule_example g ∷ [])
    ∷ [])

abbrev prepare_example : Element
prepare_example = inner "execution" (
    leaf "id" "jacoco-prepare-agent"
    ∷ inner "goals" (leaf "goal" "prepare-agent" ∷ [])
    ∷ inner "configuration"
        (leaf "destFile" "${project.build.directory}/jacoco.exec" ∷ leaf "append" "true" ∷ [])
    ∷ [])

abbrev report_execution : Element
report_execution = inner "execution" (
    leaf "id" "jacoco-report"
    ∷ leaf "phase" "verify"
    ∷ inner "goals" (leaf "goal" "report" ∷ [])
    ∷ [])

abbrev pom_example : Element
pom_example = inner "project" (
    inner "properties" (leaf "jacoco-maven-plugin.version" "0.8.15" ∷ [])
    ∷ inner "build" (
        inner "plugins" (
          inner "plugin" (
            leaf "groupId" "org.jacoco"
            ∷ leaf "artifactId" "jacoco-maven-plugin"
            ∷ leaf "version" "${jacoco-maven-plugin.version}"
            ∷ inner "executions" (prepare_example ∷ report_execution ∷ map gate_example gates)
            ∷ [])
          ∷ [])
        ∷ [])
    ∷ [])

abbrev repo_example : Repo
repo_example =
    (".git", Repo.directory)
    ∷ (".gitignore", Repo.text ".idea/\ntarget/\n")
    ∷ ("pom.xml", Repo.text "<project/>")
    ∷ []

abbrev metrics_example : Metrics
metrics_example =
    ((global, line), record { missed = pos 10; covered = pos 90 })
    ∷ ((global, branch), record { missed = pos 5; covered = pos 20 })
    ∷ ((critical, line), record { missed = pos 5; covered = pos 45 })
    ∷ ((critical, branch), record { missed = pos 5; covered = pos 20 })
    ∷ []

main-passed_example :
    Clean (static_contract_errors repo_example (some pom_example) (some (codes "pom.xml\n")))
    × ReportPasses fractions memory_files (some (some report_example)) true metrics_example
unfolding Main.main text_beq Repo.has_prompt_file coupon_service.Base.split_on
    coupon_service.Base.insert
main-passed_example =
    main-passed fractions memory_files repo_example (some pom_example) (some (codes "pom.xml\n"))
      (some (some report_example)) true true metrics_example refl
