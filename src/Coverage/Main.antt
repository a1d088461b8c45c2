-- ===== src/Coverage/Main.antt =====
-- `main` of scripts/check_emp008.py: the static contract, then the report and the negative self-test
-- where they are asked for.
pub mod Passing
use coupon_service.Base.{
  ◌≡◌, refl, Bool, true, false, not, ◌&&◌, Option, none, some, List, [], ◌∷◌, ◌++◌, map, String,
  if◌then◌else◌, Text, is_empty,
}
use coupon_service.Contract.Report.{Report, reported, crashed}
use coupon_service.Contract.Repo.{Repo}
use coupon_service.Coverage.Floats.{Floats}
use coupon_service.Coverage.ReportTree.{Problem, Files, Metrics, Validation, validate_report}
use coupon_service.Coverage.SelfTest.{Test, run_negative_self_test}
use coupon_service.Coverage.StaticContract.{static_contract_errors}
use coupon_service.Coverage.Xml.{Element}

-- an element of the list `errors`
pub data Message : Type 0 where
  contract : String → Message
  report_needed : Message
  problem : Problem → Message
  not_refused : Test → Message

-- The status 0 with the metrics that are printed, and whether the line on the self-test is; the
-- status 1 with the errors; an exception.
pub data Outcome : Type 0 where
  passed : Option Metrics → Bool → Outcome
  failed : List Message → Outcome
  traceback : Outcome

unfoldable pub finish : List Message → Option Metrics → Bool → Outcome
finish [] metrics tested = passed metrics tested
finish (e ∷ es) metrics tested = failed (e ∷ es)

abbrev pub finish_tested : List Message → Metrics → Option (List Test) → Outcome
finish_tested errors metrics none = traceback
finish_tested errors metrics (some failures) =
    finish (errors ++ map not_refused failures) (some metrics) true

module _ (fl : Floats) (x : Files) where
  -- `args.report`: no option, or a path at which there is a document or nothing
  abbrev pub OptionReport : Type 0
  OptionReport = Option (Option x.Document)

  -- `run_negative_self_test` on the file at the path; a report without errors is there
  abbrev pub self_test : Option x.Document → Option (List Test)
  self_test none = none
  self_test (some report) = run_negative_self_test fl x report

  unfoldable pub with_report : List Message → Option x.Document → Bool → Outcome
  unfolding validate_report run_negative_self_test finish
  with_report errors file self_tested =
      let v = validate_report fl x file in
      let found = errors ++ map problem v.errors in
      if is_empty v.errors && self_tested
      then finish_tested found v.metrics (self_test file)
      else finish found (some v.metrics) self_tested

  -- what follows the static errors
  unfoldable pub after_static : List Message → OptionReport → Bool → Outcome
  unfolding with_report finish
  after_static errors none true = finish (errors ++ (report_needed ∷ [])) none true
  after_static errors none false = finish errors none false
  after_static errors (some file) self_tested = with_report errors file self_tested

  abbrev pub on_static : Report → OptionReport → Bool → Outcome
  on_static crashed report self_tested = traceback
  on_static (reported es) report self_tested = after_static (map contract es) report self_tested

  unfoldable pub main : Repo → Option Element → Option Text → OptionReport → Bool → Outcome
  unfolding static_contract_errors after_static
  main repo pom ls_files report self_tested =
      on_static (static_contract_errors repo pom ls_files) report self_tested
