-- ===== src/Coverage/Main/Passing.antt =====
-- When scripts/check_emp008.py ends with status 0.
use mathlib.Core.Option.{some-injective}
use coupon_service.Base.{
  ap, ◌≡◌, refl, Bool, true, false, Bool-cases, inl, inr, Option, none, some, List, [], ◌∷◌, ◌++◌,
  map, arith, Text, is_empty,
}
use coupon_service.Contract.Report.{Report, reported, crashed, Clean}
use coupon_service.Contract.Repo.{Repo}
use coupon_service.Coverage.Floats.{Floats}
use coupon_service.Coverage.Main
use coupon_service.Coverage.Main.{
  Message, contract, problem, not_refused, report_needed, Outcome, passed, failed, traceback,
  finish, finish_tested, self_test, with_report, after_static,
}
use coupon_service.Coverage.ReportTree.{Problem, Files, Metrics, validate_report}
use coupon_service.Coverage.SelfTest.{Test}
use coupon_service.Coverage.StaticContract.{static_contract_errors}
use coupon_service.Coverage.Xml.{Element}

-- The run with `--self-test` printed its metrics.
finish-passed :
    (errors : List Message) (metrics m : Option Metrics) (tested t : Bool)
    → finish errors metrics tested ≡ passed m t
    → (errors ≡ []) × ((metrics ≡ m) × (tested ≡ t))
unfolding finish
finish-passed [] metrics m tested t h = ground arith
finish-passed (e ∷ es) metrics m tested t h = cc

append-empty {ℓ} : {A : Type ℓ} (xs ys : List A) → (xs ++ ys) ≡ [] → (xs ≡ []) × (ys ≡ [])
append-empty [] ys h = (refl, h)
append-empty (x ∷ xs) ys h = cc

map-empty {ℓ κ} : {A : Type ℓ} {B : Type κ} (f : A → B) (xs : List A) → map f xs ≡ [] → xs ≡ []
map-empty f [] h = refl
map-empty f (x ∷ xs) h = cc

empty-false {ℓ} : {A : Type ℓ} (xs : List A) → xs ≡ [] → is_empty xs ≡ false → ⊥
empty-false [] e h = cc
empty-false (x ∷ xs) e h = cc

module _ (fl : Floats) (x : Files) where
  -- The report is without errors, and where the self-test ran it found nothing.
  abbrev pub ReportPasses : Option x.Document → Bool → Metrics → Type 0
  ReportPasses file false metrics =
      ((validate_report fl x file).errors ≡ []) × ((validate_report fl x file).metrics ≡ metrics)
  ReportPasses file true metrics =
      ((validate_report fl x file).errors ≡ [])
      × (((validate_report fl x file).metrics ≡ metrics) × (self_test fl x file ≡ some []))

  abbrev errors_in : Option x.Document → List Problem
  errors_in file = (validate_report fl x file).errors

  tested-passed :
      (errors : List Message) (metrics m : Metrics) (o : Option (List Test)) (t : Bool)
      → finish_tested errors metrics o ≡ passed (some m) t
      → (errors ≡ []) × ((metrics ≡ m) × (o ≡ some []))
  tested-passed errors metrics m none t h = cc
  tested-passed errors metrics m (some failures) t h =
      let (none_left, (same, _)) =
        finish-passed (errors ++ map not_refused failures) _ _ true t h in
      let both = append-empty errors (map not_refused failures) none_left in
      let quiet = map-empty not_refused failures both.1 in
      (both.0, (some-injective metrics m same, ap some quiet))

  untested-passed :
      (errors : List Message) (found : List Problem) (metrics m : Metrics) (tested t : Bool)
      → finish (errors ++ map problem found) (some metrics) tested ≡ passed (some m) t
      → (errors ≡ []) × ((found ≡ []) × (metrics ≡ m))
  untested-passed errors found metrics m tested t h =
      let (none_left, (same, _)) =
        finish-passed (errors ++ map problem found) (some metrics) (some m) tested t h in
      let both = append-empty errors (map problem found) none_left in
      (both.0, (map-empty problem found both.1, some-injective metrics m same))

  with_report-passed :
      (errors : List Message) (file : Option x.Document) (tested t : Bool) (m : Metrics)
      → with_report fl x errors file tested ≡ passed (some m) t
      → (errors ≡ []) × ReportPasses file tested m
  unfolding with_report
  with_report-passed errors file false t m h = elim (Bool-cases (is_empty (errors_in file))) [
    | inl quiet ↦ untested-passed errors (errors_in file) _ m false t (rw quiet at h)
    | inr found ↦ untested-passed errors (errors_in file) _ m false t (rw found at h)
  ]
  with_report-passed errors file true t m h = elim (Bool-cases (is_empty (errors_in file))) [
    | inl quiet ↦
        let found = errors ++ map problem (errors_in file) in
        let (left, (same, tested)) = tested-passed found _ m _ t (rw quiet at h) in
        let both = append-empty errors (map problem (errors_in file)) left in
        (both.0, (map-empty problem (errors_in file) both.1, (same, tested)))
    | inr found ↦
        let untested = untested-passed errors (errors_in file) _ m true t (rw found at h) in
        (untested.0, absurd (empty-false (errors_in file) untested.1.0 found))
  ]

  static-passed :
      (r : Report) (file : Option x.Document) (tested t : Bool) (m : Metrics)
      → Main.on_static fl x r (some file) tested ≡ passed (some m) t
      → Clean r × ReportPasses file tested m
  unfolding after_static
  static-passed crashed file tested t m h = cc
  static-passed (reported es) file tested t m h =
      let (quiet, ok) = with_report-passed (map contract es) file tested t m h in
      (ap reported (map-empty contract es quiet), ok)

  -- A run with `--report` that ends with status 0 met the whole static contract and a report without
  -- errors, whose metrics it printed; with `--self-test` too, the negative self-test ended without an
  -- exception and without a failure.
  pub main-passed :
      (repo : Repo) (pom : Option Element) (ls_files : Option Text) (file : Option x.Document)
      (tested t : Bool) (m : Metrics)
      → Main.main fl x repo pom ls_files (some file) tested ≡ passed (some m) t
      → Clean (static_contract_errors repo pom ls_files) × ReportPasses file tested m
  unfolding Main.main after_static
  main-passed repo pom ls_files file tested t m h =
      static-passed (static_contract_errors repo pom ls_files) file tested t m h
