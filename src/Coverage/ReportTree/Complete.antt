-- ===== src/Coverage/ReportTree/Complete.antt =====
-- Which reports `validate_report_tree` of scripts/check_emp008.py finds no error in.
use coupon_service.Base.{
  ◌≡◌, refl, ◌↔◌, Bool, true, false, Bool-cases, inl, inr, Option, none, some, List, [], ◌∷◌, ◌++◌,
  arith, ◌=?◌, if◌then◌else◌, Text, codes, text_eq, contains, is_empty, any_of, map, Dict, All,
}
use coupon_service.Base.Int.{is_zero}
use coupon_service.Coverage.Counter.{
  Counter, CounterType, line, branch, counter, total, aggregate_package_counter, critical_prefixes,
  in_group,
}
use coupon_service.Coverage.Floats.{Floats}
use coupon_service.Coverage.ReportTree
use coupon_service.Coverage.ReportTree.{
  Scope, global, critical, Problem, counter_missing, below_minimum, group_missing, class_missing,
  Validation, ◌>>◌, problem, valid, minimum, name_of, group_of, each_group, required_classes,
  each_class, class_names, critical_packages, is_below, measured, critical_counter,
  validate_critical, validate_body, validate_report_tree,
}
use coupon_service.Coverage.Xml.{Element, tag}

abbrev pub Silent : Validation → Type 0
Silent v = v.errors ≡ []

append-empty {ℓ} : {A : Type ℓ} (xs ys : List A) → ((xs ++ ys) ≡ []) ↔ ((xs ≡ []) × (ys ≡ []))
append-empty [] ys = (λ h. (refl, h), λ (_, h). h)
append-empty (x ∷ xs) ys = (λ h. cc, λ (h, _). cc)

module _ (a b : Validation) where
  both {ℓ κ} : {P : Type ℓ} {Q : Type κ} → Silent a ↔ P → Silent b ↔ Q → Silent (a >> b) ↔ (P × Q)
  both f g = (
    λ h. let two = (append-empty a.errors b.errors).0 h in (f.0 two.0, g.0 two.1),
    λ (p, q). (append-empty a.errors b.errors).1 (f.1 p, g.1 q),
  )

Silent-unless :
    (holds : Bool) (p : Problem) → Silent (if holds then valid else problem p) ↔ (holds ≡ true)
Silent-unless true p = ground arith
Silent-unless false p = ground arith

-- some of the packages lies in the group
abbrev pub HasGroup : List Element → Text → Type 0
HasGroup packages prefix = any_of (λ name. in_group name prefix) (map name_of packages) ≡ true

groups-Silent :
    (packages : List Element) (prefixes : List Text)
    → Silent (each_group packages prefixes) ↔ All (HasGroup packages) prefixes
unfolding each_group group_of
groups-Silent packages [] = ground arith
groups-Silent packages (p ∷ ps) =
    both (group_of packages p) (each_group packages ps) (Silent-unless _ (group_missing p))
      (groups-Silent packages ps)

abbrev pub HasClass : List Text → Text × Text → Type 0
HasClass names (label, name) = contains name names ≡ true

classes-Silent :
    (names : List Text) (classes : Dict Text Text)
    → Silent (each_class names classes) ↔ All (HasClass names) classes
unfolding each_class
classes-Silent names [] = ground arith
classes-Silent names ((label, name) ∷ rest) =
    both (if contains name names then valid else problem (class_missing label name))
      (each_class names rest) (Silent-unless (contains name names) (class_missing label name))
      (classes-Silent names rest)

module _ (fl : Floats) where
  -- The counter counts something, and its share is not below the minimum.
  abbrev pub Suffices : Scope → CounterType → Counter → Type 0
  Suffices scope ct c = (is_zero (total c) ≡ false) × (is_below fl scope ct c ≡ false)

  abbrev pub GlobalSuffices : CounterType → Option Counter → Type 0
  GlobalSuffices ct none = ⊥
  GlobalSuffices ct (some c) = Suffices global ct c

  abbrev pub CriticalSuffices : List Element → Type 0
  CriticalSuffices packages =
      (is_empty packages ≡ false)
      × ((All (HasGroup packages) critical_prefixes
            × Suffices critical line (aggregate_package_counter packages line))
          × Suffices critical branch (aggregate_package_counter packages branch))

  -- the gates that the body of a report has to meet
  abbrev pub MeetsGates : Element → Type 0
  MeetsGates root =
      ((GlobalSuffices line (counter root line) × GlobalSuffices branch (counter root branch))
        × CriticalSuffices (critical_packages root))
      × All (HasClass (class_names root)) required_classes

  counted-Silent :
      (scope : Scope) (ct : CounterType) (c : Counter)
      → Silent (ReportTree.unless_empty fl scope ct c) ↔ Suffices scope ct c
  unfolding measured
  counted-Silent scope ct c = elim (Bool-cases (is_zero (total c))) [
    | inl nothing ↦ rw nothing (λ h. cc, λ (h, _). cc)
    | inr counts ↦ elim (Bool-cases (is_below fl scope ct c)) [
      | inl low ↦ rw (counts, low) (λ h. cc, λ (_, h). cc)
      | inr fine ↦ rw (counts, fine) (λ h. (refl, refl), λ h. refl)
    ]
  ]

  global-Silent :
      (ct : CounterType) (found : Option Counter)
      → Silent (ReportTree.global_counter fl ct found) ↔ GlobalSuffices ct found
  global-Silent ct none = (λ h. cc, λ h. absurd h)
  global-Silent ct (some c) = counted-Silent global ct c

  critical-Silent :
      (packages : List Element) → Silent (validate_critical fl packages) ↔ CriticalSuffices packages
  unfolding validate_critical critical_counter
  critical-Silent [] = (λ h. cc, λ (h, _). cc)
  critical-Silent (p ∷ ps) =
      let gates =
        both (each_group (p ∷ ps) critical_prefixes >> critical_counter fl (p ∷ ps) line)
          (critical_counter fl (p ∷ ps) branch)
          (both (each_group (p ∷ ps) critical_prefixes) (critical_counter fl (p ∷ ps) line)
            (groups-Silent (p ∷ ps) critical_prefixes) (counted-Silent critical line _))
          (counted-Silent critical branch _) in
      (λ h. (refl, gates.0 h), λ (_, h). gates.1 h)

  body-Silent : (root : Element) → Silent (validate_body fl root) ↔ MeetsGates root
  unfolding validate_body
  body-Silent root =
      let lines = ReportTree.global_counter fl line (counter root line) in
      let branches = ReportTree.global_counter fl branch (counter root branch) in
      let criticals = validate_critical fl (critical_packages root) in
      let classes = each_class (class_names root) required_classes in
      both (lines >> branches >> criticals) classes
        (both (lines >> branches) criticals
          (both lines branches (global-Silent line (counter root line))
            (global-Silent branch (counter root branch)))
          (critical-Silent (critical_packages root)))
        (classes-Silent (class_names root) required_classes)

  -- The checker finds no error in a tree exactly when its root is `report`, both global counters are
  -- there, count something and are not below their minimum, there are critical packages in each of the
  -- five groups whose summed counters count something and are not below theirs, and each required class
  -- is listed.
  pub validate_report_tree-Silent :
      (root : Element)
      → Silent (validate_report_tree fl root)
        ↔ (((tag root =? codes "report") ≡ true) × MeetsGates root)
  unfolding validate_report_tree
  validate_report_tree-Silent root = elim (Bool-cases (tag root =? codes "report")) [
    | inl report ↦ rw report (λ h. (refl, (body-Silent root).0 h), λ (_, h). (body-Silent root).1 h)
    | inr other ↦ rw other (λ h. cc, λ (h, _). cc)
  ]
