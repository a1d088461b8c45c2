-- ===== src/Coverage/ReportTree.antt =====
-- `validate_report_tree` and `validate_report` of scripts/check_emp008.py.
pub mod Complete
use coupon_service.Base.{
  ◌≡◌, refl, Bool, true, false, not, ◌&&◌, ◌||◌, Option, none, some, List, [], ◌∷◌, ◌++◌, ◌=?◌,
  if◌then◌else◌, Text, codes, text_eq, contains, is_empty, any_of, select, map, Dict, insert,
}
use coupon_service.Base.Int.{ℤ, is_zero}
use coupon_service.Coverage.Counter.{
  Counter, CounterType, line, branch, counter, total, aggregate_package_counter, package_root,
  critical_prefixes, in_group, is_critical_package,
}
use coupon_service.Coverage.Floats.{Minimum, minimum_80, minimum_75, minimum_70, minimum_65, Floats}
use coupon_service.Coverage.Xml.{
  Element, tag, get, or_empty, children, with_tag, findall, flat_find,
}

-- Which counters a threshold is about.
pub data Scope : Type 0 where
  global critical : Scope

-- A message of the report checker, with what it quotes.
pub data Problem : Type 0 where
  report_missing report_malformed wrong_root no_critical_packages : Problem
  counter_missing : Scope → CounterType → Problem
  below_minimum : Scope → CounterType → Counter → Minimum → Problem
  group_missing : Text → Problem
  class_missing : Text → Text → Problem

-- the key `f"{scope}_{counter_type}"`
abbrev pub Metrics : Type 0
Metrics = List ((Scope × CounterType) × Counter)

-- the tuple that is returned
pub record Validation : Type 0 where
  pub errors : List Problem
  pub metrics : Metrics

-- Two steps of the function, each with what it adds.
infixl 5 ◌>>◌
abbrev pub ◌>>◌ : Validation → Validation → Validation
a >> b = record { errors = a.errors ++ b.errors; metrics = a.metrics ++ b.metrics }

abbrev pub problem : Problem → Validation
problem p = record { errors = p ∷ []; metrics = [] }

abbrev pub valid : Validation
valid = record { errors = []; metrics = [] }

-- the thresholds, by scope
abbrev pub minimum : Scope → CounterType → Minimum
minimum global line = minimum_80
minimum global branch = minimum_70
minimum critical line = minimum_75
minimum critical branch = minimum_65

abbrev pub name_of : Element → Text
name_of e = or_empty (get (codes "name") e)

abbrev pub packages_of : Element → List Element
packages_of root = with_tag (codes "package") (children root)

-- the critical packages, in the order of the report
unfoldable pub critical_packages : Element → List Element
unfolding is_critical_package with_tag
critical_packages root = select (λ p. is_critical_package (name_of p)) (packages_of root)

unfoldable pub group_of : List Element → Text → Validation
unfolding in_group
group_of packages prefix =
    if any_of (λ name. in_group name prefix) (map name_of packages)
    then valid
    else problem (group_missing prefix)

unfoldable pub each_group : List Element → List Text → Validation
unfolding group_of
each_group packages [] = valid
each_group packages (p ∷ ps) = group_of packages p >> each_group packages ps

abbrev pub class_path : Text → Text
class_path rest = package_root ++ rest

abbrev pub required_classes : Dict Text Text
required_classes =
    (
      codes "coupon persistence",
      class_path (codes "/coupon/adapters/persistence/JdbcCouponRedemptionRepository"),
    )
    ∷ (
      codes "transactional redemption",
      class_path (codes "/coupon/application/TransactionalCouponRedemptionService"),
    )
    ∷ (
      codes "geolocation adapter",
      class_path (codes "/geolocation/adapters/ServletClientIpResolver"),
    )
    ∷ []

unfoldable pub class_names : Element → List Text
unfolding findall
class_names root = map name_of (findall (codes "package" ∷ codes "class" ∷ []) root)

unfoldable pub each_class : List Text → Dict Text Text → Validation
each_class names [] = valid
each_class names ((label, class_name) ∷ rest) =
    (if contains class_name names then valid else problem (class_missing label class_name))
    >> each_class names rest

-- XML files: what can stand in one, whether it has no bytes, `ET.parse` with `none` for a `ParseError`,
-- `ElementTree.write`, and the file that holds the bytes `<report>`.
pub record Files : Type 1 where
  pub Document : Type 0
  pub is_blank : Document → Bool
  pub parse : Document → Option Element
  pub write : Element → Document
  pub unclosed_report : Document

-- A tree that is written is read back, no written file is empty, and the open tag alone is no XML.
pub record IsFaithful (x : Files) : Type 0 where
  pub parse-write : (e : Element) → x.parse (x.write e) ≡ some e
  pub written : (e : Element) → x.is_blank (x.write e) ≡ false
  pub malformed : x.parse x.unclosed_report ≡ none

-- These can be met: a file is a tree or broken.
abbrev pub memory_files : Files
memory_files = record {
  Document = Option Element;
  is_blank = λ d. false;
  parse = λ d. d;
  write = some;
  unclosed_report = none;
}

pub memory_files-IsFaithful : IsFaithful memory_files
memory_files-IsFaithful = record { parse-write = λ e. refl; written = λ e. refl; malformed = refl }

module _ (fl : Floats) where
  -- `Counter.ratio`
  unfoldable pub ratio : Counter → fl.F
  unfolding total
  ratio c = if is_zero (total c) then fl.one else fl.divide c.covered (total c)

  -- `current.ratio < minimum`
  unfoldable pub is_below : Scope → CounterType → Counter → Bool
  unfolding ratio
  is_below scope ct c = fl.below (ratio c) (fl.literal (minimum scope ct))

  -- the end of both threshold loops: the metric, and the comparison
  unfoldable pub measured : Scope → CounterType → Counter → Validation
  unfolding is_below
  measured scope ct c = record {
    errors = if is_below scope ct c then below_minimum scope ct c (minimum scope ct) ∷ [] else [];
    metrics = ((scope, ct), c) ∷ [];
  }

  abbrev pub unless_empty : Scope → CounterType → Counter → Validation
  unless_empty scope ct c =
      if is_zero (total c) then problem (counter_missing scope ct) else measured scope ct c

  abbrev pub global_counter : CounterType → Option Counter → Validation
  global_counter ct none = problem (counter_missing global ct)
  global_counter ct (some c) = unless_empty global ct c

  unfoldable pub critical_counter : List Element → CounterType → Validation
  unfolding aggregate_package_counter
  critical_counter packages ct = unless_empty critical ct (aggregate_package_counter packages ct)

  unfoldable pub validate_critical : List Element → Validation
  unfolding each_group critical_counter
  validate_critical [] = problem no_critical_packages
  validate_critical (p ∷ ps) =
      each_group (p ∷ ps) critical_prefixes
      >> critical_counter (p ∷ ps) line
      >> critical_counter (p ∷ ps) branch

  -- what follows the test of the root element
  unfoldable pub validate_body : Element → Validation
  unfolding counter measured critical_packages validate_critical class_names each_class
  validate_body root =
      global_counter line (counter root line)
      >> global_counter branch (counter root branch)
      >> validate_critical (critical_packages root)
      >> each_class (class_names root) required_classes

  unfoldable pub validate_report_tree : Element → Validation
  unfolding validate_body
  validate_report_tree root =
      if not (tag root =? codes "report") then problem wrong_root else validate_body root

  -- the report that was parsed, or a `ParseError`
  abbrev pub validate_parsed : Option Element → Validation
  validate_parsed none = problem report_malformed
  validate_parsed (some root) = validate_report_tree root

  -- `validate_report` on what stands in the file, `none` where there is no file
  unfoldable pub validate_report : (x : Files) → Option x.Document → Validation
  unfolding validate_report_tree
  validate_report x none = problem report_missing
  validate_report x (some d) =
      if x.is_blank d then problem report_missing else validate_parsed (x.parse d)
