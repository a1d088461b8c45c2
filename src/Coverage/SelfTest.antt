-- ===== src/Coverage/SelfTest.antt =====
-- `run_negative_self_test` of scripts/check_emp008.py: controlled damage to a report, each of which
-- the report checker has to refuse. `none` is an exception, such as the `StopIteration` of `next`.
pub mod Damage
pub mod Critical
pub mod Refusal
pub mod FailsClosed
use coupon_service.Base.{
  ℕ, ◌≡◌, refl, Bool, true, false, ◌&&◌, Option, none, some, List, [], ◌∷◌, ◌++◌, ◌=?◌,
  if◌then◌else◌, Text, codes, text_eq, is_empty,
}
use coupon_service.Base.Int.{decimal}
use coupon_service.Coverage.Counter.{CounterType, line, branch, has_type, is_critical_package}
use coupon_service.Coverage.Floats.{Floats}
use coupon_service.Coverage.ReportTree.{Scope, global, critical, Files, name_of, validate_report}
use coupon_service.Coverage.Xml.{Element, element, Elements, nil, cons, tag, children, set}

abbrev pub with_children : Element → Elements → Element
with_children (element t attrs s kids) kids' = element t attrs s kids'

abbrev pub is_counter : CounterType → Element → Bool
is_counter ct e = tag e =? codes "counter" && has_type ct e

abbrev pub is_critical : Element → Bool
is_critical e = tag e =? codes "package" && is_critical_package (name_of e)

-- `item.set("missed", ...)` and `item.set("covered", ...)`
unfoldable pub set_counts : ℕ → ℕ → Element → Element
unfolding set decimal
set_counts missed covered e =
    set (codes "covered") (decimal covered) (set (codes "missed") (decimal missed) e)

abbrev pub cons_to : Element → Option Elements → Option Elements
cons_to e none = none
cons_to e (some es) = some (cons e es)

-- The first counter of the type among the children is set; `none` if there is none.
unfoldable pub set_first : CounterType → ℕ → ℕ → Elements → Option Elements
unfolding set_counts
set_first ct m c nil = none
set_first ct m c (cons e es) =
    if is_counter ct e then some (cons (set_counts m c e) es) else cons_to e (set_first ct m c es)

abbrev pub set_in : Element → Option Elements → Option Element
set_in e none = none
set_in e (some kids) = some (with_children e kids)

-- the mutator of `set_root_counter`
unfoldable pub damage_global : CounterType → ℕ → ℕ → Element → Option Element
unfolding set_first
damage_global ct m c root = set_in root (set_first ct m c (children root))

abbrev pub or_same : Element → Option Element → Element
or_same e none = e
or_same e (some e') = e'

-- the body of the loop over the critical packages
unfoldable pub clear_package : CounterType → Element → Element
unfolding set_first
clear_package ct p = or_same p (set_in p (set_first ct 0 0 (children p)))

unfoldable pub clear_critical : CounterType → Elements → Elements
unfolding clear_package
clear_critical ct nil = nil
clear_critical ct (cons e es) =
    cons (if is_critical e then clear_package ct e else e) (clear_critical ct es)

abbrev pub cons_element : Option Element → Elements → Option Elements
cons_element none es = none
cons_element (some e) es = some (cons e es)

-- `critical[0]` gets the counts
unfoldable pub set_first_critical : CounterType → ℕ → ℕ → Elements → Option Elements
unfolding set_first
set_first_critical ct m c nil = none
set_first_critical ct m c (cons e es) =
    if is_critical e
    then cons_element (set_in e (set_first ct m c (children e))) es
    else cons_to e (set_first_critical ct m c es)

-- the mutator of the loop over the critical thresholds
unfoldable pub damage_critical : CounterType → ℕ → ℕ → Element → Option Element
unfolding clear_critical set_first_critical
damage_critical ct m c root =
    set_in root (set_first_critical ct m c (clear_critical ct (children root)))

unfoldable pub without_critical : Elements → Elements
without_critical nil = nil
without_critical (cons e es) =
    let rest = without_critical es in if is_critical e then rest else cons e rest

unfoldable pub remove_critical : Element → Element
unfolding without_critical
remove_critical root = with_children root (without_critical (children root))

-- the name of a test that did not fail closed
pub data Test : Type 0 where
  below_threshold : Scope → CounterType → Test
  missing_critical malformed_xml : Test

-- two tests in turn; an exception ends the run
infixl 5 ◌>>◌
abbrev pub ◌>>◌ : Option (List Test) → Option (List Test) → Option (List Test)
none >> k = none
some fs >> none = none
some fs >> some gs = some (fs ++ gs)

module _ (fl : Floats) (x : Files) where
  -- `if not errors: failures.append(...)` for a document
  unfoldable pub refuses : Test → x.Document → List Test
  unfolding validate_report
  refuses test d = if is_empty (validate_report fl x (some d)).errors then test ∷ [] else []

  -- `expect_failure(name, mutator)` on the outcome of the mutator
  abbrev pub expect_failure : Test → Option Element → Option (List Test)
  expect_failure test none = none
  expect_failure test (some root) = some (refuses test (x.write root))

  unfoldable pub self_test_tree : Element → Option (List Test)
  unfolding damage_global damage_critical remove_critical refuses
  self_test_tree root = do
    expect_failure (below_threshold global line) (damage_global line 21 79 root)
    expect_failure (below_threshold global branch) (damage_global branch 31 69 root)
    expect_failure (below_threshold critical line) (damage_critical line 26 74 root)
    expect_failure (below_threshold critical branch) (damage_critical branch 36 64 root)
    expect_failure missing_critical (some (remove_critical root))
    some (refuses malformed_xml x.unclosed_report)

  abbrev pub on_tree : Option Element → Option (List Test)
  on_tree none = none
  on_tree (some root) = self_test_tree root

  -- `ET.parse(report)` is made anew.
  unfoldable pub run_negative_self_test : x.Document → Option (List Test)
  unfolding self_test_tree
  run_negative_self_test report = on_tree (x.parse report)
