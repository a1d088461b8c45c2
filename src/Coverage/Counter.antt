-- ===== src/Coverage/Counter.antt =====
-- `Counter`, `counter`, `is_critical_package` and `aggregate_package_counter` of
-- scripts/check_emp008.py.
use coupon_service.Base.{
  Bool, false, ◌||◌, Option, none, some, List, [], ◌∷◌, ◌++◌, ◌=?◌, if◌then◌else◌, Text, codes,
  text_eq, starts_with, any_of,
}
use coupon_service.Base.Int.{ℤ, pos, ◌+ℤ◌, int_of}
use coupon_service.Coverage.Xml.{Element, get, or_empty, children, with_tag}

pub record Counter : Type 0 where
  pub missed : ℤ
  pub covered : ℤ

unfoldable pub total : Counter → ℤ
unfolding ◌+ℤ◌
total c = c.missed +ℤ c.covered

pub data CounterType : Type 0 where
  line branch : CounterType

abbrev pub counter_name : CounterType → Text
counter_name line = codes "LINE"
counter_name branch = codes "BRANCH"

-- `Counter(missed=int(...), covered=int(...))`, or `None` on a `ValueError`
abbrev pub counter_from : Option ℤ → Option ℤ → Option Counter
counter_from (some m) (some c) = some (record { missed = m; covered = c })
counter_from _ _ = none

unfoldable pub counter_of : Element → Option Counter
unfolding int_of
counter_of e =
    counter_from (int_of (or_empty (get (codes "missed") e)))
      (int_of (or_empty (get (codes "covered") e)))

-- `item.get("type") == counter_type`
abbrev pub is_some_text : Text → Option Text → Bool
is_some_text t none = false
is_some_text t (some s) = s =? t

unfoldable pub has_type : CounterType → Element → Bool
has_type ct e = is_some_text (counter_name ct) (get (codes "type") e)

-- the loop over the `counter` children: the first one of the type decides
unfoldable pub counter_among : CounterType → List Element → Option Counter
unfolding has_type counter_of
counter_among ct [] = none
counter_among ct (e ∷ es) = if has_type ct e then counter_of e else counter_among ct es

unfoldable pub counter : Element → CounterType → Option Counter
unfolding counter_among with_tag
counter e ct = counter_among ct (with_tag (codes "counter") (children e))

abbrev pub package_root : Text
package_root = codes "pl/radoslawpiatek/couponservice"

-- `CRITICAL_PREFIXES`
abbrev pub critical_prefixes : List Text
critical_prefixes =
    (package_root ++ codes "/coupon/domain")
    ∷ (package_root ++ codes "/coupon/application")
    ∷ (package_root ++ codes "/coupon/adapters/persistence")
    ∷ (package_root ++ codes "/geolocation/domain")
    ∷ (package_root ++ codes "/geolocation/adapters")
    ∷ []

unfoldable pub in_group : Text → Text → Bool
unfolding starts_with
in_group name prefix = name =? prefix || starts_with name (prefix ++ codes "/")

unfoldable pub is_critical_package : Text → Bool
unfolding in_group
is_critical_package name = any_of (in_group name) critical_prefixes

abbrev pub add_counter : Counter → Option Counter → Counter
add_counter sum none = sum
add_counter sum (some c) = record {
  missed = sum.missed +ℤ c.missed;
  covered = sum.covered +ℤ c.covered;
}

-- the loop of `aggregate_package_counter`
unfoldable pub aggregate_from : Counter → CounterType → List Element → Counter
unfolding counter
aggregate_from sum ct [] = sum
aggregate_from sum ct (p ∷ ps) = aggregate_from (add_counter sum (counter p ct)) ct ps

unfoldable pub aggregate_package_counter : List Element → CounterType → Counter
unfolding aggregate_from
aggregate_package_counter packages ct =
    aggregate_from (record { missed = pos 0; covered = pos 0 }) ct packages
