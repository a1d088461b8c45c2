-- ===== src/Coverage/SelfTest/Refusal.antt =====
-- When the report checker of scripts/check_emp008.py refuses a tree.
use Prim.Native.Nat.add
use coupon_service.Base.{
  ℕ, ◌+◌, ◌*◌, ◌^◌, ◌≤◌, ◌<◌, ◌≡◌, ◌⊎◌, refl, ◌∙◌, true, false, Bool-cases, inl, inr, some, List,
  [], ◌∷◌, ◌++◌, arith, ltb, ◌=?◌, codes, text_eq, is_empty,
}
use coupon_service.Base.Int.{pos-add, is_zero}
use coupon_service.Coverage.Counter.{
  critical_prefixes, Counter, CounterType, line, branch, counter, total, aggregate_package_counter,
  aggregate_from, add_counter,
}
use coupon_service.Coverage.Floats.{Floats, IsExact, percent}
use coupon_service.Coverage.ReportTree
use coupon_service.Coverage.ReportTree.{
  Scope, global, critical, Validation, Files, IsFaithful, minimum, measured, global_counter,
  critical_counter, critical_packages, validate_critical, each_group, each_class, class_names,
  required_classes, ◌>>◌, is_below, ratio, validate_body, validate_report_tree, validate_report,
}
use coupon_service.Coverage.SelfTest.{remove_critical, without_critical, with_children}
use coupon_service.Coverage.SelfTest.Damage.{counts}
use coupon_service.Coverage.SelfTest.Critical.{critical_among, Damaged, critical-without_critical}
use coupon_service.Coverage.Xml.{Element, element, Elements, tag, children}

-- The checker has something to say.
abbrev pub Refused : Validation → Type 0
Refused v = is_empty v.errors ≡ false

is_empty-append {ℓ} :
    {A : Type ℓ} (xs ys : List A)
    → (is_empty xs ≡ false) ⊎ (is_empty ys ≡ false)
    → is_empty (xs ++ ys) ≡ false
is_empty-append [] ys h = ground arith
is_empty-append (x ∷ xs) ys h = refl

Refused-left : (a b : Validation) → Refused a → Refused (a >> b)
Refused-left a b h = is_empty-append a.errors b.errors (inl h)

Refused-right : (a b : Validation) → Refused b → Refused (a >> b)
Refused-right a b h = is_empty-append a.errors b.errors (inr h)

critical_packages-with_children :
    (root : Element) (kids : Elements)
    → critical_packages (with_children root kids) ≡ critical_among kids
unfolding critical_packages
critical_packages-with_children (element t attrs s k) kids = refl

aggregate-critical :
    (ct : CounterType) (m c : ℕ) (packages : List Element)
    → aggregate_from (counts 0 0) ct packages ≡ add_counter (counts 0 0) (some (counts m c))
    → aggregate_package_counter packages ct ≡ counts m c
unfolding aggregate_package_counter
aggregate-critical ct m c packages h = h ∙ rw (pos-add 0 m, pos-add 0 c, add.zero m, add.zero c)

module _ (fl : Floats) (exact : IsExact fl) where
  module _ (scope : Scope) (ct : CounterType) (m c : ℕ) (some_lines : 0 < m + c) where
    counts-total : is_zero (total (counts m c)) ≡ false
    unfolding total
    counts-total = rw (pos-add m c) (ground arith)

    -- Where Python's division and literals are exact as `IsExact` says, for a counter of at least one
    -- and at most 2 ** 48 items the test `current.ratio < minimum` is the comparison of 100 times the
    -- covered items with the percentage times all items.
    is_below-exact :
        m + c ≤ 2 ^ 48
        → is_below fl scope ct (counts m c) ≡ ltb (c * 100) (percent (minimum scope ct) * (m + c))
    unfolding is_below ratio
    is_below-exact bound =
        rw (is_below, ratio, counts-total)
          (unfold total in
            rw (pos-add m c)
              (exact.compares (minimum scope ct) c (m + c) some_lines bound (omega arith)))

    -- Counts whose share lies below the minimum are refused.
    pub measured-Refused :
        m + c ≤ 2 ^ 48
        → ltb (c * 100) (percent (minimum scope ct) * (m + c)) ≡ true
        → Refused (ReportTree.unless_empty fl scope ct (counts m c))
    unfolding measured
    measured-Refused bound low = rw (counts-total, is_below-exact bound, low)

  critical_counter-Refused :
      (packages : List Element) (ct : CounterType) (m c : ℕ)
      → aggregate_package_counter packages ct ≡ counts m c
      → Refused (ReportTree.unless_empty fl critical ct (counts m c))
      → is_empty packages ≡ false
      → Refused (validate_critical fl packages)
  unfolding validate_critical critical_counter
  critical_counter-Refused [] ct m c sum low some_packages = cc
  critical_counter-Refused (p ∷ ps) line m c sum low some_packages =
      let groups = each_group (p ∷ ps) critical_prefixes in
      let lines = critical_counter fl (p ∷ ps) line in
      let low_lines : Refused lines = rw (critical_counter, sum) low in
      Refused-left (groups >> lines) (critical_counter fl (p ∷ ps) branch)
        (Refused-right groups lines low_lines)
  critical_counter-Refused (p ∷ ps) branch m c sum low some_packages =
      let before = each_group (p ∷ ps) critical_prefixes >> critical_counter fl (p ∷ ps) line in
      let branches = critical_counter fl (p ∷ ps) branch in
      let low_branches : Refused branches = rw (critical_counter, sum) low in
      Refused-right before branches low_branches

  parts-Refused :
      (a b c d : Validation) → Refused a ⊎ (Refused b ⊎ Refused c) → Refused (a >> b >> c >> d)
  parts-Refused a b c d (inl h) =
      Refused-left (a >> b >> c) d (Refused-left (a >> b) c (Refused-left a b h))
  parts-Refused a b c d (inr (inl h)) =
      Refused-left (a >> b >> c) d (Refused-left (a >> b) c (Refused-right a b h))
  parts-Refused a b c d (inr (inr h)) = Refused-left (a >> b >> c) d (Refused-right (a >> b) c h)

  -- the three parts of a report that the damage reaches
  abbrev PartRefused : Element → Type 0
  PartRefused root =
      Refused (global_counter fl line (counter root line))
      ⊎ (Refused (global_counter fl branch (counter root branch))
          ⊎ Refused (validate_critical fl (critical_packages root)))

  body-Refused : (root : Element) → PartRefused root → Refused (validate_body fl root)
  unfolding validate_body
  body-Refused root =
      parts-Refused (global_counter fl line (counter root line))
        (global_counter fl branch (counter root branch))
        (validate_critical fl (critical_packages root))
        (each_class (class_names root) required_classes)

  pub tree-Refused : (root : Element) → PartRefused root → Refused (validate_report_tree fl root)
  unfolding validate_report_tree
  tree-Refused root h = elim (Bool-cases (tag root =? codes "report")) [
    | inr other ↦ rw other
    | inl same ↦ rw same (body-Refused root h)
  ]

  pub global-part :
      (ct : CounterType) (found : Counter) (root : Element)
      → counter root ct ≡ some found
      → Refused (ReportTree.unless_empty fl global ct found)
      → PartRefused root
  global-part line found root set low = inl (rw set low)
  global-part branch found root set low = inr (inl (rw set low))

  pub critical-part :
      (ct : CounterType) (m c : ℕ) (root : Element) (kids : Elements)
      → Damaged ct m c (counts 0 0) (some kids)
      → Refused (ReportTree.unless_empty fl critical ct (counts m c))
      → Refused (validate_critical fl (critical_packages (with_children root kids)))
  critical-part ct m c root kids (sum, some_packages) low =
      rw (critical_packages-with_children root kids) (
        critical_counter-Refused (critical_among kids) ct m c
          (aggregate-critical ct m c (critical_among kids) sum) low some_packages)

  pub removed-part :
      (root : Element) → Refused (validate_critical fl (critical_packages (remove_critical root)))
  unfolding remove_critical validate_critical
  removed-part root = rw (
    critical_packages-with_children root (without_critical (children root)),
    critical-without_critical (children root),
  )
