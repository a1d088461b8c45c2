-- ===== src/Coverage/SelfTest/Critical.antt =====
-- What the damage does to the critical packages of a report.
use mathlib.Core.Path.{subst}
use mathlib.Core.Option.{none-ne-some}
use coupon_service.Base.{
  ℕ, ◌≡◌, refl, sym, ◌∙◌, true, false, Bool-cases, Option-cases, inl, inr, Option, none, some, List,
  [], ◌∷◌, arith, codes, text_eq, is_empty, select,
}
use coupon_service.Base.Int.{add_zero_ℤ, int_of, decimal}
use coupon_service.Coverage.Counter.{
  Counter, CounterType, counter, add_counter, aggregate_from, is_critical_package,
}
use coupon_service.Coverage.ReportTree.{name_of}
use coupon_service.Coverage.SelfTest.{
  with_children, is_critical, set_first, set_in, clear_package, clear_critical, set_first_critical,
  without_critical, cons_element, cons_to,
}
use coupon_service.Coverage.SelfTest.Damage.{
  IsReadBack, counts, among, set_first-HasCounts, set_first-none,
}
use coupon_service.Coverage.Xml.{Element, element, Elements, nil, cons, children, with_tag}

-- the critical packages among the children of the root
abbrev pub critical_among : Elements → List Element
critical_among kids =
    select (λ p. is_critical_package (name_of p)) (with_tag (codes "package") kids)

module _ (e : Element) (es : Elements) where
  critical-hit : is_critical e ≡ true → critical_among (cons e es) ≡ e ∷ critical_among es
  unfolding with_tag
  critical-hit h = ground arith

  critical-skip : is_critical e ≡ false → critical_among (cons e es) ≡ critical_among es
  unfolding with_tag
  critical-skip h = ground arith

with_children-is_critical :
    (e : Element) (k : Elements) → is_critical (with_children e k) ≡ is_critical e
with_children-is_critical (element t attrs s kids) k = refl

pub with_children-counter :
    (e : Element) (k : Elements) (ct : CounterType) → counter (with_children e k) ct ≡ among ct k
unfolding counter
with_children-counter (element t attrs s kids) k ct = refl

clear_package-is_critical :
    (ct : CounterType) (p : Element) → is_critical (clear_package ct p) ≡ is_critical p
unfolding clear_package
clear_package-is_critical ct p = elim (Option-cases (set_first ct 0 0 (children p))) [
  | inl gone ↦ rw gone
  | inr (k, found) ↦ rw found (with_children-is_critical p k)
]

pub counter-among : (e : Element) (ct : CounterType) → counter e ct ≡ among ct (children e)
unfolding counter
counter-among e ct = refl

read_zero : IsReadBack 0
unfolding int_of decimal
read_zero = refl

-- A cleared package adds nothing to a sum.
add-clear_package :
    (ct : CounterType) (p : Element) (sum : Counter)
    → add_counter sum (counter (clear_package ct p) ct) ≡ sum
unfolding clear_package
add-clear_package ct p sum = elim (Option-cases (set_first ct 0 0 (children p))) [
  | inl gone ↦
      rw (gone, counter-among p ct, set_first-none ct 0 0 read_zero read_zero (children p) gone)
  | inr (k, found) ↦
      rw
        (
          found,
          with_children-counter p k ct,
          rw found at (set_first-HasCounts ct 0 0 read_zero read_zero (children p)),
        )
        (rw (add_zero_ℤ sum.missed, add_zero_ℤ sum.covered))
]

aggregate-cons :
    (sum : Counter) (ct : CounterType) (p : Element) (ps : List Element)
    → aggregate_from sum ct (p ∷ ps) ≡ aggregate_from (add_counter sum (counter p ct)) ct ps
unfolding aggregate_from
aggregate-cons sum ct p ps = refl

-- Clearing the critical packages leaves a sum as it was.
aggregate-clear_critical :
    (ct : CounterType) (sum : Counter) (kids : Elements)
    → aggregate_from sum ct (critical_among (clear_critical ct kids)) ≡ sum
unfolding aggregate_from clear_critical with_tag
aggregate-clear_critical ct sum nil = refl
aggregate-clear_critical ct sum (cons e es) = elim (Bool-cases (is_critical e)) [
  | inl hit ↦
      rw
        (
          hit,
          critical-hit (clear_package ct e) (clear_critical ct es)
              (clear_package-is_critical ct e ∙ hit),
          aggregate-cons sum ct (clear_package ct e),
          add-clear_package ct e sum,
        )
        (aggregate-clear_critical ct sum es)
  | inr skip ↦
      rw (skip, critical-skip e (clear_critical ct es) skip) (aggregate-clear_critical ct sum es)
]

-- After the damage there are critical packages, and their sum is that of the counts alone.
abbrev pub Damaged : CounterType → ℕ → ℕ → Counter → Option Elements → Type 0
Damaged ct m c sum none = Unit
Damaged ct m c sum (some kids) =
    (aggregate_from sum ct (critical_among kids) ≡ add_counter sum (some (counts m c)))
    × (is_empty (critical_among kids) ≡ false)

module _ (ct : CounterType) (m c : ℕ) (rm : IsReadBack m) (rc : IsReadBack c) (sum : Counter) where
  damage_package :
      (p : Element) (kids : Elements)
      → is_critical p ≡ true
      → Damaged ct m c sum
          (cons_element (set_in p (set_first ct m c (children p))) (clear_critical ct kids))
  damage_package p kids crit = elim (Option-cases (set_first ct m c (children p))) [
    | inl gone ↦ rw gone tt
    | inr (k, found) ↦
        let hit =
          critical-hit (with_children p k) (clear_critical ct kids)
            (with_children-is_critical p k ∙ crit) in
        rw
          (
            found,
            hit,
            aggregate-cons sum ct (with_children p k),
            with_children-counter p k ct,
            rw found at (set_first-HasCounts ct m c rm rc (children p)),
          )
          (aggregate-clear_critical ct (add_counter sum (some (counts m c))) kids, refl)
  ]

  Damaged-skip :
      (e : Element) (o : Option Elements)
      → is_critical e ≡ false
      → Damaged ct m c sum o
      → Damaged ct m c sum (cons_to e o)
  Damaged-skip e none skip d = tt
  Damaged-skip e (some es) skip d = rw (critical-skip e es skip) d

  pub damage_critical-Damaged :
      (kids : Elements) → Damaged ct m c sum (set_first_critical ct m c (clear_critical ct kids))
  unfolding set_first_critical clear_critical
  damage_critical-Damaged nil = tt
  damage_critical-Damaged (cons e es) = elim (Bool-cases (is_critical e)) [
    | inl hit ↦
        rw (hit, clear_package-is_critical ct e ∙ hit)
          (damage_package (clear_package ct e) es (clear_package-is_critical ct e ∙ hit))
    | inr skip ↦ rw (skip, skip) (Damaged-skip e _ skip (damage_critical-Damaged es))
  ]

-- Without the critical packages there is none.
pub critical-without_critical : (kids : Elements) → critical_among (without_critical kids) ≡ []
unfolding without_critical with_tag
critical-without_critical nil = refl
critical-without_critical (cons e es) = elim (Bool-cases (is_critical e)) [
  | inl hit ↦ rw hit (critical-without_critical es)
  | inr skip ↦ rw (skip, critical-skip e (without_critical es) skip) (critical-without_critical es)
]

clear_package-counter :
    (ct : CounterType) (p : Element) → counter (clear_package ct p) ct ≡ none → counter p ct ≡ none
unfolding clear_package
clear_package-counter ct p h = elim (Option-cases (set_first ct 0 0 (children p))) [
  | inl gone ↦ counter-among p ct ∙ set_first-none ct 0 0 read_zero read_zero (children p) gone
  | inr (k, found) ↦
      let set = rw found at (set_first-HasCounts ct 0 0 read_zero read_zero (children p)) in
      let cleared : counter (with_children p k) ct ≡ none = rw found at h in
      absurd (none-ne-some _ (sym cleared ∙ with_children-counter p k ct ∙ set))
]

module _ (ct : CounterType) (m c : ℕ) (rm : IsReadBack m) (rc : IsReadBack c) where
  cons_to-none : (e : Element) (o : Option Elements) → cons_to e o ≡ none → o ≡ none
  cons_to-none e none h = refl
  cons_to-none e (some es) h = cc

  set_package-none :
      (p : Element) (es : Elements)
      → cons_element
          (set_in (clear_package ct p) (set_first ct m c (children (clear_package ct p))))
          es
        ≡ none
      → counter p ct ≡ none
  set_package-none p es h = elim (Option-cases (set_first ct m c (children (clear_package ct p)))) [
    | inl gone ↦ clear_package-counter ct p (
        counter-among (clear_package ct p) ct
        ∙ set_first-none ct m c rm rc (children (clear_package ct p)) gone)
    | inr (k, found) ↦ absurd (none-ne-some _ (sym (rw found at h)))
  ]

  -- Where the first critical package has a counter of the type, there is one to set.
  pub damage_critical-none :
      (kids : Elements) (p : Element) (ps : List Element)
      → critical_among kids ≡ p ∷ ps
      → set_first_critical ct m c (clear_critical ct kids) ≡ none
      → counter p ct ≡ none
  unfolding set_first_critical clear_critical with_tag
  damage_critical-none nil p ps first h = cc
  damage_critical-none (cons e es) p ps first h = elim (Bool-cases (is_critical e)) [
    | inl hit ↦
        let heads = sym (critical-hit e es hit) ∙ first in
        let same : e ≡ p = cc in
        subst (λ q. counter q ct ≡ none) same
          (set_package-none e (clear_critical ct es)
            (rw (hit, clear_package-is_critical ct e ∙ hit) at h))
    | inr skip ↦
        damage_critical-none es p ps (sym (critical-skip e es skip) ∙ first)
          (cons_to-none e _ (rw (skip, skip) at h))
  ]
