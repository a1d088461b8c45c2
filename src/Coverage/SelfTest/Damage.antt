-- ===== src/Coverage/SelfTest/Damage.antt =====
-- What the damage does to the counters of a report.
use coupon_service.Base.{
  ℕ, ◌≡◌, refl, ◌∙◌, true, false, Bool-cases, inl, inr, Option-cases, Option, none, some, arith,
  ◌=?◌, if◌then◌else◌, Text, codes, text_eq, text_beq, lookup-insert, insert,
}
use coupon_service.Base.Int.{pos, int_of, decimal}
use coupon_service.Coverage.Counter.{Counter, CounterType, has_type, counter_of, counter_among}
use coupon_service.Coverage.SelfTest.{is_counter, set_counts, set_first}
use coupon_service.Coverage.Xml.{Element, element, Elements, nil, cons, tag, get, set, with_tag}

-- `str(n)` is read back by `int`.
abbrev pub IsReadBack : ℕ → Type 0
IsReadBack n = int_of (decimal n) ≡ some (pos n)

abbrev pub counts : ℕ → ℕ → Counter
counts m c = record { missed = pos m; covered = pos c }

set_counts-get :
    (key : Text) (m c : ℕ) (e : Element)
    → get key (set_counts m c e) ≡ (
        if key =? codes "covered"
        then some (decimal c)
        else if key =? codes "missed"
        then some (decimal m)
        else get key e)
unfolding set_counts set
set_counts-get key m c (element t attrs s kids) =
    lookup-insert key (codes "covered") (decimal c) (insert (codes "missed") (decimal m) attrs)
    ∙ rw (lookup-insert key (codes "missed") (decimal m) attrs)

set_counts-tag : (m c : ℕ) (e : Element) → tag (set_counts m c e) ≡ tag e
unfolding set_counts set
set_counts-tag m c (element t attrs s kids) = refl

set_counts-has_type :
    (ct : CounterType) (m c : ℕ) (e : Element) → has_type ct (set_counts m c e) ≡ has_type ct e
unfolding has_type text_beq
set_counts-has_type ct m c e = rw (set_counts-get (codes "type") m c e)

set_counts-counter_of :
    (m c : ℕ) (e : Element)
    → IsReadBack m
    → IsReadBack c
    → counter_of (set_counts m c e) ≡ some (counts m c)
unfolding counter_of text_beq
set_counts-counter_of m c e rm rc =
    rw (set_counts-get (codes "missed") m c e, set_counts-get (codes "covered") m c e, rm, rc)

abbrev pub among : CounterType → Elements → Option Counter
among ct kids = counter_among ct (with_tag (codes "counter") kids)

module _ (ct : CounterType) (e : Element) (es : Elements) where
  among-skip : is_counter ct e ≡ false → among ct (cons e es) ≡ among ct es
  unfolding counter_among with_tag
  among-skip h = ground arith

  among-hit : is_counter ct e ≡ true → among ct (cons e es) ≡ counter_of e
  unfolding counter_among with_tag
  among-hit h = ground arith

set_counts-is_counter :
    (ct : CounterType) (m c : ℕ) (e : Element) → is_counter ct (set_counts m c e) ≡ is_counter ct e
set_counts-is_counter ct m c e = rw (set_counts-tag m c e, set_counts-has_type ct m c e)

-- In what was set, the counter that is found has the counts; there is one if something was found.
abbrev pub HasCounts : CounterType → ℕ → ℕ → Option Elements → Type 0
HasCounts ct m c none = Unit
HasCounts ct m c (some kids) = among ct kids ≡ some (counts m c)

module _ (ct : CounterType) (m c : ℕ) (rm : IsReadBack m) (rc : IsReadBack c) where
  pub set_first-HasCounts : (kids : Elements) → HasCounts ct m c (set_first ct m c kids)
  unfolding set_first
  set_first-HasCounts nil = tt
  set_first-HasCounts (cons e es) = elim (Bool-cases (is_counter ct e)) [
    | inl hit ↦ rw hit (
        among-hit ct (set_counts m c e) es (set_counts-is_counter ct m c e ∙ hit)
        ∙ set_counts-counter_of m c e rm rc)
    | inr skip ↦ rw skip (elim (Option-cases (set_first ct m c es)) [
      | inl gone ↦ rw gone tt
      | inr (es', found) ↦
          rw found (among-skip ct e es' skip ∙ (rw found at (set_first-HasCounts es)))
    ])
  ]

  -- Only a list with no counter of the type has nothing to set.
  pub set_first-none : (kids : Elements) → set_first ct m c kids ≡ none → among ct kids ≡ none
  unfolding set_first counter_among with_tag
  set_first-none nil h = refl
  set_first-none (cons e es) h = ground (arith, set_first-none es)
