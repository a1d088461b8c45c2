-- ===== src/Coverage/SelfTest/FailsClosed.antt =====
-- The kinds of damage of `run_negative_self_test` in scripts/check_emp008.py, one by one.
use coupon_service.Base.{
  ℕ, ◌+◌, ◌*◌, ◌^◌, ◌≤◌, ◌<◌, ◌≡◌, ◌≢◌, refl, ap, ◌∙◌, true, Bool-cases, Option-cases, inl, inr,
  none, some, List, [], ◌∷◌, arith, ltb, text_eq,
}
use coupon_service.Base.Int.{int_of, decimal}
use coupon_service.Coverage.Counter.{CounterType, line, branch, counter}
use coupon_service.Coverage.Floats.{Floats, IsExact, percent}
use coupon_service.Coverage.ReportTree.{
  global, critical, Files, IsFaithful, minimum, critical_packages, validate_report_tree,
  validate_report,
}
use coupon_service.Coverage.SelfTest.{
  Test, below_threshold, missing_critical, malformed_xml, damage_global, damage_critical,
  remove_critical, refuses, expect_failure, self_test_tree, set_first, set_first_critical,
  clear_critical, with_children,
}
use coupon_service.Coverage.SelfTest.Damage.{
  IsReadBack, counts, set_first-HasCounts, set_first-none,
}
use coupon_service.Coverage.SelfTest.Critical.{
  damage_critical-Damaged, damage_critical-none, counter-among, with_children-counter,
}
use coupon_service.Coverage.Xml.{Element, children}
use coupon_service.Coverage.SelfTest.Refusal.{
  Refused, measured-Refused, tree-Refused, global-part, critical-part, removed-part,
}

read_21 : IsReadBack 21
unfolding int_of decimal
read_21 = refl

read_79 : IsReadBack 79
unfolding int_of decimal
read_79 = refl

read_31 : IsReadBack 31
unfolding int_of decimal
read_31 = refl

read_69 : IsReadBack 69
unfolding int_of decimal
read_69 = refl

read_26 : IsReadBack 26
unfolding int_of decimal
read_26 = refl

read_74 : IsReadBack 74
unfolding int_of decimal
read_74 = refl

read_36 : IsReadBack 36
unfolding int_of decimal
read_36 = refl

read_64 : IsReadBack 64
unfolding int_of decimal
read_64 = refl

module _ (fl : Floats) (exact : IsExact fl) where
  module _ (x : Files) (faithful : IsFaithful x) where
    refuses-nil :
        (test : Test) (root : Element)
        → Refused (validate_report_tree fl root)
        → refuses fl x test (x.write root) ≡ []
    unfolding refuses validate_report
    refuses-nil test root h = rw (faithful.written root, faithful.parse-write root, h)

    -- A report whose counter is set to a share below the global minimum is refused.
    global-refused :
        (ct : CounterType) (m c : ℕ) (root : Element)
        → IsReadBack m
        → IsReadBack c
        → 0 < m + c
        → m + c ≤ 2 ^ 48
        → ltb (c * 100) (percent (minimum global ct) * (m + c)) ≡ true
        → counter root ct ≢ none
        → expect_failure fl x (below_threshold global ct) (damage_global ct m c root) ≡ some []
    unfolding damage_global
    global-refused ct m c root rm rc p b low there =
        elim (Option-cases (set_first ct m c (children root))) [
          | inl gone ↦
              absurd
                (there (counter-among root ct ∙ set_first-none ct m c rm rc (children root) gone))
          | inr (k, found) ↦
              let set =
                with_children-counter root k ct
                ∙ (rw found at (set_first-HasCounts ct m c rm rc (children root))) in
              rw found (
                ap some (
                  refuses-nil _ (with_children root k) (
                    tree-Refused fl exact (with_children root k) (
                      global-part fl exact ct (counts m c) (with_children root k) set
                        (measured-Refused fl exact global ct m c p b low)))))
        ]

    critical-refused :
        (ct : CounterType) (m c : ℕ) (root p : Element) (ps : List Element)
        → IsReadBack m
        → IsReadBack c
        → 0 < m + c
        → m + c ≤ 2 ^ 48
        → ltb (c * 100) (percent (minimum critical ct) * (m + c)) ≡ true
        → critical_packages root ≡ p ∷ ps
        → counter p ct ≢ none
        → expect_failure fl x (below_threshold critical ct) (damage_critical ct m c root) ≡ some []
    unfolding damage_critical critical_packages
    critical-refused ct m c root p ps rm rc pos_total b low first there =
        elim (Option-cases (set_first_critical ct m c (clear_critical ct (children root)))) [
          | inl gone ↦
              absurd (there (damage_critical-none ct m c rm rc (children root) p ps first gone))
          | inr (k, found) ↦
              let damaged =
                rw found at (damage_critical-Damaged ct m c rm rc (counts 0 0) (children root)) in
              rw found (
                ap some (
                  refuses-nil _ (with_children root k) (
                    tree-Refused fl exact (with_children root k) (
                      inr (
                        inr (
                          critical-part fl exact ct m c root k damaged
                            (measured-Refused fl exact critical ct m c pos_total b low)))))))
        ]

    removed-refused :
        (root : Element) → refuses fl x missing_critical (x.write (remove_critical root)) ≡ []
    removed-refused root =
        refuses-nil missing_critical (remove_critical root)
          (tree-Refused fl exact (remove_critical root) (inr (inr (removed-part fl exact root))))

    malformed-refused : refuses fl x malformed_xml x.unclosed_report ≡ []
    unfolding refuses validate_report
    malformed-refused = elim (Bool-cases (x.is_blank x.unclosed_report)) [
      | inl blank ↦ rw blank
      | inr full ↦ rw (full, faithful.malformed)
    ]

    -- With exact thresholds and an XML library that reads back what it writes, the negative self-test
    -- of a report that has both global counters, some critical package, and both counters in the first
    -- critical package ends without an exception, and every damage is refused.
    pub self_test_tree-fails_closed :
        (root p : Element) (ps : List Element)
        → ((ct : CounterType) → counter root ct ≢ none)
        → critical_packages root ≡ p ∷ ps
        → ((ct : CounterType) → counter p ct ≢ none)
        → self_test_tree fl x root ≡ some []
    unfolding self_test_tree
    self_test_tree-fails_closed root p ps globals first criticals = rw (
      global-refused line 21 79 root read_21 read_79 (omega arith) (omega arith) refl
          (globals line),
      global-refused branch 31 69 root read_31 read_69 (omega arith) (omega arith) refl
          (globals branch),
      critical-refused line 26 74 root p ps read_26 read_74 (omega arith) (omega arith) refl first
          (criticals line),
      critical-refused branch 36 64 root p ps read_36 read_64 (omega arith) (omega arith) refl first
          (criticals branch),
      removed-refused root,
      malformed-refused,
    )
