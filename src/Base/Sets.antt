-- ===== src/Base/Sets.antt =====
-- Lists read as sets: inclusion, difference, and what a comprehension or `sorted` contains.
use mathlib.Core.Path.{subst}
use mathlib.Core.Bool.{false≢true}
use coupon_service.Base.{
  ◌≡◌, refl, ◌↔◌, Bool, true, not, ◌&&◌, if◌then◌else◌, List, [], ◌∷◌, arith, Eq, ◌=?◌, =?_refl,
  Bool-cases, inl, inr, ap, sym, ◌∙◌, contains, all_of, select, All,
}

module _ {ℓ} {A : Type ℓ} ⦃e : Eq A⦄ where
  -- `xs <= ys` and `xs - ys`
  abbrev pub subset : List A → List A → Bool
  subset xs ys = all_of (λ x. contains x ys) xs

  abbrev pub minus : List A → List A → List A
  minus xs ys = select (λ x. not (contains x ys)) xs

  -- `set(xs)`: each element once
  abbrev pub unique : List A → List A
  unique [] = []
  unique (x ∷ xs) = let rest = unique xs in if contains x xs then rest else x ∷ rest

  pub contains-unique : (a : A) (xs : List A) → contains a (unique xs) ≡ contains a xs
  contains-unique a [] = refl
  contains-unique a (x ∷ xs) = elim (Bool-cases (contains x xs)) [
    | inl old ↦ elim (Bool-cases (a =? x)) [
      | inl same ↦
          let eq = (e.beq_iff a x).0 same in
          rw (old, same) (contains-unique a xs ∙ ap (λ (t : A). contains t xs) eq ∙ old)
      | inr other ↦ rw (old, other) (contains-unique a xs)
    ]
    | inr new ↦ rw new (ground (arith, contains-unique a xs))
  ]

  pub contains-select :
      (p : A → Bool) (a : A) (xs : List A) → contains a (select p xs) ≡ (contains a xs && p a)
  contains-select p a [] = refl
  contains-select p a (x ∷ xs) = elim (Bool-cases (a =? x)) [
    | inl same ↦ let eq = (e.beq_iff a x).0 same in ground (arith, contains-select p a xs, ap p eq)
    | inr other ↦ ground (arith, contains-select p a xs)
  ]

  -- What holds of every element of a list holds of each one that it contains.
  pub all_of-contains :
      (p : A → Bool) (a : A) (xs : List A) → all_of p xs ≡ true → contains a xs ≡ true → p a ≡ true
  all_of-contains p a [] h m = cc
  all_of-contains p a (x ∷ xs) h m = elim (Bool-cases (a =? x)) [
    | inl same ↦ ap p ((e.beq_iff a x).0 same) ∙ ground arith
    | inr other ↦ all_of-contains p a xs (ground arith) (ground arith)
  ]

  pub all_of_of_contains :
      (p : A → Bool) (xs : List A)
      → ((a : A) → contains a xs ≡ true → p a ≡ true)
      → all_of p xs ≡ true
  all_of_of_contains p [] h = refl
  all_of_of_contains p (x ∷ xs) h =
      rw (h x (rw (=?_refl x) refl)) (all_of_of_contains p xs (λ a m. h a (ground arith)))

  -- The same for a property of the elements.
  pub All-contains {κ} :
      (P : A → Type κ) (a : A) (xs : List A) → All P xs → contains a xs ≡ true → P a
  All-contains P a [] h m = absurd (false≢true m)
  All-contains P a (x ∷ xs) (p, h) m = elim (Bool-cases (a =? x)) [
    | inl same ↦ subst P (sym ((e.beq_iff a x).0 same)) p
    | inr other ↦ All-contains P a xs h (rw other at m)
  ]

  pub All-of_contains {κ} :
      (P : A → Type κ) (xs : List A) → ((a : A) → contains a xs ≡ true → P a) → All P xs
  All-of_contains P [] h = tt
  All-of_contains P (x ∷ xs) h =
      (h x (rw (=?_refl x)), All-of_contains P xs (λ a m. h a (ground arith)))

  -- Two lists include each other exactly when they have the same elements.
  pub subset_both_iff :
      (xs ys : List A)
      → ((subset xs ys && subset ys xs) ≡ true) ↔ ((a : A) → contains a xs ≡ contains a ys)
  subset_both_iff xs ys = (forth, back)
    where
      forth : (subset xs ys && subset ys xs) ≡ true → (a : A) → contains a xs ≡ contains a ys
      forth h a = ground (
        arith,
        all_of-contains (λ x. contains x ys) a xs,
        all_of-contains (λ y. contains y xs) a ys,
      )

      back : ((a : A) → contains a xs ≡ contains a ys) → (subset xs ys && subset ys xs) ≡ true
      back h = rw (
        all_of_of_contains (λ x. contains x ys) xs (λ a m. rw (← h a) m),
        all_of_of_contains (λ y. contains y xs) ys (λ a m. rw (h a) m),
      )
