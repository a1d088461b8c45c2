-- ===== src/Base/Empty.antt =====
-- When a list made from another by `sorted` or `set` is empty.
use coupon_service.Base.{
  ◌≡◌, refl, sym, ◌∙◌, ◌↔◌, Bool, true, false, List, [], ◌∷◌, Text, text_eq, contains, Eq, =?_refl,
  arith, is_empty, select, All,
}
use coupon_service.Base.Sets.{unique, contains-unique}
use coupon_service.Base.Sort.{sorted, contains-sorted}

module _ {ℓ} {A : Type ℓ} ⦃e : Eq A⦄ where
  pub empty_iff : (xs : List A) → (xs ≡ []) ↔ ((a : A) → contains a xs ≡ false)
  empty_iff [] = (λ h a. refl, λ h. refl)
  empty_iff (x ∷ xs) = (λ h. cc, λ h. let no_way = h x in ground (arith, =?_refl x))

  -- two lists with the same elements are empty together
  pub empty_of_same :
      (xs ys : List A) → ((a : A) → contains a xs ≡ contains a ys) → (xs ≡ []) ↔ (ys ≡ [])
  empty_of_same xs ys same = (
    λ h. (empty_iff ys).1 (λ a. sym (same a) ∙ (empty_iff xs).0 h a),
    λ h. (empty_iff xs).1 (λ a. same a ∙ (empty_iff ys).0 h a),
  )

  pub unique-empty : (xs : List A) → (unique xs ≡ []) ↔ (xs ≡ [])
  unique-empty xs = empty_of_same (unique xs) xs (λ a. contains-unique a xs)

pub sorted-empty : (xs : List Text) → (sorted xs ≡ []) ↔ (xs ≡ [])
sorted-empty xs = empty_of_same (sorted xs) xs (λ a. contains-sorted a xs)

module _ {ℓ} {A : Type ℓ} where
  pub is_empty_iff : (xs : List A) → (is_empty xs ≡ true) ↔ (xs ≡ [])
  is_empty_iff [] = ground arith
  is_empty_iff (x ∷ xs) = ground arith

  pub select-none : (p : A → Bool) (xs : List A) → (select p xs ≡ []) ↔ All (λ x. p x ≡ false) xs
  select-none p [] = ground arith
  select-none p (x ∷ xs) = ground (arith, select-none p xs)
