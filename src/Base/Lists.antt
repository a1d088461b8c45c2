-- ===== src/Base/Lists.antt =====
-- Lists measured by native numbers, and a dictionary in insertion order.
use Prim.Native.Nat.{ℕ, zero, suc, ◌+◌}
use mathlib.Core.Path.{◌≡◌, refl, ap}
use mathlib.Core.Logic.{inl, inr}
use mathlib.Core.Bool.{Bool, true, false, ◌||◌}
use mathlib.Core.Option.{Option, none, some}
use mathlib.Core.List.{List, [], ◌∷◌, ◌++◌}
use native.Mathlib.Omega.{arith}
use coupon_service.Base.Tests.{if◌then◌else◌, Bool-cases}
use coupon_service.Base.Equality.{Eq, ◌=?◌, contains, contains-append}

module _ {ℓ} {A : Type ℓ} where
  abbrev pub length : List A → ℕ
  length [] = 0
  length (x ∷ xs) = suc (length xs)

  abbrev pub take : ℕ → List A → List A
  take zero xs = []
  take (suc n) [] = []
  take (suc n) (x ∷ xs) = x ∷ take n xs

  pub length-append : (xs ys : List A) → length (xs ++ ys) ≡ length xs + length ys
  length-append [] ys = omega arith
  length-append (x ∷ xs) ys = omega (arith, length-append xs ys)

  -- the comprehension `[x for x in xs if p(x)]`
  abbrev pub select : (A → Bool) → List A → List A
  select p [] = []
  select p (x ∷ xs) = let rest = select p xs in if p x then x ∷ rest else rest

abbrev pub All {ℓ κ} : {A : Type ℓ} → (A → Type κ) → List A → Type κ
All P [] = Unit
All P (x ∷ xs) = P x × All P xs

pub All-imp {ℓ κ μ} :
    {A : Type ℓ} {P : A → Type κ} {Q : A → Type μ} (imp : (x : A) → P x → Q x) (xs : List A)
    → All P xs
    → All Q xs
All-imp imp [] a = tt
All-imp imp (x ∷ xs) (p, a) = (imp x p, All-imp imp xs a)

abbrev pub Dict {ℓ κ} : Type ℓ → Type κ → Type (ℓ ⊔ κ)
Dict K V = List (K × V)

abbrev pub keys {ℓ κ} : {K : Type ℓ} {V : Type κ} → Dict K V → List K
keys [] = []
keys ((k, _) ∷ d) = k ∷ keys d

pub keys-append {ℓ κ} :
    {K : Type ℓ} {V : Type κ} (c d : Dict K V) → keys (c ++ d) ≡ keys c ++ keys d
keys-append [] d = refl
keys-append ((k, _) ∷ c) d = ap (◌∷◌ k) (keys-append c d)

module _ {ℓ κ} {K : Type ℓ} {V : Type κ} ⦃e : Eq K⦄ where
  -- `d.get(k)`
  abbrev pub lookup : K → Dict K V → Option V
  lookup k [] = none
  lookup k ((j, v) ∷ d) = if k =? j then some v else lookup k d

  -- `d[k] = v`
  unfoldable pub insert : K → V → Dict K V → Dict K V
  insert k v [] = (k, v) ∷ []
  insert k v ((j, w) ∷ d) = if k =? j then (j, v) ∷ d else (j, w) ∷ insert k v d

  -- `k in d`
  abbrev pub has_key : K → Dict K V → Bool
  has_key k d = contains k (keys d)

module _ {ℓ} {A : Type ℓ} ⦃e : Eq A⦄ where
  abbrev pub Distinct : List A → Type 0
  Distinct [] = Unit
  Distinct (x ∷ xs) = (contains x xs ≡ false) × Distinct xs

  -- no element of the first list stands in the second
  pub not_contains-Distinct :
      (x : A) (xs ys : List A) → Distinct (xs ++ x ∷ ys) → contains x xs ≡ false
  not_contains-Distinct x [] ys u = refl
  not_contains-Distinct x (z ∷ xs) ys (fresh, u) = ground (
    arith,
    not_contains-Distinct x xs ys u,
    contains-append z xs (x ∷ ys),
    e.beq_iff x z,
    e.beq_iff z x,
  )

module _ {ℓ κ} {K : Type ℓ} {V : Type κ} ⦃e : Eq K⦄ where
  pub lookup-insert :
      (j k : K) (v : V) (d : Dict K V)
      → lookup j (insert k v d) ≡ (if j =? k then some v else lookup j d)
  unfolding insert
  lookup-insert j k v [] = refl
  lookup-insert j k v ((i, w) ∷ d) =
      ground (arith, lookup-insert j k v d, e.beq_iff j k, e.beq_iff k i, e.beq_iff j i)

  -- A new key goes to the end.
  pub insert_new :
      (k : K) (v : V) (d : Dict K V) → has_key k d ≡ false → insert k v d ≡ d ++ (k, v) ∷ []
  unfolding insert
  insert_new k v [] h = refl
  insert_new k v ((j, w) ∷ d) h = ground (arith, insert_new k v d)

  pub contains-keys-insert :
      (j k : K) (v : V) (d : Dict K V) → has_key j (insert k v d) ≡ (j =? k || has_key j d)
  unfolding insert
  contains-keys-insert j k v [] = refl
  contains-keys-insert j k v ((i, w) ∷ d) =
      ground (arith, contains-keys-insert j k v d, e.beq_iff j k, e.beq_iff k i, e.beq_iff j i)

  pub insert-Distinct :
      (k : K) (v : V) (d : Dict K V) → Distinct (keys d) → Distinct (keys (insert k v d))
  unfolding insert
  insert-Distinct k v [] u = (refl, tt)
  insert-Distinct k v ((j, w) ∷ d) (fresh, u) =
      ground
        (arith, insert-Distinct k v d u, contains-keys-insert j k v d, e.beq_iff j k, e.beq_iff k j)

  pub lookup_of_has_key :
      (k : K) (d : Dict K V) → has_key k d ≡ true → (v : V) × (lookup k d ≡ some v)
  lookup_of_has_key k [] h = cc
  lookup_of_has_key k ((j, w) ∷ d) h = elim (Bool-cases (k =? j)) [
    | inl same ↦ (w, rw same)
    | inr other ↦ let (v, found) = lookup_of_has_key k d (rw other at h) in (v, rw other found)
  ]
