-- ===== src/Base/Sort.antt =====
-- `sorted` on texts, by code point: what is sorted does not depend on the order in which it came.
use Prim.Native.Nat.{compare, Ordering}
use mathlib.Core.HLevel.{hedberg}
use mathlib.Core.Path.{◌≡◌, refl, ap₂, ◌∙◌}
use mathlib.Core.Bool.{Bool, true, false, ◌||◌}
use mathlib.Core.List.{List, [], ◌∷◌, Perm, Permᴰ}
use mathlib.Core.Logic.{∥∥₁_elim}
use native.Mathlib.Decide.{ℕ_discrete}
use native.Mathlib.Omega.{arith}
use coupon_service.Base.Tests.{if◌then◌else◌}
use coupon_service.Base.Equality.{Text, ◌=?◌, text_eq, contains}

-- `a <= b` on strings
unfoldable pub text_le : Text → Text → Bool
text_le [] b = true
text_le (x ∷ xs) [] = false
text_le (x ∷ xs) (y ∷ ys) = elim (compare x y) [
  | Ordering.lt ↦ true
  | Ordering.eq ↦ text_le xs ys
  | Ordering.gt ↦ false
]

pub text_le_refl : (a : Text) → text_le a a ≡ true
unfolding text_le
text_le_refl [] = refl
text_le_refl (x ∷ xs) = ground (arith, text_le_refl xs)

pub text_le_total : (a b : Text) → text_le a b ≡ false → text_le b a ≡ true
unfolding text_le
text_le_total [] b h = cc
text_le_total (x ∷ xs) [] h = refl
text_le_total (x ∷ xs) (y ∷ ys) h = ground (arith, text_le_total xs ys)

pub text_le_antisymm : (a b : Text) → text_le a b ≡ true → text_le b a ≡ true → a ≡ b
unfolding text_le
text_le_antisymm [] [] h k = refl
text_le_antisymm [] (y ∷ ys) h k = cc
text_le_antisymm (x ∷ xs) [] h k = cc
text_le_antisymm (x ∷ xs) (y ∷ ys) h k = ground (arith, text_le_antisymm xs ys)

pub text_le_trans : (a b c : Text) → text_le a b ≡ true → text_le b c ≡ true → text_le a c ≡ true
unfolding text_le
text_le_trans [] b c h k = refl
text_le_trans (x ∷ xs) [] c h k = cc
text_le_trans (x ∷ xs) (y ∷ ys) [] h k = cc
text_le_trans (x ∷ xs) (y ∷ ys) (z ∷ zs) h k = ground (arith, text_le_trans xs ys zs)

-- `a <= b` on paths: component by component
unfoldable pub parts_le : List Text → List Text → Bool
unfolding text_le
parts_le [] bs = true
parts_le (a ∷ as') [] = false
parts_le (a ∷ as') (b ∷ bs) = let rest = parts_le as' bs in if a =? b then rest else text_le a b

insert_sorted : Text → List Text → List Text
insert_sorted x [] = x ∷ []
insert_sorted x (y ∷ ys) = if text_le x y then x ∷ y ∷ ys else y ∷ insert_sorted x ys

unfoldable pub sorted : List Text → List Text
unfolding insert_sorted text_le
sorted [] = []
sorted (x ∷ xs) = insert_sorted x (sorted xs)

-- every text is at most the next one
abbrev pub IsAscending : List Text → Type 0
IsAscending [] = Unit
IsAscending (x ∷ []) = Unit
IsAscending (x ∷ y ∷ l) = (text_le x y ≡ true) × IsAscending (y ∷ l)

insert_sorted-IsAscending :
    (x : Text) (l : List Text) → IsAscending l → IsAscending (insert_sorted x l)
unfolding insert_sorted
insert_sorted-IsAscending x [] s = tt
insert_sorted-IsAscending x (y ∷ []) s = ground (arith, text_le_total x y)
insert_sorted-IsAscending x (y ∷ z ∷ l) s =
    ground (arith, text_le_total x y, insert_sorted-IsAscending x (z ∷ l) s.1)

pub sorted-IsAscending : (l : List Text) → IsAscending (sorted l)
unfolding sorted
sorted-IsAscending [] = tt
sorted-IsAscending (x ∷ xs) = insert_sorted-IsAscending x (sorted xs) (sorted-IsAscending xs)

contains-insert_sorted :
    (a x : Text) (l : List Text) → contains a (insert_sorted x l) ≡ (a =? x || contains a l)
unfolding insert_sorted
contains-insert_sorted a x [] = refl
contains-insert_sorted a x (y ∷ ys) = ground (arith, contains-insert_sorted a x ys)

pub contains-sorted : (a : Text) (l : List Text) → contains a (sorted l) ≡ contains a l
unfolding sorted
contains-sorted a [] = refl
contains-sorted a (x ∷ xs) =
    ground (arith, contains-insert_sorted a x (sorted xs), contains-sorted a xs)

insert_sorted_comm :
    (x y : Text) (l : List Text)
    → insert_sorted x (insert_sorted y l) ≡ insert_sorted y (insert_sorted x l)
unfolding insert_sorted
insert_sorted_comm x y [] = ground (arith, text_le_total x y, text_le_antisymm x y)
insert_sorted_comm x y (z ∷ l) = ground (
  arith,
  text_le_total x y,
  text_le_antisymm x y,
  text_le_total y z,
  text_le_total x z,
  text_le_trans x y z,
  text_le_trans y x z,
  insert_sorted_comm x y l,
)

sorted-eq_of_permᴰ : {l r : List Text} → Permᴰ l r → sorted l ≡ sorted r
unfolding sorted
sorted-eq_of_permᴰ Permᴰ.nil = refl
sorted-eq_of_permᴰ (Permᴰ.cons e p) = ap₂ insert_sorted e (sorted-eq_of_permᴰ p)
sorted-eq_of_permᴰ (Permᴰ.swap {a} {b} {l = l} e f) = insert_sorted_comm a b (sorted l) ∙ cc
sorted-eq_of_permᴰ (Permᴰ.trans p q) = sorted-eq_of_permᴰ p ∙ sorted-eq_of_permᴰ q

texts_set : IsSet (List Text)
texts_set = hlevel (hedberg ℕ_discrete)

-- Sorting forgets the order of its input.
pub sorted-eq_of_perm : {l r : List Text} → Perm l r → sorted l ≡ sorted r
sorted-eq_of_perm p = ∥∥₁_elim p (texts_set _ _) sorted-eq_of_permᴰ
