-- ===== src/Coverage/Floats.antt =====
-- The floating-point arithmetic behind `Counter.ratio`. Python divides two integers with correct
-- rounding and compares with the literals 0.80, 0.70, 0.75 and 0.65.
use coupon_service.Base.{ℕ, ◌*◌, ◌^◌, ◌≤◌, ◌<◌, ◌≡◌, refl, Bool, ltb}
use coupon_service.Base.Int.{ℤ, pos, pos_part}

-- the percentage of which a literal is the decimal fraction
pub data Minimum : Type 0 where
  minimum_80 minimum_75 minimum_70 minimum_65 : Minimum

abbrev pub percent : Minimum → ℕ
percent minimum_80 = 80
percent minimum_75 = 75
percent minimum_70 = 70
percent minimum_65 = 65

pub record Floats : Type 1 where
  pub F : Type 0
  -- `a / b` on integers, for `b` other than 0
  pub divide : ℤ → ℤ → F
  -- `1.0`, and the literals
  pub one : F
  pub literal : Minimum → F
  -- `x < y`
  pub below : F → F → Bool

-- Two different fractions with denominators up to 2 ** 48 and up to 20 lie further apart than the
-- spacing of doubles below 1, so the rounded quotient compares with a literal as the exact one does.
pub record IsExact (fl : Floats) : Type 0 where
  pub compares :
      (m : Minimum) (covered total : ℕ)
      → 0 < total
      → total ≤ 2 ^ 48
      → covered ≤ total
      → fl.below (fl.divide (pos covered) (pos total)) (fl.literal m)
        ≡ ltb (covered * 100) (percent m * total)

-- The law can be met: fractions as pairs, compared by their cross products.
abbrev pub fractions : Floats
fractions = record {
  F = ℕ × ℕ;
  divide = λ a b. (pos_part a, pos_part b);
  one = (1, 1);
  literal = λ m. (percent m, 100);
  below = λ x y. ltb (x.0 * y.1) (y.0 * x.1);
}

pub fractions-IsExact : IsExact fractions
fractions-IsExact = record { compares = λ m c t p b l. refl }
