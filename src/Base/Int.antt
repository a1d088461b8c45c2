-- ===== src/Base/Int.antt =====
-- Python's integers as far as the scripts use them: sums, `int(text)` and `str(number)`.
use coupon_service.Base.{
  ℕ, zero, suc, ◌+◌, ◌-◌, ◌*◌, ◌/◌, ◌%◌, ◌≡◌, refl, Bool, true, false, ◌&&◌, Option, none, some, [],
  ◌∷◌, arith, leb, ◌==◌, if◌then◌else◌, Text, codes, is_digit, is_space, strip,
}

-- `negsuc n` is -(n + 1).
pub data ℤ : Type 0 where
  pos : ℕ → ℤ
  negsuc : ℕ → ℤ

abbrev pub pos_part : ℤ → ℕ
pos_part (pos n) = n
pos_part (negsuc n) = 0

abbrev pub neg_part : ℤ → ℕ
neg_part (pos n) = 0
neg_part (negsuc n) = suc n

abbrev pub sub_ℕ : ℕ → ℕ → ℤ
sub_ℕ a b = if leb b a then pos (a - b) else negsuc (b - a - 1)

infixl 65 ◌+ℤ◌
unfoldable pub ◌+ℤ◌ : ℤ → ℤ → ℤ
a +ℤ b = sub_ℕ (pos_part a + pos_part b) (neg_part a + neg_part b)

abbrev pub is_zero : ℤ → Bool
is_zero (pos n) = n == 0
is_zero (negsuc n) = false

pub pos-add : (a b : ℕ) → pos a +ℤ pos b ≡ pos (a + b)
unfolding ◌+ℤ◌
pos-add a b = ground arith

pub add_zero_ℤ : (a : ℤ) → a +ℤ pos 0 ≡ a
unfolding ◌+ℤ◌
add_zero_ℤ (pos n) = ground arith
add_zero_ℤ (negsuc n) = ground arith

-- Decimal digits, with single underscores between them; `after_digit` tells whether one may follow.
digits_value : ℕ → Bool → Text → Option ℕ
digits_value acc after_digit [] = if after_digit then some acc else none
digits_value acc after_digit (c ∷ cs) = elim (is_digit c) [
  | true ↦ digits_value (acc * 10 + (c - b'0')) true cs
  | false ↦ elim (after_digit && c == b'_') [ true ↦ digits_value acc false cs | false ↦ none ]
]

abbrev negated : Option ℕ → Option ℤ
negated none = none
negated (some n) = some (sub_ℕ 0 n)

abbrev unsigned : Option ℕ → Option ℤ
unsigned none = none
unsigned (some n) = some (pos n)

signed_value : Text → Option ℤ
unfolding digits_value
signed_value [] = none
signed_value (c ∷ cs) =
    if c == b'-'
    then negated (digits_value 0 false cs)
    else if c == b'+'
    then unsigned (digits_value 0 false cs)
    else unsigned (digits_value 0 false (c ∷ cs))

-- `int(text)`; `none` is a `ValueError`. Digits are the ASCII ones.
unfoldable pub int_of : Text → Option ℤ
unfolding signed_value strip
int_of text = signed_value (strip is_space text)

decimal_from : ℕ → ℕ → Text → Text
decimal_from zero n acc = acc
decimal_from (suc fuel) n acc = elim (n / 10 == 0) [
  | true ↦ (b'0' + n % 10) ∷ acc
  | false ↦ decimal_from fuel (n / 10) ((b'0' + n % 10) ∷ acc)
]

-- `str(n)`; each step divides by ten, so `n + 1` steps are enough.
unfoldable pub decimal : ℕ → Text
unfolding decimal_from
decimal n = decimal_from (suc n) n []

printed_and_read :
    (decimal 1079 ≡ codes "1079")
    × (int_of (codes " -1_20 ") ≡ some (negsuc 119))
    × (int_of (codes "") ≡ none)
unfolding decimal int_of
printed_and_read = (refl, refl, refl)
