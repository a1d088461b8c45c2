-- ===== src/Base/Characters.antt =====
-- Texts of which every character passes a test.
use coupon_service.Base.{
  ℕ, ◌≡◌, refl, Bool, true, false, not, [], ◌∷◌, arith, ◌==◌, Text, all_of, lacks, is_hex,
}
use coupon_service.Base.Utf8.{is_ascii}

all_of-imp :
    (p q : ℕ → Bool)
    → ((c : ℕ) → p c ≡ true → q c ≡ true)
    → (s : Text) → all_of p s ≡ true
    → all_of q s ≡ true
all_of-imp p q imp [] h = refl
all_of-imp p q imp (c ∷ cs) h = ground (arith, imp c, all_of-imp p q imp cs)

pub hex-ascii : (s : Text) → all_of is_hex s ≡ true → all_of is_ascii s ≡ true
hex-ascii = all_of-imp is_hex is_ascii (λ c h. ground arith)

-- A text of hexadecimal digits has no other character.
pub hex-lacks : (c : ℕ) → is_hex c ≡ false → (s : Text) → all_of is_hex s ≡ true → lacks c s ≡ true
hex-lacks c other = all_of-imp is_hex (λ x. not (x == c)) (λ x h. ground arith)
