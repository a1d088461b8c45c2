-- ===== src/Base/Utf8.antt =====
-- Strict decoding of byte strings: `bytes.decode("ascii")` and `bytes.decode("utf-8")`.
use coupon_service.Base.{
  ℕ, zero, suc, ◌+◌, ◌*◌, ◌%◌, ◌≡◌, refl, Bool, true, Option, none, some, [], ◌∷◌, ◌++◌, arith, ltb,
  within, if◌then◌else◌, Text, all_of,
}
use mathlib.Core.List.{append-nil, append_assoc}

abbrev pub is_ascii : ℕ → Bool
is_ascii c = ltb c 0x80

-- `none` is a `UnicodeDecodeError`.
unfoldable pub decode_ascii : Text → Option Text
decode_ascii bytes = if all_of is_ascii bytes then some bytes else none

-- Between two bytes: how many continuation bytes are due, the bits read so far, and the range in
-- which the next one has to lie (it rules out overlong forms, surrogates and what is past U+10FFFF).
record Utf8 : Type 0 where
  due : ℕ
  bits : ℕ
  low : ℕ
  high : ℕ
  out : Text

start_byte : Text → ℕ → Option Utf8
start_byte out b =
    if ltb b 0x80
    then some (record { due = 0; bits = 0; low = 0; high = 0; out = out ++ b ∷ [] })
    else if within 0xc2 0xdf b
    then some (record { due = 1; bits = b % 32; low = 0x80; high = 0xbf; out = out })
    else if within 0xe0 0xef b
    then some (record {
      due = 2;
      bits = b % 16;
      low = if ltb 0xe0 b then 0x80 else 0xa0;
      high = if ltb b 0xed then 0xbf else if ltb 0xed b then 0xbf else 0x9f;
      out = out;
    })
    else if within 0xf0 0xf4 b
    then some (record {
      due = 3;
      bits = b % 8;
      low = if ltb 0xf0 b then 0x80 else 0x90;
      high = if ltb b 0xf4 then 0xbf else 0x8f;
      out = out;
    })
    else none

-- The last continuation byte completes a code point.
continue_byte : Utf8 → ℕ → ℕ → Option Utf8
continue_byte s left b =
    let bits = s.bits * 64 + b % 64 in
    if within s.low s.high b
    then some (record {
      due = left;
      bits = bits;
      low = 0x80;
      high = 0xbf;
      out = elim left [ zero ↦ s.out ++ bits ∷ [] | suc _ ↦ s.out ];
    })
    else none

next_byte : ℕ → Utf8 → ℕ → Option Utf8
next_byte zero s b = start_byte s.out b
next_byte (suc left) s b = continue_byte s left b

-- A sequence that is cut off at the end is an error too.
finish : ℕ → Text → Option Text
finish zero out = some out
finish (suc _) out = none

decode_from : Utf8 → Text → Option Text
decode_from s [] = finish s.due s.out
decode_from s (b ∷ bs) = elim (next_byte s.due s b) [ none ↦ none | some s' ↦ decode_from s' bs ]

unfoldable pub decode_utf8 : Text → Option Text
unfolding decode_from next_byte start_byte continue_byte finish
decode_utf8 = decode_from (record { due = 0; bits = 0; low = 0; high = 0; out = [] })

decode_from_ascii :
    (s : Utf8) (bytes : Text)
    → s.due ≡ 0
    → all_of is_ascii bytes ≡ true
    → decode_from s bytes ≡ some (s.out ++ bytes)
unfolding decode_from next_byte start_byte finish
decode_from_ascii s [] d h = ground (arith, append-nil s.out)
decode_from_ascii s (b ∷ bs) d h =
    let s' : Utf8 = record { due = 0; bits = 0; low = 0; high = 0; out = s.out ++ b ∷ [] } in
    ground (arith, decode_from_ascii s' bs refl, append_assoc s.out (b ∷ []) bs)

-- ASCII decodes to itself.
pub decode_utf8_ascii :
    (bytes : Text) → all_of is_ascii bytes ≡ true → decode_utf8 bytes ≡ some bytes
unfolding decode_utf8
decode_utf8_ascii bytes h = decode_from_ascii _ bytes refl h

two_three_four :
    decode_utf8 (0xc5 ∷ 0xbc ∷ 0xe2 ∷ 0x80 ∷ 0x94 ∷ 0xf0 ∷ 0x9f ∷ 0x98 ∷ 0x80 ∷ [])
    ≡ some (0x17c ∷ 0x2014 ∷ 0x1f600 ∷ [])
unfolding decode_utf8
two_three_four = refl

surrogate_and_overlong :
    (decode_utf8 (0xed ∷ 0xa0 ∷ 0x80 ∷ []) ≡ none) × (decode_utf8 (0xc0 ∷ 0x80 ∷ []) ≡ none)
unfolding decode_utf8
surrogate_and_overlong = (refl, refl)
