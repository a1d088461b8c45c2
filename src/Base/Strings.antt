-- ===== src/Base/Strings.antt =====
-- What the scripts use of Python's `str` and `bytes`: split, splitlines, join, strip, startswith,
-- endswith and `in`, over lists of code points or bytes.
use Prim.Native.Nat.{ℕ}
use mathlib.Core.Path.{◌≡◌, refl}
use mathlib.Core.Bool.{Bool, true, false, not, ◌&&◌, ◌||◌}
use mathlib.Core.Option.{Option, none, some}
use mathlib.Core.List.{List, [], ◌∷◌, ◌++◌, append-nil, append_assoc}
use native.Mathlib.Omega.{arith}
use coupon_service.Base.Tests.{◌==◌, if◌then◌else◌, within}
use coupon_service.Base.Equality.{Text}

module _ {ℓ} {A : Type ℓ} where
  -- Python's `any` and `all` over a test
  abbrev pub any_of : (A → Bool) → List A → Bool
  any_of p [] = false
  any_of p (x ∷ xs) = p x || any_of p xs

  abbrev pub all_of : (A → Bool) → List A → Bool
  all_of p [] = true
  all_of p (x ∷ xs) = p x && all_of p xs

  -- a list is false where it is empty
  abbrev pub is_empty : List A → Bool
  is_empty [] = true
  is_empty (x ∷ xs) = false

  pub any_of-append :
      (p : A → Bool) (xs ys : List A) → any_of p (xs ++ ys) ≡ (any_of p xs || any_of p ys)
  any_of-append p [] ys = refl
  any_of-append p (x ∷ xs) ys = ground (arith, any_of-append p xs ys)

  pub all_of-append :
      (p : A → Bool) (xs ys : List A) → all_of p (xs ++ ys) ≡ (all_of p xs && all_of p ys)
  all_of-append p [] ys = refl
  all_of-append p (x ∷ xs) ys = ground (arith, all_of-append p xs ys)

-- `cs` has no code point `c`
abbrev pub lacks : ℕ → Text → Bool
lacks c = all_of (λ x. not (x == c))

abbrev pub cons_head : ℕ → List Text → List Text
cons_head x [] = (x ∷ []) ∷ []
cons_head x (l ∷ ls) = (x ∷ l) ∷ ls

-- `text.split(sep)` at a separator of one code point
unfoldable pub split_on : ℕ → Text → List Text
split_on sep [] = [] ∷ []
split_on sep (x ∷ xs) =
    let rest = split_on sep xs in if x == sep then [] ∷ rest else cons_head x rest

-- `text.split(sep, 1)`: the parts round the first separator, or `none` if there is none
unfoldable pub split_once : ℕ → Text → Option (Text × Text)
split_once sep [] = none
split_once sep (x ∷ xs) = elim (x == sep) [
  | true ↦ some ([], xs)
  | false ↦ elim (split_once sep xs) [ none ↦ none | some (a, b) ↦ some (x ∷ a, b) ]
]

pub split_on-append :
    (sep : ℕ) (line rest : Text)
    → lacks sep line ≡ true
    → split_on sep (line ++ sep ∷ rest) ≡ line ∷ split_on sep rest
unfolding split_on
split_on-append sep [] rest h = ground arith
split_on-append sep (x ∷ xs) rest h = ground (arith, split_on-append sep xs rest)

pub split_on_whole : (sep : ℕ) (line : Text) → lacks sep line ≡ true → split_on sep line ≡ line ∷ []
unfolding split_on
split_on_whole sep [] h = refl
split_on_whole sep (x ∷ xs) h = ground (arith, split_on_whole sep xs)

pub split_once-append :
    (sep : ℕ) (a rest : Text)
    → lacks sep a ≡ true
    → split_once sep (a ++ sep ∷ rest) ≡ some (a, rest)
unfolding split_once
split_once-append sep [] rest h = ground arith
split_once-append sep (x ∷ xs) rest h = ground (arith, split_once-append sep xs rest)

-- Line boundaries of `str.splitlines`, and those of `bytes.splitlines`.
abbrev pub is_line_break : ℕ → Bool
is_line_break c =
    within 0x0a 0x0d c || within 0x1c 0x1e c || c == 0x85 || c == 0x2028 || c == 0x2029

abbrev pub is_byte_break : ℕ → Bool
is_byte_break c = c == b'\n' || c == b'\r'

-- `line` is what has been read of the present line; `after_cr` says that the last one was ended by
-- a carriage return, whose line feed is still to be skipped.
unfoldable pub lines_from : (ℕ → Bool) → Bool → Text → Text → List Text
lines_from is_break after_cr [] [] = []
lines_from is_break after_cr (x ∷ line) [] = (x ∷ line) ∷ []
lines_from is_break after_cr line (c ∷ cs) = elim (after_cr && c == b'\n') [
  | true ↦ lines_from is_break false line cs
  | false ↦ elim (is_break c) [
    | true ↦ line ∷ lines_from is_break (c == b'\r') [] cs
    | false ↦ lines_from is_break false (line ++ c ∷ []) cs
  ]
]

unfoldable pub splitlines : Text → List Text
unfolding lines_from
splitlines = lines_from is_line_break false []

unfoldable pub splitlines_bytes : Text → List Text
unfolding lines_from
splitlines_bytes = lines_from is_byte_break false []

pub lines_from-line :
    (is_break : ℕ → Bool) (before line rest : Text)
    → is_break b'\n' ≡ true
    → any_of is_break line ≡ false
    → lines_from is_break false before (line ++ b'\n' ∷ rest)
      ≡ (before ++ line) ∷ lines_from is_break false [] rest
unfolding lines_from
lines_from-line is_break [] [] rest nl h = ground arith
lines_from-line is_break (x ∷ before) [] rest nl h = ground (arith, append-nil (x ∷ before))
lines_from-line is_break [] (c ∷ cs) rest nl h =
    ground (arith, lines_from-line is_break (c ∷ []) cs rest nl)
lines_from-line is_break (x ∷ before) (c ∷ cs) rest nl h = ground (
  arith,
  lines_from-line is_break ((x ∷ before) ++ c ∷ []) cs rest nl,
  append_assoc (x ∷ before) (c ∷ []) cs,
)

-- `sep.join(lines)`
unfoldable pub join : Text → List Text → Text
join sep [] = []
join sep (x ∷ []) = x
join sep (x ∷ y ∷ ys) = x ++ (sep ++ join sep (y ∷ ys))

unfoldable pub starts_with : Text → Text → Bool
starts_with s [] = true
starts_with [] (p ∷ ps) = false
starts_with (x ∷ xs) (p ∷ ps) = x == p && starts_with xs ps

-- `sub in text`
unfoldable pub occurs : Text → Text → Bool
unfolding starts_with
occurs sub [] = starts_with [] sub
occurs sub (x ∷ xs) = starts_with (x ∷ xs) sub || occurs sub xs

-- the characters that `text.lstrip`, `text.rstrip` and `text.strip` take away are given by a test
unfoldable pub lstrip : (ℕ → Bool) → Text → Text
lstrip p [] = []
lstrip p (x ∷ xs) = let rest = lstrip p xs in if p x then rest else x ∷ xs

abbrev pub cons_unless : Bool → ℕ → Text → Text
cons_unless true x [] = []
cons_unless false x [] = x ∷ []
cons_unless b x (y ∷ ys) = x ∷ y ∷ ys

unfoldable pub rstrip : (ℕ → Bool) → Text → Text
rstrip p [] = []
rstrip p (x ∷ xs) = cons_unless (p x) x (rstrip p xs)

unfoldable pub strip : (ℕ → Bool) → Text → Text
unfolding lstrip rstrip
strip p text = rstrip p (lstrip p text)

-- `bytes.isspace`, and the further characters that `str.isspace` has
abbrev pub is_byte_space : ℕ → Bool
is_byte_space c = within 0x09 0x0d c || c == b' '

abbrev pub is_space : ℕ → Bool
is_space c =
    is_byte_space c
    || within 0x1c 0x1f c
    || c == 0x85
    || c == 0xa0
    || c == 0x1680
    || within 0x2000 0x200a c
    || c == 0x2028
    || c == 0x2029
    || c == 0x202f
    || c == 0x205f
    || c == 0x3000

abbrev pub is_digit : ℕ → Bool
is_digit = within b'0' b'9'

abbrev pub is_hex : ℕ → Bool
is_hex c = is_digit c || within b'a' b'f' c
