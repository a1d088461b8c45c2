-- ===== src/Contract/Emp009/Method.antt =====
-- `method(source, name)` of scripts/check_emp009.py: the text of a test method, up to the next test.
use coupon_service.Base.{
  ◌-◌, Bool, false, ◌&&◌, Option, none, some, [], ◌∷◌, ◌++◌, ◌==◌, if◌then◌else◌, Text, codes,
  is_space, lstrip, length, take,
}

-- one match after another
infixl 5 ◌>>=◌
abbrev ◌>>=◌ : Option Text → (Text → Option Text) → Option Text
none >>= k = none
some t >>= k = k t

-- a literal at the start of a text, and what follows it
unfoldable pub after : Text → Text → Option Text
after [] text = some text
after (c ∷ cs) [] = none
after (c ∷ cs) (x ∷ xs) = let rest = after cs xs in if c == x then rest else none

-- `\s+` at the start, taken as far as it goes
unfoldable pub after_spaces : Text → Option Text
unfolding lstrip
after_spaces [] = none
after_spaces (x ∷ xs) = if is_space x then some (lstrip is_space xs) else none

-- `@Test\s+void\s+NAME\(\)` at the start of a text, and what follows it. What stands after the spaces
-- is no space, so taking them all loses no match.
unfoldable pub match_test : Text → Text → Option Text
unfolding after after_spaces
match_test name text = do
  a ← after (codes "@Test") text
  b ← after_spaces a
  c ← after (codes "void") b
  d ← after_spaces c
  after (name ++ codes "()") d

abbrev pub is_some_spaces : Option Text → Bool
is_some_spaces none = false
is_some_spaces (some []) = false
is_some_spaces (some (x ∷ xs)) = is_space x

-- `\n\s*@Test\s+` at the start of a text
unfoldable pub starts_test : Text → Bool
unfolding lstrip after
starts_test [] = false
starts_test (x ∷ xs) = x == b'\n' && is_some_spaces (after (codes "@Test") (lstrip is_space xs))

-- up to the next test, or to the end
unfoldable pub until_test : Text → Text
unfolding starts_test
until_test [] = []
until_test (x ∷ xs) = let rest = until_test xs in if starts_test (x ∷ xs) then [] else x ∷ rest

abbrev pub or_later : Text → Option Text → Option Text → Option Text
or_later text none later = later
or_later text (some rest) later = some (take (length text - length rest) text ++ until_test rest)

-- `method(source, name)`; `none` is the `ValueError`
unfoldable pub method : Text → Text → Option Text
unfolding match_test until_test
method [] name = none
method (x ∷ xs) name =
    let later = method xs name in or_later (x ∷ xs) (match_test name (x ∷ xs)) later
