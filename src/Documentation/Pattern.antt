-- ===== src/Documentation/Pattern.antt =====
-- The patterns of scripts/check_documentation.py. A pattern is a function from the character before a
-- place and the text from there on to what is captured and the length of the match.
use coupon_service.Base.{
  ℕ, zero, suc, ◌+◌, ◌-◌, Bool, true, false, not, ◌&&◌, ◌||◌, Option, none, some, List, [], ◌∷◌,
  ◌==◌, if◌then◌else◌, Text, codes, within, length, is_space, rstrip, is_empty,
}
use coupon_service.Contract.Emp009.Method.{after}

-- The Unicode properties behind `\d` and `\w`.
pub record Unicode : Type 0 where
  pub is_decimal : ℕ → Bool
  pub is_word : ℕ → Bool

abbrev pub Pattern : Type 0 → Type 0
Pattern A = Option ℕ → Text → Option (A × ℕ)

-- `re.findall`: the places of a text in order; `skip` characters still belong to the last match. The
-- patterns below match at least one character.
unfoldable pub find_from : {A : Type 0} → Pattern A → Option ℕ → ℕ → Text → List A
find_from m before skip [] = []
find_from m before (suc skip) (c ∷ cs) = find_from m (some c) skip cs
find_from m before zero (c ∷ cs) = elim (m before (c ∷ cs)) [
  | none ↦ find_from m (some c) zero cs
  | some (a, size) ↦ a ∷ find_from m (some c) (size - 1) cs
]

unfoldable pub find_all : {A : Type 0} → Pattern A → Text → List A
unfolding find_from
find_all m text = find_from m none 0 text

-- `re.search` for one group, and for a test
unfoldable pub search_first : {A : Type 0} → (Text → Option A) → Text → Option A
search_first m [] = m []
search_first m (c ∷ cs) = elim (m (c ∷ cs)) [ none ↦ search_first m cs | some a ↦ some a ]

unfoldable pub search_any : (Option ℕ → Text → Bool) → Option ℕ → Text → Bool
search_any p before [] = p before []
search_any p before (c ∷ cs) = p before (c ∷ cs) || search_any p (some c) cs

-- the longest start of which a test holds, and the rest
abbrev pub cons_start : ℕ → Text × Text → Text × Text
cons_start c (a, b) = (c ∷ a, b)

unfoldable pub span : (ℕ → Bool) → Text → Text × Text
span p [] = ([], [])
span p (c ∷ cs) = let rest = span p cs in if p c then cons_start c rest else ([], c ∷ cs)

abbrev pub except : ℕ → ℕ → Bool
except stop c = not (c == stop)

-- `MARKDOWN_LINK_RE`: `\[[^\]]+\]\(([^)]+)\)`. A run of characters that are no bracket ends at the bracket,
-- so there is one way to match.
abbrev pub link_target : ℕ → Text × Text → Option (Text × ℕ)
link_target size (t ∷ ts, c ∷ rest) = some (t ∷ ts, size + length (t ∷ ts) + 1)
link_target size (t ∷ ts, []) = none
link_target size ([], rest) = none

abbrev pub link_label : Text × Text → Option (Text × ℕ)
link_label (l ∷ ls, b ∷ p ∷ rest) =
    if p == b'(' then link_target (length (l ∷ ls) + 3) (span (except b')') rest) else none
link_label _ = none

unfoldable pub link : Pattern Text
unfolding span
link before [] = none
link before (c ∷ cs) = if c == b'[' then link_label (span (except b']') cs) else none

-- `METADATA_RE`: `^([A-Za-z-]+):\s*(.+?)\s*$` with `re.MULTILINE`
abbrev pub is_key : ℕ → Bool
is_key c = within b'A' b'Z' c || within b'a' b'z' c || c == b'-'

abbrev pub at_line_start : Option ℕ → Bool
at_line_start none = true
at_line_start (some c) = c == b'\n'

-- What is left of the spaces where nothing follows them: the last one that is no line feed is the value.
abbrev pub later_blank : ℕ → Option (Text × ℕ) → Option (Text × ℕ)
later_blank c (some (v, n)) = some (v, n + 1)
later_blank c none = if c == b'\n' then none else some (c ∷ [], 1)

unfoldable pub last_blank : Text → Option (Text × ℕ)
last_blank [] = none
last_blank (c ∷ cs) = later_blank c (last_blank cs)

-- the value after the colon and its spaces, up to the last character of the line that is no space
abbrev pub value_of : Text × Text → Option (Text × ℕ)
value_of (spaces, []) = last_blank spaces
value_of (spaces, c ∷ cs) =
    let value = rstrip is_space (span (except b'\n') (c ∷ cs)).0 in
    some (value, length spaces + length value)

abbrev pub with_key : Text → Option (Text × ℕ) → Option ((Text × Text) × ℕ)
with_key key none = none
with_key key (some (value, n)) = some ((key, value), length key + 1 + n)

abbrev pub metadata_line : Text × Text → Option ((Text × Text) × ℕ)
metadata_line (k ∷ ks, c ∷ rest) =
    if c == b':' then with_key (k ∷ ks) (value_of (span is_space rest)) else none
metadata_line _ = none

unfoldable pub metadata : Pattern (Text × Text)
unfolding span last_blank rstrip
metadata before text = if at_line_start before then metadata_line (span is_key text) else none

module _ (u : Unicode) where
  -- `\d{n}` at the start, and what follows
  unfoldable pub digits : ℕ → Text → Option Text
  digits zero text = some text
  digits (suc n) [] = none
  digits (suc n) (c ∷ cs) = let rest = digits n cs in if u.is_decimal c then rest else none

  infixl 5 ◌>>=◌
  abbrev ◌>>=◌ : Option Text → (Text → Option Text) → Option Text
  none >>= k = none
  some t >>= k = k t

  -- `$`: the end, or a line feed at the end
  abbrev pub at_end : Text → Bool
  at_end [] = true
  at_end (c ∷ []) = c == b'\n'
  at_end (c ∷ d ∷ cs) = false

  abbrev pub is_end : Option Text → Bool
  is_end none = false
  is_end (some rest) = at_end rest

  abbrev pub is_whole : Option Text → Bool
  is_whole none = false
  is_whole (some rest) = is_empty rest

  abbrev pub is_match : Option Text → Bool
  is_match none = false
  is_match (some rest) = true

  -- `TASK_RE.match`: `^EMP-\d{3}$`
  unfoldable pub is_task_id : Text → Bool
  unfolding after digits
  is_task_id text = is_end (after (codes "EMP-") text >>= digits 3)

  -- `\d{4}-\d{2}-\d{2}`
  unfoldable pub date : Text → Option Text
  unfolding after digits
  date text = do
    a ← digits 4 text
    b ← after (codes "-") a
    c ← digits 2 b
    d ← after (codes "-") c
    digits 2 d

  -- `re.search(r"\*\*Data:\*\* \d{4}-\d{2}-\d{2}", text)`
  unfoldable pub has_date : Text → Bool
  unfolding search_any date
  has_date = search_any (λ before text. is_match (after (codes "**Data:** ") text >>= date)) none

  -- `\b(TBD|TODO)\b` at a place
  abbrev pub no_word : Option ℕ → Bool
  no_word none = true
  no_word (some c) = not (u.is_word c)

  abbrev pub first_of : Text → Option ℕ
  first_of [] = none
  first_of (c ∷ cs) = some c

  abbrev pub ends_word : Option Text → Bool
  ends_word none = false
  ends_word (some rest) = no_word (first_of rest)

  unfoldable pub has_marker : Text → Bool
  unfolding search_any after
  has_marker =
      search_any
        (λ before text.
          no_word before
          && (ends_word (after (codes "TBD") text) || ends_word (after (codes "TODO") text)))
        none

  -- `\| (D-\d{3}) \|` and `\| (R-\d{3}) \|` for a letter; the group has five characters
  abbrev pub entry_id : ℕ → Text → Option Text → Option (Text × ℕ)
  entry_id letter (s ∷ t ∷ l ∷ m ∷ a ∷ b ∷ c ∷ rest) (some end) = some (l ∷ m ∷ a ∷ b ∷ c ∷ [], 9)
  entry_id letter _ _ = none

  unfoldable pub register_entry : ℕ → Pattern Text
  unfolding after digits
  register_entry letter before text =
      entry_id letter text
        (after (b'|' ∷ b' ' ∷ letter ∷ b'-' ∷ []) text >>= digits 3 >>= after (codes " |"))

  -- `(EMP-\d+)(?:\s+—\s+.+)?$` at the start, with the digits taken as far as they go
  unfoldable pub dots_to_end : Text → Bool
  dots_to_end [] = false
  dots_to_end (c ∷ cs) = let later = dots_to_end cs in not (c == b'\n') && (at_end cs || later)

  unfoldable pub spaces_dots : Text → Bool
  unfolding dots_to_end
  spaces_dots [] = false
  spaces_dots (c ∷ cs) = let later = spaces_dots cs in is_space c && (dots_to_end cs || later)

  abbrev pub after_dash : Text × Text → Bool
  after_dash (s ∷ ss, c ∷ cs) = c == 0x2014 && spaces_dots cs
  after_dash _ = false

  abbrev pub task_of_digits : Text × Text → Option Text
  task_of_digits (d ∷ ds, rest) =
      if after_dash (span is_space rest) || at_end rest then some (d ∷ ds) else none
  task_of_digits ([], rest) = none

  abbrev pub with_prefix : Option Text → Option Text
  with_prefix none = none
  with_prefix (some ds) = some (b'E' ∷ b'M' ∷ b'P' ∷ b'-' ∷ ds)

  unfoldable pub active_task_id : Text → Option Text
  unfolding after span spaces_dots
  active_task_id text =
      with_prefix (after (codes "EMP-") text >>= λ rest. task_of_digits (span u.is_decimal rest))

-- `\*\*Active task:\*\* `([^`]+)`` at the start
abbrev pub quoted : Text × Text → Option Text
quoted (a ∷ as', tick ∷ rest) = some (a ∷ as')
quoted (a ∷ as', []) = none
quoted ([], rest) = none

abbrev pub quoted_after : Option Text → Option Text
quoted_after none = none
quoted_after (some rest) = quoted (span (except b'`') rest)

unfoldable pub active_task : Text → Option Text
unfolding search_first after span
active_task = search_first (λ text. quoted_after (after (codes "**Active task:** `") text))
