-- ===== src/Contract/Emp010/Pattern.antt =====
-- The patterns of `static_check` of scripts/check_emp010.py.
use coupon_service.Base.{
  ℕ, ◌+◌, Bool, false, not, ◌&&◌, Option, none, some, [], ◌∷◌, ◌==◌, String, Text, codes, all_of,
  any_of, is_hex, is_space, length, lstrip, occurs, split_on,
}
use coupon_service.Contract.Emp009.Method.{after}
use coupon_service.Contract.Report.{Reported, complain_if}
use coupon_service.Documentation.Pattern.{Pattern, find_all, search_first, span, except}

-- `require(condition, message, errors)`
abbrev pub require : Bool → Text → Reported Text
require condition message = complain_if (not condition) message

infixl 5 ◌>>=◌
abbrev ◌>>=◌ : Option Text → (Text → Option Text) → Option Text
none >>= k = none
some t >>= k = k t

-- `uses:\s*([^\s]+)`
abbrev pub reference : ℕ → Text × Text → Option (Text × ℕ)
reference size ([], rest) = none
reference size (c ∷ cs, rest) = some (c ∷ cs, size + length (c ∷ cs))

abbrev pub after_uses : Option Text → Option (Text × ℕ)
after_uses none = none
after_uses (some rest) =
    reference (5 + length (span is_space rest).0)
      (span (λ c. not (is_space c)) (span is_space rest).1)

unfoldable pub uses : Pattern Text
unfolding after span
uses before text = after_uses (after (codes "uses:") text)

-- `re.fullmatch(r"[^@\s]+@[0-9a-f]{40}", match)`
abbrev pub is_reference : Text × Text → Bool
is_reference ([], rest) = false
is_reference (o ∷ owner, []) = false
is_reference (o ∷ owner, at ∷ digits) =
    all_of (λ c. not (is_space c)) (o ∷ owner) && all_of is_hex digits && length digits == 40

unfoldable pub is_pinned : Text → Bool
unfolding span
is_pinned match = is_reference (span (except b'@') match)

-- `(.*?)STOP` with `re.S`: up to the first place where the literal stands
abbrev pub cons_some : ℕ → Option Text → Option Text
cons_some c none = none
cons_some c (some text) = some (c ∷ text)

abbrev pub nothing_before : Option Text → Option Text → Option Text
nothing_before none later = later
nothing_before (some rest) later = some []

unfoldable pub up_to : Text → Text → Option Text
unfolding after
up_to stop [] = nothing_before (after stop []) none
up_to stop (c ∷ cs) = nothing_before (after stop (c ∷ cs)) (cons_some c (up_to stop cs))

-- the dependency on the Prometheus registry at a place, and what follows its artifact
unfoldable pub dependency : Text → Option Text
unfolding after lstrip up_to
dependency text = do
  a ← after (codes "<dependency>") text
  b ← after (codes "<groupId>io.micrometer</groupId>") (lstrip is_space a)
  c ← after (codes "<artifactId>micrometer-registry-prometheus</artifactId>") (lstrip is_space b)
  up_to (codes "</dependency>") c

abbrev pub has_no_version : Option Text → Bool
has_no_version none = false
has_no_version (some block) = not (occurs (codes "<version>") block)

unfoldable pub has_managed_registry : String → Bool
unfolding search_first dependency occurs
has_managed_registry pom = has_no_version (search_first dependency (codes pom))

-- `text.count(token) == 1`
abbrev pub literal : Text → Pattern Text
literal token before text = elim (after token text) [
  | none ↦ none
  | some rest ↦ some (token, length token)
]

unfoldable pub occurs_once : String → String → Bool
unfolding find_all after
occurs_once token text = length (find_all (literal (codes token)) (codes text)) == 1

-- `re.search(r"^TARGET\s*$", makefile, re.M)` for a literal
abbrev pub only_spaces : Option Text → Bool
only_spaces none = false
only_spaces (some rest) = all_of is_space rest

unfoldable pub has_target : String → String → Bool
unfolding split_on after
has_target target makefile =
    any_of (λ line. only_spaces (after (codes target) line)) (split_on b'\n' (codes makefile))
