-- ===== src/Contract/Refinement011/Content.antt =====
-- `validate_content` of scripts/check_emp011_refinement.py.
use coupon_service.Base.{
  ℕ, zero, suc, ◌+◌, ◌/◌, ◌%◌, Bool, false, not, ◌&&◌, Option, none, some, List, [], ◌∷◌, ◌++◌,
  ◌==◌, String, Text, codes, text_beq, occurs, select, split_on, length, ltb,
}
use coupon_service.Contract.Emp009.Method.{after}
use coupon_service.Contract.Refinement011.{metadata, is_value}
use coupon_service.Contract.Report.{Reported, ◌>>◌, complain_if, for_each}
use coupon_service.Contract.Repo.{ends_with}
use coupon_service.Documentation.Pattern.{Unicode, span}

-- `require(text, token, errors, where)`
unfoldable pub require_token : String → Text → Text → Reported Text
unfolding occurs complain_if
require_token place text token =
    complain_if (not (occurs token text)) (codes place ++ codes " missing '" ++ token ++ codes "'")

unfoldable pub require_tokens : String → Text → List String → Reported Text
unfolding require_token for_each
require_tokens place text tokens = for_each tokens (λ token. require_token place text (codes token))

-- `range(first, first + n)`, and `%02d` below 100
abbrev pub numbers_from : ℕ → ℕ → List ℕ
numbers_from first zero = []
numbers_from first (suc n) = first ∷ numbers_from (suc first) n

abbrev pub two_digits : ℕ → Text
two_digits n = (b'0' + n / 10) ∷ (b'0' + n % 10) ∷ []

abbrev pub refinement_tokens : List String
refinement_tokens =
    "F-01" ∷ "F-02" ∷ "F-03" ∷ "F-04" ∷ "F-05" ∷ "F-06" ∷ "F-07" ∷ "F-08" ∷ "F-09" ∷ "F-10"
    ∷ "112 unit + 23 integration" ∷ "95.76%" ∷ "86.39%" ∷ "95.06%" ∷ "88.21%" ∷ "api-contract.md"
    ∷ "architecture/overview.md" ∷ "testing/test-strategy.md" ∷ "Risk register" ∷ "CHECKSUMS.sha256"
    ∷ "Idempotency-Key" ∷ "IPWhois" ∷ "make verify" ∷ "make delivery-check" ∷ "make export-source"
    ∷ "GitHub Actions" ∷ "docs/api/openapi.yaml" ∷ "CODEX_PROMPT" ∷ "R-030" ∷ "R-034" ∷ []

abbrev pub criterion : ℕ → Text
criterion number = codes "**AC-" ++ two_digits number ++ codes ":**"

abbrev pub pending_end : Text
pending_end = codes "— PENDING_OWNER_ACCEPTANCE.**"

abbrev pub accepted_end : Text
accepted_end = codes "— ACCEPT.**"

-- `[^\n]+ENDING$` in a line
abbrev pub has_end : Text → Option Text → Bool
has_end ending none = false
has_end ending (some rest) = ends_with rest ending && ltb (length ending) (length rest)

abbrev pub after_number : Text → Text × Text → Bool
after_number ending ([], rest) = false
after_number ending (d ∷ ds, rest) = has_end ending (after (codes ". **") rest)

module _ (u : Unicode) where
  -- the lines that match `^\d+\. \*\*[^\n]+ENDING$`
  unfoldable pub decisions : Text → Text → List Text
  unfolding split_on span after ends_with
  decisions ending text =
      select (λ line. after_number ending (span u.is_decimal line)) (split_on b'\n' text)

  abbrev pub are_eight : List Text → Bool
  are_eight found = length found == 8

  unfoldable pub validate_content : Text → Reported Text
  unfolding require_tokens require_token for_each metadata text_beq decisions complain_if
  validate_content text = do
    require_tokens "EMP-011 refinement" text refinement_tokens
    for_each (numbers_from 1 28)
        (λ number. require_token "EMP-011 refinement" text (criterion number))
    complain_if
        (is_value (metadata text "Stan-Refinementu") "DRAFT"
          && not (are_eight (decisions pending_end text)))
        (codes "DRAFT EMP-011 must contain exactly 8 pending owner decisions")
    complain_if
        (is_value (metadata text "Stan-Refinementu") "ACCEPTED"
          && not (are_eight (decisions accepted_end text)))
        (codes "ACCEPTED EMP-011 must contain exactly 8 accepted owner decisions")
