-- ===== src/Contract/Emp009/Checked.antt =====
-- What scripts/check_emp009.py establishes when it succeeds.
use coupon_service.Base.{
  ◌≡◌, refl, sym, ◌↔◌, Bool, true, false, ◌&&◌, ◌||◌, Option, none, some, List, String, Text, codes,
  All, if◌then◌else◌,
}
use mathlib.Core.Path.{subst}
use coupon_service.Contract.Emp009.Method.{method}
use coupon_service.Contract.Report.{Report, passed, complain, error_lines, Clean-complain_if}
use coupon_service.Contract.Repo.{Repo, is_file, has_prompt_file, Reads}
use coupon_service.Contract.Laws.{Checks, seq, reading, each, unless, passing}
use coupon_service.Contract.Emp009.{
  in_section, lacking, require, on_method, with_method, redemption_path, create_path, same_user,
  last_slot, evidence, read_evidence, source_missing, errors, success, script,
}
use coupon_service.Contract.Emp009.Tokens.{
  fixture_tokens, capacity_tokens, same_user_tokens, last_slot_tokens, no_global_lock_tokens,
  cleanup_tokens, concurrent_create_tokens, capacity_test, same_user_test, last_slot_test,
  no_global_lock_test, concurrent_create_test,
}

-- the tokens stand in the section
abbrev pub Shows : List String → Text → Type 0
Shows tokens section = All (λ token. in_section token section ≡ true) tokens

-- the test method is there, and its section has a property
abbrev pub HasMethod : Text → String → (Text → Type 0) → Type 0
HasMethod source name P = (section : Text) × (method source (codes name) ≡ some section) × P section

abbrev pub SameUser : Text → Type 0
SameUser section = Shows same_user_tokens section × (in_section "COUPON_EXHAUSTED" section ≡ false)

abbrev pub LastSlot : Text → Type 0
LastSlot section =
    Shows last_slot_tokens section × (in_section "COUPON_ALREADY_REDEEMED" section ≡ false)

abbrev pub Evidence : Text → Text → Type 0
Evidence redemption create =
    ((in_section "Thread.sleep" redemption || in_section "Thread.sleep" create) ≡ false)
    × (Shows fixture_tokens redemption
        × (HasMethod redemption capacity_test (Shows capacity_tokens)
            × (HasMethod redemption same_user_test SameUser
                × (HasMethod redemption last_slot_test LastSlot
                    × (HasMethod redemption no_global_lock_test (Shows no_global_lock_tokens)
                        × (Shows cleanup_tokens redemption
                            × HasMethod create concurrent_create_test
                                (Shows concurrent_create_tokens)))))))

abbrev pub Contract : Repo → Type 0
Contract repo =
    (((is_file repo redemption_path && is_file repo create_path) ≡ true)
      × Reads repo redemption_path (λ redemption.
        Reads repo create_path (λ create. Evidence (codes redemption) (codes create))))
    × (has_prompt_file repo ≡ false)

require-Checks :
    (section : Text) (label : String) (tokens : List String)
    → Checks (require section label tokens) (Shows tokens section)
unfolding require
require-Checks section label tokens =
    each (λ token. in_section token section ≡ true) tokens _
      (λ token. unless (in_section token section) (lacking label token))

on_method-Checks :
    (name : String) (found : Option Text) (k : Text → Report) (P : Text → Type 0)
    → ((section : Text) → Checks (k section) (P section))
    → Checks (on_method name found k) ((section : Text) × (found ≡ some section) × P section)
on_method-Checks name none k P f = (λ h. cc, λ (s, h, p). cc)
on_method-Checks name (some section) k P f = (
  λ h. (section, refl, (f section).0 h),
  λ (s, same, p). let eq : section ≡ s = cc in (f section).1 (subst P (sym eq) p),
)

method-Checks :
    (source : Text) (name : String) (k : Text → Report) (P : Text → Type 0)
    → ((section : Text) → Checks (k section) (P section))
    → Checks (with_method source name k) (HasMethod source name P)
method-Checks source name k P f = on_method-Checks name (method source (codes name)) k P f

same_user-Checks : (section : Text) → Checks (same_user section) (SameUser section)
unfolding same_user
same_user-Checks section =
    seq _ _ (require-Checks section "same-user" same_user_tokens)
      (Clean-complain_if (in_section "COUPON_EXHAUSTED" section) _)

last_slot-Checks : (section : Text) → Checks (last_slot section) (LastSlot section)
unfolding last_slot
last_slot-Checks section =
    seq _ _ (require-Checks section "last-slot" last_slot_tokens)
      (Clean-complain_if (in_section "COUPON_ALREADY_REDEEMED" section) _)

evidence-Checks :
    (redemption create : Text) → Checks (evidence redemption create) (Evidence redemption create)
unfolding evidence
evidence-Checks redemption create =
    seq _ _
      (Clean-complain_if (in_section "Thread.sleep" redemption || in_section "Thread.sleep" create)
        _)
      (seq _ _ (require-Checks redemption "redemption test fixture" fixture_tokens) (
        seq _ _
          (method-Checks redemption capacity_test _ (Shows capacity_tokens)
            (λ s. require-Checks s "100/10" capacity_tokens))
          (seq _ _ (method-Checks redemption same_user_test same_user SameUser same_user-Checks) (
            seq _ _ (method-Checks redemption last_slot_test last_slot LastSlot last_slot-Checks) (
              seq _ _
                (method-Checks redemption no_global_lock_test _ (Shows no_global_lock_tokens)
                  (λ s. require-Checks s "no-global-lock" no_global_lock_tokens))
                (seq _ _ (require-Checks redemption "executor cleanup" cleanup_tokens) (
                  method-Checks create concurrent_create_test _ (Shows concurrent_create_tokens)
                    (λ s. require-Checks s "concurrent create" concurrent_create_tokens))))))))

module _ (repo : Repo) where
  read-Checks : Checks (read_evidence repo) (
      Reads repo redemption_path (λ redemption.
        Reads repo create_path (λ create. Evidence (codes redemption) (codes create))))
  unfolding read_evidence
  read-Checks = reading repo redemption_path _ _ λ redemption.
      reading repo create_path _ _ λ create. evidence-Checks (codes redemption) (codes create)

  -- the branch that reads the tests is taken
  there-Checks {ℓ} :
      {P : Type ℓ} (there : Bool) (r : Report)
      → Checks r P
      → Checks (if there then r else complain source_missing) ((there ≡ true) × P)
  there-Checks true r f = (λ h. (refl, f.0 h), λ (_, p). f.1 p)
  there-Checks false r f = (λ h. cc, λ (h, _). cc)

  errors-Checks : Checks (errors repo) (
      (((is_file repo redemption_path && is_file repo create_path) ≡ true)
        × Reads repo redemption_path (λ redemption.
          Reads repo create_path (λ create. Evidence (codes redemption) (codes create))))
      × (has_prompt_file repo ≡ false))
  unfolding errors
  errors-Checks =
      seq _ _
        (there-Checks (is_file repo redemption_path && is_file repo create_path)
          (read_evidence repo) read-Checks)
        (Clean-complain_if (has_prompt_file repo) _)

  -- check_emp009.py succeeds exactly when both integration tests are there and readable without
  -- `Thread.sleep`, the redemption test has its fixture and cleanup, each of the five concurrency tests
  -- is found and its section shows the evidence required of it, the sections of the same-user and the
  -- last-slot test are without the outcome forbidden there, and no file is named CODEX_PROMPT.md.
  pub emp009-passed : (script repo ≡ passed success) ↔ Contract repo
  unfolding script
  emp009-passed = passing error_lines success (errors repo) errors-Checks
