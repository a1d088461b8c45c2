-- ===== src/Contract/Refinement008/Checked.antt =====
-- What scripts/check_emp008_refinement.py establishes when it succeeds.
use coupon_service.Base.{◌≡◌, refl, ◌↔◌, ◌⊎◌, Bool, true, false, ◌||◌, some, String, All}
use coupon_service.Contract.Emp004.{check_file}
use coupon_service.Contract.Emp004.Checked.{FileOk, check_file-Checks}
use coupon_service.Contract.Report.{passed, error_lines, Clean-complain_if}
use coupon_service.Contract.Repo.{Repo, has_prompt_file, HasAll}
use coupon_service.Contract.Laws.{Checks, seq, binding, each, unless, missing, branch, passing}
use coupon_service.Contract.Refinement008.{
  field, is_value, state_of, allowed_of, is_accepted, status_unknown, coverage_known, check_state,
  check_accepted, check_refinement, decision_missing, criterion_missing, refinement, errors,
  success, script,
}
use coupon_service.Contract.Refinement008.Tokens.{files, accepted_tokens, criteria}

-- a draft allows no implementation, and an accepted refinement allows it
abbrev pub StateOk : Bool → Bool → Bool → Bool → Type 0
StateOk draft accepted denied granted =
    ((draft || accepted) ≡ true)
    × ((draft ≡ true → denied ≡ true) × (accepted ≡ true → granted ≡ true))

-- The refinement is a draft or accepted and allows what its state calls for; its status and coverage
-- are known; an accepted one has every decision and criterion.
abbrev pub IsGoverned : String → Type 0
IsGoverned content =
    StateOk (is_value (state_of content) "DRAFT") (is_accepted content)
      (is_value (allowed_of content) "NO") (is_value (allowed_of content) "YES")
    × ((status_unknown (field "Status" content) ≡ false)
        × ((coverage_known (field "Coverage-Evidence" content) ≡ true)
            × (((is_accepted content ≡ true)
                  × (HasAll content accepted_tokens × HasAll content criteria))
                ⊎ ((is_accepted content ≡ false) × Unit {0}))))

abbrev pub Contract : Repo → Type 0
Contract repo =
    All (FileOk repo) files
    × ((content : String) × (refinement repo ≡ some content)
        × (IsGoverned content × (has_prompt_file repo ≡ false)))

check_state-Checks :
    (draft accepted denied granted : Bool)
    → Checks (check_state draft accepted denied granted) (StateOk draft accepted denied granted)
unfolding check_state
check_state-Checks false false denied granted = (λ h. cc, λ (h, _). cc)
check_state-Checks false true denied true = (λ h. (refl, (λ k. cc, λ k. refl)), λ h. refl)
check_state-Checks false true denied false = (λ h. cc, λ (_, (_, k)). let gone = k refl in cc)
check_state-Checks true false true granted = (λ h. (refl, (λ k. refl, λ k. cc)), λ h. refl)
check_state-Checks true false false granted = (λ h. cc, λ (_, (k, _)). let gone = k refl in cc)
check_state-Checks true true true true = (λ h. (refl, (λ k. refl, λ k. refl)), λ h. refl)
check_state-Checks true true true false = (λ h. cc, λ (_, (_, k)). let gone = k refl in cc)
check_state-Checks true true false granted = (λ h. cc, λ (_, (k, _)). let gone = k refl in cc)

check_accepted-Checks :
    (content : String)
    → Checks (check_accepted content) (HasAll content accepted_tokens × HasAll content criteria)
unfolding check_accepted
check_accepted-Checks content =
    seq _ _ (missing decision_missing accepted_tokens content)
      (missing criterion_missing criteria content)

check_refinement-Checks :
    (content : String) → Checks (check_refinement content) (IsGoverned content)
unfolding check_refinement
check_refinement-Checks content = seq _ _ (check_state-Checks _ _ _ _) (
    seq _ _ (Clean-complain_if (status_unknown (field "Status" content)) _) (
      seq _ _ (unless (coverage_known (field "Coverage-Evidence" content)) _)
        (branch (is_accepted content) _ _ (check_accepted-Checks content) (λ _. tt, λ _. refl))))

module _ (repo : Repo) where
  errors-Checks : Checks (errors repo) (Contract repo)
  unfolding errors
  errors-Checks = seq _ _ (each (FileOk repo) files (check_file repo) (check_file-Checks repo)) (
      binding (refinement repo) _ (λ content. IsGoverned content × (has_prompt_file repo ≡ false))
        (λ content.
          seq _ _ (check_refinement-Checks content) (Clean-complain_if (has_prompt_file repo) _)))

  -- check_emp008_refinement.py succeeds exactly when its three documents are there with their tokens, the
  -- refinement is a draft that allows no implementation or is accepted and allows it, its status, if it
  -- has one, and its coverage evidence are known values, an accepted refinement has every owner decision
  -- and all 23 criteria, and no file is named CODEX_PROMPT.md.
  pub refinement008-passed : (script repo ≡ passed success) ↔ Contract repo
  unfolding script
  refinement008-passed = passing error_lines success (errors repo) errors-Checks
