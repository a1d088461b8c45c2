-- ===== src/Contract/Emp004/Checked.antt =====
-- What scripts/check_emp004.py establishes when it succeeds.
use coupon_service.Base.{◌≡◌, refl, ◌↔◌, true, false, Bool-cases, inl, inr, List, String, ◌<>◌, All}
use coupon_service.Contract.Report.{passed, error_lines, Clean-complain_if}
use coupon_service.Contract.Repo.{Repo, is_file, in_text, has_prompt_file, HasAll, Reads}
use coupon_service.Contract.Laws.{Checks, seq, reading, each, missing, passing}
use coupon_service.Contract.Emp004.{
  required, check_file, java_tests, no_sleep, errors, success, script,
}

-- Every listed file is there with its tokens, no prompt file is, and no Java test sleeps.
abbrev pub FileOk : Repo → String × List String → Type 0
FileOk repo (name, tokens) =
    (is_file repo name ≡ true) × Reads repo name (λ content. HasAll content tokens)

abbrev pub Contract : Repo → Type 0
Contract repo =
    All (FileOk repo) required
    × ((has_prompt_file repo ≡ false)
        × All (λ path. Reads repo path (λ content. in_text "Thread.sleep" content ≡ false))
            (java_tests repo))

pub check_file-Checks :
    (repo : Repo) (f : String × List String) → Checks (check_file repo f) (FileOk repo f)
unfolding check_file
check_file-Checks repo (name, tokens) = elim (Bool-cases (is_file repo name)) [
  | inr absent ↦ rw absent (λ h. cc, λ (h, _). cc)
  | inl there ↦
      let tests =
        reading repo name _ (λ content. HasAll content tokens)
          (λ content. missing (λ token. name <> " missing " <> token) tokens content) in
      rw there (λ h. (refl, tests.0 h), λ (_, h). tests.1 h)
]

errors-Checks : (repo : Repo) → Checks (errors repo) (Contract repo)
unfolding errors no_sleep
errors-Checks repo =
    seq _ _ (each (FileOk repo) required (check_file repo) (check_file-Checks repo)) (
      seq _ _ (Clean-complain_if (has_prompt_file repo) _) (
        each _ (java_tests repo) (no_sleep repo) λ path.
          reading repo path _ (λ content. in_text "Thread.sleep" content ≡ false)
            (λ content. Clean-complain_if (in_text "Thread.sleep" content) _)))

-- check_emp004.py succeeds exactly when every listed file exists and is readable text with all its
-- tokens, no file is named CODEX_PROMPT.md, and every Java file under src/test/java is readable text
-- without `Thread.sleep`.
pub emp004-passed : (repo : Repo) → (script repo ≡ passed success) ↔ Contract repo
unfolding script
emp004-passed repo = passing error_lines success (errors repo) (errors-Checks repo)
