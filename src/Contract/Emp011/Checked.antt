-- ===== src/Contract/Emp011/Checked.antt =====
-- What scripts/check_emp011.py establishes when it succeeds.
use coupon_service.Base.{
  ◌≡◌, ◌↔◌, true, false, some, List, [], ◌∷◌, arith, Text, text_eq, codes, All, occurs,
}
use coupon_service.Contract.Emp011.{
  Document, readme, api, architecture, testing, registry, trace, ref, backlog, status_doc,
  checklist, mitigated, open_risks, has_risk, not_mitigated, not_open, require, forbid,
  check_document, check_risks, public_methods, check_openapi, errors, main,
}
use coupon_service.Contract.Laws.{Checks, seq, binding, each, unless}
use coupon_service.Contract.Refinement011.Content.{decisions, accepted_end, are_eight}
use coupon_service.Contract.Refinement011.Main.{exit_status}
use coupon_service.Contract.Report.{Reported, reported, crashed, Clean, Clean-complain_if, for_each}
use coupon_service.Contract.Repo.{Repo, read, has_prompt_file, Reads}
use coupon_service.Documentation.Backlog.{same_texts}
use coupon_service.Documentation.Backlog.Accepted.{same_texts_iff}
use coupon_service.Documentation.Pattern.{Unicode}

abbrev pub IsCurrent : Document → Text → Type 0
IsCurrent document text =
    All (λ token. occurs (codes token) text ≡ true) document.tokens
    × All (λ token. occurs (codes token) text ≡ false) document.stale

abbrev pub HasDocument : Repo → Document → Type 0
HasDocument repo document = Reads repo document.path (λ text. IsCurrent document (codes text))

abbrev pub HasRisks : Text → Type 0
HasRisks risks =
    All (λ id. has_risk risks "MITIGATED" id ≡ true) mitigated
    × All (λ id. has_risk risks "OPEN" id ≡ true) open_risks

document-Checks :
    (repo : Repo) (document : Document)
    → Checks (check_document repo document) (HasDocument repo document)
unfolding check_document
document-Checks repo document =
    binding (read repo document.path) _ (λ text. IsCurrent document (codes text))
      (λ text.
        seq _ _
          (each (λ token. occurs (codes token) (codes text) ≡ true) document.tokens
            (require document.place (codes text))
            (λ token. unless (occurs (codes token) (codes text)) _))
          (each (λ token. occurs (codes token) (codes text) ≡ false) document.stale
            (forbid document.place (codes text))
            (λ token. Clean-complain_if (occurs (codes token) (codes text)) _)))

risks-Checks : (risks : Text) → Checks (check_risks risks) (HasRisks risks)
unfolding check_risks
risks-Checks risks =
    seq _ _
      (each (λ id. has_risk risks "MITIGATED" id ≡ true) mitigated _
        (λ id. unless (has_risk risks "MITIGATED" id) (not_mitigated id)))
      (each (λ id. has_risk risks "OPEN" id ≡ true) open_risks _
        (λ id. unless (has_risk risks "OPEN" id) (not_open id)))

openapi-Checks :
    (openapi : Text)
    → Checks (check_openapi openapi) (public_methods openapi ≡ codes "post" ∷ codes "post" ∷ [])
unfolding check_openapi
openapi-Checks openapi =
    let test = unless (same_texts (public_methods openapi) (codes "post" ∷ codes "post" ∷ [])) _ in
    let same = same_texts_iff (public_methods openapi) (codes "post" ∷ codes "post" ∷ []) in
    (λ h. same.0 (test.0 h), λ h. test.1 (same.1 h))

exit_status-zero : (r : Reported Text) → (exit_status r ≡ some 0) ↔ Clean r
unfolding exit_status
exit_status-zero crashed = ground arith
exit_status-zero (reported []) = ground arith
exit_status-zero (reported (e ∷ es)) = ground arith

module _ (u : Unicode) (repo : Repo) where
  abbrev pub AreCurrent : List Document → Type 0
  AreCurrent = All (HasDocument repo)

  -- The documents are current, the risks have their states, the refinement its eight accepted decisions,
  -- and the API its two operations.
  abbrev pub IsReviewed : Type 0
  IsReviewed =
      AreCurrent (readme ∷ api ∷ architecture ∷ testing ∷ registry ∷ [])
      × Reads repo "docs/project/risk-register.md" (λ risks.
        HasRisks (codes risks)
        × (AreCurrent (trace ∷ ref ∷ [])
            × Reads repo "docs/project/refinements/EMP-011.md" (λ refinement.
              (are_eight u (decisions u accepted_end (codes refinement)) ≡ true)
              × (AreCurrent (backlog ∷ status_doc ∷ checklist ∷ [])
                  × Reads repo "docs/api/openapi.yaml" (λ openapi.
                    (public_methods (codes openapi) ≡ codes "post" ∷ codes "post" ∷ [])
                    × (has_prompt_file repo ≡ false))))))

  current-Checks : (ds : List Document) → Checks (for_each ds (check_document repo)) (AreCurrent ds)
  current-Checks ds = each (HasDocument repo) ds (check_document repo) (document-Checks repo)

  errors-Checks : Checks (errors u repo) IsReviewed
  unfolding errors
  errors-Checks = seq _ _ (current-Checks (readme ∷ api ∷ architecture ∷ testing ∷ registry ∷ [])) (
      binding (read repo "docs/project/risk-register.md") _ _ (λ risks.
        seq _ _ (risks-Checks (codes risks)) (
          seq _ _ (current-Checks (trace ∷ ref ∷ [])) (
            binding (read repo "docs/project/refinements/EMP-011.md") _ _ (λ refinement.
              seq _ _ (unless (are_eight u (decisions u accepted_end (codes refinement))) _) (
                seq _ _ (current-Checks (backlog ∷ status_doc ∷ checklist ∷ [])) (
                  binding (read repo "docs/api/openapi.yaml") _ _ (λ openapi.
                    seq _ _ (openapi-Checks (codes openapi))
                      (Clean-complain_if (has_prompt_file repo) _)))))))))

  -- The script ends with status 0 exactly when the documents have what the final review asks for and no
  -- stale marker, the risks are mitigated or open as expected, the refinement has eight accepted
  -- decisions, and the API document has two operations, both `post`.
  pub emp011-passed : (main u repo ≡ some 0) ↔ IsReviewed
  unfolding main
  emp011-passed =
      let exit = exit_status-zero (errors u repo) in
      (λ h. errors-Checks.0 (exit.0 h), λ h. exit.1 (errors-Checks.1 h))
