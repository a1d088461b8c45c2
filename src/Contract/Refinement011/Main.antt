-- ===== src/Contract/Refinement011/Main.antt =====
-- `main` of scripts/check_emp011_refinement.py, and what a successful run says of the refinement.
use coupon_service.Base.{
  ℕ, ◌≡◌, refl, Bool, Bool-cases, inl, inr, true, false, not, ◌&&◌, Option, none, some, [], ◌∷◌,
  arith, String, Text, codes,
}
use coupon_service.Contract.Laws.{refused}
use coupon_service.Contract.Refinement011.{metadata, is_value, validate_metadata}
use coupon_service.Contract.Refinement011.Content.{
  accepted_end, pending_end, are_eight, decisions, validate_content,
}
use coupon_service.Contract.Refinement011.Documents.{
  validate_governance, validate_supporting_docs, validate_preimplementation_boundary,
  validate_hygiene,
}
use coupon_service.Contract.Refinement011.Phase.{
  Phase, draft, ready, in_progress, done, IsIn, IsMeasured, validate_metadata-IsIn,
}
use coupon_service.Contract.Report.{
  Reported, reported, crashed, ◌>>◌, ◌>>=◌, Clean, Clean->>, Clean->>=, complain, Clean-complain_if,
}
use coupon_service.Contract.Repo.{Repo, is_file, read}
use coupon_service.Documentation.Pattern.{Unicode}

abbrev pub refinement_path : String
refinement_path = "docs/project/refinements/EMP-011.md"

-- the exit status; `none` is an exception
unfoldable pub exit_status : Reported Text → Option ℕ
exit_status crashed = none
exit_status (reported []) = some 0
exit_status (reported (e ∷ es)) = some 1

module _ (u : Unicode) (repo : Repo) where
  unfoldable pub validate_text : Text → Reported Text
  unfolding validate_metadata validate_content validate_governance validate_supporting_docs
      validate_preimplementation_boundary
  validate_text text = do
    validate_metadata text
    validate_content u text
    validate_governance repo text
    validate_supporting_docs repo
    validate_preimplementation_boundary repo text

  abbrev pub with_text : Bool → Reported Text
  with_text true = read repo refinement_path >>= (λ text. validate_text (codes text))
  with_text false = complain (codes "Missing docs/project/refinements/EMP-011.md")

  unfoldable pub main : Option ℕ
  unfolding is_file read validate_text validate_hygiene exit_status
  main = exit_status (with_text (is_file repo refinement_path) >> validate_hygiene repo)

  exit_status-zero : (r : Reported Text) → exit_status r ≡ some 0 → Clean r
  unfolding exit_status
  exit_status-zero crashed h = cc
  exit_status-zero (reported []) h = refl
  exit_status-zero (reported (e ∷ es)) h = ground arith

  -- the decisions that a phase asks for
  abbrev pub HasDecisions : Text → Phase → Type 0
  HasDecisions text draft = are_eight u (decisions u pending_end text) ≡ true
  HasDecisions text ready = are_eight u (decisions u accepted_end text) ≡ true
  HasDecisions text in_progress = are_eight u (decisions u accepted_end text) ≡ true
  HasDecisions text done = are_eight u (decisions u accepted_end text) ≡ true

  asked : (b c : Bool) → b ≡ true → (b && not c) ≡ false → c ≡ true
  asked b c h k = ground arith

  content-decisions :
      (text : Text) (phase : Phase)
      → IsIn text phase
      → Clean (validate_content u text)
      → HasDecisions text phase
  unfolding validate_content
  content-decisions text phase is clean =
      let (_, rest) = (Clean->> _ _).0 clean in
      let (_, both) = (Clean->> _ _).0 rest in
      let (pending, accepted) = (Clean->> _ _).0 both in
      by_phase phase is ((Clean-complain_if _ _).0 pending) ((Clean-complain_if _ _).0 accepted)
    where
      by_phase :
          (p : Phase)
          → IsIn text p
          → (is_value (metadata text "Stan-Refinementu") "DRAFT"
              && not (are_eight u (decisions u pending_end text)))
            ≡ false
          → (is_value (metadata text "Stan-Refinementu") "ACCEPTED"
              && not (are_eight u (decisions u accepted_end text)))
            ≡ false
          → HasDecisions text p
      by_phase draft (state, _) p a = asked _ _ state p
      by_phase ready (state, _) p a = asked _ _ state a
      by_phase in_progress (state, _) p a = asked _ _ state a
      by_phase done (state, _) p a = asked _ _ state a

  -- A run that ends with status 0 has read a refinement that is in one of its phases, with evidence of a
  -- known kind and the eight decisions of the phase: pending in a draft, accepted afterwards.
  pub main-IsIn :
      main ≡ some 0
      → (text : String) × (read repo refinement_path ≡ some text)
        × (phase : Phase) × IsIn (codes text) phase
        × IsMeasured (codes text)
        × HasDecisions (codes text) phase
  unfolding main validate_text
  main-IsIn h = elim (Bool-cases (is_file repo refinement_path)) [
    | inr missing ↦
        let clean = exit_status-zero (with_text false >> validate_hygiene repo) (rw missing at h) in
        absurd ((refused _).0 ((Clean->> _ _).0 clean).0)
    | inl there ↦
        let clean = exit_status-zero (with_text true >> validate_hygiene repo) (rw there at h) in
        let (text, is, checked) =
          (Clean->>= (read repo refinement_path) _).0 ((Clean->> _ _).0 clean).0 in
        let (metadata_clean, rest) = (Clean->> _ _).0 checked in
        let (content_clean, _) = (Clean->> _ _).0 rest in
        let (phase, in_phase, are_measured) =
          (validate_metadata-IsIn (codes text)).0 metadata_clean in
        (
          text,
          is,
          phase,
          in_phase,
          are_measured,
          content-decisions (codes text) phase in_phase content_clean,
        )
  ]
