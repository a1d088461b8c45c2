-- ===== src/Contract/Refinement011/Phase.antt =====
-- The metadata that scripts/check_emp011_refinement.py accepts are those of a phase of the refinement.
use coupon_service.Base.{
  ◌≡◌, refl, ap, ◌∙◌, ◌⊎◌, inl, inr, Bool, true, false, ◌||◌, Option, none, some, List, [], ◌∷◌,
  ◌=?◌, arith, String, Text, text_eq, text_beq, codes, All,
}
use coupon_service.Contract.Laws.{Checks, seq, each, unless, branch, refused}
use coupon_service.Contract.Report.{for_each}
use coupon_service.Contract.Refinement011.{
  metadata, is_value, is_among, has_field, draft_fields, fixed_fields, require_field, require_stage,
  check_lifecycle, check_state, measured, validate_metadata,
}

pub data Phase : Type 0 where
  draft ready in_progress done : Phase

-- what the metadata say in each phase
abbrev pub fields : Phase → List (String × String)
fields draft = ("Stan-Refinementu", "DRAFT") ∷ draft_fields
fields ready =
    ("Stan-Refinementu", "ACCEPTED")
    ∷ ("Status", "READY")
    ∷ ("Implementation", "NOT_STARTED")
    ∷ ("Review-Result", "ACCEPTED")
    ∷ fixed_fields
fields in_progress =
    ("Stan-Refinementu", "ACCEPTED")
    ∷ ("Status", "IN_PROGRESS")
    ∷ ("Implementation", "IN_PROGRESS")
    ∷ ("Review-Result", "IN_PROGRESS")
    ∷ fixed_fields
fields done =
    ("Stan-Refinementu", "ACCEPTED")
    ∷ ("Status", "DONE_AND_VERIFIED")
    ∷ ("Implementation", "DONE_AND_VERIFIED")
    ∷ ("Review-Result", "PASS")
    ∷ fixed_fields

-- The text is in the phase: it has all its fields.
abbrev pub IsIn : Text → Phase → Type 0
IsIn text phase = All (λ field. has_field text field ≡ true) (fields phase)

abbrev pub IsMeasured : Text → Type 0
IsMeasured text =
    (is_among (metadata text "Final-Review-Evidence") measured ≡ true)
    × (is_among (metadata text "Public-Repo-Evidence") measured ≡ true)

-- a value is one thing only
distinct_values :
    (v : Option Text) (a b : String)
    → (codes a =? codes b) ≡ false
    → is_value v a ≡ true
    → is_value v b ≡ false
distinct_values none a b apart h = cc
distinct_values (some v) a b apart h =
    let is = (text_eq.beq_iff v (codes a)).0 h in ap (λ (t : Text). t =? codes b) is ∙ apart

stage-Checks :
    (text : Text) (status implementation review : String)
    → Checks (require_stage text status implementation review) (
        (is_value (metadata text "Implementation") implementation ≡ true)
        × (is_value (metadata text "Review-Result") review ≡ true))
stage-Checks text status implementation review =
    seq _ _ (unless (is_value (metadata text "Implementation") implementation) _)
      (unless (is_value (metadata text "Review-Result") review) _)

fields-Checks :
    (state : String) (text : Text) (expected : List (String × String))
    → Checks
        (for_each expected (require_field state text))
        (All (λ field. has_field text field ≡ true) expected)
fields-Checks state text expected =
    each (λ field. has_field text field ≡ true) expected (require_field state text)
      (λ (key, value). unless (has_field text (key, value)) _)

module _ (text : Text) where
  abbrev Status : String → Type 0
  Status status = is_value (metadata text "Status") status ≡ true

  abbrev Stage : String → String → String → Type 0
  Stage status implementation review =
      Status status
      × ((is_value (metadata text "Implementation") implementation ≡ true)
          × (is_value (metadata text "Review-Result") review ≡ true))

  abbrev Other : String → Type 0
  Other status = is_value (metadata text "Status") status ≡ false

  abbrev Lifecycle : Type 0
  Lifecycle =
      Stage "READY" "NOT_STARTED" "ACCEPTED"
      ⊎ (Other "READY"
          × (Stage "IN_PROGRESS" "IN_PROGRESS" "IN_PROGRESS"
              ⊎ (Other "IN_PROGRESS"
                  × (Stage "DONE_AND_VERIFIED" "DONE_AND_VERIFIED" "PASS"
                      ⊎ (Other "DONE_AND_VERIFIED" × ⊥)))))

  lifecycle-Checks : Checks (check_lifecycle text) Lifecycle
  unfolding check_lifecycle
  lifecycle-Checks =
      branch (is_value (metadata text "Status") "READY") _ _
        (stage-Checks text "READY" "NOT_STARTED" "ACCEPTED")
        (branch (is_value (metadata text "Status") "IN_PROGRESS") _ _
          (stage-Checks text "IN_PROGRESS" "IN_PROGRESS" "IN_PROGRESS")
          (branch (is_value (metadata text "Status") "DONE_AND_VERIFIED") _ _
            (stage-Checks text "DONE_AND_VERIFIED" "DONE_AND_VERIFIED" "PASS") (refused _)))

  abbrev AllFields : List (String × String) → Type 0
  AllFields = All (λ field. has_field text field ≡ true)

  abbrev State : String → Bool → Type 0
  State state b = is_value (metadata text "Stan-Refinementu") state ≡ b

  abbrev InState : Type 0
  InState =
      (State "DRAFT" true × AllFields draft_fields)
      ⊎ (State "DRAFT" false
          × ((State "ACCEPTED" true × (AllFields fixed_fields × Lifecycle))
              ⊎ (State "ACCEPTED" false × Unit {0})))

  state-Checks : Checks (check_state text) InState
  unfolding check_state
  state-Checks =
      branch (is_value (metadata text "Stan-Refinementu") "DRAFT") _ _
        (fields-Checks "DRAFT" text draft_fields)
        (branch (is_value (metadata text "Stan-Refinementu") "ACCEPTED") _ _
          (seq _ _ (fields-Checks "ACCEPTED" text fixed_fields) lifecycle-Checks)
          (λ _. tt, λ _. refl))

  abbrev InPhase : Type 0
  InPhase = (phase : Phase) × IsIn text phase

  stage_phase : State "ACCEPTED" true → AllFields fixed_fields → Lifecycle → InPhase
  stage_phase accepted fixed l = elim l [
    | inl (status, (implementation, review)) ↦
        (ready, (accepted, (status, (implementation, (review, fixed)))))
    | inr (_, m) ↦ elim m [
      | inl (status, (implementation, review)) ↦
          (in_progress, (accepted, (status, (implementation, (review, fixed)))))
      | inr (_, n) ↦ elim n [
        | inl (status, (implementation, review)) ↦
            (done, (accepted, (status, (implementation, (review, fixed)))))
        | inr (_, no_way) ↦ absurd no_way
      ]
    ]
  ]

  phase_of_state :
      is_among (metadata text "Stan-Refinementu") ("DRAFT" ∷ "ACCEPTED" ∷ []) ≡ true
      → InState
      → InPhase
  phase_of_state known s = elim s [
    | inl (is_draft, all) ↦ (draft, (is_draft, all))
    | inr (not_draft, t) ↦ elim t [
      | inl (accepted, (fixed, l)) ↦ stage_phase accepted fixed l
      | inr (not_accepted, _) ↦ absurd (unknown _ _ not_draft not_accepted known)
    ]
  ]
    where
      unknown : (a b : Bool) → a ≡ false → b ≡ false → (a || (b || false)) ≡ true → ⊥
      unknown a b x y h = ground arith

  not_draft : State "ACCEPTED" true → State "DRAFT" false
  unfolding text_beq
  not_draft h = distinct_values (metadata text "Stan-Refinementu") "ACCEPTED" "DRAFT" refl h

  state_of_phase : (phase : Phase) → IsIn text phase → InState
  unfolding text_beq
  state_of_phase draft (is_draft, all) = inl (is_draft, all)
  state_of_phase ready (accepted, (status, (implementation, (review, fixed)))) =
      inr (not_draft accepted, inl (accepted, (fixed, inl (status, (implementation, review)))))
  state_of_phase in_progress (accepted, (status, (implementation, (review, fixed)))) =
      let not_ready = distinct_values (metadata text "Status") "IN_PROGRESS" "READY" refl status in
      inr (
        not_draft accepted,
        inl (accepted, (fixed, inr (not_ready, inl (status, (implementation, review))))),
      )
  state_of_phase done (accepted, (status, (implementation, (review, fixed)))) =
      let not_ready =
        distinct_values (metadata text "Status") "DONE_AND_VERIFIED" "READY" refl status in
      let not_started =
        distinct_values (metadata text "Status") "DONE_AND_VERIFIED" "IN_PROGRESS" refl status in
      inr (
        not_draft accepted,
        inl (
          accepted,
          (fixed, inr (not_ready, inr (not_started, inl (status, (implementation, review))))),
        ),
      )

  abbrev Known : Type 0
  Known =
      (is_among (metadata text "Stan-Refinementu") ("DRAFT" ∷ "ACCEPTED" ∷ []) ≡ true)
      × ((is_among (metadata text "Status")
              ("REFINEMENT" ∷ "READY" ∷ "IN_PROGRESS" ∷ "DONE_AND_VERIFIED" ∷ [])
            ≡ true)
          × (is_among (metadata text "Implementation")
                ("NOT_STARTED" ∷ "IN_PROGRESS" ∷ "DONE_AND_VERIFIED" ∷ [])
              ≡ true))

  -- the values of a phase are among the known ones
  known_of_phase : (phase : Phase) → IsIn text phase → Known
  known_of_phase draft (state, (status, (implementation, _))) =
      (ground arith, (ground arith, ground arith))
  known_of_phase ready (state, (status, (implementation, _))) =
      (ground arith, (ground arith, ground arith))
  known_of_phase in_progress (state, (status, (implementation, _))) =
      (ground arith, (ground arith, ground arith))
  known_of_phase done (state, (status, (implementation, _))) =
      (ground arith, (ground arith, ground arith))

-- The metadata have no error exactly when they are those of a phase (a draft, or an accepted
-- refinement that is ready, in progress or done), with evidence of one of the known kinds.
pub validate_metadata-IsIn :
    (text : Text)
    → Checks (validate_metadata text) ((phase : Phase) × IsIn text phase × IsMeasured text)
unfolding validate_metadata
validate_metadata-IsIn text = (
  λ h.
      let (state, (_, (_, (review, (repo, rest))))) = all.0 h in
      let (phase, is) = phase_of_state text state rest in (phase, is, (review, repo)),
  λ (phase, is, (review, repo)).
      let (state, (status, implementation)) = known_of_phase text phase is in
      all.1 (state, (status, (implementation, (review, (repo, state_of_phase text phase is))))),
)
  where
    all : Checks (validate_metadata text) (
        (is_among (metadata text "Stan-Refinementu") ("DRAFT" ∷ "ACCEPTED" ∷ []) ≡ true)
        × ((is_among
                (metadata text "Status")
                ("REFINEMENT" ∷ "READY" ∷ "IN_PROGRESS" ∷ "DONE_AND_VERIFIED" ∷ [])
              ≡ true)
            × ((is_among
                    (metadata text "Implementation")
                    ("NOT_STARTED" ∷ "IN_PROGRESS" ∷ "DONE_AND_VERIFIED" ∷ [])
                  ≡ true)
                × ((is_among (metadata text "Final-Review-Evidence") measured ≡ true)
                    × ((is_among (metadata text "Public-Repo-Evidence") measured ≡ true)
                        × InState text)))))
    all = seq _ _ (unless _ _) (
        seq _ _ (unless _ _)
          (seq _ _ (unless _ _) (seq _ _ (unless _ _) (seq _ _ (unless _ _) (state-Checks text)))))
