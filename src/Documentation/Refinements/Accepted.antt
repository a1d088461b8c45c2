-- ===== src/Documentation/Refinements/Accepted.antt =====
-- When `validate_refinements` finds no error. The condition speaks of the documents alone: what the
-- cache holds is what a document says.
use mathlib.Core.Path.{subst}
use mathlib.Core.Option.{some-injective}
use coupon_service.Base.{
  ◌≡◌, refl, sym, ap, ◌∙◌, ◌↔◌, ◌⊎◌, inl, inr, Bool, true, false, not, ◌&&◌, ◌||◌, if◌then◌else◌,
  none, some, List, [], ◌∷◌, ◌++◌, arith, Text, text_eq, codes, contains, occurs, lookup, has_key,
  insert, All, Bool-cases, Option-cases, lookup-insert, lookup_of_has_key, =?_refl,
}
use coupon_service.Contract.Laws.{Checks, seq}
use coupon_service.Contract.Report.{
  Reported, reported, crashed, ◌>>◌, Clean, complain, complain_if, Clean-complain_if,
}
use coupon_service.Documentation.Backlog.{Task, Tasks, problem_if}
use coupon_service.Documentation.Pattern.{Unicode, date, is_whole, has_marker}
use coupon_service.Documentation.Problem.{Problem, refinement_missing}
use coupon_service.Documentation.Refinements.{
  Metadata, parse_metadata, has_value, state_key, is_accepted, or_empty, refinement_path,
  active_statuses, no_questions, Checked, absent, raised, entered, check_accepted, check_metadata,
  enter, lacks_acceptance, after_entry, refinements_from, validate_refinements,
}
use coupon_service.Documentation.Tree.{Tree, is_file, read, text_of}

append-silent : (ps qs : List Problem) → ((ps ++ qs) ≡ []) ↔ ((ps ≡ []) × (qs ≡ []))
append-silent [] qs = ground arith
append-silent (p ∷ ps) qs = ground arith

problem_if-silent : (b : Bool) (p : Problem) → (problem_if (not b) p ≡ []) ↔ (b ≡ true)
problem_if-silent true p = ground arith
problem_if-silent false p = ground arith

unless-append :
    (b : Bool) (p : Problem) (qs : List Problem)
    → ((problem_if (not b) p ++ qs) ≡ []) ↔ ((b ≡ true) × (qs ≡ []))
unless-append true p qs = ground arith
unless-append false p qs = ground arith

complain_first : (p : Problem) (r : Reported Problem) → ¬ Clean (complain p >> r)
complain_first p crashed = ground arith
complain_first p (reported ps) = ground arith

crashed_is_error : ¬ Clean {M = Problem} crashed
crashed_is_error = ground arith

pub reported-Clean : (ps : List Problem) → Clean (reported ps) ↔ (ps ≡ [])
reported-Clean [] = ground arith
reported-Clean (p ∷ ps) = ground arith

entered-Clean :
    (ps : List Problem) (b : Bool) (p : Problem) (r : Reported Problem)
    → Clean (reported ps >> (complain_if b p >> r)) ↔ ((ps ≡ []) × ((b ≡ false) × Clean r))
entered-Clean ps b p r =
    seq (reported ps) _ (reported-Clean ps)
      (seq (complain_if b p) r (Clean-complain_if b p) (λ h. h, λ h. h))

-- the messages of a test that runs only where `b` holds
when-silent {ℓ} :
    {P : Type ℓ} (b : Bool) (ps : List Problem)
    → ((ps ≡ []) ↔ P)
    → ((if b then ps else []) ≡ []) ↔ ((b ≡ true) → P)
when-silent true ps f = (λ h. λ _. f.0 h, λ k. f.1 (k refl))
when-silent false ps f = (λ h. λ no_way. cc, λ k. refl)

unless-silent : (b c : Bool) → ((b && not c) ≡ false) ↔ ((b ≡ true) → c ≡ true)
unless-silent true true = (λ _. λ _. refl, λ _. refl)
unless-silent true false = (λ h. cc, λ k. sym (k refl))
unless-silent false c = (λ h. λ no_way. cc, λ _. refl)

module _ (u : Unicode) (tree : Tree) where
  -- An accepted refinement has its date and permission, no marker of open work and no open question.
  abbrev pub MeetsAcceptance : Metadata → Text → Type 0
  MeetsAcceptance m text =
      (is_whole u (date u (or_empty (lookup (codes "Data-Akceptacji") m))) ≡ true)
      × (has_value (codes "Implementation-Allowed") m (codes "YES") ≡ true)
      × (has_marker u text ≡ false)
      × (occurs no_questions text ≡ true)

  abbrev pub MeetsMetadata : Text → Metadata → Text → Type 0
  MeetsMetadata id m text =
      (has_value (codes "Task-ID") m id ≡ true)
      × ((has_value state_key m (codes "DRAFT") || is_accepted m) ≡ true)
      × (is_accepted m ≡ true → MeetsAcceptance m text)

  -- the document of a refinement, with its text
  abbrev pub IsDocument : Text → Text → Type 0
  IsDocument id text =
      (is_file tree (refinement_path id) ≡ true)
      × (text_of (read tree (refinement_path id)) ≡ some text)

  -- The task's refinement is a document in order, and accepted where the task has got that far.
  abbrev pub HasRefinement : Text × Task → Type 0
  HasRefinement (id, task) =
      (text : Text) × IsDocument task.refinement text
      × MeetsMetadata task.refinement (parse_metadata text) text
      × (contains task.status active_statuses ≡ true → is_accepted (parse_metadata text) ≡ true)

  check_accepted-silent :
      (id : Text) (m : Metadata) (text : Text)
      → (check_accepted u tree id m text ≡ []) ↔ MeetsAcceptance m text
  unfolding check_accepted
  check_accepted-silent id m text = ground arith

  check_metadata-silent :
      (id : Text) (m : Metadata) (text : Text)
      → (check_metadata u tree id m text ≡ []) ↔ MeetsMetadata id m text
  unfolding check_metadata
  check_metadata-silent id m text = (
    λ h.
        let (task, rest) = (unless-append _ _ _).0 h in
        let (state, more) = (unless-append _ _ _).0 rest in (task, state, accepted.0 more),
    λ (task, state, more).
        (unless-append _ _ _).1 (task, (unless-append _ _ _).1 (state, accepted.1 more)),
  )
    where
      accepted :
          ((if is_accepted m then check_accepted u tree id m text else []) ≡ [])
          ↔ (is_accepted m ≡ true → MeetsAcceptance m text)
      accepted =
          when-silent (is_accepted m) (check_accepted u tree id m text)
            (check_accepted-silent id m text)

  -- What the cache holds is what a document in order says.
  abbrev IsSound : Checked → Type 0
  IsSound checked =
      (id : Text) (m : Metadata)
      → lookup id checked ≡ some m
      → (text : Text) × IsDocument id text × MeetsMetadata id m text × (m ≡ parse_metadata text)

  -- The first half of the loop body where there is a document: its metadata are then in the cache.
  record Enters (id : Text) (checked : Checked) : Type 0 where
    document : Text
    is_document : IsDocument id document
    problems : List Problem
    cache : Checked
    enters : enter u tree id checked ≡ entered problems cache
    silent : (problems ≡ []) ↔ MeetsMetadata id (parse_metadata document) document
    known : lookup id cache ≡ some (parse_metadata document)
    sound : problems ≡ [] → IsSound cache

  -- and where there is none
  record Stops (id : Text) (checked : Checked) : Type 0 where
    stops : (enter u tree id checked ≡ absent) ⊎ (enter u tree id checked ≡ raised)
    no_document : ¬ ((text : Text) × IsDocument id text)

  insert-IsSound :
      (id text : Text) (checked : Checked)
      → IsSound checked
      → IsDocument id text
      → MeetsMetadata id (parse_metadata text) text
      → IsSound (insert id (parse_metadata text) checked)
  insert-IsSound id text checked sound is meets j m found = elim (Bool-cases (text_eq.beq j id)) [
    | inl same ↦
        let eq = (text_eq.beq_iff j id).0 same in
        let says : parse_metadata text ≡ m =
          some-injective _ _
            (sym (lookup-insert j id (parse_metadata text) checked ∙ rw same refl) ∙ found) in
        subst (λ k. (t : Text) × IsDocument k t × MeetsMetadata k m t × (m ≡ parse_metadata t))
          (sym eq) (text, is, subst (λ n. MeetsMetadata id n text) says meets, sym says)
    | inr other ↦ sound j m (ground (arith, lookup-insert j id (parse_metadata text) checked))
  ]

  enter_cached :
      (id : Text) (checked : Checked)
      → IsSound checked
      → has_key id checked ≡ true
      → Enters id checked
  unfolding enter
  enter_cached id checked sound is =
      let (m, found) = lookup_of_has_key id checked is in
      let (text, document, meets, same) = sound id m found in
      record {
        document = text;
        is_document = document;
        problems = [];
        cache = checked;
        enters = rw is refl;
        silent = (λ _. subst (λ n. MeetsMetadata id n text) same meets, λ _. refl);
        known = found ∙ ap some same;
        sound = λ _. sound;
      }

  enter_new :
      (id text : Text) (checked : Checked)
      → IsSound checked
      → has_key id checked ≡ false
      → IsDocument id text
      → Enters id checked
  unfolding enter
  enter_new id text checked sound new (file, is) = record {
    document = text;
    is_document = (file, is);
    problems = check_metadata u tree id (parse_metadata text) text;
    cache = insert id (parse_metadata text) checked;
    enters = rw (new, file, is) refl;
    silent = check_metadata-silent id (parse_metadata text) text;
    known = lookup-insert id id (parse_metadata text) checked ∙ rw (=?_refl id) refl;
    sound = λ h.
        insert-IsSound id text checked sound (file, is)
          ((check_metadata-silent id (parse_metadata text) text).0 h);
  }

  enter_none :
      (id : Text) (checked : Checked)
      → has_key id checked ≡ false
      → is_file tree (refinement_path id) ≡ false
      → Stops id checked
  unfolding enter
  enter_none id checked new none_there = record {
    stops = inl (rw (new, none_there) refl);
    no_document = λ (text, (file, is)). cc;
  }

  enter_unread :
      (id : Text) (checked : Checked)
      → has_key id checked ≡ false
      → is_file tree (refinement_path id) ≡ true
      → text_of (read tree (refinement_path id)) ≡ none
      → Stops id checked
  unfolding enter
  enter_unread id checked new file unread = record {
    stops = inr (rw (new, file, unread) refl);
    no_document = λ (text, (_, is)). cc;
  }

  enter-cases :
      (id : Text) (checked : Checked) → IsSound checked → Stops id checked ⊎ Enters id checked
  enter-cases id checked sound = elim (Bool-cases (has_key id checked)) [
    | inl cached ↦ inr (enter_cached id checked sound cached)
    | inr new ↦ elim (Bool-cases (is_file tree (refinement_path id))) [
      | inr none_there ↦ inl (enter_none id checked new none_there)
      | inl file ↦ elim (Option-cases (text_of (read tree (refinement_path id)))) [
        | inl unread ↦ inl (enter_unread id checked new file unread)
        | inr (text, is) ↦ inr (enter_new id text checked sound new (file, is))
      ]
    ]
  ]

  Stops-Checks {ℓ} :
      {P : Type ℓ} (id : Text) (task : Task) (checked : Checked) (rest : Checked → Reported Problem)
      → Stops task.refinement checked
      → Checks
          (after_entry u tree id task checked (enter u tree task.refinement checked) rest)
          (HasRefinement (id, task) × P)
  Stops-Checks {P = P} id task checked rest s = (
    λ h. absurd (stuck h),
    λ ((text, document, _, _), _). absurd (s.no_document (text, document)),
  )
    where
      stuck :
          ¬ Clean (after_entry u tree id task checked (enter u tree task.refinement checked) rest)
      stuck h = elim s.stops [
        | inl is ↦
            complain_first (refinement_missing task.refinement id) (rest checked) (rw is at h)
        | inr is ↦ crashed_is_error (rw is at h)
      ]

  lacks-silent :
      (task : Task) (cache : Checked) (m : Metadata)
      → lookup task.refinement cache ≡ some m
      → (lacks_acceptance u tree task cache ≡ false)
        ↔ (contains task.status active_statuses ≡ true → is_accepted m ≡ true)
  lacks-silent task cache m known =
      rw known (unless-silent (contains task.status active_statuses) (is_accepted m))

  Enters-Checks {ℓ} :
      {P : Type ℓ} (id : Text) (task : Task) (checked : Checked) (rest : Checked → Reported Problem)
      → ((cache : Checked) → IsSound cache → Checks (rest cache) P)
      → Enters task.refinement checked
      → Checks
          (after_entry u tree id task checked (enter u tree task.refinement checked) rest)
          (HasRefinement (id, task) × P)
  Enters-Checks {P = P} id task checked rest f e = (
    λ h.
        let clean = rw e.enters at h in
        let (silent, (accepted, later)) =
          (entered-Clean e.problems (lacks_acceptance u tree task e.cache) _ (rest e.cache)).0
            clean in
        (
          (e.document, e.is_document, e.silent.0 silent, lacks.0 accepted),
          (f e.cache (e.sound silent)).0 later,
        ),
    λ ((text, is, meets, accepted), p).
        let same = same_document text is in
        let silent =
          e.silent.1 (subst (λ t. MeetsMetadata task.refinement (parse_metadata t) t) same meets) in
        let accepts_it = lacks.1 (
          subst
            (λ t.
              contains task.status active_statuses ≡ true → is_accepted (parse_metadata t) ≡ true)
            same accepted) in
        rw e.enters (
          (entered-Clean e.problems (lacks_acceptance u tree task e.cache) _ (rest e.cache)).1
            (silent, (accepts_it, (f e.cache (e.sound silent)).1 p))),
  )
    where
      lacks : (lacks_acceptance u tree task e.cache ≡ false) ↔ (
          contains task.status active_statuses ≡ true
          → is_accepted (parse_metadata e.document) ≡ true)
      lacks = lacks-silent task e.cache (parse_metadata e.document) e.known

      same_document : (text : Text) → IsDocument task.refinement text → text ≡ e.document
      same_document text (_, is) = some-injective _ _ (sym is ∙ e.is_document.1)

  refinements_from-Checks :
      (tasks : Tasks) (checked : Checked)
      → IsSound checked
      → Checks (refinements_from u tree tasks checked) (All HasRefinement tasks)
  unfolding refinements_from
  refinements_from-Checks [] checked sound = (λ _. tt, λ _. refl)
  refinements_from-Checks ((id, task) ∷ tasks) checked sound =
      let later : (cache : Checked)
          → IsSound cache
          → Checks (refinements_from u tree tasks cache) (All HasRefinement tasks) =
        refinements_from-Checks tasks in
      elim (enter-cases task.refinement checked sound) [
        | inl stops ↦ Stops-Checks id task checked _ stops
        | inr enters ↦ Enters-Checks id task checked _ later enters
      ]

  -- No error is found exactly when the refinement of every task is a document in order, and accepted
  -- where the task's status asks for it. A document that several tasks name is looked up in the cache
  -- from the second on, with the same result.
  pub validate_refinements-Checks :
      (tasks : Tasks) → Checks (validate_refinements u tree tasks) (All HasRefinement tasks)
  unfolding validate_refinements
  validate_refinements-Checks tasks = refinements_from-Checks tasks [] (λ id m h. cc)
