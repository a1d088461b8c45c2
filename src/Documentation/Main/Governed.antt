-- ===== src/Documentation/Main/Governed.antt =====
-- When a run of scripts/check_documentation.py succeeds.
use mathlib.Core.Path.{subst}
use coupon_service.Base.{
  ℕ, ◌≡◌, ap, ◌↔◌, true, Option, none, some, List, [], ◌∷◌, arith, Text, codes, text_eq, keys,
  lookup, length, All,
}
use coupon_service.Base.Sets.{unique}
use coupon_service.Contract.Laws.{Checks, seq, each, unless}
use coupon_service.Contract.Report.{Reported, reported, crashed, ◌>>◌, Clean}
use coupon_service.Documentation.Backlog.{Tasks, State, validate_backlog}
use coupon_service.Documentation.Backlog.Accepted.{HasBacklog, validate_backlog-silent}
use coupon_service.Documentation.Hygiene.Clean.{IsTidyNode, validate_text_hygiene-Checks}
use coupon_service.Documentation.Links.{index_path}
use coupon_service.Documentation.Links.Index.{IsIndex, validate_documentation_index-Checks}
use coupon_service.Documentation.Links.Inside.{HasGoodLinks, validate_links-Checks}
use coupon_service.Documentation.Main.{
  Outcome, passed, required_files, refinements_of, documents, finish, validate_required_files,
  validate_rest, with_backlog, main,
}
use coupon_service.Documentation.Pattern.{Unicode}
use coupon_service.Documentation.Problem.{Problem, decision, risk, file_missing}
use coupon_service.Documentation.Refinements.Accepted.{
  HasRefinement, validate_refinements-Checks, reported-Clean,
}
use coupon_service.Documentation.Registers.Unique.{IsRegister, validate_unique_register_ids-Checks}
use coupon_service.Documentation.Status.Accepted.{IsStatus, validate_current_status-Checks}
use coupon_service.Documentation.Tree.{Tree, is_file, read, text_of, markdown_files}

module _ (u : Unicode) (root : List Text) (tree : Tree) where
  abbrev pub HasRequired : Type 0
  HasRequired = All (λ path. is_file tree (codes path) ≡ true) required_files

  abbrev pub HasStatus : Tasks → Type 0
  HasStatus tasks =
      (text : Text) × (text_of (read tree (codes "docs/project/current-status.md")) ≡ some text)
      × IsStatus u tasks text

  abbrev pub HasIndex : Type 0
  HasIndex = (text : Text) × (text_of (read tree index_path) ≡ some text) × IsIndex root tree text

  -- what the checks after the backlog ask for
  abbrev pub RestGoverned : Tasks → Type 0
  RestGoverned tasks =
      All (HasRefinement u tree) tasks
      × (HasStatus tasks
          × (All (HasGoodLinks root tree) (markdown_files tree)
              × (HasIndex
                  × (All (λ path. IsTidyNode path (lookup path tree)) (keys tree)
                      × All (IsRegister u tree) (decision ∷ risk ∷ [])))))

  -- The documents of the tree are governed, and the backlog lists the tasks.
  abbrev pub Governed : Tasks → Type 0
  Governed tasks = HasRequired × (HasBacklog u tree tasks × RestGoverned tasks)

  abbrev pub counts : Tasks → Outcome
  counts tasks =
      passed (length tasks) (length (unique (refinements_of tasks))) (length (documents tree))

  required-Checks : Checks (validate_required_files u root tree) HasRequired
  unfolding validate_required_files
  required-Checks =
      each (λ path. is_file tree (codes path) ≡ true) required_files _
        (λ path. unless (is_file tree (codes path)) (file_missing (codes path)))

  rest-Checks : (tasks : Tasks) → Checks (validate_rest u root tree tasks) (RestGoverned tasks)
  unfolding validate_rest
  rest-Checks tasks = seq _ _ (validate_refinements-Checks u tree tasks) (
      seq _ _ (validate_current_status-Checks u tree tasks) (
        seq _ _ (validate_links-Checks root tree) (
          seq _ _ (validate_documentation_index-Checks root tree) (
            seq _ _ (validate_text_hygiene-Checks tree)
              (validate_unique_register_ids-Checks u tree)))))

  finish-passed :
      (tasks : Tasks) (r : Reported Problem) (n m k : ℕ)
      → (finish tree tasks r ≡ passed n m k) ↔ (Clean r × (counts tasks ≡ passed n m k))
  unfolding finish
  finish-passed tasks crashed n m k = ground arith
  finish-passed tasks (reported []) n m k = ground arith
  finish-passed tasks (reported (e ∷ es)) n m k = ground arith

  run-passed :
      (found : Option State) (n m k : ℕ)
      → (with_backlog u root tree found ≡ passed n m k) ↔ (
          (tasks : Tasks) × (found ≡ some ([], tasks))
          × (HasRequired × (RestGoverned tasks × (counts tasks ≡ passed n m k))))
  run-passed none n m k = (λ h. cc, λ (tasks, is, _). cc)
  run-passed (some (problems, tasks)) n m k = (
    λ h.
        let (clean, are) = finished.0 h in
        let (required, (silent, rest)) = steps.0 clean in
        (tasks, ap (λ (ps : List Problem). some (ps, tasks)) silent, (required, (rest, are))),
    λ (found, is, (required, (rest, are))).
        let silent : problems ≡ [] = cc in
        let same : found ≡ tasks = cc in
        finished.1 (
          steps.1 (required, (silent, subst RestGoverned same rest)),
          subst (λ t. counts t ≡ passed n m k) same are,
        ),
  )
    where
      run : Reported Problem
      run =
          validate_required_files u root tree
          >> (reported problems >> validate_rest u root tree tasks)

      finished :
          (finish tree tasks run ≡ passed n m k) ↔ (Clean run × (counts tasks ≡ passed n m k))
      finished = finish-passed tasks run n m k

      steps : Clean run ↔ (HasRequired × ((problems ≡ []) × RestGoverned tasks))
      steps = seq _ _ required-Checks (seq _ _ (reported-Clean problems) (rest-Checks tasks))

-- The run ends with status 0 exactly when the documents are governed: the required files are there,
-- the backlog has no error, and each task, the current status, the links, the index, the text files and
-- the registers are in order. The numbers it then prints are those of the tasks, of their refinements
-- and of the Markdown files below `docs`.
pub main-Governed :
    (u : Unicode) (root : List Text) (tree : Tree) (n m k : ℕ)
    → (main u root tree ≡ passed n m k)
      ↔ ((tasks : Tasks) × Governed u root tree tasks × (counts u root tree tasks ≡ passed n m k))
unfolding main
main-Governed u root tree n m k = (
  λ h.
      let (tasks, is, (required, (rest, are))) = (run-passed u root tree found n m k).0 h in
      (tasks, (required, ((validate_backlog-silent u tree tasks).0 is, rest)), are),
  λ (tasks, (required, (backlog, rest)), are).
      (run-passed u root tree found n m k).1
        (tasks, (validate_backlog-silent u tree tasks).1 backlog, (required, (rest, are))),
)
  where
    found : Option State
    found = validate_backlog u tree
