-- ===== src/Documentation/Main.antt =====
-- `main` of scripts/check_documentation.py.
pub mod Governed
pub mod Failing
pub mod Surviving
use coupon_service.Base.{
  ℕ, Bool, true, false, not, Option, none, some, List, [], ◌∷◌, ◌++◌, map, String, if◌then◌else◌,
  Text, codes, text_eq, length, select, keys, starts_with, ◌&&◌,
}
use coupon_service.Base.Sets.{unique}
use coupon_service.Contract.Report.{Reported, reported, crashed, ◌>>◌, complain_if, for_each}
use coupon_service.Documentation.Backlog.{Task, Tasks, State, validate_backlog}
use coupon_service.Documentation.Hygiene.{validate_text_hygiene}
use coupon_service.Documentation.Links.{validate_links, validate_documentation_index}
use coupon_service.Documentation.Pattern.{Unicode}
use coupon_service.Documentation.Problem.{Problem, file_missing}
use coupon_service.Documentation.Refinements.{validate_refinements}
use coupon_service.Documentation.Registers.{validate_unique_register_ids}
use coupon_service.Documentation.Status.{validate_current_status}
use coupon_service.Documentation.Tree.{Tree, is_file, is_markdown}

abbrev pub required_files : List String
required_files =
    "README.md" ∷ "CHANGELOG.md" ∷ "PROJECT_RULES.md" ∷ "AUDIT.md" ∷ "docs/README.md"
    ∷ "docs/DOCUMENTATION_INDEX.md" ∷ "docs/project/documentation-governance.md"
    ∷ "docs/project/refinement-process.md" ∷ "docs/project/definition-of-ready-and-done.md"
    ∷ "docs/project/backlog.md" ∷ "docs/project/current-status.md" ∷ "docs/project/decision-log.md"
    ∷ "docs/project/risk-register.md" ∷ "docs/project/lessons-learned.md"
    ∷ "docs/project/release-history.md" ∷ "docs/project/refinements/README.md"
    ∷ "docs/project/refinements/EMP-001.md" ∷ "docs/project/refinements/EMP-001-summary.md"
    ∷ "docs/project/refinements/EMP-001-review-checklist.md" ∷ "docs/project/refinements/EMP-003.md"
    ∷ "docs/project/refinements/EMP-003-summary.md"
    ∷ "docs/project/refinements/EMP-003-review-checklist.md" ∷ "docs/project/refinements/EMP-004.md"
    ∷ "docs/project/refinements/EMP-004-summary.md"
    ∷ "docs/project/refinements/EMP-004-review-checklist.md" ∷ "docs/project/refinements/EMP-006.md"
    ∷ "docs/project/refinements/EMP-006-summary.md"
    ∷ "docs/project/refinements/EMP-006-review-checklist.md" ∷ "docs/project/refinements/EMP-007.md"
    ∷ "docs/project/refinements/EMP-007-summary.md"
    ∷ "docs/project/refinements/EMP-007-review-checklist.md" ∷ "docs/project/refinements/EMP-008.md"
    ∷ "docs/project/refinements/EMP-008-summary.md"
    ∷ "docs/project/refinements/EMP-008-review-checklist.md" ∷ "docs/project/refinements/EMP-009.md"
    ∷ "docs/project/refinements/EMP-009-summary.md"
    ∷ "docs/project/refinements/EMP-009-review-checklist.md" ∷ "docs/project/refinements/EMP-010.md"
    ∷ "docs/project/refinements/EMP-010-summary.md"
    ∷ "docs/project/refinements/EMP-010-review-checklist.md" ∷ "docs/project/refinements/EMP-011.md"
    ∷ "docs/project/refinements/EMP-011-summary.md"
    ∷ "docs/project/refinements/EMP-011-review-checklist.md" ∷ "docs/architecture/overview.md"
    ∷ "docs/architecture/data-model.md" ∷ "docs/api/api-contract.md"
    ∷ "docs/testing/test-strategy.md" ∷ "docs/product/requirements-traceability.md"
    ∷ "docs/adr/README.md" ∷ "docs/adr/ADR-0001-modular-monolith-and-technology-stack.md"
    ∷ "docs/adr/ADR-0002-concurrency-and-redemption-consistency.md"
    ∷ "docs/adr/ADR-0003-geolocation-client-ip-and-privacy.md" ∷ []

-- The end of the run: status 0 with the numbers of tasks, of refinements and of documents, status 1 with the errors, or
-- an exception.
pub data Outcome : Type 0 where
  passed : ℕ → ℕ → ℕ → Outcome
  failed : List Problem → Outcome
  traceback : Outcome

abbrev pub refinements_of : Tasks → List Text
refinements_of [] = []
refinements_of ((id, task) ∷ tasks) = task.refinement ∷ refinements_of tasks

-- `DOCS.rglob("*.md")`
unfoldable pub documents : Tree → List Text
unfolding starts_with
documents tree = select (λ path. starts_with path (codes "docs/") && is_markdown path) (keys tree)

unfoldable pub finish : Tree → Tasks → Reported Problem → Outcome
unfolding documents
finish tree tasks crashed = traceback
finish tree tasks (reported (e ∷ es)) = failed (e ∷ es)
finish tree tasks (reported []) =
    passed (length tasks) (length (unique (refinements_of tasks))) (length (documents tree))

module _ (u : Unicode) (root : List Text) (tree : Tree) where
  unfoldable pub validate_required_files : Reported Problem
  unfolding is_file complain_if for_each
  validate_required_files =
      for_each required_files
        (λ path. complain_if (not (is_file tree (codes path))) (file_missing (codes path)))

  -- what follows the backlog
  unfoldable pub validate_rest : Tasks → Reported Problem
  unfolding validate_refinements validate_current_status validate_links validate_documentation_index
      validate_text_hygiene validate_unique_register_ids
  validate_rest tasks = do
    validate_refinements u tree tasks
    validate_current_status u tree tasks
    validate_links root tree
    validate_documentation_index root tree
    validate_text_hygiene tree
    validate_unique_register_ids u tree

  abbrev pub with_backlog : Option State → Outcome
  with_backlog none = traceback
  with_backlog (some (problems, tasks)) =
      finish tree tasks (validate_required_files >> (reported problems >> validate_rest tasks))

  unfoldable pub main : Outcome
  unfolding validate_required_files validate_backlog validate_rest finish
  main = with_backlog (validate_backlog u tree)
