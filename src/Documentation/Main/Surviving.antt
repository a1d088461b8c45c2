-- ===== src/Documentation/Main/Surviving.antt =====
-- Which runs of scripts/check_documentation.py end with an exception.
use coupon_service.Base.{
  ◌≡◌, ◌⊎◌, Bool, true, false, ◌&&◌, Option, none, some, [], ◌∷◌, text_eq, codes, all_of,
}
use coupon_service.Documentation.Backlog.{State, Tasks, validate_backlog, of_reading}
use coupon_service.Documentation.Links.{index_path}
use coupon_service.Package.Checksums.{Node}
use coupon_service.Documentation.Pattern.{Unicode}
use coupon_service.Documentation.Problem.{Problem, decision, risk}
use coupon_service.Documentation.Registers.{path_of}
use coupon_service.Documentation.Tree.{Tree, is_file_node, is_file, read_node, markdown_files}
use coupon_service.Documentation.Surviving.{readable, loads}

module _ (tree : Tree) where
  module _ (u : Unicode) where
    -- the tasks that the backlog returns
    abbrev tasks_of : Option State → Tasks
    tasks_of none = []
    tasks_of (some (problems, tasks)) = tasks

    -- what is read after the backlog where no error of reading is caught
    abbrev reads_rest : Tasks → Bool
    reads_rest tasks =
        all_of (λ t. loads tree t.1.refinement) tasks
        && (readable tree (codes "docs/project/current-status.md")
            && (all_of (readable tree) (markdown_files tree)
                && (readable tree index_path
                    && all_of (λ r. readable tree (path_of r)) (decision ∷ risk ∷ []))))

    -- The backlog is a file, each refinement that is a file is readable, and so are the current status,
    -- every Markdown file, the index and the registers.
    abbrev pub reads_all : Bool
    reads_all =
        is_file tree (codes "docs/project/backlog.md")
        && reads_rest (tasks_of (validate_backlog u tree))

    abbrev HasFound : Option Node → Type 0
    HasFound node =
        ((of_reading u (read_node node) ≡ none) × (is_file_node node ≡ false))
        ⊎ ((found : State) × (of_reading u (read_node node) ≡ some found)
            × (is_file_node node ≡ true))
