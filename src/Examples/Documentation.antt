-- ===== src/Examples/Documentation.antt =====
-- A tree that scripts/check_documentation.py accepts.
use coupon_service.Base.{
  ℕ, ◌+◌, ◌/◌, ◌%◌, ltb, ◌≡◌, refl, ◌↔◌, Bool, true, false, Option, none, some, List, [], ◌∷◌, ◌++◌,
  arith, map, String, ◌<>◌, Text, codes, ◌=?◌, ◌||◌, ◌&&◌, not, ◌==◌, text_eq, text_beq, select,
  keys, lookup, insert, All, starts_with, is_digit, within, if◌then◌else◌,
}
use coupon_service.Documentation.Links.{drop_docs, index_path, directory_of, normalize}
use coupon_service.Documentation.Backlog.{Task, Tasks}
use coupon_service.Documentation.Backlog.Accepted.{HasBacklog, validate_backlog-silent}
use coupon_service.Documentation.Backlog.Ids.{WellFormed, validate_backlog-WellFormed}
use coupon_service.Documentation.Hygiene.Clean.{IsTidyNode, validate_text_hygiene-Checks}
use coupon_service.Documentation.Links.Index.{IsIndex, validate_documentation_index-Checks}
use coupon_service.Documentation.Links.Inside.{
  AreNames, HasGoodLinks, validate_links-Checks, check_link-stays_inside,
}
use coupon_service.Documentation.Main
use coupon_service.Documentation.Main.{passed, traceback, required_files}
use coupon_service.Documentation.Main.Failing.{main-traceback}
use coupon_service.Documentation.Main.Governed.{Governed, counts, main-Governed}
use coupon_service.Documentation.Pattern.{Unicode}
use coupon_service.Documentation.Problem.{duplicate_task, decision, risk}
use coupon_service.Documentation.Refinements.{validate_refinements}
use coupon_service.Documentation.Refinements.Accepted.{HasRefinement, validate_refinements-Checks}
use coupon_service.Documentation.Registers.Unique.{IsRegister, validate_unique_register_ids-Checks}
use coupon_service.Documentation.Status.Accepted.{IsStatus, validate_current_status-Checks}
use coupon_service.Documentation.Table.{table, parse_table}
use coupon_service.Documentation.Table.RoundTrip.{table_text, parse_table-table_text}
use coupon_service.Documentation.Tree.{Tree, read, text_of, resolve, exists, markdown_files}
use coupon_service.Package.Checksums.{Node, file, other}

-- the digits and letters of ASCII
abbrev ascii_example : Unicode
ascii_example = record {
  is_decimal = is_digit;
  is_word = λ c. is_digit c || within b'A' b'Z' c || within b'a' b'z' c || c == b'_';
}

abbrev root_example : List Text
root_example = codes "work" ∷ codes "coupon" ∷ []

abbrev backlog_example : String
backlog_example =
    "# Backlog\n\n| ID | Parent | Priority | Status | Refinement | Zadanie | Docelowy dowód |\n|---|---|---|---|---|---|---|\n| EMP-001 | - | P0 | DONE | EMP-001 | Start | testy |\n"

abbrev refinement_example : String
refinement_example =
    "Task-ID: EMP-001\nStan-Refinementu: ACCEPTED\nData-Akceptacji: 2026-01-02\nImplementation-Allowed: YES\n\n### Blokujące\n\nBrak.\n"

abbrev status_example : String
status_example = "**Data:** 2026-01-02\n**Active task:** `awaiting next refinement`\n"

-- UTF-8, up to U+07FF
abbrev utf8_example : Text → Text
utf8_example [] = []
utf8_example (c ∷ cs) =
    let rest = utf8_example cs in
    if ltb c 0x80 then c ∷ rest else (0xc0 + c / 64) ∷ (0x80 + c % 64) ∷ rest

abbrev file_example : String → Node
file_example text = file (utf8_example (codes text))

-- a link to each required file below `docs` but for the index
abbrev links_example : List String → Text
links_example [] = []
links_example (path ∷ paths) =
    let rest = links_example paths in
    if starts_with (codes path) (codes "docs/") && not (codes path =? index_path)
    then codes "[x](" ++ drop_docs [] [] (codes path) ++ codes ")\n" ++ rest
    else rest

abbrev content_example : String → Node
content_example path =
    if codes path =? codes "docs/project/backlog.md"
    then file_example backlog_example
    else if codes path =? codes "docs/project/refinements/EMP-001.md"
    then file_example refinement_example
    else if codes path =? codes "docs/project/current-status.md"
    then file_example status_example
    else if codes path =? codes "docs/project/decision-log.md"
    then file_example "| D-001 | x |\n"
    else if codes path =? codes "docs/project/risk-register.md"
    then file_example "| R-001 | x |\n"
    else if codes path =? codes "docs/DOCUMENTATION_INDEX.md"
    then file (links_example required_files)
    else file []

abbrev tree_example : Tree
tree_example = map (λ path. (codes path, content_example path)) required_files

main-Governed_example : (Main.main ascii_example root_example tree_example ≡ passed 1 1 48) ↔ (
    (tasks : Tasks) × Governed ascii_example root_example tree_example tasks
    × (counts ascii_example root_example tree_example tasks ≡ passed 1 1 48))
main-Governed_example = main-Governed ascii_example root_example tree_example 1 1 48

abbrev small_example : String → String → Tree
small_example path text = (codes path, file_example text) ∷ []

abbrev backlog_tree_example : Tree
backlog_tree_example = small_example "docs/project/backlog.md" backlog_example

abbrev task_example : Task
task_example = record { priority = codes "P0"; status = codes "DONE"; refinement = codes "EMP-001" }

abbrev tasks_example : Tasks
tasks_example = (codes "EMP-001", task_example) ∷ []

validate_backlog-silent_example : HasBacklog ascii_example backlog_tree_example tasks_example
unfolding coupon_service.Documentation.Backlog.validate_backlog text_beq coupon_service.Base.insert
validate_backlog-silent_example =
    (validate_backlog-silent ascii_example backlog_tree_example tasks_example).0 refl

-- a backlog whose second row repeats an id
abbrev twice_example : String
twice_example = backlog_example <> "| EMP-001 | - | P1 | READY | EMP-001 | Again | testy |\n"

validate_backlog-WellFormed_example : WellFormed ascii_example tasks_example
unfolding coupon_service.Documentation.Backlog.validate_backlog text_beq coupon_service.Base.insert
validate_backlog-WellFormed_example =
    validate_backlog-WellFormed ascii_example
      (small_example "docs/project/backlog.md" twice_example)
      (duplicate_task (codes "EMP-001") ∷ []) tasks_example refl

abbrev refinement_tree_example : Tree
refinement_tree_example = small_example "docs/project/refinements/EMP-001.md" refinement_example

-- the second task finds the refinement in the cache
abbrev two_tasks_example : Tasks
two_tasks_example = (codes "EMP-001", task_example) ∷ (codes "EMP-002", task_example) ∷ []

validate_refinements-Checks_example :
    All (HasRefinement ascii_example refinement_tree_example) two_tasks_example
unfolding validate_refinements insert text_beq
validate_refinements-Checks_example =
    (validate_refinements-Checks ascii_example refinement_tree_example two_tasks_example).0 refl

abbrev status_tree_example : Tree
status_tree_example =
    small_example "docs/project/current-status.md"
      "**Data:** 2026-01-02\n**Active task:** `EMP-001`\n"

abbrev ready_example : Tasks
ready_example =
    (
      codes "EMP-001",
      record { priority = codes "P0"; status = codes "READY"; refinement = codes "EMP-001" },
    )
    ∷ []

validate_current_status-Checks_example :
    (text : Text) × (text_of (read status_tree_example (codes "docs/project/current-status.md"))
      ≡ some text)
    × IsStatus ascii_example ready_example text
unfolding coupon_service.Documentation.Status.validate_current_status text_beq
validate_current_status-Checks_example =
    (validate_current_status-Checks ascii_example status_tree_example ready_example).0 refl

-- two documents with links up and down
abbrev linked_example : Tree
linked_example =
    (codes "README.md", file_example "[a](docs/a.md) [x](https://x)\n")
    ∷ (codes "docs/a.md", file_example "[up](../README.md#top)\n")
    ∷ (codes "docs", other)
    ∷ []

validate_links-Checks_example :
    All (HasGoodLinks root_example linked_example) (markdown_files linked_example)
unfolding coupon_service.Documentation.Links.validate_links
validate_links-Checks_example = (validate_links-Checks root_example linked_example).0 refl

check_link-stays_inside_example :
    (inside : List Text) × (resolve
        (directory_of root_example linked_example (codes "docs/a.md"))
        (normalize (codes "../README.md#top"))
      ≡ root_example ++ inside)
    × AreNames inside
    × (exists linked_example inside ≡ true)
unfolding text_beq coupon_service.Documentation.Tree.parts_of normalize starts_with
    coupon_service.Documentation.Links.check_link
check_link-stays_inside_example =
    check_link-stays_inside root_example linked_example (codes "docs/a.md")
      (codes "../README.md#top")
      ((refl, refl, refl), ((refl, refl, refl), ((refl, refl, refl), tt))) refl refl

abbrev index_example : Tree
index_example =
    (codes "docs/DOCUMENTATION_INDEX.md", file_example "[a](a.md)\n[b](sub/b.md)\n")
    ∷ (codes "docs/a.md", file [])
    ∷ (codes "docs/sub/b.md", file [])
    ∷ []

validate_documentation_index-Checks_example :
    (text : Text) × (text_of (read index_example index_path) ≡ some text)
    × IsIndex root_example index_example text
unfolding coupon_service.Documentation.Links.validate_documentation_index
    coupon_service.Documentation.Tree.parts_of coupon_service.Base.join
validate_documentation_index-Checks_example =
    (validate_documentation_index-Checks root_example index_example).0 refl

abbrev tidy_example : Tree
tidy_example =
    (codes "a.py", file_example "x = 1\n")
    ∷ (codes "b.md", file_example "text  \n")
    ∷ (codes "c.bin", file (0xff ∷ []))
    ∷ []

validate_text_hygiene-Checks_example :
    All (λ path. IsTidyNode path (lookup path tidy_example)) (keys tidy_example)
unfolding coupon_service.Documentation.Hygiene.validate_text_hygiene text_beq
validate_text_hygiene-Checks_example = (validate_text_hygiene-Checks tidy_example).0 refl

abbrev registers_example : Tree
registers_example =
    (codes "docs/project/decision-log.md", file_example "| D-001 | x |\n| D-002 | y |\n")
    ∷ (codes "docs/project/risk-register.md", file_example "| R-001 | x |\n")
    ∷ []

validate_unique_register_ids-Checks_example :
    All (IsRegister ascii_example registers_example) (decision ∷ risk ∷ [])
unfolding coupon_service.Documentation.Registers.validate_unique_register_ids text_beq
validate_unique_register_ids-Checks_example =
    (validate_unique_register_ids-Checks ascii_example registers_example).0 refl

main-traceback_example : Main.main ascii_example root_example backlog_tree_example ≡ traceback
unfolding text_beq read
main-traceback_example =
    main-traceback ascii_example root_example backlog_tree_example
      (codes "docs/project/current-status.md") refl refl

parse_table-table_text_example :
    parse_table (
      table_text
        (codes "ID" ∷ codes "Status" ∷ [])
        (codes "|---|---|")
        ((codes "EMP-001" ∷ codes "READY" ∷ []) ∷ []))
    ≡ table (codes "ID" ∷ codes "Status" ∷ []) ((codes "EMP-001" ∷ codes "READY" ∷ []) ∷ [])
unfolding coupon_service.Base.rstrip
parse_table-table_text_example =
    parse_table-table_text (codes "Status" ∷ []) (codes "|---|---|")
      ((codes "EMP-001" ∷ codes "READY" ∷ []) ∷ []) ((refl, (refl, (refl, refl))), tt) refl
      ((refl, ((refl, (refl, (refl, refl))), ((refl, (refl, (refl, refl))), tt))), tt)
