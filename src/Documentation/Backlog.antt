-- ===== src/Documentation/Backlog.antt =====
-- `validate_backlog` of scripts/check_documentation.py.
pub mod Accepted
pub mod Ids
use coupon_service.Base.{
  ℕ, zero, suc, Bool, true, false, not, ◌&&◌, ◌||◌, Option, none, some, List, [], ◌∷◌, ◌++◌, ◌==◌,
  ◌=?◌, map, if◌then◌else◌, String, Text, codes, text_eq, contains, is_empty, within, Dict, has_key,
  insert,
}
use coupon_service.Documentation.Pattern.{Unicode, is_task_id}
use coupon_service.Documentation.Problem.{
  Problem, backlog_not_utf8, columns, bad_task_id, duplicate_task, bad_status, bad_priority,
  bad_refinement, no_tasks,
}
use coupon_service.Documentation.Table.{Table, table, invalid, parse_table}
use coupon_service.Documentation.Tree.{Tree, Reading, content, not_utf8, no_file, read}

-- the columns that are read again
pub record Task : Type 0 where
  pub priority : Text
  pub status : Text
  pub refinement : Text

abbrev pub Tasks : Type 0
Tasks = Dict Text Task

abbrev pub planned : Text
planned = codes "PLANNED"

abbrev pub allowed_statuses : List Text
allowed_statuses =
    codes "PLANNED"
    ∷ codes "REFINEMENT"
    ∷ codes "READY"
    ∷ codes "IN_PROGRESS"
    ∷ codes "BLOCKED"
    ∷ codes "DONE"
    ∷ codes "DONE_AND_VERIFIED"
    ∷ []

-- "ID", "Parent", "Priority", "Status", "Refinement", "Zadanie", "Docelowy dowód"
abbrev pub expected : List Text
expected =
    codes "ID"
    ∷ codes "Parent"
    ∷ codes "Priority"
    ∷ codes "Status"
    ∷ codes "Refinement"
    ∷ codes "Zadanie"
    ∷ codes "Docelowy dowód"
    ∷ []

unfoldable pub same_texts : List Text → List Text → Bool
same_texts [] [] = true
same_texts (s ∷ ss) (t ∷ ts) = s =? t && same_texts ss ts
same_texts [] (t ∷ ts) = false
same_texts (s ∷ ss) [] = false

-- `re.fullmatch(r"P[0-2]", priority)`
unfoldable pub is_priority : Text → Bool
is_priority (p ∷ n ∷ []) = p == b'P' && within b'0' b'2' n
is_priority _ = false

-- a cell of a row, by its column
abbrev pub cell : ℕ → List Text → Text
cell n [] = []
cell zero (c ∷ cs) = c
cell (suc n) (c ∷ cs) = cell n cs

-- `dict(zip(headers, row))`, with the columns in their places
abbrev pub id_of : List Text → Text
id_of row = cell 0 row

abbrev pub task_of : List Text → Task
task_of row = record { priority = cell 2 row; status = cell 3 row; refinement = cell 4 row }

abbrev pub problem_if : Bool → Problem → List Problem
problem_if b p = if b then p ∷ [] else []

-- the messages so far, and the dict
abbrev pub State : Type 0
State = List Problem × Tasks

abbrev pub add : List Problem → State → State
add ps (qs, tasks) = (ps ++ qs, tasks)

module _ (u : Unicode) where
  -- the messages on the columns of a row that becomes a task
  unfoldable pub check_fields : Text → Task → List Problem
  unfolding is_priority is_task_id
  check_fields id task =
      problem_if (not (contains task.status allowed_statuses)) (bad_status task.status id)
      ++ (problem_if (not (is_priority task.priority)) (bad_priority task.priority id)
          ++ problem_if (not (is_task_id u task.refinement)) (bad_refinement task.refinement id))

  -- the loop over the rows
  unfoldable pub tasks_from : List (List Text) → Tasks → State
  unfolding is_task_id check_fields
  tasks_from [] tasks = ([], tasks)
  tasks_from (row ∷ rows) tasks =
      let same = tasks_from rows tasks in
      let more = tasks_from rows (insert (id_of row) (task_of row) tasks) in
      if not (is_task_id u (id_of row))
      then add (bad_task_id (id_of row) ∷ []) same
      else if has_key (id_of row) tasks
      then add (duplicate_task (id_of row) ∷ []) same
      else add (check_fields (id_of row) (task_of row)) more

  abbrev pub or_no_tasks : State → State
  or_no_tasks (ps, []) = (ps ++ (no_tasks ∷ []), [])
  or_no_tasks (ps, t ∷ ts) = (ps, t ∷ ts)

  unfoldable pub of_table : Table → State
  unfolding tasks_from same_texts
  of_table (invalid p) = (p ∷ [], [])
  of_table (table headers rows) =
      if not (same_texts headers expected)
      then (columns headers ∷ [], [])
      else or_no_tasks (tasks_from rows [])

  -- A `ValidationError` is caught; where there is no file, the exception is not.
  abbrev pub of_reading : Reading → Option State
  of_reading (content text) = some (of_table (parse_table text))
  of_reading not_utf8 = some (backlog_not_utf8 ∷ [], [])
  of_reading no_file = none

  unfoldable pub validate_backlog : Tree → Option State
  unfolding read of_table parse_table
  validate_backlog tree = of_reading (read tree (codes "docs/project/backlog.md"))
