-- ===== src/Documentation/Status.antt =====
-- `validate_current_status` of scripts/check_documentation.py.
pub mod Accepted
use coupon_service.Base.{
  Bool, true, false, not, ◌&&◌, Option, none, some, List, [], ◌∷◌, ◌=?◌, if◌then◌else◌, Text, codes,
  text_eq, contains, occurs, lookup,
}
use coupon_service.Contract.Report.{Reported, ◌>>◌, ◌>>=◌, nothing, complain, complain_if}
use coupon_service.Documentation.Backlog.{Task, Tasks, planned}
use coupon_service.Documentation.Pattern.{Unicode, active_task, active_task_id, has_date}
use coupon_service.Documentation.Problem.{
  Problem, no_active_task, no_date, unknown_active, planned_active, wrong_active,
}
use coupon_service.Documentation.Tree.{Tree, read, text_of}
use coupon_service.Package.Paths.{lower}

abbrev pub awaiting : Text
awaiting = codes "awaiting next refinement"

abbrev pub open_statuses : List Text
open_statuses =
    codes "PLANNED"
    ∷ codes "REFINEMENT"
    ∷ codes "READY"
    ∷ codes "IN_PROGRESS"
    ∷ codes "BLOCKED"
    ∷ []

-- `lower` agrees with Python's on the search for "refinement".
abbrev pub names_refinement : Text → Bool
names_refinement text = occurs (codes "refinement") (lower text)

-- the chain on the task, with the text that names it
unfoldable pub check_active : Text → Text → Option Task → Reported Problem
unfolding lower occurs complain_if
check_active text id none = complain (unknown_active id)
check_active text id (some task) =
    if task.status =? planned && not (names_refinement text)
    then complain (planned_active id)
    else complain_if (not (contains task.status open_statuses)) (wrong_active id task.status)

abbrev pub or_whole : Text → Option Text → Text
or_whole text none = text
or_whole text (some id) = id

module _ (u : Unicode) where
  -- the group of `task_id_match`, or the whole text
  unfoldable pub active_id : Text → Text
  unfolding active_task_id
  active_id text = or_whole text (active_task_id u text)

  abbrev pub check_date : Text → Reported Problem
  check_date text = complain_if (not (has_date u text)) no_date

  abbrev pub on_active : Tasks → Text → Option Text → Reported Problem
  on_active tasks text none = complain no_active_task
  on_active tasks text (some active) =
      if active =? awaiting
      then check_date text
      else (check_active active (active_id active) (lookup (active_id active) tasks)
          >> check_date text)

  unfoldable pub check_status : Tasks → Text → Reported Problem
  unfolding active_task active_id check_active has_date complain_if
  check_status tasks text = on_active tasks text (active_task text)

  unfoldable pub validate_current_status : Tree → Tasks → Reported Problem
  unfolding read check_status
  validate_current_status tree tasks = do
    text ← text_of (read tree (codes "docs/project/current-status.md"))
    check_status tasks text
