-- ===== src/Documentation/Refinements.antt =====
-- `validate_refinements` of scripts/check_documentation.py, with its cache of the metadata.
pub mod Accepted
use coupon_service.Base.{
  ℕ, Bool, true, false, not, ◌&&◌, ◌||◌, Option, none, some, List, [], ◌∷◌, ◌++◌, ◌=?◌,
  if◌then◌else◌, Text, codes, text_eq, contains, occurs, Dict, lookup, has_key, insert,
}
use coupon_service.Contract.Report.{
  Reported, reported, crashed, ◌>>◌, nothing, complain, complain_if,
}
use coupon_service.Documentation.Backlog.{Task, Tasks, problem_if}
use coupon_service.Documentation.Pattern.{Unicode, find_all, metadata, date, is_whole, has_marker}
use coupon_service.Documentation.Problem.{
  Problem, refinement_missing, wrong_task_id, wrong_state, bad_date, not_allowed, marker_left,
  questions_left, not_accepted,
}
use coupon_service.Documentation.Tree.{Tree, is_file, read, text_of}

abbrev pub Metadata : Type 0
Metadata = Dict Text Text

-- `metadata[key] = value` for each line found
unfoldable pub collect : List (Text × Text) → Metadata → Metadata
collect [] m = m
collect ((key, value) ∷ found) m = collect found (insert key value m)

unfoldable pub parse_metadata : Text → Metadata
unfolding collect find_all metadata
parse_metadata text = collect (find_all metadata text) []

-- `metadata.get(key) == value`
abbrev pub is_value : Option Text → Text → Bool
is_value none value = false
is_value (some v) value = v =? value

abbrev pub has_value : Text → Metadata → Text → Bool
has_value key m value = is_value (lookup key m) value

abbrev pub state_key : Text
state_key = codes "Stan-Refinementu"

abbrev pub is_accepted : Metadata → Bool
is_accepted m = has_value state_key m (codes "ACCEPTED")

abbrev pub or_empty : Option Text → Text
or_empty none = []
or_empty (some t) = t

unfoldable pub refinement_path : Text → Text
refinement_path id = codes "docs/project/refinements/" ++ (id ++ codes ".md")

abbrev pub active_statuses : List Text
active_statuses =
    codes "READY" ∷ codes "IN_PROGRESS" ∷ codes "DONE" ∷ codes "DONE_AND_VERIFIED" ∷ []

abbrev pub no_questions : Text
no_questions = codes "### Blokujące\n\nBrak."

-- what the cache holds: metadata by refinement id
abbrev pub Checked : Type 0
Checked = Dict Text Metadata

-- How the first half of the loop body ends: past the `continue`, with an exception, or with messages
-- and the cache.
pub data Entered : Type 0 where
  absent raised : Entered
  entered : List Problem → Checked → Entered

module _ (u : Unicode) (tree : Tree) where
  -- the tests of an accepted refinement
  unfoldable pub check_accepted : Text → Metadata → Text → List Problem
  unfolding date has_marker occurs
  check_accepted id m text =
      problem_if (not (is_whole u (date u (or_empty (lookup (codes "Data-Akceptacji") m)))))
        (bad_date id)
      ++ (problem_if (not (has_value (codes "Implementation-Allowed") m (codes "YES")))
            (not_allowed id)
          ++ (problem_if (has_marker u text) (marker_left id)
              ++ problem_if (not (occurs no_questions text)) (questions_left id)))

  unfoldable pub check_metadata : Text → Metadata → Text → List Problem
  unfolding check_accepted
  check_metadata id m text =
      problem_if (not (has_value (codes "Task-ID") m id)) (wrong_task_id id)
      ++ (problem_if (not (has_value state_key m (codes "DRAFT") || is_accepted m)) (wrong_state id)
          ++ (if is_accepted m then check_accepted id m text else []))

  -- the file is read for its metadata, and again where it is accepted: the text is the same
  abbrev pub enter_text : Text → Checked → Option Text → Entered
  enter_text id checked none = raised
  enter_text id checked (some text) =
      entered (check_metadata id (parse_metadata text) text)
        (insert id (parse_metadata text) checked)

  unfoldable pub enter : Text → Checked → Entered
  unfolding is_file read check_metadata parse_metadata refinement_path
  enter id checked =
      if has_key id checked
      then entered [] checked
      else if not (is_file tree (refinement_path id))
      then absent
      else enter_text id checked (text_of (read tree (refinement_path id)))

  -- `checked.get(refinement_id, {}).get("Stan-Refinementu") != "ACCEPTED"`
  abbrev pub accepts : Option Metadata → Bool
  accepts none = false
  accepts (some m) = is_accepted m

  abbrev pub lacks_acceptance : Task → Checked → Bool
  lacks_acceptance task checked =
      contains task.status active_statuses && not (accepts (lookup task.refinement checked))

  -- the rest of the body, and of the loop
  abbrev pub after_entry :
      Text → Task → Checked → Entered → (Checked → Reported Problem) → Reported Problem
  after_entry id task before absent rest =
      complain (refinement_missing task.refinement id) >> rest before
  after_entry id task before raised rest = crashed
  after_entry id task before (entered ps checked) rest =
      reported ps
      >> (complain_if (lacks_acceptance task checked) (not_accepted id task.status) >> rest checked)

  unfoldable pub refinements_from : Tasks → Checked → Reported Problem
  unfolding enter complain_if
  refinements_from [] checked = nothing
  refinements_from ((id, task) ∷ tasks) checked =
      after_entry id task checked (enter task.refinement checked) (λ c. refinements_from tasks c)

  unfoldable pub validate_refinements : Tasks → Reported Problem
  unfolding refinements_from
  validate_refinements tasks = refinements_from tasks []
