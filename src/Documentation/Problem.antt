-- ===== src/Documentation/Problem.antt =====
-- What scripts/check_documentation.py complains of: a name for each message, with what it quotes.
use coupon_service.Base.{ℕ, List, Text}

pub data Register : Type 0 where
  decision risk : Register

pub data Problem : Type 0 where
  file_missing : Text → Problem
  -- the backlog: its table, its rows
  backlog_not_utf8 table_incomplete table_missing no_tasks : Problem
  columns : List Text → Problem
  bad_task_id duplicate_task : Text → Problem
  bad_status bad_priority bad_refinement : Text → Text → Problem
  -- the refinements
  refinement_missing : Text → Text → Problem
  wrong_task_id wrong_state bad_date not_allowed marker_left questions_left : Text → Problem
  not_accepted : Text → Text → Problem
  -- the current status
  no_active_task no_date : Problem
  unknown_active planned_active : Text → Problem
  wrong_active : Text → Text → Problem
  -- links and the index
  link_escapes link_broken : Text → Text → Problem
  not_indexed stale_index : Text → Problem
  -- text hygiene, and the registers
  crlf no_final_newline : Text → Problem
  trailing_whitespace : Text → ℕ → Problem
  duplicate_id : Register → Text → Problem
  register_empty : Register → Problem
