-- ===== src/Documentation/Backlog/Ids.antt =====
-- What holds of the tasks of every run of `validate_backlog`, with errors or without.
use mathlib.Core.Option.{some-injective}
use mathlib.Core.Path.{subst}
use coupon_service.Base.{
  ◌≡◌, refl, sym, Bool, true, false, not, if◌then◌else◌, some, List, [], ◌∷◌, arith, Text, text_eq,
  keys, All, Distinct, Bool-cases, inl, inr, insert, insert-Distinct, has_key, contains,
  contains-keys-insert,
}
use coupon_service.Base.Sets.{All-contains, All-of_contains}
use coupon_service.Documentation.Backlog.{
  Task, Tasks, State, add, id_of, task_of, check_fields, tasks_from, same_texts, expected,
  or_no_tasks, of_table, of_reading, validate_backlog,
}
use coupon_service.Documentation.Pattern.{Unicode, is_task_id}
use coupon_service.Documentation.Problem.{Problem, bad_task_id, duplicate_task, columns}
use coupon_service.Documentation.Table.{Table, table, invalid, parse_table}
use coupon_service.Documentation.Tree.{Tree, Reading, content, not_utf8, no_file, read}

module _ (u : Unicode) where
  abbrev pub IsId : Text → Type 0
  IsId id = is_task_id u id ≡ true

  -- the keys are task ids, and none comes twice
  abbrev pub WellFormed : Tasks → Type 0
  WellFormed tasks = Distinct (keys tasks) × All IsId (keys tasks)

  insert-WellFormed :
      (id : Text) (task : Task) (tasks : Tasks)
      → IsId id
      → WellFormed tasks
      → WellFormed (insert id task tasks)
  insert-WellFormed id task tasks is (d, ids) = (
    insert-Distinct id task tasks d,
    All-of_contains IsId (keys (insert id task tasks)) (λ a m. inserted a m),
  )
    where
      inserted : (a : Text) → contains a (keys (insert id task tasks)) ≡ true → IsId a
      inserted a m = elim (Bool-cases (text_eq.beq a id)) [
        | inl same ↦ subst IsId (sym ((text_eq.beq_iff a id).0 same)) is
        | inr other ↦
            All-contains IsId a (keys tasks) ids
              (ground (arith, contains-keys-insert a id task tasks))
      ]

  choice :
      (b c : Bool) (p q ps : List Problem) (s t : State)
      → WellFormed s.1
      → ((b ≡ true) → (c ≡ false) → WellFormed t.1)
      → WellFormed (if not b then add p s else if c then add q s else add ps t).1
  choice true true p q ps s t w f = w
  choice true false p q ps s t w f = f refl refl
  choice false c p q ps s t w f = w

  tasks_from-WellFormed :
      (rows : List (List Text)) (tasks : Tasks)
      → WellFormed tasks
      → WellFormed (tasks_from u rows tasks).1
  unfolding tasks_from
  tasks_from-WellFormed [] tasks w = w
  tasks_from-WellFormed (row ∷ rows) tasks w =
      choice (is_task_id u (id_of row)) (has_key (id_of row) tasks) (bad_task_id (id_of row) ∷ [])
        (duplicate_task (id_of row) ∷ []) (check_fields u (id_of row) (task_of row))
        (tasks_from u rows tasks) (tasks_from u rows (insert (id_of row) (task_of row) tasks))
        (tasks_from-WellFormed rows tasks w)
        (λ is new.
          tasks_from-WellFormed rows (insert (id_of row) (task_of row) tasks)
            (insert-WellFormed (id_of row) (task_of row) tasks is w))

  or_no_tasks-WellFormed : (s : State) → WellFormed s.1 → WellFormed (or_no_tasks u s).1
  or_no_tasks-WellFormed (ps, []) w = w
  or_no_tasks-WellFormed (ps, t ∷ ts) w = w

  columns_or :
      (b : Bool) (ps : List Problem) (s : State)
      → WellFormed s.1
      → WellFormed (if not b then (ps, []) else s).1
  columns_or true ps s w = w
  columns_or false ps s w = (tt, tt)

  of_table-WellFormed : (t : Table) → WellFormed (of_table u t).1
  unfolding of_table
  of_table-WellFormed (invalid p) = (tt, tt)
  of_table-WellFormed (table headers rows) =
      columns_or (same_texts headers expected) (columns headers ∷ [])
        (or_no_tasks u (tasks_from u rows []))
        (or_no_tasks-WellFormed (tasks_from u rows []) (tasks_from-WellFormed rows [] (tt, tt)))

  of_reading-WellFormed : (r : Reading) (s : State) → of_reading u r ≡ some s → WellFormed s.1
  of_reading-WellFormed (content text) s h =
      subst (λ (x : State). WellFormed x.1) (some-injective _ _ h)
        (of_table-WellFormed (parse_table text))
  of_reading-WellFormed not_utf8 s h =
      subst (λ (x : State). WellFormed x.1) (some-injective _ _ h) (tt, tt)
  of_reading-WellFormed no_file s h = cc

-- Whatever the errors, the tasks that are returned have different ids, each of the form of a task id.
pub validate_backlog-WellFormed :
    (u : Unicode) (tree : Tree) (problems : List Problem) (tasks : Tasks)
    → validate_backlog u tree ≡ some (problems, tasks)
    → WellFormed u tasks
unfolding validate_backlog
validate_backlog-WellFormed u tree problems tasks h =
    of_reading-WellFormed u (read tree _) (problems, tasks) h
