-- ===== src/Documentation/Backlog/Accepted.antt =====
-- When `validate_backlog` finds no error, and what every result of it satisfies.
use mathlib.Core.List.{append_assoc, append-nil}
use mathlib.Core.Option.{some-injective}
use mathlib.Core.Path.{subst}
use coupon_service.Base.{
  ◌≡◌, refl, sym, ap, ◌∙◌, ◌↔◌, if◌then◌else◌, Bool, true, false, not, some, List, [], ◌∷◌, ◌++◌,
  arith, Text, text_eq, contains, is_empty, keys, keys-append, map, All, Distinct, insert,
  insert_new, insert-Distinct, has_key, not_contains-Distinct, codes,
}
use coupon_service.Documentation.Backlog.{
  Task, Tasks, State, add, id_of, task_of, allowed_statuses, is_priority, check_fields, tasks_from,
  same_texts, expected, or_no_tasks, of_table, of_reading, validate_backlog,
}
use coupon_service.Documentation.Pattern.{Unicode, is_task_id}
use coupon_service.Documentation.Problem.{Problem}
use coupon_service.Documentation.Table.{Table, table, invalid, parse_table}
use coupon_service.Documentation.Tree.{Tree, Reading, content, not_utf8, no_file, read}

add-silent :
    (ps : List Problem) (s : State) (found : Tasks)
    → (add ps s ≡ ([], found)) ↔ ((ps ≡ []) × (s ≡ ([], found)))
add-silent [] s found = ground arith
add-silent (p ∷ ps) s found = ground arith

choice-silent :
    (b c : Bool) (x y : Problem) (s t : State) (found : Tasks)
    → ((if not b then add (x ∷ []) s else if c then add (y ∷ []) s else t) ≡ ([], found))
      ↔ ((b ≡ true) × ((c ≡ false) × (t ≡ ([], found))))
choice-silent true true x y s t found = ground arith
choice-silent true false x y s t found = ground arith
choice-silent false c x y s t found = ground arith

pub same_texts_iff : (a b : List Text) → (same_texts a b ≡ true) ↔ (a ≡ b)
unfolding same_texts
same_texts_iff (s ∷ a) (t ∷ b) = ground (arith, same_texts_iff a b, text_eq.beq_iff s t)
same_texts_iff [] [] = ground arith
same_texts_iff [] (t ∷ b) = ground arith
same_texts_iff (s ∷ a) [] = ground arith

module _ (u : Unicode) where
  -- the columns that are read again have values of their kinds
  abbrev pub GoodFields : Task → Type 0
  GoodFields task =
      (contains task.status allowed_statuses ≡ true)
      × ((is_priority task.priority ≡ true) × (is_task_id u task.refinement ≡ true))

  abbrev pub IsTask : List Text → Type 0
  IsTask row = (is_task_id u (id_of row) ≡ true) × GoodFields (task_of row)

  abbrev pub entries : List (List Text) → Tasks
  entries = map (λ row. (id_of row, task_of row))

  check_fields-silent : (id : Text) (task : Task) → (check_fields u id task ≡ []) ↔ GoodFields task
  unfolding check_fields
  check_fields-silent id task = ground arith

  -- with a new key the dict grows at its end
  whole :
      (row : List Text) (rows : List (List Text)) (tasks : Tasks)
      → has_key (id_of row) tasks ≡ false
      → (insert (id_of row) (task_of row) tasks ++ entries rows) ≡ tasks ++ entries (row ∷ rows)
  whole row rows tasks fresh =
      ap (λ (t : Tasks). t ++ entries rows) (insert_new (id_of row) (task_of row) tasks fresh)
      ∙ append_assoc tasks ((id_of row, task_of row) ∷ []) (entries rows)

  fresh_of_Distinct :
      (row : List Text) (rows : List (List Text)) (tasks : Tasks)
      → Distinct (keys (tasks ++ entries (row ∷ rows)))
      → has_key (id_of row) tasks ≡ false
  fresh_of_Distinct row rows tasks d =
      not_contains-Distinct (id_of row) (keys tasks) (keys (entries rows))
        (subst (λ (l : List Text). Distinct l) (keys-append tasks (entries (row ∷ rows))) d)

  abbrev Adds : List (List Text) → Tasks → Tasks → Type 0
  Adds rows tasks found =
      All IsTask rows × (Distinct (keys (tasks ++ entries rows)) × (found ≡ tasks ++ entries rows))

  row-silent :
      (row : List Text) (rows : List (List Text)) (tasks found : Tasks)
      → ((tasks_from u rows (insert (id_of row) (task_of row) tasks) ≡ ([], found))
          ↔ Adds rows (insert (id_of row) (task_of row) tasks) found)
      → (tasks_from u (row ∷ rows) tasks ≡ ([], found)) ↔ Adds (row ∷ rows) tasks found
  unfolding tasks_from
  row-silent row rows tasks found ih = (
    λ h.
        let (is_id, (fresh, later)) = (choice-silent _ _ _ _ _ _ found).0 h in
        let (good, rest) = (add-silent _ _ found).0 later in
        let (goods, (distinct, is)) = ih.0 rest in
        let eq = whole row rows tasks fresh in
        (
          ((is_id, (check_fields-silent (id_of row) (task_of row)).0 good), goods),
          (subst (λ (t : Tasks). Distinct (keys t)) eq distinct, is ∙ eq),
        ),
    λ (((is_id, good), goods), (distinct, is)).
        let fresh = fresh_of_Distinct row rows tasks distinct in
        let eq = sym (whole row rows tasks fresh) in
        let rest = ih.1 (goods, (subst (λ (t : Tasks). Distinct (keys t)) eq distinct, is ∙ eq)) in
        (choice-silent _ _ _ _ _ _ found).1 (
          is_id,
          (
            fresh,
            (add-silent _ _ found).1 ((check_fields-silent (id_of row) (task_of row)).1 good, rest),
          ),
        ),
  )

  tasks_from-silent :
      (rows : List (List Text)) (tasks found : Tasks)
      → Distinct (keys tasks)
      → (tasks_from u rows tasks ≡ ([], found)) ↔ Adds rows tasks found
  unfolding tasks_from
  tasks_from-silent [] tasks found d = rw (append-nil tasks) (ground arith)
  tasks_from-silent (row ∷ rows) tasks found d = row-silent row rows tasks found (
      tasks_from-silent rows (insert (id_of row) (task_of row) tasks) found
        (insert-Distinct (id_of row) (task_of row) tasks d))

  -- The rows of the table become the tasks: there is one, each is a task, and no id comes twice.
  abbrev pub IsBacklog : List (List Text) → Tasks → Type 0
  IsBacklog rows tasks =
      (is_empty rows ≡ false) × (All IsTask rows × (Distinct (keys tasks) × (tasks ≡ entries rows)))

  or_no_tasks-silent :
      (s : State) (found : Tasks)
      → (or_no_tasks u s ≡ ([], found)) ↔ ((s ≡ ([], found)) × (is_empty found ≡ false))
  or_no_tasks-silent ([], []) found = ground arith
  or_no_tasks-silent (p ∷ ps, []) found = ground arith
  or_no_tasks-silent (ps, t ∷ ts) found = ground arith

  entries-is_empty : (rows : List (List Text)) → is_empty (entries rows) ≡ is_empty rows
  entries-is_empty [] = refl
  entries-is_empty (row ∷ rows) = refl

  rows-silent :
      (rows : List (List Text)) (tasks : Tasks)
      → (or_no_tasks u (tasks_from u rows []) ≡ ([], tasks)) ↔ IsBacklog rows tasks
  rows-silent rows tasks = (
    λ h.
        let (from, nonempty) = (or_no_tasks-silent (tasks_from u rows []) tasks).0 h in
        let (goods, (d, is)) = (tasks_from-silent rows [] tasks tt).0 from in
        (
          sym (entries-is_empty rows) ∙ ap (λ (t : Tasks). is_empty t) (sym is) ∙ nonempty,
          (goods, (subst (λ (t : Tasks). Distinct (keys t)) (sym is) d, is)),
        ),
    λ (nonempty, (goods, (d, is))). (or_no_tasks-silent (tasks_from u rows []) tasks).1 (
      (tasks_from-silent rows [] tasks tt).1
          (goods, (subst (λ (t : Tasks). Distinct (keys t)) is d, is)),
      ap (λ (t : Tasks). is_empty t) is ∙ entries-is_empty rows ∙ nonempty,
    ),
  )

  columns-silent :
      (b : Bool) (p : Problem) (s : State) (tasks : Tasks)
      → ((if not b then (p ∷ [], []) else s) ≡ ([], tasks)) ↔ ((b ≡ true) × (s ≡ ([], tasks)))
  columns-silent true p s tasks = ground arith
  columns-silent false p s tasks = ground arith

  -- a table of the expected columns, whose rows become the tasks
  abbrev pub IsBacklogTable : Table → Tasks → Type 0
  IsBacklogTable t tasks =
      (rows : List (List Text)) × (t ≡ table expected rows) × IsBacklog rows tasks

  of_table-silent :
      (t : Table) (tasks : Tasks) → (of_table u t ≡ ([], tasks)) ↔ IsBacklogTable t tasks
  unfolding of_table
  of_table-silent (invalid p) tasks = (λ h. cc, λ (rows, h, _). cc)
  of_table-silent (table headers rows) tasks = (
    λ h.
        let (same, s) = (columns-silent _ _ _ tasks).0 h in
        (
          rows,
          ap (λ hs. table hs rows) ((same_texts_iff headers expected).0 same),
          (rows-silent rows tasks).0 s,
        ),
    λ (rs, eq, ok).
        let headers_are : headers ≡ expected = cc in
        let rows_are : rows ≡ rs = cc in
        (columns-silent _ _ _ tasks).1 (
          (same_texts_iff headers expected).1 headers_are,
          (rows-silent rows tasks).1 (subst (λ r. IsBacklog r tasks) (sym rows_are) ok),
        ),
  )

  -- the text of the backlog has such a table
  abbrev pub HasBacklog : Tree → Tasks → Type 0
  HasBacklog tree tasks =
      (text : Text) × (read tree (codes "docs/project/backlog.md") ≡ content text)
      × IsBacklogTable (parse_table text) tasks

  of_reading-silent :
      (r : Reading) (tasks : Tasks)
      → (of_reading u r ≡ some ([], tasks))
        ↔ ((text : Text) × (r ≡ content text) × IsBacklogTable (parse_table text) tasks)
  of_reading-silent not_utf8 tasks = (λ h. cc, λ (text, h, _). cc)
  of_reading-silent no_file tasks = (λ h. cc, λ (text, h, _). cc)
  of_reading-silent (content text) tasks = (
    λ h. (text, refl, (of_table-silent (parse_table text) tasks).0 (some-injective _ _ h)),
    λ (t, eq, ok).
        let text_is : text ≡ t = cc in
        ap some (
          (of_table-silent (parse_table text) tasks).1
            (subst (λ x. IsBacklogTable (parse_table x) tasks) (sym text_is) ok)),
  )

-- The backlog is read without an error exactly when it is a UTF-8 file with a table of the expected
-- columns and at least one row, every row has an id, a status, a priority and a refinement of the
-- allowed forms, and no id comes twice. The tasks are then the rows, in their order.
pub validate_backlog-silent :
    (u : Unicode) (tree : Tree) (tasks : Tasks)
    → (validate_backlog u tree ≡ some ([], tasks)) ↔ HasBacklog u tree tasks
unfolding validate_backlog
validate_backlog-silent u tree tasks = of_reading-silent u (read tree _) tasks
