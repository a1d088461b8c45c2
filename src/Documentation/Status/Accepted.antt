-- ===== src/Documentation/Status/Accepted.antt =====
-- When `validate_current_status` finds no error.
use coupon_service.Base.{
  ◌≡◌, refl, ◌↔◌, ◌⊎◌, inl, inr, Bool, true, false, not, ◌&&◌, if◌then◌else◌, Option, none, some,
  ◌=?◌, arith, Text, text_eq, codes, contains, lookup,
}
use coupon_service.Contract.Laws.{Checks, seq, binding, unless}
use coupon_service.Contract.Report.{Reported, ◌>>◌, Clean, complain, complain_if}
use coupon_service.Documentation.Backlog.{Task, Tasks, planned}
use coupon_service.Documentation.Pattern.{Unicode, active_task, has_date}
use coupon_service.Documentation.Problem.{Problem, no_date, planned_active, wrong_active}
use coupon_service.Documentation.Status.{
  awaiting, open_statuses, names_refinement, check_active, active_id, check_date, on_active,
  check_status, validate_current_status,
}
use coupon_service.Documentation.Tree.{Tree, read, text_of}

-- A task may be active: it is open, and a planned one is named as the next refinement.
abbrev pub MayBeActive : Text → Task → Type 0
MayBeActive active task =
    ((task.status =? planned && not (names_refinement active)) ≡ false)
    × (contains task.status open_statuses ≡ true)

-- The active task stands in the backlog and may be active, or there is none.
abbrev pub IsActive : Unicode → Tasks → Text → Type 0
IsActive u tasks active =
    ((active =? awaiting) ≡ true)
    ⊎ (((active =? awaiting) ≡ false)
        × ((task : Task) × (lookup (active_id u active) tasks ≡ some task)
            × MayBeActive active task))

-- The status names what is active, and has a date.
abbrev pub IsStatus : Unicode → Tasks → Text → Type 0
IsStatus u tasks text =
    (active : Text) × (active_task text ≡ some active)
    × (IsActive u tasks active × (has_date u text ≡ true))

chain-Clean :
    (b c : Bool) (p q : Problem)
    → Clean (if b then complain p else complain_if (not c) q) ↔ ((b ≡ false) × (c ≡ true))
unfolding complain_if
chain-Clean true c p q = ground arith
chain-Clean false true p q = ground arith
chain-Clean false false p q = ground arith

check_active-Checks :
    (active id : Text) (found : Option Task)
    → Checks
        (check_active active id found)
        ((task : Task) × (found ≡ some task) × MayBeActive active task)
unfolding check_active
check_active-Checks active id none = (λ h. cc, λ (task, is, _). cc)
check_active-Checks active id (some task) =
    binding (some task) (λ t. check_active active id (some t)) (MayBeActive active)
      (λ t.
        chain-Clean _ (contains t.status open_statuses) (planned_active id)
          (wrong_active id t.status))

-- `r` where the condition holds, and elsewhere a step before it
either-Checks :
    {A D : Type 0} (b : Bool) (r s : Reported Problem)
    → Checks r A
    → Checks s D
    → Checks (if b then s else (r >> s)) (((b ≡ true) ⊎ ((b ≡ false) × A)) × D)
either-Checks true r s f g = (λ h. (inl refl, g.0 h), λ (_, d). g.1 d)
either-Checks false r s f g = (
  λ h. let (a, d) = (seq r s f g).0 h in (inr (refl, a), d),
  λ (x, d). elim x [ inl no_way ↦ cc | inr (_, a) ↦ (seq r s f g).1 (a, d) ],
)

module _ (u : Unicode) where
  task_named-Checks :
      (tasks : Tasks) (text active : Text)
      → Checks
          (on_active u tasks text (some active))
          (IsActive u tasks active × (has_date u text ≡ true))
  task_named-Checks tasks text active =
      either-Checks (active =? awaiting)
        (check_active active (active_id u active) (lookup (active_id u active) tasks))
        (check_date u text)
        (check_active-Checks active (active_id u active) (lookup (active_id u active) tasks))
        (unless (has_date u text) no_date)

  on_active-Checks :
      (tasks : Tasks) (text : Text) (found : Option Text)
      → Checks (on_active u tasks text found) (
          (active : Text) × (found ≡ some active)
          × (IsActive u tasks active × (has_date u text ≡ true)))
  on_active-Checks tasks text none = (λ h. cc, λ (active, is, _). cc)
  on_active-Checks tasks text (some active) =
      binding (some active) (λ a. on_active u tasks text (some a)) _ (task_named-Checks tasks text)

  -- No error is found exactly when the status is a UTF-8 file that has a date and names what is active:
  -- no task, or a task of the backlog that is open and, where it is planned, named as the next
  -- refinement.
  pub validate_current_status-Checks :
      (tree : Tree) (tasks : Tasks)
      → Checks (validate_current_status u tree tasks) (
          (text : Text) × (text_of (read tree (codes "docs/project/current-status.md")) ≡ some text)
          × IsStatus u tasks text)
  unfolding validate_current_status check_status
  validate_current_status-Checks tree tasks =
      binding (text_of (read tree (codes "docs/project/current-status.md"))) _ (IsStatus u tasks)
        (λ text. on_active-Checks tasks text (active_task text))
