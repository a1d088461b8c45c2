-- ===== src/Documentation/Main/Failing.antt =====
-- When a run of scripts/check_documentation.py ends with an exception.
use coupon_service.Base.{
  ◌≡◌, refl, sym, ap, ◌∙◌, inl, inr, Bool-cases, Bool, true, false, ◌=?◌, ◌||◌, Option, none, some,
  List, [], ◌∷◌, arith, Text, text_eq, codes, contains,
}
use coupon_service.Contract.Report.{Reported, reported, crashed, ◌>>◌}
use coupon_service.Documentation.Backlog.{State, Tasks, validate_backlog}
use coupon_service.Documentation.Links.{index_path, validate_documentation_index}
use coupon_service.Documentation.Main.{
  traceback, finish, validate_required_files, validate_rest, with_backlog, main,
}
use coupon_service.Documentation.Pattern.{Unicode}
use coupon_service.Documentation.Problem.{decision, risk}
use coupon_service.Documentation.Registers.{path_of, check_register, validate_unique_register_ids}
use coupon_service.Documentation.Status.{validate_current_status}
use coupon_service.Documentation.Tree.{Tree, read, text_of}

then_crashed : {M : Type 0} (r : Reported M) → (r >> crashed) ≡ crashed
then_crashed crashed = refl
then_crashed (reported es) = refl

-- the files that are read where no error of reading is caught
abbrev pub read_plainly : List Text
read_plainly =
    codes "docs/project/current-status.md" ∷ index_path ∷ path_of decision ∷ path_of risk ∷ []

module _ (u : Unicode) (root : List Text) (tree : Tree) where
  status_crashes :
      (tasks : Tasks)
      → text_of (read tree (codes "docs/project/current-status.md")) ≡ none
      → validate_current_status u tree tasks ≡ crashed
  unfolding validate_current_status
  status_crashes tasks unread = rw unread refl

  index_crashes :
      text_of (read tree index_path) ≡ none → validate_documentation_index root tree ≡ crashed
  unfolding validate_documentation_index
  index_crashes unread = rw unread refl

  decisions_crash :
      text_of (read tree (path_of decision)) ≡ none → validate_unique_register_ids u tree ≡ crashed
  unfolding validate_unique_register_ids check_register
  decisions_crash unread = rw unread refl

  risks_crash :
      text_of (read tree (path_of risk)) ≡ none → validate_unique_register_ids u tree ≡ crashed
  unfolding validate_unique_register_ids check_register
  risks_crash unread = rw unread (then_crashed (check_register u tree decision))

  rest_crashes_by_status :
      (tasks : Tasks)
      → validate_current_status u tree tasks ≡ crashed
      → validate_rest u root tree tasks ≡ crashed
  unfolding validate_rest
  rest_crashes_by_status tasks is = rw is (then_crashed _)

  rest_crashes_by_index :
      (tasks : Tasks)
      → validate_documentation_index root tree ≡ crashed
      → validate_rest u root tree tasks ≡ crashed
  unfolding validate_rest
  rest_crashes_by_index tasks is = rw (is, then_crashed _, then_crashed _, then_crashed _) refl

  rest_crashes_by_registers :
      (tasks : Tasks)
      → validate_unique_register_ids u tree ≡ crashed
      → validate_rest u root tree tasks ≡ crashed
  unfolding validate_rest
  rest_crashes_by_registers tasks is =
      rw (is, then_crashed _, then_crashed _, then_crashed _, then_crashed _, then_crashed _) refl

  rest_crashes :
      (tasks : Tasks) (path : Text)
      → contains path read_plainly ≡ true
      → text_of (read tree path) ≡ none
      → validate_rest u root tree tasks ≡ crashed
  rest_crashes tasks path listed unread =
      elim (Bool-cases (path =? codes "docs/project/current-status.md")) [
        | inl same ↦
            rest_crashes_by_status tasks (status_crashes tasks (unread_at path _ same unread))
        | inr other ↦ elim (Bool-cases (path =? index_path)) [
          | inl same ↦ rest_crashes_by_index tasks (index_crashes (unread_at path _ same unread))
          | inr not_index ↦ elim (Bool-cases (path =? path_of decision)) [
            | inl same ↦
                rest_crashes_by_registers tasks (decisions_crash (unread_at path _ same unread))
            | inr not_log ↦ rest_crashes_by_registers tasks (
                risks_crash
                  (unread_at path _ (last_listed _ _ _ _ other not_index not_log listed) unread))
          ]
        ]
      ]
    where
      unread_at :
          (p q : Text)
          → (p =? q) ≡ true
          → text_of (read tree p) ≡ none
          → text_of (read tree q) ≡ none
      unread_at p q same h =
          ap (λ (t : Text). text_of (read tree t)) (sym ((text_eq.beq_iff p q).0 same)) ∙ h

      last_listed :
          (a b c d : Bool)
          → a ≡ false
          → b ≡ false
          → c ≡ false
          → (a || (b || (c || (d || false)))) ≡ true
          → d ≡ true
      last_listed a b c d x y z h = ground arith

  finish_crashed : (tasks : Tasks) → finish tree tasks crashed ≡ traceback
  unfolding finish
  finish_crashed tasks = refl

  run_crashed :
      (found : Option State)
      → ((tasks : Tasks) → validate_rest u root tree tasks ≡ crashed)
      → with_backlog u root tree found ≡ traceback
  run_crashed none f = refl
  run_crashed (some (problems, tasks)) f =
      rw (f tasks, then_crashed (validate_required_files u root tree)) (finish_crashed tasks)

  -- The run ends with an exception, whatever errors it has found, where the current status, the index or a
  -- register is no file or no UTF-8 text.
  pub main-traceback :
      (path : Text)
      → contains path read_plainly ≡ true
      → text_of (read tree path) ≡ none
      → main u root tree ≡ traceback
  unfolding main
  main-traceback path listed unread =
      run_crashed (validate_backlog u tree) (λ tasks. rest_crashes tasks path listed unread)
