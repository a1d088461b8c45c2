-- ===== src/Documentation/Surviving.antt =====
-- What the functions `validate_*` of scripts/check_documentation.py have to read to end without an
-- exception.
use coupon_service.Base.{
  ℕ, ◌+◌, ◌≡◌, refl, sym, ◌∙◌, inl, inr, Bool, Bool-cases, Option-cases, contains-keys-insert, true,
  not, ◌||◌, ◌=?◌, Option, none, some, List, [], ◌∷◌, Text, text_eq, codes, all_of, has_key, insert,
  lookup,
}
use coupon_service.Documentation.Backlog.{Task, Tasks}
use coupon_service.Documentation.Hygiene.{
  check_lines, check_bytes, check_node, check_path, validate_text_hygiene,
}
use coupon_service.Documentation.Links.{
  index_path, check_target, check_link, check_document, validate_links, check_index,
  validate_documentation_index,
}
use coupon_service.Package.Checksums.{Node, file, other}
use coupon_service.Documentation.Pattern.{Unicode}
use coupon_service.Documentation.Problem.{Register, decision, risk}
use coupon_service.Documentation.Refinements.{
  refinement_path, Metadata, Checked, parse_metadata, enter, refinements_from,
}
use coupon_service.Documentation.Registers.{
  path_of, check_ids, check_register, validate_unique_register_ids,
}
use coupon_service.Documentation.Status.{
  check_active, on_active, check_status, validate_current_status,
}
use coupon_service.Documentation.Tree.{Tree, is_file, read, text_of, markdown_files}
use coupon_service.Contract.Surviving.{
  survives, survives->>, survives-complain_if, survives_messages, survives_complaint, survives_both,
  survives_if, survives-for_each, survives_each, is_some, survives_reading,
}

module _ (tree : Tree) where
  -- the file is there, and is UTF-8
  abbrev pub readable : Text → Bool
  readable path = is_some (text_of (read tree path))

  -- a refinement is looked for, and is readable where it is a file
  abbrev pub loads : Text → Bool
  loads id = not (is_file tree (refinement_path id)) || readable (refinement_path id)

  survives-check_lines :
      (path : Text) (n : ℕ) (lines : List Text) → survives (check_lines path n lines) ≡ true
  unfolding check_lines
  survives-check_lines path n [] = refl
  survives-check_lines path n (l ∷ ls) =
      rw (survives->>, survives-complain_if) (survives-check_lines path (n + 1) ls)

  survives-check_bytes : (path bytes : Text) → survives (check_bytes path bytes) ≡ true
  unfolding check_bytes
  survives-check_bytes path bytes =
      search (survives_both, survives-complain_if, survives_if, survives-check_lines)

  survives-check_node : (path : Text) (node : Option Node) → survives (check_node path node) ≡ true
  survives-check_node path none = refl
  survives-check_node path (some other) = refl
  survives-check_node path (some (file bytes)) = search (survives_if, survives-check_bytes)

  pub survives-validate_text_hygiene : survives (validate_text_hygiene tree) ≡ true
  unfolding validate_text_hygiene check_path
  survives-validate_text_hygiene =
      survives_each _ (check_path tree) (λ path. survives-check_node path (lookup path tree))

  -- Links and the index raise only where they read a text.
  module _ (root : List Text) where
    survives-check_target :
        (path raw : Text) (inside : Option (List Text))
        → survives (check_target root tree path raw inside) ≡ true
    survives-check_target path raw none = refl
    survives-check_target path raw (some inside) = survives-complain_if _ _

    survives-check_link : (path raw : Text) → survives (check_link root tree path raw) ≡ true
    unfolding check_link
    survives-check_link path raw = search (survives_if, survives-check_target)

    pub survives-validate_links :
        survives (validate_links root tree) ≡ all_of readable (markdown_files tree)
    unfolding validate_links check_document
    survives-validate_links =
        survives-for_each readable (markdown_files tree) (check_document root tree) (λ path.
          survives_reading (text_of (read tree path)) _
            (λ text. search (survives_each, survives-check_link)))

    pub survives-validate_documentation_index :
        survives (validate_documentation_index root tree) ≡ readable index_path
    unfolding validate_documentation_index check_index
    survives-validate_documentation_index =
        survives_reading (text_of (read tree index_path)) (check_index root tree)
          (λ text. search (survives_both, survives_each))

  module _ (u : Unicode) where
    survives-check_ids : (r : Register) (ids : List Text) → survives (check_ids r ids) ≡ true
    unfolding check_ids
    survives-check_ids r ids = search (survives_both, survives_each, survives-complain_if)

    pub survives-validate_unique_register_ids :
        survives (validate_unique_register_ids u tree)
        ≡ all_of (λ r. readable (path_of r)) (decision ∷ risk ∷ [])
    unfolding validate_unique_register_ids check_register
    survives-validate_unique_register_ids =
        survives-for_each (λ r. readable (path_of r)) (decision ∷ risk ∷ []) (check_register u tree)
          (λ r.
            survives_reading (text_of (read tree (path_of r))) _
              (λ text. search survives-check_ids))

    survives-check_active :
        (text id : Text) (task : Option Task) → survives (check_active text id task) ≡ true
    unfolding check_active
    survives-check_active text id none = refl
    survives-check_active text id (some task) = search (survives_if, survives-complain_if)

    survives-on_active :
        (tasks : Tasks) (text : Text) (active : Option Text)
        → survives (on_active u tasks text active) ≡ true
    survives-on_active tasks text none = refl
    survives-on_active tasks text (some active) =
        search (survives_if, survives_both, survives-complain_if, survives-check_active)

    pub survives-validate_current_status :
        (tasks : Tasks)
        → survives (validate_current_status u tree tasks)
          ≡ readable (codes "docs/project/current-status.md")
    unfolding validate_current_status check_status
    survives-validate_current_status tasks =
        survives_reading (text_of (read tree (codes "docs/project/current-status.md"))) _
          (λ text. survives-on_active tasks text _)

    abbrev AllLoad : Checked → Type 0
    AllLoad checked = (id : Text) → has_key id checked ≡ true → loads id ≡ true

    insert-AllLoad :
        (id : Text) (m : Metadata) (checked : Checked)
        → loads id ≡ true
        → AllLoad checked
        → AllLoad (insert id m checked)
    insert-AllLoad id m checked l a j h = elim (Bool-cases (j =? id)) [
      | inl same ↦ rw ((text_eq.beq_iff j id).0 same) l
      | inr differs ↦ a j (sym (contains-keys-insert j id m checked ∙ rw differs) ∙ h)
    ]

    pub survives-refinements_from :
        (tasks : Tasks) (checked : Checked)
        → AllLoad checked
        → survives (refinements_from u tree tasks checked)
          ≡ all_of (λ t. loads t.1.refinement) tasks
    unfolding refinements_from enter
    survives-refinements_from [] checked a = refl
    survives-refinements_from ((id, task) ∷ tasks) checked a =
        elim (Bool-cases (has_key r checked)) [
          | inl known ↦
              rw (known, survives_complaint, a r known) (survives-refinements_from tasks checked a)
          | inr new ↦ elim (Bool-cases (is_file tree (refinement_path r))) [
            | inr not_there ↦
                rw (new, not_there, survives_messages) (survives-refinements_from tasks checked a)
            | inl there ↦ elim (Option-cases (text_of (read tree (refinement_path r)))) [
              | inl unread ↦ rw (new, there, unread) refl
              | inr (text, is) ↦
                  rw (new, there, is, survives_complaint)
                    (survives-refinements_from tasks (insert r (parse_metadata text) checked)
                      (insert-AllLoad r (parse_metadata text) checked (rw (there, is) refl) a))
            ]
          ]
        ]
      where
        r : Text
        r = task.refinement
