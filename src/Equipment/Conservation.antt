-- ===== src/Equipment/Conservation.antt =====
-- Equipment is neither lost nor made by assigning it.
use leave_management_system.Prelude.{
  ℕ, none, ◌-◌, ◌≡◌, refl, inl, inr, arith, Bool-cases, Option-cases, ◌==◌, find,
}
use leave_management_system.Database.{World, ok, statement, select, exec}
use leave_management_system.Equipment.Defs.{
  Assignment, AssignEquipmentRequest, RemoveEquipmentRequest, Store, is_item, is_assigned,
  add_remaining, take_remaining, get_equipment, get_assignment, insert_assignment,
  update_equipment_row, delete_assignment_row, assign_equipment, remove_equipment,
  UpdateAssignmentRequest, update_assignment, resize, resize_pool, update_assignment_row,
}
use leave_management_system.Equipment.Rows.{
  Conserved, find-update, find-update_other, DistinctIds, held-delete, held-update, find-assigned,
}

module _ (w : World Store) where
  -- An assignment that succeeds keeps, for every item that is not shared, the remaining quantity and
  -- the assigned quantities together equal to the total.
  pub assign_equipment-Conserved :
      (req : AssignEquipmentRequest) (id : ℕ)
      → Conserved id w.db
      → (assign_equipment req w).0 ≡ ok tt
      → Conserved id (assign_equipment req w).1.db
  unfolding assign_equipment get_equipment insert_assignment update_equipment_row select exec
      statement
  assign_equipment-Conserved req id h done = elim (Bool-cases (req.equipment_id == id)) [
    | inl p ↦
        let row = find-update (take_remaining req.quantity) (λ _. refl) id w.db.equipment in
        elim (Option-cases (find (is_item id) w.db.equipment)) [
          | inl missing ↦ ground (arith, row)
          | inr (x, old) ↦ ground (arith, row, h)
        ]
    | inr p ↦
        let row =
          find-update_other (take_remaining req.quantity) (λ _. refl) req.equipment_id id
            w.db.equipment p in
        elim (Option-cases (find (is_item id) w.db.equipment)) [
          | inl missing ↦ ground (arith, row)
          | inr (x, old) ↦ ground (arith, row, h)
        ]
  ]

  -- A removal that succeeds keeps, for every item that is not shared, the remaining quantity and the
  -- assigned quantities together equal to the total, where assignments have different ids.
  pub remove_equipment-Conserved :
      (req : RemoveEquipmentRequest) (id : ℕ)
      → DistinctIds w.db.assignments
      → Conserved id w.db
      → (remove_equipment req w).0 ≡ ok tt
      → Conserved id (remove_equipment req w).1.db
  unfolding remove_equipment get_equipment get_assignment delete_assignment_row update_equipment_row
      select exec statement
  remove_equipment-Conserved req id d h done =
      elim (Option-cases (find (is_assigned req.equipment_id req.employee_id) w.db.assignments)) [
        | inl missing ↦ ground arith
        | inr (a, assigned) ↦
            let less =
              held-delete req.equipment_id req.employee_id id w.db.assignments a d assigned in
            let same_item =
              find-assigned req.equipment_id req.employee_id w.db.assignments a assigned in
            elim (Bool-cases (req.equipment_id == id)) [
              | inl p ↦
                  let row = find-update (add_remaining a.quantity) (λ _. refl) id w.db.equipment in
                  elim (Option-cases (find (is_item id) w.db.equipment)) [
                    | inl missing ↦ ground (arith, row)
                    | inr (x, old) ↦ ground (arith, row, h, less, same_item)
                  ]
              | inr p ↦
                  let row =
                    find-update_other (add_remaining a.quantity) (λ _. refl) req.equipment_id id
                      w.db.equipment p in
                  elim (Option-cases (find (is_item id) w.db.equipment)) [
                    | inl missing ↦ ground (arith, row)
                    | inr (x, old) ↦ ground (arith, row, h, less, same_item)
                  ]
            ]
      ]

  abbrev set_quantity : ℕ → Assignment → Assignment
  set_quantity n a = record a { quantity = n }

  -- A change of the quantity of an assignment that succeeds keeps, for every item that is not shared,
  -- the remaining quantity and the assigned quantities together equal to the total, where
  -- assignments have different ids.
  pub update_assignment-Conserved :
      (req : UpdateAssignmentRequest) (id : ℕ)
      → req.to_employee_id ≡ none
      → DistinctIds w.db.assignments
      → Conserved id w.db
      → (update_assignment req w).0 ≡ ok tt
      → Conserved id (update_assignment req w).1.db
  unfolding update_assignment resize resize_pool get_equipment get_assignment update_assignment_row
      update_equipment_row select exec statement
  update_assignment-Conserved req id same_employee d h done =
      elim (Option-cases
        (find (is_assigned req.equipment_id req.from_employee_id) w.db.assignments)) [
          | inl missing ↦ ground arith
          | inr (a, assigned) ↦
              let change =
                held-update (set_quantity req.quantity) (λ _. refl) req.equipment_id
                  req.from_employee_id id w.db.assignments a d assigned in
              let same_item =
                find-assigned req.equipment_id req.from_employee_id w.db.assignments a assigned in
              elim (Bool-cases (req.equipment_id == id)) [
                | inl p ↦
                    let more =
                      find-update (take_remaining (req.quantity - a.quantity)) (λ _. refl) id
                        w.db.equipment in
                    let less =
                      find-update (add_remaining (a.quantity - req.quantity)) (λ _. refl) id
                        w.db.equipment in
                    elim (Option-cases (find (is_item id) w.db.equipment)) [
                      | inl missing ↦ ground (arith, more, less)
                      | inr (x, old) ↦ ground (arith, more, less, h, change, same_item)
                    ]
                | inr p ↦
                    let more =
                      find-update_other (take_remaining (req.quantity - a.quantity)) (λ _. refl)
                        req.equipment_id id w.db.equipment p in
                    let less =
                      find-update_other (add_remaining (a.quantity - req.quantity)) (λ _. refl)
                        req.equipment_id id w.db.equipment p in
                    elim (Option-cases (find (is_item id) w.db.equipment)) [
                      | inl missing ↦ ground (arith, more, less)
                      | inr (x, old) ↦ ground (arith, more, less, h, change, same_item)
                    ]
              ]
        ]
