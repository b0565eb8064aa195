-- ===== src/Employees/Returns.antt =====
-- The equipment of an employee who is deactivated.
use mathlib.Core.Path.{subst}
use leave_management_system.Prelude.{
  ℕ, ◌≡◌, ◌⊎◌, refl, sym, Bool, true, false, ◌&&◌, not, List, [], ◌∷◌, ◌==◌, find, keep, inl, inr,
  Bool-cases, Option-cases, if◌then◌else◌, arith,
}
use leave_management_system.Models.Role.{Role, role_eq}
use leave_management_system.Database.{
  World, Result, ok, err, panic, app, pure, select, exec, statement, answer, annotate,
  execute_transaction,
}
use leave_management_system.Database.Outcomes.{
  After, >>=-After, annotate-After, select-After, exec-After, zoom-After, execute_transaction-After,
}
use leave_management_system.Database.Laws.{Atomic, execute_transaction-Atomic}
use leave_management_system.Database.Laws.{>>=-Keeps}
use leave_management_system.Database.Endings.{guard-Keeps, reads-Keeps}
use leave_management_system.Equipment.Defs.{
  Assignment, RemoveEquipmentRequest, Store as Inventory, is_assigned, get_equipment,
  get_assignment, delete_assignment_row, update_equipment_row, remove_equipment,
}
use leave_management_system.Equipment.Rows.{Conserved, DistinctIds, NoId}
use leave_management_system.Equipment.Conservation.{remove_equipment-Conserved}
use leave_management_system.Employees.Store.{Store, update_person, on_inventory, get_employee_by_id}
use leave_management_system.Employees.Requests.{
  is_permitted, distinct_items, remove_each, restore_employee_equipment, toggle_status,
  delete_employee_status,
}

-- For an item that is not shared, what remains and what employees hold is its total, and assignments
-- have different ids.
abbrev pub IsAccounted : ℕ → Inventory → Type 0
IsAccounted item s = Conserved item s × DistinctIds s.assignments

keep-NoId_all :
    (id gone : ℕ) (assignments : List Assignment)
    → NoId id assignments
    → NoId id (keep (λ a. not (a.id == gone)) assignments)
keep-NoId_all id gone [] h = tt
keep-NoId_all id gone (a ∷ assignments) h = elim (Bool-cases (a.id == gone)) [
  | inl p ↦ rw p (keep-NoId_all id gone assignments h.1)
  | inr p ↦ rw p (h.0, keep-NoId_all id gone assignments h.1)
]

keep-DistinctIds :
    (gone : ℕ) (assignments : List Assignment)
    → DistinctIds assignments
    → DistinctIds (keep (λ a. not (a.id == gone)) assignments)
keep-DistinctIds gone [] h = tt
keep-DistinctIds gone (a ∷ assignments) h = elim (Bool-cases (a.id == gone)) [
  | inl p ↦ rw p (keep-DistinctIds gone assignments h.1)
  | inr p ↦ rw p (keep-NoId_all a.id gone assignments h.0, keep-DistinctIds gone assignments h.1)
]

remove-DistinctIds :
    (req : RemoveEquipmentRequest) (w : World Inventory)
    → DistinctIds w.db.assignments
    → DistinctIds (remove_equipment req w).1.db.assignments
unfolding remove_equipment get_equipment get_assignment delete_assignment_row update_equipment_row
    select exec statement
remove-DistinctIds req w h =
    elim (Option-cases (find (is_assigned req.equipment_id req.employee_id) w.db.assignments)) [
      | inl e ↦ ground (arith, h)
      | inr (a, e) ↦ ground (arith, h, keep-DistinctIds a.id w.db.assignments h)
    ]

After-of :
    {S A : Type 0} (P : S → Type 0) (o : Result A × World S)
    → ((a : A) → o.0 ≡ ok a → P o.1.db)
    → After (λ _. P) o
After-of P (ok a, w) k = k a refl
After-of P (err e, w) k = tt
After-of P (panic, w) k = tt

-- A call that succeeds with the property or with nothing done, and else does nothing, keeps it.
settled :
    {S A : Type 0} (P : S → Type 0) (s : S) (o : Result A × World S)
    → P s
    → Atomic s o
    → After (λ _ t. P t ⊎ (t ≡ s)) o
    → P o.1.db
settled P s (ok a, w) h atomic (inl done) = done
settled P s (ok a, w) h atomic (inr same) = subst P (sym same) h
settled P s (err e, w) h atomic k = subst P (sym atomic) h
settled P s (panic, w) h atomic k = subst P (sym atomic) h

person-db : (id : ℕ) (w : World Store) → (get_employee_by_id id w).1.db ≡ w.db
unfolding get_employee_by_id select statement
person-db id w = ground arith

module _ (item : ℕ) where
  remove-IsAccounted :
      (req : RemoveEquipmentRequest) (w : World Inventory)
      → IsAccounted item w.db
      → After (λ _. IsAccounted item) (remove_equipment req w)
  remove-IsAccounted req w h =
      After-of (IsAccounted item) (remove_equipment req w)
        (λ a e. (remove_equipment-Conserved w req item h.1 h.0 e, remove-DistinctIds req w h.1))

  abbrev Accounted : Store → Type 0
  Accounted s = IsAccounted item s.inventory

  remove_each-Accounted :
      (id : ℕ) (items : List ℕ) (w : World Store)
      → Accounted w.db
      → After (λ _. Accounted) (remove_each id items w)
  unfolding remove_each
  remove_each-Accounted id [] w h = h
  remove_each-Accounted id (i ∷ items) w h =
      let req : RemoveEquipmentRequest = record { employee_id = id; equipment_id = i } in
      >>=-After (λ _. Accounted) (λ _. Accounted) (on_inventory (remove_equipment req)) _ w
        (zoom-After (λ _. Accounted) (λ s. s.inventory) (λ t s. record s { inventory = t })
          (remove_equipment req) w
          (remove-IsAccounted req (record { db = w.db.inventory; faults = w.faults }) h))
        (λ _ w₁ h₁. remove_each-Accounted id items w₁ h₁)

  restore-Accounted :
      (id : ℕ) (b : Bool) (w : World Store)
      → Accounted w.db
      → After (λ _. Accounted) ((if b then restore_employee_equipment id else pure tt) w)
  unfolding restore_employee_equipment
  restore-Accounted id false w h = h
  restore-Accounted id true w h =
      >>=-After (λ _. Accounted) (λ _. Accounted)
        (annotate "failed to fetch assignments: "
          (select (λ s. distinct_items id s.inventory.assignments)))
        (remove_each id) w
        (annotate-After (λ _. Accounted) "failed to fetch assignments: "
          (select (λ s. distinct_items id s.inventory.assignments)) w
          (select-After (λ _. Accounted) (λ s. distinct_items id s.inventory.assignments) w h))
        (λ items w₁ h₁. remove_each-Accounted id items w₁ h₁)

  person-After :
      (id : ℕ) (w : World Store) → Accounted w.db → After (λ _. Accounted) (get_employee_by_id id w)
  unfolding get_employee_by_id select statement
  person-After id w h = ground arith

  toggle-Accounted :
      (id : ℕ) (w : World Store) → Accounted w.db → After (λ _. Accounted) (toggle_status id w)
  unfolding toggle_status
  toggle-Accounted id w h =
      >>=-After (λ _. Accounted) (λ _. Accounted)
        (annotate "employee not found: " (get_employee_by_id id)) _ w
        (annotate-After (λ _. Accounted) "employee not found: " (get_employee_by_id id) w
          (person-After id w h))
        (λ p w₁ h₁.
          >>=-After (λ _. Accounted) (λ _. Accounted)
            (exec (update_person id (λ q. record q { is_active = not p.is_active }))) _ w₁
            (exec-After (λ _. Accounted)
              (update_person id (λ q. record q { is_active = not p.is_active })) w₁ h₁)
            (λ _ w₂ h₂.
              >>=-After (λ _. Accounted) (λ _. Accounted)
                (if p.is_active then restore_employee_equipment id else pure tt) _ w₂
                (restore-Accounted id p.is_active w₂ h₂) (λ _ w₃ h₃. h₃)))

  -- Deactivating or activating an employee, which gives equipment back, keeps for every item that is
  -- not shared the remaining quantity and the assigned quantities together equal to the total,
  -- whoever asks, whichever statements fail and however the request ends. Assignments have different
  -- ids before and after.
  pub delete_employee_status-IsAccounted :
      (role : Role) (id : ℕ) (w : World Store)
      → IsAccounted item w.db.inventory
      → IsAccounted item (delete_employee_status role id w).1.db.inventory
  unfolding delete_employee_status
  delete_employee_status-IsAccounted role id w h =
      guard-Keeps Accounted (not (is_permitted role)) _ _
        (>>=-Keeps Accounted (answer (app 404 "employee not found") (get_employee_by_id id)) _
          (reads-Keeps Accounted (get_employee_by_id id) (person-db id))
          (λ target.
            guard-Keeps Accounted (role_eq role Role.admin && role_eq target.role Role.super_admin)
              _ _
              (λ w₁ h₁.
                settled Accounted w₁.db (execute_transaction (toggle_status id) w₁) h₁
                  (execute_transaction-Atomic (toggle_status id) w₁)
                  (execute_transaction-After (λ _. Accounted) (toggle_status id) w₁
                    (toggle-Accounted id _ h₁)))))
        w h
