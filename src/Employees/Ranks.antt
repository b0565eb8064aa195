-- ===== src/Employees/Ranks.antt =====
-- A change of role by ADMIN or HR, and a change of status by ADMIN, spare every SUPERADMIN.
use leave_management_system.Prelude.{
  ℕ, ◌≡◌, refl, ◌∙◌, Bool, true, false, ◌&&◌, not, List, [], ◌∷◌, Option, none, some, String, ◌==◌,
  find, any, arith, Bool-cases, if◌then◌else◌, inl, inr,
}
use leave_management_system.Models.Role.{Role, role_eq}
use leave_management_system.Database.{
  World, plain, pure, or_fail, select, exec, statement, wrap, annotate, execute_transaction,
}
use leave_management_system.Database.Laws.{Keeps, >>=-Keeps}
use leave_management_system.Database.Endings.{
  Ends, db-Ends, guard-Ends, select-Ends, or_fail-Ends, wrap-Ends, >>=-Ends, statement-Ends,
  reads-Ends, annotate-Ends, select-Keeps, execute_transaction-Ends,
}
use leave_management_system.Tables.{Calendar, current_year}
use leave_management_system.Accounts.Entitlement.{adjust_leave_balances_for_role_change}
use leave_management_system.Equipment.Defs.{remove_equipment}
use leave_management_system.Employees.Store.{
  Person, Store, is_person, update_person, get_employee_by_id, get_employee_role, no_rows,
  person_and_reports, get_employee_current_role_and_manager_status, update_employee_role_row,
  try_role, unless_message, on_accounts, on_inventory,
}
use leave_management_system.Employees.Requests.{
  is_permitted, is_admin_or_hr, change_role, update_employee_role, distinct_items, remove_each,
  restore_employee_equipment, toggle_status, delete_employee_status,
}
use leave_management_system.Employees.People.{is_superior}
use leave_management_system.Employees.Spared.{
  Holds, Found, passed, update_person-Holds, exec-Holds, spared-Holds,
}

module _ (top : List Person) where
  -- The role of the employee was read.
  abbrev Current : ℕ → Role × Bool → Store → Type 0
  Current id current s = (target : Person) × Found top id target s × (target.role ≡ current.0)

  read-Current :
      (id : ℕ) (w : World Store)
      → Holds top w.db
      → Ends (Current id) (Holds top) (get_employee_current_role_and_manager_status id w)
  unfolding get_employee_current_role_and_manager_status
  read-Current id w h =
      >>=-Ends (λ row s. (find (is_person id) s.people ≡ row.0) × Holds top s) (Current id)
        (Holds top) (select (person_and_reports id)) _ w
        (select-Ends _ (Holds top) (person_and_reports id) w h (refl, h))
        (λ row w₁ read.
          >>=-Ends (λ p s. Found top id p s) (Current id) (Holds top)
            (or_fail row.0 (plain no_rows)) _ w₁
            (or_fail-Ends (Found top id) (Holds top) row.0 _ w₁ read.1
              (λ p e. (read.0 ∙ e, read.1)))
            (λ p w₂ found. (p, found, refl)))

  pub get_employee_role-db : (id : ℕ) (w : World Store) → (get_employee_role id w).1.db ≡ w.db
  unfolding get_employee_role select statement
  get_employee_role-db id w = ground arith

  unless_message-Holds :
      (refusal : Option String) (w : World Store)
      → Holds top w.db
      → Ends (λ _. Holds top) (Holds top) (unless_message refusal w)
  unless_message-Holds none w h = h
  unless_message-Holds (some m) w h = h

  role_row-Holds :
      (id : ℕ) (new_role : Role) (target : Person) (w : World Store)
      → role_eq new_role Role.super_admin ≡ false
      → Found top id target w.db
      → is_superior target ≡ false
      → Ends (λ _. Holds top) (Holds top) (update_employee_role_row id new_role w)
  unfolding update_employee_role_row
  role_row-Holds id new_role target w low found spared =
      >>=-Ends (λ _. Holds top) (λ _. Holds top) (Holds top) (statement (try_role id new_role)) _ w
        (statement-Ends (λ _. Holds top) (Holds top) (try_role id new_role) w found.1
          (elim (Bool-cases (any (is_person id) w.db.people)) [
            | inr p ↦ rw p found.1
            | inl p ↦ elim (Bool-cases (any (role_eq new_role) w.db.roles)) [
              | inr q ↦ rw (p, q) found.1
              | inl q ↦
                  rw (p, q)
                    (update_person-Holds top id (λ x. record x { role = new_role }) (λ x. refl)
                      (λ x r. low) target w.db found spared)
            ]
          ]))
        (λ refusal w₁ holds. unless_message-Holds refusal w₁ holds)

  change_role-Holds :
      (cal : Calendar) (id : ℕ) (new_role : Role) (target : Person) (w : World Store)
      → role_eq new_role Role.super_admin ≡ false
      → Found top id target w.db
      → is_superior target ≡ false
      → Ends (λ _. Holds top) (Holds top) (change_role cal id new_role w)
  unfolding change_role
  change_role-Holds cal id new_role target w low found spared =
      >>=-Ends (λ _. Found top id target) (λ _. Holds top) (Holds top)
        (wrap 500 "failed to fetch employee role: " (get_employee_role id)) _ w
        (wrap-Ends _ (Holds top) 500 "failed to fetch employee role: " (get_employee_role id) w (
          reads-Ends (Found top id target) (Holds top) w.db (get_employee_role id w)
            (get_employee_role-db id w) found found.1))
        (λ old w₁ still.
          >>=-Ends (λ _. Holds top) (λ _. Holds top) (Holds top)
            (wrap 500 "failed to update role: " (update_employee_role_row id new_role)) _ w₁
            (wrap-Ends (λ _. Holds top) (Holds top) 500 "failed to update role: "
              (update_employee_role_row id new_role) w₁
              (role_row-Holds id new_role target w₁ low still spared))
            (λ _ w₂ holds.
              wrap-Ends (λ _. Holds top) (Holds top) 500
                "failed to adjust leave balances for role change: "
                (on_accounts cal
                  (adjust_leave_balances_for_role_change id old new_role (current_year cal)))
                w₂ (db-Ends (Holds top) _ holds)))

  pub role-Holds :
      (cal : Calendar) (role : Role) (user emp_id : ℕ) (new_role : Role) (w : World Store)
      → is_admin_or_hr role ≡ true
      → Holds top w.db
      → Ends (λ _. Holds top) (Holds top) (update_employee_role cal role user emp_id new_role w)
  unfolding update_employee_role
  role-Holds cal role user emp_id new_role w lower h =
      guard-Ends (Holds top) _ (not (is_permitted role)) _ _ w h (λ _.
        guard-Ends (Holds top) _ (is_admin_or_hr role && user == emp_id) _ _ w h (λ _.
          >>=-Ends (Current emp_id) (λ _. Holds top) (Holds top)
            (wrap 500 "failed to fetch employee role: "
              (get_employee_current_role_and_manager_status emp_id))
            _ w
            (wrap-Ends (Current emp_id) (Holds top) 500 "failed to fetch employee role: "
              (get_employee_current_role_and_manager_status emp_id) w (read-Current emp_id w h))
            (λ current w₁ (target, found, same).
              guard-Ends (Holds top) _ (is_admin_or_hr role && role_eq current.0 Role.super_admin) _
                _ w₁ found.1
                (λ kept.
                  guard-Ends (Holds top) _
                    (is_admin_or_hr role && role_eq new_role Role.super_admin) _ _ w₁ found.1
                    (λ low.
                      guard-Ends (Holds top) _ (role_eq current.0 new_role) _ _ w₁ found.1 (λ _.
                        guard-Ends (Holds top) _ (current.1 && not (role_eq new_role Role.manager))
                          _ _ w₁ found.1
                          (λ _.
                            >>=-Ends (λ _. Holds top) (λ _. Holds top) (Holds top)
                              (wrap 500 "" (execute_transaction (change_role cal emp_id new_role)))
                              _ w₁
                              (wrap-Ends (λ _. Holds top) (Holds top) 500 ""
                                (execute_transaction (change_role cal emp_id new_role)) w₁
                                (execute_transaction-Ends (Holds top)
                                  (change_role cal emp_id new_role) w₁ found.1
                                  (change_role-Holds cal emp_id new_role target _ (passed low lower)
                                    found (rw same (passed kept lower)))))
                              (λ _ w₂ holds. holds))))))))

  get_employee-db : (id : ℕ) (w : World Store) → (get_employee_by_id id w).1.db ≡ w.db
  unfolding get_employee_by_id select statement
  get_employee-db id w = ground arith

  remove_each-Holds : (id : ℕ) (items : List ℕ) → Keeps (Holds top) (remove_each id items)
  unfolding remove_each
  remove_each-Holds id [] w h = h
  remove_each-Holds id (item ∷ items) w h =
      >>=-Keeps (Holds top)
        (on_inventory (remove_equipment (record { employee_id = id; equipment_id = item })))
        (λ _. remove_each id items) (λ w₁ h₁. h₁) (λ _. remove_each-Holds id items) w h

  restore_if-Holds :
      (id : ℕ) (b : Bool) → Keeps (Holds top) (if b then restore_employee_equipment id else pure tt)
  unfolding restore_employee_equipment select
  restore_if-Holds id false w h = h
  restore_if-Holds id true w h =
      >>=-Keeps (Holds top)
        (annotate "failed to fetch assignments: "
          (select (λ s. distinct_items id s.inventory.assignments)))
        (remove_each id) (select-Keeps (Holds top) (λ s. distinct_items id s.inventory.assignments))
        (remove_each-Holds id) w h

  toggle-Holds :
      (id : ℕ) (target : Person) (w : World Store)
      → Found top id target w.db
      → is_superior target ≡ false
      → Ends (λ _. Holds top) (Holds top) (toggle_status id w)
  unfolding toggle_status restore_employee_equipment
  toggle-Holds id target w found low =
      >>=-Ends (λ _. Found top id target) (λ _. Holds top) (Holds top)
        (annotate "employee not found: " (get_employee_by_id id)) _ w
        (annotate-Ends (λ _. Found top id target) (Holds top) "employee not found: "
          (get_employee_by_id id) w
          (reads-Ends (Found top id target) (Holds top) w.db (get_employee_by_id id w)
            (get_employee-db id w) found found.1))
        (λ p w₁ still.
          >>=-Ends (λ _. Holds top) (λ _. Holds top) (Holds top)
            (exec (update_person id (λ q. record q { is_active = not p.is_active }))) _ w₁
            (exec-Holds top id (λ q. record q { is_active = not p.is_active }) (λ q. refl)
              (λ q r. r) target w₁ still low)
            (λ _ w₂ holds. db-Ends (Holds top) _ (
              >>=-Keeps (Holds top) (if p.is_active then restore_employee_equipment id else pure tt)
                (λ _. pure (not p.is_active)) (restore_if-Holds id p.is_active) (λ _ w₃ h₃. h₃) w₂
                holds)))

  pub status-Holds :
      (role : Role) (emp_id : ℕ) (w : World Store)
      → role_eq role Role.admin ≡ true
      → Holds top w.db
      → Ends (λ _. Holds top) (Holds top) (delete_employee_status role emp_id w)
  unfolding delete_employee_status
  status-Holds role emp_id w lower h =
      guard-Ends (Holds top) _ (not (is_permitted role)) _ _ w h (λ _.
        spared-Holds top (role_eq role Role.admin) emp_id _ w lower h (λ target w₁ found low.
          wrap-Ends (λ _. Holds top) (Holds top) 500 "" (execute_transaction (toggle_status emp_id))
            w₁
            (execute_transaction-Ends (Holds top) (toggle_status emp_id) w₁ found.1
              (toggle-Holds emp_id target _ found low))))
