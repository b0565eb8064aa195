-- ===== src/Employees/Rights.antt =====
-- Whom the handlers for managers and passwords let through.
use mathlib.Core.Path.{subst}
use leave_management_system.Prelude.{
  ℕ, ◌≡◌, refl, ap, ◌∙◌, true, false, ◌&&◌, not, Option, none, some, ◌==◌, ltb, find, length, arith,
  [],
}
use leave_management_system.Models.Role.{Role, role_eq}
use leave_management_system.Database.{World, ok, app, answer, statement, select, exec}
use leave_management_system.Database.Outcomes.{
  After, After-ok, After-map, guard-After, >>=-After, answer-After, wrap-After, exec-After,
}
use leave_management_system.Employees.Store.{
  Text, Person, Store, is_person, update_person, get_employee_by_id, get_employee_role,
  update_manager, update_password,
}
use leave_management_system.Employees.Requests.{
  is_permitted, is_admin_or_hr, Security, check_manager, update_employee_manager,
}
use leave_management_system.Employees.Profile.{update_employee_password}

-- The manager is another employee, active and with the role MANAGER.
abbrev pub IsManagedBy : ℕ → ℕ → Option Person → Type 0
IsManagedBy emp_id manager_id none = ⊥
IsManagedBy emp_id manager_id (some m) =
    ((emp_id == manager_id) ≡ false) × (m.is_active ≡ true) × (role_eq m.role Role.manager ≡ true)

abbrev IsFit : Option Person → Type 0
IsFit none = ⊥
IsFit (some m) = (m.is_active ≡ true) × (role_eq m.role Role.manager ≡ true)

read-After : (id : ℕ) (w : World Store) → After (λ _ s. s ≡ w.db) (get_employee_by_id id w)
unfolding get_employee_by_id select statement
read-After id w = ground arith

check_manager-After :
    (id : ℕ) (w : World Store)
    → After (λ _ s. IsFit (find (is_person id) w.db.people) × (s ≡ w.db)) (check_manager id w)
unfolding check_manager get_employee_role get_employee_by_id select statement
check_manager-After id w = ground arith

update_manager-After :
    (id manager_id : ℕ) (w : World Store)
    → After
        (λ _ s. s ≡ update_person id (λ p. record p { manager_id = some manager_id }) w.db)
        (update_manager id manager_id w)
unfolding update_manager
update_manager-After id manager_id w = exec-After _ _ w refl

fit-IsManagedBy :
    (id manager_id : ℕ) (m : Option Person)
    → (id == manager_id) ≡ false
    → IsFit m
    → IsManagedBy id manager_id m
fit-IsManagedBy id manager_id none other h = h
fit-IsManagedBy id manager_id (some m) other h = (other, h.0, h.1)

manager-After :
    (role : Role) (user emp_id manager_id : ℕ) (w : World Store)
    → After
        (λ _ s.
          (is_permitted role ≡ true)
          × IsManagedBy emp_id manager_id (find (is_person manager_id) w.db.people)
          × (s ≡ update_person emp_id (λ p. record p { manager_id = some manager_id }) w.db))
        (update_employee_manager role user emp_id manager_id w)
unfolding update_employee_manager
manager-After role user emp_id manager_id w =
    guard-After _ (not (is_permitted role)) _ _ w (λ allowed.
      >>=-After (λ _ s. s ≡ w.db) _
        (answer (app 404 "employee not found") (get_employee_by_id emp_id)) _ w
        (answer-After _ _ (get_employee_by_id emp_id) w (read-After emp_id w))
        (λ target w₁ same.
          guard-After _ (is_admin_or_hr role && role_eq target.role Role.super_admin) _ _ w₁ (λ _.
            guard-After _ (emp_id == manager_id) _ _ w₁ (λ other.
              guard-After _ (user == manager_id && not (role_eq role Role.super_admin)) _ _ w₁ (λ _.
                >>=-After (λ _ s. IsFit (find (is_person manager_id) w₁.db.people) × (s ≡ w₁.db)) _
                  (check_manager manager_id) _ w₁ (check_manager-After manager_id w₁)
                  (λ _ w₂ fit.
                    wrap-After _ 500 "failed to update manager: " (update_manager emp_id manager_id)
                      w₂
                      (After-map
                        (λ _ s.
                          s
                          ≡ update_person emp_id (λ p. record p { manager_id = some manager_id })
                              w₂.db)
                        _ _
                        (λ _ s e. (
                          ground arith,
                          fit-IsManagedBy emp_id manager_id _ other (
                              subst (λ d. IsFit (find (is_person manager_id) d.people)) same fit.0),
                          e
                              ∙ ap
                                  (update_person emp_id
                                    (λ p. record p { manager_id = some manager_id }))
                                  (fit.1 ∙ same),
                        ))
                        (update_manager-After emp_id manager_id w₂))))))))

-- A change of manager that succeeds, whichever statements failed, was asked for by SUPERADMIN, ADMIN
-- or HR, names another employee who is active and has the role MANAGER, and sets that manager in
-- the employee's row and nothing else.
pub update_employee_manager_sound :
    (role : Role) (user emp_id manager_id : ℕ) (w : World Store)
    → (update_employee_manager role user emp_id manager_id w).0 ≡ ok tt
    → (is_permitted role ≡ true)
      × IsManagedBy emp_id manager_id (find (is_person manager_id) w.db.people)
      × ((update_employee_manager role user emp_id manager_id w).1.db
          ≡ update_person emp_id (λ p. record p { manager_id = some manager_id }) w.db)
update_employee_manager_sound role user emp_id manager_id w done =
    After-ok _ tt (update_employee_manager role user emp_id manager_id w)
      (manager-After role user emp_id manager_id w) done

-- Where no statement fails, whoever is neither ADMIN nor HR, an EMPLOYEE or an INTERN too, sets the
-- password of any employee to a text of at least 8 bytes.
pub update_employee_password-unguarded :
    (security : Security) (role : Role) (emp_id : ℕ) (new_password hashed : Text) (s : Store)
    (target : Person)
    → is_admin_or_hr role ≡ false
    → ltb (length new_password) 8 ≡ false
    → security.hash_password new_password ≡ some hashed
    → find (is_person emp_id) s.people ≡ some target
    → update_employee_password security role emp_id new_password (record { db = s; faults = [] })
      ≡ (
        ok tt,
        record { db = update_person emp_id (λ p. record p { password = hashed }) s; faults = [] },
      )
unfolding update_employee_password update_password get_employee_by_id select exec statement
update_employee_password-unguarded security role emp_id new_password hashed s target other long hash
      found =
    ground arith
