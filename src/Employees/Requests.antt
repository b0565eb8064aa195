-- ===== src/Employees/Requests.antt =====
-- The handlers that create an employee and change a role, a status, a manager or a designation,
-- from their role checks on. Requests are parsed already.
use leave_management_system.Prelude.{
  ℕ, Bool, ◌&&◌, ◌||◌, not, List, [], ◌∷◌, Option, none, some, ◌==◌, any, if◌then◌else◌,
}
use leave_management_system.Models.Role.{Role, role_eq}
use leave_management_system.Models.Leave.{LeaveType, is_early_leave}
use leave_management_system.Database.{
  Action, app, pure, fail, or_fail, answer, wrap, annotate, select, exec, execute_transaction,
  ◌>>=◌, ◌>>◌,
}
use leave_management_system.Tables.{Calendar, current_year}
use leave_management_system.Leave.Days.{calculate_prorated_leave}
use leave_management_system.Accounts.Store.{create_leave_balance}
use leave_management_system.Accounts.Entitlement.{
  entitlement_of, half_days, adjust_leave_balances_for_role_change,
}
use leave_management_system.Equipment.Defs.{Assignment, remove_equipment}
use leave_management_system.Employees.Store.{
  Text, Store, on_accounts, on_inventory, get_employee_by_id, get_employee_role,
  get_employee_current_role_and_manager_status, check_email_exists, get_role_id,
  get_designation_by_id, insert_employee, update_person, update_employee_role_row, update_manager,
  update_designation,
}

-- SUPERADMIN, ADMIN or HR.
abbrev pub is_permitted : Role → Bool
is_permitted role = role_eq role Role.super_admin || role_eq role Role.admin || role_eq role Role.hr

-- `role == "ADMIN" || role == "HR"`
abbrev pub is_admin_or_hr : Role → Bool
is_admin_or_hr role = role_eq role Role.admin || role_eq role Role.hr

-- The calls of pkg/security: a new password, and the hash of a password, where they succeed.
pub record Security : Type 0 where
  pub generate_secure_password : Option Text
  pub hash_password : Text → Option Text

pub record EmployeeInput : Type 0 where
  pub full_name : Text
  pub email : Text
  pub role : Role
  pub salary : Option ℕ
  pub joining_date : Option ℕ

abbrev pub or_zero_salary : Option ℕ → Option ℕ
or_zero_salary none = some 0
or_zero_salary (some n) = some n

module _ (cal : Calendar) where
  -- `input.JoiningDate != nil && input.JoiningDate.Year() == currentYear`
  abbrev pub initial_days : LeaveType → Role → Option ℕ → ℕ
  initial_days lt role none = entitlement_of lt role
  initial_days lt role (some d) =
      if cal.year_of d == current_year cal
      then calculate_prorated_leave (entitlement_of lt role) (cal.month_of d)
      else entitlement_of lt role

  -- The loop over the leave types.
  unfoldable pub allocate_each : ℕ → Role → Option ℕ → List LeaveType → Action Store (Unit {0})
  allocate_each id role joining [] = pure tt
  allocate_each id role joining (lt ∷ leave_types) = do
    if is_early_leave lt
        then pure tt
        else wrap 500 "failed to allocate leave balance: " (
            on_accounts cal (
              create_leave_balance id lt.id (current_year cal)
                (half_days (initial_days lt role joining))))
    allocate_each id role joining leave_types

  -- The transaction of `CreateEmployee`.
  unfoldable pub insert_with_balances : EmployeeInput → Text → Action Store (Unit {0})
  insert_with_balances input hash = do
    id ← answer (app 500 "failed to create employee") (
        insert_employee input.full_name input.email input.role hash (or_zero_salary input.salary)
          input.joining_date)
    leave_types ←
        answer (app 500 "failed to allocate leave balance: ") (select (λ s. s.accounts.leave_types))
    allocate_each id input.role input.joining_date leave_types

  -- The answer is the password.
  unfoldable pub create_employee : Security → Role → EmployeeInput → Action Store Text
  create_employee security role input =
      if not (is_permitted role)
      then fail (app 401 "not permitted")
      else if is_admin_or_hr role && role_eq input.role Role.super_admin
      then fail (app 403 "HR and ADMIN cannot create SUPERADMIN users")
      else (wrap 500 "" (check_email_exists input.email) >>= λ exists.
          if exists then fail (app 400 "email already exists") else (do
            answer (app 400 "role not found") (get_role_id input.role)
            generated_password ←
                or_fail security.generate_secure_password
                  (app 500 "failed to generate secure password")
            hash ←
                or_fail (security.hash_password generated_password)
                  (app 500 "failed to hash password")
            wrap 500 "" (execute_transaction (insert_with_balances input hash))
            pure generated_password))

  -- The transaction of `UpdateEmployeeRole`.
  unfoldable pub change_role : ℕ → Role → Action Store (Unit {0})
  change_role emp_id new_role = do
    old_role ← wrap 500 "failed to fetch employee role: " (get_employee_role emp_id)
    wrap 500 "failed to update role: " (update_employee_role_row emp_id new_role)
    wrap 500 "failed to adjust leave balances for role change: " (
        on_accounts cal
          (adjust_leave_balances_for_role_change emp_id old_role new_role (current_year cal)))

  -- The answer is the old role.
  unfoldable pub update_employee_role : Role → ℕ → ℕ → Role → Action Store Role
  update_employee_role role current_user_id emp_id new_role =
      if not (is_permitted role)
      then fail (app 401 "not permitted")
      else if is_admin_or_hr role && current_user_id == emp_id
      then fail
          (app 403 "ADMIN and HR cannot change their own role. Only SUPERADMIN can change roles.")
      else (wrap 500 "failed to fetch employee role: "
            (get_employee_current_role_and_manager_status emp_id)
          >>= λ current.
              if is_admin_or_hr role && role_eq current.0 Role.super_admin
              then fail (app 403 "HR and ADMIN cannot modify SUPERADMIN users")
              else if is_admin_or_hr role && role_eq new_role Role.super_admin
              then fail (app 403 "HR and ADMIN cannot promote users to SUPERADMIN")
              else if role_eq current.0 new_role
              then fail (app 400 "employee already has this role")
              else if current.1 && not (role_eq new_role Role.manager)
              then fail
                  (app 403 "cannot change role of employee who is a manager with subordinates")
              else (do
                wrap 500 "" (execute_transaction (change_role emp_id new_role))
                pure current.0))

-- `SELECT DISTINCT equipment_id`
abbrev pub distinct_items : ℕ → List Assignment → List ℕ
distinct_items employee_id [] = []
distinct_items employee_id (a ∷ assignments) =
    let rest = distinct_items employee_id assignments in
    if a.employee_id == employee_id && not (any (λ i. i == a.equipment_id) rest)
    then a.equipment_id ∷ rest
    else rest

unfoldable pub remove_each : ℕ → List ℕ → Action Store (Unit {0})
remove_each employee_id [] = pure tt
remove_each employee_id (equipment_id ∷ items) = do
  on_inventory
      (remove_equipment (record { employee_id = employee_id; equipment_id = equipment_id }))
  remove_each employee_id items

unfoldable pub restore_employee_equipment : ℕ → Action Store (Unit {0})
restore_employee_equipment employee_id = do
  items ←
      annotate "failed to fetch assignments: "
        (select (λ s. distinct_items employee_id s.inventory.assignments))
  remove_each employee_id items

-- The statement pair of the repository's `DeleteEmployeeStatus`; the answer is whether the employee
-- is active now.
unfoldable pub toggle_status : ℕ → Action Store Bool
toggle_status id = do
  p ← annotate "employee not found: " (get_employee_by_id id)
  exec (update_person id (λ q. record q { is_active = not p.is_active }))
  if p.is_active then restore_employee_equipment id else pure tt
  pure (not p.is_active)

unfoldable pub delete_employee_status : Role → ℕ → Action Store Bool
delete_employee_status role emp_id =
    if not (is_permitted role)
    then fail (app 401 "not permitted")
    else (answer (app 404 "employee not found") (get_employee_by_id emp_id) >>= λ target.
        if role_eq role Role.admin && role_eq target.role Role.super_admin
        then fail (app 403 "HR and ADMIN cannot modify SUPERADMIN users")
        else wrap 500 "" (execute_transaction (toggle_status emp_id)))

-- The manager's role and status are read one after the other.
unfoldable pub check_manager : ℕ → Action Store (Unit {0})
check_manager manager_id = do
  manager_role ← answer (app 404 "manager not found") (get_employee_role manager_id)
  manager ← answer (app 403 "manager is deactivated") (get_employee_by_id manager_id)
  if not manager.is_active
      then fail (app 403 "manager is deactivated")
      else if not (role_eq manager_role Role.manager)
      then fail (app 400 "assigned employee is not a manager")
      else pure tt

unfoldable pub update_employee_manager : Role → ℕ → ℕ → ℕ → Action Store (Unit {0})
update_employee_manager role current_user_id emp_id manager_id =
    if not (is_permitted role)
    then fail (app 401 "not permitted")
    else (answer (app 404 "employee not found") (get_employee_by_id emp_id) >>= λ target.
        if is_admin_or_hr role && role_eq target.role Role.super_admin
        then fail (app 403 "HR and ADMIN cannot modify SUPERADMIN users")
        else if emp_id == manager_id
        then fail (app 400 "cannot assign employee as their own manager")
        else if current_user_id == manager_id && not (role_eq role Role.super_admin)
        then fail (
            app 403
              "you cannot assign yourself as a manager to others. Only SUPERADMIN can do this.")
        else (do
          check_manager manager_id
          wrap 500 "failed to update manager: " (update_manager emp_id manager_id)))

-- A designation that is given must exist.
abbrev pub check_designation : Option ℕ → Action Store (Unit {0})
check_designation none = pure tt
check_designation (some id) = answer (app 404 "designation not found") (get_designation_by_id id)

unfoldable pub update_employee_designation : Role → ℕ → Option ℕ → Action Store (Unit {0})
update_employee_designation role emp_id designation_id =
    if not (is_permitted role)
    then fail (app 403 "only ADMIN, SUPERADMIN, and HR can assign designations")
    else (answer (app 404 "employee not found") (get_employee_by_id emp_id) >>= λ target.
        if is_admin_or_hr role && role_eq target.role Role.super_admin
        then fail (app 403 "HR and ADMIN cannot modify SUPERADMIN users")
        else (do
          check_designation designation_id
          wrap 500 "failed to update designation: " (update_designation emp_id designation_id)))
