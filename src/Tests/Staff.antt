-- ===== src/Tests/Staff.antt =====
-- The properties of requests about employees, at concrete inputs.
use leave_management_system.Prelude.{
  ℕ, ◌≡◌, ◌⊎◌, refl, true, false, ◌&&◌, inr, List, [], ◌∷◌, none, some, find,
}
use leave_management_system.Models.Role.{Role, role_eq}
use leave_management_system.Models.Leave.{is_early_leave, is_true}
use leave_management_system.Database.{ok, select, exec, statement, execute_transaction}
use leave_management_system.Accounts.Store.{Store as Accounts, create_leave_balance}
use leave_management_system.Equipment.Defs.{Equipment, Assignment, Store as Inventory}
use leave_management_system.Employees.Store.{
  Person, Store, is_person, update_person, new_person, get_employee_by_id, get_employee_role,
  check_email_exists, get_role_id, insert_employee, update_manager,
}
use leave_management_system.Employees.Requests.{
  Security, EmployeeInput, is_permitted, is_admin_or_hr, create_employee, insert_with_balances,
  allocate_each, check_manager, update_employee_manager, update_employee_role,
  delete_employee_status,
}
use leave_management_system.Employees.Profile.{
  InfoInput, update_employee_info, update_employee_password,
}
use leave_management_system.Employees.Superiors.{Call, Request}
use leave_management_system.Employees.Rights.{
  IsManagedBy, update_employee_manager_sound, update_employee_password-unguarded,
}
use leave_management_system.Employees.Ledgers.{AreBalanced, employee_requests-AreBalanced}
use leave_management_system.Employees.Allocation.{IsHired, create_employee-IsHired}
use leave_management_system.Employees.Returns.{IsAccounted, delete_employee_status-IsAccounted}
use leave_management_system.Tests.Inputs.{calendar, running, leave_type, balance}

abbrev row : ℕ → Role → List ℕ → Person
row id role name = new_person id name name role (1 ∷ []) (some 0) (some 700)

abbrev accounts : Accounts
accounts = record {
  balances = balance ∷ [];
  leave_types = leave_type ∷ [];
  employees = [];
  adjustments = [];
  accruals = [];
}

abbrev laptops : Equipment
laptops = record {
  id = 4;
  name = "Laptop";
  category_id = 1;
  is_shared = false;
  price = 900;
  total_quantity = 5;
  remaining_quantity = 3;
}

abbrev loan : Assignment
loan = record { id = 6; equipment_id = 4; employee_id = 7; assigned_by = 8; quantity = 2 }

abbrev stock : Inventory
stock = record { equipment = laptops ∷ []; assignments = loan ∷ []; next_id = 9 }

abbrev company : Store
company = record {
  people =
      row 1 Role.super_admin (1 ∷ [])
      ∷ row 2 Role.hr (2 ∷ [])
      ∷ row 7 Role.employee (7 ∷ [])
      ∷ row 8 Role.manager (8 ∷ [])
      ∷ [];
  roles = Role.super_admin ∷ Role.hr ∷ Role.employee ∷ Role.manager ∷ Role.intern ∷ [];
  designations = [];
  accounts = accounts;
  inventory = stock;
  next_id = 10;
}

abbrev security : Security
security = record {
  generate_secure_password = some (65 ∷ 66 ∷ []);
  hash_password = λ p. some (0 ∷ p);
}

abbrev newcomer : EmployeeInput
newcomer = record {
  full_name = 9 ∷ [];
  email = 9 ∷ [];
  role = Role.employee;
  salary = none;
  joining_date = some 740;
}

abbrev new_salary : InfoInput
new_salary = record {
  full_name = none;
  email = none;
  salary = some 50;
  joining_date = none;
  birth_date = none;
  ending_date = none;
}

-- HR promotes, hires and tries to change the SUPERADMIN.
abbrev calls : List Call
calls =
    record { user_id = 2; user_role = Role.hr; request = Request.role 7 Role.intern }
    ∷ record { user_id = 2; user_role = Role.hr; request = Request.create newcomer }
    ∷ record { user_id = 2; user_role = Role.hr; request = Request.info 1 new_salary }
    ∷ []

update_employee_manager_sound_example :
    (is_permitted Role.hr ≡ true)
    × IsManagedBy 7 8 (find (is_person 8) company.people)
    × ((update_employee_manager Role.hr 2 7 8 (running company)).1.db
        ≡ update_person 7 (λ p. record p { manager_id = some 8 }) company)
unfolding update_employee_manager check_manager update_manager get_employee_role get_employee_by_id
    select exec statement
update_employee_manager_sound_example =
    update_employee_manager_sound Role.hr 2 7 8 (running company) refl

update_employee_password-unguarded_example :
    update_employee_password security Role.employee 1
      (1 ∷ 2 ∷ 3 ∷ 4 ∷ 5 ∷ 6 ∷ 7 ∷ 8 ∷ [])
      (running company)
    ≡ (
      ok tt,
      running (
          update_person 1
            (λ p. record p { password = 0 ∷ 1 ∷ 2 ∷ 3 ∷ 4 ∷ 5 ∷ 6 ∷ 7 ∷ 8 ∷ [] })
            company),
    )
update_employee_password-unguarded_example =
    update_employee_password-unguarded security Role.employee 1 (1 ∷ 2 ∷ 3 ∷ 4 ∷ 5 ∷ 6 ∷ 7 ∷ 8 ∷ [])
      (0 ∷ 1 ∷ 2 ∷ 3 ∷ 4 ∷ 5 ∷ 6 ∷ 7 ∷ 8 ∷ []) company (row 1 Role.super_admin (1 ∷ [])) refl refl
      refl refl

employee_requests-AreBalanced_example :
    AreBalanced (create_employee calendar security Role.hr newcomer (running company)).1.db
    × AreBalanced (update_employee_role calendar Role.hr 2 7 Role.intern (running company)).1.db
    × AreBalanced (update_employee_info calendar [] Role.hr 2 7 new_salary (running company)).1.db
employee_requests-AreBalanced_example =
    employee_requests-AreBalanced calendar security [] Role.hr 2 7 newcomer Role.intern new_salary
      (running company) (refl, tt)

create_employee-IsHired_example :
    (is_permitted Role.hr ≡ true)
    × ((is_admin_or_hr Role.hr && role_eq newcomer.role Role.super_admin) ≡ false)
    × (security.generate_secure_password ≡ some (65 ∷ 66 ∷ []))
    × (hash : List ℕ) × (security.hash_password (65 ∷ 66 ∷ []) ≡ some hash)
    × (IsHired calendar newcomer hash company
          (create_employee calendar security Role.hr newcomer (running company)).1.db
        ⊎ ((create_employee calendar security Role.hr newcomer (running company)).1.db ≡ company))
unfolding create_employee insert_with_balances allocate_each check_email_exists get_role_id
    insert_employee create_leave_balance execute_transaction select statement is_early_leave is_true
create_employee-IsHired_example =
    create_employee-IsHired calendar security Role.hr newcomer (running company) (65 ∷ 66 ∷ []) refl

delete_employee_status-IsAccounted_example :
    IsAccounted 4 (delete_employee_status Role.hr 7 (running company)).1.db.inventory
delete_employee_status-IsAccounted_example =
    delete_employee_status-IsAccounted 4 Role.hr 7 (running company) (inr refl, (tt, tt))
