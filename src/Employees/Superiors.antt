-- ===== src/Employees/Superiors.antt =====
-- Requests about employees, one after the other, as routes/router.go passes them to the handlers.
use leave_management_system.Prelude.{ℕ, ◌≡◌, true, List, [], ◌∷◌, Option}
use leave_management_system.Models.Role.{Role, role_eq}
use leave_management_system.Database.{World}
use leave_management_system.Tables.{Calendar}
use leave_management_system.Employees.Store.{Text, Store}
use leave_management_system.Employees.Requests.{
  is_admin_or_hr, Security, EmployeeInput, create_employee, update_employee_role,
  delete_employee_status, update_employee_manager, update_employee_designation,
}
use leave_management_system.Employees.Profile.{
  InfoInput, update_employee_info, update_employee_password,
}

pub data Request : Type 0 where
  create : EmployeeInput → Request
  info : ℕ → InfoInput → Request
  password : ℕ → Text → Request
  role : ℕ → Role → Request
  manager : ℕ → ℕ → Request
  designation : ℕ → Option ℕ → Request
  status : ℕ → Request

-- Who asks, from the token, and for what.
pub record Call : Type 0 where
  pub user_id : ℕ
  pub user_role : Role
  pub request : Request

module _ (cal : Calendar) (security : Security) (domain : Text) where
  -- The tables and the schedule after the handler has answered.
  unfoldable pub serve : ℕ → Role → Request → World Store → World Store
  serve user r (create input) w = (create_employee cal security r input w).1
  serve user r (info id input) w = (update_employee_info cal domain r user id input w).1
  serve user r (password id new_password) w =
      (update_employee_password security r id new_password w).1
  serve user r (role id new_role) w = (update_employee_role cal r user id new_role w).1
  serve user r (manager id manager_id) w = (update_employee_manager r user id manager_id w).1
  serve user r (designation id designation_id) w =
      (update_employee_designation r id designation_id w).1
  serve user r (status id) w = (delete_employee_status r id w).1

  unfoldable pub serve_all : List Call → World Store → World Store
  serve_all [] w = w
  serve_all (c ∷ calls) w = serve_all calls (serve c.user_id c.user_role c.request w)

  -- A call of ADMIN or HR, which asks for a change of status only as ADMIN.
  abbrev pub IsLower : Role → Request → Type 0
  IsLower r (status id) = role_eq r Role.admin ≡ true
  IsLower r _ = is_admin_or_hr r ≡ true
