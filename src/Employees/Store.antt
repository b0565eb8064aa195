-- ===== src/Employees/Store.antt =====
-- The employee table beside the accounts and the equipment, and the statements over it.
use leave_management_system.Prelude.{
  ℕ, ◌+◌, Bool, true, false, ◌&&◌, not, List, [], ◌∷◌, Option, none, some, String, ◌==◌, find, any,
  update, map, keep, length, ltb, same, if◌then◌else◌,
}
use leave_management_system.Models.Role.{Role, role_eq}
use leave_management_system.Database.{
  Action, plain, zoom, pure, fail, or_fail, select, exec, statement, ◌>>=◌, ◌>>◌,
}
use leave_management_system.Tables.{Calendar}
use leave_management_system.Accounts.Store.{Employee, Store as Accounts}
use leave_management_system.Equipment.Defs.{Store as Inventory}

-- A text of bytes.
abbrev pub Text : Type 0
Text = List ℕ

abbrev pub text_eq : Text → Text → Bool
text_eq [] [] = true
text_eq (a ∷ s) (b ∷ t) = a == b && text_eq s t
text_eq _ _ = false

-- A row of Tbl_Employee. Dates are day numbers; the status is active or deactive.
pub record Person : Type 0 where
  pub id : ℕ
  pub full_name : Text
  pub email : Text
  pub role : Role
  pub password : Text
  pub salary : Option ℕ
  pub manager_id : Option ℕ
  pub designation_id : Option ℕ
  pub joining_date : Option ℕ
  pub birth_date : Option ℕ
  pub ending_date : Option ℕ
  pub is_active : Bool

-- `accounts.employees` and `people` are the same table: the rows that a statement on the accounts
-- reads are those of `people`.
pub record Store : Type 0 where
  pub people : List Person
  pub roles : List Role
  pub designations : List ℕ
  pub accounts : Accounts
  pub inventory : Inventory
  pub next_id : ℕ

abbrev pub no_rows : String
no_rows = "sql: no rows in result set"

abbrev pub is_person : ℕ → Person → Bool
is_person id p = p.id == id

module _ (cal : Calendar) where
  abbrev pub year_and_month : Option ℕ → Option (ℕ × ℕ)
  year_and_month none = none
  year_and_month (some d) = some (cal.year_of d, cal.month_of d)

  abbrev pub as_employee : Person → Employee
  as_employee p = record {
    id = p.id;
    role = p.role;
    joining = year_and_month p.joining_date;
    is_active = p.is_active;
  }

  abbrev pub books : Store → Accounts
  books s = record s.accounts { employees = map as_employee s.people }

  -- A call on the accounts.
  abbrev pub on_accounts : {A : Type 0} → Action Accounts A → Action Store A
  on_accounts m = zoom books (λ t s. record s { accounts = t }) m

-- A call on the equipment.
abbrev pub on_inventory : {A : Type 0} → Action Inventory A → Action Store A
on_inventory m = zoom (λ s. s.inventory) (λ t s. record s { inventory = t }) m

unfoldable pub get_employee_by_id : ℕ → Action Store Person
get_employee_by_id emp_id = do
  row ← select (λ s. find (is_person emp_id) s.people)
  or_fail row (plain no_rows)

unfoldable pub get_employee_role : ℕ → Action Store Role
get_employee_role employee_id = do
  row ← select (λ s. find (is_person employee_id) s.people)
  p ← or_fail row (plain no_rows)
  pure p.role

abbrev pub person_and_reports : ℕ → Store → Option Person × ℕ
person_and_reports emp_id s = (
  find (is_person emp_id) s.people,
  length (keep (λ p. same p.manager_id (some emp_id)) s.people),
)

-- The role, and whether anyone has the employee as manager.
unfoldable pub get_employee_current_role_and_manager_status : ℕ → Action Store (Role × Bool)
get_employee_current_role_and_manager_status emp_id = do
  row ← select (person_and_reports emp_id)
  p ← or_fail row.0 (plain no_rows)
  pure (p.role, ltb 0 row.1)

abbrev pub has_email : Text → Store → Bool
has_email email s = any (λ p. text_eq p.email email) s.people

unfoldable pub check_email_exists : Text → Action Store Bool
check_email_exists email = select (has_email email)

unfoldable pub get_role_id : Role → Action Store (Unit {0})
get_role_id role = do
  found ← select (λ s. any (role_eq role) s.roles)
  if found then pure tt else fail (plain no_rows)

unfoldable pub get_designation_by_id : ℕ → Action Store (Unit {0})
get_designation_by_id id = do
  found ← select (λ s. any (λ d. d == id) s.designations)
  if found then pure tt else fail (plain no_rows)

-- A statement that a constraint of the tables may refuse.
abbrev pub checked : String → Bool → Action Store (Unit {0})
checked message refused = if refused then fail (plain message) else pure tt

abbrev pub unique_email : String
unique_email = "pq: duplicate key value violates unique constraint \"tbl_employee_email_key\""

abbrev pub new_person : ℕ → Text → Text → Role → Text → Option ℕ → Option ℕ → Person
new_person id full_name email role password salary joining = record {
  id = id;
  full_name = full_name;
  email = email;
  role = role;
  password = password;
  salary = salary;
  manager_id = none;
  designation_id = none;
  joining_date = joining;
  birth_date = none;
  ending_date = none;
  is_active = true;
}

-- Whether the address is taken, and the id of the new row.
abbrev pub try_insert : (ℕ → Person) → Text → Store → (Bool × ℕ) × Store
try_insert row email s = if has_email email s then ((true, s.next_id), s) else (
  (false, s.next_id),
  record s { people = row s.next_id ∷ s.people; next_id = s.next_id + 1 },
)

-- `RETURNING id`
unfoldable pub insert_employee : Text → Text → Role → Text → Option ℕ → Option ℕ → Action Store ℕ
insert_employee full_name email role password salary joining = do
  taken ←
      statement
        (try_insert (λ id. new_person id full_name email role password salary joining) email)
  checked unique_email taken.0
  pure taken.1

abbrev pub update_person : ℕ → (Person → Person) → Store → Store
update_person id f s = record s { people = update (is_person id) f s.people }

-- A role that is in no row gives NULL, which the column does not take.
abbrev pub try_role : ℕ → Role → Store → Option String × Store
try_role emp_id new_role s =
    if not (any (is_person emp_id) s.people)
    then (some no_rows, s)
    else if not (any (role_eq new_role) s.roles)
    then (some "pq: null value in column \"role_id\" violates not-null constraint", s)
    else (none, update_person emp_id (λ p. record p { role = new_role }) s)

abbrev pub unless_message : Option String → Action Store (Unit {0})
unless_message none = pure tt
unless_message (some m) = fail (plain m)

unfoldable pub update_employee_role_row : ℕ → Role → Action Store (Unit {0})
update_employee_role_row emp_id new_role = statement (try_role emp_id new_role) >>= unless_message

unfoldable pub update_manager : ℕ → ℕ → Action Store (Unit {0})
update_manager emp_id manager_id =
    exec (update_person emp_id (λ p. record p { manager_id = some manager_id }))

unfoldable pub update_designation : ℕ → Option ℕ → Action Store (Unit {0})
update_designation emp_id designation_id =
    exec (update_person emp_id (λ p. record p { designation_id = designation_id }))

unfoldable pub update_password : ℕ → Text → Action Store (Unit {0})
update_password emp_id hashed_password =
    exec (update_person emp_id (λ p. record p { password = hashed_password }))

-- The columns that `UpdateEmployeeInfo` and `UpdateEmployeeInfoTx` set.
pub record Profile : Type 0 where
  pub full_name : Text
  pub email : Text
  pub salary : Option ℕ
  pub joining_date : Option ℕ
  pub birth_date : Option ℕ
  pub ending_date : Option ℕ

abbrev pub set_profile : Profile → Person → Person
set_profile v p = record p {
  full_name = v.full_name;
  email = v.email;
  salary = v.salary;
  joining_date = v.joining_date;
  birth_date = v.birth_date;
  ending_date = v.ending_date;
}

-- Another employee has the address.
abbrev pub is_taken : ℕ → Text → Person → Bool
is_taken emp_id email p = text_eq p.email email && not (p.id == emp_id)

abbrev pub try_profile : ℕ → Profile → Store → Bool × Store
try_profile emp_id v s =
    if any (is_taken emp_id v.email) s.people
    then (true, s)
    else (false, update_person emp_id (set_profile v) s)

unfoldable pub update_profile : ℕ → Profile → Action Store (Unit {0})
update_profile emp_id v = statement (try_profile emp_id v) >>= checked unique_email
