-- ===== src/Employees/Profile.antt =====
-- `UpdateEmployeeInfo` and `UpdateEmployeePassword`. Requests are parsed already; the domain of
-- company addresses comes from the environment, empty where it is not set.
use leave_management_system.Prelude.{
  ℕ, Bool, true, false, ◌&&◌, ◌||◌, not, [], ◌∷◌, Option, none, some, ◌==◌, ltb, leb, length,
  if◌then◌else◌,
}
use leave_management_system.Models.Role.{Role, role_eq}
use leave_management_system.Database.{
  Action, app, pure, fail, or_fail, answer, wrap, execute_transaction, ◌>>=◌, ◌>>◌,
}
use leave_management_system.Tables.{Calendar, current_year}
use leave_management_system.Accounts.Entitlement.{
  recalculate_leave_balances_for_joining_date_change,
}
use leave_management_system.Employees.Store.{
  Text, text_eq, Person, Profile, Store, year_and_month, on_accounts, get_employee_by_id,
  get_employee_role, check_email_exists, update_profile, update_password,
}
use leave_management_system.Employees.Requests.{is_permitted, is_admin_or_hr, Security}

-- What a request changes; what it does not name stays.
pub record InfoInput : Type 0 where
  pub full_name : Option Text
  pub email : Option Text
  pub salary : Option ℕ
  pub joining_date : Option ℕ
  pub birth_date : Option ℕ
  pub ending_date : Option ℕ

abbrev pub is_given : {A : Type 0} → Option A → Bool
is_given none = false
is_given (some a) = true

abbrev pub or_old : {A : Type 0} → Option A → A → A
or_old none old = old
or_old (some a) old = a

abbrev pub or_same : Option ℕ → Option ℕ → Option ℕ
or_same none old = old
or_same (some n) old = some n

-- The values that are written.
abbrev pub final_profile : InfoInput → Person → Profile
final_profile input p = record {
  full_name = or_old input.full_name p.full_name;
  email = or_old input.email p.email;
  salary = or_same input.salary p.salary;
  joining_date = or_same input.joining_date p.joining_date;
  birth_date = or_same input.birth_date p.birth_date;
  ending_date = or_same input.ending_date p.ending_date;
}

-- `strings.HasSuffix(s, suffix)`
abbrev pub has_suffix : Text → Text → Bool
has_suffix suffix [] = text_eq suffix []
has_suffix suffix (c ∷ s) = text_eq suffix (c ∷ s) || has_suffix suffix s

abbrev pub is_empty : Text → Bool
is_empty [] = true
is_empty (c ∷ s) = false

-- A birth date that is not before today.
abbrev pub is_unborn : ℕ → Option ℕ → Bool
is_unborn today none = false
is_unborn today (some d) = leb today d

-- Anything but the name.
abbrev pub touches_more : InfoInput → Bool
touches_more input =
    is_given input.email
    || is_given input.salary
    || is_given input.joining_date
    || is_given input.birth_date
    || is_given input.ending_date

-- An address that is given.
unfoldable pub check_email : Text → Person → Option Text → Action Store (Unit {0})
check_email domain p none = pure tt
check_email domain p (some email) =
    if not (is_empty domain) && not (has_suffix (b'@' ∷ domain) email)
    then fail (app 400 "email must end with the company's domain")
    else if text_eq p.email email
    then pure tt
    else (do
      exists ← wrap 500 "failed to check email: " (check_email_exists email)
      if exists then fail (app 400 "email already exists") else pure tt)

module _ (cal : Calendar) where
  -- The transaction for a new joining date.
  unfoldable pub rejoin : ℕ → Profile → Action Store (Unit {0})
  rejoin emp_id v = do
    wrap 500 "failed to update employee: " (update_profile emp_id v)
    emp_role ← wrap 500 "failed to fetch employee role: " (get_employee_role emp_id)
    wrap 500 "failed to recalculate leave balances: " (
        on_accounts cal (
          recalculate_leave_balances_for_joining_date_change emp_id
            (year_and_month cal v.joining_date) emp_role (current_year cal)))

  unfoldable pub write_profile : ℕ → InfoInput → Profile → Action Store (Unit {0})
  write_profile emp_id input v =
      if is_given input.joining_date
      then wrap 500 "" (execute_transaction (rejoin emp_id v))
      else wrap 500 "failed to update employee: " (update_profile emp_id v)

  unfoldable pub update_employee_info : Text → Role → ℕ → ℕ → InfoInput → Action Store (Unit {0})
  update_employee_info domain role current_user_id emp_id input =
      answer (app 404 "employee not found") (get_employee_by_id emp_id) >>= λ existing.
      if is_admin_or_hr role && role_eq existing.role Role.super_admin
      then fail (app 403 "HR and ADMIN cannot modify SUPERADMIN users")
      else if is_unborn cal.today input.birth_date
      then fail (app 400 "birth_date must be a past date")
      else if touches_more input && not (is_permitted role)
      then fail (
          app 403
            "only SUPERADMIN aADMIN , HR can update email, salary, joining date, and ending date")
      else if is_given input.full_name && not (current_user_id == emp_id) && not (is_permitted role)
      then fail (app 403 "you can only update your own name")
      else (do
        check_email domain existing input.email
        write_profile emp_id input (final_profile input existing))

unfoldable pub update_employee_password : Security → Role → ℕ → Text → Action Store (Unit {0})
update_employee_password security role emp_id new_password =
    if ltb (length new_password) 8
    then fail (app 400 "password must be at least 8 characters long")
    else (answer (app 404 "employee not found") (get_employee_by_id emp_id) >>= λ existing.
        if is_admin_or_hr role && role_eq existing.role Role.super_admin
        then fail (app 403 "HR and ADMIN cannot modify SUPERADMIN users")
        else (do
          hashed_password ←
              or_fail (security.hash_password new_password) (app 500 "failed to hash password: ")
          wrap 500 "failed to update password: " (update_password emp_id hashed_password)))
