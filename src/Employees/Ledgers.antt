-- ===== src/Employees/Ledgers.antt =====
-- The balances under requests about employees.
use leave_management_system.Prelude.{
  ℕ, ◌≡◌, refl, ◌&&◌, not, List, [], ◌∷◌, Option, none, some, ◌==◌, inl, inr, Bool-cases, arith,
}
use leave_management_system.Models.Role.{Role, role_eq}
use leave_management_system.Models.Leave.{LeaveType, is_early_leave}
use leave_management_system.Database.{
  World, Action, app, pure, or_fail, select, statement, wrap, answer, execute_transaction, ◌>>◌,
}
use leave_management_system.Database.Laws.{Keeps, >>=-Keeps, execute_transaction-Keeps}
use leave_management_system.Database.Endings.{
  statement-Keeps, select-Keeps, or_fail-Keeps, guard-Keeps, reads-Keeps,
}
use leave_management_system.Tables.{Calendar, current_year}
use leave_management_system.Accounts.Store.{create_leave_balance}
use leave_management_system.Accounts.Entitlement.{
  half_days, adjust_leave_balances_for_role_change,
  recalculate_leave_balances_for_joining_date_change,
}
use leave_management_system.Accounts.Books.{
  InBalance, role_change-Keeps, employee_change-InBalance, create_leave_balance-Keeps,
}
use leave_management_system.Employees.Store.{
  Text, Person, Profile, Store, books, on_accounts, get_employee_by_id, get_employee_role,
  new_person, has_email, try_insert, insert_employee, checked, unique_email, check_email_exists,
  get_role_id, get_employee_current_role_and_manager_status, try_role, unless_message,
  update_employee_role_row, try_profile, update_profile, year_and_month,
}
use leave_management_system.Employees.Requests.{
  is_permitted, is_admin_or_hr, Security, EmployeeInput, or_zero_salary, initial_days,
  allocate_each, insert_with_balances, create_employee, change_role, update_employee_role,
}
use leave_management_system.Employees.Profile.{
  InfoInput, is_given, final_profile, is_unborn, touches_more, check_email, rejoin, write_profile,
  update_employee_info,
}

-- Closing + used is opening + adjusted, in every balance row.
abbrev pub AreBalanced : Store → Type 0
AreBalanced s = InBalance s.accounts

on_accounts-Keeps :
    {A : Type 0} (cal : Calendar) (m : Action _ A)
    → Keeps InBalance m
    → Keeps AreBalanced (on_accounts cal m)
on_accounts-Keeps cal m k w h = k (record { db = books cal w.db; faults = w.faults }) h

role_row-Keeps :
    (id : ℕ) (new_role : Role) → Keeps AreBalanced (update_employee_role_row id new_role)
unfolding update_employee_role_row
role_row-Keeps id new_role =
    >>=-Keeps AreBalanced (statement (try_role id new_role)) unless_message
      (statement-Keeps AreBalanced (try_role id new_role) (λ s h. ground arith))
      (λ refusal w h. ground arith)

profile-Keeps : (id : ℕ) (v : Profile) → Keeps AreBalanced (update_profile id v)
unfolding update_profile
profile-Keeps id v =
    >>=-Keeps AreBalanced (statement (try_profile id v)) (checked unique_email)
      (statement-Keeps AreBalanced (try_profile id v) (λ s h. ground arith))
      (λ refused. guard-Keeps AreBalanced refused _ (pure tt) (λ w h. h))

role-db : (id : ℕ) (w : World Store) → (get_employee_role id w).1.db ≡ w.db
unfolding get_employee_role select statement
role-db id w = ground arith

current-db :
    (id : ℕ) (w : World Store) → (get_employee_current_role_and_manager_status id w).1.db ≡ w.db
unfolding get_employee_current_role_and_manager_status select statement
current-db id w = ground arith

person-db : (id : ℕ) (w : World Store) → (get_employee_by_id id w).1.db ≡ w.db
unfolding get_employee_by_id select statement
person-db id w = ground arith

email-db :
    (domain : Text) (p : Person) (email : Option Text) (w : World Store)
    → (check_email domain p email w).1.db ≡ w.db
unfolding check_email check_email_exists select statement
email-db domain p none w = refl
email-db domain p (some email) w = ground arith

role_id-db : (role : Role) (w : World Store) → (get_role_id role w).1.db ≡ w.db
unfolding get_role_id select statement
role_id-db role w = ground arith

module _ (cal : Calendar) where
  change_role-Keeps : (id : ℕ) (new_role : Role) → Keeps AreBalanced (change_role cal id new_role)
  unfolding change_role
  change_role-Keeps id new_role =
      >>=-Keeps AreBalanced (wrap 500 "failed to fetch employee role: " (get_employee_role id)) _
        (reads-Keeps AreBalanced (get_employee_role id) (role-db id))
        (λ old.
          >>=-Keeps AreBalanced
            (wrap 500 "failed to update role: " (update_employee_role_row id new_role)) _
            (role_row-Keeps id new_role)
            (λ _.
              on_accounts-Keeps cal
                (adjust_leave_balances_for_role_change id old new_role (current_year cal))
                (role_change-Keeps id old new_role (current_year cal))))

  role-Keeps :
      (role : Role) (user id : ℕ) (new_role : Role)
      → Keeps AreBalanced (update_employee_role cal role user id new_role)
  unfolding update_employee_role
  role-Keeps role user id new_role = guard-Keeps AreBalanced (not (is_permitted role)) _ _ (
      guard-Keeps AreBalanced (is_admin_or_hr role && user == id) _ _ (
        >>=-Keeps AreBalanced
          (wrap 500 "failed to fetch employee role: "
            (get_employee_current_role_and_manager_status id))
          _
          (reads-Keeps AreBalanced (get_employee_current_role_and_manager_status id)
            (current-db id))
          (λ current.
            guard-Keeps AreBalanced (is_admin_or_hr role && role_eq current.0 Role.super_admin) _ _
              (guard-Keeps AreBalanced (is_admin_or_hr role && role_eq new_role Role.super_admin) _
                _
                (guard-Keeps AreBalanced (role_eq current.0 new_role) _ _ (
                  guard-Keeps AreBalanced (current.1 && not (role_eq new_role Role.manager)) _ _ (
                    >>=-Keeps AreBalanced
                      (wrap 500 "" (execute_transaction (change_role cal id new_role))) _
                      (execute_transaction-Keeps AreBalanced (change_role cal id new_role)
                        (change_role-Keeps id new_role))
                      (λ _ w h. h))))))))

  rejoin-Keeps : (id : ℕ) (v : Profile) → Keeps AreBalanced (rejoin cal id v)
  unfolding rejoin
  rejoin-Keeps id v =
      >>=-Keeps AreBalanced (wrap 500 "failed to update employee: " (update_profile id v)) _
        (profile-Keeps id v)
        (λ _.
          >>=-Keeps AreBalanced (wrap 500 "failed to fetch employee role: " (get_employee_role id))
            _ (reads-Keeps AreBalanced (get_employee_role id) (role-db id))
            (λ emp_role.
              on_accounts-Keeps cal
                (recalculate_leave_balances_for_joining_date_change id
                  (year_and_month cal v.joining_date) emp_role (current_year cal))
                (λ w h.
                  (employee_change-InBalance id emp_role emp_role
                    (year_and_month cal v.joining_date) (current_year cal) w h).1)))

  info-Keeps :
      (domain : Text) (role : Role) (user id : ℕ) (input : InfoInput)
      → Keeps AreBalanced (update_employee_info cal domain role user id input)
  unfolding update_employee_info write_profile
  info-Keeps domain role user id input =
      >>=-Keeps AreBalanced (answer (app 404 "employee not found") (get_employee_by_id id)) _
        (reads-Keeps AreBalanced (get_employee_by_id id) (person-db id))
        (λ p. guard-Keeps AreBalanced (is_admin_or_hr role && role_eq p.role Role.super_admin) _ _ (
          guard-Keeps AreBalanced (is_unborn cal.today input.birth_date) _ _ (
            guard-Keeps AreBalanced (touches_more input && not (is_permitted role)) _ _ (
              guard-Keeps AreBalanced
                (is_given input.full_name && not (user == id) && not (is_permitted role)) _ _
                (>>=-Keeps AreBalanced (check_email domain p input.email) _
                  (reads-Keeps AreBalanced (check_email domain p input.email)
                    (email-db domain p input.email))
                  (λ _. elim (Bool-cases (is_given input.joining_date)) [
                    | inl e ↦ rw e (
                        execute_transaction-Keeps AreBalanced
                          (rejoin cal id (final_profile input p))
                          (rejoin-Keeps id (final_profile input p)))
                    | inr e ↦ rw e (profile-Keeps id (final_profile input p))
                  ]))))))

  abbrev allocation : ℕ → Role → Option ℕ → LeaveType → Action Store (Unit {0})
  allocation id role joining lt = wrap 500 "failed to allocate leave balance: " (
      on_accounts cal (
        create_leave_balance id lt.id (current_year cal)
          (half_days (initial_days cal lt role joining))))

  allocate_each-Keeps :
      (id : ℕ) (role : Role) (joining : Option ℕ) (leave_types : List LeaveType)
      → Keeps AreBalanced (allocate_each cal id role joining leave_types)
  unfolding allocate_each
  allocate_each-Keeps id role joining [] w h = h
  allocate_each-Keeps id role joining (lt ∷ leave_types) w h =
      elim (Bool-cases (is_early_leave lt)) [
        | inl early ↦ rw early (allocate_each-Keeps id role joining leave_types w h)
        | inr late ↦ rw late (
            >>=-Keeps AreBalanced (allocation id role joining lt)
              (λ _. allocate_each cal id role joining leave_types)
              (on_accounts-Keeps cal
                (create_leave_balance id lt.id (current_year cal)
                  (half_days (initial_days cal lt role joining)))
                (create_leave_balance-Keeps id lt.id (current_year cal) _))
              (λ _. allocate_each-Keeps id role joining leave_types) w h)
      ]

  insert_employee-Keeps :
      (full_name email : Text) (role : Role) (hash : Text) (salary joining : Option ℕ)
      → Keeps AreBalanced (insert_employee full_name email role hash salary joining)
  unfolding insert_employee
  insert_employee-Keeps full_name email role hash salary joining =
      let row : ℕ → Person = λ id. new_person id full_name email role hash salary joining in
      >>=-Keeps AreBalanced (statement (try_insert row email))
        (λ taken. checked unique_email taken.0 >> pure taken.1)
        (statement-Keeps AreBalanced (try_insert row email) (λ s h. ground arith))
        (λ taken w h. ground arith)

  insert-Keeps :
      (input : EmployeeInput) (hash : Text)
      → Keeps AreBalanced (insert_with_balances cal input hash)
  unfolding insert_with_balances
  insert-Keeps input hash =
      >>=-Keeps AreBalanced
        (answer (app 500 "failed to create employee") (
          insert_employee input.full_name input.email input.role hash (or_zero_salary input.salary)
            input.joining_date))
        _
        (insert_employee-Keeps input.full_name input.email input.role hash
          (or_zero_salary input.salary) input.joining_date)
        (λ id.
          >>=-Keeps AreBalanced
            (answer (app 500 "failed to allocate leave balance: ")
              (select (λ s. s.accounts.leave_types)))
            (allocate_each cal id input.role input.joining_date)
            (select-Keeps AreBalanced (λ s. s.accounts.leave_types))
            (allocate_each-Keeps id input.role input.joining_date))

  create-Keeps :
      (security : Security) (role : Role) (input : EmployeeInput)
      → Keeps AreBalanced (create_employee cal security role input)
  unfolding create_employee check_email_exists
  create-Keeps security role input = guard-Keeps AreBalanced (not (is_permitted role)) _ _ (
      guard-Keeps AreBalanced (is_admin_or_hr role && role_eq input.role Role.super_admin) _ _ (
        >>=-Keeps AreBalanced (wrap 500 "" (select (has_email input.email))) _
          (select-Keeps AreBalanced (has_email input.email))
          (λ exists. guard-Keeps AreBalanced exists _ _ (
            >>=-Keeps AreBalanced (answer (app 400 "role not found") (get_role_id input.role)) _
              (reads-Keeps AreBalanced (get_role_id input.role) (role_id-db input.role))
              (λ _.
                >>=-Keeps AreBalanced
                  (or_fail security.generate_secure_password
                    (app 500 "failed to generate secure password"))
                  _ (or_fail-Keeps AreBalanced security.generate_secure_password _)
                  (λ pw.
                    >>=-Keeps AreBalanced
                      (or_fail (security.hash_password pw) (app 500 "failed to hash password")) _
                      (or_fail-Keeps AreBalanced (security.hash_password pw) _)
                      (λ hash.
                        >>=-Keeps AreBalanced
                          (wrap 500 "" (execute_transaction (insert_with_balances cal input hash)))
                          _
                          (execute_transaction-Keeps AreBalanced
                            (insert_with_balances cal input hash) (insert-Keeps input hash))
                          (λ _ w h. h))))))))

  -- Creating an employee, changing a role and changing an employee's details keep closing + used
  -- equal to opening + adjusted in every balance row, whatever it has accrued, whoever asks,
  -- whichever statements fail and however the request ends. This is the rule of
  -- internal/repositories/leaveAccrual.go, which leaves what is accrued out of the closing balance.
  pub employee_requests-AreBalanced :
      (security : Security) (domain : Text) (role : Role) (user id : ℕ)
      (new_employee : EmployeeInput) (new_role : Role) (input : InfoInput) (w : World Store)
      → AreBalanced w.db
      → AreBalanced (create_employee cal security role new_employee w).1.db
        × AreBalanced (update_employee_role cal role user id new_role w).1.db
        × AreBalanced (update_employee_info cal domain role user id input w).1.db
  employee_requests-AreBalanced security domain role user id new_employee new_role input w h = (
    create-Keeps security role new_employee w h,
    role-Keeps role user id new_role w h,
    info-Keeps domain role user id input w h,
  )
