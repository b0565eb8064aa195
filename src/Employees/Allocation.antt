-- ===== src/Employees/Allocation.antt =====
-- What a new employee gets.
use mathlib.Core.Path.{subst}
use leave_management_system.Prelude.{
  ℕ, ◌≡◌, ◌⊎◌, refl, ap, ◌∙◌, inl, inr, true, false, ◌&&◌, not, List, [], ◌∷◌, Option, some, keep,
  map, stack, arith, Bool-cases,
}
use leave_management_system.Models.Role.{Role, role_eq}
use leave_management_system.Models.Leave.{LeaveType, Balance, is_early_leave}
use leave_management_system.Database.{
  World, Action, ok, app, or_fail, select, statement, wrap, answer, execute_transaction,
}
use leave_management_system.Database.Outcomes.{
  After, After-ok, After-map, guard-After, >>=-After, answer-After, wrap-After, select-After,
  or_fail-After, execute_transaction-After, zoom-After,
}
use leave_management_system.Tables.{Calendar, current_year}
use leave_management_system.Accounts.Store.{new_balance, create_leave_balance, Store as Accounts}
use leave_management_system.Accounts.Entitlement.{half_days}
use leave_management_system.Employees.Store.{
  Text, Store, books, on_accounts, new_person, has_email, insert_employee, check_email_exists,
  get_role_id,
}
use leave_management_system.Employees.Requests.{
  is_permitted, is_admin_or_hr, Security, EmployeeInput, or_zero_salary, initial_days,
  allocate_each, insert_with_balances, create_employee,
}

create-After :
    (id type_id year : ℕ) (opening : _) (w : World Accounts)
    → After
        (λ _ t. t.balances ≡ new_balance id type_id year opening ∷ w.db.balances)
        (create_leave_balance id type_id year opening w)
unfolding create_leave_balance statement
create-After id type_id year opening w = ground arith

module _ (cal : Calendar) where
  -- The balance row of a leave type.
  abbrev pub initial_row : ℕ → Role → Option ℕ → LeaveType → Balance
  initial_row id role joining lt =
      new_balance id lt.id (current_year cal) (half_days (initial_days cal lt role joining))

  abbrev pub initial_rows : ℕ → Role → Option ℕ → List LeaveType → List Balance
  initial_rows id role joining leave_types =
      map (initial_row id role joining) (keep (λ lt. not (is_early_leave lt)) leave_types)

  abbrev Allocated : List Balance → Store → Store → Type 0
  Allocated rows before after =
      (after.accounts.balances ≡ stack rows before.accounts.balances)
      × (after.people ≡ before.people)

  allocate_each-After :
      (id : ℕ) (role : Role) (joining : Option ℕ) (leave_types : List LeaveType) (w : World Store)
      → After
          (λ _. Allocated (initial_rows id role joining leave_types) w.db)
          (allocate_each cal id role joining leave_types w)
  unfolding allocate_each
  allocate_each-After id role joining [] w = (refl, refl)
  allocate_each-After id role joining (lt ∷ leave_types) w = elim (Bool-cases (is_early_leave lt)) [
    | inl early ↦ rw early (allocate_each-After id role joining leave_types w)
    | inr late ↦ rw late (
        >>=-After (λ _. Allocated (initial_row id role joining lt ∷ []) w.db) _
          (wrap 500 "failed to allocate leave balance: " (on_accounts cal (one id role joining lt)))
          _ w
          (wrap-After _ 500 "failed to allocate leave balance: "
            (on_accounts cal (one id role joining lt)) w
            (zoom-After (λ _. Allocated (initial_row id role joining lt ∷ []) w.db) (books cal)
              (λ t s. record s { accounts = t }) (one id role joining lt) w
              (After-map
                (λ _ t. t.balances ≡ initial_row id role joining lt ∷ w.db.accounts.balances) _ _
                (λ _ t e. (e, refl)) (create-After id lt.id (current_year cal) _ _))))
          (λ _ w₁ first.
            After-map (λ _. Allocated (initial_rows id role joining leave_types) w₁.db) _ _
              (λ _ s rest. (
                rest.0 ∙ ap (stack (initial_rows id role joining leave_types)) first.0,
                rest.1 ∙ first.1,
              ))
              (allocate_each-After id role joining leave_types w₁)))
  ]
    where
      one : ℕ → Role → Option ℕ → LeaveType → Action Accounts (Unit {0})
      one id role joining lt =
          create_leave_balance id lt.id (current_year cal)
            (half_days (initial_days cal lt role joining))

  -- The row of the new employee is there, and one balance row for each leave type that is not early.
  abbrev pub IsHired : EmployeeInput → Text → Store → Store → Type 0
  IsHired input hash before after =
      (after.people
        ≡ new_person before.next_id input.full_name input.email input.role hash
            (or_zero_salary input.salary) input.joining_date
          ∷ before.people)
      × (after.accounts.balances
          ≡ stack
              (initial_rows before.next_id input.role input.joining_date
                before.accounts.leave_types)
              before.accounts.balances)

  abbrev Inserted : EmployeeInput → Text → Store → ℕ → Store → Type 0
  Inserted input hash before id s =
      (id ≡ before.next_id)
      × (s.people
          ≡ new_person before.next_id input.full_name input.email input.role hash
              (or_zero_salary input.salary) input.joining_date
            ∷ before.people)
      × (s.accounts ≡ before.accounts)

  insert_employee-Inserted :
      (input : EmployeeInput) (hash : Text) (w : World Store)
      → After (Inserted input hash w.db) (
          insert_employee input.full_name input.email input.role hash
            (or_zero_salary input.salary)
            input.joining_date
            w)
  unfolding insert_employee statement
  insert_employee-Inserted input hash w = ground arith

  insert-IsHired :
      (input : EmployeeInput) (hash : Text) (w : World Store)
      → After (λ _. IsHired input hash w.db) (insert_with_balances cal input hash w)
  unfolding insert_with_balances
  insert-IsHired input hash w =
      >>=-After (Inserted input hash w.db) _
        (answer (app 500 "failed to create employee") (
          insert_employee input.full_name input.email input.role hash (or_zero_salary input.salary)
            input.joining_date))
        _ w
        (answer-After _ _
          (insert_employee input.full_name input.email input.role hash (or_zero_salary input.salary)
            input.joining_date)
          w (insert_employee-Inserted input hash w))
        (λ id w₁ new.
          >>=-After (λ lts s. (lts ≡ w₁.db.accounts.leave_types) × (s ≡ w₁.db)) _
            (answer (app 500 "failed to allocate leave balance: ")
              (select (λ s. s.accounts.leave_types)))
            _ w₁
            (answer-After _ _ (select (λ s. s.accounts.leave_types)) w₁
              (select-After _ (λ s. s.accounts.leave_types) w₁ (refl, refl)))
            (λ lts w₂ read.
              After-map (λ _. Allocated (initial_rows id input.role input.joining_date lts) w₂.db) _
                _
                (λ _ s done. (
                  done.1 ∙ ap (λ d. d.people) read.1 ∙ new.1,
                  done.0
                      ∙ lemma id w.db.next_id lts w.db.accounts.leave_types w₂.db.accounts.balances
                          w.db.accounts.balances new.0 (read.0 ∙ ap (λ a. a.leave_types) new.2)
                          (ap (λ d. d.accounts.balances) read.1 ∙ ap (λ a. a.balances) new.2),
                ))
                (allocate_each-After id input.role input.joining_date lts w₂)))
    where
      lemma :
          (id id' : ℕ) (lts lts' : List LeaveType) (rows rows' : List Balance)
          → id ≡ id'
          → lts ≡ lts'
          → rows ≡ rows'
          → stack (initial_rows id input.role input.joining_date lts) rows
            ≡ stack (initial_rows id' input.role input.joining_date lts') rows'
      lemma id id' lts lts' rows rows' a b c = rw (a, b, c) refl

  abbrev Answered : Security → Role → EmployeeInput → Store → Text → Store → Type 0
  Answered security role input before pw after =
      (is_permitted role ≡ true)
      × ((is_admin_or_hr role && role_eq input.role Role.super_admin) ≡ false)
      × (security.generate_secure_password ≡ some pw)
      × (hash : Text) × (security.hash_password pw ≡ some hash)
      × (IsHired input hash before after ⊎ (after ≡ before))

  role_id-After : (role : Role) (w : World Store) → After (λ _ s. s ≡ w.db) (get_role_id role w)
  unfolding get_role_id select statement
  role_id-After role w = ground arith

  create-Answered :
      (security : Security) (role : Role) (input : EmployeeInput) (w : World Store)
      → After (Answered security role input w.db) (create_employee cal security role input w)
  unfolding create_employee check_email_exists
  create-Answered security role input w = guard-After _ (not (is_permitted role)) _ _ w (λ allowed.
      guard-After _ (is_admin_or_hr role && role_eq input.role Role.super_admin) _ _ w (λ modest.
        >>=-After (λ _ s. s ≡ w.db) _ (wrap 500 "" (select (has_email input.email))) _ w
          (wrap-After _ 500 "" (select (has_email input.email)) w
            (select-After _ (has_email input.email) w refl))
          (λ exists w₁ e₁. guard-After _ exists _ _ w₁ (λ _.
            >>=-After (λ _ s. s ≡ w₁.db) _
              (answer (app 400 "role not found") (get_role_id input.role)) _ w₁
              (answer-After _ _ (get_role_id input.role) w₁ (role_id-After input.role w₁))
              (λ _ w₂ e₂.
                >>=-After (λ pw s. (security.generate_secure_password ≡ some pw) × (s ≡ w₂.db)) _
                  (or_fail security.generate_secure_password
                    (app 500 "failed to generate secure password"))
                  _ w₂
                  (or_fail-After
                    (λ pw s. (security.generate_secure_password ≡ some pw) × (s ≡ w₂.db)) _ _ w₂
                    (λ pw e. (e, refl)))
                  (λ pw w₃ e₃.
                    >>=-After (λ hash s. (security.hash_password pw ≡ some hash) × (s ≡ w₃.db)) _
                      (or_fail (security.hash_password pw) (app 500 "failed to hash password")) _ w₃
                      (or_fail-After
                        (λ hash s. (security.hash_password pw ≡ some hash) × (s ≡ w₃.db)) _ _ w₃
                        (λ hash e. (e, refl)))
                      (λ hash w₄ e₄.
                        >>=-After (λ _ s. IsHired input hash w₄.db s ⊎ (s ≡ w₄.db)) _
                          (wrap 500 "" (execute_transaction (insert_with_balances cal input hash)))
                          _ w₄
                          (wrap-After _ 500 ""
                            (execute_transaction (insert_with_balances cal input hash)) w₄
                            (execute_transaction-After (λ _. IsHired input hash w₄.db)
                              (insert_with_balances cal input hash) w₄
                              (insert-IsHired input hash _)))
                          (λ _ w₅ end. (
                            ground arith,
                            modest,
                            e₃.0,
                            hash,
                            e₄.0,
                            subst (λ b. IsHired input hash b w₅.db ⊎ (w₅.db ≡ b))
                                (e₄.1 ∙ e₃.1 ∙ e₂ ∙ e₁) end,
                          )))))))))

  -- A request to create an employee that succeeds was made by SUPERADMIN, ADMIN or HR, and by
  -- SUPERADMIN where the new employee is one. Its answer is the new password. Afterwards the employee
  -- is there with the hash of that password, and with one balance row for each leave type that is not
  -- early, or the database refused the commit and every table is as it was. Statements may fail.
  pub create_employee-IsHired :
      (security : Security) (role : Role) (input : EmployeeInput) (w : World Store) (pw : Text)
      → (create_employee cal security role input w).0 ≡ ok pw
      → (is_permitted role ≡ true)
        × ((is_admin_or_hr role && role_eq input.role Role.super_admin) ≡ false)
        × (security.generate_secure_password ≡ some pw)
        × (hash : Text) × (security.hash_password pw ≡ some hash)
        × (IsHired input hash w.db (create_employee cal security role input w).1.db
            ⊎ ((create_employee cal security role input w).1.db ≡ w.db))
  create_employee-IsHired security role input w pw done =
      After-ok (Answered security role input w.db) pw (create_employee cal security role input w)
        (create-Answered security role input w) done
