-- ===== src/Employees/Hiring.antt =====
-- ADMIN and HR create no SUPERADMIN.
use mathlib.Core.Path.{subst}
use leave_management_system.Prelude.{
  ℕ, ◌≡◌, refl, sym, Bool, true, false, ◌&&◌, not, List, [], ◌∷◌, Option, String, All, arith,
  Bool-cases, inl, inr, ◌<◌, ◌+◌,
}
use leave_management_system.Models.Role.{Role, role_eq}
use leave_management_system.Models.Leave.{LeaveType, is_early_leave}
use leave_management_system.Database.{
  World, Action, app, pure, or_fail, select, statement, wrap, answer, execute_transaction, ◌>>◌,
}
use leave_management_system.Database.Laws.{Keeps, >>=-Keeps, execute_transaction-Keeps}
use leave_management_system.Database.Endings.{
  Ends, db-Ends, guard-Ends, select-Ends, or_fail-Ends, answer-Ends, wrap-Ends, >>=-Ends,
  reads-Ends, select-Keeps, statement-Keeps,
}
use leave_management_system.Tables.{Calendar, current_year}
use leave_management_system.Accounts.Store.{create_leave_balance}
use leave_management_system.Accounts.Entitlement.{half_days}
use leave_management_system.Employees.Store.{
  Text, Person, Store, new_person, has_email, try_insert, insert_employee, check_email_exists,
  get_role_id, unique_email, checked, on_accounts,
}
use leave_management_system.Employees.Requests.{
  is_permitted, is_admin_or_hr, Security, EmployeeInput, or_zero_salary, initial_days,
  allocate_each, insert_with_balances, create_employee,
}
use leave_management_system.Employees.People.{is_superior, OtherId}
use leave_management_system.Employees.Spared.{Holds, passed}

fresh-OtherId : (n : ℕ) (people : List Person) → All (λ p. p.id < n) people → OtherId n people
fresh-OtherId n [] h = tt
fresh-OtherId n (p ∷ people) h = (ground (arith, h.0), fresh-OtherId n people h.1)

below-suc :
    (n : ℕ) (people : List Person) → All (λ p. p.id < n) people → All (λ p. p.id < n + 1) people
below-suc n [] h = tt
below-suc n (p ∷ people) h = (omega (arith, h.0), below-suc n people h.1)

module _ (top : List Person) where
  try_insert-Holds :
      (row : ℕ → Person) (email : Text) (s : Store)
      → ((n : ℕ) → (row n).id ≡ n)
      → is_superior (row s.next_id) ≡ false
      → Holds top s
      → Holds top (try_insert row email s).1
  try_insert-Holds row email s own low h = elim (Bool-cases (has_email email s)) [
    | inl p ↦ rw p h
    | inr p ↦
        rw (p, low)
          (
            h.0,
            (
              (fresh-OtherId (row s.next_id).id s.people (rw (own s.next_id) h.1.1), h.1.0),
              (grind (arith, own s.next_id), below-suc s.next_id s.people h.1.1),
            ),
          )
  ]

  abbrev allocation : Calendar → ℕ → Role → Option ℕ → LeaveType → Action Store (Unit {0})
  allocation cal id role joining lt = wrap 500 "failed to allocate leave balance: " (
      on_accounts cal (
        create_leave_balance id lt.id (current_year cal)
          (half_days (initial_days cal lt role joining))))

  allocate_each-Holds :
      (cal : Calendar) (id : ℕ) (role : Role) (joining : Option ℕ) (leave_types : List LeaveType)
      → Keeps (Holds top) (allocate_each cal id role joining leave_types)
  unfolding allocate_each
  allocate_each-Holds cal id role joining [] w h = h
  allocate_each-Holds cal id role joining (lt ∷ leave_types) w h =
      elim (Bool-cases (is_early_leave lt)) [
        | inl early ↦ rw early (allocate_each-Holds cal id role joining leave_types w h)
        | inr late ↦ rw late (
            >>=-Keeps (Holds top) (allocation cal id role joining lt)
              (λ _. allocate_each cal id role joining leave_types) (λ w₁ h₁. h₁)
              (λ _. allocate_each-Holds cal id role joining leave_types) w h)
      ]

  get_role_id-db : (role : Role) (w : World Store) → (get_role_id role w).1.db ≡ w.db
  unfolding get_role_id select statement
  get_role_id-db role w = ground arith

  checked-db :
      {A : Type 0} (m : String) (b : Bool) (a : A) (w : World Store)
      → ((checked m b >> pure a) w).1.db ≡ w.db
  checked-db m true a w = refl
  checked-db m false a w = refl

  abbrev insertion : EmployeeInput → Text → Action Store ℕ
  insertion input hash =
      insert_employee input.full_name input.email input.role hash (or_zero_salary input.salary)
        input.joining_date

  inserted-Holds :
      (input : EmployeeInput) (hash : Text)
      → role_eq input.role Role.super_admin ≡ false
      → Keeps (Holds top) (insertion input hash)
  unfolding insert_employee
  inserted-Holds input hash low w h =
      let row : ℕ → Person = λ id.
        new_person id input.full_name input.email input.role hash (or_zero_salary input.salary)
          input.joining_date in
      >>=-Keeps (Holds top) (statement (try_insert row input.email))
        (λ taken. checked unique_email taken.0 >> pure taken.1)
        (statement-Keeps (Holds top) (try_insert row input.email)
          (λ s k. try_insert-Holds row input.email s (λ n. refl) low k))
        (λ taken w₁ h₁. subst (Holds top) (sym (checked-db unique_email taken.0 taken.1 w₁)) h₁) w h

  insert-Holds :
      (cal : Calendar) (input : EmployeeInput) (hash : Text)
      → role_eq input.role Role.super_admin ≡ false
      → Keeps (Holds top) (insert_with_balances cal input hash)
  unfolding insert_with_balances
  insert-Holds cal input hash low w h =
      >>=-Keeps (Holds top) (answer (app 500 "failed to create employee") (insertion input hash)) _
        (inserted-Holds input hash low)
        (λ id.
          >>=-Keeps (Holds top)
            (answer (app 500 "failed to allocate leave balance: ")
              (select (λ s. s.accounts.leave_types)))
            (allocate_each cal id input.role input.joining_date)
            (select-Keeps (Holds top) (λ s. s.accounts.leave_types))
            (allocate_each-Holds cal id input.role input.joining_date))
        w h

  pub create-Holds :
      (cal : Calendar) (security : Security) (role : Role) (input : EmployeeInput) (w : World Store)
      → is_admin_or_hr role ≡ true
      → Holds top w.db
      → Ends (λ _. Holds top) (Holds top) (create_employee cal security role input w)
  unfolding create_employee check_email_exists get_role_id select
  create-Holds cal security role input w lower h =
      guard-Ends (Holds top) _ (not (is_permitted role)) _ _ w h (λ _.
        guard-Ends (Holds top) _ (is_admin_or_hr role && role_eq input.role Role.super_admin) _ _ w
          h
          (λ kept.
            >>=-Ends (λ _. Holds top) (λ _. Holds top) (Holds top)
              (wrap 500 "" (check_email_exists input.email)) _ w
              (wrap-Ends (λ _. Holds top) (Holds top) 500 "" (check_email_exists input.email) w
                (select-Ends (λ _. Holds top) (Holds top) (has_email input.email) w h h))
              (λ exists w₁ h₁. guard-Ends (Holds top) _ exists _ _ w₁ h₁ (λ _.
                >>=-Ends (λ _. Holds top) (λ _. Holds top) (Holds top)
                  (answer (app 400 "role not found") (get_role_id input.role)) _ w₁
                  (answer-Ends (λ _. Holds top) (Holds top) _ (get_role_id input.role) w₁
                    (reads-Ends (Holds top) (Holds top) w₁.db (get_role_id input.role w₁)
                      (get_role_id-db input.role w₁) h₁ h₁))
                  (λ _ w₂ h₂.
                    >>=-Ends (λ _. Holds top) (λ _. Holds top) (Holds top)
                      (or_fail security.generate_secure_password
                        (app 500 "failed to generate secure password"))
                      _ w₂ (or_fail-Ends (λ _. Holds top) (Holds top) _ _ w₂ h₂ (λ _ _. h₂))
                      (λ pw w₃ h₃.
                        >>=-Ends (λ _. Holds top) (λ _. Holds top) (Holds top)
                          (or_fail (security.hash_password pw) (app 500 "failed to hash password"))
                          _ w₃ (or_fail-Ends (λ _. Holds top) (Holds top) _ _ w₃ h₃ (λ _ _. h₃))
                          (λ hash w₄ h₄.
                            >>=-Ends (λ _. Holds top) (λ _. Holds top) (Holds top)
                              (wrap 500 ""
                                (execute_transaction (insert_with_balances cal input hash)))
                              _ w₄
                              (wrap-Ends (λ _. Holds top) (Holds top) 500 ""
                                (execute_transaction (insert_with_balances cal input hash)) w₄
                                (db-Ends (Holds top) _ (
                                  execute_transaction-Keeps (Holds top)
                                    (insert_with_balances cal input hash)
                                    (insert-Holds cal input hash (passed kept lower)) w₄ h₄)))
                              (λ _ w₅ h₅. h₅))))))))
