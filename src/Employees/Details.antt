-- ===== src/Employees/Details.antt =====
-- A change of an employee's details by ADMIN or HR spares every SUPERADMIN.
use leave_management_system.Prelude.{
  ℕ, ◌≡◌, refl, true, false, ◌&&◌, not, List, Option, none, some, ◌==◌, any, arith, Bool-cases, inl,
  inr,
}
use leave_management_system.Models.Role.{Role}
use leave_management_system.Database.{World, pure, select, statement, wrap, execute_transaction}
use leave_management_system.Database.Endings.{
  Ends, db-Ends, guard-Ends, wrap-Ends, >>=-Ends, statement-Ends, reads-Ends,
  execute_transaction-Ends,
}
use leave_management_system.Tables.{Calendar, current_year}
use leave_management_system.Accounts.Entitlement.{
  recalculate_leave_balances_for_joining_date_change,
}
use leave_management_system.Employees.Store.{
  Text, Person, Profile, Store, set_profile, is_taken, get_employee_role, update_profile,
  check_email_exists, try_profile, on_accounts, year_and_month,
}
use leave_management_system.Employees.Requests.{is_permitted, is_admin_or_hr}
use leave_management_system.Employees.Profile.{
  InfoInput, is_given, final_profile, is_unborn, touches_more, check_email, rejoin, write_profile,
  update_employee_info,
}
use leave_management_system.Employees.People.{is_superior}
use leave_management_system.Employees.Spared.{Holds, Found, update_person-Holds, spared-Holds}
use leave_management_system.Employees.Ranks.{get_employee_role-db}

module _ (top : List Person) where
  check_email-db :
      (domain : Text) (p : Person) (email : Option Text) (w : World Store)
      → (check_email domain p email w).1.db ≡ w.db
  unfolding check_email check_email_exists select statement
  check_email-db domain p none w = refl
  check_email-db domain p (some email) w = ground arith

  profile-Holds :
      (id : ℕ) (v : Profile) (target : Person) (w : World Store)
      → Found top id target w.db
      → is_superior target ≡ false
      → Ends (λ _. Holds top) (Holds top) (update_profile id v w)
  unfolding update_profile
  profile-Holds id v target w found low =
      >>=-Ends (λ _. Holds top) (λ _. Holds top) (Holds top) (statement (try_profile id v)) _ w
        (statement-Ends (λ _. Holds top) (Holds top) (try_profile id v) w found.1
          (elim (Bool-cases (any (is_taken id v.email) w.db.people)) [
            | inl p ↦ rw p found.1
            | inr p ↦ rw p (
                update_person-Holds top id (set_profile v) (λ x. refl) (λ x r. r) target w.db found
                  low)
          ]))
        (λ refused w₁ holds.
          guard-Ends (Holds top) (λ _. Holds top) refused _ (pure tt) w₁ holds (λ _. holds))

  rejoin-Holds :
      (cal : Calendar) (id : ℕ) (v : Profile) (target : Person) (w : World Store)
      → Found top id target w.db
      → is_superior target ≡ false
      → Ends (λ _. Holds top) (Holds top) (rejoin cal id v w)
  unfolding rejoin
  rejoin-Holds cal id v target w found low =
      >>=-Ends (λ _. Holds top) (λ _. Holds top) (Holds top)
        (wrap 500 "failed to update employee: " (update_profile id v)) _ w
        (wrap-Ends (λ _. Holds top) (Holds top) 500 "failed to update employee: "
          (update_profile id v) w (profile-Holds id v target w found low))
        (λ _ w₁ h₁.
          >>=-Ends (λ _. Holds top) (λ _. Holds top) (Holds top)
            (wrap 500 "failed to fetch employee role: " (get_employee_role id)) _ w₁
            (wrap-Ends (λ _. Holds top) (Holds top) 500 "failed to fetch employee role: "
              (get_employee_role id) w₁
              (reads-Ends (Holds top) (Holds top) w₁.db (get_employee_role id w₁)
                (get_employee_role-db top id w₁) h₁ h₁))
            (λ emp_role w₂ h₂.
              wrap-Ends (λ _. Holds top) (Holds top) 500 "failed to recalculate leave balances: "
                (on_accounts cal (
                  recalculate_leave_balances_for_joining_date_change id
                    (year_and_month cal v.joining_date) emp_role (current_year cal)))
                w₂ (db-Ends (Holds top) _ h₂)))

  write-Holds :
      (cal : Calendar) (id : ℕ) (input : InfoInput) (v : Profile) (target : Person)
      (w : World Store)
      → Found top id target w.db
      → is_superior target ≡ false
      → Ends (λ _. Holds top) (Holds top) (write_profile cal id input v w)
  unfolding write_profile
  write-Holds cal id input v target w found low = elim (Bool-cases (is_given input.joining_date)) [
    | inl p ↦ rw p (
        wrap-Ends (λ _. Holds top) (Holds top) 500 "" (execute_transaction (rejoin cal id v)) w
          (execute_transaction-Ends (Holds top) (rejoin cal id v) w found.1
            (rejoin-Holds cal id v target _ found low)))
    | inr p ↦ rw p (
        wrap-Ends (λ _. Holds top) (Holds top) 500 "failed to update employee: "
          (update_profile id v) w (profile-Holds id v target w found low))
  ]

  pub info-Holds :
      (cal : Calendar) (domain : Text) (role : Role) (user emp_id : ℕ) (input : InfoInput)
      (w : World Store)
      → is_admin_or_hr role ≡ true
      → Holds top w.db
      → Ends (λ _. Holds top) (Holds top) (update_employee_info cal domain role user emp_id input w)
  unfolding update_employee_info
  info-Holds cal domain role user emp_id input w lower h =
      spared-Holds top (is_admin_or_hr role) emp_id _ w lower h (λ target w₁ found low.
        guard-Ends (Holds top) _ (is_unborn cal.today input.birth_date) _ _ w₁ found.1 (λ _.
          guard-Ends (Holds top) _ (touches_more input && not (is_permitted role)) _ _ w₁ found.1
            (λ _.
              guard-Ends (Holds top) _
                (is_given input.full_name && not (user == emp_id) && not (is_permitted role)) _ _ w₁
                found.1
                (λ _.
                  >>=-Ends (λ _. Found top emp_id target) (λ _. Holds top) (Holds top)
                    (check_email domain target input.email) _ w₁
                    (reads-Ends (Found top emp_id target) (Holds top) w₁.db
                      (check_email domain target input.email w₁)
                      (check_email-db domain target input.email w₁) found found.1)
                    (λ _ w₂ still.
                      write-Holds cal emp_id input (final_profile input target) target w₂ still
                        low)))))
