-- ===== src/Employees/Spared.antt =====
-- Handlers that read an employee, spare a SUPERADMIN, and write one column.
use leave_management_system.Prelude.{
  ℕ, ◌≡◌, refl, ◌∙◌, Bool, true, false, ◌&&◌, not, List, Option, some, ◌==◌, find, arith,
  if◌then◌else◌, ltb, length,
}
use leave_management_system.Models.Role.{Role, role_eq}
use leave_management_system.Database.{
  World, Action, app, fail, or_fail, select, exec, statement, answer, ◌>>=◌,
}
use leave_management_system.Database.Endings.{
  Ends, guard-Ends, select-Ends, or_fail-Ends, answer-Ends, wrap-Ends, >>=-Ends, statement-Ends,
  reads-Ends,
}
use leave_management_system.Employees.Store.{
  Text, Person, Store, is_person, update_person, get_employee_by_id, get_employee_role,
  update_password, update_manager, update_designation, get_designation_by_id,
}
use leave_management_system.Employees.Requests.{
  is_permitted, is_admin_or_hr, check_manager, update_employee_manager, check_designation,
  update_employee_designation, Security,
}
use leave_management_system.Employees.Profile.{update_employee_password}
use leave_management_system.Employees.People.{
  is_superior, superiors, IsWellFormed, update-DistinctPeople, update-below, update-superiors,
}

abbrev pub Holds : List Person → Store → Type 0
Holds top s = (superiors s ≡ top) × IsWellFormed s

-- The employee was read and is no SUPERADMIN.
abbrev pub Found : List Person → ℕ → Person → Store → Type 0
Found top id target s = (find (is_person id) s.people ≡ some target) × Holds top s

-- Where the guard `(ADMIN or HR) and SUPERADMIN` lets ADMIN or HR pass, there is no SUPERADMIN.
pub passed : {a b : Bool} → (a && b) ≡ false → a ≡ true → b ≡ false
passed h e = ground arith

module _ (top : List Person) where
  module _ (id : ℕ) (f : Person → Person) (keeps_id : (p : Person) → (f p).id ≡ p.id)
      (keeps_rank : (p : Person) → is_superior p ≡ false → is_superior (f p) ≡ false) where
    pub update_person-Holds :
        (target : Person) (s : Store)
        → Found top id target s
        → is_superior target ≡ false
        → Holds top (update_person id f s)
    update_person-Holds target s h low = (
      update-superiors id f keeps_id keeps_rank s.people target h.1.1.0 h.0 low ∙ h.1.0,
      (
        update-DistinctPeople id f keeps_id s.people h.1.1.0,
        update-below id f keeps_id s.next_id s.people h.1.1.1,
      ),
    )

    pub exec-Holds :
        (target : Person) (w : World Store)
        → Found top id target w.db
        → is_superior target ≡ false
        → Ends (λ _. Holds top) (Holds top) (exec (update_person id f) w)
    unfolding exec
    exec-Holds target w h low =
        statement-Ends (λ _. Holds top) (Holds top) (λ s. (tt, update_person id f s)) w h.1
          (update_person-Holds target w.db h low)

  pub read-Found :
      (id : ℕ) (w : World Store)
      → Holds top w.db
      → Ends (Found top id) (Holds top) (get_employee_by_id id w)
  unfolding get_employee_by_id
  read-Found id w h =
      >>=-Ends (λ row s. (find (is_person id) s.people ≡ row) × Holds top s) (Found top id)
        (Holds top) (select (λ s. find (is_person id) s.people)) _ w
        (select-Ends _ (Holds top) (λ s. find (is_person id) s.people) w h (refl, h))
        (λ row w₁ read.
          or_fail-Ends (Found top id) (Holds top) row _ w₁ read.1 (λ p e. (read.0 ∙ e, read.1)))

  check_manager-db : (id : ℕ) (w : World Store) → (check_manager id w).1.db ≡ w.db
  unfolding check_manager get_employee_role get_employee_by_id select statement
  check_manager-db id w = ground arith

  check_designation-db : (id : Option ℕ) (w : World Store) → (check_designation id w).1.db ≡ w.db
  unfolding get_designation_by_id select statement
  check_designation-db id w = ground arith

  -- The handlers read the employee, spare a SUPERADMIN, and go on.
  pub spared-Holds :
      {A : Type 0} (guarded : Bool) (id : ℕ) (k : Person → Action Store A) (w : World Store)
      → guarded ≡ true
      → Holds top w.db
      → ((target : Person) (w₁ : World Store)
          → Found top id target w₁.db
          → is_superior target ≡ false
          → Ends (λ _. Holds top) (Holds top) (k target w₁))
      → Ends
          (λ _. Holds top)
          (Holds top)
          ((answer (app 404 "employee not found") (get_employee_by_id id) >>= λ target.
              if guarded && is_superior target
              then fail (app 403 "HR and ADMIN cannot modify SUPERADMIN users")
              else k target)
            w)
  spared-Holds guarded id k w lower h next =
      >>=-Ends (Found top id) (λ _. Holds top) (Holds top)
        (answer (app 404 "employee not found") (get_employee_by_id id)) _ w
        (answer-Ends (Found top id) (Holds top) _ (get_employee_by_id id) w (read-Found id w h))
        (λ target w₁ found.
          guard-Ends (Holds top) _ (guarded && is_superior target) _ (k target) w₁ found.1
            (λ spared. next target w₁ found (passed spared lower)))

  module _ (role : Role) (w : World Store) (lower : is_admin_or_hr role ≡ true)
      (h : Holds top w.db) where
    pub manager-Holds :
        (user emp_id manager_id : ℕ)
        → Ends (λ _. Holds top) (Holds top) (update_employee_manager role user emp_id manager_id w)
    unfolding update_employee_manager update_manager
    manager-Holds user emp_id manager_id =
        guard-Ends (Holds top) _ (not (is_permitted role)) _ _ w h (λ _.
          spared-Holds (is_admin_or_hr role) emp_id _ w lower h (λ target w₁ found low.
            guard-Ends (Holds top) _ (emp_id == manager_id) _ _ w₁ found.1 (λ _.
              guard-Ends (Holds top) _ (user == manager_id && not (role_eq role Role.super_admin)) _
                _ w₁ found.1
                (λ _.
                  >>=-Ends (λ _. Found top emp_id target) (λ _. Holds top) (Holds top)
                    (check_manager manager_id) _ w₁
                    (reads-Ends (Found top emp_id target) (Holds top) w₁.db
                      (check_manager manager_id w₁) (check_manager-db manager_id w₁) found found.1)
                    (λ _ w₂ still.
                      wrap-Ends (λ _. Holds top) (Holds top) 500 "failed to update manager: "
                        (update_manager emp_id manager_id) w₂
                        (exec-Holds emp_id (λ p. record p { manager_id = some manager_id })
                          (λ p. refl) (λ p r. r) target w₂ still low))))))

    pub designation-Holds :
        (emp_id : ℕ) (designation_id : Option ℕ)
        → Ends
            (λ _. Holds top)
            (Holds top)
            (update_employee_designation role emp_id designation_id w)
    unfolding update_employee_designation update_designation
    designation-Holds emp_id designation_id =
        guard-Ends (Holds top) _ (not (is_permitted role)) _ _ w h (λ _.
          spared-Holds (is_admin_or_hr role) emp_id _ w lower h (λ target w₁ found low.
            >>=-Ends (λ _. Found top emp_id target) (λ _. Holds top) (Holds top)
              (check_designation designation_id) _ w₁
              (reads-Ends (Found top emp_id target) (Holds top) w₁.db
                (check_designation designation_id w₁) (check_designation-db designation_id w₁) found
                found.1)
              (λ _ w₂ still.
                wrap-Ends (λ _. Holds top) (Holds top) 500 "failed to update designation: "
                  (update_designation emp_id designation_id) w₂
                  (exec-Holds emp_id (λ p. record p { designation_id = designation_id }) (λ p. refl)
                    (λ p r. r) target w₂ still low))))

    pub password-Holds :
        (security : Security) (emp_id : ℕ) (new_password : Text)
        → Ends
            (λ _. Holds top)
            (Holds top)
            (update_employee_password security role emp_id new_password w)
    unfolding update_employee_password update_password
    password-Holds security emp_id new_password =
        guard-Ends (Holds top) _ (ltb (length new_password) 8) _ _ w h (λ _.
          spared-Holds (is_admin_or_hr role) emp_id _ w lower h (λ target w₁ found low.
            >>=-Ends (λ _. Found top emp_id target) (λ _. Holds top) (Holds top)
              (or_fail (security.hash_password new_password) (app 500 "failed to hash password: "))
              _ w₁
              (or_fail-Ends (λ _. Found top emp_id target) (Holds top) _ _ w₁ found.1
                (λ _ _. found))
              (λ hashed w₂ still.
                wrap-Ends (λ _. Holds top) (Holds top) 500 "failed to update password: "
                  (update_password emp_id hashed) w₂
                  (exec-Holds emp_id (λ p. record p { password = hashed }) (λ p. refl) (λ p r. r)
                    target w₂ still low))))
