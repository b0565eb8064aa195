-- ===== src/Accounts/Books.antt =====
-- Every operation on the balances keeps the books.
use leave_management_system.Prelude.{
  ℕ, ◌≡◌, refl, inl, inr, List, [], keep, ◌∷◌, Option, none, some, String, All, arith, Bool-cases,
  not, ◌&&◌, find, ◌==◌,
}
use leave_management_system.Prelude.Int.{ℤ, pos, ◌+ℤ◌, ◌-ℤ◌, int_laws}
use leave_management_system.Models.Role.{Role, role_eq}
use leave_management_system.Models.Leave.{LeaveType, Balance, is_early_leave}
use leave_management_system.Database.{
  Action, World, statement, select, annotate, forget, pure, ◌>>=◌, ◌>>◌,
}
use leave_management_system.Database.Laws.{Keeps, >>=-Keeps}
use leave_management_system.Database.Endings.{statement-Keeps, exec-Keeps, select-Keeps}
use leave_management_system.Tables.{is_row}
use leave_management_system.Process.Balances.{IsBalanced, update-All}
use leave_management_system.Accounts.Store.{
  Store, Employee, has_row, insert_row, refuse_duplicate, create_leave_balance, reopen,
  update_leave_balance, get_leave_balance, get_all_leave_types, get_employee,
}
use leave_management_system.Accounts.Entitlement.{
  new_opening, half_days, entitlement_of, reopen_each,
  update_intern_leave_balances_for_entitlement_change, update_leave_balances_for_entitlement_change,
  reopen_types, adjust_leave_balances_for_role_change, joining_of,
  recalculate_leave_balances_for_joining_date_change, initial_entitlement,
  bulk_allocate_leave_balance_for_new_leave_type,
}

-- Closing + used is opening + adjusted, in every row.
abbrev pub InBalance : Store → Type 0
InBalance s = All IsBalanced s.balances

reopen-IsBalanced : (o : ℤ) (b : Balance) → IsBalanced (reopen o b)
reopen-IsBalanced o b = lemma o b.used b.adjusted
  where
    lemma : (o u a : ℤ) → o -ℤ u +ℤ a +ℤ u ≡ o +ℤ a
    lemma o u a = omega int_laws

pub insert_row-InBalance :
    (e t y : ℕ) (o : ℤ) (s : Store) → InBalance s → InBalance (insert_row e t y o s)
insert_row-InBalance e t y o s h = elim (Bool-cases (has_row e t y s.balances)) [
  | inl p ↦ rw p h
  | inr p ↦ rw p (refl, h)
]

update_leave_balance-Keeps : (o : ℤ) (e t y : ℕ) → Keeps InBalance (update_leave_balance o e t y)
unfolding update_leave_balance
update_leave_balance-Keeps o e t y = exec-Keeps InBalance _ (λ s h.
    update-All IsBalanced (is_row e t y) (reopen o) (λ b _. reopen-IsBalanced o b) s.balances h)

get_leave_balance-Keeps : (e t y : ℕ) → Keeps InBalance (get_leave_balance e t y)
unfolding get_leave_balance
get_leave_balance-Keeps e t y =
    >>=-Keeps InBalance (select (λ s. find (is_row e t y) s.balances))
      (λ row. elim row [ none ↦ pure (pos 0) | some b ↦ pure b.closing ])
      (select-Keeps InBalance (λ s. find (is_row e t y) s.balances)) (λ row w h. ground arith)

forget-Keeps : {A : Type 0} (m : Action Store A) → Keeps InBalance m → Keeps InBalance (forget m)
forget-Keeps m k w h = k w h

annotate-Keeps :
    {A : Type 0} (prefix : String) (m : Action Store A)
    → Keeps InBalance m
    → Keeps InBalance (annotate prefix m)
annotate-Keeps prefix m k w h = k w h

reopen_each-Keeps :
    (t n y : ℕ) (employees : List Employee) → Keeps InBalance (reopen_each t n y employees)
unfolding reopen_each
reopen_each-Keeps t n y [] = λ w h. h
reopen_each-Keeps t n y (emp ∷ employees) =
    >>=-Keeps InBalance (forget (get_leave_balance emp.id t y))
      (λ _.
        update_leave_balance (half_days (new_opening n emp.joining y)) emp.id t y
        >> reopen_each t n y employees)
      (forget-Keeps (get_leave_balance emp.id t y) (get_leave_balance-Keeps emp.id t y))
      (λ _.
        >>=-Keeps InBalance
          (update_leave_balance (half_days (new_opening n emp.joining y)) emp.id t y)
          (λ _. reopen_each t n y employees) (update_leave_balance-Keeps _ emp.id t y)
          (λ _. reopen_each-Keeps t n y employees))

reopen_types-Keeps :
    (e : ℕ) (role : Role) (joining : Option (ℕ × ℕ)) (y : ℕ) (leave_types : List LeaveType)
    → Keeps InBalance (reopen_types e role joining y leave_types)
unfolding reopen_types
reopen_types-Keeps e role joining y [] = λ w h. h
reopen_types-Keeps e role joining y (lt ∷ leave_types) =
    >>=-Keeps InBalance
      (update_leave_balance (half_days (new_opening (entitlement_of lt role) joining y)) e lt.id y)
      (λ _. reopen_types e role joining y leave_types) (update_leave_balance-Keeps _ e lt.id y)
      (λ _. reopen_types-Keeps e role joining y leave_types)

pub create_leave_balance-Keeps :
    (e t y : ℕ) (o : ℤ) → Keeps InBalance (create_leave_balance e t y o)
unfolding create_leave_balance
create_leave_balance-Keeps e t y o =
    >>=-Keeps InBalance (statement (λ s. (has_row e t y s.balances, insert_row e t y o s)))
      refuse_duplicate (statement-Keeps InBalance _ (insert_row-InBalance e t y o))
      (λ duplicate w h. ground arith)

abbrev staff : Store → List Employee
staff s = keep (λ e. not (role_eq e.role Role.intern)) s.employees

abbrev interns : Store → List Employee
interns s = keep (λ e. role_eq e.role Role.intern) s.employees

abbrev open_types : Store → List LeaveType
open_types s = keep (λ t. not (is_early_leave t)) s.leave_types

module _ (entitlement year : ℕ) (leave_type_id : ℕ) where
  -- A change of the default or the intern entitlement of a leave type keeps closing + used equal to
  -- opening + adjusted in every balance row, whichever statements fail and however it ends.
  pub entitlement_change-InBalance :
      (old : ℕ) (w : World Store)
      → InBalance w.db
      → InBalance
          (update_leave_balances_for_entitlement_change leave_type_id old entitlement year w).1.db
        × InBalance
            (update_intern_leave_balances_for_entitlement_change leave_type_id entitlement year
              w).1.db
  unfolding update_leave_balances_for_entitlement_change
      update_intern_leave_balances_for_entitlement_change
  entitlement_change-InBalance old w h = (
    >>=-Keeps InBalance (annotate "failed to fetch non-INTERN employees: " (select staff))
        (reopen_each leave_type_id entitlement year)
        (annotate-Keeps "" (select staff) (select-Keeps InBalance staff))
        (λ employees. reopen_each-Keeps leave_type_id entitlement year employees) w h,
    >>=-Keeps InBalance (annotate "failed to fetch INTERN employees: " (select interns))
        (reopen_each leave_type_id entitlement year)
        (annotate-Keeps "" (select interns) (select-Keeps InBalance interns))
        (λ employees. reopen_each-Keeps leave_type_id entitlement year employees) w h,
  )

  bulk_allocate-Keeps :
      (intern_entitlement : Option ℕ) (employees : List Employee)
      → Keeps InBalance (
          bulk_allocate_leave_balance_for_new_leave_type year leave_type_id entitlement
            intern_entitlement employees)
  unfolding bulk_allocate_leave_balance_for_new_leave_type
  bulk_allocate-Keeps intern_entitlement [] = λ w h. h
  bulk_allocate-Keeps intern_entitlement (emp ∷ employees) =
      >>=-Keeps InBalance
        (create_leave_balance emp.id leave_type_id year (
          half_days (
            new_opening (initial_entitlement entitlement intern_entitlement emp.role) emp.joining
              year)))
        (λ _.
          bulk_allocate_leave_balance_for_new_leave_type year leave_type_id entitlement
            intern_entitlement employees)
        (create_leave_balance-Keeps emp.id leave_type_id year _)
        (λ _. bulk_allocate-Keeps intern_entitlement employees)

  -- The allocation for a new leave type keeps closing + used equal to opening + adjusted in every
  -- balance row, whichever employees have a row and whichever statements fail.
  pub bulk_allocate-InBalance :
      (intern_entitlement : Option ℕ) (employees : List Employee) (w : World Store)
      → InBalance w.db
      → InBalance
          (bulk_allocate_leave_balance_for_new_leave_type year leave_type_id entitlement
            intern_entitlement employees w).1.db
  bulk_allocate-InBalance intern_entitlement employees =
      bulk_allocate-Keeps intern_entitlement employees

pub reopen_all-Keeps :
    (e : ℕ) (role : Role) (joining : Option (ℕ × ℕ)) (year : ℕ)
    → Keeps InBalance (
        annotate "failed to fetch leave types: " get_all_leave_types
        >>= reopen_types e role joining year)
unfolding get_all_leave_types
reopen_all-Keeps e role joining year =
    >>=-Keeps InBalance (annotate "failed to fetch leave types: " (select open_types))
      (reopen_types e role joining year)
      (annotate-Keeps "" (select open_types) (select-Keeps InBalance open_types))
      (λ leave_types. reopen_types-Keeps e role joining year leave_types)

get_employee-Keeps : (e : ℕ) → Keeps InBalance (get_employee e)
unfolding get_employee
get_employee-Keeps e = select-Keeps InBalance (λ s. find (λ x. x.id == e) s.employees)

pub role_change-Keeps :
    (e : ℕ) (old_role new_role : Role) (year : ℕ)
    → Keeps InBalance (adjust_leave_balances_for_role_change e old_role new_role year)
unfolding adjust_leave_balances_for_role_change
role_change-Keeps e old_role new_role year =
    elim (Bool-cases (not (role_eq old_role Role.intern) && not (role_eq new_role Role.intern))) [
      | inl p ↦ rw p (λ w h. h)
      | inr p ↦ rw p (
          >>=-Keeps InBalance (forget (get_employee e))
            (λ employee.
              annotate "failed to fetch leave types: " get_all_leave_types
              >>= reopen_types e new_role (joining_of employee) year)
            (forget-Keeps (get_employee e) (get_employee-Keeps e))
            (λ employee. reopen_all-Keeps e new_role (joining_of employee) year))
    ]

-- A change of an employee's role or joining date keeps closing + used equal to opening + adjusted
-- in every balance row, whichever statements fail and however it ends.
pub employee_change-InBalance :
    (e : ℕ) (old_role new_role : Role) (joining : Option (ℕ × ℕ)) (year : ℕ) (w : World Store)
    → InBalance w.db
    → InBalance (adjust_leave_balances_for_role_change e old_role new_role year w).1.db
      × InBalance
          (recalculate_leave_balances_for_joining_date_change e joining new_role year w).1.db
unfolding recalculate_leave_balances_for_joining_date_change
employee_change-InBalance e old_role new_role joining year w h =
    (role_change-Keeps e old_role new_role year w h, reopen_all-Keeps e new_role joining year w h)
