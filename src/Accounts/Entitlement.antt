-- ===== src/Accounts/Entitlement.antt =====
-- Recalculation of opening balances: internal/repositories/leaveBalance.go.
use leave_management_system.Prelude.{
  ℕ, ◌*◌, ◌&&◌, not, List, [], ◌∷◌, Option, none, some, ◌==◌, keep, if◌then◌else◌,
}
use leave_management_system.Prelude.Int.{ℤ, pos}
use leave_management_system.Models.Role.{Role, role_eq}
use leave_management_system.Models.Leave.{LeaveType}
use leave_management_system.Database.{Action, select, pure, annotate, forget, ◌>>=◌, ◌>>◌}
use leave_management_system.Leave.Days.{prorated_leave}
use leave_management_system.Accounts.Store.{
  Employee, Store, create_leave_balance, update_leave_balance, get_leave_balance,
  get_all_leave_types, get_employee,
}

-- The opening balance in days: prorated for who joined in the current year.
unfoldable pub new_opening : ℕ → Option (ℕ × ℕ) → ℕ → ℕ
new_opening entitlement none current_year = entitlement
new_opening entitlement (some (year, month)) current_year =
    if year == current_year then prorated_leave entitlement month else entitlement

-- In half days.
abbrev pub half_days : ℕ → ℤ
half_days days = pos (2 * days)

-- The entitlement of a role.
unfoldable pub entitlement_of : LeaveType → Role → ℕ
entitlement_of lt role = elim lt.intern_entitlement [
  | none ↦ lt.default_entitlement
  | some n ↦ if role_eq role Role.intern then n else lt.default_entitlement
]

-- The loop over the employees. `GetLeaveBalance` never answers `sql.ErrNoRows`, so that the branch
-- that creates a row is not reached, and any other error it answers is not looked at.
unfoldable pub reopen_each : ℕ → ℕ → ℕ → List Employee → Action Store (Unit {0})
reopen_each leave_type_id entitlement current_year [] = pure tt
reopen_each leave_type_id entitlement current_year (emp ∷ employees) =
    forget (get_leave_balance emp.id leave_type_id current_year) >>= λ balance.
    update_leave_balance (half_days (new_opening entitlement emp.joining current_year)) emp.id
      leave_type_id current_year
    >> reopen_each leave_type_id entitlement current_year employees

unfoldable pub update_intern_leave_balances_for_entitlement_change :
    ℕ → ℕ → ℕ → Action Store (Unit {0})
update_intern_leave_balances_for_entitlement_change leave_type_id new_intern_entitlement
      current_year =
    do
      employees ←
          annotate "failed to fetch INTERN employees: "
            (select (λ s. keep (λ e. role_eq e.role Role.intern) s.employees))
      reopen_each leave_type_id new_intern_entitlement current_year employees

unfoldable pub update_leave_balances_for_entitlement_change :
    ℕ → ℕ → ℕ → ℕ → Action Store (Unit {0})
update_leave_balances_for_entitlement_change leave_type_id old_entitlement new_entitlement
      current_year =
    do
      employees ←
          annotate "failed to fetch non-INTERN employees: "
            (select (λ s. keep (λ e. not (role_eq e.role Role.intern)) s.employees))
      reopen_each leave_type_id new_entitlement current_year employees

-- The loop over the leave types of one employee.
unfoldable pub reopen_types :
    ℕ → Role → Option (ℕ × ℕ) → ℕ → List LeaveType → Action Store (Unit {0})
reopen_types employee_id role joining current_year [] = pure tt
reopen_types employee_id role joining current_year (lt ∷ leave_types) =
    update_leave_balance (half_days (new_opening (entitlement_of lt role) joining current_year))
      employee_id lt.id current_year
    >> reopen_types employee_id role joining current_year leave_types

-- The joining date, where the query succeeds.
abbrev pub joining_of : Option (Option Employee) → Option (ℕ × ℕ)
joining_of (some (some e)) = e.joining
joining_of _ = none

unfoldable pub adjust_leave_balances_for_role_change : ℕ → Role → Role → ℕ → Action Store (Unit {0})
adjust_leave_balances_for_role_change employee_id old_role new_role current_year =
    if not (role_eq old_role Role.intern) && not (role_eq new_role Role.intern)
    then pure tt
    else (forget (get_employee employee_id) >>= λ employee. do
      leave_types ← annotate "failed to fetch leave types: " get_all_leave_types
      reopen_types employee_id new_role (joining_of employee) current_year leave_types)

unfoldable pub recalculate_leave_balances_for_joining_date_change :
    ℕ → Option (ℕ × ℕ) → Role → ℕ → Action Store (Unit {0})
recalculate_leave_balances_for_joining_date_change employee_id new_joining_date emp_role
      current_year =
    do
      leave_types ← annotate "failed to fetch leave types: " get_all_leave_types
      reopen_types employee_id emp_role new_joining_date current_year leave_types

abbrev pub initial_entitlement : ℕ → Option ℕ → Role → ℕ
initial_entitlement default_entitlement none role = default_entitlement
initial_entitlement default_entitlement (some n) role =
    if role_eq role Role.intern then n else default_entitlement

unfoldable pub bulk_allocate_leave_balance_for_new_leave_type :
    ℕ → ℕ → ℕ → Option ℕ → List Employee → Action Store (Unit {0})
bulk_allocate_leave_balance_for_new_leave_type current_year leave_type_id default_entitlement
      intern_entitlement [] =
    pure tt
bulk_allocate_leave_balance_for_new_leave_type current_year leave_type_id default_entitlement
      intern_entitlement (emp ∷ employees) =
    create_leave_balance emp.id leave_type_id current_year (
      half_days (
        new_opening (initial_entitlement default_entitlement intern_entitlement emp.role)
          emp.joining current_year))
    >> bulk_allocate_leave_balance_for_new_leave_type current_year leave_type_id default_entitlement
        intern_entitlement employees
