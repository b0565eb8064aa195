-- ===== src/Accounts/Adjustment.antt =====
-- `AdjustLeaveBalance` of internal/handler/leaveBalance.go, from its role check on. The request is
-- parsed already. A quantity is a number of half days.
use leave_management_system.Prelude.{
  ℕ, ◌&&◌, not, Option, none, some, String, ◌==◌, if◌then◌else◌, find,
}
use leave_management_system.Prelude.Int.{ℤ, ◌+ℤ◌, ◌-ℤ◌}
use leave_management_system.Models.Role.{Role, role_eq}
use leave_management_system.Models.Leave.{Balance}
use leave_management_system.Database.{
  Action, in_transaction, app, plain, fail, pure, or_fail, select, wrap, ◌>>=◌, ◌>>◌,
}
use leave_management_system.Accounts.Store.{
  Store, new_balance, create_leave_balance, get_leave_balance_for_adjustment,
  update_leave_balance_adjustment, insert_leave_adjustment, get_employee,
}
use leave_management_system.Accounts.Entitlement.{entitlement_of, half_days}

unfoldable pub get_default_entitlement_by_leave_type_id : ℕ → Role → Action Store ℕ
get_default_entitlement_by_leave_type_id leave_type_id role = do
  row ← select (λ s. find (λ t. t.id == leave_type_id) s.leave_types)
  lt ← or_fail row (plain "sql: no rows in result set")
  pure (entitlement_of lt role)

unfoldable pub get_role_of : ℕ → Action Store Role
get_role_of employee_id = get_employee employee_id >>= λ row.
    or_fail row (plain "sql: no rows in result set") >>= λ e. pure e.role

unfoldable pub open_row : ℕ → ℕ → ℕ → ℕ → Action Store Balance
open_row employee_id leave_type_id current_year default_entitlement =
    wrap 500 "Failed to create leave balance: "
      (create_leave_balance employee_id leave_type_id current_year (half_days default_entitlement))
    >>= λ _.
        pure (new_balance employee_id leave_type_id current_year (half_days default_entitlement))

-- The row that was found, or a new one.
unfoldable pub or_created : ℕ → ℕ → ℕ → Option Balance → Action Store Balance
or_created employee_id leave_type_id current_year (some balance) = pure balance
or_created employee_id leave_type_id current_year none =
    wrap 500 "Failed to fetch employee role: " (get_role_of employee_id) >>= λ role.
    wrap 500 "Failed to fetch leave type: "
      (get_default_entitlement_by_leave_type_id leave_type_id role)
    >>= open_row employee_id leave_type_id current_year

unfoldable pub fetch_or_create : ℕ → ℕ → ℕ → Action Store Balance
fetch_or_create employee_id leave_type_id current_year =
    wrap 500 "Failed to fetch leave balance: "
      (get_leave_balance_for_adjustment employee_id leave_type_id current_year)
    >>= or_created employee_id leave_type_id current_year

unfoldable pub apply_adjustment : ℕ → ℕ → ℤ → String → ℕ → ℕ → Balance → Action Store (ℤ × ℤ)
apply_adjustment employee_id leave_type_id quantity reason user_id current_year balance = do
  wrap 500 "Failed to update leave balance: " (
      update_leave_balance_adjustment balance (balance.adjusted +ℤ quantity)
        (balance.opening -ℤ balance.used +ℤ (balance.adjusted +ℤ quantity)))
  wrap 500 "Failed to record leave adjustment: " (
      insert_leave_adjustment (record {
        employee_id = employee_id;
        leave_type_id = leave_type_id;
        quantity = quantity;
        reason = reason;
        created_by = user_id;
        year = current_year;
      }))
  pure (
    balance.adjusted +ℤ quantity,
    balance.opening -ℤ balance.used +ℤ (balance.adjusted +ℤ quantity),
  )

-- The answer is the new adjustment and the new closing balance.
unfoldable pub adjust_leave_balance : Role → ℕ → ℕ → ℤ → String → ℕ → ℕ → Action Store (ℤ × ℤ)
adjust_leave_balance role employee_id leave_type_id quantity reason user_id current_year =
    if not (role_eq role Role.admin) && not (role_eq role Role.super_admin)
    then fail (app 403 "Not authorized to adjust leave balances")
    else in_transaction (λ m. app 500 "Failed to start transaction")
        (λ m. app 500 "Transaction commit failed")
        (fetch_or_create employee_id leave_type_id current_year >>= λ balance.
          apply_adjustment employee_id leave_type_id quantity reason user_id current_year balance)
