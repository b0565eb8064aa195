-- ===== src/Tests/Accounting.antt =====
-- The properties of entitlements and accruals, at concrete inputs.
use leave_management_system.Prelude.{◌≡◌, refl, true, [], ◌∷◌, none, some}
use leave_management_system.Models.Role.{Role}
use leave_management_system.Database.{statement, select, exec}
use leave_management_system.Accounts.Store.{Employee, Store}
use leave_management_system.Accounts.Accrual.{
  skipped, credit_pair, is_accrual_already_run, credit_monthly_accrual,
}
use leave_management_system.Accounts.Credits.{credit_pair-once}
use leave_management_system.Accounts.Accrual.{run_accrual}
use leave_management_system.Accounts.Accruing.{IsUnspent, run_accrual-IsUnspent}
use leave_management_system.Tests.Inputs.{running, leave_type, balance}

abbrev worker : Employee
worker = record { id = 7; role = Role.employee; joining = some (2, 4); is_active = true }

abbrev intern : Employee
intern = record { id = 9; role = Role.intern; joining = none; is_active = true }

abbrev accounts : Store
accounts = record {
  balances = balance ∷ [];
  leave_types = leave_type ∷ [];
  employees = worker ∷ intern ∷ [];
  adjustments = [];
  accruals = [];
}

credit_pair-once_example :
    credit_pair 5 2 worker leave_type
      (running (credit_pair 5 2 worker leave_type (running accounts)).1.db)
    ≡ (skipped, running (credit_pair 5 2 worker leave_type (running accounts)).1.db)
unfolding credit_pair is_accrual_already_run credit_monthly_accrual select exec statement
credit_pair-once_example = credit_pair-once 5 2 worker leave_type (running accounts) refl

run_accrual-IsUnspent_example : IsUnspent 7 3 2 balance (run_accrual 5 2 (running accounts)).1.db
run_accrual-IsUnspent_example = run_accrual-IsUnspent 7 3 2 balance 5 2 (running accounts) refl
