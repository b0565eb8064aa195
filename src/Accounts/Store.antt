-- ===== src/Accounts/Store.antt =====
-- The tables behind entitlements: balances, their adjustments and accruals, leave types and
-- employees. The statements are those of internal/repositories/leaveBalance.go, leave.go,
-- leaveAccrual.go and leavePolicy.go. Days are counted in half days.
use leave_management_system.Prelude.{
  ℕ, Bool, true, false, not, List, ◌∷◌, Option, none, some, String, ◌==◌, find, keep, any, update,
  if◌then◌else◌,
}
use leave_management_system.Prelude.Int.{ℤ, pos, ◌+ℤ◌, ◌-ℤ◌}
use leave_management_system.Models.Role.{Role}
use leave_management_system.Models.Leave.{LeaveType, Balance, is_early_leave}
use leave_management_system.Database.{Action, plain, statement, select, exec, pure, fail, ◌>>=◌}
use leave_management_system.Tables.{is_row}

-- `joining` is the year and the month of the joining date.
pub record Employee : Type 0 where
  pub id : ℕ
  pub role : Role
  pub joining : Option (ℕ × ℕ)
  pub is_active : Bool

pub record Adjustment : Type 0 where
  pub employee_id : ℕ
  pub leave_type_id : ℕ
  pub quantity : ℤ
  pub reason : String
  pub created_by : ℕ
  pub year : ℕ

pub record AccrualEntry : Type 0 where
  pub employee_id : ℕ
  pub leave_type_id : ℕ
  pub month : ℕ
  pub year : ℕ
  pub days_credited : ℕ

pub record Store : Type 0 where
  pub balances : List Balance
  pub leave_types : List LeaveType
  pub employees : List Employee
  pub adjustments : List Adjustment
  pub accruals : List AccrualEntry

abbrev pub new_balance : ℕ → ℕ → ℕ → ℤ → Balance
new_balance employee_id leave_type_id year opening = record {
  employee_id = employee_id;
  leave_type_id = leave_type_id;
  year = year;
  opening = opening;
  accrued = pos 0;
  used = pos 0;
  adjusted = pos 0;
  closing = opening;
}

abbrev pub has_row : ℕ → ℕ → ℕ → List Balance → Bool
has_row employee_id leave_type_id year balances =
    any (is_row employee_id leave_type_id year) balances

-- An insert into the balances, which the constraint `uq_leave_balance` lets pass or not.
abbrev pub insert_row : ℕ → ℕ → ℕ → ℤ → Store → Store
insert_row employee_id leave_type_id year opening s =
    if has_row employee_id leave_type_id year s.balances
    then s
    else record s { balances = new_balance employee_id leave_type_id year opening ∷ s.balances }

abbrev pub refuse_duplicate : Bool → Action Store (Unit {0})
refuse_duplicate true =
    fail (plain "pq: duplicate key value violates unique constraint \"uq_leave_balance\"")
refuse_duplicate false = pure tt

unfoldable pub create_leave_balance : ℕ → ℕ → ℕ → ℤ → Action Store (Unit {0})
create_leave_balance employee_id leave_type_id year entitlement = do
  duplicate ← statement (λ s. (
    has_row employee_id leave_type_id year s.balances,
    insert_row employee_id leave_type_id year entitlement s,
  ))
  refuse_duplicate duplicate

abbrev pub reopen : ℤ → Balance → Balance
reopen new_opening b = record b {
  opening = new_opening;
  closing = new_opening -ℤ b.used +ℤ b.adjusted;
}

unfoldable pub update_leave_balance : ℤ → ℕ → ℕ → ℕ → Action Store (Unit {0})
update_leave_balance new_opening employee_id id current_year = exec (λ s. record s {
  balances = update (is_row employee_id id current_year) (reopen new_opening) s.balances;
})

-- `sql.ErrNoRows` becomes a balance of 0 and no error.
unfoldable pub get_leave_balance : ℕ → ℕ → ℕ → Action Store ℤ
get_leave_balance employee_id leave_type_id current_year = do
  row ← select (λ s. find (is_row employee_id leave_type_id current_year) s.balances)
  elim row [ none ↦ pure (pos 0) | some b ↦ pure b.closing ]

unfoldable pub get_leave_balance_for_adjustment : ℕ → ℕ → ℕ → Action Store (Option Balance)
get_leave_balance_for_adjustment employee_id leave_type_id year =
    select (λ s. find (is_row employee_id leave_type_id year) s.balances)

-- The row is the one that was read: a row is determined by its employee, type and year.
abbrev pub readjust : ℤ → ℤ → Balance → Balance
readjust new_adjusted new_closing b = record b { adjusted = new_adjusted; closing = new_closing }

unfoldable pub update_leave_balance_adjustment : Balance → ℤ → ℤ → Action Store (Unit {0})
update_leave_balance_adjustment balance new_adjusted new_closing = exec (λ s. record s {
  balances =
      update (is_row balance.employee_id balance.leave_type_id balance.year)
        (readjust new_adjusted new_closing) s.balances;
})

unfoldable pub insert_leave_adjustment : Adjustment → Action Store (Unit {0})
insert_leave_adjustment entry = exec (λ s. record s { adjustments = entry ∷ s.adjustments })

-- `GetAllLeaveTypes`: the types that are not early.
unfoldable pub get_all_leave_types : Action Store (List LeaveType)
unfolding is_early_leave
get_all_leave_types = select (λ s. keep (λ t. not (is_early_leave t)) s.leave_types)

unfoldable pub get_employee : ℕ → Action Store (Option Employee)
get_employee employee_id = select (λ s. find (λ e. e.id == employee_id) s.employees)
