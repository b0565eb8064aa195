-- ===== src/Payroll/Store.antt =====
-- The tables that payroll reads and writes, and the statements of internal/repositories/payroll.go.
-- Amounts of money are of the type that the section takes, which stands for float64.
use leave_management_system.Prelude.{
  ℕ, Bool, ◌&&◌, ◌||◌, false, List, [], ◌∷◌, Option, none, some, ◌==◌, ltb, leb, find, keep,
}
use leave_management_system.Prelude.Int.{ℤ, pos}
use leave_management_system.Database.{Action, plain, pure, forget, select, or_fail, ◌>>=◌}
use leave_management_system.Tables.{Tables}

-- The operations on float64 that the amounts use. Days of leave are counted in half days.
pub record FloatOps (F : Type 0) : Type 0 where
  pub of_int : ℤ → F
  pub of_half_days : ℕ → F
  pub add : F → F → F
  pub sub : F → F → F
  pub mul : F → F → F
  pub div : F → F → F

-- The status of a run, as `ToUpper` and `TrimSpace` leave it.
pub data RunStatus : Type 0 where
  preview finalized : RunStatus
  other_status : ℕ → RunStatus

pub record PayrollRun : Type 0 where
  pub id : ℕ
  pub month : ℕ
  pub year : ℕ
  pub status : RunStatus

-- `joining` is the year and the month of the joining date.
pub record Member (F : Type 0) : Type 0 where
  pub id : ℕ
  pub salary : Option F
  pub is_active : Bool
  pub joining : Option (ℕ × ℕ)

pub record Payslip (F : Type 0) : Type 0 where
  pub id : ℕ
  pub payroll_run_id : ℕ
  pub employee_id : ℕ
  pub basic_salary : F
  pub working_days : ℤ
  pub paid_leaves : ℕ
  pub unpaid_leaves : ℕ
  pub early_leaves : ℕ
  pub deduction_amount : F
  pub net_salary : F

-- `settings` is the number of working days in each row of the company's settings, newest first.
pub record Store (F : Type 0) : Type 0 where
  pub leave_tables : Tables
  pub members : List (Member F)
  pub runs : List PayrollRun
  pub payslips : List (Payslip F)
  pub settings : List ℤ
  pub next_id : ℕ

abbrev pub head : {A : Type 0} → List A → Option A
head [] = none
head (x ∷ xs) = some x

-- The first day and the last day of a month of a year.
pub record Months : Type 0 where
  pub first_day : ℕ → ℕ → ℕ
  pub last_day : ℕ → ℕ → ℕ

-- A comparison with a joining date that is NULL does not hold.
abbrev pub joined_by : ℕ → ℕ → Option (ℕ × ℕ) → Bool
joined_by month year none = false
joined_by month year (some (y, m)) = ltb y year || (y == year && leb m month)

abbrev pub or_default : Option ℤ → ℤ
or_default none = pos 22
or_default (some n) = n

module _ {F : Type 0} where
  abbrev pub is_paid_in : ℕ → ℕ → Member F → Bool
  is_paid_in month year e = e.is_active && joined_by month year e.joining

  unfoldable pub get_exitsting_payload : ℕ → ℕ → Action (Store F) PayrollRun
  get_exitsting_payload month year = do
    row ← select (λ s. find (λ r. r.month == month && r.year == year) s.runs)
    or_fail row (plain "sql: no rows in result set")

  unfoldable pub get_working_days : Action (Store F) ℤ
  get_working_days = do
    row ← select (λ s. head s.settings)
    or_fail row (plain "sql: no rows in result set")

  -- Any error gives the default.
  unfoldable pub get_company_curr_working_days : Action (Store F) ℤ
  get_company_curr_working_days = do days ← forget get_working_days; pure (or_default days)

  unfoldable pub get_employee_by_month_and_year : ℕ → ℕ → Action (Store F) (List (Member F))
  get_employee_by_month_and_year month year = select (λ s. keep (is_paid_in month year) s.members)
