-- ===== src/Payroll/Absence.antt =====
-- `CalculateAbsentDaysForMonth`. Days are counted in half days.
use leave_management_system.Prelude.{
  ℕ, zero, suc, ◌+◌, ◌-◌, Bool, true, false, ◌&&◌, List, [], ◌∷◌, Option, none, some, ◌==◌, ltb,
  leb, find, keep, sum_by, if◌then◌else◌,
}
use leave_management_system.Models.Leave.{Status, status_eq, Leave, LeaveType, is_early_leave}
use leave_management_system.Database.{Action, select, pure, forget, ◌>>=◌}
use leave_management_system.Leave.Days.{is_working_day}
use leave_management_system.Payroll.Store.{Store, Months}

pub record LeaveSummary : Type 0 where
  pub paid_days : ℕ
  pub unpaid_days : ℕ
  pub early_leaves : ℕ

abbrev pub no_leaves : LeaveSummary
no_leaves = record { paid_days = 0; unpaid_days = 0; early_leaves = 0 }

-- What one working day of the leave counts: the days of the leave where it is a part of one day.
abbrev pub day_amount : Leave → ℕ
day_amount leave = if leave.start_date == leave.end_date && ltb leave.days 2 then leave.days else 2

-- The loop from `d` over `n` days.
unfoldable pub absent_days : List ℕ → ℕ → ℕ → ℕ → ℕ
absent_days holidays amount d zero = 0
absent_days holidays amount d (suc n) =
    (if is_working_day holidays d then amount else 0) + absent_days holidays amount (d + 1) n

abbrev pub later : ℕ → ℕ → ℕ
later a b = if ltb a b then b else a

abbrev pub earlier : ℕ → ℕ → ℕ
earlier a b = if ltb b a then b else a

-- The days of a leave between two days.
unfoldable pub actual_days : List ℕ → ℕ → ℕ → Leave → ℕ
actual_days holidays first last leave =
    absent_days holidays (day_amount leave) (later leave.start_date first)
      (earlier leave.end_date last + 1 - later leave.start_date first)

abbrev pub overlaps : ℕ → ℕ → ℕ → Leave → Bool
overlaps employee_id first last l =
    l.employee_id == employee_id
    && status_eq l.status Status.approved
    && leb l.start_date last
    && leb first l.end_date

abbrev pub type_of : List LeaveType → Leave → Option LeaveType
type_of leave_types l = find (λ t. t.id == l.leave_type_id) leave_types

-- The leave with the flag of its type, where the type is there and is not early.
abbrev pub with_flag : Leave → Option LeaveType → List (Leave × Bool) → List (Leave × Bool)
with_flag l none rest = rest
with_flag l (some t) rest = if is_early_leave t then rest else (l, t.is_paid) ∷ rest

abbrev pub absences : List LeaveType → List Leave → List (Leave × Bool)
absences leave_types [] = []
absences leave_types (l ∷ ls) = with_flag l (type_of leave_types l) (absences leave_types ls)

abbrev pub is_early_type : Option LeaveType → Bool
is_early_type none = false
is_early_type (some t) = is_early_leave t

-- The sum of both kinds of leave, each over its own.
abbrev pub sum_absences : List ℕ → ℕ → ℕ → Bool → List (Leave × Bool) → ℕ
sum_absences holidays first last paid [] = 0
sum_absences holidays first last true ((l, true) ∷ ls) =
    actual_days holidays first last l + sum_absences holidays first last true ls
sum_absences holidays first last false ((l, false) ∷ ls) =
    actual_days holidays first last l + sum_absences holidays first last false ls
sum_absences holidays first last paid ((l, _) ∷ ls) = sum_absences holidays first last paid ls

abbrev pub or_nothing : {A : Type 0} → Option (List A) → List A
or_nothing none = []
or_nothing (some xs) = xs

abbrev pub or_zero : Option ℕ → ℕ
or_zero none = 0
or_zero (some n) = n

module _ {F : Type 0} (months : Months) where
  abbrev pub summarise :
      List ℕ → ℕ → ℕ → ℕ → Option (List (Leave × Bool)) → Action (Store F) LeaveSummary
  summarise holidays employee_id first last none = pure no_leaves
  summarise holidays employee_id first last (some leaves) = do
    early ← forget (
        select (λ s.
          sum_by (λ l. l.days)
            (keep
              (λ l.
                overlaps employee_id first last l
                && is_early_type (type_of s.leave_tables.leave_types l))
              s.leave_tables.leaves)))
    pure (record {
      paid_days = sum_absences holidays first last true leaves;
      unpaid_days = sum_absences holidays first last false leaves;
      early_leaves = or_zero early;
    })

  -- An error of the query for holidays counts as no holidays, one of the query for leaves as no
  -- leaves.
  unfoldable pub calculate_absent_days_for_month : ℕ → ℕ → ℕ → Action (Store F) LeaveSummary
  calculate_absent_days_for_month employee_id month year =
      let first = months.first_day month year in
      let last = months.last_day month year in
      forget (select (λ s. keep (λ h. leb first h && leb h last) s.leave_tables.holidays))
      >>= λ holidays.
          forget (
            select (λ s.
              absences s.leave_tables.leave_types
                (keep (overlaps employee_id first last) s.leave_tables.leaves)))
          >>= λ leaves. summarise (or_nothing holidays) employee_id first last leaves
