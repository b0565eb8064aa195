-- ===== src/Tables.antt =====
-- The tables of the leave subsystem, and the SQL statements of internal/repositories (leave.go,
-- leaveFlow.go, leaveLogFlow.go, leaveBalance.go, leavePolicy.go) over them.
use leave_management_system.Prelude.{
  ℕ, ◌+◌, Bool, ◌&&◌, ◌||◌, not, List, [], ◌∷◌, ◌++◌, Option, none, some, ◌==◌, leb, find, keep,
  any, update, sum_by, same, if◌then◌else◌,
}
use mathlib.Core.List.{foldr}
use leave_management_system.Prelude.Int.{ℤ, pos, ◌+ℤ◌, ◌-ℤ◌}
use leave_management_system.Models.Leave.{
  Status, status_eq, LeaveFlowStage, LeaveFlow, Leave, LeaveInput, LeaveType, LeaveApprovalFlow,
  Balance, is_early_leave,
}
use leave_management_system.Database.{
  Action, plain, statement, select, exec, pure, fail, or_fail, ◌>>=◌,
}

pub record Tables : Type 0 where
  pub leaves : List Leave
  pub leave_types : List LeaveType
  pub balances : List Balance
  pub leave_flows : List LeaveFlow
  pub approval_flows : List LeaveApprovalFlow
  pub holidays : List ℕ
  pub next_id : ℕ

-- Dates as the database and the standard library read them; `today` is CURRENT_DATE.
pub record Calendar : Type 0 where
  pub today : ℕ
  pub year_of : ℕ → ℕ
  pub month_of : ℕ → ℕ

abbrev pub current_year : Calendar → ℕ
current_year cal = cal.year_of cal.today

-- leaveLogFlow.go

unfoldable pub insert_flow : LeaveFlow → Action Tables (Unit {0})
insert_flow flow = exec (λ s. record s { leave_flows = s.leave_flows ++ flow ∷ [] })

unfoldable pub get_flow_by_leave_id : ℕ → Action Tables (Option LeaveFlow)
get_flow_by_leave_id leave_id = select (λ s. find (λ f. f.leave_id == leave_id) s.leave_flows)

unfoldable pub update_approval_log : ℕ → List LeaveFlowStage → Action Tables (Unit {0})
update_approval_log leave_id log = exec (λ s. record s {
  leave_flows =
      update (λ f. f.leave_id == leave_id) (λ f. record f { approval_log = log }) s.leave_flows;
})

-- leaveFlow.go

unfoldable pub get_leave_by_id : ℕ → Action Tables (Option Leave)
get_leave_by_id leave_id = select (λ s. find (λ l. l.id == leave_id) s.leaves)

unfoldable pub update_leave_status_tx : ℕ → Status → ℕ → Action Tables (Unit {0})
update_leave_status_tx leave_id status approver_id = exec (λ s. record s {
  leaves =
      update (λ l. l.id == leave_id)
        (λ l. record l { status = status; approved_by = some approver_id }) s.leaves;
})

unfoldable pub update_leave_status : ℕ → Status → Action Tables (Unit {0})
update_leave_status leave_id status = exec (λ s. record s {
  leaves = update (λ l. l.id == leave_id) (λ l. record l { status = status }) s.leaves;
})

abbrev new_leave : ℕ → LeaveInput → ℕ → Option (List ℕ) → Leave
new_leave id input days leave_timing = record {
  id = id;
  employee_id = input.employee_id;
  leave_type_id = input.leave_type_id;
  half_id = input.leave_timing_id;
  leave_timing = leave_timing;
  start_date = input.start_date;
  end_date = input.end_date;
  days = days;
  status = Status.pending;
  approved_by = none;
  reason = input.reason;
}

-- `RETURNING id`: the database picks an id that no row has.
unfoldable pub insert_leave : LeaveInput → ℕ → Option (List ℕ) → Action Tables ℕ
insert_leave input days leave_timing = statement (λ s. (
  s.next_id,
  record s {
    leaves = s.leaves ++ new_leave s.next_id input days leave_timing ∷ [];
    next_id = s.next_id + 1;
  },
))

-- The rows that an edit may touch.
abbrev pub is_editable : ℕ → ℕ → Leave → Bool
is_editable leave_id employee_id l =
    l.id == leave_id && l.employee_id == employee_id && status_eq l.status Status.pending

abbrev pub edit_leave : LeaveInput → ℕ → Leave → Leave
edit_leave input days l = record l {
  start_date = input.start_date;
  end_date = input.end_date;
  leave_type_id = input.leave_type_id;
  reason = input.reason;
  days = days;
  half_id = input.leave_timing_id;
}

-- The update answers with whether a row was changed.
unfoldable pub update_leave : ℕ → ℕ → LeaveInput → ℕ → Action Tables (Unit {0})
update_leave leave_id employee_id input days = do
  edited ← statement (λ s. (
    any (is_editable leave_id employee_id) s.leaves,
    record s {
      leaves = update (is_editable leave_id employee_id) (edit_leave input days) s.leaves;
    },
  ))
  if edited
      then pure tt
      else fail (
          plain
            "leave cannot be edited: either it does not exist, you don't own it, or it is already processed")

-- leavePolicy.go and leaveApprovalFlow.go

unfoldable pub get_leave_type_by_id : ℕ → Action Tables LeaveType
get_leave_type_by_id leave_type_id = do
  row ← select (λ s. find (λ t. t.id == leave_type_id) s.leave_types)
  or_fail row (plain "sql: no rows in result set")

unfoldable pub get_approval_flow_by_id : ℕ → Action Tables LeaveApprovalFlow
get_approval_flow_by_id id = do
  row ← select (λ s. find (λ f. f.id == id) s.approval_flows)
  or_fail row (plain "sql: no rows in result set")

-- holiday.go

unfoldable pub get_holidays_between : ℕ → ℕ → Action Tables (List ℕ)
get_holidays_between start end = select (λ s. keep (λ h. leb start h && leb h end) s.holidays)

-- leaveBalance.go

-- The row of one employee, leave type and year.
abbrev pub is_row : ℕ → ℕ → ℕ → Balance → Bool
is_row employee_id leave_type_id year b =
    b.employee_id == employee_id && b.leave_type_id == leave_type_id && b.year == year

abbrev pub use_days : ℕ → Balance → Balance
use_days days b = record b { used = b.used +ℤ pos days; closing = b.closing -ℤ pos days }

abbrev pub return_days : ℕ → Balance → Balance
return_days days b = record b { used = b.used -ℤ pos days; closing = b.closing +ℤ pos days }

module _ (cal : Calendar) where
  unfoldable pub update_leave_balance_by_employee_id : ℕ → ℕ → ℕ → Action Tables (Unit {0})
  update_leave_balance_by_employee_id employee_id leave_type_id days = exec (λ s. record s {
    balances =
        update (is_row employee_id leave_type_id (current_year cal)) (use_days days) s.balances;
  })

  unfoldable pub update_withdraw_leave_balance_by_employee_id : ℕ → ℕ → ℕ → Action Tables (Unit {0})
  update_withdraw_leave_balance_by_employee_id employee_id leave_type_id days = exec (λ s.
      record s {
        balances =
            update (is_row employee_id leave_type_id (current_year cal)) (return_days days)
              s.balances;
      })

  -- leave.go

  -- `sql.ErrNoRows` is turned into a balance of 0.
  unfoldable pub get_leave_balance : ℕ → ℕ → Action Tables ℤ
  get_leave_balance employee_id leave_type_id = do
    row ← select (λ s. find (is_row employee_id leave_type_id (current_year cal)) s.balances)
    elim row [ none ↦ pure (pos 0) | some b ↦ pure b.closing ]

  abbrev pub is_pending_of : ℕ → ℕ → Option ℕ → Leave → Bool
  is_pending_of employee_id leave_type_id exclude_leave_id l =
      l.employee_id == employee_id
      && l.leave_type_id == leave_type_id
      && status_eq l.status Status.pending
      && cal.year_of l.start_date == current_year cal
      && not (same (some l.id) exclude_leave_id)

  unfoldable pub get_pending_leave_days : ℕ → ℕ → Option ℕ → Action Tables ℕ
  get_pending_leave_days employee_id leave_type_id exclude_leave_id = select (λ s.
      sum_by (λ l. l.days)
        (keep (is_pending_of employee_id leave_type_id exclude_leave_id) s.leaves))

  -- The type of a row, where it is paid and not early.
  abbrev pub is_paid_type : List LeaveType → ℕ → Bool
  is_paid_type leave_types leave_type_id =
      any (λ t. t.id == leave_type_id && t.is_paid && not (is_early_leave t)) leave_types

  unfoldable pub get_total_paid_leave_balance : ℕ → Action Tables ℤ
  unfolding is_early_leave
  get_total_paid_leave_balance employee_id = select (λ s.
      foldr (λ b acc. b.closing +ℤ acc) (pos 0)
        (keep
          (λ b.
            b.employee_id == employee_id
            && b.year == current_year cal
            && is_paid_type s.leave_types b.leave_type_id)
          s.balances))

  -- The query also names the status MANAGER_APPROVED, which nothing writes.
  unfoldable pub get_total_pending_paid_leave_days : ℕ → Action Tables ℕ
  unfolding is_early_leave
  get_total_pending_paid_leave_days employee_id = select (λ s.
      sum_by (λ l. l.days)
        (keep
          (λ l.
            l.employee_id == employee_id
            && status_eq l.status Status.pending
            && cal.year_of l.start_date == current_year cal
            && is_paid_type s.leave_types l.leave_type_id)
          s.leaves))

  abbrev pub is_early_of : List LeaveType → ℕ → ℕ → ℕ → Leave → Bool
  is_early_of leave_types employee_id leave_type_id ref_date l =
      l.employee_id == employee_id
      && l.leave_type_id == leave_type_id
      && any (λ t. t.id == leave_type_id && is_early_leave t) leave_types
      && (status_eq l.status Status.pending || status_eq l.status Status.approved)
      && cal.year_of l.start_date == cal.year_of ref_date
      && cal.month_of l.start_date == cal.month_of ref_date

  unfoldable pub get_early_leave_this_month : ℕ → ℕ → ℕ → Action Tables (Option Leave)
  unfolding is_early_leave
  get_early_leave_this_month employee_id leave_type_id ref_date =
      select (λ s. find (is_early_of s.leave_types employee_id leave_type_id ref_date) s.leaves)

-- A pending or approved leave of the employee that shares a day with start to end. The query joins
-- the leave types for a name; every leave has a type by a foreign key.
abbrev pub is_overlap : ℕ → ℕ → ℕ → Option ℕ → Leave → Bool
is_overlap employee_id start_date end_date exclude_leave_id l =
    l.employee_id == employee_id
    && (status_eq l.status Status.pending || status_eq l.status Status.approved)
    && leb l.start_date end_date
    && leb start_date l.end_date
    && not (same (some l.id) exclude_leave_id)

unfoldable pub get_overlapping_leaves : ℕ → ℕ → ℕ → Option ℕ → Action Tables (List Leave)
get_overlapping_leaves employee_id start_date end_date exclude_leave_id =
    select (λ s. keep (is_overlap employee_id start_date end_date exclude_leave_id) s.leaves)

unfoldable pub get_leave_days_by_id : ℕ → Action Tables ℕ
get_leave_days_by_id leave_id = do
  row ← select (λ s. find (λ l. l.id == leave_id) s.leaves)
  elim row [ none ↦ pure 0 | some l ↦ pure l.days ]
