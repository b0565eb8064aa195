-- ===== src/Payroll/Run.antt =====
-- `RunPayroll` and `FinalizePayroll`, from their role checks on. The request is parsed already.
use leave_management_system.Prelude.{
  ℕ, ◌+◌, ◌%◌, Bool, true, false, ◌&&◌, ◌||◌, not, List, [], ◌∷◌, Option, none, some, String, ◌==◌,
  ltb, leb, find, any, keep, update, if◌then◌else◌,
}
use Prim.Native.String.{◌++◌}
use leave_management_system.Prelude.Int.{ℤ, pos, ltb_ℤ}
use leave_management_system.Models.Role.{Role, role_eq}
use leave_management_system.Database.{
  Action, app, plain, pure, fail, forget, wrap, select, exec, statement, in_transaction, or_fail,
  ◌>>=◌, ◌>>◌,
}
use leave_management_system.Payroll.Store.{
  FloatOps, RunStatus, PayrollRun, Member, Payslip, Store, Months, is_paid_in,
  get_exitsting_payload, get_working_days, get_company_curr_working_days,
  get_employee_by_month_and_year,
}
use leave_management_system.Payroll.Absence.{LeaveSummary, calculate_absent_days_for_month}

abbrev pub is_finalized : RunStatus → Bool
is_finalized RunStatus.finalized = true
is_finalized _ = false

abbrev pub is_preview : RunStatus → Bool
is_preview RunStatus.preview = true
is_preview _ = false

-- A run that was found and is finalized; an error of the query counts as no run.
abbrev pub blocks : Option PayrollRun → Bool
blocks none = false
blocks (some run) = is_finalized run.status

abbrev pub flatten : {A : Type 0} → Option (Option A) → Option A
flatten none = none
flatten (some o) = o

-- Less than one working day gives the default.
abbrev pub fallback : Option ℤ → ℤ
fallback none = pos 22
fallback (some n) = if ltb_ℤ (pos 0) n then n else pos 22

pub record PayrollPreview (F : Type 0) : Type 0 where
  pub employee_id : ℕ
  pub basic_salary : F
  pub working_days : ℤ
  pub paid_leaves : ℕ
  pub unpaid_leaves : ℕ
  pub early_leaves : ℕ
  pub deductions : F
  pub net_salary : F

pub record RunAnswer (F : Type 0) : Type 0 where
  pub payroll_run_id : ℕ
  pub total_payroll : F
  pub total_deductions : F
  pub payroll_preview : List (PayrollPreview F)

-- The current month, and every month after it.
abbrev pub is_future : ℕ → ℕ → ℕ → ℕ → Bool
is_future now_month now_year month year =
    ltb now_year year || (year == now_year && leb now_month month)

module _ {F : Type 0} where
  -- The column `paid_leaves` is an INT, which takes no half days, and a run has one payslip for an
  -- employee (`uq_payroll_employee`).
  abbrev pub payslip_refusal : ℕ → ℕ → ℕ → List (Payslip F) → Option String
  payslip_refusal run_id employee_id paid_leaves payslips =
      if not (paid_leaves % 2 == 0)
      then some "pq: invalid input syntax for type integer"
      else if any (λ p. p.payroll_run_id == run_id && p.employee_id == employee_id) payslips
      then some "pq: duplicate key value violates unique constraint \"uq_payroll_employee\""
      else none

  abbrev pub unless_refused : Option String → Payslip F → Store F → Store F
  unless_refused none p s = record s { payslips = p ∷ s.payslips; next_id = s.next_id + 1 }
  unless_refused (some m) p s = s

  abbrev pub inserted : Option String × ℕ → Action (Store F) ℕ
  inserted (none, id) = pure id
  inserted (some m, id) = fail (plain m)

module _ {F : Type 0} (ops : FloatOps F) where
  abbrev pub salary_of : Option F → F
  salary_of none = ops.of_int (pos 0)
  salary_of (some salary) = salary

  -- `salary / float64(workingDays) * leaveSummary.UnpaidDays`
  unfoldable pub deduction : Option F → ℤ → LeaveSummary → F
  deduction salary working_days summary =
      ops.mul (ops.div (salary_of salary) (ops.of_int working_days))
        (ops.of_half_days summary.unpaid_days)

  unfoldable pub preview_of : ℤ → Member F → LeaveSummary → PayrollPreview F
  unfolding deduction
  preview_of working_days emp summary = record {
    employee_id = emp.id;
    basic_salary = salary_of emp.salary;
    working_days = working_days;
    paid_leaves = summary.paid_days;
    unpaid_leaves = summary.unpaid_days;
    early_leaves = summary.early_leaves;
    deductions = deduction emp.salary working_days summary;
    net_salary = ops.sub (salary_of emp.salary) (deduction emp.salary working_days summary);
  }

  -- `total += …` over the previews, from the first to the last.
  abbrev pub total : F → (PayrollPreview F → F) → List (PayrollPreview F) → F
  total acc f [] = acc
  total acc f (p ∷ ps) = total (ops.add acc (f p)) f ps

  abbrev pub new_payslip : ℕ → ℕ → ℤ → Member F → LeaveSummary → Payslip F
  new_payslip id run_id working_days emp summary = record {
    id = id;
    payroll_run_id = run_id;
    employee_id = emp.id;
    basic_salary = salary_of emp.salary;
    working_days = working_days;
    paid_leaves = summary.paid_days;
    unpaid_leaves = summary.unpaid_days;
    early_leaves = summary.early_leaves;
    deduction_amount = deduction emp.salary working_days summary;
    net_salary = ops.sub (salary_of emp.salary) (deduction emp.salary working_days summary);
  }

  -- `INSERT INTO Tbl_Payslip`
  unfoldable pub insert_payslip : ℕ → ℤ → Member F → LeaveSummary → Action (Store F) ℕ
  insert_payslip run_id working_days emp summary =
      statement (λ s.
        let refusal = payslip_refusal run_id emp.id summary.paid_days s.payslips in
        (
          (refusal, s.next_id),
          unless_refused refusal (new_payslip s.next_id run_id working_days emp summary) s,
        ))
      >>= inserted

module _ {F : Type 0} where
  unfoldable pub create_run : ℕ → ℕ → Action (Store F) ℕ
  create_run month year = statement (λ s. (
    s.next_id,
    record s {
      runs =
          record { id = s.next_id; month = month; year = year; status = RunStatus.preview }
          ∷ s.runs;
      next_id = s.next_id + 1;
    },
  ))

  unfoldable pub mark_finalized : ℕ → Action (Store F) (Unit {0})
  mark_finalized run_id = exec (λ s. record s {
    runs = update (λ r. r.id == run_id) (λ r. record r { status = RunStatus.finalized }) s.runs;
  })

  -- The rows of the join are the employees of the run's month.
  abbrev pub employees_of_run : Option PayrollRun → List (Member F) → List (Member F)
  employees_of_run none members = []
  employees_of_run (some run) members = keep (is_paid_in run.month run.year) members

  abbrev pub find_run : ℕ → Store F → Option PayrollRun
  find_run run_id s = find (λ r. r.id == run_id) s.runs

module _ {F : Type 0} (ops : FloatOps F) (months : Months) where
  -- The loop of `RunPayroll`.
  unfoldable pub preview_each :
      ℕ → ℕ → ℤ → List (Member F) → Action (Store F) (List (PayrollPreview F))
  preview_each month year working_days [] = pure []
  preview_each month year working_days (emp ∷ employees) = do
    summary ← calculate_absent_days_for_month months emp.id month year
    previews ← preview_each month year working_days employees
    pure (preview_of ops working_days emp summary ∷ previews)

  unfoldable pub preview_run : ℕ → ℕ → Action (Store F) (RunAnswer F)
  preview_run month year = do
    employees ← wrap 500 "Failed to fetch employees: " (get_employee_by_month_and_year month year)
    working_days ← get_company_curr_working_days
    previews ← preview_each month year working_days employees
    run_id ← wrap 500 "Failed to create payroll run: " (create_run month year)
    pure (record {
      payroll_run_id = run_id;
      total_payroll = total ops (ops.of_int (pos 0)) (λ p. p.net_salary) previews;
      total_deductions = total ops (ops.of_int (pos 0)) (λ p. p.deductions) previews;
      payroll_preview = previews;
    })

  unfoldable pub run_payroll : Role → ℕ → ℕ → ℕ → ℕ → Action (Store F) (RunAnswer F)
  run_payroll role now_month now_year month year =
      if not (role_eq role Role.super_admin) && not (role_eq role Role.admin)
      then fail (app 403 "Not authorized to run payroll")
      else if is_future now_month now_year month year
      then fail (app 400 "Cannot run payroll for future months")
      else (forget (get_exitsting_payload month year) >>= λ existing_run.
          if blocks existing_run
          then fail (
              app 400
                "Payroll for this month and year is already finalized. Cannot run payroll again.")
          else preview_run month year)

  -- The loop of `FinalizePayroll`.
  unfoldable pub issue_each : ℕ → ℕ → ℕ → ℤ → List (Member F) → Action (Store F) (List ℕ)
  issue_each run_id month year working_days [] = pure []
  issue_each run_id month year working_days (emp ∷ employees) = do
    summary ← calculate_absent_days_for_month months emp.id month year
    id ← wrap 500 "Payslip insert failed: " (insert_payslip ops run_id working_days emp summary)
    ids ← issue_each run_id month year working_days employees
    pure (id ∷ ids)

  unfoldable pub issue_payslips : ℕ → PayrollRun → ℤ → Action (Store F) (List ℕ)
  issue_payslips run_id run working_days = do
    employees ←
        wrap 500 "Failed to fetch payroll employees: "
          (select (λ s. employees_of_run (find_run run_id s) s.members))
    ids ← issue_each run_id run.month run.year working_days employees
    wrap 500 "Failed to update payroll run: " (mark_finalized run_id)
    pure ids

  -- The ids of the payslips.
  unfoldable pub finalize_payroll : Role → ℕ → Action (Store F) (List ℕ)
  finalize_payroll role run_id =
      if not (role_eq role Role.super_admin)
      then fail (app 403 "Only SUPERADMIN can finalize payroll")
      else (forget (select (find_run run_id)) >>= λ row.
          or_fail (flatten row) (app 404 "Payroll run not found") >>= λ run.
          if is_finalized run.status
          then fail (
              app 400
                "Payroll is already finalized. Cannot finalize again. Finalized payrolls are locked and cannot be modified.")
          else if not (is_preview run.status)
          then fail (app 400 "Cannot finalize payroll. Only PREVIEW payrolls can be finalized.")
          else (forget get_working_days >>= λ days.
              in_transaction (λ m. app 500 "Failed to start transaction")
                (λ m. app 500 ("Failed to commit: " ++ m))
                (issue_payslips run_id run (fallback days))))
