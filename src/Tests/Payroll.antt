-- ===== src/Tests/Payroll.antt =====
-- The properties of payroll, at concrete inputs. Amounts are whole numbers here.
use leave_management_system.Prelude.{
  ℕ, ◌+◌, ◌-◌, ◌*◌, ◌/◌, ◌≤◌, ◌≡◌, refl, true, List, [], ◌∷◌, some, arith, map, stack,
}
use leave_management_system.Prelude.Int.{pos, pos_part}
use leave_management_system.Models.Role.{Role}
use leave_management_system.Models.Leave.{Status, Leave, is_early_leave, is_true}
use leave_management_system.Database.{ok, statement, select, exec, in_transaction}
use leave_management_system.Database.Laws.{Atomic}
use leave_management_system.Database.Outcomes.{Refused}
use leave_management_system.Leave.Days.{count_working_days, is_working_day, is_weekend}
use leave_management_system.Payroll.Store.{
  FloatOps, RunStatus, PayrollRun, Member, Store, Months, get_exitsting_payload, get_working_days,
  get_company_curr_working_days, get_employee_by_month_and_year,
}
use leave_management_system.Payroll.Absence.{
  actual_days, absent_days, day_amount, calculate_absent_days_for_month,
}
use leave_management_system.Payroll.Run.{
  RunAnswer, run_payroll, preview_run, preview_each, create_run, preview_of, deduction,
  finalize_payroll, issue_payslips, issue_each, insert_payslip, mark_finalized,
}
use leave_management_system.Payroll.Months.{within, actual_days-months}
use leave_management_system.Payroll.Bounds.{absent_days-bound}
use leave_management_system.Payroll.Agreement.{
  quiet, to_preview, finalize_payroll-succeeds, finalize_payroll-previews,
}
use leave_management_system.Payroll.Payslips.{
  Finalized, finalize_payroll-pays, finalize_payroll-Atomic, finalize_payroll-locked,
}
use leave_management_system.Payroll.HalfDays.{finalize_payroll-half_day}
use leave_management_system.Tests.Inputs.{leave, tables, failing}

abbrev whole : FloatOps ℕ
whole = record {
  of_int = λ n. pos_part n;
  of_half_days = λ n. n / 2;
  add = λ a b. a + b;
  sub = λ a b. a - b;
  mul = λ a b. a * b;
  div = λ a b. a / b;
}

abbrev months : Months
months = record {
  first_day = λ month year. year * 365 + month * 31;
  last_day = λ month year. year * 365 + month * 31 + 30;
}

abbrev approved_leave : Leave
approved_leave = record leave { status = Status.approved }

abbrev half_day : Leave
half_day = record approved_leave { end_date = 805; days = 1 }

abbrev worker : Member ℕ
worker = record { id = 7; salary = some 4400; is_active = true; joining = some (1, 4) }

abbrev february : PayrollRun
february = record { id = 11; month = 2; year = 2; status = RunStatus.preview }

abbrev office : List Leave → Store ℕ
office leaves = record {
  leave_tables = record (tables []) { leaves = leaves };
  members = worker ∷ [];
  runs = february ∷ [];
  payslips = [];
  settings = pos 22 ∷ [];
  next_id = 12;
}

abbrev books : Store ℕ
books = office (approved_leave ∷ [])

-- What the run of February shows.
abbrev shown : RunAnswer ℕ
shown = record {
  payroll_run_id = 12;
  total_payroll = 4400;
  total_deductions = 0;
  payroll_preview =
      record {
        employee_id = 7;
        basic_salary = 4400;
        working_days = pos 22;
        paid_leaves = 4;
        unpaid_leaves = 0;
        early_leaves = 0;
        deductions = 0;
        net_salary = 4400;
      }
      ∷ [];
}

actual_days-months_example :
    actual_days (within 792 805 (800 ∷ [])) 792 805 approved_leave
      + actual_days (within 806 830 (800 ∷ [])) 806 830 approved_leave
    ≡ day_amount approved_leave * count_working_days (800 ∷ []) 805 2
actual_days-months_example =
    actual_days-months (800 ∷ []) approved_leave 792 805 830 (omega arith) (omega arith)
      (omega arith) (omega arith) (omega arith)

absent_days-bound_example : 4 + 0 ≤ 2 * count_working_days [] 792 31
unfolding calculate_absent_days_for_month select statement absent_days actual_days is_working_day
    is_weekend is_early_leave is_true
absent_days-bound_example =
    absent_days-bound months 7 2 2 books
      (record { paid_days = 4; unpaid_days = 0; early_leaves = 0 }) (omega arith) (tt, tt) refl

finalize_payroll-succeeds_example :
    (ids : List ℕ) × (after : Store ℕ) × (finalize_payroll whole months Role.super_admin 11
        (quiet books)
      ≡ (ok ids, quiet after))
    × (map to_preview after.payslips ≡ stack shown.payroll_preview [])
unfolding calculate_absent_days_for_month select statement absent_days actual_days is_working_day
    is_weekend is_early_leave is_true preview_of deduction
finalize_payroll-succeeds_example =
    finalize_payroll-succeeds whole months 11 february books refl refl (refl, tt, tt)

finalize_payroll-previews_example :
    map to_preview (finalize_payroll whole months Role.super_admin 11 (quiet books)).1.db.payslips
    ≡ stack shown.payroll_preview []
unfolding run_payroll preview_run preview_each create_run preview_of deduction get_exitsting_payload
    get_working_days get_company_curr_working_days get_employee_by_month_and_year
    calculate_absent_days_for_month select statement absent_days actual_days is_working_day
    is_weekend is_early_leave is_true
finalize_payroll-previews_example =
    finalize_payroll-previews whole months Role.admin 5 2 11 february books shown refl refl
      (refl, tt, tt) refl refl

finalize_payroll-pays_example :
    Finalized whole months 11 7 books
      (finalize_payroll whole months Role.super_admin 11 (quiet books)).1.db
unfolding finalize_payroll issue_payslips issue_each insert_payslip mark_finalized get_working_days
    in_transaction calculate_absent_days_for_month select exec statement absent_days actual_days
    is_working_day is_weekend is_early_leave is_true
finalize_payroll-pays_example =
    finalize_payroll-pays whole months 11 7 Role.super_admin (quiet books) (12 ∷ []) refl

finalize_payroll-Atomic_example :
    Atomic books (finalize_payroll whole months Role.super_admin 11 (failing books))
finalize_payroll-Atomic_example =
    finalize_payroll-Atomic whole months 11 Role.super_admin (failing books)

finalize_payroll-locked_example :
    Refused (finalize_payroll whole months Role.super_admin 11 (quiet books)).1.db (
      finalize_payroll whole months Role.super_admin 11
        (quiet (finalize_payroll whole months Role.super_admin 11 (quiet books)).1.db))
unfolding finalize_payroll issue_payslips issue_each insert_payslip mark_finalized get_working_days
    in_transaction calculate_absent_days_for_month select exec statement absent_days actual_days
    is_working_day is_weekend is_early_leave is_true
finalize_payroll-locked_example =
    finalize_payroll-locked whole months 11 Role.super_admin Role.super_admin (quiet books)
      (quiet (finalize_payroll whole months Role.super_admin 11 (quiet books)).1.db) (12 ∷ []) refl
      refl

finalize_payroll-half_day_example :
    Refused
      (office (half_day ∷ []))
      (finalize_payroll whole months Role.super_admin 11 (quiet (office (half_day ∷ []))))
unfolding absent_days actual_days is_working_day is_weekend is_early_leave is_true
finalize_payroll-half_day_example =
    finalize_payroll-half_day whole months 11 february (office (half_day ∷ [])) refl refl refl
