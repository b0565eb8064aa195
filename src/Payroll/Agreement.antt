-- ===== src/Payroll/Agreement.antt =====
-- The preview of a payroll and its payslips, where every statement succeeds.
use mathlib.Core.Path.{subst}
use leave_management_system.Prelude.{
  ℕ, ◌≡◌, refl, sym, ap, ◌∙◌, true, false, ◌&&◌, List, [], ◌∷◌, Option, none, some, find, keep, map,
  arith, All, stack, not, leb, sum_by, ◌==◌,
}
use leave_management_system.Prelude.Int.{ℤ, pos, ltb_ℤ}
use leave_management_system.Models.Role.{Role, role_eq}
use leave_management_system.Database.{World, ok, select, exec, statement, in_transaction, forget}
use leave_management_system.Database.Outcomes.{After, After-ok, guard-After, >>=-step}
use leave_management_system.Payroll.Store.{
  FloatOps, RunStatus, PayrollRun, Member, Payslip, Store, Months, is_paid_in, get_working_days,
  or_default, get_company_curr_working_days, get_employee_by_month_and_year, head,
  get_exitsting_payload,
}
use leave_management_system.Payroll.Absence.{
  LeaveSummary, calculate_absent_days_for_month, overlaps, absences, sum_absences, is_early_type,
  type_of,
}
use leave_management_system.Payroll.Run.{
  is_finalized, is_preview, payslip_refusal, unless_refused, new_payslip, fallback, insert_payslip,
  issue_each, mark_finalized, find_run, issue_payslips, finalize_payroll, PayrollPreview,
  preview_of, preview_each, preview_run, run_payroll, RunAnswer, create_run, is_future, blocks,
}

-- Nothing fails.
abbrev pub quiet : {S : Type 0} → S → World S
quiet s = record { db = s; faults = [] }

abbrev pub to_preview : {F : Type 0} → Payslip F → PayrollPreview F
to_preview p = record {
  employee_id = p.employee_id;
  basic_salary = p.basic_salary;
  working_days = p.working_days;
  paid_leaves = p.paid_leaves;
  unpaid_leaves = p.unpaid_leaves;
  early_leaves = p.early_leaves;
  deductions = p.deduction_amount;
  net_salary = p.net_salary;
}

positive-fallback :
    (days : Option ℤ) → ltb_ℤ (pos 0) (or_default days) ≡ true → fallback days ≡ or_default days
positive-fallback none h = refl
positive-fallback (some n) h = rw h refl

pub closed-preview : (st : RunStatus) → is_preview st ≡ true → is_finalized st ≡ false
closed-preview RunStatus.preview e = refl
closed-preview RunStatus.finalized e = sym e
closed-preview (RunStatus.other_status n) e = refl

module _ {F : Type 0} where
  pub days_read-quiet :
      (s : Store F) → forget get_working_days (quiet s) ≡ (ok (head s.settings), quiet s)
  unfolding get_working_days select statement
  days_read-quiet s = ground arith

  working_days-quiet :
      (s : Store F)
      → get_company_curr_working_days (quiet s) ≡ (ok (or_default (head s.settings)), quiet s)
  unfolding get_company_curr_working_days get_working_days select statement
  working_days-quiet s = ground arith

  run-quiet :
      (s : Store F) (month year : ℕ)
      → forget (get_exitsting_payload month year) (quiet s)
        ≡ (ok (find (λ r. r.month == month && r.year == year) s.runs), quiet s)
  unfolding get_exitsting_payload select statement
  run-quiet s month year = ground arith

module _ {F : Type 0} (months : Months) where
  -- The leaves of a month, as the tables have them.
  abbrev pub summary_in : Store F → ℕ → ℕ → ℕ → LeaveSummary
  summary_in s e month year =
      let first = months.first_day month year in
      let last = months.last_day month year in
      let holidays = keep (λ h. leb first h && leb h last) s.leave_tables.holidays in
      let leaves =
        absences s.leave_tables.leave_types (keep (overlaps e first last) s.leave_tables.leaves) in
      record {
        paid_days = sum_absences holidays first last true leaves;
        unpaid_days = sum_absences holidays first last false leaves;
        early_leaves =
            sum_by (λ l. l.days)
              (keep
                (λ l.
                  overlaps e first last l && is_early_type (type_of s.leave_tables.leave_types l))
                s.leave_tables.leaves);
      }

  pub absent_days-quiet :
      (s : Store F) (e month year : ℕ)
      → calculate_absent_days_for_month months e month year (quiet s)
        ≡ (ok (summary_in s e month year), quiet s)
  unfolding calculate_absent_days_for_month select statement
  absent_days-quiet s e month year = refl

module _ {F : Type 0} (ops : FloatOps F) (months : Months) where
  abbrev pub previews_in : Store F → ℕ → ℕ → ℤ → List (Member F) → List (PayrollPreview F)
  previews_in s month year working_days employees =
      map (λ m. preview_of ops working_days m (summary_in months s m.id month year)) employees

  preview_each-quiet :
      (s : Store F) (month year : ℕ) (working_days : ℤ) (employees : List (Member F))
      → preview_each ops months month year working_days employees (quiet s)
        ≡ (ok (previews_in s month year working_days employees), quiet s)
  unfolding preview_each calculate_absent_days_for_month select statement
  preview_each-quiet s month year working_days [] = refl
  preview_each-quiet s month year working_days (emp ∷ employees) =
      rw (preview_each-quiet s month year working_days employees) refl

  -- The employees can be paid: the paid leaves of each are whole days, the run has no payslip for
  -- them yet, and no employee stands twice.
  abbrev pub IsPayable : ℕ → ℕ → ℕ → List (Member F) → Store F → Type 0
  IsPayable run_id month year [] s = Unit
  IsPayable run_id month year (emp ∷ employees) s =
      (payslip_refusal run_id emp.id (summary_in months s emp.id month year).paid_days s.payslips
        ≡ none)
      × All (λ m. (emp.id == m.id) ≡ false) employees
      × IsPayable run_id month year employees s

  IsPayable-insert :
      (run_id month year : ℕ) (working_days : ℤ) (emp : Member F) (summary : LeaveSummary)
      (employees : List (Member F)) (s : Store F)
      → All (λ m. (emp.id == m.id) ≡ false) employees
      → IsPayable run_id month year employees s
      → IsPayable run_id month year employees
          (unless_refused none (new_payslip ops s.next_id run_id working_days emp summary) s)
  IsPayable-insert run_id month year working_days emp summary [] s other h = tt
  IsPayable-insert run_id month year working_days emp summary (m ∷ employees) s other h = (
    ground (arith, other.0, h.0),
    h.1,
    IsPayable-insert run_id month year working_days emp summary employees s other.1 h.2,
  )

  -- How the tables are left by the payslips of a list of employees.
  abbrev Issued : ℕ → ℕ → ℕ → ℤ → List (Member F) → Store F → Type 0
  Issued run_id month year working_days employees s =
      (ids : List ℕ) × (after : Store F) × (issue_each ops months run_id month year working_days
          employees (quiet s)
        ≡ (ok ids, quiet after))
      × (map to_preview after.payslips
          ≡ stack (previews_in s month year working_days employees) (map to_preview s.payslips))

  pub insert_payslip-quiet :
      (run_id : ℕ) (working_days : ℤ) (emp : Member F) (summary : LeaveSummary) (s : Store F)
      → payslip_refusal run_id emp.id summary.paid_days s.payslips ≡ none
      → insert_payslip ops run_id working_days emp summary (quiet s) ≡ (
        ok s.next_id,
        quiet (unless_refused none (new_payslip ops s.next_id run_id working_days emp summary) s),
      )
  unfolding insert_payslip statement
  insert_payslip-quiet run_id working_days emp summary s h = rw h refl

  issue_each-quiet :
      (run_id month year : ℕ) (working_days : ℤ) (employees : List (Member F)) (s : Store F)
      → IsPayable run_id month year employees s
      → Issued run_id month year working_days employees s
  unfolding issue_each calculate_absent_days_for_month select statement preview_of
  issue_each-quiet run_id month year working_days [] s h = ([], s, refl, refl)
  issue_each-quiet run_id month year working_days (emp ∷ employees) s h =
      let summary = summary_in months s emp.id month year in
      let next =
        unless_refused none (new_payslip ops s.next_id run_id working_days emp summary) s in
      let (ids, after, done, slips) =
        issue_each-quiet run_id month year working_days employees next
          (IsPayable-insert run_id month year working_days emp summary employees s h.1 h.2) in
      (
        s.next_id ∷ ids,
        after,
        rw (insert_payslip-quiet run_id working_days emp summary s h.0, done) refl,
        slips,
      )

  abbrev pub employees_in : Store F → ℕ → ℕ → List (Member F)
  employees_in s month year = keep (is_paid_in month year) s.members

  abbrev Previewed : Store F → ℕ → ℕ → RunAnswer F → Store F → Type 0
  Previewed s month year answer _ =
      answer.payroll_preview
      ≡ previews_in s month year (or_default (head s.settings)) (employees_in s month year)

  preview_run-quiet :
      (s : Store F) (month year : ℕ)
      → After (Previewed s month year) (preview_run ops months month year (quiet s))
  unfolding preview_run get_employee_by_month_and_year get_company_curr_working_days
      get_working_days create_run select statement
  preview_run-quiet s month year =
      rw
        (
          working_days-quiet s,
          preview_each-quiet s month year (or_default (head s.settings))
              (employees_in s month year),
        )
        refl

  run_payroll-Previewed :
      (role : Role) (now_month now_year : ℕ) (s : Store F) (month year : ℕ)
      → After
          (Previewed s month year)
          (run_payroll ops months role now_month now_year month year (quiet s))
  unfolding run_payroll get_exitsting_payload select statement
  run_payroll-Previewed role now_month now_year s month year =
      guard-After _ (not (role_eq role Role.super_admin) && not (role_eq role Role.admin)) _ _
        (quiet s)
        (λ _. guard-After _ (is_future now_month now_year month year) _ _ (quiet s) (λ _.
          subst (After (Previewed s month year))
            (sym (
              >>=-step (forget (get_exitsting_payload month year)) _ (quiet s) _ _
                (run-quiet s month year)))
            (guard-After _ (blocks (find (λ r. r.month == month && r.year == year) s.runs)) _ _
              (quiet s) (λ _. preview_run-quiet s month year))))

  -- Where no statement fails, a SUPERADMIN can finalize every PREVIEW run whose employees can be
  -- paid, whatever other runs its month has: the payslips of the month's employees are added to
  -- those that are there. The employees can be paid where each has whole days of paid leave and no
  -- payslip of this run.
  pub finalize_payroll-succeeds :
      (run_id : ℕ) (run : PayrollRun) (s : Store F)
      → find_run run_id s ≡ some run
      → is_preview run.status ≡ true
      → IsPayable run_id run.month run.year (employees_in s run.month run.year) s
      → (ids : List ℕ) × (after : Store F) × (finalize_payroll ops months Role.super_admin run_id
            (quiet s)
          ≡ (ok ids, quiet after))
        × (map to_preview after.payslips
            ≡ stack
                (previews_in s run.month run.year
                  (fallback (head s.settings))
                  (employees_in s run.month run.year))
                (map to_preview s.payslips))
  unfolding finalize_payroll issue_payslips mark_finalized in_transaction select exec statement
  finalize_payroll-succeeds run_id run s found open_run payable =
      let employees = employees_in s run.month run.year in
      let (ids, after, done, slips) =
        issue_each-quiet run_id run.month run.year (fallback (head s.settings)) employees s
          payable in
      (
        ids,
        (mark_finalized run_id (quiet after)).1.db,
        rw (found, closed-preview run.status open_run, open_run)
            (>>=-step (forget get_working_days) _ (quiet s) _ _ (days_read-quiet s)
              ∙ rw (found, done) refl),
        slips,
      )

  -- Where no statement fails, the employees can be paid and the working days set are positive,
  -- finalizing a PREVIEW run adds
  -- exactly the payslips that running payroll for its month shows, in that order and with the same
  -- salary, leaves, deduction and net amount.
  pub finalize_payroll-previews :
      (role : Role) (now_month now_year run_id : ℕ) (run : PayrollRun) (s : Store F)
      (answer : RunAnswer F)
      → find_run run_id s ≡ some run
      → is_preview run.status ≡ true
      → IsPayable run_id run.month run.year (employees_in s run.month run.year) s
      → ltb_ℤ (pos 0) (or_default (head s.settings)) ≡ true
      → (run_payroll ops months role now_month now_year run.month run.year (quiet s)).0 ≡ ok answer
      → map to_preview (finalize_payroll ops months Role.super_admin run_id (quiet s)).1.db.payslips
        ≡ stack answer.payroll_preview (map to_preview s.payslips)
  finalize_payroll-previews role now_month now_year run_id run s answer found open_run payable
        positive shown =
      let (ids, after, done, slips) =
        finalize_payroll-succeeds run_id run s found open_run payable in
      let previewed =
        After-ok (Previewed s run.month run.year) answer
          (run_payroll ops months role now_month now_year run.month run.year (quiet s))
          (run_payroll-Previewed role now_month now_year s run.month run.year) shown in
      ap (λ o. map to_preview o.1.db.payslips) done
      ∙ slips
      ∙ ap
          (λ d.
            stack (previews_in s run.month run.year d (employees_in s run.month run.year))
              (map to_preview s.payslips))
          (positive-fallback (head s.settings) positive)
      ∙ ap (λ p. stack p (map to_preview s.payslips)) (sym previewed)
