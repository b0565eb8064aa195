-- ===== src/Payroll/HalfDays.antt =====
-- Half days of paid leave, which the column `paid_leaves` does not take.
use Prim.Native.String.{◌++◌}
use mathlib.Core.Path.{subst}
use leave_management_system.Prelude.{
  ℕ, ◌%◌, ◌≡◌, refl, sym, inl, inr, Bool, true, false, List, [], ◌∷◌, none, some, any, arith, not,
  ◌==◌, Option-cases, String,
}
use leave_management_system.Prelude.Int.{ℤ}
use leave_management_system.Models.Role.{Role}
use leave_management_system.Database.{err, plain, select, statement, forget, app}
use leave_management_system.Database.Outcomes.{
  After, Refused, Atomic-Refused, >>=-After, in_transaction-After, >>=-step,
}
use leave_management_system.Payroll.Store.{
  FloatOps, PayrollRun, Member, Store, Months, get_working_days, head,
}
use leave_management_system.Payroll.Absence.{LeaveSummary, calculate_absent_days_for_month}
use leave_management_system.Payroll.Run.{
  is_preview, payslip_refusal, insert_payslip, issue_each, find_run, issue_payslips, fallback,
  finalize_payroll, unless_refused, new_payslip,
}
use leave_management_system.Payroll.Agreement.{
  quiet, summary_in, employees_in, insert_payslip-quiet, closed-preview, days_read-quiet,
}
use leave_management_system.Payroll.Payslips.{finalize_payroll-Atomic}

module _ {F : Type 0} (ops : FloatOps F) (months : Months) where
  -- The paid leaves of the employee in the month add up to an odd number of half days.
  abbrev pub has_half_day : Store F → ℕ → ℕ → Member F → Bool
  has_half_day s month year m = not ((summary_in months s m.id month year).paid_days % 2 == 0)

  insert_payslip-refused :
      (run_id : ℕ) (working_days : ℤ) (emp : Member F) (summary : LeaveSummary) (s : Store F)
      (m : String)
      → payslip_refusal run_id emp.id summary.paid_days s.payslips ≡ some m
      → insert_payslip ops run_id working_days emp summary (quiet s) ≡ (err (plain m), quiet s)
  unfolding insert_payslip statement
  insert_payslip-refused run_id working_days emp summary s m h = rw h refl

  half_day-refused :
      (run_id e n : ℕ) (s : Store F)
      → payslip_refusal run_id e n s.payslips ≡ none
      → not (n % 2 == 0) ≡ false
  half_day-refused run_id e n s h = ground arith

  issue_each-blocked :
      (run_id month year : ℕ) (working_days : ℤ) (employees : List (Member F)) (s : Store F)
      → any (has_half_day s month year) employees ≡ true
      → After (λ _ _. ⊥) (issue_each ops months run_id month year working_days employees (quiet s))
  unfolding issue_each calculate_absent_days_for_month select statement
  issue_each-blocked run_id month year working_days [] s h = ground arith
  issue_each-blocked run_id month year working_days (emp ∷ employees) s h =
      let summary = summary_in months s emp.id month year in
      elim (Option-cases (payslip_refusal run_id emp.id summary.paid_days s.payslips)) [
        | inr (m, e) ↦ rw (insert_payslip-refused run_id working_days emp summary s m e) tt
        | inl e ↦ rw (insert_payslip-quiet ops months run_id working_days emp summary s e) (
            >>=-After (λ _ _. ⊥) (λ _ _. ⊥)
              (issue_each ops months run_id month year working_days employees) _ _
              (issue_each-blocked run_id month year working_days employees
                (unless_refused none (new_payslip ops s.next_id run_id working_days emp summary) s)
                (rw (half_day-refused run_id emp.id summary.paid_days s e) at h))
              (λ ids w k. k))
      ]

  issue_payslips-blocked :
      (run_id : ℕ) (run : PayrollRun) (working_days : ℤ) (s : Store F)
      → find_run run_id s ≡ some run
      → any (has_half_day s run.month run.year) (employees_in ops months s run.month run.year)
        ≡ true
      → After (λ _ _. ⊥) (issue_payslips ops months run_id run working_days (quiet s))
  unfolding issue_payslips select statement
  issue_payslips-blocked run_id run working_days s found half = rw found (
      >>=-After (λ _ _. ⊥) (λ _ _. ⊥)
        (issue_each ops months run_id run.month run.year working_days
          (employees_in ops months s run.month run.year))
        _ (quiet s)
        (issue_each-blocked run_id run.month run.year working_days
          (employees_in ops months s run.month run.year) s half)
        (λ ids w k. elim k [ ]))

  -- Where the paid leave of an employee of the run's month adds up, in that month, to a number of
  -- half days that is odd, and no query or other statement fails, a SUPERADMIN who finalizes the
  -- PREVIEW run is refused, and every table stays as it was.
  pub finalize_payroll-half_day :
      (run_id : ℕ) (run : PayrollRun) (s : Store F)
      → find_run run_id s ≡ some run
      → is_preview run.status ≡ true
      → any (has_half_day s run.month run.year) (employees_in ops months s run.month run.year)
        ≡ true
      → Refused s (finalize_payroll ops months Role.super_admin run_id (quiet s))
  unfolding finalize_payroll select statement
  finalize_payroll-half_day run_id run s found open_run half =
      Atomic-Refused s (finalize_payroll ops months Role.super_admin run_id (quiet s))
        (finalize_payroll-Atomic ops months run_id Role.super_admin (quiet s))
        (rw (found, closed-preview run.status open_run, open_run)
          (subst (After (λ _ _. ⊥))
            (sym (>>=-step (forget get_working_days) _ (quiet s) _ _ (days_read-quiet s)))
            (in_transaction-After (λ _ _. ⊥) (λ m. app 500 "Failed to start transaction")
              (λ m. app 500 ("Failed to commit: " ++ m))
              (issue_payslips ops months run_id run (fallback (head s.settings))) (quiet s)
              (issue_payslips-blocked run_id run (fallback (head s.settings)) s found half))))
