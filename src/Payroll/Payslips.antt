-- ===== src/Payroll/Payslips.antt =====
-- What finalizing a payroll run does to the tables, whichever statements fail.
use mathlib.Core.Path.{subst}
use leave_management_system.Prelude.{
  ℕ, ◌+◌, ◌≡◌, refl, sym, ap, ◌∙◌, inl, inr, Bool, true, false, ◌&&◌, List, [], ◌∷◌, Option, none,
  some, ◌==◌, find, keep, update, length, arith, Bool-cases, not,
}
use leave_management_system.Prelude.Int.{ℤ}
use leave_management_system.Models.Role.{Role, role_eq}
use leave_management_system.Database.{
  World, ok, select, exec, statement, wrap, forget, or_fail, later_faults, app,
}
use leave_management_system.Database.Laws.{
  Atomic, >>=-Atomic, in_transaction-Atomic, guard-Atomic, select_db, or_fail-db,
}
use leave_management_system.Database.Outcomes.{
  After, After-ok, After-map, Refused, Atomic-Refused, >>=-After, select-After, exec-After,
  wrap-After, in_transaction-After, guard-After, or_fail-After, forget-select-After,
}
use leave_management_system.Payroll.Store.{
  FloatOps, RunStatus, PayrollRun, Member, Payslip, Store, Months, is_paid_in, get_working_days,
}
use leave_management_system.Payroll.Absence.{LeaveSummary, calculate_absent_days_for_month}
use leave_management_system.Payroll.Run.{
  is_finalized, is_preview, flatten, fallback, insert_payslip, issue_each, mark_finalized, find_run,
  employees_of_run, issue_payslips, finalize_payroll,
}

still_closed : {b : Bool} → b ≡ false → b ≡ true → ⊥
still_closed e h = cc

module _ {F : Type 0} where
  working_days-db : (w : World (Store F)) → (forget get_working_days w).1.db ≡ w.db
  unfolding get_working_days select statement
  working_days-db w = ground arith

  working_days-After : (w : World (Store F)) → After (λ _ s. s ≡ w.db) (forget get_working_days w)
  unfolding get_working_days select statement
  working_days-After w = ground arith

module _ {F : Type 0} (months : Months) where
  absent_days-After :
      (e month year : ℕ) (w : World (Store F))
      → After (λ _ s. s ≡ w.db) (calculate_absent_days_for_month months e month year w)
  unfolding calculate_absent_days_for_month select statement
  absent_days-After e month year w = ground arith

abbrev awaits : Option PayrollRun → Bool
awaits none = false
awaits (some run) = is_preview run.status

finalized-find :
    (run_id : ℕ) (runs : List PayrollRun) (run : PayrollRun)
    → find (λ r. r.id == run_id) runs ≡ some run
    → find
        (λ r. r.id == run_id)
        (update (λ r. r.id == run_id) (λ r. record r { status = RunStatus.finalized }) runs)
      ≡ some (record run { status = RunStatus.finalized })
finalized-find run_id [] run e = ground arith
finalized-find run_id (r ∷ runs) run e = elim (Bool-cases (r.id == run_id)) [
  | inl p ↦ ground arith
  | inr p ↦ ground (arith, finalized-find run_id runs run)
]

module _ {F : Type 0} (ops : FloatOps F) (months : Months) (run_id e : ℕ) where
  abbrev is_slip : Payslip F → Bool
  is_slip p = p.payroll_run_id == run_id && p.employee_id == e

  -- How often a run pays an employee.
  abbrev pub paid_times : Store F → ℕ
  paid_times s = length (keep is_slip s.payslips)

  abbrev pub named : List (Member F) → ℕ
  named members = length (keep (λ m. m.id == e) members)

  abbrev Issued : ℕ → List PayrollRun → ℕ → Store F → Type 0
  Issued before runs more s = (paid_times s ≡ before + more) × (s.runs ≡ runs)

  insert_payslip-Issued :
      (working_days : ℤ) (emp : Member F) (summary : LeaveSummary) (w : World (Store F))
      → After
          (λ _. Issued (paid_times w.db) w.db.runs (named (emp ∷ [])))
          (insert_payslip ops run_id working_days emp summary w)
  unfolding insert_payslip statement
  insert_payslip-Issued working_days emp summary w = ground arith

  issue_each-Issued :
      (month year : ℕ) (working_days : ℤ) (employees : List (Member F)) (w : World (Store F))
      → After
          (λ _. Issued (paid_times w.db) w.db.runs (named employees))
          (issue_each ops months run_id month year working_days employees w)
  unfolding issue_each
  issue_each-Issued month year working_days [] w = (grind arith, refl)
  issue_each-Issued month year working_days (emp ∷ employees) w =
      >>=-After (λ _ s. s ≡ w.db)
        (λ _. Issued (paid_times w.db) w.db.runs (named (emp ∷ employees)))
        (calculate_absent_days_for_month months emp.id month year) _ w
        (absent_days-After months emp.id month year w)
        (λ summary w₁ same.
          >>=-After (λ _. Issued (paid_times w₁.db) w₁.db.runs (named (emp ∷ [])))
            (λ _. Issued (paid_times w.db) w.db.runs (named (emp ∷ employees)))
            (wrap 500 "Payslip insert failed: "
              (insert_payslip ops run_id working_days emp summary))
            _ w₁
            (wrap-After (λ _. Issued (paid_times w₁.db) w₁.db.runs (named (emp ∷ []))) 500
              "Payslip insert failed: " (insert_payslip ops run_id working_days emp summary) w₁
              (insert_payslip-Issued working_days emp summary w₁))
            (λ id w₂ one.
              >>=-After (λ _. Issued (paid_times w₂.db) w₂.db.runs (named employees))
                (λ _. Issued (paid_times w.db) w.db.runs (named (emp ∷ employees)))
                (issue_each ops months run_id month year working_days employees) _ w₂
                (issue_each-Issued month year working_days employees w₂)
                (λ ids w₃ rest.
                  (grind (arith, same, one, rest), rest.1 ∙ one.1 ∙ ap (λ s. s.runs) same))))

  -- What finalizing a run means for one employee.
  abbrev pub Finalized : Store F → Store F → Type 0
  Finalized before after =
      (run : PayrollRun) × (find_run run_id before ≡ some run)
      × (is_preview run.status ≡ true)
      × (paid_times after
          ≡ paid_times before + named (keep (is_paid_in run.month run.year) before.members))
      × (find_run run_id after ≡ some (record run { status = RunStatus.finalized }))

  issue_payslips-Finalized :
      (run : PayrollRun) (working_days : ℤ) (w : World (Store F))
      → find_run run_id w.db ≡ some run
      → is_preview run.status ≡ true
      → After (λ _. Finalized w.db) (issue_payslips ops months run_id run working_days w)
  unfolding issue_payslips mark_finalized
  issue_payslips-Finalized run working_days w found open_run =
      >>=-After (λ employees s. (employees ≡ employees_of_run (some run) w.db.members) × (s ≡ w.db))
        (λ _. Finalized w.db) (wrap 500 "Failed to fetch payroll employees: " (select eligible)) _ w
        (wrap-After _ 500 "Failed to fetch payroll employees: " (select eligible) w
          (select-After _ eligible w (ap (λ r. employees_of_run r w.db.members) found, refl)))
        (λ employees w₁ same.
          >>=-After (λ _. Issued (paid_times w₁.db) w₁.db.runs (named employees))
            (λ _. Finalized w.db)
            (issue_each ops months run_id run.month run.year working_days employees) _ w₁
            (issue_each-Issued run.month run.year working_days employees w₁)
            (λ ids w₂ issued.
              >>=-After (λ _. Finalized w.db) (λ _. Finalized w.db)
                (wrap 500 "Failed to update payroll run: " (exec finalize)) _ w₂
                (wrap-After (λ _. Finalized w.db) 500 "Failed to update payroll run: "
                  (exec finalize) w₂
                  (exec-After (λ _. Finalized w.db) finalize w₂
                    (
                      run,
                      found,
                      open_run,
                      issued.0 ∙ cc,
                      finalized-find run_id w₂.db.runs run (
                          ap (find (λ r. r.id == run_id)) (issued.1 ∙ ap (λ s. s.runs) same.1)
                          ∙ found),
                    )))
                (λ _ w₃ done. done)))
    where
      eligible : Store F → List (Member F)
      eligible s = employees_of_run (find_run run_id s) s.members

      finalize : Store F → Store F
      finalize s = record s {
        runs = update (λ r. r.id == run_id) (λ r. record r { status = RunStatus.finalized }) s.runs;
      }

  abbrev Read : Store F → Option (Option PayrollRun) → Store F → Type 0
  Read before row s =
      ((run : PayrollRun) → flatten row ≡ some run → find_run run_id before ≡ some run)
      × (s ≡ before)

  finalize_payroll-Finalized :
      (role : Role) (w : World (Store F))
      → After (λ _. Finalized w.db) (finalize_payroll ops months role run_id w)
  unfolding finalize_payroll
  finalize_payroll-Finalized role w =
      guard-After _ (not (role_eq role Role.super_admin)) _ _ w (λ _.
        >>=-After (Read w.db) (λ _. Finalized w.db) (forget (select (find_run run_id))) _ w
          (forget-select-After (Read w.db) (find_run run_id) w (λ run e. ground arith, refl)
            (λ run e. e, refl))
          (λ row w₁ read.
            >>=-After (λ run s. (find_run run_id w.db ≡ some run) × (s ≡ w.db))
              (λ _. Finalized w.db) (or_fail (flatten row) (app 404 "Payroll run not found")) _ w₁
              (or_fail-After _ (flatten row) _ w₁ (λ run e. (read.0 run e, read.1)))
              (λ run w₂ found. guard-After _ (is_finalized run.status) _ _ w₂ (λ _.
                guard-After _ (not (is_preview run.status)) _ _ w₂ (λ open_run.
                  >>=-After (λ _ s. s ≡ w₂.db) (λ _. Finalized w.db) (forget get_working_days) _ w₂
                    (working_days-After w₂)
                    (λ days w₃ same.
                      in_transaction-After (λ _. Finalized w.db) _ _ _ w₃
                        (subst
                          (λ s.
                            After (λ _. Finalized s)
                              (issue_payslips ops months run_id run (fallback days)
                                (record w₃ { faults = later_faults w₃.faults })))
                          (same ∙ found.1)
                          (issue_payslips-Finalized run (fallback days) _
                            (ap (find_run run_id) (same ∙ found.1) ∙ found.0) (ground arith)))))))))

  -- A payroll run that is finalized with success was a PREVIEW run, is FINALIZED afterwards, and
  -- gives every employee who is active and had joined by its month one payslip more than before
  -- and no one else any, whichever queries failed on the way.
  pub finalize_payroll-pays :
      (role : Role) (w : World (Store F)) (ids : List ℕ)
      → (finalize_payroll ops months role run_id w).0 ≡ ok ids
      → Finalized w.db (finalize_payroll ops months role run_id w).1.db
  finalize_payroll-pays role w ids done =
      After-ok (λ _. Finalized w.db) ids (finalize_payroll ops months role run_id w)
        (finalize_payroll-Finalized role w) done

module _ {F : Type 0} (ops : FloatOps F) (months : Months) (run_id : ℕ) where
  -- Finalizing a run that ends in an error or a panic leaves every table as it was: no payslip is
  -- written and the run stays as it is.
  pub finalize_payroll-Atomic :
      (role : Role) (w : World (Store F)) → Atomic w.db (finalize_payroll ops months role run_id w)
  unfolding finalize_payroll
  finalize_payroll-Atomic role w = guard-Atomic _ (not (role_eq role Role.super_admin)) _ w (
      >>=-Atomic (forget (select (find_run run_id))) _ w (select_db (find_run run_id) w) (λ row w₁.
        >>=-Atomic (or_fail (flatten row) (app 404 "Payroll run not found")) _ w₁
          (or_fail-db (flatten row) (app 404 "Payroll run not found") w₁)
          (λ run w₂. guard-Atomic _ (is_finalized run.status) _ w₂ (
            guard-Atomic _ (not (is_preview run.status)) _ w₂ (
              >>=-Atomic (forget get_working_days) _ w₂ (working_days-db w₂)
                (λ days w₃. in_transaction-Atomic _ _ _ w₃))))))

  -- A run that was finalized stays so: each later request to finalize it is refused and leaves
  -- every table as it was.
  pub finalize_payroll-locked :
      (role role' : Role) (w w' : World (Store F)) (ids : List ℕ)
      → (finalize_payroll ops months role run_id w).0 ≡ ok ids
      → w'.db ≡ (finalize_payroll ops months role run_id w).1.db
      → Refused w'.db (finalize_payroll ops months role' run_id w')
  finalize_payroll-locked role role' w w' ids done next =
      let (run, found, open_run, paid, closed) =
        finalize_payroll-pays ops months run_id 0 role w ids done in
      Atomic-Refused w'.db (finalize_payroll ops months role' run_id w')
        (finalize_payroll-Atomic role' w')
        (After-map (λ _. Finalized ops months run_id 0 w'.db) (λ _ _. ⊥) _
          (λ _ s again.
            still_closed (ap awaits (sym again.1 ∙ ap (find_run run_id) next ∙ closed) ∙ refl)
              again.2)
          (finalize_payroll-Finalized ops months run_id 0 role' w'))
