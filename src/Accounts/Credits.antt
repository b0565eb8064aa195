-- ===== src/Accounts/Credits.antt =====
-- What the monthly accrual does.
use native.Mathlib.Nat.{add-mul}
use leave_management_system.Prelude.{
  ℕ, ◌⊎◌, ◌+◌, ◌*◌, ◌≡◌, refl, ◌∙◌, true, List, [], ◌∷◌, ◌++◌, arith, length,
}
use leave_management_system.Models.Leave.{LeaveType}
use leave_management_system.Database.{World, statement, select, exec}
use leave_management_system.Accounts.Store.{Store, Employee}
use leave_management_system.Accounts.Accrual.{
  is_accrual_already_run, credit_monthly_accrual, Outcome, credited, skipped, failed, is_credited,
  credit_pair, credit_types, credit_employees, count_credited, count_skipped, count_failed,
}

length-++ : (a b : List Outcome) → length (a ++ b) ≡ length a + length b
length-++ [] b = grind arith
length-++ (o ∷ a) b = grind (arith, length-++ a b)

module _ (month year : ℕ) where
  -- A pair that is not credited, because it was before or because a statement failed, leaves every
  -- table as it was.
  credit_pair-db :
      (emp : Employee) (lt : LeaveType) (w : World Store)
      → ((credit_pair month year emp lt w).0 ≡ credited)
        ⊎ ((credit_pair month year emp lt w).1.db ≡ w.db)
  unfolding credit_pair
  credit_pair-db emp lt w = ground arith

  skips_credited :
      (emp : Employee) (lt : LeaveType) (s : Store)
      → is_credited emp.id lt.id month year s ≡ true
      → credit_pair month year emp lt (record { db = s; faults = [] })
        ≡ (skipped, record { db = s; faults = [] })
  unfolding credit_pair is_accrual_already_run select statement
  skips_credited emp lt s h = ground arith

  credit_pair-logs :
      (emp : Employee) (lt : LeaveType) (w : World Store)
      → (credit_pair month year emp lt w).0 ≡ credited
      → is_credited emp.id lt.id month year (credit_pair month year emp lt w).1.db ≡ true
  unfolding credit_pair is_accrual_already_run credit_monthly_accrual select statement exec
  credit_pair-logs emp lt w e = ground arith

  -- A pair that was credited is skipped, and no table changes, when it comes again for the same
  -- month and year and no statement fails.
  pub credit_pair-once :
      (emp : Employee) (lt : LeaveType) (w : World Store)
      → (credit_pair month year emp lt w).0 ≡ credited
      → credit_pair month year emp lt
          (record { db = (credit_pair month year emp lt w).1.db; faults = [] })
        ≡ (skipped, record { db = (credit_pair month year emp lt w).1.db; faults = [] })
  credit_pair-once emp lt w e =
      skips_credited emp lt (credit_pair month year emp lt w).1.db (credit_pair-logs emp lt w e)

  credit_types-length :
      (emp : Employee) (leave_types : List LeaveType) (w : World Store)
      → length (credit_types month year emp leave_types w).0 ≡ length leave_types
  unfolding credit_types
  credit_types-length emp [] w = refl
  credit_types-length emp (lt ∷ leave_types) w =
      ground (arith, credit_types-length emp leave_types (credit_pair month year emp lt w).1)

  credit_employees-length :
      (employees : List Employee) (leave_types : List LeaveType) (w : World Store)
      → length (credit_employees month year employees leave_types w).0
        ≡ length employees * length leave_types
  unfolding credit_employees
  credit_employees-length [] leave_types w = grind arith
  credit_employees-length (emp ∷ employees) leave_types w =
      length-++ (credit_types month year emp leave_types w).0
        (credit_employees month year employees leave_types
          (credit_types month year emp leave_types w).1).0
      ∙ grind (
        arith,
        add-mul 1 (length employees) (length leave_types),
        credit_types-length emp leave_types w,
        credit_employees-length employees leave_types (credit_types month year emp leave_types w).1,
      )

counts_add :
    (os : List Outcome) → count_credited os + count_skipped os + count_failed os ≡ length os
counts_add [] = refl
counts_add (credited ∷ os) = ground (arith, counts_add os)
counts_add (skipped ∷ os) = ground (arith, counts_add os)
counts_add (failed ∷ os) = ground (arith, counts_add os)

-- Whichever statements fail, each pair of an employee and a leave type is counted once: as credited,
-- as skipped or as failed.
credit_employees-counts :
    (month year : ℕ) (employees : List Employee) (leave_types : List LeaveType) (w : World Store)
    → let os = (credit_employees month year employees leave_types w).0 in
      count_credited os + count_skipped os + count_failed os ≡ length employees * length leave_types
credit_employees-counts month year employees leave_types w =
    counts_add _ ∙ credit_employees-length month year employees leave_types w
