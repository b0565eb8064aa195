-- ===== src/Accounts/Accrual.antt =====
-- The monthly accrual: `RunAccrual` of internal/service/leaveAccrual.go and the statements of
-- internal/repositories/leaveAccrual.go. Days are counted in half days.
use leave_management_system.Prelude.{
  ℕ, ◌+◌, Bool, true, false, ◌&&◌, not, List, [], ◌∷◌, ◌++◌, none, some, ◌==◌, any, keep, update,
  if◌then◌else◌,
}
use leave_management_system.Prelude.Int.{pos, ◌+ℤ◌}
use leave_management_system.Models.Role.{Role, role_eq}
use leave_management_system.Models.Leave.{Balance, LeaveType, is_early_leave}
use leave_management_system.Database.{
  Action, Result, ok, World, select, exec, next_fault, later_faults, ◌>>◌,
}
use leave_management_system.Tables.{is_row}
use leave_management_system.Accounts.Store.{Employee, AccrualEntry, Store, insert_row}

unfoldable pub get_accruable_leave_types : Action Store (List LeaveType)
unfolding is_early_leave
get_accruable_leave_types =
    select (λ s. keep (λ t. t.is_paid && not (is_early_leave t)) s.leave_types)

unfoldable pub get_all_active_employees_for_accrual : Action Store (List Employee)
get_all_active_employees_for_accrual = select (λ s. keep (λ e. e.is_active) s.employees)

abbrev pub is_credit : ℕ → ℕ → ℕ → ℕ → AccrualEntry → Bool
is_credit employee_id leave_type_id month year a =
    a.employee_id == employee_id
    && a.leave_type_id == leave_type_id
    && a.month == month
    && a.year == year

abbrev pub is_credited : ℕ → ℕ → ℕ → ℕ → Store → Bool
is_credited employee_id leave_type_id month year s =
    any (is_credit employee_id leave_type_id month year) s.accruals

unfoldable pub is_accrual_already_run : ℕ → ℕ → ℕ → ℕ → Action Store Bool
is_accrual_already_run employee_id leave_type_id month year =
    select (is_credited employee_id leave_type_id month year)

abbrev pub accrue : ℕ → Balance → Balance
accrue days b = record b { accrued = b.accrued +ℤ pos days }

abbrev pub log_credit : ℕ → ℕ → ℕ → ℕ → ℕ → Store → Store
log_credit employee_id leave_type_id month year days s =
    if is_credited employee_id leave_type_id month year s then s else record s {
      accruals =
          record {
            employee_id = employee_id;
            leave_type_id = leave_type_id;
            month = month;
            year = year;
            days_credited = days;
          }
          ∷ s.accruals;
    }

unfoldable pub credit_monthly_accrual : ℕ → ℕ → ℕ → ℕ → ℕ → Action Store (Unit {0})
credit_monthly_accrual employee_id leave_type_id year month days = do
  exec (insert_row employee_id leave_type_id year (pos 0))
  exec (λ s. record s {
    balances = update (is_row employee_id leave_type_id year) (accrue days) s.balances;
  })
  exec (log_credit employee_id leave_type_id month year days)

unfoldable pub accrual_rate : Role → ℕ
accrual_rate role = if role_eq role Role.intern then 2 else 3

-- How the turn of one pair ends.
pub data Outcome : Type 0 where
  credited skipped failed : Outcome

-- A failure of the rollback is ignored.
abbrev pub rollback : Store → World Store → World Store
rollback before w = record { db = before; faults = later_faults w.faults }

abbrev pub commit_credit : Store → World Store → Outcome × World Store
commit_credit before w = elim (next_fault w.faults) [
  | none ↦ (credited, record w { faults = later_faults w.faults })
  | some m ↦ (failed, rollback before w)
]

abbrev pub after_credit : Store → Result (Unit {0}) → World Store → Outcome × World Store
after_credit before (ok t) w = commit_credit before w
after_credit before _ w = (failed, rollback before w)

module _ (month year : ℕ) where
  abbrev pub after_check :
      Employee → LeaveType → Store → Result Bool → World Store → Outcome × World Store
  after_check emp lt before (ok true) w = (skipped, rollback before w)
  after_check emp lt before (ok false) w =
      let (r, w') = credit_monthly_accrual emp.id lt.id year month (accrual_rate emp.role) w in
      after_credit before r w'
  after_check emp lt before _ w = (failed, rollback before w)

  -- The body of the loops, with its own transaction.
  unfoldable pub credit_pair : Employee → LeaveType → World Store → Outcome × World Store
  credit_pair emp lt w = elim (next_fault w.faults) [
    | some m ↦ (failed, record w { faults = later_faults w.faults })
    | none ↦
        let (r, w') =
          is_accrual_already_run emp.id lt.id month year
            (record w { faults = later_faults w.faults }) in
        after_check emp lt w.db r w'
  ]

  -- The loops, with the outcomes in the order of the pairs.
  unfoldable pub credit_types : Employee → List LeaveType → World Store → List Outcome × World Store
  credit_types emp [] w = ([], w)
  credit_types emp (lt ∷ leave_types) w =
      let (o, w') = credit_pair emp lt w in
      let (os, w'') = credit_types emp leave_types w' in (o ∷ os, w'')

  unfoldable pub credit_employees :
      List Employee → List LeaveType → World Store → List Outcome × World Store
  credit_employees [] leave_types w = ([], w)
  credit_employees (emp ∷ employees) leave_types w =
      let (os, w') = credit_types emp leave_types w in
      let (os', w'') = credit_employees employees leave_types w' in (os ++ os', w'')

  -- After an error of a query, or where a query finds nothing, there are no pairs.
  abbrev pub after_employees :
      List LeaveType → Result (List Employee) → World Store → List Outcome × World Store
  after_employees leave_types (ok employees) w = credit_employees employees leave_types w
  after_employees leave_types _ w = ([], w)

  abbrev pub after_types : Result (List LeaveType) → World Store → List Outcome × World Store
  after_types (ok []) w = ([], w)
  after_types (ok (lt ∷ leave_types)) w =
      let (r, w') = get_all_active_employees_for_accrual w in
      after_employees (lt ∷ leave_types) r w'
  after_types _ w = ([], w)

  -- The numbers that `RunAccrual` returns count the outcomes.
  unfoldable pub run_accrual : World Store → List Outcome × World Store
  run_accrual w = let (r, w') = get_accruable_leave_types w in after_types r w'

abbrev pub count_credited : List Outcome → ℕ
count_credited [] = 0
count_credited (credited ∷ os) = 1 + count_credited os
count_credited (_ ∷ os) = count_credited os

abbrev pub count_skipped : List Outcome → ℕ
count_skipped [] = 0
count_skipped (skipped ∷ os) = 1 + count_skipped os
count_skipped (_ ∷ os) = count_skipped os

abbrev pub count_failed : List Outcome → ℕ
count_failed [] = 0
count_failed (failed ∷ os) = 1 + count_failed os
count_failed (_ ∷ os) = count_failed os
