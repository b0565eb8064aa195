-- ===== src/Leave/Validation/Accepted.antt =====
-- What is known of an application that passes the checks.
use leave_management_system.Prelude.{
  ℕ, sum_by, ◌+◌, ◌≡◌, refl, inl, inr, false, List, [], ◌∷◌, Option, none, some, any, keep, arith,
  Bool-cases, find,
}
use leave_management_system.Prelude.Int.{ℤ, pos, ◌+ℤ◌, ◌-ℤ◌, ltb_ℤ, ◌≤ℤ◌, int_laws}
use leave_management_system.Models.Leave.{Leave}
use leave_management_system.Database.{World, ok, statement, select}
use leave_management_system.Tables.{
  Tables, Calendar, is_overlap, get_overlapping_leaves, get_leave_balance, get_pending_leave_days,
  is_row, is_pending_of, current_year,
}
use leave_management_system.Leave.Validation.{
  overlap_refused, validate_overlapping_leaves, validate_leave_balance,
}

overlaps_refused :
    (employee_id start end : ℕ) (exclude : Option ℕ) (leaves : List Leave)
    → overlap_refused exclude (keep (is_overlap employee_id start end exclude) leaves) ≡ false
    → any (is_overlap employee_id start end exclude) leaves ≡ false
overlaps_refused employee_id start end exclude [] h = refl
overlaps_refused employee_id start end exclude (l ∷ leaves) h =
    elim (Bool-cases (is_overlap employee_id start end exclude l)) [
      | inl p ↦ ground arith
      | inr p ↦ rw p (overlaps_refused employee_id start end exclude leaves (rw p at h))
    ]

-- If the check for overlaps passes, the employee has no other pending or approved leave that shares
-- a day with the period.
pub validate_overlapping_leaves_free :
    (employee_id start end : ℕ) (exclude : Option ℕ) (w : World Tables)
    → (validate_overlapping_leaves employee_id start end exclude w).0 ≡ ok tt
    → any (is_overlap employee_id start end exclude) w.db.leaves ≡ false
unfolding validate_overlapping_leaves get_overlapping_leaves select statement
validate_overlapping_leaves_free employee_id start end exclude w e =
    overlaps_refused employee_id start end exclude w.db.leaves (ground arith)

covers_of :
    (balance : ℤ) (days required : ℕ)
    → ltb_ℤ (balance -ℤ pos days +ℤ pos 0) (pos required) ≡ false
    → pos (days + required) ≤ℤ balance
covers_of balance days required h =
    let sum : pos required ≤ℤ balance -ℤ pos days +ℤ pos 0 = ground arith in omega int_laws

module _ (cal : Calendar) where
  -- The closing balance of the year, 0 where there is no row.
  abbrev pub closing_of : ℕ → ℕ → Tables → ℤ
  closing_of employee_id leave_type_id s =
      elim (find (is_row employee_id leave_type_id (current_year cal)) s.balances) [
        | none ↦ pos 0
        | some b ↦ b.closing
      ]

  -- The days of the employee's pending leaves of the type in the year.
  abbrev pub pending_days_of : ℕ → ℕ → Tables → ℕ
  pending_days_of employee_id leave_type_id s =
      sum_by (λ l. l.days) (keep (is_pending_of cal employee_id leave_type_id none) s.leaves)

  -- If the balance check of a new application passes, the closing balance covers the days of the
  -- pending leaves and the days asked for together.
  pub validate_leave_balance_covers :
      (employee_id leave_type_id required_days : ℕ) (w : World Tables)
      → (validate_leave_balance cal employee_id leave_type_id required_days none w).0 ≡ ok tt
      → pos (pending_days_of employee_id leave_type_id w.db + required_days)
        ≤ℤ closing_of employee_id leave_type_id w.db
  unfolding validate_leave_balance get_leave_balance get_pending_leave_days select statement
  validate_leave_balance_covers employee_id leave_type_id required_days w e =
      covers_of (closing_of employee_id leave_type_id w.db)
        (pending_days_of employee_id leave_type_id w.db) required_days (ground arith)
