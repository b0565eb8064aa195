-- ===== src/Leave/Validation.antt =====
-- The checks of leaveValidation.go on an application. The numbers that the program formats into a
-- message are left out of it.
pub mod Accepted
use leave_management_system.Prelude.{
  ℕ, Bool, false, ◌||◌, not, List, [], ◌∷◌, Option, none, some, ltb, same, if◌then◌else◌, String,
}
use leave_management_system.Prelude.Int.{pos, ◌+ℤ◌, ◌-ℤ◌, ltb_ℤ}
use leave_management_system.Models.Leave.{Leave, LeaveType, is_early_leave}
use leave_management_system.Database.{Action, plain, pure, fail, annotate, ◌>>=◌, ◌>>◌}
use leave_management_system.Tables.{
  Tables, Calendar, get_leave_type_by_id, get_leave_balance, get_pending_leave_days,
  get_leave_days_by_id, get_early_leave_this_month, get_overlapping_leaves,
}

unfoldable pub validate_leave_timing_id : Option ℕ → Option String
validate_leave_timing_id none = none
validate_leave_timing_id (some timing_id) =
    if ltb timing_id 1 || ltb 3 timing_id then some "invalid leave timing ID" else none

unfoldable pub validate_leave_dates : ℕ → ℕ → Option String
validate_leave_dates start_date end_date =
    if ltb end_date start_date then some "end date cannot be earlier than start date" else none

pub record LeaveTypeInfo : Type 0 where
  pub leave_type : LeaveType
  pub timing_id : ℕ

unfoldable pub resolve_timing_id : LeaveType → Option ℕ → ℕ
resolve_timing_id leave_type requested =
    if is_early_leave leave_type
    then 3
    else elim requested [ none ↦ 3 | some timing_id ↦ timing_id ]

unfoldable pub get_leave_type_and_resolve_timing_id : ℕ → Option ℕ → Action Tables LeaveTypeInfo
get_leave_type_and_resolve_timing_id leave_type_id requested_timing_id = do
  leave_type ← annotate "invalid leave type: " (get_leave_type_by_id leave_type_id)
  pure (record {
    leave_type = leave_type;
    timing_id = resolve_timing_id leave_type requested_timing_id;
  })

pub record ValidateLeaveApplicationParams : Type 0 where
  pub employee_id : ℕ
  pub leave_type_id : ℕ
  pub start_date : ℕ
  pub end_date : ℕ
  pub leave_days : ℕ
  pub exclude_leave_id : Option ℕ

abbrev pub original_leave_days : Option ℕ → Action Tables ℕ
original_leave_days none = pure 0
original_leave_days (some id) =
    annotate "failed to fetch original leave days: " (get_leave_days_by_id id)

-- The first overlapping leave that is not the excluded one is refused.
abbrev pub overlap_refused : Option ℕ → List Leave → Bool
overlap_refused exclude_leave_id [] = false
overlap_refused exclude_leave_id (ov ∷ overlaps) =
    not (same (some ov.id) exclude_leave_id) || overlap_refused exclude_leave_id overlaps

unfoldable pub validate_overlapping_leaves : ℕ → ℕ → ℕ → Option ℕ → Action Tables (Unit {0})
validate_overlapping_leaves employee_id start_date end_date exclude_leave_id = do
  overlaps ←
      annotate "failed to check overlapping leave: "
        (get_overlapping_leaves employee_id start_date end_date exclude_leave_id)
  if overlap_refused exclude_leave_id overlaps
      then fail (plain "overlapping leave exists")
      else pure tt

module _ (cal : Calendar) where
  unfoldable pub validate_leave_balance : ℕ → ℕ → ℕ → Option ℕ → Action Tables (Unit {0})
  validate_leave_balance employee_id leave_type_id required_days exclude_leave_id = do
    balance ←
        annotate "failed to fetch leave balance: " (get_leave_balance cal employee_id leave_type_id)
    pending_days ←
        annotate "failed to fetch pending leave days: "
          (get_pending_leave_days cal employee_id leave_type_id exclude_leave_id)
    original_days ← original_leave_days exclude_leave_id
    if ltb_ℤ (balance -ℤ pos pending_days +ℤ pos original_days) (pos required_days)
        then fail (plain "insufficient leave balance")
        else pure tt

  unfoldable pub validate_early_leave_limit : ℕ → ℕ → ℕ → Action Tables (Unit {0})
  validate_early_leave_limit employee_id leave_type_id ref_date = do
    existing ←
        annotate "failed to check early leave: "
          (get_early_leave_this_month cal employee_id leave_type_id ref_date)
    elim existing [
      | none ↦ pure tt
      | some leave ↦ fail (plain "early leave already taken this month")
    ]

  unfoldable pub validate_leave_application :
      ValidateLeaveApplicationParams → LeaveType → Action Tables (Unit {0})
  validate_leave_application params leave_type = do
    if is_early_leave leave_type
        then validate_early_leave_limit params.employee_id params.leave_type_id params.start_date
        else validate_leave_balance params.employee_id params.leave_type_id params.leave_days
            params.exclude_leave_id
    validate_overlapping_leaves params.employee_id params.start_date params.end_date
        params.exclude_leave_id
