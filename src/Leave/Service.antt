-- ===== src/Leave/Service.antt =====
-- Apply for a leave and edit it: `Create`, `UpdateLeave` and `ValidateLeave` of leaveFlow.go, and
-- `GetByID` of internal/service/leavePolicy.go.
pub mod Atomicity
use leave_management_system.Prelude.{
  ℕ, Bool, true, false, ◌&&◌, List, Option, none, some, String, ◌==◌, if◌then◌else◌,
}
use leave_management_system.Models.Role.{Role}
use leave_management_system.Models.Leave.{
  LeaveInput, LeaveType, LeaveTypeResponse, map_payload, is_early_leave,
}
use leave_management_system.Database.{
  Action, Result, ok, err, panic, text, app, plain, pure, fail, wrap, execute_transaction, ◌>>=◌,
  ◌>>◌,
}
use leave_management_system.Tables.{
  Tables, Calendar, get_leave_type_by_id, get_approval_flow_by_id, insert_leave, update_leave,
}
use leave_management_system.Leave.Log.{create_log, regenerate_approval_log}
use leave_management_system.Leave.Days.{
  validate_leave_timing, calculate_working_days_with_timing, validate_unpaid_leave_application,
}
use leave_management_system.Leave.Reason.{Unicode, validate_leave_reason}
use leave_management_system.Leave.Validation.{
  LeaveTypeInfo, ValidateLeaveApplicationParams, validate_leave_timing_id, validate_leave_dates,
  get_leave_type_and_resolve_timing_id, validate_leave_application,
}

-- A message becomes an error with status 400.
abbrev pub refuse : Option String → Action Tables (Unit {0})
refuse none = pure tt
refuse (some message) = fail (app 400 message)

abbrev pub check_timing : Option (List ℕ) → Action Tables (Option ℕ)
check_timing none = pure none
check_timing (some leave_timing) = elim (validate_leave_timing leave_timing) [
  | ok minutes ↦ pure (some minutes)
  | err e ↦ fail (app 400 (text e))
  | panic ↦ pure none
]

-- `LeavePolicyService.GetByID`; the error of the approval flow service is replaced.
abbrev pub replace_error : ℕ → String → {A : Type 0} → Action Tables A → Action Tables A
replace_error code message m w =
    let (r, w') = m w in
    (elim r [ ok a ↦ ok a | err e ↦ err (app code message) | panic ↦ panic ], w')

unfoldable pub get_policy_by_id : ℕ → Action Tables LeaveTypeResponse
get_policy_by_id leave_type_id = do
  leave_type ← replace_error 500 "failed to get leave policy" (get_leave_type_by_id leave_type_id)
  elim leave_type.approval_flow_id [
    | none ↦ pure (map_payload leave_type none)
    | some flow_id ↦
        replace_error 500 "failed to load Leave Approvel flow" (get_approval_flow_by_id flow_id)
        >>= λ flow. pure (map_payload leave_type (some flow))
  ]

module _ (u : Unicode) where
  unfoldable pub validate_leave : LeaveInput → Action Tables (LeaveTypeInfo × Option ℕ)
  validate_leave leave = do
    leave_timing ← check_timing leave.leave_timing
    refuse (validate_leave_timing_id leave.leave_timing_id)
    refuse (validate_leave_reason u leave.reason)
    refuse (validate_leave_dates leave.start_date leave.end_date)
    info ←
        wrap 400 "" (get_leave_type_and_resolve_timing_id leave.leave_type_id leave.leave_timing_id)
    pure (info, leave_timing)

module _ (cal : Calendar) where
  -- The days of the leave, checked, with everything that an application has to pass.
  unfoldable pub check_application :
      LeaveInput → LeaveTypeInfo → Option ℕ → Option ℕ → Action Tables ℕ
  check_application leave info leave_timing exclude_leave_id = do
    leave_days ← wrap 400 "" (
        calculate_working_days_with_timing leave.start_date leave.end_date info.timing_id
          leave_timing)
    if leave_days == 0
        then fail (
            app 400
              "Calculated leave days must be greater than zero. Please check the dates and timing")
        else pure tt
    wrap 400 "" (validate_unpaid_leave_application cal leave.employee_id leave.leave_type_id)
    wrap 400 "" (
        validate_leave_application cal
          (record {
            employee_id = leave.employee_id;
            leave_type_id = leave.leave_type_id;
            start_date = leave.start_date;
            end_date = leave.end_date;
            leave_days = leave_days;
            exclude_leave_id = exclude_leave_id;
          })
          info.leave_type)
    pure leave_days

  -- The timing is kept for an early leave only.
  abbrev pub kept_timing : LeaveType → LeaveInput → Option (List ℕ)
  kept_timing leave_type leave = if is_early_leave leave_type then leave.leave_timing else none

  -- The body of the transaction of `Create`.
  unfoldable pub insert_application :
      LeaveInput → Role → LeaveTypeInfo → Option ℕ → LeaveTypeResponse → Action Tables ℕ
  insert_application leave role info leave_timing policy = do
    leave_days ← check_application leave info leave_timing none
    id ←
        wrap 500 "Failed to apply leave: "
          (insert_leave leave leave_days (kept_timing info.leave_type leave))
    create_log id policy role
    pure id

  -- The body of the transaction of `UpdateLeave`: the log is made anew for the role EMPLOYEE.
  unfoldable pub edit_application :
      ℕ → ℕ → LeaveInput → LeaveTypeInfo → Option ℕ → LeaveTypeResponse → Action Tables (Unit {0})
  edit_application emp_id leave_id leave info leave_timing policy = do
    leave_days ← check_application leave info leave_timing (some leave_id)
    wrap 500 "failed to update leave: " (update_leave leave_id emp_id leave leave_days)
    regenerate_approval_log leave_id policy Role.employee

  module _ (u : Unicode) where
    -- `Create`; the answer is the id of the new leave.
    unfoldable pub create : LeaveInput → Role → Action Tables ℕ
    create leave role = do
      (info, leave_timing) ← validate_leave u leave
      policy ← get_policy_by_id leave.leave_type_id
      execute_transaction (insert_application leave role info leave_timing policy)

    unfoldable pub update_application : ℕ → ℕ → LeaveInput → Action Tables (Unit {0})
    update_application emp_id leave_id leave = do
      (info, leave_timing) ← validate_leave u leave
      policy ← get_policy_by_id leave.leave_type_id
      execute_transaction (edit_application emp_id leave_id leave info leave_timing policy)
