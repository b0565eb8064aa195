-- ===== src/Models/Leave.antt =====
-- Leaves, leave types, balances and approval logs: internal/models/leaveFlow.go, LeaveType.go,
-- leaveLogFlow.go, leaveApprovalFlow.go, leaveBalance.go and the statuses of pkg/constant.
-- Ids are numbers. Days are counted in half days (the float 0.5 is 1): leaves are multiples of a
-- half day. A date is the number of days since 1 January of the year 1.
use leave_management_system.Prelude.{ℕ, Bool, false, List, Option, none, some, String, ◌==◌}
use leave_management_system.Prelude.Int.{ℤ}
use leave_management_system.Models.Role.{Role}

-- The state of one stage of an approval log.
pub data State : Type 0 where
  waiting approved rejected withdrawn skipped : State

abbrev pub state_code : State → ℕ
state_code waiting = 0
state_code approved = 1
state_code rejected = 2
state_code withdrawn = 3
state_code skipped = 4

abbrev pub state_eq : State → State → Bool
state_eq a b = state_code a == state_code b

-- The status of a leave.
pub data Status : Type 0 where
  pending approved rejected cancelled withdrawn withdrawal_pending : Status

abbrev pub status_code : Status → ℕ
status_code Status.pending = 0
status_code Status.approved = 1
status_code Status.rejected = 2
status_code Status.cancelled = 3
status_code Status.withdrawn = 4
status_code Status.withdrawal_pending = 5

abbrev pub status_eq : Status → Status → Bool
status_eq a b = status_code a == status_code b

pub record ApprovalStage : Type 0 where
  pub stage_no : ℕ
  pub approver_role : Role

pub record LeaveFlowStage : Type 0 where
  pub stage_no : ℕ
  pub approver_role : Role
  pub state : State
  pub approved_by : Option ℕ
  pub remarks : String
  pub action_at : Option ℕ

pub record LeaveFlow : Type 0 where
  pub leave_id : ℕ
  pub approval_log : List LeaveFlowStage

pub record Leave : Type 0 where
  pub id : ℕ
  pub employee_id : ℕ
  pub leave_type_id : ℕ
  pub half_id : Option ℕ
  pub leave_timing : Option (List ℕ)
  pub start_date : ℕ
  pub end_date : ℕ
  pub days : ℕ
  pub status : Status
  pub approved_by : Option ℕ
  pub reason : List ℕ

pub record LeaveType : Type 0 where
  pub id : ℕ
  pub name : String
  pub is_paid : Bool
  pub default_entitlement : ℕ
  pub intern_entitlement : Option ℕ
  pub is_early : Option Bool
  pub is_work_from_home : Bool
  pub approval_flow_id : Option ℕ

pub record LeaveApprovalFlow : Type 0 where
  pub id : ℕ
  pub name : String
  pub is_system : Bool
  pub flow : List ApprovalStage

-- The request to apply for a leave. `leave_timing` is a text of bytes.
pub record LeaveInput : Type 0 where
  pub employee_id : ℕ
  pub leave_type_id : ℕ
  pub leave_timing_id : Option ℕ
  pub leave_timing : Option (List ℕ)
  pub start_date : ℕ
  pub end_date : ℕ
  pub reason : List ℕ

-- A leave type with its approval flow, if it has one.
pub record LeaveTypeResponse : Type 0 where
  pub leave_type : LeaveType
  pub approval_flow : Option LeaveApprovalFlow

unfoldable pub map_payload : LeaveType → Option LeaveApprovalFlow → LeaveTypeResponse
map_payload leave_type none = record { leave_type = leave_type; approval_flow = none }
map_payload leave_type (some flow) = record {
  leave_type = leave_type;
  approval_flow = elim leave_type.approval_flow_id [ none ↦ none | some id ↦ some flow ];
}

pub record Balance : Type 0 where
  pub employee_id : ℕ
  pub leave_type_id : ℕ
  pub year : ℕ
  pub opening : ℤ
  pub accrued : ℤ
  pub used : ℤ
  pub adjusted : ℤ
  pub closing : ℤ

-- `t.IsEarly != nil && *t.IsEarly`
unfoldable pub is_true : Option Bool → Bool
is_true none = false
is_true (some b) = b

unfoldable pub is_early_leave : LeaveType → Bool
unfolding is_true
is_early_leave lt = is_true lt.is_early

pub record LeaveCountSummary : Type 0 where
  pub total : ℕ
  pub pending : ℕ
  pub approved : ℕ
  pub rejected : ℕ
  pub cancelled : ℕ
  pub withdrawn : ℕ
