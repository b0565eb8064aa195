-- ===== src/Tests/Inputs.antt =====
-- One employee, two approvers, a leave type with an approval flow, and a leave that is pending.
use leave_management_system.Prelude.{
  ℕ, ◌/◌, ◌%◌, true, false, List, [], ◌∷◌, none, some, leb, ◌&&◌, ◌==◌,
}
use leave_management_system.Prelude.Int.{pos}
use leave_management_system.Models.Role.{Role}
use leave_management_system.Models.Leave.{
  State, Status, ApprovalStage, LeaveFlowStage, LeaveFlow, Leave, LeaveType, LeaveInput, Balance,
  LeaveTypeResponse,
}
use leave_management_system.Database.{World}
use leave_management_system.Tables.{Tables, Calendar}
use leave_management_system.Process.{LeaveActionContext}
use leave_management_system.Leave.Reason.{Unicode}
use leave_management_system.Leave.Action.{ActionName, ActionLeaveReq}

abbrev pub calendar : Calendar
calendar = record { today = 800; year_of = λ d. d / 365; month_of = λ d. d % 365 / 31 }

abbrev pub stages : List ApprovalStage
stages =
    record { stage_no = 1; approver_role = Role.manager }
    ∷ record { stage_no = 2; approver_role = Role.hr }
    ∷ []

abbrev pub waiting : ℕ → Role → LeaveFlowStage
waiting n role = record {
  stage_no = n;
  approver_role = role;
  state = State.waiting;
  approved_by = none;
  remarks = "";
  action_at = none;
}

abbrev pub waiting_log : List LeaveFlowStage
waiting_log = waiting 1 Role.manager ∷ waiting 2 Role.hr ∷ []

abbrev pub flow : LeaveFlow
flow = record { leave_id = 1; approval_log = waiting_log }

abbrev pub one_stage : LeaveFlow
one_stage = record { leave_id = 1; approval_log = waiting 1 Role.manager ∷ [] }

abbrev pub leave_type : LeaveType
leave_type = record {
  id = 3;
  name = "Casual";
  is_paid = true;
  default_entitlement = 12;
  intern_entitlement = some 6;
  is_early = none;
  is_work_from_home = false;
  approval_flow_id = some 5;
}

abbrev pub response : LeaveTypeResponse
response = record {
  leave_type = leave_type;
  approval_flow = some (record { id = 5; name = "Default"; is_system = true; flow = stages });
}

abbrev pub leave : Leave
leave = record {
  id = 1;
  employee_id = 7;
  leave_type_id = 3;
  half_id = some 3;
  leave_timing = none;
  start_date = 805;
  end_date = 806;
  days = 4;
  status = Status.pending;
  approved_by = none;
  reason = [];
}

abbrev pub balance : Balance
balance = record {
  employee_id = 7;
  leave_type_id = 3;
  year = 2;
  opening = pos 24;
  accrued = pos 0;
  used = pos 0;
  adjusted = pos 0;
  closing = pos 24;
}

abbrev pub tables : List LeaveFlow → Tables
tables flows = record {
  leaves = leave ∷ [];
  leave_types = leave_type ∷ [];
  balances = balance ∷ [];
  leave_flows = flows;
  approval_flows = record { id = 5; name = "Default"; is_system = true; flow = stages } ∷ [];
  holidays = [];
  next_id = 2;
}

abbrev pub running : {S : Type 0} → S → World S
running s = record { db = s; faults = [] }

-- The second statement fails.
abbrev pub failing : {S : Type 0} → S → World S
failing s = record { db = s; faults = none ∷ some "pq: connection reset" ∷ [] }

abbrev pub manager_context : LeaveFlow → LeaveActionContext
manager_context f = record {
  approver_id = 8;
  role = Role.manager;
  remarks = "fine";
  now = 801;
  leave = leave;
  flow = f;
  leave_type = leave_type;
}

abbrev pub approve : ActionLeaveReq
approve = record { action = ActionName.approve; remarks = "fine" }

-- ASCII only.
abbrev pub ascii : Unicode
ascii = record {
  is_space = λ c. c == 32;
  is_letter = λ c. leb 97 c && leb c 122;
  is_digit = λ c. leb 48 c && leb c 57;
  to_lower = λ c. c;
}

-- "family wedding in another city"
abbrev pub reason : List ℕ
reason =
    102 ∷ 97 ∷ 109 ∷ 105 ∷ 108 ∷ 121 ∷ 32 ∷ 119 ∷ 101 ∷ 100 ∷ 100 ∷ 105 ∷ 110 ∷ 103 ∷ 32 ∷ 105 ∷ 110
    ∷ 32 ∷ 97 ∷ 110 ∷ 111 ∷ 116 ∷ 104 ∷ 101 ∷ 114 ∷ 32 ∷ 99 ∷ 105 ∷ 116 ∷ 121 ∷ []

abbrev pub application : LeaveInput
application = record {
  employee_id = 7;
  leave_type_id = 3;
  leave_timing_id = some 3;
  leave_timing = none;
  start_date = 812;
  end_date = 813;
  reason = reason;
}
