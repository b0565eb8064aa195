-- ===== src/Leave/Log.antt =====
-- The approval log of a leave: internal/service/leaveLogFlow.go.
pub mod Approvers
use leave_management_system.Prelude.{
  ℕ, Bool, true, false, List, [], ◌∷◌, Option, none, some, leb, any, if◌then◌else◌,
}
use leave_management_system.Models.Role.{Role}
use leave_management_system.Models.Leave.{
  State, ApprovalStage, LeaveFlowStage, LeaveFlow, LeaveApprovalFlow, LeaveTypeResponse,
}
use leave_management_system.Database.{Action, pure, select, forget, ◌>>=◌, ◌>>◌}
use leave_management_system.Tables.{Tables, insert_flow, get_flow_by_leave_id, update_approval_log}

-- The map `roleLevels`; a text that is no key has level 0.
unfoldable pub get_role_level : Role → ℕ
get_role_level Role.intern = 1
get_role_level Role.employee = 2
get_role_level Role.manager = 3
get_role_level Role.hr = 4
get_role_level Role.admin = 5
get_role_level Role.super_admin = 6
get_role_level (Role.other n) = 0

abbrev pub waiting_stage : ApprovalStage → LeaveFlowStage
waiting_stage stage = record {
  stage_no = stage.stage_no;
  approver_role = stage.approver_role;
  state = State.waiting;
  approved_by = none;
  remarks = "";
  action_at = none;
}

-- The loop of `generateApprovalLog`.
unfoldable pub generate_stages : List ApprovalStage → ℕ → List LeaveFlowStage
generate_stages [] applicant_level = []
generate_stages (stage ∷ flow) applicant_level =
    if leb (get_role_level stage.approver_role) applicant_level
    then generate_stages flow applicant_level
    else waiting_stage stage ∷ generate_stages flow applicant_level

unfoldable pub generate_approval_log : LeaveTypeResponse → Role → List LeaveFlowStage
generate_approval_log leave_type_res role = elim leave_type_res.approval_flow [
  | none ↦ []
  | some flow ↦ generate_stages flow.flow (get_role_level role)
]

abbrev pub is_empty : List LeaveFlowStage → Bool
is_empty [] = true
is_empty (s ∷ log) = false

-- `Create`: a leave that nobody has to approve gets no log.
unfoldable pub create_log : ℕ → LeaveTypeResponse → Role → Action Tables (Unit {0})
create_log leave_id leave_type_res role =
    if is_empty (generate_approval_log leave_type_res role)
    then pure tt
    else insert_flow
        (record { leave_id = leave_id; approval_log = generate_approval_log leave_type_res role })

unfoldable pub regenerate_approval_log : ℕ → LeaveTypeResponse → Role → Action Tables (Unit {0})
regenerate_approval_log leave_id leave_type_res role =
    if is_empty (generate_approval_log leave_type_res role)
    then pure tt
    else update_approval_log leave_id (generate_approval_log leave_type_res role)

abbrev pub has_approver : LeaveFlowStage → Bool
has_approver s = elim s.approved_by [ none ↦ false | some id ↦ true ]

-- `GetByLeaveID`. The names of the approvers are read by a statement of their own, whose failure
-- is ignored; the names are shown and never acted on, and are not kept here.
unfoldable pub get_by_leave_id : ℕ → Action Tables (Option LeaveFlow)
get_by_leave_id leave_id = do
  row ← get_flow_by_leave_id leave_id
  elim row [
    | none ↦ pure none
    | some flow ↦
        if any has_approver flow.approval_log
        then (forget (select (λ s. tt)) >>= λ names. pure (some flow))
        else pure (some flow)
  ]
