-- ===== src/Process/Defs.antt =====
-- process.go, approved.go, reject.go and withdraw.go.
use leave_management_system.Prelude.{
  ℕ, zero, suc, Bool, not, ◌&&◌, ◌||◌, List, [], ◌∷◌, Option, none, some, String, ◌==◌, ltb, leb,
  if◌then◌else◌, all,
}
use leave_management_system.Models.Role.{Role, role_eq}
use leave_management_system.Models.Leave.{
  State, state_eq, Status, LeaveFlowStage, LeaveFlow, Leave, LeaveType, is_early_leave,
}
use leave_management_system.Database.{Action, app, pure, crash, or_fail, wrap, ◌>>=◌, ◌>>◌}
use leave_management_system.Tables.{
  Tables, Calendar, update_approval_log, update_leave_status_tx,
  update_leave_balance_by_employee_id, update_withdraw_leave_balance_by_employee_id,
}

pub record LeaveActionContext : Type 0 where
  pub approver_id : ℕ
  pub role : Role
  pub remarks : String
  pub now : ℕ
  pub leave : Leave
  pub flow : LeaveFlow
  pub leave_type : LeaveType

abbrev pub shift : Option (ℕ × LeaveFlowStage) → Option (ℕ × LeaveFlowStage)
shift none = none
shift (some (i, s)) = some (suc i, s)

unfoldable pub find_stage : List LeaveFlowStage → Role → Option (ℕ × LeaveFlowStage)
find_stage [] role = none
find_stage (s ∷ log) role =
    if role_eq s.approver_role role then some (zero, s) else shift (find_stage log role)

-- A write through the pointer to stage `i`.
unfoldable pub modify_stage :
    List LeaveFlowStage → ℕ → (LeaveFlowStage → LeaveFlowStage) → List LeaveFlowStage
modify_stage [] i f = []
modify_stage (s ∷ log) zero f = f s ∷ log
modify_stage (s ∷ log) (suc i) f = s ∷ modify_stage log i f

abbrev pub stamp_stage : State → ℕ → String → ℕ → LeaveFlowStage → LeaveFlowStage
stamp_stage state actor_id remarks now s = record s {
  state = state;
  approved_by = some actor_id;
  remarks = remarks;
  action_at = some now;
}

abbrev pub set_state : State → LeaveFlowStage → LeaveFlowStage
set_state state s = record s { state = state }

abbrev pub skip_stage : ℕ → Role → LeaveFlowStage → LeaveFlowStage
skip_stage stage_no acting_role s =
    if ltb s.stage_no stage_no && state_eq s.state State.waiting
    then set_state State.skipped s
    else if s.stage_no == stage_no
        && not (role_eq s.approver_role acting_role)
        && state_eq s.state State.waiting
    then set_state State.skipped s
    else s

unfoldable pub skip_stages : List LeaveFlowStage → ℕ → Role → List LeaveFlowStage
skip_stages [] stage_no acting_role = []
skip_stages (s ∷ log) stage_no acting_role =
    skip_stage stage_no acting_role s ∷ skip_stages log stage_no acting_role

abbrev pub skip_waiting_stage : ℕ → LeaveFlowStage → LeaveFlowStage
skip_waiting_stage stage_no s =
    if state_eq s.state State.waiting && (leb s.stage_no stage_no || leb stage_no s.stage_no)
    then set_state State.skipped s
    else s

unfoldable pub skip_all_waiting_stages : List LeaveFlowStage → ℕ → List LeaveFlowStage
skip_all_waiting_stages [] stage_no = []
skip_all_waiting_stages (s ∷ log) stage_no =
    skip_waiting_stage stage_no s ∷ skip_all_waiting_stages log stage_no

abbrev pub is_settled : LeaveFlowStage → Bool
is_settled s = not (not (state_eq s.state State.approved) && not (state_eq s.state State.skipped))

unfoldable pub all_stages_settled : List LeaveFlowStage → Bool
all_stages_settled log = all is_settled log

abbrev pub reset_stage : ℕ → Role → LeaveFlowStage → LeaveFlowStage
reset_stage acting_stage_no acting_role s =
    if s.stage_no == acting_stage_no && role_eq s.approver_role acting_role
    then s
    else if leb s.stage_no acting_stage_no && not (state_eq s.state State.withdrawn)
    then set_state State.skipped s
    else if not (state_eq s.state State.withdrawn)
    then set_state State.waiting s
    else s

unfoldable pub reset_log_for_withdraw : List LeaveFlowStage → ℕ → Role → List LeaveFlowStage
reset_log_for_withdraw [] acting_stage_no acting_role = []
reset_log_for_withdraw (s ∷ log) acting_stage_no acting_role =
    reset_stage acting_stage_no acting_role s
    ∷ reset_log_for_withdraw log acting_stage_no acting_role

abbrev pub is_settled_for_withdraw : LeaveFlowStage → Bool
is_settled_for_withdraw s =
    not (not (state_eq s.state State.withdrawn) && not (state_eq s.state State.skipped))

unfoldable pub all_stages_settled_for_withdraw : List LeaveFlowStage → Bool
all_stages_settled_for_withdraw log = all is_settled_for_withdraw log

module _ (ctx : LeaveActionContext) where
  -- The log that each processor stores, given the caller's stage.
  unfoldable pub approved_log : ℕ → LeaveFlowStage → List LeaveFlowStage
  approved_log i stage =
      skip_stages
        (modify_stage ctx.flow.approval_log i
          (stamp_stage State.approved ctx.approver_id ctx.remarks ctx.now))
        stage.stage_no ctx.role

  unfoldable pub rejected_log : ℕ → LeaveFlowStage → List LeaveFlowStage
  rejected_log i stage =
      skip_all_waiting_stages
        (modify_stage ctx.flow.approval_log i
          (stamp_stage State.rejected ctx.approver_id ctx.remarks ctx.now))
        stage.stage_no

  unfoldable pub withdrawn_log : ℕ → LeaveFlowStage → List LeaveFlowStage
  withdrawn_log i stage =
      modify_stage (reset_log_for_withdraw ctx.flow.approval_log stage.stage_no ctx.role) i
        (stamp_stage State.withdrawn ctx.approver_id ctx.remarks ctx.now)

  unfoldable pub reject_process : Action Tables (Unit {0})
  reject_process = do
    (i, stage) ←
        or_fail (find_stage ctx.flow.approval_log ctx.role) (app 403 "leave alredy process")
    wrap 500 "failed to update approval log: "
        (update_approval_log ctx.leave.id (rejected_log i stage))
    wrap 500 "failed to reject leave: "
        (update_leave_status_tx ctx.leave.id Status.rejected ctx.approver_id)

  module _ (cal : Calendar) where
    -- Steps 6 and 7: the status, and the balance unless the leave is an early leave.
    unfoldable pub finalise_approval : Action Tables (Unit {0})
    finalise_approval = do
      wrap 500 "failed to approve leave: "
          (update_leave_status_tx ctx.leave.id Status.approved ctx.approver_id)
      if is_early_leave ctx.leave_type
          then pure tt
          else wrap 500 "failed to deduct leave balance: " (
              update_leave_balance_by_employee_id cal ctx.leave.employee_id ctx.leave.leave_type_id
                ctx.leave.days)

    unfoldable pub approve_process : Action Tables (Unit {0})
    approve_process = do
      (i, stage) ←
          or_fail (find_stage ctx.flow.approval_log ctx.role) (app 403 "leave alredy process")
      wrap 500 "failed to update approval log: "
          (update_approval_log ctx.leave.id (approved_log i stage))
      if not (all_stages_settled (approved_log i stage)) then pure tt else finalise_approval

    unfoldable pub finalise_withdrawal : Action Tables (Unit {0})
    finalise_withdrawal = do
      wrap 500 "failed to withdraw leave: "
          (update_leave_status_tx ctx.leave.id Status.withdrawn ctx.approver_id)
      if is_early_leave ctx.leave_type
          then pure tt
          else wrap 500 "failed to restore leave balance: " (
              update_withdraw_leave_balance_by_employee_id cal ctx.leave.employee_id
                ctx.leave.leave_type_id ctx.leave.days)

    -- The stage is used with no test for nil.
    unfoldable pub withdraw_process : Action Tables (Unit {0})
    withdraw_process = elim (find_stage ctx.flow.approval_log ctx.role) [
      | none ↦ crash
      | some (i, stage) ↦ do
        wrap 500 "failed to update approval log: "
            (update_approval_log ctx.leave.id (withdrawn_log i stage))
        if not (all_stages_settled_for_withdraw (withdrawn_log i stage))
            then wrap 500 "failed to set withdrawal pending: "
                (update_leave_status_tx ctx.leave.id Status.withdrawal_pending ctx.approver_id)
            else finalise_withdrawal
    ]
