-- ===== src/Leave/Action.antt =====
-- Approve, reject, withdraw and cancel a leave: `ActionLeave`, `ActionValidator` and `CancleLeave`
-- of internal/service/leave/leaveflow/leaveFlow.go, and the registry of leaveprocess/process.go.
-- A call answers with the notification that it goes on to publish. Publishing comes after the
-- transaction and changes no table.
pub mod Atomicity
pub mod Accounts
pub mod Outcomes
use leave_management_system.Prelude.{
  ℕ, Bool, true, false, ◌&&◌, not, List, [], ◌∷◌, Option, none, some, String, ◌==◌, find,
  if◌then◌else◌,
}
use leave_management_system.Models.Role.{Role, role_eq}
use leave_management_system.Models.Leave.{
  State, state_eq, Status, status_eq, LeaveFlowStage, LeaveFlow, Leave, LeaveType,
}
use leave_management_system.Database.{
  Error, Action, app, plain, pure, fail, crash, or_fail, wrap, forget, select, execute_transaction,
  ◌>>=◌, ◌>>◌,
}
use leave_management_system.Tables.{
  Tables, Calendar, get_leave_by_id, get_leave_type_by_id, update_leave_status,
}
use leave_management_system.Process.{
  LeaveActionContext, approve_process, reject_process, withdraw_process,
}
use leave_management_system.Leave.Log.{get_by_leave_id}

-- `strings.ToUpper(req.Action)`; `other` stands for every other text.
pub data ActionName : Type 0 where
  approve reject withdraw : ActionName
  other : ℕ → ActionName

pub data EventType : Type 0 where
  leave_applied leave_approved leave_rejected leave_withdrawn leave_withdrawal_pending
        leave_cancelled :
      EventType

pub record ActionLeaveReq : Type 0 where
  pub action : ActionName
  pub remarks : String

-- The switch of `ActionValidator`, for the caller's stage.
unfoldable pub check_action : LeaveFlowStage → ActionName → Status → Option Error
check_action stage ActionName.approve status =
    if not (status_eq status Status.pending)
    then some (app 400 "process only pending leave")
    else if not (state_eq stage.state State.waiting)
    then (if not (status_eq status Status.pending)
        then some (app 400 "process only pending leave")
        else some (app 400 "approve allowed only in waiting state"))
    else none
check_action stage ActionName.reject status =
    if not (state_eq stage.state State.waiting)
    then some (app 400 "reject allowed only in waiting state")
    else none
check_action stage ActionName.withdraw status =
    if not (status_eq status Status.approved) && not (status_eq status Status.withdrawal_pending)
    then some (app 400 "withdraw allowed only after approval")
    else none
check_action stage (ActionName.other n) status = some (app 400 "invalid action")

abbrev pub stage_of : List LeaveFlowStage → Role → Option LeaveFlowStage
stage_of log role = find (λ s. role_eq s.approver_role role) log

abbrev pub check_stage : Option LeaveFlowStage → ActionName → Status → Option Error
check_stage none action status = some (app 403 "role not allowed for this flow")
check_stage (some stage) action status = check_action stage action status

abbrev pub raise : Option Error → Action Tables (Unit {0})
raise none = pure tt
raise (some e) = fail e

-- A flow that is nil is dereferenced.
unfoldable pub action_validator :
    Option LeaveFlow → Role → ActionName → Status → Action Tables (Unit {0})
unfolding check_action
action_validator none role action status = crash
action_validator (some flow) role action status =
    raise (check_stage (stage_of flow.approval_log role) action status)

-- `GetByID`
unfoldable pub get_leave : ℕ → Action Tables Leave
get_leave leave_id =
    wrap 400 ""
      (get_leave_by_id leave_id >>= λ row. or_fail row (plain "sql: no rows in result set"))

pub data Processor : Type 0 where
  approve_processor reject_processor withdraw_processor : Processor

-- The registry of `NewProcessorRegistry`.
unfoldable pub resolve : ActionName → Option Processor
resolve ActionName.approve = some approve_processor
resolve ActionName.reject = some reject_processor
resolve ActionName.withdraw = some withdraw_processor
resolve (ActionName.other n) = none

-- What `ActionLeave` has read and checked before its transaction.
pub record Prepared : Type 0 where
  pub action : ActionName
  pub processor : Processor
  pub context : LeaveActionContext

abbrev pub to_context :
    Option LeaveFlow → (LeaveFlow → LeaveActionContext) → Action Tables LeaveActionContext
to_context none f = crash
to_context (some flow) f = pure (f flow)

-- The event of a withdrawal, from the leave that was read again.
abbrev pub withdraw_event : Option Leave → EventType
withdraw_event (some leave) =
    if status_eq leave.status Status.withdrawn
    then EventType.leave_withdrawn
    else EventType.leave_withdrawal_pending
withdraw_event none = EventType.leave_withdrawal_pending

-- The switch behind the transaction.
unfoldable pub choose_event : ActionName → ℕ → Action Tables (Option EventType)
unfolding get_leave
choose_event ActionName.approve leave_id = pure (some EventType.leave_approved)
choose_event ActionName.reject leave_id = pure (some EventType.leave_rejected)
choose_event ActionName.withdraw leave_id =
    forget (get_leave leave_id) >>= λ updated. pure (some (withdraw_event updated))
choose_event (ActionName.other n) leave_id = pure none

module _ (cal : Calendar) where
  -- `processor.Process`
  unfoldable pub run_processor : Processor → LeaveActionContext → Action Tables (Unit {0})
  run_processor approve_processor ctx = approve_process ctx cal
  run_processor reject_processor ctx = reject_process ctx
  run_processor withdraw_processor ctx = withdraw_process ctx cal

  module _ (now : ℕ) (req : ActionLeaveReq) (leave_id : ℕ) (emp_id : ℕ) (role : Role) where
    -- `ActionLeave` up to its transaction. The approver's name is read for the notification, and a
    -- failure to read it is ignored.
    unfoldable pub prepare_action : Action Tables Prepared
    prepare_action = do
      leave ← get_leave leave_id
      if leave.employee_id == emp_id
          then fail (app 403 "You cannot process your own leave request")
          else pure tt
      flow ← get_by_leave_id leave_id
      action_validator flow role req.action leave.status
      leave_type ←
          wrap 500 "Failed to fetch leave type: " (get_leave_type_by_id leave.leave_type_id)
      processor ← or_fail (resolve req.action) (app 400 "unsupported leave action")
      forget (select (λ s. tt)) >>= λ approver_details.
          to_context flow (λ f. record {
            approver_id = emp_id;
            role = role;
            remarks = req.remarks;
            now = now;
            leave = leave;
            flow = f;
            leave_type = leave_type;
          })
          >>= λ context.
              pure (record { action = req.action; processor = processor; context = context })

    -- The transaction, and the choice of the notification.
    unfoldable pub commit_action : Prepared → Action Tables (Option EventType)
    commit_action p = do
      execute_transaction (run_processor p.processor p.context)
      choose_event p.action leave_id

    unfoldable pub action_leave : Action Tables (Option EventType)
    action_leave = prepare_action >>= λ p. commit_action p

-- `CancleLeave`; the answer is the event.
abbrev pub check_cancel : Status → Option Error
check_cancel Status.approved =
    some (app 400 "Cannot cancel approved leave. Please contact your manager or admin")
check_cancel Status.rejected = some (app 400 "Leave is already rejected")
check_cancel Status.cancelled = some (app 400 "Leave is already cancelled")
check_cancel _ = none

unfoldable pub cancel_leave : ℕ → Action Tables EventType
cancel_leave leave_id = do
  row ← wrap 500 "Failed to fetch leave: " (get_leave_by_id leave_id)
  leave ← or_fail row (app 404 "Leave not found")
  raise (check_cancel leave.status)
  wrap 500 "Failed to cancel leave: " (update_leave_status leave_id Status.cancelled)
  pure EventType.leave_cancelled
