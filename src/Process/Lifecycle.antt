-- ===== src/Process/Lifecycle.antt =====
-- The approval log agrees with the status of its leave, before and after every action.
use leave_management_system.Prelude.{
  ℕ, zero, suc, ◌≡◌, refl, ◌⊎◌, inl, inr, true, false, List, [], ◌∷◌, some, String, arith, any, All,
  if◌then◌else◌,
}
use leave_management_system.Models.Role.{Role}
use leave_management_system.Models.Leave.{State, LeaveFlowStage, Status}
use leave_management_system.Process.Defs.{
  LeaveActionContext, find_stage, modify_stage, stamp_stage, skip_stages, all_stages_settled,
  reset_log_for_withdraw, all_stages_settled_for_withdraw, approved_log, withdrawn_log,
}
use leave_management_system.Process.Stages.{
  NoStageOf, DistinctRoles, is_waiting, IsCaller, here, there, find_stage-IsCaller, NoStageOf-trans,
}

-- Approval has not been refused or taken back at this stage.
abbrev pub IsOpen : State → Type 0
IsOpen State.rejected = ⊥
IsOpen State.withdrawn = ⊥
IsOpen _ = Unit

-- The stage is part of a withdrawal.
abbrev pub IsLeaving : State → Type 0
IsLeaving State.approved = ⊥
IsLeaving State.rejected = ⊥
IsLeaving _ = Unit

-- What a status says of the log.
abbrev pub Consistent : Status → List LeaveFlowStage → Type 0
Consistent Status.pending log = All (λ t. IsOpen t.state) log × (any is_waiting log ≡ true)
Consistent Status.approved log = all_stages_settled log ≡ true
Consistent Status.withdrawal_pending log =
    All (λ t. IsLeaving t.state) log × (any is_waiting log ≡ true)
Consistent Status.withdrawn log = all_stages_settled_for_withdraw log ≡ true
Consistent Status.rejected log = any is_waiting log ≡ false
Consistent Status.cancelled log = Unit

-- The statuses that the processors write.
abbrev pub after_approve : List LeaveFlowStage → Status
after_approve log = if all_stages_settled log then Status.approved else Status.pending

abbrev pub after_withdraw : List LeaveFlowStage → Status
after_withdraw log =
    if all_stages_settled_for_withdraw log then Status.withdrawn else Status.withdrawal_pending

skip_stages-IsOpen :
    (n : ℕ) (role : Role) (log : List LeaveFlowStage)
    → All (λ t. IsOpen t.state) log
    → All (λ t. IsOpen t.state) (skip_stages log n role)
unfolding skip_stages
skip_stages-IsOpen n role [] h = tt
skip_stages-IsOpen n role (t ∷ log) h = (ground arith, skip_stages-IsOpen n role log h.1)

modify_stage-IsOpen :
    (a : ℕ) (r : String) (now : ℕ) (log : List LeaveFlowStage) (i : ℕ)
    → All (λ t. IsOpen t.state) log
    → All (λ t. IsOpen t.state) (modify_stage log i (stamp_stage State.approved a r now))
unfolding modify_stage
modify_stage-IsOpen a r now [] i h = tt
modify_stage-IsOpen a r now (t ∷ log) zero h = (tt, h.1)
modify_stage-IsOpen a r now (t ∷ log) (suc i) h = (h.0, modify_stage-IsOpen a r now log i h.1)

-- An open log is settled or has a stage waiting.
open_cases :
    (log : List LeaveFlowStage)
    → All (λ t. IsOpen t.state) log
    → (all_stages_settled log ≡ true)
      ⊎ ((all_stages_settled log ≡ false) × (any is_waiting log ≡ true))
unfolding all_stages_settled
open_cases [] h = inl refl
open_cases (t ∷ log) h = ground (arith, open_cases log h.1)

leaving_cases :
    (log : List LeaveFlowStage)
    → All (λ t. IsLeaving t.state) log
    → (all_stages_settled_for_withdraw log ≡ true)
      ⊎ ((all_stages_settled_for_withdraw log ≡ false) × (any is_waiting log ≡ true))
unfolding all_stages_settled_for_withdraw
leaving_cases [] h = inl refl
leaving_cases (t ∷ log) h = ground (arith, leaving_cases log h.1)

after_approve-Consistent :
    (log : List LeaveFlowStage) → All (λ t. IsOpen t.state) log → Consistent (after_approve log) log
after_approve-Consistent log h = elim (open_cases log h) [
  | inl e ↦ rw e e
  | inr (e, w) ↦ rw e (h, w)
]

after_withdraw-Consistent :
    (log : List LeaveFlowStage)
    → All (λ t. IsLeaving t.state) log
    → Consistent (after_withdraw log) log
after_withdraw-Consistent log h = elim (leaving_cases log h) [
  | inl e ↦ rw e e
  | inr (e, w) ↦ rw e (h, w)
]

reset-IsLeaving :
    (n : ℕ) (role : Role) (log : List LeaveFlowStage)
    → NoStageOf role log
    → All (λ t. IsLeaving t.state) (reset_log_for_withdraw log n role)
unfolding reset_log_for_withdraw
reset-IsLeaving n role [] h = tt
reset-IsLeaving n role (t ∷ log) h = (ground arith, reset-IsLeaving n role log h.1)

module _ (ctx : LeaveActionContext) where
  -- From a pending leave whose log agrees with it, approval by a role with a stage leaves a log
  -- that agrees with the new status, approved where every stage is settled and pending otherwise.
  pub approved_log-Consistent :
      (i : ℕ) (s : LeaveFlowStage)
      → Consistent Status.pending ctx.flow.approval_log
      → Consistent (after_approve (approved_log ctx i s)) (approved_log ctx i s)
  unfolding approved_log
  approved_log-Consistent i s h = after_approve-Consistent _ (
      skip_stages-IsOpen s.stage_no ctx.role _
        (modify_stage-IsOpen ctx.approver_id ctx.remarks ctx.now ctx.flow.approval_log i h.0))

  withdraw-IsLeaving :
      {n i : ℕ} {s : LeaveFlowStage} {log : List LeaveFlowStage}
      → s.stage_no ≡ n
      → DistinctRoles log
      → IsCaller ctx.role log i s
      → All
          (λ t. IsLeaving t.state)
          (modify_stage
            (reset_log_for_withdraw log n ctx.role)
            i
            (stamp_stage State.withdrawn ctx.approver_id ctx.remarks ctx.now))
  unfolding modify_stage reset_log_for_withdraw
  withdraw-IsLeaving {n} p d (here {s = s} {log = log} own) =
      (tt, reset-IsLeaving n ctx.role log (NoStageOf-trans s.approver_role ctx.role log own d.0))
  withdraw-IsLeaving p d (there other c) = (ground arith, withdraw-IsLeaving p d.1 c)

  -- Withdrawal by a role with a stage leaves a log that agrees with the new status, withdrawn
  -- where every stage is withdrawn or skipped and withdrawal pending otherwise.
  pub withdrawn_log-Consistent :
      (i : ℕ) (s : LeaveFlowStage)
      → DistinctRoles ctx.flow.approval_log
      → find_stage ctx.flow.approval_log ctx.role ≡ some (i, s)
      → Consistent (after_withdraw (withdrawn_log ctx i s)) (withdrawn_log ctx i s)
  unfolding withdrawn_log
  withdrawn_log-Consistent i s d e =
      after_withdraw-Consistent _
        (withdraw-IsLeaving refl d (find_stage-IsCaller ctx.role ctx.flow.approval_log e))
