-- ===== src/Process/Stages.antt =====
-- What the three processors do to an approval log.
use leave_management_system.Prelude.{
  ℕ, zero, suc, ◌<◌, ◌≡◌, ◌⊎◌, inl, inr, Bool, true, false, List, [], ◌∷◌, Option, none, some, ap,
  refl, Bool-cases, arith, any, All,
}
use mathlib.Core.Path.{subst, subst₂}
use leave_management_system.Models.Role.{Role, role_eq}
use leave_management_system.Models.Leave.{State, state_eq, LeaveFlowStage}
use leave_management_system.Process.Defs.{
  LeaveActionContext, shift, find_stage, modify_stage, stamp_stage, skip_stages,
  skip_all_waiting_stages, approved_log, rejected_log,
}

-- No stage is the role's.
abbrev pub NoStageOf : Role → List LeaveFlowStage → Type 0
NoStageOf role log = All (λ t. role_eq t.approver_role role ≡ false) log

-- Each role approves at one stage at most.
abbrev pub DistinctRoles : List LeaveFlowStage → Type 0
DistinctRoles [] = Unit
DistinctRoles (s ∷ log) = NoStageOf s.approver_role log × DistinctRoles log

abbrev pub is_waiting : LeaveFlowStage → Bool
is_waiting s = state_eq s.state State.waiting

pub NoStageOf-trans :
    (r role : Role) (log : List LeaveFlowStage)
    → role_eq r role ≡ true
    → NoStageOf r log
    → NoStageOf role log
NoStageOf-trans r role [] e h = tt
NoStageOf-trans r role (t ∷ log) e h = (ground arith, NoStageOf-trans r role log e h.1)

-- A waiting stage lies above stage `n`.
abbrev pub WaitsAbove : ℕ → LeaveFlowStage → Type 0
WaitsAbove n t = (is_waiting t ≡ false) ⊎ (n < t.stage_no)

skip_stages-WaitsAbove :
    (role : Role) (n : ℕ) (log : List LeaveFlowStage)
    → NoStageOf role log
    → All (WaitsAbove n) (skip_stages log n role)
unfolding skip_stages
skip_stages-WaitsAbove role n [] h = tt
skip_stages-WaitsAbove role n (t ∷ log) h = (ground arith, skip_stages-WaitsAbove role n log h.1)

-- Stage `i` of the log is `s`, the first stage of the role.
pub data IsCaller (role : Role) : List LeaveFlowStage → ℕ → LeaveFlowStage → Type 0 where
  here :
      {s : LeaveFlowStage} {log : List LeaveFlowStage}
      → role_eq s.approver_role role ≡ true
      → IsCaller role (s ∷ log) zero s
  there :
      {s t : LeaveFlowStage} {log : List LeaveFlowStage} {i : ℕ}
      → role_eq t.approver_role role ≡ false
      → IsCaller role log i s
      → IsCaller role (t ∷ log) (suc i) s

shift-some :
    (role : Role) (t : LeaveFlowStage) (log : List LeaveFlowStage) (o : Option (ℕ × LeaveFlowStage))
    {i : ℕ} {s : LeaveFlowStage}
    → ((j : ℕ) → o ≡ some (j, s) → IsCaller role log j s)
    → role_eq t.approver_role role ≡ false
    → shift o ≡ some (i, s)
    → IsCaller role (t ∷ log) i s
shift-some role t log none ih f e = cc
shift-some role t log (some (j, u)) {i} {s} ih f e =
    let ei : suc j ≡ i = cc in
    let es : u ≡ s = cc in
    subst (λ k. IsCaller role (t ∷ log) k s) ei (there f (ih j (ap (λ v. some (j, v)) es)))

head-some :
    (role : Role) (t : LeaveFlowStage) (log : List LeaveFlowStage) {i : ℕ} {s : LeaveFlowStage}
    → role_eq t.approver_role role ≡ true
    → ◌≡◌ {A = Option (ℕ × LeaveFlowStage)} (some (zero, t)) (some (i, s))
    → IsCaller role (t ∷ log) i s
head-some role t log {i} {s} own e =
    let ei : zero ≡ i = cc in
    let es : t ≡ s = cc in subst₂ (λ k u. IsCaller role (t ∷ log) k u) ei es (here own)

pub find_stage-IsCaller :
    (role : Role) (log : List LeaveFlowStage) {i : ℕ} {s : LeaveFlowStage}
    → find_stage log role ≡ some (i, s)
    → IsCaller role log i s
unfolding find_stage
find_stage-IsCaller role [] e = cc
find_stage-IsCaller role (t ∷ log) {i} {s} e = elim (Bool-cases (role_eq t.approver_role role)) [
  | inl own ↦ head-some role t log own (rw own at e)
  | inr other ↦
      shift-some role t log (find_stage log role) (λ j p. find_stage-IsCaller role log p) other
        (rw other at e)
]

module _ (ctx : LeaveActionContext) where
  abbrev stamped : State → List LeaveFlowStage → ℕ → List LeaveFlowStage
  stamped state log i = modify_stage log i (stamp_stage state ctx.approver_id ctx.remarks ctx.now)

  approve-WaitsAbove :
      (n : ℕ) {i : ℕ} {s : LeaveFlowStage} {log : List LeaveFlowStage}
      → DistinctRoles log
      → IsCaller ctx.role log i s
      → All (WaitsAbove n) (skip_stages (stamped State.approved log i) n ctx.role)
  unfolding modify_stage skip_stages
  approve-WaitsAbove n d (here {s = s} {log = log} own) = (
    ground arith,
    skip_stages-WaitsAbove ctx.role n log (NoStageOf-trans s.approver_role ctx.role log own d.0),
  )
  approve-WaitsAbove n d (there other c) = (ground arith, approve-WaitsAbove n d.1 c)

  -- Approval by a role leaves no stage waiting at its own stage number or below: only the stages
  -- above it can still be asked.
  pub approved_log-WaitsAbove :
      (i : ℕ) (s : LeaveFlowStage)
      → DistinctRoles ctx.flow.approval_log
      → find_stage ctx.flow.approval_log ctx.role ≡ some (i, s)
      → All (WaitsAbove s.stage_no) (approved_log ctx i s)
  unfolding approved_log
  approved_log-WaitsAbove i s d e =
      approve-WaitsAbove s.stage_no d (find_stage-IsCaller ctx.role ctx.flow.approval_log e)

  skip_all-settles :
      (n : ℕ) (log : List LeaveFlowStage) → any is_waiting (skip_all_waiting_stages log n) ≡ false
  unfolding skip_all_waiting_stages
  skip_all-settles n [] = refl
  skip_all-settles n (t ∷ log) = ground (arith, skip_all-settles n log)

  pub rejected_log-settled :
      (i : ℕ) (s : LeaveFlowStage) → any is_waiting (rejected_log ctx i s) ≡ false
  unfolding rejected_log
  rejected_log-settled i s =
      skip_all-settles s.stage_no (stamped State.rejected ctx.flow.approval_log i)
