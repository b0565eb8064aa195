-- ===== src/Leave/Log/Approvers.antt =====
-- Who is asked to approve a leave: the log that is generated for a new leave.
use leave_management_system.Prelude.{
  ℕ, ◌≡◌, refl, sym, inl, inr, Bool, none, some, any, false, true, not, Option-cases, List, [], ◌∷◌,
  map, leb, keep, All, arith, Bool-cases,
}
use leave_management_system.Models.Role.{Role, role_eq}
use leave_management_system.Models.Leave.{
  State, ApprovalStage, LeaveFlowStage, LeaveApprovalFlow, LeaveTypeResponse,
}
use leave_management_system.Process.Stages.{NoStageOf, DistinctRoles}
use leave_management_system.Leave.Log.{get_role_level, generate_stages, generate_approval_log}

-- The stage's role ranks above the applicant.
abbrev pub ranks_above : ℕ → ApprovalStage → Bool
ranks_above level stage = not (leb (get_role_level stage.approver_role) level)

-- The roles that a role approves, from the highest.
abbrev pub below : Role → List Role
below Role.super_admin = Role.admin ∷ Role.hr ∷ Role.manager ∷ Role.employee ∷ Role.intern ∷ []
below Role.admin = Role.hr ∷ Role.manager ∷ Role.employee ∷ Role.intern ∷ []
below Role.hr = Role.manager ∷ Role.employee ∷ Role.intern ∷ []
below Role.manager = Role.employee ∷ Role.intern ∷ []
below Role.employee = Role.intern ∷ []
below Role.intern = []
below (Role.other n) = []

abbrev pub may_approve : Role → Role → Bool
may_approve applicant approver = any (role_eq applicant) (below approver)

-- One of the six roles.
abbrev pub IsListed : Role → Type 0
IsListed (Role.other n) = ⊥
IsListed _ = Unit

-- The stage number and the role that a stage of a log and a configured stage have.
abbrev pub asked : LeaveFlowStage → ℕ × Role
asked t = (t.stage_no, t.approver_role)

abbrev pub configured : ApprovalStage → ℕ × Role
configured s = (s.stage_no, s.approver_role)

ranks_above-may_approve :
    (applicant : Role) (stage : ApprovalStage)
    → IsListed applicant
    → ranks_above (get_role_level applicant) stage ≡ may_approve applicant stage.approver_role
unfolding get_role_level
ranks_above-may_approve Role.super_admin stage h = ground arith
ranks_above-may_approve Role.admin stage h = ground arith
ranks_above-may_approve Role.hr stage h = ground arith
ranks_above-may_approve Role.manager stage h = ground arith
ranks_above-may_approve Role.employee stage h = ground arith
ranks_above-may_approve Role.intern stage h = ground arith
ranks_above-may_approve (Role.other n) stage h = elim h [ ]

stages-approvers :
    (applicant : Role) (flow : List ApprovalStage)
    → IsListed applicant
    → map asked (generate_stages flow (get_role_level applicant))
      ≡ map configured (keep (λ s. may_approve applicant s.approver_role) flow)
unfolding generate_stages
stages-approvers applicant [] h = refl
stages-approvers applicant (stage ∷ flow) h =
    let ih = stages-approvers applicant flow h in
    let above = ranks_above-may_approve applicant stage h in
    elim (Bool-cases (leb (get_role_level stage.approver_role) (get_role_level applicant))) [
      | inl e ↦ rw (e, sym above, e, ih) refl
      | inr e ↦ rw (e, sym above, e, ih) refl
    ]

stages_waiting :
    (flow : List ApprovalStage) (level : ℕ)
    → All (λ t. (t.state ≡ State.waiting) × (t.approved_by ≡ none)) (generate_stages flow level)
unfolding generate_stages
stages_waiting [] level = tt
stages_waiting (stage ∷ flow) level =
    elim (Bool-cases (leb (get_role_level stage.approver_role) level)) [
      | inl e ↦ rw (e, generate_stages) (stages_waiting flow level)
      | inr e ↦ rw (e, generate_stages) ((refl, refl), stages_waiting flow level)
    ]

-- Where the leave type has a flow and the applicant has one of the six roles, the log asks, in the
-- flow's order and with its stage numbers, exactly the configured roles that stand above the
-- applicant in SUPERADMIN, ADMIN, HR, MANAGER, EMPLOYEE, INTERN; each stage waits and has no
-- approver.
pub generate_approval_log-approvers :
    (res : LeaveTypeResponse) (flow : LeaveApprovalFlow) (applicant : Role)
    → res.approval_flow ≡ some flow
    → IsListed applicant
    → (map asked (generate_approval_log res applicant)
        ≡ map configured (keep (λ s. may_approve applicant s.approver_role) flow.flow))
      × All
          (λ t. (t.state ≡ State.waiting) × (t.approved_by ≡ none))
          (generate_approval_log res applicant)
unfolding generate_approval_log
generate_approval_log-approvers res flow applicant e h =
    rw (e, generate_approval_log)
      (stages-approvers applicant flow.flow h, stages_waiting flow.flow (get_role_level applicant))

-- No configured stage is the role's.
abbrev pub NoApprover : Role → List ApprovalStage → Type 0
NoApprover role flow = All (λ t. role_eq t.approver_role role ≡ false) flow

-- The configured stages have different roles.
abbrev pub DistinctApprovers : List ApprovalStage → Type 0
DistinctApprovers [] = Unit
DistinctApprovers (s ∷ flow) = NoApprover s.approver_role flow × DistinctApprovers flow

generate_stages-NoStageOf :
    (role : Role) (flow : List ApprovalStage) (level : ℕ)
    → NoApprover role flow
    → NoStageOf role (generate_stages flow level)
unfolding generate_stages
generate_stages-NoStageOf role [] level h = tt
generate_stages-NoStageOf role (stage ∷ flow) level h =
    elim (Bool-cases (leb (get_role_level stage.approver_role) level)) [
      | inl e ↦ rw (e, generate_stages) (generate_stages-NoStageOf role flow level h.1)
      | inr e ↦ rw (e, generate_stages) (h.0, generate_stages-NoStageOf role flow level h.1)
    ]

-- A flow with different roles generates a log in which each role approves at one stage at most.
generate_stages-DistinctRoles :
    (flow : List ApprovalStage) (level : ℕ)
    → DistinctApprovers flow
    → DistinctRoles (generate_stages flow level)
unfolding generate_stages
generate_stages-DistinctRoles [] level h = tt
generate_stages-DistinctRoles (stage ∷ flow) level h =
    elim (Bool-cases (leb (get_role_level stage.approver_role) level)) [
      | inl e ↦ rw (e, generate_stages) (generate_stages-DistinctRoles flow level h.1)
      | inr e ↦
          rw (e, generate_stages)
            (
              generate_stages-NoStageOf stage.approver_role flow level h.0,
              generate_stages-DistinctRoles flow level h.1,
            )
    ]

-- Every level is at most that of a super admin.
get_role_level-max : (role : Role) → leb (get_role_level role) 6 ≡ true
unfolding get_role_level
get_role_level-max role = ground arith

generate_stages-max : (flow : List ApprovalStage) → generate_stages flow 6 ≡ []
unfolding generate_stages
generate_stages-max [] = refl
generate_stages-max (stage ∷ flow) = grind (arith, get_role_level-max, generate_stages-max flow)

-- Nobody is asked to approve a super admin's leave: its log is empty whatever flow the leave type
-- has, so that no flow is stored for the leave.
generate_approval_log-super_admin :
    (leave_type_res : LeaveTypeResponse)
    → generate_approval_log leave_type_res Role.super_admin ≡ []
unfolding generate_approval_log get_role_level
generate_approval_log-super_admin res = elim (Option-cases res.approval_flow) [
  | inl e ↦ rw (e, generate_approval_log) refl
  | inr (flow, e) ↦ rw (e, generate_approval_log) (generate_stages-max flow.flow)
]
