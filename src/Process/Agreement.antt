-- ===== src/Process/Agreement.antt =====
-- The processors keep the status of a leave and its stored approval log in agreement.
use mathlib.Core.Path.{subst, sym}
use leave_management_system.Prelude.{
  ℕ, ◌≡◌, refl, inl, inr, Bool, List, [], ◌∷◌, Option, some, ◌==◌, find, update, Bool-cases, arith,
}
use leave_management_system.Models.Leave.{Status, LeaveFlow, LeaveFlowStage, Leave, is_early_leave}
use leave_management_system.Database.{statement, exec}
use leave_management_system.Tables.{
  Tables, Calendar, update_approval_log, update_leave_status_tx,
  update_leave_balance_by_employee_id, update_withdraw_leave_balance_by_employee_id,
}
use leave_management_system.Process.Defs.{
  LeaveActionContext, find_stage, all_stages_settled, all_stages_settled_for_withdraw, approved_log,
  rejected_log, withdrawn_log, finalise_approval, approve_process, reject_process,
  finalise_withdrawal, withdraw_process,
}
use leave_management_system.Process.Stages.{DistinctRoles, rejected_log-settled}
use leave_management_system.Process.Lifecycle.{
  Consistent, after_approve, after_withdraw, approved_log-Consistent, withdrawn_log-Consistent,
}

abbrev pub is_leave : ℕ → Leave → Bool
is_leave id l = l.id == id

abbrev pub is_flow : ℕ → LeaveFlow → Bool
is_flow id f = f.leave_id == id

-- Leave and log are there, the status is the one that the rule gives for the log, and what that
-- status says of the log is so.
abbrev pub Agrees : (List LeaveFlowStage → Status) → Option Leave → Option LeaveFlow → Type 0
Agrees rule (some l) (some f) =
    (l.status ≡ rule f.approval_log) × Consistent l.status f.approval_log
Agrees rule _ _ = ⊥

-- The stored leave and its stored log agree.
abbrev pub AgreesOn : (List LeaveFlowStage → Status) → ℕ → Tables → Type 0
AgreesOn rule id s = Agrees rule (find (is_leave id) s.leaves) (find (is_flow id) s.leave_flows)

abbrev pub after_reject : List LeaveFlowStage → Status
after_reject log = Status.rejected

pub find-update :
    {A : Type 0} (p : A → Bool) (f : A → A)
    → ((x : A) → p (f x) ≡ p x)
    → (xs : List A) (x : A) → find p xs ≡ some x
    → find p (update p f xs) ≡ some (f x)
find-update p f keeps [] x e = cc
find-update p f keeps (y ∷ ys) x e = elim (Bool-cases (p y)) [
  | inl h ↦ grind (arith, keeps y)
  | inr h ↦ grind (arith, keeps y, find-update p f keeps ys x (rw h at e))
]

abbrev with_status : Status → ℕ → Leave → Leave
with_status status approver_id l = record l { status = status; approved_by = some approver_id }

abbrev with_log : List LeaveFlowStage → LeaveFlow → LeaveFlow
with_log log f = record f { approval_log = log }

module _ (ctx : LeaveActionContext) (s : Tables) where
  abbrev Written : (List LeaveFlowStage → Status) → Status → List LeaveFlowStage → Type 0
  Written rule status log =
      Agrees rule
        (find (is_leave ctx.leave.id)
          (update (is_leave ctx.leave.id) (with_status status ctx.approver_id) s.leaves))
        (find (is_flow ctx.leave.id) (update (is_flow ctx.leave.id) (with_log log) s.leave_flows))

  Written-Agrees :
      (rule : List LeaveFlowStage → Status) (status : Status) (log : List LeaveFlowStage)
      → find (is_leave ctx.leave.id) s.leaves ≡ some ctx.leave
      → find (is_flow ctx.leave.id) s.leave_flows ≡ some ctx.flow
      → (status ≡ rule log) × Consistent status log
      → Written rule status log
  Written-Agrees rule status log l f h =
      rw
        (
          find-update (is_leave ctx.leave.id) (with_status status ctx.approver_id) (λ _. refl)
              s.leaves ctx.leave l,
          find-update (is_flow ctx.leave.id) (with_log log) (λ _. refl) s.leave_flows ctx.flow f,
        )
        h

  -- After a rejection by a role with a stage the stored status is REJECTED and no stage of the
  -- stored log is waiting, if the leave and its log are stored as they were read and no statement
  -- fails.
  pub reject_process-AgreesOn :
      {i : ℕ} {t : LeaveFlowStage}
      → find (is_leave ctx.leave.id) s.leaves ≡ some ctx.leave
      → find (is_flow ctx.leave.id) s.leave_flows ≡ some ctx.flow
      → find_stage ctx.flow.approval_log ctx.role ≡ some (i, t)
      → AgreesOn after_reject ctx.leave.id
          (reject_process ctx (record { db = s; faults = [] })).1.db
  unfolding reject_process update_approval_log update_leave_status_tx exec statement
  reject_process-AgreesOn {i} {t} l f e =
      rw (e, reject_process)
        (Written-Agrees after_reject Status.rejected (rejected_log ctx i t) l f
          (refl, rejected_log-settled ctx i t))

  module _ (cal : Calendar) where
    finalise_approval-Agrees :
        (log : List LeaveFlowStage)
        → find (is_leave ctx.leave.id) s.leaves ≡ some ctx.leave
        → find (is_flow ctx.leave.id) s.leave_flows ≡ some ctx.flow
        → (Status.approved ≡ after_approve log) × Consistent Status.approved log
        → AgreesOn after_approve ctx.leave.id
            (finalise_approval ctx cal (record {
              db = record s {
                leave_flows = update (is_flow ctx.leave.id) (with_log log) s.leave_flows;
              };
              faults = [];
            })).1.db
    unfolding finalise_approval update_leave_status_tx update_leave_balance_by_employee_id exec
        statement
    finalise_approval-Agrees log l f h = elim (Bool-cases (is_early_leave ctx.leave_type)) [
      | inl p ↦ rw (p, finalise_approval) (Written-Agrees after_approve Status.approved log l f h)
      | inr p ↦ rw (p, finalise_approval) (Written-Agrees after_approve Status.approved log l f h)
    ]

    finalise_withdrawal-Agrees :
        (log : List LeaveFlowStage)
        → find (is_leave ctx.leave.id) s.leaves ≡ some ctx.leave
        → find (is_flow ctx.leave.id) s.leave_flows ≡ some ctx.flow
        → (Status.withdrawn ≡ after_withdraw log) × Consistent Status.withdrawn log
        → AgreesOn after_withdraw ctx.leave.id
            (finalise_withdrawal ctx cal (record {
              db = record s {
                leave_flows = update (is_flow ctx.leave.id) (with_log log) s.leave_flows;
              };
              faults = [];
            })).1.db
    unfolding finalise_withdrawal update_leave_status_tx
        update_withdraw_leave_balance_by_employee_id exec statement
    finalise_withdrawal-Agrees log l f h = elim (Bool-cases (is_early_leave ctx.leave_type)) [
      | inl p ↦
          rw (p, finalise_withdrawal) (Written-Agrees after_withdraw Status.withdrawn log l f h)
      | inr p ↦
          rw (p, finalise_withdrawal) (Written-Agrees after_withdraw Status.withdrawn log l f h)
    ]

    pending-Agrees :
        (log : List LeaveFlowStage)
        → find (is_leave ctx.leave.id) s.leaves ≡ some ctx.leave
        → find (is_flow ctx.leave.id) s.leave_flows ≡ some ctx.flow
        → (ctx.leave.status ≡ after_approve log) × Consistent ctx.leave.status log
        → Agrees after_approve (find (is_leave ctx.leave.id) s.leaves) (
            find
              (is_flow ctx.leave.id)
              (update (is_flow ctx.leave.id) (with_log log) s.leave_flows))
    pending-Agrees log l f h =
        rw
          (
            l,
            find-update (is_flow ctx.leave.id) (with_log log) (λ _. refl) s.leave_flows ctx.flow f,
          )
          h

    -- After an approval of a pending leave by a role with a stage, the stored status is APPROVED
    -- where every stage of the stored log is settled and PENDING otherwise, and a pending log has
    -- a stage waiting and none refused or withdrawn, where status and log agreed before, the leave
    -- and its log are stored as they were read and no statement fails.
    pub approve_process-AgreesOn :
        {i : ℕ} {t : LeaveFlowStage}
        → find (is_leave ctx.leave.id) s.leaves ≡ some ctx.leave
        → find (is_flow ctx.leave.id) s.leave_flows ≡ some ctx.flow
        → ctx.leave.status ≡ Status.pending
        → Consistent Status.pending ctx.flow.approval_log
        → find_stage ctx.flow.approval_log ctx.role ≡ some (i, t)
        → AgreesOn after_approve ctx.leave.id
            (approve_process ctx cal (record { db = s; faults = [] })).1.db
    unfolding approve_process update_approval_log exec statement
    approve_process-AgreesOn {i} {t} l f before h e =
        let c = approved_log-Consistent ctx i t h in
        elim (Bool-cases (all_stages_settled (approved_log ctx i t))) [
          | inl p ↦
              rw (e, p, approve_process)
                (finalise_approval-Agrees (approved_log ctx i t) l f (rw p refl, p))
          | inr p ↦
              rw (e, p, approve_process)
                (pending-Agrees (approved_log ctx i t) l f (
                  rw p before,
                  subst (λ status. Consistent status (approved_log ctx i t)) (sym before)
                      (rw p at c),
                ))
        ]

    -- After a withdrawal by a role with a stage, where roles are distinct, the stored status is
    -- WITHDRAWN where every stage of the stored log is withdrawn or skipped and WITHDRAWAL_PENDING
    -- otherwise, and such a log has a stage waiting and none approved or rejected, if the leave and
    -- its log are stored as they were read and no statement fails.
    pub withdraw_process-AgreesOn :
        {i : ℕ} {t : LeaveFlowStage}
        → find (is_leave ctx.leave.id) s.leaves ≡ some ctx.leave
        → find (is_flow ctx.leave.id) s.leave_flows ≡ some ctx.flow
        → DistinctRoles ctx.flow.approval_log
        → find_stage ctx.flow.approval_log ctx.role ≡ some (i, t)
        → AgreesOn after_withdraw ctx.leave.id
            (withdraw_process ctx cal (record { db = s; faults = [] })).1.db
    unfolding withdraw_process update_approval_log update_leave_status_tx exec statement
    withdraw_process-AgreesOn {i} {t} l f d e =
        let c = withdrawn_log-Consistent ctx i t d e in
        elim (Bool-cases (all_stages_settled_for_withdraw (withdrawn_log ctx i t))) [
          | inl p ↦
              rw (e, p, withdraw_process)
                (finalise_withdrawal-Agrees (withdrawn_log ctx i t) l f (rw p refl, p))
          | inr p ↦
              rw (e, p, withdraw_process)
                (Written-Agrees after_withdraw Status.withdrawal_pending (withdrawn_log ctx i t) l f
                  (rw p refl, rw p at c))
        ]
