-- ===== src/Tests/Leaves.antt =====
-- The properties of leaves and their approval, at concrete inputs.
use leave_management_system.Prelude.{
  none, true, ◌≡◌, ◌≤◌, refl, false, [], ◌∷◌, map, none, keep, All, any, length, ◌+◌,
}
use leave_management_system.Prelude.Int.{◌+ℤ◌, ◌-ℤ◌, pos, ◌≤ℤ◌}
use leave_management_system.Models.Role.{Role}
use leave_management_system.Models.Leave.{State, LeaveFlow}
use leave_management_system.Database.{select, ok, panic, statement}
use leave_management_system.Database.Laws.{Atomic}
use leave_management_system.Tables.{
  is_overlap, get_overlapping_leaves, get_leave_balance, get_pending_leave_days, Tables,
}
use leave_management_system.Process.{
  find_stage, approved_log, withdrawn_log, all_stages_settled, all_stages_settled_for_withdraw,
  approve_process, withdraw_process, modify_stage, skip_stages, reset_log_for_withdraw,
}
use leave_management_system.Process.Stages.{WaitsAbove, approved_log-WaitsAbove}
use leave_management_system.Process.Lifecycle.{after_approve, after_withdraw}
use leave_management_system.Process.Agreement.{
  AgreesOn, after_reject, approve_process-AgreesOn, reject_process-AgreesOn,
  withdraw_process-AgreesOn,
}
use leave_management_system.Process.{reject_process}
use leave_management_system.Process.Balances.{AllBalanced, withdraw-approve_balances}
use leave_management_system.Leave.Log.{generate_approval_log}
use leave_management_system.Leave.Log.Approvers.{
  may_approve, asked, configured, generate_approval_log-approvers,
}
use leave_management_system.Leave.Action.{action_leave}
use leave_management_system.Leave.Action.Atomicity.{action_leave-Atomic}
use leave_management_system.Leave.Action.Accounts.{action_leave-Balanced}
use leave_management_system.Leave.Action.Outcomes.{action_leave-no_flow}
use leave_management_system.Leave.Validation.{validate_overlapping_leaves, validate_leave_balance}
use leave_management_system.Leave.Validation.Accepted.{
  validate_overlapping_leaves_free, validate_leave_balance_covers, pending_days_of, closing_of,
}
use leave_management_system.Leave.Reason.{
  byte_length, trim_space, contains_denied_keyword, check_reason, validate_leave_reason,
  scan_reason, scan_runes,
}
use leave_management_system.Leave.Reason.Accepted.{validate_leave_reason_bounds}
use leave_management_system.Leave.Service.{create, update_application}
use leave_management_system.Leave.Service.Atomicity.{create-Atomic, update_application-Atomic}
use leave_management_system.Leave.Days.Bounds.{days_from}
use leave_management_system.Leave.Days.{calculate_working_days}
use leave_management_system.Leave.Days.Week.{is_open, calculate_working_days-counts}
use leave_management_system.ApprovalFlow.{
  hierarchy, allow_to_create, check_stages, check_hierarchy, check_pairs, stage_of_role,
}
use leave_management_system.ApprovalFlow.Acceptance.{IsValidStage, Ordered, allow_to_create_sound}
use leave_management_system.Leave.Log.Approvers.{DistinctApprovers}
use leave_management_system.Tests.Inputs.{
  reason, response, calendar, stages, flow, one_stage, waiting, leave, tables, running, failing,
  manager_context, approve, ascii, application,
}

action_leave-Atomic_example :
    Atomic
      (tables (flow ∷ []))
      (action_leave calendar 801 approve 1 8 Role.manager (failing (tables (flow ∷ []))))
action_leave-Atomic_example =
    action_leave-Atomic calendar 801 approve 1 8 Role.manager (failing (tables (flow ∷ [])))

action_leave-Balanced_example :
    AllBalanced
      (action_leave calendar 801 approve 1 8 Role.manager (running (tables (one_stage ∷ [])))).1.db
action_leave-Balanced_example =
    action_leave-Balanced calendar 801 approve 1 8 Role.manager (running (tables (one_stage ∷ [])))
      (refl, tt)

action_leave-no_flow_example :
    action_leave calendar 801 approve 1 8 Role.manager (running (tables []))
    ≡ (panic, running (tables []))
action_leave-no_flow_example =
    action_leave-no_flow calendar 801 approve 1 8 Role.manager (tables []) leave refl refl refl

create-Atomic_example :
    Atomic (tables []) (create calendar ascii application Role.employee (failing (tables [])))
create-Atomic_example = create-Atomic ascii application calendar Role.employee (failing (tables []))

update_application-Atomic_example :
    Atomic
      (tables (flow ∷ []))
      (update_application calendar ascii 7 1 application (failing (tables (flow ∷ []))))
update_application-Atomic_example =
    update_application-Atomic ascii application calendar 7 1 (failing (tables (flow ∷ [])))

abbrev approved_flow : LeaveFlow
approved_flow = record {
  leave_id = 1;
  approval_log = record (waiting 1 Role.manager) { state = State.approved } ∷ [];
}

withdraw-approve_balances_example :
    (withdraw_process
      (manager_context approved_flow)
      calendar
      (approve_process
        (manager_context one_stage)
        calendar
        (running (tables (one_stage ∷ [])))).1).1.db.balances
    ≡ (tables []).balances
unfolding find_stage all_stages_settled approved_log modify_stage skip_stages
    all_stages_settled_for_withdraw withdrawn_log reset_log_for_withdraw
withdraw-approve_balances_example =
    withdraw-approve_balances calendar (manager_context one_stage) (manager_context approved_flow)
      (running (tables (one_stage ∷ []))) refl refl refl refl refl refl refl refl refl

approved_log-WaitsAbove_example :
    All (WaitsAbove 1) (approved_log (manager_context flow) 0 (waiting 1 Role.manager))
unfolding find_stage
approved_log-WaitsAbove_example =
    approved_log-WaitsAbove (manager_context flow) 0 (waiting 1 Role.manager) ((refl, tt), (tt, tt))
      refl

allow_to_create_sound_example :
    All IsValidStage stages × DistinctApprovers stages × Ordered stages hierarchy
unfolding allow_to_create check_stages check_hierarchy check_pairs stage_of_role
allow_to_create_sound_example = allow_to_create_sound stages refl

approve_process-AgreesOn_example :
    AgreesOn after_approve 1
      (approve_process (manager_context flow) calendar (running (tables (flow ∷ [])))).1.db
unfolding find_stage
approve_process-AgreesOn_example =
    approve_process-AgreesOn (manager_context flow) (tables (flow ∷ [])) calendar {i = 0}
      {t = waiting 1 Role.manager} refl refl refl ((tt, (tt, tt)), refl) refl

withdraw_process-AgreesOn_example :
    AgreesOn after_withdraw 1
      (withdraw_process (manager_context flow) calendar (running (tables (flow ∷ [])))).1.db
unfolding find_stage
withdraw_process-AgreesOn_example =
    withdraw_process-AgreesOn (manager_context flow) (tables (flow ∷ [])) calendar {i = 0}
      {t = waiting 1 Role.manager} refl refl ((refl, tt), (tt, tt)) refl

validate_overlapping_leaves_free_example :
    any (is_overlap 7 812 813 none) (tables (flow ∷ [])).leaves ≡ false
unfolding validate_overlapping_leaves get_overlapping_leaves select statement
validate_overlapping_leaves_free_example =
    validate_overlapping_leaves_free 7 812 813 none (running (tables (flow ∷ []))) refl

validate_leave_balance_covers_example :
    pos (pending_days_of calendar 7 3 (tables (flow ∷ [])) + 4)
    ≤ℤ closing_of calendar 7 3 (tables (flow ∷ []))
unfolding ◌+ℤ◌ ◌-ℤ◌ validate_leave_balance get_leave_balance get_pending_leave_days select statement
validate_leave_balance_covers_example =
    validate_leave_balance_covers calendar 7 3 4 (running (tables (flow ∷ []))) refl

validate_leave_reason_bounds_example :
    (10 ≤ byte_length (trim_space ascii reason))
    × (byte_length (trim_space ascii reason) ≤ 500)
    × (contains_denied_keyword ascii (trim_space ascii reason) ≡ false)
unfolding validate_leave_reason check_reason byte_length trim_space contains_denied_keyword
    scan_reason scan_runes
validate_leave_reason_bounds_example = validate_leave_reason_bounds ascii reason refl

reject_process-AgreesOn_example :
    AgreesOn after_reject 1
      (reject_process (manager_context flow) (running (tables (flow ∷ [])))).1.db
unfolding find_stage
reject_process-AgreesOn_example =
    reject_process-AgreesOn (manager_context flow) (tables (flow ∷ [])) {i = 0}
      {t = waiting 1 Role.manager} refl refl refl

generate_approval_log-approvers_example :
    (map asked (generate_approval_log response Role.employee)
      ≡ map configured (keep (λ s. may_approve Role.employee s.approver_role) stages))
    × All
        (λ t. (t.state ≡ State.waiting) × (t.approved_by ≡ none))
        (generate_approval_log response Role.employee)
generate_approval_log-approvers_example =
    generate_approval_log-approvers response
      (record { id = 5; name = "Default"; is_system = true; flow = stages }) Role.employee refl tt

abbrev with_holiday : Tables
with_holiday = record (tables []) { holidays = 3 ∷ 40 ∷ [] }

calculate_working_days-counts_example :
    calculate_working_days 0 (0 + 9) (running with_holiday)
    ≡ (ok (length (keep (is_open (3 ∷ 40 ∷ [])) (days_from 0 10))), running with_holiday)
calculate_working_days-counts_example = calculate_working_days-counts 0 9 with_holiday
