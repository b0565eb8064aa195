-- ===== src/ApprovalFlow.antt =====
-- Approval flows of leave types: internal/service/leaveApprovalFlow.go. A stage number is 0 here
-- where the request's is 0 or negative; both are refused by the same test.
pub mod Acceptance
use leave_management_system.Prelude.{
  ℕ, Bool, true, false, ◌||◌, not, List, [], ◌∷◌, Option, none, some, String, ◌==◌, ltb, find, any,
  if◌then◌else◌,
}
use leave_management_system.Models.Role.{Role, role_eq}
use leave_management_system.Models.Leave.{ApprovalStage}

-- Why a flow is refused, with status 400.
pub data Refusal : Type 0 where
  request_is_nil empty_flow : Refusal
  invalid_role already_exists : Role → Refusal
  invalid_stage_number : ℕ → Refusal
  cannot_be_after : Role → Role → Refusal

abbrev pub hierarchy : List Role
hierarchy = Role.manager ∷ Role.hr ∷ Role.admin ∷ Role.super_admin ∷ []

-- `validRoles`
abbrev pub is_valid_role : Role → Bool
is_valid_role role =
    role_eq role Role.manager
    || role_eq role Role.hr
    || role_eq role Role.admin
    || role_eq role Role.super_admin

abbrev pub has_role : List ApprovalStage → Role → Bool
has_role seen role = any (λ s. role_eq s.approver_role role) seen

-- The first loop; `seen` are the keys of `roleStages` so far.
unfoldable pub check_stages : List ApprovalStage → List ApprovalStage → Option Refusal
check_stages seen [] = none
check_stages seen (stage ∷ flow) =
    let rest = check_stages (stage ∷ seen) flow in
    if not (is_valid_role stage.approver_role)
    then some (invalid_role stage.approver_role)
    else if has_role seen stage.approver_role
    then some (already_exists stage.approver_role)
    else if stage.stage_no == 0
    then some (invalid_stage_number stage.stage_no)
    else rest

-- `roleStages[role]`
unfoldable pub stage_of_role : List ApprovalStage → Role → Option ℕ
stage_of_role [] role = none
stage_of_role (s ∷ flow) role =
    if role_eq s.approver_role role then some s.stage_no else stage_of_role flow role

abbrev pub compare_stages : Role → Role → Option ℕ → Option ℕ → Option Refusal
compare_stages current next (some a) (some b) =
    if ltb b a then some (cannot_be_after current next) else none
compare_stages current next _ _ = none

abbrev pub or_else : Option Refusal → Option Refusal → Option Refusal
or_else none r = r
or_else (some x) r = some x

-- The inner loop over the roles behind `current`.
unfoldable pub check_pairs : List ApprovalStage → Role → List Role → Option Refusal
check_pairs flow current [] = none
check_pairs flow current (next ∷ roles) =
    or_else (compare_stages current next (stage_of_role flow current) (stage_of_role flow next))
      (check_pairs flow current roles)

-- The outer loop; at the last role there is nothing to compare.
unfoldable pub check_hierarchy : List ApprovalStage → List Role → Option Refusal
check_hierarchy flow [] = none
check_hierarchy flow (role ∷ roles) =
    or_else (check_pairs flow role roles) (check_hierarchy flow roles)

abbrev pub check_flow : List ApprovalStage → Option Refusal
check_flow [] = some empty_flow
check_flow (s ∷ flow) = or_else (check_stages [] (s ∷ flow)) (check_hierarchy (s ∷ flow) hierarchy)

unfoldable pub allow_to_create : Option (List ApprovalStage) → Option Refusal
allow_to_create none = some request_is_nil
allow_to_create (some flow) = check_flow flow
