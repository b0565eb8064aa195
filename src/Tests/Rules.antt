-- ===== src/Tests/Rules.antt =====
-- The properties of requests about leave policies, at concrete inputs.
use leave_management_system.Prelude.{refl, inr, true, List, [], ◌∷◌, none, some}
use leave_management_system.Prelude.Int.{pos}
use leave_management_system.Models.Role.{Role}
use leave_management_system.Database.Outcomes.{Refused}
use leave_management_system.Accounts.Store.{new_balance, Store as Accounts}
use leave_management_system.Policies.Defs.{LeaveTypeInput, Store, handle_delete}
use leave_management_system.Policies.Keeping.{
  AreBalanced, Request, Call, serve_policies, policy_requests-AreBalanced,
}
use leave_management_system.Policies.Referred.{handle_delete-in_use}
use leave_management_system.Tests.Inputs.{running, leave_type}

abbrev accounts : Accounts
accounts = record {
  balances = new_balance 7 leave_type.id 2025 (pos 24) ∷ [];
  leave_types = leave_type ∷ [];
  employees =
      record { id = 7; role = Role.employee; joining = some (2025, 4); is_active = true } ∷ [];
  adjustments = [];
  accruals = [];
}

abbrev policies : Store
policies = record { accounts = accounts; leaves = []; default_flow = some 3; next_type_id = 50 }

abbrev input : LeaveTypeInput
input = record {
  name = "Study";
  is_paid = some true;
  is_early = none;
  is_work_from_home = none;
  default_entitlement = some (pos 12);
  intern_entitlement = some 6;
  leave_count = none;
  approval_flow_id = none;
}

abbrev calls : List Call
calls =
    record { year = 2025; user_role = Role.super_admin; request = Request.create input }
    ∷ record { year = 2025; user_role = Role.hr; request = Request.update leave_type.id input }
    ∷ record { year = 2025; user_role = Role.admin; request = Request.accrual 5 }
    ∷ record { year = 2026; user_role = Role.admin; request = Request.delete leave_type.id }
    ∷ []

policy_requests-AreBalanced_example : AreBalanced (serve_policies calls (running policies)).db
policy_requests-AreBalanced_example =
    policy_requests-AreBalanced calls (running policies) (refl, tt)

handle_delete-in_use_example :
    Refused policies (handle_delete Role.hr leave_type.id (running policies))
handle_delete-in_use_example =
    handle_delete-in_use Role.hr leave_type.id (running policies) (inr refl)
