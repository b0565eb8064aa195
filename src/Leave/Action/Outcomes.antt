-- ===== src/Leave/Action/Outcomes.antt =====
-- What single requests do to a leave: panics, rejections and cancellations.
use leave_management_system.Prelude.{ℕ, ◌≡◌, false, [], none, some, arith, find, ◌==◌}
use leave_management_system.Models.Role.{Role}
use leave_management_system.Models.Leave.{Leave}
use leave_management_system.Database.{World, panic, select, statement, exec}
use leave_management_system.Tables.{
  Tables, Calendar, get_leave_by_id, get_flow_by_leave_id, update_leave_status,
}
use leave_management_system.Leave.Log.{get_by_leave_id}
use leave_management_system.Leave.Action.{
  ActionLeaveReq, get_leave, action_validator, prepare_action, action_leave, cancel_leave,
}

module _ (cal : Calendar) (now : ℕ) (req : ActionLeaveReq) (leave_id emp_id : ℕ) (role : Role) where
  -- A request on a leave of somebody else that has no approval flow ends in a panic, and changes
  -- no table, whichever action and role it has, if no statement fails.
  pub action_leave-no_flow :
      (s : Tables) (leave : Leave)
      → find (λ l. l.id == leave_id) s.leaves ≡ some leave
      → (leave.employee_id == emp_id) ≡ false
      → find (λ f. f.leave_id == leave_id) s.leave_flows ≡ none
      → action_leave cal now req leave_id emp_id role (record { db = s; faults = [] })
        ≡ (panic, record { db = s; faults = [] })
  unfolding action_leave prepare_action get_leave get_leave_by_id get_by_leave_id
      get_flow_by_leave_id action_validator select statement
  action_leave-no_flow s leave found other missing = ground arith

-- Cancelling a leave changes no balance and no approval log, whatever the status was, the outcome is
-- and the statements that fail are.
cancel_leave-balances :
    (leave_id : ℕ) (w : World Tables)
    → ((cancel_leave leave_id w).1.db.balances ≡ w.db.balances)
      × ((cancel_leave leave_id w).1.db.leave_flows ≡ w.db.leave_flows)
unfolding cancel_leave get_leave_by_id update_leave_status select statement exec
cancel_leave-balances leave_id w = ground arith
