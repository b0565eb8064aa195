-- ===== src/Leave/Action/Accounts.antt =====
-- Actions keep the books: every balance row adds up, before and after.
use mathlib.Core.Path.{subst}
use leave_management_system.Prelude.{ℕ, sym}
use leave_management_system.Models.Role.{Role}
use leave_management_system.Database.{World, execute_transaction}
use leave_management_system.Database.Laws.{Keeps, >>=-Keeps, execute_transaction-Keeps}
use leave_management_system.Tables.{Tables, Calendar}
use leave_management_system.Process.{LeaveActionContext}
use leave_management_system.Process.Balances.{
  AllBalanced, approve_process-Balanced, reject_process-Balanced, withdraw_process-Balanced,
}
use leave_management_system.Leave.Action.{
  Processor, approve_processor, reject_processor, withdraw_processor, ActionLeaveReq, Prepared,
  prepare_action, commit_action, action_leave, run_processor, choose_event,
}
use leave_management_system.Leave.Action.Atomicity.{prepare_action_db, choose_event_db}

run_processor-Balanced :
    (cal : Calendar) (p : Processor) (ctx : LeaveActionContext)
    → Keeps AllBalanced (run_processor cal p ctx)
unfolding run_processor
run_processor-Balanced cal approve_processor ctx = approve_process-Balanced ctx cal
run_processor-Balanced cal reject_processor ctx = reject_process-Balanced ctx cal
run_processor-Balanced cal withdraw_processor ctx = withdraw_process-Balanced ctx cal

module _ (cal : Calendar) (now : ℕ) (req : ActionLeaveReq) (leave_id emp_id : ℕ) (role : Role) where
  commit_action-Balanced :
      (p : Prepared) → Keeps AllBalanced (commit_action cal now req leave_id emp_id role p)
  unfolding commit_action
  commit_action-Balanced p =
      >>=-Keeps AllBalanced (execute_transaction (run_processor cal p.processor p.context))
        (λ _. choose_event p.action leave_id)
        (execute_transaction-Keeps AllBalanced _ (run_processor-Balanced cal p.processor p.context))
        (λ _ w h. subst AllBalanced (sym (choose_event_db p.action leave_id w)) h)

  -- If in every balance row closing + used is opening + adjusted, that is still so after any
  -- approve, reject or withdraw request, whatever its outcome and whichever statements fail.
  pub action_leave-Balanced :
      (w : World Tables)
      → AllBalanced w.db
      → AllBalanced (action_leave cal now req leave_id emp_id role w).1.db
  unfolding action_leave
  action_leave-Balanced =
      >>=-Keeps AllBalanced (prepare_action cal now req leave_id emp_id role)
        (commit_action cal now req leave_id emp_id role)
        (λ w h. subst AllBalanced (sym (prepare_action_db cal now req leave_id emp_id role w)) h)
        commit_action-Balanced
