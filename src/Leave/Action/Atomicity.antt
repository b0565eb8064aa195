-- ===== src/Leave/Action/Atomicity.antt =====
-- An action on a leave happens in full or not at all.
use leave_management_system.Prelude.{ℕ, ◌≡◌, arith}
use leave_management_system.Models.Role.{Role}
use leave_management_system.Database.{World, execute_transaction}
use leave_management_system.Database.{statement, select}
use leave_management_system.Database.Laws.{
  Atomic, Finishes, >>=-Atomic, >>=-Atomic_left, select_db, execute_transaction-Atomic,
}
use leave_management_system.Tables.{
  Tables, Calendar, get_leave_by_id, get_leave_type_by_id, get_flow_by_leave_id,
}
use leave_management_system.Leave.Log.{get_by_leave_id}
use leave_management_system.Leave.Action.{
  ActionLeaveReq, ActionName, Prepared, action_validator, get_leave, prepare_action, commit_action,
  action_leave, run_processor, choose_event,
}

get_leave_db : (id : ℕ) (w : World Tables) → (get_leave id w).1.db ≡ w.db
unfolding get_leave get_leave_by_id
get_leave_db id w = grind (arith, select_db)

get_by_leave_id_db : (id : ℕ) (w : World Tables) → (get_by_leave_id id w).1.db ≡ w.db
unfolding get_by_leave_id get_flow_by_leave_id
get_by_leave_id_db id w = grind (arith, select_db)

get_leave_type_by_id_db : (id : ℕ) (w : World Tables) → (get_leave_type_by_id id w).1.db ≡ w.db
unfolding get_leave_type_by_id
get_leave_type_by_id_db id w = grind (arith, select_db)

pub choose_event_db :
    (a : ActionName) (id : ℕ) (w : World Tables) → (choose_event a id w).1.db ≡ w.db
unfolding choose_event
choose_event_db a id w = grind (arith, get_leave_db)

choose_event-Finishes :
    (a : ActionName) (id : ℕ) (w : World Tables) → Finishes (choose_event a id w)
unfolding choose_event get_leave_by_id select statement
choose_event-Finishes a id w = ground arith

module _ (cal : Calendar) (now : ℕ) (req : ActionLeaveReq) (leave_id emp_id : ℕ) (role : Role) where
  pub prepare_action_db :
      (w : World Tables) → (prepare_action cal now req leave_id emp_id role w).1.db ≡ w.db
  unfolding prepare_action action_validator
  prepare_action_db w =
      grind (arith, select_db, get_leave_db, get_by_leave_id_db, get_leave_type_by_id_db)

  commit_action-Atomic :
      (p : Prepared) (w : World Tables)
      → Atomic w.db (commit_action cal now req leave_id emp_id role p w)
  unfolding commit_action
  commit_action-Atomic p w =
      >>=-Atomic_left (execute_transaction (run_processor cal p.processor p.context))
        (λ _. choose_event p.action leave_id) w (execute_transaction-Atomic _ w)
        (λ _. choose_event-Finishes p.action leave_id)

  -- Whichever statements the database refuses, an approve, reject or withdraw request that ends in
  -- an error or a panic leaves every table exactly as it was.
  pub action_leave-Atomic :
      (w : World Tables) → Atomic w.db (action_leave cal now req leave_id emp_id role w)
  unfolding action_leave
  action_leave-Atomic w =
      >>=-Atomic (prepare_action cal now req leave_id emp_id role)
        (commit_action cal now req leave_id emp_id role) w (prepare_action_db w)
        commit_action-Atomic
