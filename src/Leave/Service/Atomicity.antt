-- ===== src/Leave/Service/Atomicity.antt =====
-- Applying for a leave and editing it happen in full or not at all.
use leave_management_system.Prelude.{ℕ, ◌≡◌, Option, arith}
use leave_management_system.Models.Role.{Role}
use leave_management_system.Models.Leave.{LeaveInput, LeaveTypeResponse}
use leave_management_system.Database.{World, execute_transaction, ◌>>=◌}
use leave_management_system.Database.Laws.{
  Atomic, >>=-Atomic, execute_transaction-Atomic, select_db,
}
use leave_management_system.Tables.{Tables, Calendar, get_leave_type_by_id, get_approval_flow_by_id}
use leave_management_system.Leave.Reason.{Unicode}
use leave_management_system.Leave.Validation.{LeaveTypeInfo, get_leave_type_and_resolve_timing_id}
use leave_management_system.Leave.Service.{
  validate_leave, get_policy_by_id, insert_application, edit_application, create,
  update_application,
}

get_policy_by_id_db : (id : ℕ) (w : World Tables) → (get_policy_by_id id w).1.db ≡ w.db
unfolding get_policy_by_id get_leave_type_by_id get_approval_flow_by_id
get_policy_by_id_db id w = grind (arith, select_db)

module _ (u : Unicode) (leave : LeaveInput) where
  validate_leave_db : (w : World Tables) → (validate_leave u leave w).1.db ≡ w.db
  unfolding validate_leave get_leave_type_and_resolve_timing_id get_leave_type_by_id
  validate_leave_db w = grind (arith, select_db)

  module _ (cal : Calendar) where
    -- Whichever statements the database refuses, an application that ends in an error or a panic
    -- leaves every table exactly as it was.
    pub create-Atomic : (role : Role) (w : World Tables) → Atomic w.db (create cal u leave role w)
    unfolding create
    create-Atomic role w =
        >>=-Atomic (validate_leave u leave)
          (λ (p : LeaveTypeInfo × Option ℕ). get_policy_by_id leave.leave_type_id >>= λ policy.
            execute_transaction (insert_application cal leave role p.0 p.1 policy))
          w (validate_leave_db w)
          (λ p w'.
            >>=-Atomic (get_policy_by_id leave.leave_type_id)
              (λ (policy : LeaveTypeResponse).
                execute_transaction (insert_application cal leave role p.0 p.1 policy))
              w' (get_policy_by_id_db leave.leave_type_id w')
              (λ policy. execute_transaction-Atomic _))

    -- Whichever statements the database refuses, an edit that ends in an error or a panic leaves
    -- every table exactly as it was.
    pub update_application-Atomic :
        (emp_id leave_id : ℕ) (w : World Tables)
        → Atomic w.db (update_application cal u emp_id leave_id leave w)
    unfolding update_application
    update_application-Atomic emp_id leave_id w =
        >>=-Atomic (validate_leave u leave)
          (λ (p : LeaveTypeInfo × Option ℕ). get_policy_by_id leave.leave_type_id >>= λ policy.
            execute_transaction (edit_application cal emp_id leave_id leave p.0 p.1 policy))
          w (validate_leave_db w)
          (λ p w'.
            >>=-Atomic (get_policy_by_id leave.leave_type_id)
              (λ (policy : LeaveTypeResponse).
                execute_transaction (edit_application cal emp_id leave_id leave p.0 p.1 policy))
              w' (get_policy_by_id_db leave.leave_type_id w')
              (λ policy. execute_transaction-Atomic _))
