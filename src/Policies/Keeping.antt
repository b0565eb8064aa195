-- ===== src/Policies/Keeping.antt =====
-- Requests about leave policies keep the books, and no leave type goes that something belongs to.
use leave_management_system.Prelude.{
  ℕ, Bool, true, false, not, List, [], ◌∷◌, Option, none, some, String, ◌==◌, any, keep, find,
  arith, if◌then◌else◌,
}
use leave_management_system.Prelude.Int.{ℤ, pos, negsuc}
use leave_management_system.Models.Role.{Role, role_eq}
use leave_management_system.Models.Leave.{LeaveType, is_early_leave}
use leave_management_system.Database.{
  World, Action, app, plain, pure, or_fail, select, statement, wrap, answer, execute_transaction,
  ◌>>=◌, ◌>>◌,
}
use leave_management_system.Database.Laws.{Keeps, execute_transaction-Keeps, >>=-Keeps}
use leave_management_system.Database.Endings.{
  statement-Keeps, select-Keeps, or_fail-Keeps, guard-Keeps,
}
use leave_management_system.Accounts.Store.{Store as Accounts}
use leave_management_system.Accounts.Entitlement.{
  update_leave_balances_for_entitlement_change, update_intern_leave_balances_for_entitlement_change,
  bulk_allocate_leave_balance_for_new_leave_type,
}
use leave_management_system.Accounts.Books.{
  InBalance, entitlement_change-InBalance, bulk_allocate-InBalance,
}
use leave_management_system.Accounts.Accrual.{run_accrual}
use leave_management_system.Accounts.Accruing.{run_accrual-InBalance}
use leave_management_system.Policies.Defs.{
  LeaveTypeInput, NormalInput, Store, on_accounts, or_else, no_rows, get_default_flow_id,
  flow_or_default, not_negative, normalize_leave_type_input, is_type, add_type, create_type,
  get_type_by_id, try_update_type, unless_message, update_type, try_delete_type, delete_type,
  allocate, insert_policy, create_policy, change_balances, update_policy, delete_policy, may_change,
  handle_create, handle_update, handle_delete,
}

abbrev pub AreBalanced : Store → Type 0
AreBalanced s = InBalance s.accounts

on_accounts-Keeps :
    {A : Type 0} (m : Action Accounts A) → Keeps InBalance m → Keeps AreBalanced (on_accounts m)
on_accounts-Keeps m k w h = k (record { db = w.db.accounts; faults = w.faults }) h

module _ (P : Store → Type 0) where
  flow-Keeps : (o : Option ℕ) → Keeps P (flow_or_default o)
  unfolding get_default_flow_id
  flow-Keeps none w h =
      >>=-Keeps P (select (λ s. s.default_flow)) (λ row. or_fail row (plain no_rows))
        (select-Keeps P (λ s. s.default_flow)) (λ row. or_fail-Keeps P row (plain no_rows)) w h
  flow-Keeps (some id) w h = h

  not_negative-Keeps : (n : ℤ) → Keeps P (not_negative n)
  not_negative-Keeps (pos n) w h = h
  not_negative-Keeps (negsuc n) w h = h

  unless_message-Keeps : (o : Option String) → Keeps P (unless_message o)
  unless_message-Keeps none w h = h
  unless_message-Keeps (some m) w h = h

  normalize-Keeps : (input : LeaveTypeInput) → Keeps P (normalize_leave_type_input input)
  unfolding normalize_leave_type_input
  normalize-Keeps input w h =
      >>=-Keeps P (flow_or_default input.approval_flow_id)
        (λ flow_id. not_negative (or_else (pos 0) input.default_entitlement) >>= λ n. pure _)
        (flow-Keeps input.approval_flow_id)
        (λ flow_id.
          >>=-Keeps P (not_negative (or_else (pos 0) input.default_entitlement)) (λ n. pure _)
            (not_negative-Keeps (or_else (pos 0) input.default_entitlement)) (λ n w' h'. h'))
        w h

  get_type-Keeps : (id : ℕ) → Keeps P (get_type_by_id id)
  unfolding get_type_by_id
  get_type-Keeps id =
      >>=-Keeps P (select (λ s. find (is_type id) s.accounts.leave_types))
        (λ row. or_fail row (plain no_rows))
        (select-Keeps P (λ s. find (is_type id) s.accounts.leave_types))
        (λ row. or_fail-Keeps P row (plain no_rows))

  -- A choice between doing nothing and a call.
  unless-Keeps :
      (b : Bool) (m : Action Store (Unit {0})) → Keeps P m → Keeps P (if b then pure tt else m)
  unless-Keeps true m k w h = h
  unless-Keeps false m k w h = k w h

update_type-AreBalanced : (id : ℕ) (input : NormalInput) → Keeps AreBalanced (update_type id input)
unfolding update_type
update_type-AreBalanced id input =
    >>=-Keeps AreBalanced (statement (try_update_type id input)) unless_message
      (statement-Keeps AreBalanced (try_update_type id input) (λ s h. ground arith))
      (unless_message-Keeps AreBalanced)

delete_type-AreBalanced : (id : ℕ) → Keeps AreBalanced (delete_type id)
unfolding delete_type
delete_type-AreBalanced id =
    >>=-Keeps AreBalanced (select (λ s. any (λ t. t == id) s.leaves)) _
      (select-Keeps AreBalanced (λ s. any (λ t. t == id) s.leaves))
      (λ is_used.
        guard-Keeps AreBalanced is_used (plain no_rows)
          (statement (try_delete_type id) >>= unless_message)
          (>>=-Keeps AreBalanced (statement (try_delete_type id)) unless_message
            (statement-Keeps AreBalanced (try_delete_type id) (λ s h. ground arith))
            (unless_message-Keeps AreBalanced)))

module _ (year : ℕ) where
  allocate-AreBalanced : (id : ℕ) (input : NormalInput) → Keeps AreBalanced (allocate year id input)
  unfolding allocate
  allocate-AreBalanced id input =
      >>=-Keeps AreBalanced
        (answer (app 500 "failed to fetch active employees")
          (select (λ s. keep (λ e. e.is_active) s.accounts.employees)))
        _ (select-Keeps AreBalanced (λ s. keep (λ e. e.is_active) s.accounts.employees))
        (λ employees.
          on_accounts-Keeps
            (bulk_allocate_leave_balance_for_new_leave_type year id input.default_entitlement
              input.intern_entitlement employees)
            (bulk_allocate-InBalance input.default_entitlement year id input.intern_entitlement
              employees))

  insert_policy-AreBalanced : (input : NormalInput) → Keeps AreBalanced (insert_policy year input)
  unfolding insert_policy create_type
  insert_policy-AreBalanced input =
      >>=-Keeps AreBalanced (answer (app 500 "failed to create leave type") (create_type input)) _
        (statement-Keeps AreBalanced (add_type input) (λ s h. h))
        (λ id.
          >>=-Keeps AreBalanced (if input.is_early then pure tt else allocate year id input) _
            (unless-Keeps AreBalanced input.is_early (allocate year id input)
              (allocate-AreBalanced id input))
            (λ _ w h. h))

  change_balances-AreBalanced :
      (id : ℕ) (input : NormalInput) (old : LeaveType)
      → Keeps AreBalanced (change_balances year id input old)
  unfolding change_balances
  change_balances-AreBalanced id input old =
      >>=-Keeps AreBalanced
        (if is_early_leave old
          then pure tt
          else answer (app 500 "failed to update leave Balance") (
              on_accounts (
                update_leave_balances_for_entitlement_change id old.default_entitlement
                  input.default_entitlement year)))
        _
        (unless-Keeps AreBalanced (is_early_leave old) _ (
          on_accounts-Keeps
            (update_leave_balances_for_entitlement_change id old.default_entitlement
              input.default_entitlement year)
            (λ w h.
              (entitlement_change-InBalance input.default_entitlement year id
                old.default_entitlement w h).0)))
        (λ _.
          on_accounts-Keeps
            (update_intern_leave_balances_for_entitlement_change id
              (or_else input.default_entitlement input.intern_entitlement) year)
            (λ w h.
              (entitlement_change-InBalance
                (or_else input.default_entitlement input.intern_entitlement) year id
                old.default_entitlement w h).1))

  create_policy-AreBalanced :
      (input : LeaveTypeInput) → Keeps AreBalanced (create_policy year input)
  unfolding create_policy
  create_policy-AreBalanced input =
      >>=-Keeps AreBalanced (normalize_leave_type_input input)
        (λ normal. execute_transaction (insert_policy year normal))
        (normalize-Keeps AreBalanced input)
        (λ normal.
          execute_transaction-Keeps AreBalanced (insert_policy year normal)
            (insert_policy-AreBalanced normal))

  abbrev rewrite : ℕ → NormalInput → LeaveType → Action Store (Unit {0})
  rewrite id normal old =
      answer (app 500 "failed to update leave policy") (update_type id normal)
      >> change_balances year id normal old

  update_policy-AreBalanced :
      (id : ℕ) (input : LeaveTypeInput) → Keeps AreBalanced (update_policy year id input)
  unfolding update_policy
  update_policy-AreBalanced id input =
      >>=-Keeps AreBalanced (normalize_leave_type_input input)
        (λ normal.
          wrap 400 "" (get_type_by_id id) >>= λ old. execute_transaction (rewrite id normal old))
        (normalize-Keeps AreBalanced input)
        (λ normal.
          >>=-Keeps AreBalanced (wrap 400 "" (get_type_by_id id))
            (λ old. execute_transaction (rewrite id normal old)) (get_type-Keeps AreBalanced id)
            (λ old. execute_transaction-Keeps AreBalanced (rewrite id normal old) (
              >>=-Keeps AreBalanced
                (answer (app 500 "failed to update leave policy") (update_type id normal))
                (λ _. change_balances year id normal old) (update_type-AreBalanced id normal)
                (λ _. change_balances-AreBalanced id normal old))))

delete_policy-AreBalanced : (id : ℕ) → Keeps AreBalanced (delete_policy id)
unfolding delete_policy
delete_policy-AreBalanced id =
    execute_transaction-Keeps AreBalanced (wrap 500 "" (delete_type id))
      (delete_type-AreBalanced id)

pub data Request : Type 0 where
  create : LeaveTypeInput → Request
  update : ℕ → LeaveTypeInput → Request
  delete : ℕ → Request
  accrual : ℕ → Request

-- `RunAccrual` on the accounts.
abbrev pub accrue_month : ℕ → ℕ → World Store → World Store
accrue_month month year w =
    let w' = (run_accrual month year (record { db = w.db.accounts; faults = w.faults })).1 in
    record { db = record w.db { accounts = w'.db }; faults = w'.faults }

-- The tables and the schedule after the handler has answered, or the cron job of a month has run.
unfoldable pub serve_policy : ℕ → Role → Request → World Store → World Store
serve_policy year role (create input) w = (handle_create year role input w).1
serve_policy year role (update id input) w = (handle_update year role id input w).1
serve_policy year role (delete id) w = (handle_delete role id w).1
serve_policy year role (accrual month) w = accrue_month month year w

-- The year, who asks and for what.
pub record Call : Type 0 where
  pub year : ℕ
  pub user_role : Role
  pub request : Request

unfoldable pub serve_policies : List Call → World Store → World Store
serve_policies [] w = w
serve_policies (c ∷ calls) w = serve_policies calls (serve_policy c.year c.user_role c.request w)

serve_policy-AreBalanced :
    (year : ℕ) (role : Role) (request : Request) (w : World Store)
    → AreBalanced w.db
    → AreBalanced (serve_policy year role request w).db
unfolding serve_policy handle_create handle_update handle_delete
serve_policy-AreBalanced year role (create input) w h =
    guard-Keeps AreBalanced (not (role_eq role Role.super_admin))
      (app 401 "not permitted to create leave policies") (create_policy year input)
      (create_policy-AreBalanced year input) w h
serve_policy-AreBalanced year role (update id input) w h =
    guard-Keeps AreBalanced (not (may_change role))
      (app 401 "not permitted to update leave policies") (update_policy year id input)
      (update_policy-AreBalanced year id input) w h
serve_policy-AreBalanced year role (delete id) w h =
    guard-Keeps AreBalanced (not (may_change role))
      (app 401 "not permitted to delete leave policies") (delete_policy id)
      (delete_policy-AreBalanced id) w h
serve_policy-AreBalanced year role (accrual month) w h =
    run_accrual-InBalance month year (record { db = w.db.accounts; faults = w.faults }) h

-- After any sequence of requests to create, change and delete leave policies and of monthly
-- accruals, by anyone, in any years and whichever statements fail, closing + used equals opening +
-- adjusted in every balance row, whatever it has accrued, if it did at first. This is the rule of
-- internal/repositories/leaveAccrual.go, which leaves what is accrued out of the closing balance.
pub policy_requests-AreBalanced :
    (calls : List Call) (w : World Store)
    → AreBalanced w.db
    → AreBalanced (serve_policies calls w).db
unfolding serve_policies
policy_requests-AreBalanced [] w h = h
policy_requests-AreBalanced (c ∷ calls) w h =
    policy_requests-AreBalanced calls (serve_policy c.year c.user_role c.request w)
      (serve_policy-AreBalanced c.year c.user_role c.request w h)
