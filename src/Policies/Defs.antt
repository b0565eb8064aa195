-- ===== src/Policies/Defs.antt =====
-- Creating, changing and deleting a leave type, from the role checks on. The input and the id are
-- parsed already. An entitlement for interns is a natural number.
use leave_management_system.Prelude.{
  ℕ, ◌+◌, Bool, false, not, ◌||◌, List, ◌∷◌, Option, none, some, String, ◌==◌, find, keep, update,
  any, if◌then◌else◌,
}
use leave_management_system.Prelude.Int.{ℤ, pos, negsuc}
use leave_management_system.Models.Role.{Role, role_eq}
use leave_management_system.Models.Leave.{LeaveType, is_early_leave}
use leave_management_system.Database.{
  Action, app, plain, pure, fail, or_fail, select, statement, wrap, answer, zoom,
  execute_transaction, ◌>>=◌, ◌>>◌,
}
use leave_management_system.Accounts.Store.{Store as Accounts}
use leave_management_system.Accounts.Entitlement.{
  update_leave_balances_for_entitlement_change, update_intern_leave_balances_for_entitlement_change,
  bulk_allocate_leave_balance_for_new_leave_type,
}

pub record LeaveTypeInput : Type 0 where
  pub name : String
  pub is_paid : Option Bool
  pub is_early : Option Bool
  pub is_work_from_home : Option Bool
  pub default_entitlement : Option ℤ
  pub intern_entitlement : Option ℕ
  pub leave_count : Option ℕ
  pub approval_flow_id : Option ℕ

-- The input once no pointer in it is nil.
pub record NormalInput : Type 0 where
  pub name : String
  pub is_paid : Bool
  pub is_early : Bool
  pub is_work_from_home : Bool
  pub default_entitlement : ℕ
  pub intern_entitlement : Option ℕ
  pub leave_count : ℕ
  pub approval_flow_id : ℕ

-- `leaves` holds the leave type of each row of Tbl_Leave.
pub record Store : Type 0 where
  pub accounts : Accounts
  pub leaves : List ℕ
  pub default_flow : Option ℕ
  pub next_type_id : ℕ

abbrev pub on_accounts : {A : Type 0} → Action Accounts A → Action Store A
on_accounts m = zoom (λ s. s.accounts) (λ t s. record s { accounts = t }) m

abbrev pub no_rows : String
no_rows = "sql: no rows in result set"

abbrev pub or_else {ℓ} : {A : Type ℓ} → A → Option A → A
or_else default none = default
or_else default (some a) = a

unfoldable pub get_default_flow_id : Action Store ℕ
get_default_flow_id =
    answer (app 404 "default leave approval flow not found")
      (select (λ s. s.default_flow) >>= λ row. or_fail row (plain no_rows))

abbrev pub flow_or_default : Option ℕ → Action Store ℕ
flow_or_default none = get_default_flow_id
flow_or_default (some id) = pure id

abbrev pub not_negative : ℤ → Action Store ℕ
not_negative (pos n) = pure n
not_negative (negsuc n) = fail (plain "default entitlement cannot be negative")

unfoldable pub normalize_leave_type_input : LeaveTypeInput → Action Store NormalInput
normalize_leave_type_input input = do
  flow_id ← flow_or_default input.approval_flow_id
  entitlement ← not_negative (or_else (pos 0) input.default_entitlement)
  pure (record {
    name = input.name;
    is_paid = or_else false input.is_paid;
    is_early = or_else false input.is_early;
    is_work_from_home = or_else false input.is_work_from_home;
    default_entitlement = entitlement;
    intern_entitlement = input.intern_entitlement;
    leave_count = or_else 2 input.leave_count;
    approval_flow_id = flow_id;
  })

abbrev pub is_type : ℕ → LeaveType → Bool
is_type id t = t.id == id

-- The columns that an insert and an update set. The number of leaves is in no column.
abbrev pub leave_type_of : ℕ → NormalInput → LeaveType
leave_type_of id input = record {
  id = id;
  name = input.name;
  is_paid = input.is_paid;
  default_entitlement = input.default_entitlement;
  intern_entitlement = input.intern_entitlement;
  is_early = some input.is_early;
  is_work_from_home = input.is_work_from_home;
  approval_flow_id = some input.approval_flow_id;
}

abbrev pub set_types : (List LeaveType → List LeaveType) → Store → Store
set_types f s = record s { accounts = record s.accounts { leave_types = f s.accounts.leave_types } }

abbrev pub add_type : NormalInput → Store → ℕ × Store
add_type input s = (
  s.next_type_id,
  record (set_types (λ types. leave_type_of s.next_type_id input ∷ types) s) {
    next_type_id = s.next_type_id + 1;
  },
)

unfoldable pub create_type : NormalInput → Action Store ℕ
create_type input = statement (add_type input)

unfoldable pub get_type_by_id : ℕ → Action Store LeaveType
get_type_by_id id = do
  row ← select (λ s. find (is_type id) s.accounts.leave_types)
  or_fail row (plain no_rows)

-- A message where the database refuses, and the tables.
abbrev pub try_update_type : ℕ → NormalInput → Store → Option String × Store
try_update_type id input s =
    if not (any (is_type id) s.accounts.leave_types)
    then (some no_rows, s)
    else (none, set_types (update (is_type id) (λ t. leave_type_of t.id input)) s)

abbrev pub unless_message : Option String → Action Store (Unit {0})
unless_message none = pure tt
unless_message (some m) = fail (plain m)

unfoldable pub update_type : ℕ → NormalInput → Action Store (Unit {0})
update_type id input = statement (try_update_type id input) >>= unless_message

-- The rows of balances, adjustments and accruals refer to the type, with no action on delete.
abbrev pub is_referred_to : ℕ → Accounts → Bool
is_referred_to id a =
    any (λ b. b.leave_type_id == id) a.balances
    || any (λ x. x.leave_type_id == id) a.adjustments
    || any (λ x. x.leave_type_id == id) a.accruals

abbrev pub try_delete_type : ℕ → Store → Option String × Store
try_delete_type id s =
    if not (any (is_type id) s.accounts.leave_types)
    then (some no_rows, s)
    else if is_referred_to id s.accounts
    then (
      some "pq: update or delete on table \"tbl_leave_type\" violates foreign key constraint",
      s,
    )
    else (none, set_types (keep (λ t. not (is_type id t))) s)

unfoldable pub delete_type : ℕ → Action Store (Unit {0})
delete_type id = do
  is_used ← select (λ s. any (λ t. t == id) s.leaves)
  if is_used then fail (plain no_rows) else (statement (try_delete_type id) >>= unless_message)

-- Balances of a new type for the active employees.
unfoldable pub allocate : ℕ → ℕ → NormalInput → Action Store (Unit {0})
allocate current_year id input =
    answer (app 500 "failed to fetch active employees")
      (select (λ s. keep (λ e. e.is_active) s.accounts.employees))
    >>= λ employees. answer (app 500 "failed to allocate leave balances") (
        on_accounts (
          bulk_allocate_leave_balance_for_new_leave_type current_year id input.default_entitlement
            input.intern_entitlement employees))

unfoldable pub insert_policy : ℕ → NormalInput → Action Store ℕ
insert_policy current_year input =
    answer (app 500 "failed to create leave type") (create_type input) >>= λ id.
    (if input.is_early then pure tt else allocate current_year id input) >>= λ _. pure id

unfoldable pub create_policy : ℕ → LeaveTypeInput → Action Store ℕ
create_policy current_year input = normalize_leave_type_input input >>= λ normal.
    execute_transaction (insert_policy current_year normal)

-- The balances of who is no intern, by the old row, and those of interns.
unfoldable pub change_balances : ℕ → ℕ → NormalInput → LeaveType → Action Store (Unit {0})
change_balances current_year id input old =
    (if is_early_leave old
      then pure tt
      else answer (app 500 "failed to update leave Balance") (
          on_accounts (
            update_leave_balances_for_entitlement_change id old.default_entitlement
              input.default_entitlement current_year)))
    >> answer (app 500 "failed to update intern leave balances") (
        on_accounts (
          update_intern_leave_balances_for_entitlement_change id
            (or_else input.default_entitlement input.intern_entitlement) current_year))

unfoldable pub update_policy : ℕ → ℕ → LeaveTypeInput → Action Store (Unit {0})
update_policy current_year id input = normalize_leave_type_input input >>= λ normal.
    wrap 400 "" (get_type_by_id id) >>= λ old. execute_transaction (
      answer (app 500 "failed to update leave policy") (update_type id normal)
      >> change_balances current_year id normal old)

unfoldable pub delete_policy : ℕ → Action Store (Unit {0})
delete_policy id = execute_transaction (wrap 500 "" (delete_type id))

abbrev pub may_change : Role → Bool
may_change role = role_eq role Role.super_admin || role_eq role Role.admin || role_eq role Role.hr

unfoldable pub handle_create : ℕ → Role → LeaveTypeInput → Action Store ℕ
handle_create current_year role input =
    if not (role_eq role Role.super_admin)
    then fail (app 401 "not permitted to create leave policies")
    else create_policy current_year input

unfoldable pub handle_update : ℕ → Role → ℕ → LeaveTypeInput → Action Store (Unit {0})
handle_update current_year role id input =
    if not (may_change role)
    then fail (app 401 "not permitted to update leave policies")
    else update_policy current_year id input

unfoldable pub handle_delete : Role → ℕ → Action Store (Unit {0})
handle_delete role id =
    if not (may_change role)
    then fail (app 401 "not permitted to delete leave policies")
    else delete_policy id
