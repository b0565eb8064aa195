-- ===== src/Company/Defs.antt =====
-- The requests of internal/handler/designation.go and `UpdateCompanySettings` of
-- internal/handler/settings.go, from their role checks on. Inputs and ids are parsed already, and
-- the validator of the input is a parameter: what it answers is its error, if any. The user id is
-- missing where the token has none.
use leave_management_system.Prelude.{
  ℕ, zero, ◌+◌, Bool, not, List, ◌∷◌, Option, none, some, String, ◌==◌, ◌&&◌, keep, update, map,
  same, if◌then◌else◌,
}
use leave_management_system.Prelude.Int.{ℤ, pos}
use leave_management_system.Models.Role.{Role, role_eq, admin_super_admin_hr}
use leave_management_system.Database.{
  Action, app, pure, fail, or_fail, exec, statement, wrap, execute_transaction, ◌>>=◌, ◌>>◌,
}
use Prim.Native.String.{◌++◌}

pub record DesignationInput : Type 0 where
  pub designation_name : String
  pub description : Option String

pub record Designation : Type 0 where
  pub id : ℕ
  pub designation_name : String
  pub description : Option String

-- The column `designation_id` of the employee table.
pub record Holder : Type 0 where
  pub employee_id : ℕ
  pub designation_id : Option ℕ

pub data LogAction : Type 0 where
  action_create action_update action_delete : LogAction

pub data Component : Type 0 where
  designation company_settings : Component

-- `Common`, and a row of tbl_log.
pub record LogEntry : Type 0 where
  pub component : Component
  pub action : LogAction
  pub from_user_id : ℕ

pub record CompanySettings : Type 0 where
  pub working_days_per_month : ℤ
  pub allow_manager_add_leave : Bool
  pub company_name : String
  pub primary_color : String
  pub secondary_color : String
  pub logo_path : Option String
  pub birthday_message_template : String

-- Newest first. Postgres makes the ids; a counter stands for what makes them new.
pub record Store : Type 0 where
  pub designations : List Designation
  pub holders : List Holder
  pub settings : List CompanySettings
  pub logs : List LogEntry
  pub next_id : ℕ

abbrev pub is_designation : ℕ → Designation → Bool
is_designation id d = d.id == id

abbrev pub add_designation : DesignationInput → Store → ℕ × Store
add_designation input s = (
  s.next_id,
  record s {
    designations =
        record {
          id = s.next_id;
          designation_name = input.designation_name;
          description = input.description;
        }
        ∷ s.designations;
    next_id = s.next_id + 1;
  },
)

abbrev pub rename : DesignationInput → Designation → Designation
rename input d = record d {
  designation_name = input.designation_name;
  description = input.description;
}

abbrev pub rename_designation : ℕ → DesignationInput → Store → Store
rename_designation id input s = record s {
  designations = update (is_designation id) (rename input) s.designations;
}

abbrev pub holds : ℕ → Holder → Bool
holds id h = same h.designation_id (some id)

abbrev pub let_go : Holder → Holder
let_go h = record h { designation_id = none }

-- `ON DELETE SET NULL` of the employee table is a part of the statement.
abbrev pub drop_designation : ℕ → Store → Store
drop_designation id s = record s {
  designations = keep (λ d. not (is_designation id d)) s.designations;
  holders = update (holds id) let_go s.holders;
}

unfoldable pub create_designation : DesignationInput → Action Store ℕ
create_designation input = statement (add_designation input)

unfoldable pub update_designation : ℕ → DesignationInput → Action Store (Unit {0})
update_designation id input = exec (rename_designation id input)

unfoldable pub delete_designation : ℕ → Action Store (Unit {0})
delete_designation id = exec (drop_designation id)

abbrev pub push_log : LogEntry → Store → Store
push_log entry s = record s { logs = entry ∷ s.logs }

unfoldable pub add_log : LogEntry → Action Store (Unit {0})
add_log entry = exec (push_log entry)

abbrev pub new_common : Component → LogAction → ℕ → LogEntry
new_common component action from_user_id = record {
  component = component;
  action = action;
  from_user_id = from_user_id;
}

abbrev pub forbidden : Option String → Action Store (Unit {0})
forbidden none = pure tt
forbidden (some m) = fail (app 403 m)

abbrev pub invalid : Option String → Action Store (Unit {0})
invalid none = pure tt
invalid (some m) = fail (app 400 ("invalid input: " ++ m))

-- The statements of a request, and the log entry in the same transaction.
unfoldable pub logged : {A : Type 0} → String → Action Store A → LogEntry → Action Store A
logged message m entry = wrap 500 "" (
    execute_transaction (do
      a ← wrap 500 message m
      wrap 500 "failed to create  degisnation log: " (add_log entry)
      pure a))

-- What each request about designations begins with.
unfoldable pub permitted :
    {A : Type 0} → String → Role → Option ℕ → (ℕ → Action Store A) → Action Store A
permitted message role user request = do
  forbidden (admin_super_admin_hr role message)
  emp_id ← or_fail user (app 403 "Access Denied")
  request emp_id

unfoldable pub validated : {A : Type 0} → Option String → Action Store A → Action Store A
validated refusal request = do invalid refusal; request

module _ (validator : DesignationInput → Option String) where
  unfoldable pub handle_create_designation : Role → Option ℕ → DesignationInput → Action Store ℕ
  handle_create_designation role user input =
      permitted "only ADMIN, SUPERADMIN, and HR can create designations" role user (λ emp_id.
        validated (validator input) (
          logged "failed to create designation: " (create_designation input)
            (new_common Component.designation LogAction.action_create emp_id)))

  unfoldable pub handle_update_designation :
      Role → Option ℕ → ℕ → DesignationInput → Action Store (Unit {0})
  handle_update_designation role user id input =
      permitted "only ADMIN, SUPERADMIN, and HR can update designations" role user (λ emp_id.
        validated (validator input) (
          logged "failed to update designation: " (update_designation id input)
            (new_common Component.designation LogAction.action_update emp_id)))

unfoldable pub handle_delete_designation : Role → Option ℕ → ℕ → Action Store (Unit {0})
handle_delete_designation role user id =
    permitted "only ADMIN, SUPERADMIN, and HR can delete designations" role user (λ emp_id.
      logged "failed to delete designation: " (delete_designation id)
        (new_common Component.designation LogAction.action_delete emp_id))

-- What the form holds, a text for each field; `working_days` is what `strconv.Atoi` answers, 0
-- with an error.
pub record CompanyField : Type 0 where
  pub working_days : ℤ
  pub allow_manager_add_leave : Bool
  pub company_name : String
  pub primary_color : String
  pub secondary_color : String
  pub birthday_message_template : Option String

-- The file of the form: none, one that is saved under a path, or one that cannot be saved.
pub data Upload : Type 0 where
  absent : Upload
  saved : String → Upload
  unsaved : Upload

abbrev pub or_twenty_two : ℤ → ℤ
or_twenty_two (pos zero) = pos 22
or_twenty_two n = n

abbrev pub or_old {ℓ} : {A : Type ℓ} → Option A → A → A
or_old none old = old
or_old (some new) old = new

abbrev pub path_of : Upload → Option String → Option String
path_of (saved path) old = some path
path_of _ old = old

-- A text that is empty keeps what is there, here an option that is `none`.
abbrev pub set_settings : CompanyField → Upload → CompanySettings → CompanySettings
set_settings input logo c = record {
  working_days_per_month = or_twenty_two input.working_days;
  allow_manager_add_leave = input.allow_manager_add_leave;
  company_name = input.company_name;
  primary_color = input.primary_color;
  secondary_color = input.secondary_color;
  logo_path = path_of logo c.logo_path;
  birthday_message_template = or_old input.birthday_message_template c.birthday_message_template;
}

abbrev pub change_settings : CompanyField → Upload → Store → Store
change_settings input logo s = record s { settings = map (set_settings input logo) s.settings }

unfoldable pub update_company_settings : CompanyField → Upload → Action Store (Unit {0})
update_company_settings input logo = exec (change_settings input logo)

abbrev pub check_upload : Upload → Action Store (Unit {0})
check_upload unsaved = fail (app 500 "Failed to save logo file")
check_upload _ = pure tt

unfoldable pub write_settings : CompanyField → Upload → ℕ → Action Store (Unit {0})
write_settings input logo emp_id = wrap 500 "Failed to update settings: " (
    execute_transaction (do
      update_company_settings input logo
      add_log (new_common Component.company_settings LogAction.action_update emp_id)))

unfoldable pub handle_update_company_settings :
    Role → Option ℕ → CompanyField → Upload → Action Store (Unit {0})
handle_update_company_settings role user input logo =
    if not (role_eq role Role.super_admin) && not (role_eq role Role.admin)
    then fail (app 403 "Not authorized to update settings")
    else (do
      check_upload logo
      emp_id ← or_fail user (app 401 "Employee ID missing")
      write_settings input logo emp_id)
