-- ===== src/Tests/Office.antt =====
-- The properties of requests about designations and settings, at concrete inputs.
use leave_management_system.Prelude.{
  ◌≢◌, refl, true, false, List, [], ◌∷◌, Option, none, some, String, arith,
}
use leave_management_system.Prelude.Int.{pos}
use leave_management_system.Models.Role.{Role}
use leave_management_system.Company.Defs.{
  DesignationInput, CompanyField, CompanySettings, Upload, LogAction, Component, Store, new_common,
}
use leave_management_system.Company.Audit.{IsSound}
use leave_management_system.Company.Trail.{Request, Call, handle_all, company_requests-IsSound}
use leave_management_system.Tests.Inputs.{failing}

abbrev engineer : DesignationInput
engineer = record { designation_name = "Engineer"; description = none }

abbrev form : CompanyField
form = record {
  working_days = pos 0;
  allow_manager_add_leave = true;
  company_name = "DEMO";
  primary_color = "#2980b9";
  secondary_color = "#2ecc71";
  birthday_message_template = none;
}

abbrev current : CompanySettings
current = record {
  working_days_per_month = pos 22;
  allow_manager_add_leave = false;
  company_name = "DEMO";
  primary_color = "#2980b9";
  secondary_color = "#2ecc71";
  logo_path = none;
  birthday_message_template = "Happy Birthday {name}!";
}

abbrev office : Store
office = record {
  designations = record { id = 1; designation_name = "Clerk"; description = none } ∷ [];
  holders = record { employee_id = 7; designation_id = some 1 } ∷ [];
  settings = current ∷ [];
  logs = new_common Component.designation LogAction.action_create 8 ∷ [];
  next_id = 2;
}

-- Every input passes.
abbrev validator : DesignationInput → Option String
validator input = none

abbrev call : Role → Request → Call
call role request = record { user_id = some 8; user_role = role; request = request }

abbrev calls : List Call
calls =
    call Role.hr (Request.create engineer)
    ∷ call Role.admin (Request.delete 1)
    ∷ call Role.employee (Request.update 1 engineer)
    ∷ call Role.admin (Request.settings form Upload.absent)
    ∷ []

twenty_two_positive : pos 22 ≢ pos 0
twenty_two_positive e = ground arith

company_requests-IsSound_example : IsSound (handle_all validator calls (failing office)).db
company_requests-IsSound_example =
    company_requests-IsSound validator calls (failing office)
      ((omega arith, tt), (refl, tt), (omega arith, omega arith), (twenty_two_positive, tt))
