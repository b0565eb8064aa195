-- ===== src/Tests/Others.antt =====
-- The properties of equipment and pages, at concrete inputs.
use leave_management_system.Prelude.{
  none, ◌≡◌, some, ◌≤◌, ◌<◌, inr, refl, false, [], ◌∷◌, ◌+◌, ◌*◌, arith,
}
use leave_management_system.Database.{statement, select, exec}
use leave_management_system.Equipment.Defs.{
  UpdateAssignmentRequest, update_assignment, resize, resize_pool, update_assignment_row, Store,
  Equipment, Assignment, AssignEquipmentRequest, RemoveEquipmentRequest, assign_equipment,
  get_equipment, get_assignment, insert_assignment, update_equipment_row,
}
use leave_management_system.Equipment.Rows.{Conserved}
use leave_management_system.Equipment.Conservation.{
  assign_equipment-Conserved, update_assignment-Conserved,
}
use leave_management_system.Pagination.{PaginationResponse, calculate_pagination_response}
use leave_management_system.Pagination.Pages.{calculate_pagination_response-covers}
use leave_management_system.Tests.Inputs.{running}

abbrev laptops : Equipment
laptops = record {
  id = 4;
  name = "Laptop";
  category_id = 1;
  is_shared = false;
  price = 900;
  total_quantity = 5;
  remaining_quantity = 3;
}

abbrev loan : Assignment
loan = record { id = 6; equipment_id = 4; employee_id = 7; assigned_by = 8; quantity = 2 }

abbrev stock : Store
stock = record { equipment = laptops ∷ []; assignments = loan ∷ []; next_id = 9 }

abbrev wish : AssignEquipmentRequest
wish = record { employee_id = 2; equipment_id = 4; quantity = 1; assigned_by = 8 }

abbrev return : RemoveEquipmentRequest
return = record { employee_id = 7; equipment_id = 4 }

assign_equipment-Conserved_example : Conserved 4 (assign_equipment wish (running stock)).1.db
unfolding assign_equipment get_equipment insert_assignment update_equipment_row select exec
    statement
assign_equipment-Conserved_example =
    assign_equipment-Conserved (running stock) wish 4 (inr refl) refl

abbrev resizing : UpdateAssignmentRequest
resizing = record {
  from_employee_id = 7;
  to_employee_id = none;
  equipment_id = 4;
  quantity = 4;
  assigned_by = 8;
}

update_assignment-Conserved_example : Conserved 4 (update_assignment resizing (running stock)).1.db
unfolding update_assignment resize resize_pool get_equipment get_assignment update_assignment_row
    update_equipment_row select exec statement
update_assignment-Conserved_example =
    update_assignment-Conserved (running stock) resizing 4 refl (tt, tt) (inr refl) refl

calculate_pagination_response-covers_example :
    (r : PaginationResponse) × (calculate_pagination_response 1 10 21 ≡ some r)
    × (21 ≤ r.total_pages * 10)
    × (r.total_pages * 10 < 21 + 10)
calculate_pagination_response-covers_example =
    calculate_pagination_response-covers 1 10 21 (omega arith)
