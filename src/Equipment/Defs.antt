-- ===== src/Equipment/Defs.antt =====
-- The tables and the operations.
use leave_management_system.Prelude.{
  ℕ, ◌+◌, ◌-◌, Bool, true, false, ◌&&◌, not, List, ◌∷◌, Option, none, some, String, ◌==◌, ltb, find,
  keep, any, update, if◌then◌else◌,
}
use leave_management_system.Database.{
  Action, Result, ok, err, panic, plain, pure, fail, or_fail, annotate, select, exec, statement,
  ◌>>=◌, ◌>>◌,
}

pub record EquipmentRequest : Type 0 where
  pub name : String
  pub category_id : ℕ
  pub is_shared : Option Bool
  pub price : ℕ
  pub total_quantity : ℕ

pub record Equipment : Type 0 where
  pub id : ℕ
  pub name : String
  pub category_id : ℕ
  pub is_shared : Bool
  pub price : ℕ
  pub total_quantity : ℕ
  pub remaining_quantity : ℕ

pub record Assignment : Type 0 where
  pub id : ℕ
  pub equipment_id : ℕ
  pub employee_id : ℕ
  pub assigned_by : ℕ
  pub quantity : ℕ

pub record AssignEquipmentRequest : Type 0 where
  pub employee_id : ℕ
  pub equipment_id : ℕ
  pub quantity : ℕ
  pub assigned_by : ℕ

pub record RemoveEquipmentRequest : Type 0 where
  pub employee_id : ℕ
  pub equipment_id : ℕ

pub record UpdateAssignmentRequest : Type 0 where
  pub from_employee_id : ℕ
  pub to_employee_id : Option ℕ
  pub equipment_id : ℕ
  pub quantity : ℕ
  pub assigned_by : ℕ

pub record Store : Type 0 where
  pub equipment : List Equipment
  pub assignments : List Assignment
  pub next_id : ℕ

-- The error of a call is replaced by this one.
abbrev pub replace_result : {A : Type 0} → String → Result A → Result A
replace_result message (ok a) = ok a
replace_result message (err e) = err (plain message)
replace_result message panic = panic

abbrev pub replace : {A : Type 0} → String → Action Store A → Action Store A
replace message m w = let (r, w') = m w in (replace_result message r, w')

abbrev pub check : Bool → String → Action Store (Unit {0})
check true message = pure tt
check false message = fail (plain message)

abbrev pub no_rows : String
no_rows = "sql: no rows in result set"

-- The statements.

abbrev pub is_item : ℕ → Equipment → Bool
is_item id e = e.id == id

abbrev pub is_assigned : ℕ → ℕ → Assignment → Bool
is_assigned equipment_id employee_id a =
    a.equipment_id == equipment_id && a.employee_id == employee_id

unfoldable pub get_equipment : ℕ → Action Store Equipment
get_equipment id = do row ← select (λ s. find (is_item id) s.equipment); or_fail row (plain no_rows)

-- The most recent assignment of an item to an employee.
unfoldable pub get_assignment : ℕ → ℕ → Action Store Assignment
get_assignment equipment_id employee_id = do
  row ← select (λ s. find (is_assigned equipment_id employee_id) s.assignments)
  or_fail row (plain no_rows)

abbrev pub add_remaining : ℕ → Equipment → Equipment
add_remaining n e = record e { remaining_quantity = e.remaining_quantity + n }

abbrev pub take_remaining : ℕ → Equipment → Equipment
take_remaining n e = record e { remaining_quantity = e.remaining_quantity - n }

-- An update of the item's row, and whether it changed a row.
unfoldable pub update_equipment_row : ℕ → (Equipment → Equipment) → Action Store Bool
update_equipment_row id f = statement (λ s.
    (any (is_item id) s.equipment, record s { equipment = update (is_item id) f s.equipment }))

unfoldable pub update_assignment_row : ℕ → (Assignment → Assignment) → Action Store Bool
update_assignment_row id f = statement (λ s. (
  any (λ a. a.id == id) s.assignments,
  record s { assignments = update (λ a. a.id == id) f s.assignments },
))

unfoldable pub delete_assignment_row : ℕ → Action Store Bool
delete_assignment_row id = statement (λ s. (
  any (λ a. a.id == id) s.assignments,
  record s { assignments = keep (λ a. not (a.id == id)) s.assignments },
))

unfoldable pub insert_assignment : ℕ → ℕ → ℕ → ℕ → Action Store (Unit {0})
insert_assignment equipment_id employee_id assigned_by quantity = exec (λ s. record s {
  assignments =
      record {
        id = s.next_id;
        equipment_id = equipment_id;
        employee_id = employee_id;
        assigned_by = assigned_by;
        quantity = quantity;
      }
      ∷ s.assignments;
  next_id = s.next_id + 1;
})

-- The operations.

abbrev pub shared_or : Option Bool → Bool → Bool
shared_or none b = b
shared_or (some b) _ = b

unfoldable pub create_equipment : EquipmentRequest → Action Store (Unit {0})
create_equipment data' = annotate "failed to create equipment: " (
    exec (λ s. record s {
      equipment =
          record {
            id = s.next_id;
            name = data'.name;
            category_id = data'.category_id;
            is_shared = shared_or data'.is_shared false;
            price = data'.price;
            total_quantity = data'.total_quantity;
            remaining_quantity = data'.total_quantity;
          }
          ∷ s.equipment;
      next_id = s.next_id + 1;
    }))

-- `remaining + (total' - total)`, and 0 where that is negative; shared equipment keeps its total.
abbrev pub new_remaining : Equipment → Bool → ℕ → ℕ
new_remaining e new_is_shared total_quantity =
    if new_is_shared
    then total_quantity
    else e.remaining_quantity + total_quantity - e.total_quantity

unfoldable pub update_equipment : ℕ → EquipmentRequest → Action Store (Unit {0})
update_equipment id data' = do
  current ← replace "equipment not found" (get_equipment id)
  updated ← update_equipment_row id (λ e. record e {
    name = data'.name;
    category_id = data'.category_id;
    is_shared = shared_or data'.is_shared current.is_shared;
    price = data'.price;
    total_quantity = data'.total_quantity;
    remaining_quantity =
        new_remaining current (shared_or data'.is_shared current.is_shared) data'.total_quantity;
  })
  check updated "equipment not found"

unfoldable pub delete_equipment : ℕ → Action Store (Unit {0})
delete_equipment id = do
  deleted ← statement (λ s. (
    any (is_item id) s.equipment,
    record s { equipment = keep (λ e. not (is_item id e)) s.equipment },
  ))
  check deleted "equipment not found"

unfoldable pub assign_equipment : AssignEquipmentRequest → Action Store (Unit {0})
assign_equipment req = do
  item ← replace "equipment not found" (get_equipment req.equipment_id)
  check (not (not item.is_shared && ltb item.remaining_quantity req.quantity))
      "not enough equipment available"
  insert_assignment req.equipment_id req.employee_id req.assigned_by req.quantity
  if not item.is_shared
      then (update_equipment_row req.equipment_id (take_remaining req.quantity) >>= λ updated.
          pure tt)
      else pure tt

unfoldable pub remove_equipment : RemoveEquipmentRequest → Action Store (Unit {0})
remove_equipment req = do
  assignment ← annotate "assignment not found: " (get_assignment req.equipment_id req.employee_id)
  deleted ← annotate "failed to delete assignment: " (delete_assignment_row assignment.id)
  check deleted "assignment not found"
  item ← replace "equipment not found" (get_equipment req.equipment_id)
  if not item.is_shared
      then (do
        updated ←
            annotate "failed to update equipment quantity: "
              (update_equipment_row req.equipment_id (add_remaining assignment.quantity))
        check updated "equipment not found")
      else pure tt

-- The pool is touched for equipment that is not shared.
abbrev pub unless_shared : Bool → String → Action Store Bool → Action Store (Unit {0})
unless_shared true message m = pure tt
unless_shared false message m = annotate message m >>= λ updated. pure tt

-- Step 3 of a reassignment: the new employee's assignment grows, or is made. Any failure of the
-- query counts as no assignment.
abbrev pub found : Result Assignment → Option Assignment
found (ok a) = some a
found _ = none

abbrev pub add_quantity : ℕ → ℕ → Assignment → Assignment
add_quantity n assigned_by a = record a { quantity = a.quantity + n; assigned_by = assigned_by }

abbrev pub look : Action Store Assignment → Action Store (Option Assignment)
look m w = let (r, w') = m w in (ok (found r), w')

unfoldable pub give_to : UpdateAssignmentRequest → ℕ → Action Store (Unit {0})
give_to req to_employee_id = do
  existing ← look (get_assignment req.equipment_id to_employee_id)
  elim existing [
    | some a ↦
        annotate "failed to update new employee assignment: "
          (update_assignment_row a.id (add_quantity req.quantity req.assigned_by))
        >>= λ updated. pure tt
    | none ↦
        annotate "failed to create new employee assignment: "
          (insert_assignment req.equipment_id to_employee_id req.assigned_by req.quantity)
  ]

-- Step 1: the assignment is deleted, or reduced.
unfoldable pub take_from : UpdateAssignmentRequest → Assignment → Action Store (Unit {0})
take_from req assignment =
    (if req.quantity == assignment.quantity
      then annotate "failed to delete current assignment: " (delete_assignment_row assignment.id)
      else annotate "failed to reduce current assignment quantity: " (
          update_assignment_row assignment.id
            (λ a. record a { quantity = a.quantity - req.quantity })))
    >>= λ done. pure tt

unfoldable pub reassign : UpdateAssignmentRequest → Assignment → Bool → ℕ → Action Store (Unit {0})
reassign req assignment is_shared to_employee_id = do
  check (not (ltb assignment.quantity req.quantity)) "quantity exceeds assigned amount"
  take_from req assignment
  unless_shared is_shared "failed to restore equipment quantity: "
      (update_equipment_row req.equipment_id (add_remaining req.quantity))
  give_to req to_employee_id
  unless_shared is_shared "failed to consume equipment quantity: "
      (update_equipment_row req.equipment_id (take_remaining req.quantity))

-- The change of the pool for a new quantity.
unfoldable pub resize_pool : UpdateAssignmentRequest → ℕ → Action Store (Unit {0})
resize_pool req current_qty =
    if ltb current_qty req.quantity
    then (do
      item ← annotate "equipment not found: " (get_equipment req.equipment_id)
      check (not (ltb item.remaining_quantity (req.quantity - current_qty)))
          "not enough quantity available"
      annotate "failed to reduce equipment quantity: "
            (update_equipment_row req.equipment_id (take_remaining (req.quantity - current_qty)))
          >>= λ updated. pure tt)
    else if ltb req.quantity current_qty
    then (annotate "failed to increase equipment quantity: "
          (update_equipment_row req.equipment_id (add_remaining (current_qty - req.quantity)))
        >>= λ updated. pure tt)
    else pure tt

unfoldable pub resize : UpdateAssignmentRequest → Assignment → Bool → Action Store (Unit {0})
resize req assignment is_shared = do
  if is_shared then pure tt else resize_pool req assignment.quantity
  updated ←
      annotate "failed to update assignment quantity: "
        (update_assignment_row assignment.id (λ a. record a { quantity = req.quantity }))
  check updated "assignment not found"

unfoldable pub update_assignment : UpdateAssignmentRequest → Action Store (Unit {0})
update_assignment req = do
  assignment ←
      annotate "assignment not found: " (get_assignment req.equipment_id req.from_employee_id)
  item ← annotate "equipment not found: " (get_equipment req.equipment_id)
  elim req.to_employee_id [
    | some to_employee_id ↦ reassign req assignment item.is_shared to_employee_id
    | none ↦ resize req assignment item.is_shared
  ]
