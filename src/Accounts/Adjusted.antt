-- ===== src/Accounts/Adjusted.antt =====
-- What an adjustment of a balance does when it succeeds.
use leave_management_system.Prelude.{
  ℕ, ◌≡◌, refl, ◌⊎◌, inl, inr, false, not, ◌&&◌, [], ◌∷◌, some, String, find, update,
}
use leave_management_system.Prelude.Int.{ℤ, ◌+ℤ◌, ◌-ℤ◌}
use leave_management_system.Models.Role.{Role, role_eq}
use leave_management_system.Models.Leave.{Balance}
use leave_management_system.Database.{ok, select, exec, statement, in_transaction}
use leave_management_system.Tables.{is_row}
use leave_management_system.Accounts.Store.{
  Store, Adjustment, readjust, get_leave_balance_for_adjustment, update_leave_balance_adjustment,
  insert_leave_adjustment,
}
use leave_management_system.Accounts.Adjustment.{
  or_created, fetch_or_create, apply_adjustment, adjust_leave_balance,
}
use leave_management_system.Accounts.Fetched.{IsStart, other_rows}

module _ (e t y : ℕ) where
  module _ (quantity : ℤ) (reason : String) (user_id : ℕ) where
    -- The adjusted row: the quantity is added to what was adjusted, and closing is opening less
    -- used and with all that is adjusted.
    abbrev pub adjusted_row : Balance → Balance
    adjusted_row b =
        readjust (b.adjusted +ℤ quantity) (b.opening -ℤ b.used +ℤ (b.adjusted +ℤ quantity)) b

    abbrev pub entry : Adjustment
    entry = record {
      employee_id = e;
      leave_type_id = t;
      quantity = quantity;
      reason = reason;
      created_by = user_id;
      year = y;
    }

    abbrev pub IsAdjusted : Store → ℤ × ℤ → Store → Type 0
    IsAdjusted before answer s =
        (b : Balance) × (IsStart e t y before b
          × (find (is_row e t y) s.balances ≡ some (adjusted_row b))
          × (other_rows e t y s ≡ other_rows e t y before)
          × (s.adjustments ≡ entry ∷ before.adjustments)
          × (answer ≡ ((adjusted_row b).adjusted, (adjusted_row b).closing)))

    abbrev new_adjusted : Balance → ℤ
    new_adjusted b = b.adjusted +ℤ quantity

    abbrev new_closing : Balance → ℤ
    new_closing b = b.opening -ℤ b.used +ℤ (b.adjusted +ℤ quantity)

    -- The statement looks for the row by the fields of the row that was read.
    abbrev written : Balance → Store → Store
    written b s = record s {
      balances =
          update (is_row b.employee_id b.leave_type_id b.year)
            (readjust (new_adjusted b) (new_closing b)) s.balances;
    }

    abbrev IsWritten : Store → Balance → Store → Type 0
    IsWritten before b s =
        IsStart e t y before b
        × (find (is_row e t y) s.balances ≡ some (adjusted_row b))
        × (other_rows e t y s ≡ other_rows e t y before)
        × (s.adjustments ≡ before.adjustments)

    allowed :
        (role : Role)
        → (role ≡ Role.admin) ⊎ (role ≡ Role.super_admin)
        → not (role_eq role Role.admin) && not (role_eq role Role.super_admin) ≡ false
    allowed role (inl h) = rw h refl
    allowed role (inr h) = rw h refl

    -- Where the row is there and no statement fails, ADMIN and SUPERADMIN succeed.
    adjust_leave_balance_succeeds :
        (role : Role) (s : Store) (b : Balance)
        → (role ≡ Role.admin) ⊎ (role ≡ Role.super_admin)
        → find (is_row e t y) s.balances ≡ some b
        → (adjust_leave_balance role e t quantity reason user_id y
            (record { db = s; faults = [] })).0
          ≡ ok ((adjusted_row b).adjusted, (adjusted_row b).closing)
    unfolding adjust_leave_balance in_transaction fetch_or_create get_leave_balance_for_adjustment
        or_created apply_adjustment update_leave_balance_adjustment insert_leave_adjustment select
        exec statement
    adjust_leave_balance_succeeds role s b h found = rw (allowed role h, found) refl
