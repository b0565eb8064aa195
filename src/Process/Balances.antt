-- ===== src/Process/Balances.antt =====
-- What the processors do to the leave balances.
use leave_management_system.Prelude.{
  ℕ, ◌≡◌, ◌∙◌, refl, inl, inr, Bool, true, List, [], ◌∷◌, some, arith, Bool-cases, All, update,
}
use leave_management_system.Prelude.Int.{ℤ, pos, ◌+ℤ◌, ◌-ℤ◌, int_laws}
use leave_management_system.Models.Leave.{LeaveFlowStage, Balance}
use leave_management_system.Database.{World, exec, statement}
use leave_management_system.Tables.{
  Tables, Calendar, current_year, is_row, use_days, return_days, update_approval_log,
  update_leave_status_tx, update_leave_balance_by_employee_id,
  update_withdraw_leave_balance_by_employee_id,
}
use leave_management_system.Process.Defs.{
  LeaveActionContext, find_stage, all_stages_settled, approved_log, all_stages_settled_for_withdraw,
  withdrawn_log, finalise_approval, approve_process, reject_process, finalise_withdrawal,
  withdraw_process,
}

-- The closing balance is the opening balance less what was used, and what was adjusted.
abbrev pub IsBalanced : Balance → Type 0
IsBalanced b = b.closing +ℤ b.used ≡ b.opening +ℤ b.adjusted

abbrev pub AllBalanced : Tables → Type 0
AllBalanced s = All IsBalanced s.balances

pub update-All :
    (P : Balance → Type 0) (p : Balance → Bool) (f : Balance → Balance)
    → ((b : Balance) → P b → P (f b))
    → (bs : List Balance) → All P bs
    → All P (update p f bs)
update-All P p f keeps [] h = tt
update-All P p f keeps (b ∷ bs) h = elim (Bool-cases (p b)) [
  | inl e ↦ rw e (keeps b h.0, update-All P p f keeps bs h.1)
  | inr e ↦ rw e (h.0, update-All P p f keeps bs h.1)
]

move_out : (a b c : ℤ) → a -ℤ c +ℤ (b +ℤ c) ≡ a +ℤ b
move_out a b c = omega int_laws

move_in : (a b c : ℤ) → a +ℤ c +ℤ (b -ℤ c) ≡ a +ℤ b
move_in a b c = omega int_laws

use_days-IsBalanced : (days : ℕ) (b : Balance) → IsBalanced b → IsBalanced (use_days days b)
use_days-IsBalanced days b h = move_out b.closing b.used (pos days) ∙ h

return_days-IsBalanced : (days : ℕ) (b : Balance) → IsBalanced b → IsBalanced (return_days days b)
return_days-IsBalanced days b h = move_in b.closing b.used (pos days) ∙ h

sub-add : (a c : ℤ) → a -ℤ c +ℤ c ≡ a
sub-add a c = omega int_laws

add-sub : (a c : ℤ) → a +ℤ c -ℤ c ≡ a
add-sub a c = omega int_laws

return-use : (days : ℕ) (b : Balance) → return_days days (use_days days b) ≡ b
return-use days b = ground (arith, sub-add b.closing (pos days), add-sub b.used (pos days))

module _ (ctx : LeaveActionContext) (cal : Calendar) where
  abbrev row : Balance → Bool
  row = is_row ctx.leave.employee_id ctx.leave.leave_type_id (current_year cal)

  pub approve_process-Balanced :
      (w : World Tables) → AllBalanced w.db → AllBalanced (approve_process ctx cal w).1.db
  unfolding approve_process finalise_approval update_approval_log update_leave_status_tx
      update_leave_balance_by_employee_id exec statement
  approve_process-Balanced w h = ground (
    arith,
    update-All IsBalanced row (use_days ctx.leave.days) (use_days-IsBalanced ctx.leave.days)
        w.db.balances h,
  )

  pub reject_process-Balanced :
      (w : World Tables) → AllBalanced w.db → AllBalanced (reject_process ctx w).1.db
  unfolding reject_process update_approval_log update_leave_status_tx exec statement
  reject_process-Balanced w h = ground arith

  pub withdraw_process-Balanced :
      (w : World Tables) → AllBalanced w.db → AllBalanced (withdraw_process ctx cal w).1.db
  unfolding withdraw_process finalise_withdrawal update_approval_log update_leave_status_tx
      update_withdraw_leave_balance_by_employee_id exec statement
  withdraw_process-Balanced w h = ground (
    arith,
    update-All IsBalanced row (return_days ctx.leave.days) (return_days-IsBalanced ctx.leave.days)
        w.db.balances h,
  )

update-return-use :
    (e t y days : ℕ) (bs : List Balance)
    → update (is_row e t y) (return_days days) (update (is_row e t y) (use_days days) bs) ≡ bs
update-return-use e t y days [] = refl
update-return-use e t y days (b ∷ bs) = elim (Bool-cases (is_row e t y b)) [
  | inl p ↦ ground (arith, return-use days b, update-return-use e t y days bs)
  | inr p ↦ ground (arith, update-return-use e t y days bs)
]

module _ (cal : Calendar) (a b : LeaveActionContext) where
  -- An approval that settles the last stage, followed by a withdrawal that settles the last stage
  -- of the same leave, brings every balance back to what it was, if no statement fails and both
  -- are processed in one year.
  pub withdraw-approve_balances :
      (w : World Tables) {i j : ℕ} {s t : LeaveFlowStage}
      → w.faults ≡ []
      → b.leave.employee_id ≡ a.leave.employee_id
      → b.leave.leave_type_id ≡ a.leave.leave_type_id
      → b.leave.days ≡ a.leave.days
      → b.leave_type ≡ a.leave_type
      → find_stage a.flow.approval_log a.role ≡ some (i, s)
      → all_stages_settled (approved_log a i s) ≡ true
      → find_stage b.flow.approval_log b.role ≡ some (j, t)
      → all_stages_settled_for_withdraw (withdrawn_log b j t) ≡ true
      → (withdraw_process b cal (approve_process a cal w).1).1.db.balances ≡ w.db.balances
  unfolding approve_process finalise_approval withdraw_process finalise_withdrawal
      update_approval_log update_leave_status_tx update_leave_balance_by_employee_id
      update_withdraw_leave_balance_by_employee_id exec statement
  withdraw-approve_balances w f e t d l pa sa pb sb = ground (
    arith,
    update-return-use a.leave.employee_id a.leave.leave_type_id (current_year cal) a.leave.days
        w.db.balances,
  )
