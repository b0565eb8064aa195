-- ===== src/Accounts/Fetched.antt =====
-- The row that an adjustment starts from.
use mathlib.Core.Path.{subst}
use leave_management_system.Prelude.{
  ℕ, ◌≡◌, refl, sym, ◌∙◌, ap, ◌⊎◌, inl, inr, Bool, true, false, not, List, ◌∷◌, Option, none, some,
  ◌==◌, find, keep, arith, Bool-cases,
}
use leave_management_system.Prelude.Int.{ℤ}
use leave_management_system.Models.Role.{Role}
use leave_management_system.Models.Leave.{LeaveType, Balance}
use leave_management_system.Database.{World, plain, pure, or_fail, select, statement, wrap, ◌>>=◌}
use leave_management_system.Database.Outcomes.{
  After, statement-After, select-After, wrap-After, or_fail-After, >>=-After,
}
use leave_management_system.Tables.{is_row}
use leave_management_system.Accounts.Store.{
  Store, Employee, new_balance, has_row, insert_row, refuse_duplicate, create_leave_balance,
  get_leave_balance_for_adjustment, get_employee,
}
use leave_management_system.Accounts.Entitlement.{entitlement_of, half_days}
use leave_management_system.Accounts.Adjustment.{
  get_default_entitlement_by_leave_type_id, get_role_of, open_row, or_created, fetch_or_create,
}

module _ (e t y : ℕ) where
  -- The row that is there, or a new one with the entitlement of the employee's role.
  abbrev pub IsStart : Store → Balance → Type 0
  IsStart s b =
      (find (is_row e t y) s.balances ≡ some b)
      ⊎ ((emp : Employee) × ((lt : LeaveType) × ((find (λ x. x.id == e) s.employees ≡ some emp)
              × (find (λ x. x.id == t) s.leave_types ≡ some lt)
              × (b ≡ new_balance e t y (half_days (entitlement_of lt emp.role))))))

  abbrev pub other_rows : Store → List Balance
  other_rows s = keep (λ b. not (is_row e t y b)) s.balances

  -- The row is there, and nothing else has changed.
  abbrev pub IsFound : Store → Balance → Store → Type 0
  IsFound before b s =
      IsStart before b
      × (find (is_row e t y) s.balances ≡ some b)
      × (other_rows s ≡ other_rows before)
      × (s.adjustments ≡ before.adjustments)

  own_row : (o : ℤ) → is_row e t y (new_balance e t y o) ≡ true
  own_row o = ground arith

  abbrev created : ℤ → Store → Store
  created o s = record s { balances = new_balance e t y o ∷ s.balances }

  create-After :
      (o : ℤ) (w : World Store) → After (λ _ s. s ≡ created o w.db) (create_leave_balance e t y o w)
  unfolding create_leave_balance
  create-After o w =
      >>=-After (λ d s. (d ≡ true) ⊎ (s ≡ created o w.db)) (λ _ s. s ≡ created o w.db)
        (statement (λ s. (has_row e t y s.balances, insert_row e t y o s))) refuse_duplicate w
        (statement-After (λ d s. (d ≡ true) ⊎ (s ≡ created o w.db))
          (λ s. (has_row e t y s.balances, insert_row e t y o s)) w
          (elim (Bool-cases (has_row e t y w.db.balances)) [
            | inl h ↦ inl h
            | inr h ↦ inr (rw h refl)
          ]))
        stop
    where
      stop :
          (d : Bool) (w' : World Store)
          → (d ≡ true) ⊎ (w'.db ≡ created o w.db)
          → After (λ _ s. s ≡ created o w.db) (refuse_duplicate d w')
      stop true w' h = tt
      stop false w' (inl h) = ground arith
      stop false w' (inr h) = h

  role_of-After :
      (before : Store) (w : World Store)
      → w.db ≡ before
      → After
          (λ role s.
            ((emp : Employee) × ((find (λ x. x.id == e) before.employees ≡ some emp)
                × (role ≡ emp.role)))
            × (s ≡ before))
          (get_role_of e w)
  unfolding get_role_of get_employee
  role_of-After before w same =
      let Read : Option Employee → Store → Type 0 =
        λ row s. (row ≡ find (λ x. x.id == e) before.employees) × (s ≡ before) in
      let Given : Role → Store → Type 0 = λ role s.
        ((emp : Employee) × ((find (λ x. x.id == e) before.employees ≡ some emp)
            × (role ≡ emp.role)))
        × (s ≡ before) in
      >>=-After Read Given (select (λ s. find (λ x. x.id == e) s.employees))
        (λ row. or_fail row (plain "sql: no rows in result set") >>= λ x. pure x.role) w
        (select-After Read (λ s. find (λ x. x.id == e) s.employees) w
          (ap (λ s. find (λ x. x.id == e) s.employees) same, same))
        (λ row w' h.
          >>=-After (λ x s. (row ≡ some x) × (s ≡ before)) Given
            (or_fail row (plain "sql: no rows in result set")) (λ x. pure x.role) w'
            (or_fail-After (λ x s. (row ≡ some x) × (s ≡ before)) row
              (plain "sql: no rows in result set") w' (λ x found. (found, h.1)))
            (λ x w'' k. ((x, (sym h.0 ∙ k.0, refl)), k.1)))

  default-After :
      (role : Role) (before : Store) (w : World Store)
      → w.db ≡ before
      → After
          (λ n s.
            ((lt : LeaveType) × ((find (λ x. x.id == t) before.leave_types ≡ some lt)
                × (n ≡ entitlement_of lt role)))
            × (s ≡ before))
          (get_default_entitlement_by_leave_type_id t role w)
  unfolding get_default_entitlement_by_leave_type_id
  default-After role before w same =
      let Read : Option LeaveType → Store → Type 0 =
        λ row s. (row ≡ find (λ x. x.id == t) before.leave_types) × (s ≡ before) in
      let Given : ℕ → Store → Type 0 = λ n s.
        ((lt : LeaveType) × ((find (λ x. x.id == t) before.leave_types ≡ some lt)
            × (n ≡ entitlement_of lt role)))
        × (s ≡ before) in
      >>=-After Read Given (select (λ s. find (λ x. x.id == t) s.leave_types))
        (λ row.
          or_fail row (plain "sql: no rows in result set") >>= λ lt. pure (entitlement_of lt role))
        w
        (select-After Read (λ s. find (λ x. x.id == t) s.leave_types) w
          (ap (λ s. find (λ x. x.id == t) s.leave_types) same, same))
        (λ row w' h.
          >>=-After (λ x s. (row ≡ some x) × (s ≡ before)) Given
            (or_fail row (plain "sql: no rows in result set")) (λ lt. pure (entitlement_of lt role))
            w'
            (or_fail-After (λ x s. (row ≡ some x) × (s ≡ before)) row
              (plain "sql: no rows in result set") w' (λ x found. (found, h.1)))
            (λ x w'' k. ((x, (sym h.0 ∙ k.0, refl)), k.1)))

  new_row :
      (o : ℤ) (before : Store)
      → (find (is_row e t y) (created o before).balances ≡ some (new_balance e t y o))
        × (other_rows (created o before) ≡ other_rows before)
  new_row o before = let own = own_row o in grind (arith, own)

  created-IsFound :
      (before : Store) (emp : Employee) (lt : LeaveType)
      → find (λ x. x.id == e) before.employees ≡ some emp
      → find (λ x. x.id == t) before.leave_types ≡ some lt
      → IsFound before
          (new_balance e t y (half_days (entitlement_of lt emp.role)))
          (created (half_days (entitlement_of lt emp.role)) before)
  created-IsFound before emp lt he ht =
      let new = new_row (half_days (entitlement_of lt emp.role)) before in
      (inr (emp, (lt, (he, ht, refl))), new.0, new.1, refl)

  open_row-After :
      (before : Store) (emp : Employee) (role : Role) (lt : LeaveType) (n : ℕ) (w : World Store)
      → find (λ x. x.id == e) before.employees ≡ some emp
      → role ≡ emp.role
      → find (λ x. x.id == t) before.leave_types ≡ some lt
      → n ≡ entitlement_of lt role
      → w.db ≡ before
      → After (IsFound before) (open_row e t y n w)
  unfolding open_row
  open_row-After before emp role lt n w he hr ht hn same =
      let days : n ≡ entitlement_of lt emp.role = hn ∙ ap (entitlement_of lt) hr in
      >>=-After (λ _ s. s ≡ created (half_days n) w.db) (IsFound before)
        (wrap 500 "Failed to create leave balance: " (create_leave_balance e t y (half_days n)))
        (λ _. pure (new_balance e t y (half_days n))) w
        (wrap-After (λ _ s. s ≡ created (half_days n) w.db) 500 "Failed to create leave balance: "
          (create_leave_balance e t y (half_days n)) w (create-After (half_days n) w))
        (λ _ w' h.
          subst (λ s. IsFound before (new_balance e t y (half_days n)) s)
            (sym (h ∙ ap (created (half_days n)) same))
            (subst
              (λ k. IsFound before (new_balance e t y (half_days k)) (created (half_days k) before))
              (sym days) (created-IsFound before emp lt he ht)))

  or_created-After :
      (before : Store) (row : Option Balance) (w : World Store)
      → row ≡ find (is_row e t y) before.balances
      → w.db ≡ before
      → After (IsFound before) (or_created e t y row w)
  unfolding or_created
  or_created-After before (some b) w found same =
      subst (λ s. IsFound before b s) (sym same) (inl (sym found), sym found, refl, refl)
  or_created-After before none w found same =
      let IsRole : Role → Store → Type 0 = λ role s.
        ((emp : Employee) × ((find (λ x. x.id == e) before.employees ≡ some emp)
            × (role ≡ emp.role)))
        × (s ≡ before) in
      let IsDefault : Role → ℕ → Store → Type 0 = λ role n s.
        ((lt : LeaveType) × ((find (λ x. x.id == t) before.leave_types ≡ some lt)
            × (n ≡ entitlement_of lt role)))
        × (s ≡ before) in
      >>=-After IsRole (IsFound before) (wrap 500 "Failed to fetch employee role: " (get_role_of e))
        (λ role.
          wrap 500 "Failed to fetch leave type: " (get_default_entitlement_by_leave_type_id t role)
          >>= open_row e t y)
        w
        (wrap-After IsRole 500 "Failed to fetch employee role: " (get_role_of e) w
          (role_of-After before w same))
        (λ role w' h.
          >>=-After (IsDefault role) (IsFound before)
            (wrap 500 "Failed to fetch leave type: "
              (get_default_entitlement_by_leave_type_id t role))
            (open_row e t y) w'
            (wrap-After (IsDefault role) 500 "Failed to fetch leave type: "
              (get_default_entitlement_by_leave_type_id t role) w'
              (default-After role before w' h.1))
            (λ n w'' k.
              open_row-After before h.0.0 role k.0.0 n w'' h.0.1.0 h.0.1.1 k.0.1.0 k.0.1.1 k.1))

  pub fetch_or_create-After : (w : World Store) → After (IsFound w.db) (fetch_or_create e t y w)
  unfolding fetch_or_create get_leave_balance_for_adjustment
  fetch_or_create-After w =
      let Read : Option Balance → Store → Type 0 =
        λ row s. (row ≡ find (is_row e t y) w.db.balances) × (s ≡ w.db) in
      >>=-After Read (IsFound w.db)
        (wrap 500 "Failed to fetch leave balance: " (get_leave_balance_for_adjustment e t y))
        (or_created e t y) w
        (wrap-After Read 500 "Failed to fetch leave balance: "
          (get_leave_balance_for_adjustment e t y) w
          (select-After Read (λ s. find (is_row e t y) s.balances) w (refl, refl)))
        (λ row w' h. or_created-After w.db row w' h.0 h.1)
