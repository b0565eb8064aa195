-- ===== src/Accounts/Accruing.antt =====
-- What the monthly accrual keeps, whichever statements fail.
use leave_management_system.Prelude.{
  ℕ, ◌≡◌, refl, inl, inr, Bool, true, false, List, [], ◌∷◌, Option-cases, some, find, any, update,
  arith, Bool-cases, if◌then◌else◌,
}
use leave_management_system.Prelude.Int.{pos}
use leave_management_system.Models.Leave.{LeaveType, Balance}
use leave_management_system.Database.{
  Result, ok, err, panic, World, exec, next_fault, later_faults, ◌>>◌,
}
use leave_management_system.Database.Laws.{Keeps, >>=-Keeps}
use leave_management_system.Database.Endings.{exec-Keeps, select-Keeps}
use leave_management_system.Tables.{is_row}
use leave_management_system.Process.Balances.{update-All}
use leave_management_system.Accounts.Store.{Store, Employee, has_row, insert_row, new_balance}
use leave_management_system.Accounts.Accrual.{
  get_accruable_leave_types, get_all_active_employees_for_accrual, is_accrual_already_run,
  is_credited, accrue, log_credit, credit_monthly_accrual, accrual_rate, commit_credit,
  after_credit, after_check, credit_pair, credit_types, credit_employees, after_employees,
  after_types, run_accrual,
}
use leave_management_system.Accounts.Books.{InBalance, insert_row-InBalance}

abbrev accrue_rows : ℕ → ℕ → ℕ → ℕ → Store → Store
accrue_rows e t y days s = record s { balances = update (is_row e t y) (accrue days) s.balances }

module _ (P : Store → Type 0)
    (inserts : (e t y : ℕ) (s : Store) → P s → P (insert_row e t y (pos 0) s))
    (accrues : (e t y days : ℕ) (s : Store) → P s → P (accrue_rows e t y days s))
    (logs : (e t m y days : ℕ) (s : Store) → P s → P (log_credit e t m y days s)) where
  credit-Keeps : (e t y m days : ℕ) → Keeps P (credit_monthly_accrual e t y m days)
  unfolding credit_monthly_accrual
  credit-Keeps e t y m days =
      >>=-Keeps P (exec (insert_row e t y (pos 0)))
        (λ _. exec (accrue_rows e t y days) >> exec (log_credit e t m y days))
        (exec-Keeps P (insert_row e t y (pos 0)) (inserts e t y))
        (λ _.
          >>=-Keeps P (exec (accrue_rows e t y days)) (λ _. exec (log_credit e t m y days))
            (exec-Keeps P (accrue_rows e t y days) (accrues e t y days))
            (λ _. exec-Keeps P (log_credit e t m y days) (logs e t m y days)))

  credited-Keeps :
      (before : Store) (r : Result (Unit {0})) (w : World Store)
      → P before
      → P w.db
      → P (after_credit before r w).1.db
  credited-Keeps before (ok t) w hb hw = elim (Option-cases (next_fault w.faults)) [
    | inl e ↦ rw (e, commit_credit) hw
    | inr (m, e) ↦ rw (e, commit_credit) hb
  ]
  credited-Keeps before (err e) w hb hw = hb
  credited-Keeps before panic w hb hw = hb

  module _ (month year : ℕ) where
    checked-Keeps :
        (emp : Employee) (lt : LeaveType) (before : Store) (r : Result Bool) (w : World Store)
        → P before
        → P w.db
        → P (after_check month year emp lt before r w).1.db
    checked-Keeps emp lt before (ok true) w hb hw = hb
    checked-Keeps emp lt before (ok false) w hb hw =
        credited-Keeps before _ _ hb
          (credit-Keeps emp.id lt.id year month (accrual_rate emp.role) w hw)
    checked-Keeps emp lt before (err e) w hb hw = hb
    checked-Keeps emp lt before panic w hb hw = hb

    pair-Keeps :
        (emp : Employee) (lt : LeaveType) (w : World Store)
        → P w.db
        → P (credit_pair month year emp lt w).1.db
    unfolding credit_pair is_accrual_already_run
    pair-Keeps emp lt w h = elim (Option-cases (next_fault w.faults)) [
      | inr (m, e) ↦ rw (e, credit_pair) h
      | inl e ↦
          let begun = record w { faults = later_faults w.faults } in
          rw (e, credit_pair)
            (checked-Keeps emp lt w.db _ _ h
              (select-Keeps P (is_credited emp.id lt.id month year) begun h))
    ]

    types-Keeps :
        (emp : Employee) (leave_types : List LeaveType) (w : World Store)
        → P w.db
        → P (credit_types month year emp leave_types w).1.db
    unfolding credit_types
    types-Keeps emp [] w h = h
    types-Keeps emp (lt ∷ leave_types) w h =
        types-Keeps emp leave_types (credit_pair month year emp lt w).1 (pair-Keeps emp lt w h)

    employees-Keeps :
        (employees : List Employee) (leave_types : List LeaveType) (w : World Store)
        → P w.db
        → P (credit_employees month year employees leave_types w).1.db
    unfolding credit_employees
    employees-Keeps [] leave_types w h = h
    employees-Keeps (emp ∷ employees) leave_types w h =
        employees-Keeps employees leave_types (credit_types month year emp leave_types w).1
          (types-Keeps emp leave_types w h)

    found-Keeps :
        (leave_types : List LeaveType) (r : Result (List Employee)) (w : World Store)
        → P w.db
        → P (after_employees month year leave_types r w).1.db
    found-Keeps leave_types (ok employees) w h = employees-Keeps employees leave_types w h
    found-Keeps leave_types (err e) w h = h
    found-Keeps leave_types panic w h = h

    after_types-Keeps :
        (r : Result (List LeaveType)) (w : World Store)
        → P w.db
        → P (after_types month year r w).1.db
    unfolding get_all_active_employees_for_accrual
    after_types-Keeps (ok []) w h = h
    after_types-Keeps (ok (lt ∷ leave_types)) w h =
        found-Keeps (lt ∷ leave_types) _ _ (select-Keeps P _ w h)
    after_types-Keeps (err e) w h = h
    after_types-Keeps panic w h = h

    run-Keeps : (w : World Store) → P w.db → P (run_accrual month year w).1.db
    unfolding run_accrual get_accruable_leave_types
    run-Keeps w h = after_types-Keeps _ _ (select-Keeps P _ w h)

pub run_accrual-InBalance :
    (month year : ℕ) (w : World Store) → InBalance w.db → InBalance (run_accrual month year w).1.db
run_accrual-InBalance month year =
    run-Keeps InBalance (λ e t y s h. insert_row-InBalance e t y (pos 0) s h)
      (λ e t y days s h. update-All _ (is_row e t y) (accrue days) (λ b k. k) s.balances h)
      (λ e t m y days s h. elim (Bool-cases (is_credited e t m y s)) [
        | inl p ↦ rw p h
        | inr p ↦ rw p h
      ])
      month year

find-any : {A : Type 0} (p : A → Bool) (xs : List A) (x : A) → find p xs ≡ some x → any p xs ≡ true
find-any p [] x e = ground arith
find-any p (y ∷ ys) x e = ground (arith, find-any p ys x)

-- A row that is found stays the one that is found, changed where the update means it.
find-update_other :
    {A : Type 0} (p q : A → Bool) (f : A → A)
    → ((x : A) → p (f x) ≡ p x)
    → (xs : List A) (x : A) → find p xs ≡ some x
    → find p (update q f xs) ≡ some (if q x then f x else x)
find-update_other p q f same [] x h = ground arith
find-update_other p q f same (z ∷ zs) x h = elim (Bool-cases (p z)) [
  | inl e ↦ grind (arith, same z)
  | inr e ↦ grind (arith, same z, find-update_other p q f same zs x (rw e at h))
]

module _ (e t y : ℕ) (b : Balance) where
  -- The row of the employee, the type and the year is there and differs from `b` at most in what is
  -- accrued.
  abbrev pub IsUnspent : Store → Type 0
  IsUnspent s =
      (c : Balance) × ((find (is_row e t y) s.balances ≡ some c)
        × (record c { accrued = b.accrued } ≡ b))

  insert_row-IsUnspent :
      (e' t' y' : ℕ) (s : Store) → IsUnspent s → IsUnspent (insert_row e' t' y' (pos 0) s)
  insert_row-IsUnspent e' t' y' s (c, h) = elim (Bool-cases (has_row e' t' y' s.balances)) [
    | inl p ↦ rw p (c, h)
    | inr p ↦ rw p (
      c,
      (
        elim (Bool-cases (is_row e t y (new_balance e' t' y' (pos 0)))) [
          | inr other ↦ rw other h.0
          | inl own ↦ elim (clash own p (find-any (is_row e t y) s.balances c h.0)) [ ]
        ],
        h.1,
      ),
    )
  ]
    where
      clash :
          is_row e t y (new_balance e' t' y' (pos 0)) ≡ true
          → has_row e' t' y' s.balances ≡ false
          → has_row e t y s.balances ≡ true
          → ⊥
      clash own absent there =
          let ids : (e' ≡ e) × (t' ≡ t) × (y' ≡ y) = ground arith in
          ground (arith, rw (ids.0, ids.1, ids.2) at absent)

  accrue_rows-IsUnspent :
      (e' t' y' days : ℕ) (s : Store) → IsUnspent s → IsUnspent (accrue_rows e' t' y' days s)
  accrue_rows-IsUnspent e' t' y' days s (c, h) = (
    (if is_row e' t' y' c then accrue days c else c),
    (
      find-update_other (is_row e t y) (is_row e' t' y') (accrue days) (λ _. refl) s.balances c h.0,
      elim (Bool-cases (is_row e' t' y' c)) [ inl p ↦ rw p h.1 | inr p ↦ rw p h.1 ],
    ),
  )

  -- Whichever statements fail, and however often the month was credited, the monthly accrual
  -- changes nothing of a balance row that is there but what is accrued: neither what is open nor
  -- the closing balance, against which leaves are checked.
  pub run_accrual-IsUnspent :
      (month year : ℕ) (w : World Store)
      → find (is_row e t y) w.db.balances ≡ some b
      → IsUnspent (run_accrual month year w).1.db
  run_accrual-IsUnspent month year w h =
      run-Keeps IsUnspent insert_row-IsUnspent accrue_rows-IsUnspent
        (λ e' t' m y' days s k. elim (Bool-cases (is_credited e' t' m y' s)) [
          | inl p ↦ rw p k
          | inr p ↦ rw p k
        ])
        month year w (b, (h, refl))
