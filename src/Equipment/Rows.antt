-- ===== src/Equipment/Rows.antt =====
-- Rows of the two tables after an update, an insert or a delete.
use mathlib.Core.Path.{subst}
use leave_management_system.Prelude.{
  ℕ, ◌+◌, ◌≡◌, ◌⊎◌, refl, inl, inr, true, false, not, List, [], ◌∷◌, Option, none, some, arith,
  Bool-cases, ◌==◌, find, keep, update, sum_by, All, if◌then◌else◌,
}
use leave_management_system.Equipment.Defs.{Equipment, Assignment, Store, is_item, is_assigned}

-- What employees hold of an item.
abbrev pub quantity_of : ℕ → Assignment → ℕ
quantity_of id a = if a.equipment_id == id then a.quantity else 0

abbrev pub held : ℕ → List Assignment → ℕ
held id assignments = sum_by (quantity_of id) assignments

-- Of equipment that is not shared, what is in the pool and what employees hold is all there is.
abbrev pub IsConserved : ℕ → Option Equipment → Type 0
IsConserved assigned none = Unit
IsConserved assigned (some e) =
    (e.is_shared ≡ true) ⊎ (e.remaining_quantity + assigned ≡ e.total_quantity)

abbrev pub Conserved : ℕ → Store → Type 0
Conserved id s = IsConserved (held id s.assignments) (find (is_item id) s.equipment)

abbrev pub apply_to : (Equipment → Equipment) → Option Equipment → Option Equipment
apply_to f none = none
apply_to f (some e) = some (f e)

module _ (f : Equipment → Equipment) (keeps : (e : Equipment) → (f e).id ≡ e.id) where
  pub find-update :
      (id : ℕ) (es : List Equipment)
      → find (is_item id) (update (is_item id) f es) ≡ apply_to f (find (is_item id) es)
  find-update id [] = refl
  find-update id (e ∷ es) = grind (arith, keeps e, find-update id es)

  pub find-update_other :
      (id other : ℕ) (es : List Equipment)
      → (id == other) ≡ false
      → find (is_item other) (update (is_item id) f es) ≡ find (is_item other) es
  find-update_other id other [] h = refl
  find-update_other id other (e ∷ es) h = grind (arith, keeps e, find-update_other id other es h)

-- Assignments have different ids, all of them used before.
abbrev pub NoId : ℕ → List Assignment → Type 0
NoId id assignments = All (λ a. (a.id == id) ≡ false) assignments

abbrev pub DistinctIds : List Assignment → Type 0
DistinctIds [] = Unit
DistinctIds (a ∷ assignments) = NoId a.id assignments × DistinctIds assignments

keep-NoId :
    (id item : ℕ) (assignments : List Assignment)
    → NoId id assignments
    → held item (keep (λ a. not (a.id == id)) assignments) ≡ held item assignments
keep-NoId id item [] h = refl
keep-NoId id item (a ∷ assignments) h = ground (arith, keep-NoId id item assignments h.1)

pub find-assigned :
    (equipment_id employee_id : ℕ) (assignments : List Assignment) (found : Assignment)
    → find (is_assigned equipment_id employee_id) assignments ≡ some found
    → found.equipment_id ≡ equipment_id
find-assigned equipment_id employee_id [] found e = cc
find-assigned equipment_id employee_id (a ∷ assignments) found e =
    elim (Bool-cases (is_assigned equipment_id employee_id a)) [
      | inl p ↦ ground arith
      | inr p ↦ find-assigned equipment_id employee_id assignments found (rw p at e)
    ]

NoId-find :
    (equipment_id employee_id id : ℕ) (assignments : List Assignment) (found : Assignment)
    → NoId id assignments
    → find (is_assigned equipment_id employee_id) assignments ≡ some found
    → (found.id == id) ≡ false
NoId-find equipment_id employee_id id [] found d e = cc
NoId-find equipment_id employee_id id (a ∷ assignments) found d e =
    elim (Bool-cases (is_assigned equipment_id employee_id a)) [
      | inl p ↦ ground (arith, d.0)
      | inr p ↦ NoId-find equipment_id employee_id id assignments found d.1 (rw p at e)
    ]

some_inj : {x y : Assignment} → ◌≡◌ {A = Option Assignment} (some x) (some y) → x ≡ y
some_inj e = cc

delete-head :
    (item : ℕ) (a found : Assignment) (assignments : List Assignment)
    → NoId a.id assignments
    → a ≡ found
    → held item (keep (λ b. not (b.id == found.id)) (a ∷ assignments)) + quantity_of item found
      ≡ held item (a ∷ assignments)
delete-head item a found assignments d e =
    subst
      (λ f.
        held item (keep (λ b. not (b.id == f.id)) (a ∷ assignments)) + quantity_of item f
        ≡ held item (a ∷ assignments))
      e (ground (arith, keep-NoId a.id item assignments d))

-- Deleting the assignment that was found takes its quantity away.
pub held-delete :
    (equipment_id employee_id item : ℕ) (assignments : List Assignment) (found : Assignment)
    → DistinctIds assignments
    → find (is_assigned equipment_id employee_id) assignments ≡ some found
    → held item (keep (λ a. not (a.id == found.id)) assignments) + quantity_of item found
      ≡ held item assignments
held-delete equipment_id employee_id item [] found d e = cc
held-delete equipment_id employee_id item (a ∷ assignments) found d e =
    elim (Bool-cases (is_assigned equipment_id employee_id a)) [
      | inl p ↦ delete-head item a found assignments d.0 (some_inj (rw p at e))
      | inr p ↦
          let older : find (is_assigned equipment_id employee_id) assignments ≡ some found =
            rw p at e in
          ground (
            arith,
            NoId-find equipment_id employee_id a.id assignments found d.0 older,
            held-delete equipment_id employee_id item assignments found d.1 older,
          )
    ]

module _ (f : Assignment → Assignment)
    (keeps : (a : Assignment) → (f a).equipment_id ≡ a.equipment_id) where
  update-NoId :
      (id item : ℕ) (assignments : List Assignment)
      → NoId id assignments
      → held item (update (λ a. a.id == id) f assignments) ≡ held item assignments
  update-NoId id item [] h = refl
  update-NoId id item (a ∷ assignments) h = ground (arith, update-NoId id item assignments h.1)

  update-head :
      (item : ℕ) (a found : Assignment) (assignments : List Assignment)
      → NoId a.id assignments
      → a ≡ found
      → held item (update (λ b. b.id == found.id) f (a ∷ assignments)) + quantity_of item found
        ≡ held item (a ∷ assignments) + quantity_of item (f found)
  update-head item a found assignments d e =
      subst
        (λ b.
          held item (update (λ c. c.id == b.id) f (a ∷ assignments)) + quantity_of item b
          ≡ held item (a ∷ assignments) + quantity_of item (f b))
        e (ground (arith, keeps a, update-NoId a.id item assignments d))

  -- A change of the assignment that was found changes what is held by the change of its quantity.
  pub held-update :
      (equipment_id employee_id item : ℕ) (assignments : List Assignment) (found : Assignment)
      → DistinctIds assignments
      → find (is_assigned equipment_id employee_id) assignments ≡ some found
      → held item (update (λ a. a.id == found.id) f assignments) + quantity_of item found
        ≡ held item assignments + quantity_of item (f found)
  held-update equipment_id employee_id item [] found d e = cc
  held-update equipment_id employee_id item (a ∷ assignments) found d e =
      elim (Bool-cases (is_assigned equipment_id employee_id a)) [
        | inl p ↦ update-head item a found assignments d.0 (some_inj (rw p at e))
        | inr p ↦
            let older : find (is_assigned equipment_id employee_id) assignments ≡ some found =
              rw p at e in
            ground (
              arith,
              NoId-find equipment_id employee_id a.id assignments found d.0 older,
              held-update equipment_id employee_id item assignments found d.1 older,
            )
      ]
