-- ===== src/Company/Rows.antt =====
-- Rows of the designations and of those who hold them, after the statements on them.
use leave_management_system.Prelude.{
  ℕ, ◌≡◌, ◌<◌, ◌≤◌, ◌+◌, refl, inl, inr, true, false, not, List, [], ◌∷◌, Option, none, some, ◌==◌,
  keep, update, any, All, length, same, arith, Bool-cases,
}
use leave_management_system.Company.Defs.{
  DesignationInput, Designation, Holder, is_designation, rename, holds, let_go,
}

-- Newest first, and each id below that of the row before: the ids are different.
abbrev pub Descending : ℕ → List Designation → Type 0
Descending n [] = Unit
Descending n (d ∷ rows) = (d.id < n) × Descending d.id rows

Descending-≤ : (m n : ℕ) (rows : List Designation) → m ≤ n → Descending m rows → Descending n rows
Descending-≤ m n [] le h = tt
Descending-≤ m n (d ∷ rows) le h = (omega arith, h.1)

abbrev pub without : ℕ → List Designation → List Designation
without id rows = keep (λ d. not (is_designation id d)) rows

module _ (id : ℕ) where
  pub without-Descending :
      (n : ℕ) (rows : List Designation) → Descending n rows → Descending n (without id rows)
  without-Descending n [] h = tt
  without-Descending n (d ∷ rows) h = elim (Bool-cases (is_designation id d)) [
    | inl e ↦
        rw e
          (Descending-≤ d.id n (without id rows) (omega arith) (without-Descending d.id rows h.1))
    | inr e ↦ rw e (h.0, without-Descending d.id rows h.1)
  ]

  -- Rows whose ids are all smaller stay.
  without-below :
      (n : ℕ) (rows : List Designation) → n ≤ id → Descending n rows → without id rows ≡ rows
  without-below n [] le h = refl
  without-below n (d ∷ rows) le h = elim (Bool-cases (is_designation id d)) [
    | inl e ↦ ground arith
    | inr e ↦ rw (e, without-below d.id rows (omega arith) h.1) refl
  ]

  -- At most one row goes.
  pub length-without :
      (n : ℕ) (rows : List Designation)
      → Descending n rows
      → (length (without id rows) ≤ length rows) × (length rows ≤ length (without id rows) + 1)
  length-without n [] h = (omega arith, omega arith)
  length-without n (d ∷ rows) h = elim (Bool-cases (is_designation id d)) [
    | inl e ↦ rw (e, without-below d.id rows (ground arith) h.1) (omega arith, omega arith)
    | inr e ↦ let ih = length-without d.id rows h.1 in rw e (omega arith, omega arith)
  ]

  module _ (input : DesignationInput) where
    pub rename-Descending :
        (n : ℕ) (rows : List Designation)
        → Descending n rows
        → Descending n (update (is_designation id) (rename input) rows)
    rename-Descending n [] h = tt
    rename-Descending n (d ∷ rows) h = elim (Bool-cases (is_designation id d)) [
      | inl e ↦ rw e (h.0, rename-Descending d.id rows h.1)
      | inr e ↦ rw e (h.0, rename-Descending d.id rows h.1)
    ]

    pub length-rename :
        (rows : List Designation)
        → length (update (is_designation id) (rename input) rows) ≡ length rows
    length-rename [] = refl
    length-rename (d ∷ rows) = rw (length-rename rows) refl

    rename-any :
        (other : ℕ) (rows : List Designation)
        → any (is_designation other) (update (is_designation id) (rename input) rows)
          ≡ any (is_designation other) rows
    rename-any other [] = refl
    rename-any other (d ∷ rows) = elim (Bool-cases (is_designation id d)) [
      | inl e ↦ rw (e, rename-any other rows) refl
      | inr e ↦ rw (e, rename-any other rows) refl
    ]

  without-any :
      (other : ℕ) (rows : List Designation)
      → (other == id) ≡ false
      → any (is_designation other) rows ≡ true
      → any (is_designation other) (without id rows) ≡ true
  without-any other [] ne h = h
  without-any other (d ∷ rows) ne h = elim (Bool-cases (is_designation id d)) [
    | inl e ↦ let ih = without-any other rows ne in ground arith
    | inr e ↦ let ih = without-any other rows ne in ground arith
  ]

-- What is held is there.
abbrev pub IsKnown : List Designation → Option ℕ → Type 0
IsKnown rows none = Unit
IsKnown rows (some id) = any (is_designation id) rows ≡ true

abbrev pub AreKnown : List Designation → List Holder → Type 0
AreKnown rows holders = All (λ h. IsKnown rows h.designation_id) holders

pub add-AreKnown :
    (d : Designation) (rows : List Designation) (holders : List Holder)
    → AreKnown rows holders
    → AreKnown (d ∷ rows) holders
add-AreKnown d rows [] h = tt
add-AreKnown d rows (x ∷ holders) h = (known x.designation_id h.0, add-AreKnown d rows holders h.1)
  where
    known : (o : Option ℕ) → IsKnown rows o → IsKnown (d ∷ rows) o
    known none k = tt
    known (some id) k = ground arith

pub rename-AreKnown :
    (id : ℕ) (input : DesignationInput) (rows : List Designation) (holders : List Holder)
    → AreKnown rows holders
    → AreKnown (update (is_designation id) (rename input) rows) holders
rename-AreKnown id input rows [] h = tt
rename-AreKnown id input rows (x ∷ holders) h =
    (known x.designation_id h.0, rename-AreKnown id input rows holders h.1)
  where
    known :
        (o : Option ℕ) → IsKnown rows o → IsKnown (update (is_designation id) (rename input) rows) o
    known none k = tt
    known (some other) k = rw (rename-any id input other rows) k

pub without-AreKnown :
    (id : ℕ) (rows : List Designation) (holders : List Holder)
    → AreKnown rows holders
    → AreKnown (without id rows) (update (holds id) let_go holders)
without-AreKnown id rows [] h = tt
without-AreKnown id rows (x ∷ holders) h = elim (Bool-cases (holds id x)) [
  | inl e ↦ rw e (tt, without-AreKnown id rows holders h.1)
  | inr e ↦ rw e (known x.designation_id e h.0, without-AreKnown id rows holders h.1)
]
  where
    known : (o : Option ℕ) → same o (some id) ≡ false → IsKnown rows o → IsKnown (without id rows) o
    known none ne k = tt
    known (some other) ne k = without-any id other rows ne k
