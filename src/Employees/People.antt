-- ===== src/Employees/People.antt =====
-- Rows of the employee table after an update.
use mathlib.Core.Path.{subst}
use leave_management_system.Prelude.{
  ℕ, ◌≡◌, ◌<◌, refl, sym, inl, inr, Bool, true, false, List, [], ◌∷◌, some, find, keep, update, All,
  arith, Bool-cases,
}
use leave_management_system.Models.Role.{Role, role_eq}
use leave_management_system.Employees.Store.{Person, Store, is_person}

abbrev pub is_superior : Person → Bool
is_superior p = role_eq p.role Role.super_admin

abbrev pub superiors : Store → List Person
superiors s = keep is_superior s.people

-- Employees have different ids, below the next one.
abbrev pub OtherId : ℕ → List Person → Type 0
OtherId id people = All (λ p. is_person id p ≡ false) people

abbrev pub DistinctPeople : List Person → Type 0
DistinctPeople [] = Unit
DistinctPeople (p ∷ people) = OtherId p.id people × DistinctPeople people

abbrev pub IsWellFormed : Store → Type 0
IsWellFormed s = DistinctPeople s.people × All (λ p. p.id < s.next_id) s.people

module _ (id : ℕ) (f : Person → Person) where
  update-other :
      (people : List Person) → OtherId id people → update (is_person id) f people ≡ people
  update-other [] h = refl
  update-other (p ∷ people) h = rw (h.0, update-other people h.1) refl

  module _ (keeps_id : (p : Person) → (f p).id ≡ p.id) where
    update-OtherId :
        (other : ℕ) (people : List Person)
        → OtherId other people
        → OtherId other (update (is_person id) f people)
    update-OtherId other [] h = tt
    update-OtherId other (p ∷ people) h =
        (grind (arith, keeps_id p, h.0), update-OtherId other people h.1)

    pub update-DistinctPeople :
        (people : List Person)
        → DistinctPeople people
        → DistinctPeople (update (is_person id) f people)
    update-DistinctPeople [] h = tt
    update-DistinctPeople (p ∷ people) h = elim (Bool-cases (is_person id p)) [
      | inl e ↦ rw e (
        subst (λ n. OtherId n (update (is_person id) f people)) (sym (keeps_id p))
            (update-OtherId p.id people h.0),
        update-DistinctPeople people h.1,
      )
      | inr e ↦ rw e (update-OtherId p.id people h.0, update-DistinctPeople people h.1)
    ]

    pub update-below :
        (n : ℕ) (people : List Person)
        → All (λ p. p.id < n) people
        → All (λ p. p.id < n) (update (is_person id) f people)
    update-below n [] h = tt
    update-below n (p ∷ people) h = (grind (arith, keeps_id p, h.0), update-below n people h.1)

    same_id : (p : Person) → is_person id p ≡ true → p.id ≡ id
    same_id p e = ground arith

    found-rank :
        (p : Person) (people : List Person) (target : Person)
        → is_person id p ≡ true
        → find (is_person id) (p ∷ people) ≡ some target
        → is_superior target ≡ false
        → is_superior p ≡ false
    found-rank p people target same e h = ground arith

    module _ (keeps_rank : (p : Person) → is_superior p ≡ false → is_superior (f p) ≡ false) where
      pub update-superiors :
          (people : List Person) (target : Person)
          → DistinctPeople people
          → find (is_person id) people ≡ some target
          → is_superior target ≡ false
          → keep is_superior (update (is_person id) f people) ≡ keep is_superior people
      update-superiors [] target d e h = refl
      update-superiors (p ∷ people) target d e h = elim (Bool-cases (is_person id p)) [
        | inl same ↦
            let low = found-rank p people target same e h in
            rw
              (
                same,
                low,
                keeps_rank p low,
                update-other people (subst (λ n. OtherId n people) (same_id p same) d.0),
              )
              refl
        | inr other ↦
            let rest = update-superiors people target d.1 (rw other at e) h in rw (other, rest) refl
      ]
