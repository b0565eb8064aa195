-- ===== src/Policies/Referred.antt =====
-- A leave type that something belongs to cannot be deleted.
use leave_management_system.Prelude.{
  ℕ, ◌≡◌, ◌⊎◌, refl, inl, inr, true, false, not, Option, Option-cases, Bool-cases, none, some, sym,
  ◌∙◌, String, ◌==◌, any, arith, if◌then◌else◌,
}
use leave_management_system.Models.Role.{Role}
use leave_management_system.Database.{
  Result, ok, err, panic, World, Action, app, plain, select, statement, wrap, later_faults, finish,
  next_fault, fail, execute_transaction, ◌>>=◌,
}
use leave_management_system.Database.Laws.{guard-Atomic, execute_transaction-Atomic}
use leave_management_system.Database.Outcomes.{
  After, Refused, Atomic-Refused, wrap-After, select-After, statement-After, guard-After, >>=-After,
}
use leave_management_system.Policies.Defs.{
  Store, is_referred_to, try_delete_type, unless_message, delete_type, delete_policy, may_change,
  handle_delete, no_rows, is_type,
}

-- A call that returns no value.
abbrev Never : {A : Type 0} → Result A × World Store → Type 0
Never o = After (λ _ _. ⊥) o

finish-Never :
    {A : Type 0} (before : Store) (o : Result A × World Store)
    → Never o
    → Never (finish before o.0 o.1)
finish-Never before (ok a, w) h = elim h [ ]
finish-Never before (err e, w) h = tt
finish-Never before (panic, w) h = tt

execute_transaction-Never :
    {A : Type 0} (fn : Action Store A) (w : World Store)
    → Never (fn (record w { faults = later_faults w.faults }))
    → Never (execute_transaction fn w)
unfolding execute_transaction
execute_transaction-Never fn w h = elim (Option-cases (next_fault w.faults)) [
  | inl e ↦
      rw (e, execute_transaction)
        (finish-Never w.db (fn (record w { faults = later_faults w.faults })) h)
  | inr (m, e) ↦ rw (e, execute_transaction) tt
]

-- A leave, or a row of balances, adjustments or accruals, of the type.
abbrev pub IsInUse : ℕ → Store → Type 0
IsInUse id s = (any (λ t. t == id) s.leaves ≡ true) ⊎ (is_referred_to id s.accounts ≡ true)

delete_type-Never : (id : ℕ) (w : World Store) → IsInUse id w.db → Never (delete_type id w)
unfolding delete_type
delete_type-Never id w used =
    >>=-After (λ b s. (b ≡ any (λ t. t == id) s.leaves) × IsInUse id s) (λ _ _. ⊥)
      (select (λ s. any (λ t. t == id) s.leaves))
      (λ is_used.
        if is_used
        then fail (plain no_rows)
        else (statement (try_delete_type id) >>= unless_message))
      w (select-After _ (λ s. any (λ t. t == id) s.leaves) w (refl, used))
      (λ is_used w' h.
        guard-After (λ _ _. ⊥) is_used (plain no_rows)
          (statement (try_delete_type id) >>= unless_message) w'
          (λ unused.
            >>=-After (λ o s. Refusal o) (λ _ _. ⊥) (statement (try_delete_type id)) unless_message
              w'
              (statement-After (λ o s. Refusal o) (try_delete_type id) w'
                (refusal w'.db (sym h.0 ∙ unused) h.1))
              (λ o w'' r. stop o w'' r)))
  where
    Refusal : Option String → Type 0
    Refusal none = ⊥
    Refusal (some m) = Unit

    refusal :
        (s : Store)
        → any (λ t. t == id) s.leaves ≡ false
        → IsInUse id s
        → Refusal (try_delete_type id s).0
    refusal s unused (inl e) = ground arith
    refusal s unused (inr e) = elim (Bool-cases (any (is_type id) s.accounts.leave_types)) [
      | inl there ↦ rw (there, e) tt
      | inr gone ↦ rw gone tt
    ]

    stop : (o : Option String) (w : World Store) → Refusal o → Never (unless_message o w)
    stop none w r = elim r [ ]
    stop (some m) w r = tt

-- Whoever asks to delete a leave type to which a leave, a balance, an adjustment or an accrual
-- belongs is refused, whichever statements fail, and every table stays as it was.
pub handle_delete-in_use :
    (role : Role) (id : ℕ) (w : World Store)
    → IsInUse id w.db
    → Refused w.db (handle_delete role id w)
unfolding handle_delete delete_policy
handle_delete-in_use role id w used =
    let begun = record w { faults = later_faults w.faults } in
    Atomic-Refused w.db (handle_delete role id w)
      (guard-Atomic (delete_policy id) (not (may_change role))
        (app 401 "not permitted to delete leave policies") w
        (execute_transaction-Atomic (wrap 500 "" (delete_type id)) w))
      (guard-After (λ _ _. ⊥) (not (may_change role))
        (app 401 "not permitted to delete leave policies") (delete_policy id) w
        (λ _.
          execute_transaction-Never (wrap 500 "" (delete_type id)) w (
            wrap-After (λ _ _. ⊥) 500 "" (delete_type id) begun (delete_type-Never id begun used))))
