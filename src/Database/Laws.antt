-- ===== src/Database/Laws.antt =====
-- What a transaction guarantees, whichever statements the database refuses.
use leave_management_system.Prelude.{
  ◌≡◌, refl, Bool, true, false, if◌then◌else◌, inl, inr, Option, Option-cases, none, some, String,
  arith,
}
use leave_management_system.Database.Defs.{
  Error, Result, ok, err, panic, World, Action, next_fault, later_faults, statement, select, fail,
  or_fail, execute_transaction, in_transaction, finish, continue, ◌>>=◌,
}

-- A call that did not succeed left the tables as they were.
abbrev pub Atomic : {S A : Type 0} → S → Result A × World S → Type 0
Atomic s (ok a, w) = Unit
Atomic s (err e, w) = w.db ≡ s
Atomic s (panic, w) = w.db ≡ s

module _ {S A : Type 0} (fn : Action S A) where
  -- Whatever the body does and whichever statements fail, a transaction that ends in an error or
  -- a panic leaves the tables exactly as they were.
  pub execute_transaction-Atomic : (w : World S) → Atomic w.db (execute_transaction fn w)
  unfolding execute_transaction
  execute_transaction-Atomic w = ground arith

  pub in_transaction-Atomic :
      (no_start refused : String → Error) (w : World S)
      → Atomic w.db (in_transaction no_start refused fn w)
  unfolding in_transaction
  in_transaction-Atomic no_start refused w = ground arith

  -- A guard that refuses a request changes nothing.
  pub guard-Atomic :
      (b : Bool) (e : Error) (w : World S)
      → Atomic w.db (fn w)
      → Atomic w.db ((if b then fail e else fn) w)
  guard-Atomic true e w h = refl
  guard-Atomic false e w h = h

-- A query changes nothing.
pub select_db : {S A : Type 0} (f : S → A) (w : World S) → (select f w).1.db ≡ w.db
unfolding select statement
select_db f w = ground arith

pub or_fail-db :
    {S A : Type 0} (o : Option A) (e : Error) (w : World S) → (or_fail {S = S} o e w).1.db ≡ w.db
or_fail-db none e w = refl
or_fail-db (some a) e w = refl

-- The call returned a value.
abbrev pub Finishes : {S A : Type 0} → Result A × World S → Type 0
Finishes (ok a, w) = Unit
Finishes (err e, w) = ⊥
Finishes (panic, w) = ⊥

Finishes-Atomic : {S A : Type 0} (s : S) (o : Result A × World S) → Finishes o → Atomic s o
Finishes-Atomic s (ok a, w) h = tt
Finishes-Atomic s (err e, w) h = elim h [ ]
Finishes-Atomic s (panic, w) h = elim h [ ]

module _ {S A B : Type 0} where
  step-Atomic :
      (s : S) (r : Result A) (w : World S) (f : A → Action S B)
      → w.db ≡ s
      → ((a : A) (w' : World S) → Atomic w'.db (f a w'))
      → Atomic s (continue f r w)
  step-Atomic s (ok a) w f e h = rw (← e) (h a w)
  step-Atomic s (err x) w f e h = e
  step-Atomic s panic w f e h = e

  -- What only reads may stand before an atomic call.
  pub >>=-Atomic :
      (m : Action S A) (f : A → Action S B) (w : World S)
      → (m w).1.db ≡ w.db
      → ((a : A) (w' : World S) → Atomic w'.db (f a w'))
      → Atomic w.db ((m >>= f) w)
  >>=-Atomic m f w e h = step-Atomic w.db (m w).0 (m w).1 f e h

  finish-Atomic :
      (s : S) (r : Result A) (w : World S) (f : A → Action S B)
      → Atomic s (r, w)
      → ((a : A) (w' : World S) → Finishes (f a w'))
      → Atomic s (continue f r w)
  finish-Atomic s (ok a) w f e h = Finishes-Atomic s (f a w) (h a w)
  finish-Atomic s (err x) w f e h = e
  finish-Atomic s panic w f e h = e

  -- What always returns a value may stand behind an atomic call.
  pub >>=-Atomic_left :
      (m : Action S A) (f : A → Action S B) (w : World S)
      → Atomic w.db (m w)
      → ((a : A) (w' : World S) → Finishes (f a w'))
      → Atomic w.db ((m >>= f) w)
  >>=-Atomic_left m f w e h = finish-Atomic w.db (m w).0 (m w).1 f e h

-- A call that keeps a property of the tables, whether it succeeds or not.
abbrev pub Keeps : {S A : Type 0} → (S → Type 0) → Action S A → Type 0
Keeps P m = (w : World _) → P w.db → P (m w).1.db

module _ {S A : Type 0} (P : S → Type 0) where
  finish-keeps : {s : S} (r : Result A) (w : World S) → P s → P w.db → P (finish s r w).1.db
  finish-keeps (ok a) w hs hw = elim (Option-cases (next_fault w.faults)) [
    | inl e ↦ rw (e, finish) hw
    | inr (m, e) ↦ rw (e, finish) hs
  ]
  finish-keeps (err e) w hs hw = hs
  finish-keeps panic w hs hw = hs

  pub execute_transaction-Keeps : (fn : Action S A) → Keeps P fn → Keeps P (execute_transaction fn)
  unfolding execute_transaction
  execute_transaction-Keeps fn keeps w h = elim (Option-cases (next_fault w.faults)) [
    | inr (m, e) ↦ rw (e, execute_transaction) h
    | inl begun ↦
        rw (begun, execute_transaction)
          (finish-keeps (fn (record w { faults = later_faults w.faults })).0 _ h
            (keeps (record w { faults = later_faults w.faults }) h))
  ]

module _ {S A B : Type 0} (P : S → Type 0) where
  continue-keeps :
      (f : A → Action S B) (r : Result A) (w : World S)
      → P w.db
      → ((a : A) → Keeps P (f a))
      → P (continue f r w).1.db
  continue-keeps f (ok a) w h k = k a w h
  continue-keeps f (err e) w h k = h
  continue-keeps f panic w h k = h

  pub >>=-Keeps :
      (m : Action S A) (f : A → Action S B)
      → Keeps P m
      → ((a : A) → Keeps P (f a))
      → Keeps P (m >>= f)
  >>=-Keeps m f km kf w h = continue-keeps f (m w).0 (m w).1 (km w h) kf
