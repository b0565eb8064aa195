-- ===== src/Database/Endings.antt =====
-- What holds of the tables however a call ends: one relation where it returns a value, and one
-- where it ends in an error or a panic.
use mathlib.Core.Path.{subst}
use leave_management_system.Prelude.{
  ℕ, ◌≡◌, refl, sym, inl, inr, Option, Option-cases, none, some, String, Bool, true, false,
  if◌then◌else◌,
}
use leave_management_system.Database.Defs.{
  Error, Result, ok, err, panic, World, Action, next_fault, statement, select, exec, wrap, annotate,
  answer, fail, or_fail, continue, finish, later_faults, execute_transaction, ◌>>=◌,
}
use leave_management_system.Database.Laws.{Keeps}

abbrev pub Ends : {S A : Type 0} → (A → S → Type 0) → (S → Type 0) → Result A × World S → Type 0
Ends Q R (ok a, w) = Q a w.db
Ends Q R (err e, w) = R w.db
Ends Q R (panic, w) = R w.db

module _ {S A : Type 0} (R : S → Type 0) where
  pub Ends-db : (o : Result A × World S) → Ends (λ _. R) R o → R o.1.db
  Ends-db (ok a, w) h = h
  Ends-db (err e, w) h = h
  Ends-db (panic, w) h = h

  pub db-Ends : (o : Result A × World S) → R o.1.db → Ends (λ _. R) R o
  db-Ends (ok a, w) h = h
  db-Ends (err e, w) h = h
  db-Ends (panic, w) h = h

  -- A guard that refuses a request.
  pub guard-Ends :
      (Q : A → S → Type 0) (b : Bool) (e : Error) (m : Action S A) (w : World S)
      → R w.db
      → (b ≡ false → Ends Q R (m w))
      → Ends Q R ((if b then fail e else m) w)
  guard-Ends Q true e m w h k = h
  guard-Ends Q false e m w h k = k refl

module _ {S A : Type 0} (Q : A → S → Type 0) (R : S → Type 0) where
  pub statement-Ends :
      (f : S → A × S) (w : World S) → R w.db → Q (f w.db).0 (f w.db).1 → Ends Q R (statement f w)
  unfolding statement
  statement-Ends f w r q = elim (Option-cases (next_fault w.faults)) [
    | inl e ↦ rw (e, statement) q
    | inr (m, e) ↦ rw (e, statement) r
  ]

  pub select-Ends : (f : S → A) (w : World S) → R w.db → Q (f w.db) w.db → Ends Q R (select f w)
  unfolding select
  select-Ends f w r q = statement-Ends (λ s. (f s, s)) w r q

  pub or_fail-Ends :
      (o : Option A) (e : Error) (w : World S)
      → R w.db
      → ((a : A) → o ≡ some a → Q a w.db)
      → Ends Q R (or_fail o e w)
  or_fail-Ends none e w r q = r
  or_fail-Ends (some a) e w r q = q a refl

  outcome-Ends :
      (code : ℕ) (prefix : String) (other : Error) (o : Result A × World S)
      → Ends Q R o
      → Ends Q R (wrap code prefix (λ _. o) o.1)
        × Ends Q R (annotate prefix (λ _. o) o.1)
        × Ends Q R (answer other (λ _. o) o.1)
  outcome-Ends code prefix other (ok a, w) h = (h, h, h)
  outcome-Ends code prefix other (err e, w) h = (h, h, h)
  outcome-Ends code prefix other (panic, w) h = (h, h, h)

  pub wrap-Ends :
      (code : ℕ) (prefix : String) (m : Action S A) (w : World S)
      → Ends Q R (m w)
      → Ends Q R (wrap code prefix m w)
  wrap-Ends code prefix m w h = (outcome-Ends code prefix (Error.plain prefix) (m w) h).0

  pub annotate-Ends :
      (prefix : String) (m : Action S A) (w : World S)
      → Ends Q R (m w)
      → Ends Q R (annotate prefix m w)
  annotate-Ends prefix m w h = (outcome-Ends 0 prefix (Error.plain prefix) (m w) h).1

  pub answer-Ends :
      (e : Error) (m : Action S A) (w : World S) → Ends Q R (m w) → Ends Q R (answer e m w)
  answer-Ends e m w h = (outcome-Ends 0 "" e (m w) h).2

-- What only reads.
pub reads-Ends :
    {S A : Type 0} (Q R : S → Type 0) (s : S) (o : Result A × World S)
    → o.1.db ≡ s
    → Q s
    → R s
    → Ends (λ _. Q) R o
reads-Ends Q R s (ok a, w) e q r = subst Q (sym e) q
reads-Ends Q R s (err x, w) e q r = subst R (sym e) r
reads-Ends Q R s (panic, w) e q r = subst R (sym e) r

module _ {S A : Type 0} (R : S → Type 0) where
  finish-Ends :
      (before : S) (o : Result A × World S)
      → R before
      → Ends (λ _. R) R o
      → Ends (λ _. R) R (finish before o.0 o.1)
  finish-Ends before (ok a, w) r h = elim (Option-cases (next_fault w.faults)) [
    | inl e ↦ rw (e, finish) h
    | inr (m, e) ↦ rw (e, finish) r
  ]
  finish-Ends before (err e, w) r h = r
  finish-Ends before (panic, w) r h = r

  pub execute_transaction-Ends :
      (fn : Action S A) (w : World S)
      → R w.db
      → Ends (λ _. R) R (fn (record w { faults = later_faults w.faults }))
      → Ends (λ _. R) R (execute_transaction fn w)
  unfolding execute_transaction
  execute_transaction-Ends fn w r h = elim (Option-cases (next_fault w.faults)) [
    | inl e ↦
        rw (e, execute_transaction)
          (finish-Ends w.db (fn (record w { faults = later_faults w.faults })) r h)
    | inr (m, e) ↦ rw (e, execute_transaction) r
  ]

module _ {S A B : Type 0} (Q : A → S → Type 0) (P : B → S → Type 0) (R : S → Type 0) where
  continue-Ends :
      (f : A → Action S B) (o : Result A × World S)
      → Ends Q R o
      → ((a : A) (w : World S) → Q a w.db → Ends P R (f a w))
      → Ends P R (continue f o.0 o.1)
  continue-Ends f (ok a, w) h k = k a w h
  continue-Ends f (err e, w) h k = h
  continue-Ends f (panic, w) h k = h

  pub >>=-Ends :
      (m : Action S A) (f : A → Action S B) (w : World S)
      → Ends Q R (m w)
      → ((a : A) (w' : World S) → Q a w'.db → Ends P R (f a w'))
      → Ends P R ((m >>= f) w)
  >>=-Ends m f w h k = continue-Ends f (m w) h k

-- Calls that keep a property of the tables.
module _ {S : Type 0} (P : S → Type 0) where
  pub statement-Keeps :
      {A : Type 0} (f : S → A × S) → ((s : S) → P s → P (f s).1) → Keeps P (statement f)
  statement-Keeps f k w h = Ends-db P (statement f w) (statement-Ends (λ _. P) P f w h (k w.db h))

  pub exec-Keeps : (f : S → S) → ((s : S) → P s → P (f s)) → Keeps P (exec f)
  unfolding exec
  exec-Keeps f k = statement-Keeps (λ s. (tt, f s)) k

  pub select-Keeps : {A : Type 0} (f : S → A) → Keeps P (select f)
  unfolding select
  select-Keeps f = statement-Keeps (λ s. (f s, s)) (λ s h. h)

  pub or_fail-Keeps : {A : Type 0} (o : Option A) (e : Error) → Keeps P (or_fail o e)
  or_fail-Keeps none e w h = h
  or_fail-Keeps (some a) e w h = h

  pub guard-Keeps :
      {A : Type 0} (b : Bool) (e : Error) (m : Action S A)
      → Keeps P m
      → Keeps P (if b then fail e else m)
  guard-Keeps true e m k w h = h
  guard-Keeps false e m k w h = k w h

  pub reads-Keeps : {A : Type 0} (m : Action S A) → ((w : World S) → (m w).1.db ≡ w.db) → Keeps P m
  reads-Keeps m same w h = subst P (sym (same w)) h
