-- ===== src/Database/Outcomes.antt =====
-- What holds when a call returns a value, put together from what holds after each of its calls.
use leave_management_system.Prelude.{
  ℕ, ◌≡◌, refl, ap, ◌⊎◌, inl, inr, Option, Option-cases, none, some, String, arith, Bool, true,
  false, if◌then◌else◌,
}
use leave_management_system.Database.Defs.{
  Error, Result, ok, err, panic, World, Action, next_fault, later_faults, statement, select, exec,
  wrap, annotate, answer, forget, fail, or_fail, in_transaction, commit, continue, finish,
  execute_transaction, zoom, ◌>>=◌,
}
use leave_management_system.Database.Laws.{Atomic}

-- If the call returned a value, it and the tables are related.
abbrev pub After : {S A : Type 0} → (A → S → Type 0) → Result A × World S → Type 0
After P (ok a, w) = P a w.db
After P (err e, w) = Unit
After P (panic, w) = Unit

-- The call did not return a value, and left the tables as they were.
abbrev pub Refused : {S A : Type 0} → S → Result A × World S → Type 0
Refused s (ok a, w) = ⊥
Refused s (err e, w) = w.db ≡ s
Refused s (panic, w) = w.db ≡ s

pub Atomic-Refused :
    {S A : Type 0} (s : S) (o : Result A × World S) → Atomic s o → After (λ _ _. ⊥) o → Refused s o
Atomic-Refused s (ok a, w) h k = k
Atomic-Refused s (err e, w) h k = h
Atomic-Refused s (panic, w) h k = h

module _ {S A : Type 0} (P Q : A → S → Type 0) where
  pub After-map :
      (o : Result A × World S) → ((a : A) (s : S) → P a s → Q a s) → After P o → After Q o
  After-map (ok a, w) k h = k a w.db h
  After-map (err e, w) k h = tt
  After-map (panic, w) k h = tt

module _ {S A : Type 0} (P : A → S → Type 0) where
  pub After-ok : (a : A) (o : Result A × World S) → After P o → o.0 ≡ ok a → P a o.1.db
  After-ok a (ok b, w) h e = ground arith
  After-ok a (err x, w) h e = ground arith
  After-ok a (panic, w) h e = ground arith

  pub statement-After :
      (f : S → A × S) (w : World S) → P (f w.db).0 (f w.db).1 → After P (statement f w)
  unfolding statement
  statement-After f w h = elim (Option-cases (next_fault w.faults)) [
    | inl e ↦ rw (e, statement) h
    | inr (m, e) ↦ rw (e, statement) tt
  ]

  pub select-After : (f : S → A) (w : World S) → P (f w.db) w.db → After P (select f w)
  unfolding select
  select-After f w h = statement-After (λ s. (f s, s)) w h

  outcome-After :
      (code : ℕ) (prefix : String) (other : Error) (o : Result A × World S)
      → After P o
      → After P (wrap code prefix (λ _. o) o.1)
        × After P (annotate prefix (λ _. o) o.1)
        × After P (answer other (λ _. o) o.1)
  outcome-After code prefix other (ok a, w) h = (h, h, h)
  outcome-After code prefix other (err e, w) h = (tt, tt, tt)
  outcome-After code prefix other (panic, w) h = (tt, tt, tt)

  pub wrap-After :
      (code : ℕ) (prefix : String) (m : Action S A) (w : World S)
      → After P (m w)
      → After P (wrap code prefix m w)
  wrap-After code prefix m w h = (outcome-After code prefix (Error.plain prefix) (m w) h).0

  pub annotate-After :
      (prefix : String) (m : Action S A) (w : World S)
      → After P (m w)
      → After P (annotate prefix m w)
  annotate-After prefix m w h = (outcome-After 0 prefix (Error.plain prefix) (m w) h).1

  pub answer-After :
      (e : Error) (m : Action S A) (w : World S) → After P (m w) → After P (answer e m w)
  answer-After e m w h = (outcome-After 0 "" e (m w) h).2

  commit-After :
      (refused : String → Error) (before : S) (o : Result A × World S)
      → After P o
      → After P (commit refused before o.0 o.1)
  commit-After refused before (ok a, w) h = elim (Option-cases (next_fault w.faults)) [
    | inl e ↦ rw (e, commit) h
    | inr (m, e) ↦ rw (e, commit) tt
  ]
  commit-After refused before (err e, w) h = tt
  commit-After refused before (panic, w) h = tt

  pub in_transaction-After :
      (no_start refused : String → Error) (fn : Action S A) (w : World S)
      → After P (fn (record w { faults = later_faults w.faults }))
      → After P (in_transaction no_start refused fn w)
  unfolding in_transaction
  in_transaction-After no_start refused fn w h = elim (Option-cases (next_fault w.faults)) [
    | inl e ↦
        rw (e, in_transaction)
          (commit-After refused w.db (fn (record w { faults = later_faults w.faults })) h)
    | inr (m, e) ↦ rw (e, in_transaction) tt
  ]

  pub or_fail-After :
      (o : Option A) (e : Error) (w : World S)
      → ((a : A) → o ≡ some a → P a w.db)
      → After P (or_fail o e w)
  or_fail-After none e w h = tt
  or_fail-After (some a) e w h = h a refl

  -- A guard that refuses a request.
  pub guard-After :
      (b : Bool) (e : Error) (m : Action S A) (w : World S)
      → (b ≡ false → After P (m w))
      → After P ((if b then fail e else m) w)
  guard-After true e m w h = tt
  guard-After false e m w h = h refl

module _ {S : Type 0} (P : Unit {0} → S → Type 0) where
  pub exec-After : (f : S → S) (w : World S) → P tt (f w.db) → After P (exec f w)
  unfolding exec
  exec-After f w h = statement-After P (λ s. (tt, f s)) w h

module _ {S A : Type 0} (P : Option A → S → Type 0) where
  -- A query whose error is dropped.
  pub forget-select-After :
      (f : S → A) (w : World S)
      → P none w.db
      → P (some (f w.db)) w.db
      → After P (forget (select f) w)
  unfolding select statement
  forget-select-After f w hn hs = elim (Option-cases (next_fault w.faults)) [
    | inl e ↦ rw (e, statement) hs
    | inr (m, e) ↦ rw (e, statement) hn
  ]

module _ {S A B : Type 0} (Q : A → S → Type 0) (P : B → S → Type 0) where
  continue-After :
      (f : A → Action S B) (o : Result A × World S)
      → After Q o
      → ((a : A) (w : World S) → Q a w.db → After P (f a w))
      → After P (continue f o.0 o.1)
  continue-After f (ok a, w) h k = k a w h
  continue-After f (err e, w) h k = tt
  continue-After f (panic, w) h k = tt

  pub >>=-After :
      (m : Action S A) (f : A → Action S B) (w : World S)
      → After Q (m w)
      → ((a : A) (w' : World S) → Q a w'.db → After P (f a w'))
      → After P ((m >>= f) w)
  >>=-After m f w h k = continue-After f (m w) h k

-- A call whose outcome is known.
pub >>=-step :
    {S A B : Type 0} (m : Action S A) (f : A → Action S B) (w : World S) (a : A) (w' : World S)
    → m w ≡ (ok a, w')
    → (m >>= f) w ≡ f a w'
>>=-step m f w a w' e = ap (λ o. continue f o.0 o.1) e

module _ {S A : Type 0} (P : A → S → Type 0) where
  finish-After :
      (before : S) (o : Result A × World S)
      → After P o
      → After (λ a s. P a s ⊎ (s ≡ before)) (finish before o.0 o.1)
  finish-After before (ok a, w) h = elim (Option-cases (next_fault w.faults)) [
    | inl e ↦ rw (e, finish) (inl h)
    | inr (m, e) ↦ rw (e, finish) (inr refl)
  ]
  finish-After before (err e, w) h = tt
  finish-After before (panic, w) h = tt

  -- After a transaction that is said to have succeeded, either what its body did is there, or the
  -- commit was refused and nothing is.
  pub execute_transaction-After :
      (fn : Action S A) (w : World S)
      → After P (fn (record w { faults = later_faults w.faults }))
      → After (λ a s. P a s ⊎ (s ≡ w.db)) (execute_transaction fn w)
  unfolding execute_transaction
  execute_transaction-After fn w h = elim (Option-cases (next_fault w.faults)) [
    | inl e ↦
        rw (e, execute_transaction)
          (finish-After w.db (fn (record w { faults = later_faults w.faults })) h)
    | inr (m, e) ↦ rw (e, execute_transaction) tt
  ]

  module _ {T : Type 0} (get : S → T) (put : T → S → S) where
    outcome_zoom-After :
        (s : S) (o : Result A × World T)
        → After (λ a t. P a (put t s)) o
        → After P (o.0, record { db = put o.1.db s; faults = o.1.faults })
    outcome_zoom-After s (ok a, w) h = h
    outcome_zoom-After s (err e, w) h = tt
    outcome_zoom-After s (panic, w) h = tt

    pub zoom-After :
        (m : Action T A) (w : World S)
        → After (λ a t. P a (put t w.db)) (m (record { db = get w.db; faults = w.faults }))
        → After P (zoom get put m w)
    zoom-After m w h = outcome_zoom-After w.db (m (record { db = get w.db; faults = w.faults })) h
