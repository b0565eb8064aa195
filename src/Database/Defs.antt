-- ===== src/Database/Defs.antt =====
-- The definitions of the transaction layer.
use leave_management_system.Prelude.{ℕ, List, [], ◌∷◌, Option, none, some, String}
use Prim.Native.String.{◌++◌}

-- `AppError`, and every other error.
pub data Error : Type 0 where
  app : ℕ → String → Error
  plain : String → Error

-- `err.Error()`
abbrev pub text : Error → String
text (app code message) = message
text (plain message) = message

-- `HTTPStatus`: the answer that a handler gives for an error.
unfoldable pub http_status : Error → ℕ × String
http_status (app code message) = (code, message)
http_status (plain message) = (500, "internal server error")

pub data Result (A : Type 0) : Type 0 where
  ok : A → Result A
  err : Error → Result A
  panic : Result A

pub record World (S : Type 0) : Type 0 where
  pub db : S
  pub faults : List (Option String)

abbrev pub Action : Type 0 → Type 0 → Type 0
Action S A = World S → Result A × World S

-- The next entry of the schedule; past its end nothing fails.
abbrev pub next_fault : List (Option String) → Option String
next_fault [] = none
next_fault (f ∷ fs) = f

abbrev pub later_faults : List (Option String) → List (Option String)
later_faults [] = []
later_faults (f ∷ fs) = fs

-- `errors.CustomErr(code, prefix+err.Error())`
abbrev pub wrap_result : {A : Type 0} → ℕ → String → Result A → Result A
wrap_result code prefix (ok a) = ok a
wrap_result code prefix (err e) = err (app code (prefix ++ text e))
wrap_result code prefix panic = panic

-- `fmt.Errorf(prefix+"%w", err)`
abbrev pub annotate_result : {A : Type 0} → String → Result A → Result A
annotate_result prefix (ok a) = ok a
annotate_result prefix (err e) = err (plain (prefix ++ text e))
annotate_result prefix panic = panic

-- `x, _ := call`: the error is dropped.
abbrev pub forget_result : {A : Type 0} → Result A → Result (Option A)
forget_result (ok a) = ok (some a)
forget_result (err e) = ok none
forget_result panic = panic

module _ {S A : Type 0} where
  abbrev pub pure : A → Action S A
  pure a w = (ok a, w)

  abbrev pub fail : Error → Action S A
  fail e w = (err e, w)

  abbrev pub crash : Action S A
  crash w = (panic, w)

  -- One SQL statement.
  abbrev pub run_statement :
      Option String → List (Option String) → (S → A × S) → S → Result A × World S
  run_statement none fs f s = (ok (f s).0, record { db = (f s).1; faults = fs })
  run_statement (some m) fs f s = (err (plain m), record { db = s; faults = fs })

  unfoldable pub statement : (S → A × S) → Action S A
  statement f w = run_statement (next_fault w.faults) (later_faults w.faults) f w.db

  -- `if x == nil { return err }`
  abbrev pub or_fail : Option A → Error → Action S A
  or_fail none e = fail e
  or_fail (some a) e = pure a

  abbrev pub wrap : ℕ → String → Action S A → Action S A
  wrap code prefix m w = let (r, w') = m w in (wrap_result code prefix r, w')

  abbrev pub annotate : String → Action S A → Action S A
  annotate prefix m w = let (r, w') = m w in (annotate_result prefix r, w')

  abbrev pub forget : Action S A → Action S (Option A)
  forget m w = let (r, w') = m w in (forget_result r, w')

-- Any error is answered by one of the handler's own.
abbrev pub answer_result : {A : Type 0} → Error → Result A → Result A
answer_result e (ok a) = ok a
answer_result e (err x) = err e
answer_result e panic = panic

abbrev pub answer : {S A : Type 0} → Error → Action S A → Action S A
answer e m w = let (r, w') = m w in (answer_result e r, w')

-- A call on a part of the tables.
abbrev pub zoom : {S T A : Type 0} → (S → T) → (T → S → S) → Action T A → Action S A
zoom get put m w =
    let (r, w') = m (record { db = get w.db; faults = w.faults }) in
    (r, record { db = put w'.db w.db; faults = w'.faults })

-- What follows a call, by how it ended.
abbrev pub continue : {S A B : Type 0} → (A → Action S B) → Result A → World S → Result B × World S
continue f (ok a) w = f a w
continue f (err e) w = (err e, w)
continue f panic w = (panic, w)

infixl 5 ◌>>=◌ ◌>>◌
abbrev pub ◌>>=◌ : {S A B : Type 0} → Action S A → (A → Action S B) → Action S B
◌>>=◌ m f w = let (r, w') = m w in continue f r w'

abbrev pub ◌>>◌ : {S B : Type 0} → Action S (Unit {0}) → Action S B → Action S B
m >> k = m >>= λ _. k

module _ {S : Type 0} where
  -- `SELECT`
  unfoldable pub select : {A : Type 0} → (S → A) → Action S A
  unfolding statement
  select f = statement (λ s. (f s, s))

  -- `INSERT`, `UPDATE`, `DELETE`
  unfoldable pub exec : (S → S) → Action S (Unit {0})
  unfolding statement
  exec f = statement (λ s. (tt, f s))

module _ {S A : Type 0} where
  -- The deferred function: commit after success, rollback otherwise. `ExecuteTransaction` has an
  -- unnamed result, so the error that the deferred function stores in `err` is not returned.
  abbrev pub finish : S → Result A → World S → Result A × World S
  finish before (ok a) w = (
    ok a,
    elim (next_fault w.faults) [
      | none ↦ record { db = w.db; faults = later_faults w.faults }
      | some m ↦ record { db = before; faults = later_faults w.faults }
    ],
  )
  finish before (err e) w = (err e, record { db = before; faults = later_faults w.faults })
  finish before panic w = (panic, record { db = before; faults = later_faults w.faults })

  unfoldable pub execute_transaction : Action S A → Action S A
  execute_transaction fn w = elim (next_fault w.faults) [
    | some m ↦ (
      err (plain ("failed to start transaction: " ++ m)),
      record w { faults = later_faults w.faults },
    )
    | none ↦ let (r, w') = fn (record w { faults = later_faults w.faults }) in finish w.db r w'
  ]

  -- The transaction of a handler: `tx.Commit` is its last call, and a failure of it is answered.
  abbrev pub commit : (String → Error) → S → Result A → World S → Result A × World S
  commit refused before (ok a) w = elim (next_fault w.faults) [
    | none ↦ (ok a, record { db = w.db; faults = later_faults w.faults })
    | some m ↦ (err (refused m), record { db = before; faults = later_faults w.faults })
  ]
  commit refused before (err e) w = (err e, record { db = before; faults = later_faults w.faults })
  commit refused before panic w = (panic, record { db = before; faults = later_faults w.faults })

  unfoldable pub in_transaction : (String → Error) → (String → Error) → Action S A → Action S A
  in_transaction no_start refused fn w = elim (next_fault w.faults) [
    | some m ↦ (err (no_start m), record w { faults = later_faults w.faults })
    | none ↦
        let (r, w') = fn (record w { faults = later_faults w.faults }) in commit refused w.db r w'
  ]
