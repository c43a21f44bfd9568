-- ===== src/Sql/Session.antt =====
-- A session with the database: statements, each of which may fail by itself (a lost connection, a
-- timeout), and transactions. `faults` says of the calls to come which of them fail; where the list
-- has ended no more do. A call that fails by itself has no effect, the commit included.
pub mod Ensures
pub mod Reads
use stream_analysis_tools.Base.{Bool, true, false, List, [], ◌∷◌, Option, none, some, if◌then◌else◌}
use stream_analysis_tools.Errors.{Error, Result, ok, err, no_rows, database_error}

pub record World (D : Type 0) : Type 0 where
  pub db : D
  pub faults : List Bool

abbrev pub Session : Type 0 → Type 0 → Type 0
Session D A = World D → Result A × World D

module _ {D A : Type 0} where
  abbrev pub pure : A → Session D A
  pure a w = (ok a, w)

  abbrev pub raise : Error → Session D A
  raise e w = (err e, w)

  abbrev pub lift : Result A → Session D A
  lift r w = (r, w)

  abbrev pub renamed : (Error → Error) → Result A × World D → Result A × World D
  renamed g (ok a, v) = (ok a, v)
  renamed g (err e, v) = (err (g e), v)

  -- `if err != nil { return …, g(err) }`
  abbrev pub map_err : (Error → Error) → Session D A → Session D A
  map_err g m w = renamed g (m w)

  abbrev pub found : Result A × World D → Result (Option A) × World D
  found (ok a, v) = (ok (some a), v)
  found (err no_rows, v) = (ok none, v)
  found (err e, v) = (err e, v)

  -- A read that goes on where there is no row (`errors.Is(err, pgx.ErrNoRows)`).
  abbrev pub optional : Session D A → Session D (Option A)
  optional m w = found (m w)

module _ {D A B : Type 0} where
  abbrev pub continue : Result A × World D → (A → Session D B) → Result B × World D
  continue (ok a, w) f = f a w
  continue (err e, w) f = (err e, w)

  infixl 5 ◌>>=◌ ◌>>◌
  abbrev pub ◌>>=◌ : Session D A → (A → Session D B) → Session D B
  ◌>>=◌ m f w = continue (m w) f

  abbrev pub ◌>>◌ : Session D A → Session D B → Session D B
  m >> n = m >>= λ _. n

module _ {D A : Type 0} where
  -- What a statement that reached the database did: its result and the new state, or a refusal.
  abbrev pub settle : D → List Bool → Result (A × D) → Result A × World D
  settle db faults (ok (a, db')) = (ok a, record { db = db'; faults = faults })
  settle db faults (err e) = (err e, record { db = db; faults = faults })

  abbrev pub send : (D → Result (A × D)) → D → List Bool → Result A × World D
  send effect db [] = settle db [] (effect db)
  send effect db (false ∷ faults) = settle db faults (effect db)
  send effect db (true ∷ faults) = (err database_error, record { db = db; faults = faults })

  -- One call of the driver.
  unfoldable pub statement : (D → Result (A × D)) → Session D A
  statement effect w = send effect w.db w.faults

  abbrev pub answer : D → Result A → Result (A × D)
  answer db (ok a) = ok (a, db)
  answer db (err e) = err e

  -- A call that only reads.
  unfoldable pub select : (D → Result A) → Session D A
  unfolding statement
  select read = statement (λ db. answer db (read db))

  -- A call that always writes.
  unfoldable pub execute : (D → A × D) → Session D A
  unfolding statement
  execute write = statement (λ db. ok (write db))

module _ {D A : Type 0} where
  -- A call that writes unless the state after it breaks a constraint.
  unfoldable pub checked : (D → Bool) → Error → (D → A × D) → Session D A
  unfolding statement
  checked test refusal write =
      statement (λ db. if test (write db).1 then ok (write db) else err refusal)

-- BEGIN and COMMIT, as calls without an effect of their own.
unfoldable pub call : {D : Type 0} → Session D (Unit {0})
unfolding statement
call = statement (λ db. ok (tt, db))

module _ {D A : Type 0} where
  abbrev pub committed : D → A → Result (Unit {0}) × World D → Result A × World D
  committed before a (ok _, w) = (ok a, w)
  committed before a (err e, w) = (err e, record w { db = before })

  abbrev pub finish : D → Result A × World D → Result A × World D
  finish before (ok a, w) = committed before a (call w)
  finish before (err e, w) = (err e, record w { db = before })

  abbrev pub begun : Session D A → Result (Unit {0}) × World D → Result A × World D
  begun body (ok _, w) = finish w.db (body w)
  begun body (err e, w) = (err e, w)

  -- `transaction, err := BeginTx(…)`, with the deferred rollback, which takes back what the body
  -- wrote unless the commit at its end succeeds. An early return with an error is an error of the
  -- body.
  unfoldable pub transact : Session D A → Session D A
  unfolding call
  transact body w = begun body (call w)

  -- `if errors.Is(err, pgx.ErrNoRows) { … } else if err != nil { … }`, and the rest otherwise.
  abbrev pub handled : (Error → Session D A) → Result A × World D → Result A × World D
  handled h (ok a, w) = (ok a, w)
  handled h (err e, w) = h e w

  abbrev pub catch : Session D A → (Error → Session D A) → Session D A
  catch m h w = handled h (m w)
