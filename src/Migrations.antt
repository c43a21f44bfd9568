-- ===== src/Migrations.antt =====
-- apps/api/internal/database/migrations.go. What a migration's SQL does is an argument: `run_sql`
-- takes its text and the schema of the database, of any type, to an error or the new schema. The
-- directory is an argument too: its entries, with what reading each file answers. A migration's SQL
-- leaves the ledger and the transaction alone, and the advisory lock keeps other runs away.
pub mod Names
pub mod Runs
pub mod Again
mod Examples
use stream_analysis_tools.Base.{
  ℕ, Bool, true, false, not, ◌&&◌, ◌||◌, List, [], ◌∷◌, Option, none, some, Bytes, codes, bytes_eq,
  ltb, ◌==◌, is_some, if◌then◌else◌,
}
use stream_analysis_tools.Errors
use stream_analysis_tools.Errors.{Result, ok, err, other, unique_violation}
use stream_analysis_tools.Go.Strings.{has_suffix}
use stream_analysis_tools.Sql.Session.{
  Session, pure, raise, lift, ◌>>=◌, ◌>>◌, statement, select, call, transact,
}
use stream_analysis_tools.Sql.Table.{find, order_by}

pub record Migration : Type 0 where
  pub name : Bytes
  pub sql : Bytes

-- `fs.DirEntry`, and what `fs.ReadFile` answers for it.
pub record Entry : Type 0 where
  pub name : Bytes
  pub is_dir : Bool
  pub contents : Result Bytes

-- Go's `<` on strings.
unfoldable pub bytes_lt : Bytes → Bytes → Bool
bytes_lt s [] = false
bytes_lt [] (b ∷ t) = true
bytes_lt (a ∷ s) (b ∷ t) = ltb a b || a == b && bytes_lt s t

abbrev pub by_name : Migration → Migration → Bool
by_name a b = bytes_lt a.name b.name

abbrev pub is_up : Entry → Bool
is_up e = not (e.is_dir || not (has_suffix e.name (codes ".up.sql")))

abbrev with_file : Bytes → Result Bytes → Result (List Migration) → Result (List Migration)
with_file name (err e) rest = err e
with_file name (ok sql) (err e) = err e
with_file name (ok sql) (ok ms) = ok (record { name = name; sql = sql } ∷ ms)

-- The loop of `loadMigrations`.
unfoldable pub read_files : List Entry → Result (List Migration)
read_files [] = ok []
read_files (e ∷ es) =
    let rest = read_files es in if is_up e then with_file e.name e.contents rest else rest

abbrev pub sorted : Result (List Migration) → Result (List Migration)
sorted (err e) = err e
sorted (ok ms) = ok (order_by by_name ms)

abbrev loaded : Result (List Entry) → Result (List Migration)
loaded (err e) = err e
loaded (ok es) = sorted (read_files es)

-- `loadMigrations`
unfoldable pub load_migrations : Result (List Entry) → Result (List Migration)
unfolding read_files
load_migrations directory = loaded directory

-- The schema, and public.schema_migrations, if the table is there.
pub record Schema (D : Type 0) : Type 0 where
  pub tables : D
  pub ledger : Option (List Bytes)

abbrev pub ledger_of : Option (List Bytes) → Result (List Bytes)
ledger_of none = err (other "relation does not exist")
ledger_of (some names) = ok names

module _ {D : Type 0} (run_sql : Bytes → D → Result D) where
  abbrev pub is_applied : Bytes → List Bytes → Bool
  is_applied name names = is_some (find (bytes_eq name) names)

  -- SELECT EXISTS (SELECT 1 FROM public.schema_migrations WHERE name = $1)
  unfoldable pub check_applied : Bytes → Session (Schema D) Bool
  check_applied name =
      select λ s. Errors.◌>>=◌ (ledger_of s.ledger) (λ names. ok (is_applied name names))

  abbrev pub altered : Schema D → Result D → Result (Unit {0} × Schema D)
  altered s (err e) = err e
  altered s (ok d) = ok (tt, record s { tables = d })

  -- transaction.Exec(ctx, item.sql)
  unfoldable pub execute_sql : Bytes → Session (Schema D) (Unit {0})
  execute_sql sql = statement λ s. altered s (run_sql sql s.tables)

  abbrev pub noted : Bytes → Schema D → Result (List Bytes) → Result (Unit {0} × Schema D)
  noted name s (err e) = err e
  noted name s (ok names) =
      if is_applied name names
      then err (unique_violation "schema_migrations_pkey")
      else ok (tt, record s { ledger = some (name ∷ names) })

  -- INSERT INTO public.schema_migrations (name) VALUES ($1)
  unfoldable pub record_name : Bytes → Session (Schema D) (Unit {0})
  record_name name = statement λ s. noted name s (ledger_of s.ledger)

  unfoldable pub run_item : Migration → Session (Schema D) (Unit {0})
  unfolding execute_sql record_name
  run_item item = do execute_sql item.sql; record_name item.name

  unfoldable pub unless_applied : Migration → Bool → Session (Schema D) (Unit {0})
  unfolding run_item
  unless_applied item true = pure tt
  unless_applied item false = run_item item

  -- `applyMigration`
  unfoldable pub apply_migration : Migration → Session (Schema D) (Unit {0})
  unfolding check_applied unless_applied
  apply_migration item = transact do applied ← check_applied item.name; unless_applied item applied

  -- The loop of `ApplyMigrations`.
  unfoldable pub apply_each : List Migration → Session (Schema D) (Unit {0})
  unfolding apply_migration
  apply_each [] = pure tt
  apply_each (item ∷ items) = apply_migration item >>= λ _. apply_each items

  abbrev pub with_ledger : Option (List Bytes) → Option (List Bytes)
  with_ledger none = some []
  with_ledger (some names) = some names

  -- CREATE TABLE IF NOT EXISTS public.schema_migrations
  unfoldable pub create_ledger : Session (Schema D) (Unit {0})
  create_ledger = statement λ s. ok (tt, record s { ledger = with_ledger s.ledger })

  abbrev is_nil : List Migration → Bool
  is_nil [] = true
  is_nil (m ∷ ms) = false

  -- The connection and the advisory lock are calls without an effect on the schema.
  unfoldable pub apply_loaded : List Migration → Session (Schema D) (Unit {0})
  unfolding create_ledger apply_each
  apply_loaded items =
      if is_nil items
      then raise (other "no up migrations found")
      else call >>= λ _. call >>= λ _. create_ledger >>= λ _. apply_each items

  -- `ApplyMigrations`
  unfoldable pub apply_migrations : Result (List Entry) → Session (Schema D) (Unit {0})
  unfolding apply_loaded load_migrations
  apply_migrations directory = lift (load_migrations directory) >>= apply_loaded
