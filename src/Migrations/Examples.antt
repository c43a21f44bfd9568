-- ===== src/Migrations/Examples.antt =====
-- A directory of two migrations and a README, on a schema that is a list of the SQL that ran.
use stream_analysis_tools.Base.{
  ◌≡◌, refl, sym, ap, bytes_eq, bytes_eq_iff, ◌≢◌, Bool, All, List, [], ◌∷◌, Bytes, codes, none,
  some, true, false,
}
use stream_analysis_tools.Errors.{Result, ok}
use stream_analysis_tools.Go.Strings.{has_suffix}
use stream_analysis_tools.Migrations.{
  Migration, Entry, bytes_lt, by_name, read_files, load_migrations, Schema, check_applied,
  execute_sql, record_name, run_item, unless_applied, apply_migration, apply_each, create_ledger,
  apply_loaded, apply_migrations,
}
use stream_analysis_tools.Migrations.Names.{Unlike, Up, load_migrations-Strict}
use stream_analysis_tools.Migrations.Runs.{Completed, Stopped, apply_migrations_outcome}
use stream_analysis_tools.Migrations.Again.{apply_migrations_again}
use stream_analysis_tools.Sql.Session.{World, statement, select, call, transact}
use stream_analysis_tools.Sql.Session.Ensures.{After}
use stream_analysis_tools.Sql.Table.{find, order_by, insert_by}
use stream_analysis_tools.Sql.Table.Order.{Strict}

abbrev run_sql : Bytes → List Bytes → Result (List Bytes)
run_sql sql ran = ok (sql ∷ ran)

abbrev second_file : Entry
second_file = record { name = codes "2.up.sql"; is_dir = false; contents = ok (codes "two") }

abbrev first_file : Entry
first_file = record { name = codes "1.up.sql"; is_dir = false; contents = ok (codes "one") }

abbrev readme : Entry
readme = record { name = codes "README"; is_dir = false; contents = ok (codes "text") }

abbrev files : List Entry
files = second_file ∷ readme ∷ first_file ∷ []

abbrev in_order : List Migration
in_order =
    record { name = codes "1.up.sql"; sql = codes "one" }
    ∷ record { name = codes "2.up.sql"; sql = codes "two" }
    ∷ []

files_load : load_migrations (ok files) ≡ ok in_order
unfolding load_migrations read_files order_by insert_by bytes_lt has_suffix bytes_eq
files_load = refl

abbrev before : World (Schema (List Bytes))
before = record { db = record { tables = []; ledger = none }; faults = [] }

abbrev after : Schema (List Bytes)
after = record {
  tables = codes "two" ∷ codes "one" ∷ [];
  ledger = some (codes "2.up.sql" ∷ codes "1.up.sql" ∷ []);
}

files_apply :
    apply_migrations run_sql (ok files) before ≡ (ok tt, record { db = after; faults = [] })
unfolding apply_migrations load_migrations read_files order_by insert_by bytes_lt has_suffix
    apply_loaded create_ledger apply_each apply_migration check_applied unless_applied run_item
    execute_sql record_name statement select call transact find bytes_eq
files_apply = refl

differ : (s t : Bytes) → bytes_eq s t ≡ false → s ≢ t
differ s t h e = opposite ((bytes_eq_iff s t).1 e) h
  where
    opposite : {b : Bool} → b ≡ true → b ≡ false → ⊥
    opposite x y = cc

distinct : Unlike files
unfolding bytes_eq
distinct = (
  (differ second_file.name readme.name refl, (differ second_file.name first_file.name refl, tt)),
  ((differ readme.name first_file.name refl, tt), (tt, tt)),
)

load_migrations-Strict_example : Strict by_name in_order × All Up in_order
load_migrations-Strict_example = load_migrations-Strict files in_order distinct files_load

apply_migrations_outcome_example :
    After
      (λ _. Completed run_sql (ok files) before.db)
      (Stopped run_sql (ok files) before.db)
      (apply_migrations run_sql (ok files) before)
apply_migrations_outcome_example = apply_migrations_outcome run_sql (ok files) before

abbrev interrupted : World (Schema (List Bytes))
interrupted = record { db = after; faults = false ∷ false ∷ true ∷ [] }

apply_migrations_again_example : (apply_migrations run_sql (ok files) interrupted).1.db ≡ after
apply_migrations_again_example =
    apply_migrations_again run_sql (ok files) before interrupted (ap (λ r. r.0) files_apply)
      (sym (ap (λ r. r.1.db) files_apply))
