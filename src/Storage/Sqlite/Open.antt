-- ===== src/Storage/Sqlite/Open.antt =====
-- The schema steps of `SqliteStore::open` (packages/storage/sqlite/src/lib.rs) and of the two
-- migrations that it runs (packages/storage/sqlite/migrations), statement by statement. Outside a
-- transaction every statement commits by itself, and one that fails changes nothing. Opening the file
-- and its pragmas are not modelled.
pub mod Restart
pub mod Crash
use veyora.Prelude.{
  ℕ, Bool, true, false, Option, none, some, List, [], ◌∷◌, ◌++◌, Result, ok, err, if◌then◌else◌,
  take,
}
use veyora.Storage.Assoc.{lookup, insert}
use veyora.Storage.Port.{StoreError, store_unavailable}
use veyora.Storage.Sql.{Row, Table}

-- The table `records`, and whether it has the column `tombstoned_at`; without the column every stamp
-- of `rows` is NULL.
pub record Relation : Type 0 where
  pub rows : Table
  pub has_stamp : Bool

pub record Schema : Type 0 where
  pub records : Option Relation
  pub records_scoped : Option Table

abbrev pub Statement : Type 0
Statement = Schema → Result StoreError Schema

abbrev pub unstamped : Row → Row
unstamped row = record row { tombstoned_at = none }

-- CREATE TABLE IF NOT EXISTS records (...)
unfoldable pub create_in : Option Relation → Schema → Schema
create_in none s = record s { records = some (record { rows = []; has_stamp = false }) }
create_in (some r) s = s

unfoldable pub create_records : Statement
unfolding create_in
create_records s = ok (create_in s.records s)

-- CREATE TABLE IF NOT EXISTS records_scoped (...)
unfoldable pub create_scoped_in : Option Table → Schema → Schema
create_scoped_in none s = record s { records_scoped = some [] }
create_scoped_in (some t) s = s

unfoldable pub create_scoped : Statement
unfolding create_scoped_in
create_scoped s = ok (create_scoped_in s.records_scoped s)

-- INSERT INTO records_scoped (...) SELECT ... FROM records: the stamp is not among the columns, and a
-- key that is there already is an error.
unfoldable pub copy_rows : Table → Table → Result StoreError Table
copy_rows [] u = ok u
copy_rows ((k, row) ∷ t) u = elim (lookup k u) [
  | none ↦ copy_rows t (insert k (unstamped row) u)
  | some w ↦ err store_unavailable
]

unfoldable pub copied : Result StoreError Table → Schema → Result StoreError Schema
copied (ok u) s = ok (record s { records_scoped = some u })
copied (err e) s = err e

unfoldable pub copy_from : Option Relation → Option Table → Statement
unfolding copied
copy_from (some r) (some u) s = copied (copy_rows r.rows u) s
copy_from (some r) none s = err store_unavailable
copy_from none u s = err store_unavailable

unfoldable pub copy_records : Statement
unfolding copy_from
copy_records s = copy_from s.records s.records_scoped s

-- DROP TABLE records
unfoldable pub drop_in : Option Relation → Statement
drop_in none s = err store_unavailable
drop_in (some r) s = ok (record s { records = none })

unfoldable pub drop_records : Statement
unfolding drop_in
drop_records s = drop_in s.records s

-- ALTER TABLE records_scoped RENAME TO records
unfoldable pub rename_in : Option Relation → Option Table → Statement
rename_in none (some t) s =
    ok (record { records = some (record { rows = t; has_stamp = false }); records_scoped = none })
rename_in none none s = err store_unavailable
rename_in (some r) t s = err store_unavailable

unfoldable pub rename_scoped : Statement
unfolding rename_in
rename_scoped s = rename_in s.records s.records_scoped s

-- The two migration files in a row.
abbrev pub migrations : List Statement
migrations = create_records ∷ create_scoped ∷ copy_records ∷ drop_records ∷ rename_scoped ∷ []

-- ALTER TABLE records ADD COLUMN tombstoned_at INTEGER
abbrev pub on_rows : (Row → Row) → Table → Table
on_rows f [] = []
on_rows f ((k, row) ∷ t) = (k, f row) ∷ on_rows f t

-- UPDATE records SET tombstoned_at = now WHERE tombstone = 1 AND tombstoned_at IS NULL
backfill_stamp : Option ℕ → ℕ → Option ℕ
backfill_stamp none now = some now
backfill_stamp (some stamp) now = some stamp

unfoldable pub backfill_row : ℕ → Row → Row
unfolding backfill_stamp
backfill_row now row =
    if row.columns.tombstone
    then record row { tombstoned_at = backfill_stamp row.tombstoned_at now }
    else row

add_in : Option Relation → Statement
add_in none s = err store_unavailable
add_in (some r) s =
    ok (record s { records = some (record { rows = on_rows unstamped r.rows; has_stamp = true }) })

unfoldable pub add_stamp : Statement
unfolding add_in
add_stamp s = add_in s.records s

backfill_in : ℕ → Option Relation → Statement
backfill_in now none s = err store_unavailable
backfill_in now (some r) s =
    ok (record s { records = some (record r { rows = on_rows (backfill_row now) r.rows }) })

unfoldable pub backfill : ℕ → Statement
unfolding backfill_in
backfill now s = backfill_in now s.records s

-- The statements that follow where `pragma_table_info` does not show the column.
abbrev pub stamp_column : Option Relation → ℕ → List Statement
stamp_column none now = add_stamp ∷ backfill now ∷ []
stamp_column (some r) now = if r.has_stamp then [] else add_stamp ∷ backfill now ∷ []

-- Statements one after the other, up to the first failure.
unfoldable pub execute : List Statement → Schema → Result StoreError (Unit {0}) × Schema
execute [] s = (ok tt, s)
execute (f ∷ fs) s = elim (f s) [ ok u ↦ execute fs u | err e ↦ (err e, s) ]

unfoldable pub then_stamp :
    ℕ → Result StoreError (Unit {0}) × Schema → Result StoreError (Unit {0}) × Schema
then_stamp now (ok u, s) = execute (stamp_column s.records now) s
then_stamp now (err e, s) = (err e, s)

unfoldable pub open_schema : ℕ → Schema → Result StoreError (Unit {0}) × Schema
unfolding then_stamp
open_schema now s = then_stamp now (execute migrations s)

-- The process dies after `n` statements of the migrations.
abbrev pub interrupted : ℕ → Schema → Schema
interrupted n s = (execute (take n migrations) s).1
