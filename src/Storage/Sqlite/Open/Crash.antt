-- ===== src/Storage/Sqlite/Open/Crash.antt =====
-- A start of `SqliteStore` after an earlier one died between two statements of the migrations.
use veyora.Prelude.{
  ℕ, zero, suc, ◌≡◌, ◌≢◌, refl, ◌∙◌, ap, Bool, true, false, none, some, [], ◌∷◌, Result, ok, err,
  arith,
}
use veyora.Storage.Assoc.{Key, lookup, Distinct, key_eq_refl}
use veyora.Storage.Port.{StoreError, store_unavailable}
use veyora.Storage.Sql.{Row, Table}
use veyora.Storage.Sqlite.Open.{
  Schema, unstamped, on_rows, execute, open_schema, interrupted, create_records, create_in,
  create_scoped, create_scoped_in, copy_records, copy_from, copied, copy_rows, drop_records,
  drop_in, rename_scoped, rename_in, then_stamp,
}
use veyora.Storage.Sqlite.Open.Restart.{
  with_table, with_both, restamp, open_restamps, copy_rows_present, execute_ok, execute_err,
  copy_fresh, rebuild_rest, stamp_added,
}

-- The database between DROP TABLE and RENAME.
abbrev scoped_only : Table → Schema
scoped_only t = record { records = none; records_scoped = some t }

lookup-on_rows :
    (f : Row → Row) (k : Key) (t : Table) → lookup k t ≡ none → lookup k (on_rows f t) ≡ none
unfolding lookup
lookup-on_rows f k [] h = refl
lookup-on_rows f k ((j, row) ∷ t) h = ground (arith, h, lookup-on_rows f k t)

Distinct-on_rows : (f : Row → Row) (t : Table) → Distinct t → Distinct (on_rows f t)
Distinct-on_rows f [] d = tt
Distinct-on_rows f ((k, row) ∷ t) (free, d) = (lookup-on_rows f k t free, Distinct-on_rows f t d)

restamp-unstamped :
    (now : ℕ) (t : Table) → on_rows (restamp now) (on_rows unstamped t) ≡ on_rows (restamp now) t
restamp-unstamped now [] = refl
restamp-unstamped now ((k, row) ∷ t) = rw (restamp-unstamped now t) refl

module _ (t : Table) (h : Bool) (d : Distinct t) where
  dead_at_3 : interrupted 3 (with_table t h) ≡ with_both t h (on_rows unstamped t)
  unfolding execute create_records create_in create_scoped create_scoped_in
  dead_at_3 =
      ap (λ (p : Result StoreError (Unit {0}) × Schema). p.1)
        (execute_ok copy_records [] (with_both t h []) _ (copy_fresh t h d))

  dead_at_4 : interrupted 4 (with_table t h) ≡ scoped_only (on_rows unstamped t)
  unfolding execute create_records create_in create_scoped create_scoped_in drop_records drop_in
  dead_at_4 =
      ap (λ (p : Result StoreError (Unit {0}) × Schema). p.1)
        (execute_ok copy_records (drop_records ∷ []) (with_both t h []) _ (copy_fresh t h d))

  dead_later :
      (n : ℕ)
      → interrupted (suc (suc (suc (suc (suc n))))) (with_table t h)
        ≡ with_table (on_rows unstamped t) false
  unfolding execute create_records create_in create_scoped create_scoped_in
  dead_later zero = ap (λ (p : Result StoreError (Unit {0}) × Schema). p.1) (rebuild_rest t h d)
  dead_later (suc n) = ap (λ (p : Result StoreError (Unit {0}) × Schema). p.1) (rebuild_rest t h d)

  pub open_from_both :
      (now : ℕ)
      → open_schema now (with_both t h []) ≡ (ok tt, with_table (on_rows (restamp now) t) true)
  unfolding open_schema execute create_records create_in create_scoped create_scoped_in
  open_from_both now = stamp_added now _ t (rebuild_rest t h d)

  pub open_from_scoped :
      (now : ℕ)
      → open_schema now (scoped_only (on_rows unstamped t))
        ≡ (ok tt, with_table (on_rows (restamp now) t) true)
  unfolding open_schema execute create_records create_in create_scoped create_scoped_in copy_records
      copy_from copied copy_rows drop_records drop_in rename_scoped rename_in
  open_from_scoped now = stamp_added now _ t refl

-- A start that follows one that died after `n` statements of the migrations succeeds as if it had
-- not died, unless the earlier one died between the copy of the rows and the drop of the old table.
pub open_recovers :
    (n now : ℕ) (t : Table) (has_stamp : Bool)
    → Distinct t
    → n ≢ 3
    → open_schema now (interrupted n (with_table t has_stamp))
      ≡ (ok tt, with_table (on_rows (restamp now) t) true)
unfolding execute create_records create_in create_scoped create_scoped_in
open_recovers zero now t h d ne = open_restamps now t h d
open_recovers (suc zero) now t h d ne = open_restamps now t h d
open_recovers (suc (suc zero)) now t h d ne = open_from_both t h d now
open_recovers (suc (suc (suc zero))) now t h d ne = absurd (ne refl)
open_recovers (suc (suc (suc (suc zero)))) now t h d ne =
    rw (dead_at_4 t h d) (open_from_scoped t h d now)
open_recovers (suc (suc (suc (suc (suc n))))) now t h d ne = rw (dead_later t h d n) (
    open_restamps now (on_rows unstamped t) false (Distinct-on_rows unstamped t d)
    ∙ ap (λ u. (ok tt, with_table u true)) (restamp-unstamped now t))

copy_again :
    (k : Key) (row : Row) (t : Table) (h : Bool)
    → copy_records (with_both ((k, row) ∷ t) h (on_rows unstamped ((k, row) ∷ t)))
      ≡ err store_unavailable
unfolding copy_records copy_from copied lookup
copy_again k row t h =
    rw (copy_rows_present k row (unstamped row) t (on_rows unstamped ((k, row) ∷ t)) first) refl
  where
    first : lookup k (on_rows unstamped ((k, row) ∷ t)) ≡ some (unstamped row)
    first = rw (key_eq_refl k) refl

-- The start that meets both tables.
stuck :
    (now : ℕ) (k : Key) (row : Row) (t : Table) (h : Bool)
    → let s = with_both ((k, row) ∷ t) h (on_rows unstamped ((k, row) ∷ t)) in
      open_schema now s ≡ (err store_unavailable, s)
unfolding open_schema execute create_records create_in create_scoped create_scoped_in then_stamp
stuck now k row t h =
    ap (then_stamp now)
      (execute_err copy_records (drop_records ∷ rename_scoped ∷ []) _ _ (copy_again k row t h))

-- If a start died between the copy of the rows of a table that is not empty and the drop of the old
-- table, every later start fails and leaves the database as it is.
pub open_stuck :
    (now : ℕ) (k : Key) (row : Row) (t : Table) (has_stamp : Bool)
    → Distinct ((k, row) ∷ t)
    → let s = interrupted 3 (with_table ((k, row) ∷ t) has_stamp) in
      open_schema now s ≡ (err store_unavailable, s)
open_stuck now k row t h d = rw (dead_at_3 ((k, row) ∷ t) h d) (stuck now k row t h)
