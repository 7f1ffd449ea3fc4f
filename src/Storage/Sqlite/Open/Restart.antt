-- ===== src/Storage/Sqlite/Open/Restart.antt =====
-- What opening a database again does to its rows, also after a crash during an earlier start.
use veyora.Prelude.{
  ℕ, ◌≡◌, refl, ◌∙◌, Bool, true, false, none, some, List, [], ◌∷◌, ◌++◌, append_assoc, append-nil,
  Result, ok, err, arith, Bool-cases, inl, inr, if◌then◌else◌,
}
use veyora.Storage.Assoc.{Key, HashMap, lookup, insert, Distinct, key_eq, key_eq_iff, lookup-insert}
use veyora.Storage.Port.{StoreError, store_unavailable}
use veyora.Storage.Sql.{Row, Table}
use veyora.Storage.Sqlite.Open.{
  Schema, Statement, unstamped, copy_rows, on_rows, backfill_row, execute, open_schema, migrations,
  create_records, create_in, create_scoped, create_scoped_in, copy_records, copy_from, copied,
  drop_records, drop_in, rename_scoped, rename_in, add_stamp, add_in, backfill, backfill_in,
  then_stamp, backfill_stamp,
}

-- A database as `open` leaves it: the table, with the stamp column or without, and no other.
abbrev pub with_table : Table → Bool → Schema
with_table t has_stamp = record {
  records = some (record { rows = t; has_stamp = has_stamp });
  records_scoped = none;
}

-- Every tombstone is stamped `now`, whatever stamp it had, and no live row has a stamp.
abbrev pub restamp : ℕ → Row → Row
restamp now row = record row { tombstoned_at = if row.columns.tombstone then some now else none }

insert_last {ℓ} :
    {V : Type ℓ} (k : Key) (v : V) (m : HashMap V)
    → lookup k m ≡ none
    → insert k v m ≡ m ++ ((k, v) ∷ [])
unfolding lookup insert
insert_last k v [] h = refl
insert_last k v ((j, w) ∷ m) h = elim (Bool-cases (key_eq j k)) [
  | inl e ↦ ground (arith, e, h)
  | inr e ↦ rw (e, insert_last k v m (rw e at h)) refl
]

-- None of the rows has its key in the table yet.
abbrev NewTo : Table → Table → Type 0
NewTo u [] = Unit
NewTo u ((k, row) ∷ t) = (lookup k u ≡ none) × NewTo u t

NewTo-insert :
    (k : Key) (row : Row) (u t : Table) → lookup k t ≡ none → NewTo u t → NewTo (insert k row u) t
unfolding lookup
NewTo-insert k row u [] free new = tt
NewTo-insert k row u ((j, w) ∷ t) free (n, new) = (
  ground (arith, lookup-insert k j row u, key_eq_iff k j, key_eq_iff j k, n, free),
  NewTo-insert k row u t (ground (arith, free)) new,
)

copy_rows_new :
    (t u : Table) → Distinct t → NewTo u t → copy_rows t u ≡ ok (u ++ on_rows unstamped t)
unfolding copy_rows
copy_rows_new [] u d new = rw (append-nil u) refl
copy_rows_new ((k, row) ∷ t) u (free, d) (n, new) =
    rw (copy_rows, n)
      (rw
        (
          copy_rows_new t (insert k (unstamped row) u) d
              (NewTo-insert k (unstamped row) u t free new),
          insert_last k (unstamped row) u n,
          append_assoc u ((k, unstamped row) ∷ []) (on_rows unstamped t),
        )
        refl)

pub copy_rows_present :
    (k : Key) (row w : Row) (t u : Table)
    → lookup k u ≡ some w
    → copy_rows ((k, row) ∷ t) u ≡ err store_unavailable
unfolding copy_rows
copy_rows_present k row w t u h = rw (copy_rows, h) refl

NewTo-empty : (t : Table) → NewTo [] t
unfolding lookup
NewTo-empty [] = tt
NewTo-empty ((k, row) ∷ t) = (refl, NewTo-empty t)

backfilled : (now : ℕ) (row : Row) → backfill_row now (unstamped row) ≡ restamp now row
unfolding backfill_row backfill_stamp
backfilled now row = elim (Bool-cases row.columns.tombstone) [
  | inl e ↦ simp e refl
  | inr e ↦ simp e refl
]

restamp_rows :
    (now : ℕ) (t : Table)
    → on_rows (backfill_row now) (on_rows unstamped t) ≡ on_rows (restamp now) t
restamp_rows now [] = refl
restamp_rows now ((k, row) ∷ t) = rw (restamp_rows now t, backfilled now row) refl

pub unstamped_twice : (t : Table) → on_rows unstamped (on_rows unstamped t) ≡ on_rows unstamped t
unstamped_twice [] = refl
unstamped_twice ((k, row) ∷ t) = rw (unstamped_twice t) refl

pub execute_ok :
    (f : Statement) (fs : List Statement) (s u : Schema)
    → f s ≡ ok u
    → execute (f ∷ fs) s ≡ execute fs u
unfolding execute
execute_ok f fs s u e = rw (execute, e) refl

pub execute_err :
    (f : Statement) (fs : List Statement) (s : Schema) (x : StoreError)
    → f s ≡ err x
    → execute (f ∷ fs) s ≡ (err x, s)
unfolding execute
execute_err f fs s x e = rw (execute, e) refl

-- Both tables, during a rebuild.
abbrev pub with_both : Table → Bool → Table → Schema
with_both t has_stamp u = record {
  records = some (record { rows = t; has_stamp = has_stamp });
  records_scoped = some u;
}

pub copy_fresh :
    (t : Table) (h : Bool)
    → Distinct t
    → copy_records (with_both t h []) ≡ ok (with_both t h (on_rows unstamped t))
unfolding copy_records copy_from copied
copy_fresh t h d = rw (copy_rows_new t [] d (NewTo-empty t)) refl

-- The rebuild, from the copy on.
pub rebuild_rest :
    (t : Table) (h : Bool)
    → Distinct t
    → execute (copy_records ∷ drop_records ∷ rename_scoped ∷ []) (with_both t h [])
      ≡ (ok tt, with_table (on_rows unstamped t) false)
unfolding execute drop_records drop_in rename_scoped rename_in
rebuild_rest t h d =
    execute_ok copy_records (drop_records ∷ rename_scoped ∷ []) _ _ (copy_fresh t h d) ∙ refl

migrated :
    (t : Table) (h : Bool)
    → Distinct t
    → execute migrations (with_table t h) ≡ (ok tt, with_table (on_rows unstamped t) false)
unfolding execute create_records create_in create_scoped create_scoped_in
migrated t h d = rebuild_rest t h d

pub stamp_added :
    (now : ℕ) (p : Result StoreError (Unit {0}) × Schema) (t : Table)
    → p ≡ (ok tt, with_table (on_rows unstamped t) false)
    → then_stamp now p ≡ (ok tt, with_table (on_rows (restamp now) t) true)
unfolding then_stamp execute add_stamp add_in backfill backfill_in
stamp_added now p t e = rw e (rw (unstamped_twice t, restamp_rows now t) refl)

-- Opening a database that was opened before succeeds, keeps every record, and stamps every tombstone
-- with the time of this start: the deletion stamp that the row had is lost.
pub open_restamps :
    (now : ℕ) (t : Table) (has_stamp : Bool)
    → Distinct t
    → open_schema now (with_table t has_stamp) ≡ (ok tt, with_table (on_rows (restamp now) t) true)
unfolding open_schema
open_restamps now t h d = stamp_added now _ t (migrated t h d)
