-- ===== src/Storage/Sqlite/Deletion.antt =====
-- `tombstone` and `purge_tombstoned_before` of `SqliteStore` against the in-memory adapter.
use veyora.Prelude.{
  ℕ, ◌+◌, ◌^◌, ◌≤◌, ◌<◌, ◌≡◌, refl, true, Bytes, Option, none, some, [], ok, arith, Bool-cases, inl,
  inr, ◌==◌,
}
use veyora.Storage.Assoc.{Key, lookup, insert, lookup-insert}
use veyora.Storage.Port.{succ_u64}
use veyora.Storage.Memory.{InMemoryStore, tombstone_row, stamp_row}
use veyora.Storage.Memory
use veyora.Storage.Sql.{
  Row, Table, run, settle, revision_at, select_revision, mark_tombstone, mark_row,
}
use veyora.Storage.Sqlite.{tombstone, mark_next}
use veyora.Storage.Sqlite.Represents.{
  Represents, Below, Agree, Agree-refused, Below-insert, columns_at, lookup-rows, rows_of-insert,
}
use veyora.Storage.Sqlite.Writes.{call-transaction}

abbrev marked_row : Row → ℕ → ℕ → Row
marked_row row n now = record {
  columns = record row.columns { revision = n; tombstone = true };
  tombstoned_at = some now;
}

Represents-mark :
    (k : Key) (row : Row) (e now : ℕ) (t : Table) (s : InMemoryStore)
    → Represents t s
    → Represents (insert k (marked_row row (succ_u64 e) now) t) (stamp_row k row.columns e now s)
unfolding stamp_row
Represents-mark k row e now t s v = record {
  rows = rw (v.rows, rows_of-insert k (marked_row row (succ_u64 e) now) t) refl;
  stamps = λ j. ground (
    arith,
    lookup-insert k j (marked_row row (succ_u64 e) now) t,
    lookup-insert k j now s.tombstoned_at,
    v.stamps j,
  );
}

marked :
    (k : Key) (e now : ℕ) (t : Table) (row : Row)
    → lookup k t ≡ some row
    → row.columns.revision ≡ e
    → row.columns.revision + 1 < 2 ^ 63
    → settle t (run (mark_next k e now (some row.columns.revision)) [] t)
      ≡ (ok (succ_u64 e), insert k (marked_row row (succ_u64 e) now) t)
unfolding run mark_tombstone mark_row
marked k e now t row f same small = ground (arith, f, same, small)

mark_agrees :
    (k : Key) (e now n : ℕ) (t : Table) (s : InMemoryStore) (o : Option Row)
    → lookup k t ≡ o
    → Represents t s
    → Below n t
    → n + 1 < 2 ^ 63
    → now < 2 ^ 63
    → Agree
        (n + 1)
        (settle t (run (mark_next k e now (revision_at o)) [] t))
        (tombstone_row k (columns_at o) e now s)
unfolding run mark_tombstone mark_row tombstone_row
mark_agrees k e now n t s none f v b small clock = Agree-refused _ n (n + 1) t s v b (omega arith)
mark_agrees k e now n t s (some row) f v b small clock =
    elim (Bool-cases (row.columns.revision == e)) [
      | inl same ↦
          let at : row.columns.revision ≡ e = ground (arith, same) in
          let le : row.columns.revision ≤ n = (b k row f).0 in
          rw (marked k e now t row f at (omega (arith, le, small)), same)
            (
              refl,
              Represents-mark k row e now t s v,
              Below-insert k (marked_row row (succ_u64 e) now) n (n + 1) t b (omega arith)
                  (ground (arith, le, at, small), clock),
            )
      | inr other ↦ rw other (Agree-refused _ n (n + 1) t s v b (omega arith))
    ]

-- From a table that represents a store, a deletion has the in-memory adapter's result and ends in a
-- table that represents the in-memory adapter's store.
pub tombstone_agrees :
    (vault id : Bytes) (e now n : ℕ) (t : Table) (s : InMemoryStore)
    → Represents t s
    → Below n t
    → n + 1 < 2 ^ 63
    → now < 2 ^ 63
    → Agree (n + 1) (tombstone [] vault id e now t) (Memory.tombstone vault id e now s)
unfolding tombstone Memory.tombstone run select_revision
tombstone_agrees vault id e now n t s v b small clock =
    rw (call-transaction _ t, lookup-rows (vault, id) t s v)
      (mark_agrees (vault, id) e now n t s _ refl v b small clock)
