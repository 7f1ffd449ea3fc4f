-- ===== src/Storage/Sqlite/Represents.antt =====
-- The table of the SQLite adapter read as the state of the in-memory adapter, statement by statement.
use veyora.Prelude.{
  ℕ, ◌+◌, ◌^◌, ◌≤◌, ◌<◌, ◌≡◌, refl, Bool, true, false, Option, none, some, [], ◌∷◌, Result, ok, err,
  arith, Bool-cases, Option-cases, inl, inr, if◌then◌else◌, ◌==◌,
}
use veyora.Storage.Assoc.{
  Key, HashMap, lookup, insert, retain, key_eq, key_eq_iff, lookup-insert, lookup-remove,
}
use veyora.Storage.Port.{StoreError, GenericEncryptedRecordV1, revision_of, next_revision}
use veyora.Storage.Memory.{InMemoryStore, key_of, write}
use veyora.Storage.Sql.{
  Row, Table, run, select_revision, revision_at, insert_record, insert_row, update_record,
  update_row,
}
use veyora.Storage.Sqlite.{next, write_row, write_next}

abbrev pub columns_at : Option Row → Option GenericEncryptedRecordV1
columns_at none = none
columns_at (some row) = some row.columns

abbrev pub stamp_at : Option Row → Option ℕ
stamp_at none = none
stamp_at (some row) = row.tombstoned_at

unfoldable pub rows_of : Table → HashMap GenericEncryptedRecordV1
rows_of [] = []
rows_of ((k, row) ∷ t) = (k, row.columns) ∷ rows_of t

-- The rows are the table's, in its order; a key's stamp is the stamp of its row.
pub record Represents (t : Table) (s : InMemoryStore) : Type 0 where
  pub rows : s.rows ≡ rows_of t
  pub stamps : (k : Key) → lookup k s.tombstoned_at ≡ stamp_at (lookup k t)

pub lookup-rows_of : (k : Key) (t : Table) → lookup k (rows_of t) ≡ columns_at (lookup k t)
unfolding lookup rows_of
lookup-rows_of k [] = refl
lookup-rows_of k ((j, row) ∷ t) = ground (arith, lookup-rows_of k t)

pub rows_of-insert :
    (k : Key) (row : Row) (t : Table) → rows_of (insert k row t) ≡ insert k row.columns (rows_of t)
unfolding insert rows_of
rows_of-insert k row [] = refl
rows_of-insert k row ((j, w) ∷ t) = ground (arith, rows_of-insert k row t)

pub rows_of-retain : (p : Key → Bool) (t : Table) → rows_of (retain p t) ≡ retain p (rows_of t)
unfolding retain rows_of
rows_of-retain p [] = refl
rows_of-retain p ((j, w) ∷ t) = ground (arith, rows_of-retain p t)

pub lookup-rows :
    (k : Key) (t : Table) (s : InMemoryStore)
    → Represents t s
    → lookup k s.rows ≡ columns_at (lookup k t)
lookup-rows k t s v = rw v.rows (lookup-rows_of k t)

pub revision_at-rows :
    (k : Key) (t : Table) (s : InMemoryStore)
    → Represents t s
    → revision_of (lookup k s.rows) ≡ revision_at (lookup k t)
revision_at-rows k t s v =
    rw (v.rows, lookup-rows_of k t)
      (elim (Option-cases (lookup k t)) [ inl e ↦ rw e refl | inr (r, e) ↦ rw e refl ])

-- A clock reading that fits the column.
abbrev pub Fits : Option ℕ → Type 0
Fits none = Unit
Fits (some stamp) = stamp < 2 ^ 63

-- No revision of the table is above `n`, and every stamp fits its column.
abbrev pub InRange : ℕ → Row → Type 0
InRange n row = (row.columns.revision ≤ n) × Fits row.tombstoned_at

abbrev pub Below : ℕ → Table → Type 0
Below n t = (k : Key) (row : Row) → lookup k t ≡ some row → InRange n row

pub Below-weaken : (m n : ℕ) (t : Table) → m ≤ n → Below m t → Below n t
Below-weaken m n t le b k row h = let p = b k row h in (omega (arith, le, p.0), p.1)

-- The row that a write puts in place.
abbrev pub written_row : GenericEncryptedRecordV1 → ℕ → Option Row → Row
written_row r m prior = record {
  columns = record r { revision = m };
  tombstoned_at = if r.tombstone then stamp_at prior else none;
}

abbrev pub write_table : GenericEncryptedRecordV1 → ℕ → Table → Table
write_table r m t = insert (key_of r) (written_row r m (lookup (key_of r) t)) t

abbrev pub decided :
    GenericEncryptedRecordV1 → Result StoreError ℕ → Table → Result StoreError ℕ × Table
decided r (ok m) t = (ok m, write_table r m t)
decided r (err e) t = (err e, t)

write_next_healthy :
    (r : GenericEncryptedRecordV1) (e : Option ℕ) (t : Table) (o : Option Row)
    → lookup (key_of r) t ≡ o
    → ((row : Row) → o ≡ some row → row.columns.revision + 1 < 2 ^ 63)
    → run (write_next r (revision_at o) (next (revision_at o) e)) [] t
      ≡ decided r (next_revision (revision_at o) e) t
unfolding run next next_revision insert_record insert_row update_record update_row
write_next_healthy r none t none f b = rw f (ground arith)
write_next_healthy r (some x) t none f b = refl
write_next_healthy r none t (some row) f b = refl
write_next_healthy r (some x) t (some row) f b = elim (Bool-cases (row.columns.revision == x)) [
  | inl same ↦ ground (arith, same, f, b row refl)
  | inr other ↦ rw other refl
]

-- With a healthy engine the compare-and-set of the adapter is the port's, as long as revisions are
-- far from the end of the column's range.
pub write_row_healthy :
    (r : GenericEncryptedRecordV1) (e : Option ℕ) (n : ℕ) (t : Table)
    → Below n t
    → n + 1 < 2 ^ 63
    → run (write_row r e) [] t ≡ decided r (next_revision (revision_at (lookup (key_of r) t)) e) t
unfolding run select_revision
write_row_healthy r e n t b small =
    write_next_healthy r e t _ refl (λ row h. omega (arith, (b (key_of r) row h).0))

pub Represents-write :
    (r : GenericEncryptedRecordV1) (m : ℕ) (t : Table) (s : InMemoryStore)
    → Represents t s
    → Represents (write_table r m t) (write r m s)
unfolding write
Represents-write r m t s v = record {
  rows = rw (v.rows, rows_of-insert (key_of r) (written_row r m (lookup (key_of r) t)) t) refl;
  stamps = λ k. ground (
    arith,
    lookup-insert (key_of r) k (written_row r m (lookup (key_of r) t)) t,
    lookup-remove (key_of r) k s.tombstoned_at,
    v.stamps k,
    key_eq_iff (key_of r) k,
  );
}

-- A row in range keeps the table in range.
pub Below-insert :
    (k : Key) (row : Row) (m n : ℕ) (t : Table)
    → Below m t
    → m ≤ n
    → InRange n row
    → Below n (insert k row t)
Below-insert k row m n t b le at j w h = elim (Bool-cases (key_eq k j)) [
  | inl e ↦ rw (the_row e) at
  | inr e ↦ Below-weaken m n t le b j w (rw (lookup-insert k j row t, e) at h)
]
  where
    the_row : key_eq k j ≡ true → w ≡ row
    the_row e = ground (arith, e, lookup-insert k j row t, h)

kept_or_null : (b : Bool) (o : Option ℕ) → Fits o → Fits (if b then o else none)
kept_or_null true o h = h
kept_or_null false o h = tt

pub written_row-InRange :
    (r : GenericEncryptedRecordV1) (m n : ℕ) (o : Option Row)
    → ((row : Row) → o ≡ some row → InRange n row)
    → m ≤ n + 1
    → InRange (n + 1) (written_row r m o)
written_row-InRange r m n none b le = (le, kept_or_null r.tombstone none tt)
written_row-InRange r m n (some row) b le =
    (le, kept_or_null r.tombstone row.tombstoned_at (b row refl).1)

-- A write keeps the revisions in range.
pub Below-write :
    (r : GenericEncryptedRecordV1) (m n : ℕ) (t : Table)
    → Below n t
    → m ≤ n + 1
    → Below (n + 1) (write_table r m t)
Below-write r m n t b le =
    Below-insert (key_of r) (written_row r m (lookup (key_of r) t)) n (n + 1) t b (omega arith)
      (written_row-InRange r m n (lookup (key_of r) t) (b (key_of r)) le)

pub next_revision-le :
    (o : Option Row) (e : Option ℕ) (m n : ℕ)
    → ((row : Row) → o ≡ some row → InRange n row)
    → n + 1 < 2 ^ 63
    → next_revision (revision_at o) e ≡ ok m
    → m ≤ n + 1
unfolding next_revision
next_revision-le none none m n b small h = ground arith
next_revision-le none (some x) m n b small h = cc
next_revision-le (some row) none m n b small h = cc
next_revision-le (some row) (some x) m n b small h = ground (arith, (b row refl).0)

-- Two calls agree: they have one result, the table after the one represents the store after the
-- other, and no revision of the table is above `n`.
abbrev pub Agree :
    {A : Type 0} → ℕ → Result StoreError A × Table → Result StoreError A × InMemoryStore → Type 0
Agree n (a, t) (b, s) = (a ≡ b) × Represents t s × Below n t

-- Both sides refuse alike and change nothing.
pub Agree-refused :
    {A : Type 0} (x : StoreError) (n m : ℕ) (t : Table) (s : InMemoryStore)
    → Represents t s
    → Below n t
    → n ≤ m
    → Agree {A = A} m (err x, t) (err x, s)
Agree-refused x n m t s v b le = (refl, v, Below-weaken n m t le b)
