-- ===== src/Storage/Sqlite/Writes.antt =====
-- `put` and `put_batch` of `SqliteStore` against the in-memory adapter.
use veyora.Prelude.{
  is_empty, ℕ, ◌+◌, ◌^◌, ◌≤◌, ◌<◌, ◌≡◌, refl, false, Option, [], Result, ok, err, arith, ◌>>=◌,
}
use veyora.Storage.Assoc.{lookup}
use veyora.Storage.Port.{StoreError, GenericEncryptedRecordV1, revision_of, next_revision}
use veyora.Storage.Port
use veyora.Storage.Memory.{InMemoryStore, key_of, write, put_checked}
use veyora.Storage.Memory
use veyora.Storage.Sql.{Table, Tx, run, call, settle, checked, transaction, revision_at}
use veyora.Storage.Sql.Faults.{follow, run->>>}
use veyora.Storage.Sqlite.{validate, write_row, put}
use veyora.Storage.Sqlite.Represents.{
  Represents, Below, Agree, Agree-refused, decided, write_row_healthy, Represents-write,
  Below-write, next_revision-le, revision_at-rows,
}

followed :
    {A : Type 0} (t : Table) (p : Result StoreError A × Table)
    → settle t (follow p (λ a u. (ok a, u))) ≡ settle t p
followed t (ok a, u) = refl
followed t (err e, u) = refl

-- A transaction with a healthy engine.
pub call-transaction :
    {A : Type 0} (m : Tx A) (t : Table) → call (transaction m) [] t ≡ settle t (run m [] t)
unfolding call run
call-transaction m t = rw (run->>> m _ t) (followed t (run m [] t))

-- On a record with a vault id the record checks of the two adapters are one.
pub validate_agrees :
    (r : GenericEncryptedRecordV1) → is_empty r.vault_id ≡ false → validate r ≡ Port.validate r
unfolding validate Port.validate
validate_agrees r h = ground (arith, h)

-- The compare-and-set of one record.
pub decided_agrees :
    (r : GenericEncryptedRecordV1) (n : ℕ) (t : Table) (s : InMemoryStore) (d : Result StoreError ℕ)
    → Represents t s
    → Below n t
    → ((m : ℕ) → d ≡ ok m → m ≤ n + 1)
    → Agree (n + 1) (settle t (decided r d t)) (put_checked r d s)
unfolding put_checked
decided_agrees r n t s (err x) v b small = Agree-refused x n (n + 1) t s v b (omega arith)
decided_agrees r n t s (ok m) v b small =
    (refl, Represents-write r m t s v, Below-write r m n t b (small m refl))

put_tx_agrees :
    (r : GenericEncryptedRecordV1) (e : Option ℕ) (n : ℕ) (t : Table) (s : InMemoryStore)
    (a : Result StoreError (Unit {0}))
    → Represents t s
    → Below n t
    → n + 1 < 2 ^ 63
    → Agree
        (n + 1)
        (call (checked a (transaction (write_row r e))) [] t)
        (put_checked r (a >>= λ _. next_revision (revision_at (lookup (key_of r) t)) e) s)
unfolding call run put_checked
put_tx_agrees r e n t s (err x) v b small = Agree-refused x n (n + 1) t s v b (omega arith)
put_tx_agrees r e n t s (ok u) v b small =
    rw (call-transaction (write_row r e) t, write_row_healthy r e n t b small)
      (decided_agrees r n t s _ v b
        λ m h. next_revision-le (lookup (key_of r) t) e m n (b (key_of r)) small h)

-- From a table that represents a store, a write of a record with a vault id has the in-memory
-- adapter's result and ends in a table that represents the in-memory adapter's store.
pub put_agrees :
    (r : GenericEncryptedRecordV1) (e : Option ℕ) (n : ℕ) (t : Table) (s : InMemoryStore)
    → is_empty r.vault_id ≡ false
    → Represents t s
    → Below n t
    → n + 1 < 2 ^ 63
    → Agree (n + 1) (put [] r e t) (Memory.put r e s)
unfolding put Memory.put
put_agrees r e n t s named v b small =
    rw (revision_at-rows (key_of r) t s v, validate_agrees r named)
      (put_tx_agrees r e n t s (Port.validate r) v b small)
