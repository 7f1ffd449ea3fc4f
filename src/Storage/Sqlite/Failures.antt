-- ===== src/Storage/Sqlite/Failures.antt =====
-- `SqliteStore` with an engine whose calls may fail: what a failed write leaves behind.
use veyora.Prelude.{Option, Bytes, ◌≡◌, ap, ◌⊎◌, inl, inr, [], ok, err, ◌>>=◌, ℕ, Result, List}
use veyora.Storage.Port.{StoreError, store_unavailable, GenericEncryptedRecordV1}
use veyora.Storage.Interface.{OpaqueStore, IsAtomic}
use veyora.Storage.Sql.{Table, Faults}
use veyora.Storage.Sql.Faults.{
  IsAllOrNothing, transaction-IsAllOrNothing, checked-IsAllOrNothing, statement_fault,
}
use veyora.Storage.Sqlite.{
  validate, validate_all, write_row, write_rows, scope_check, put_tx, put_batch_tx, tombstone_tx,
  rekey_tx, put, get, tombstone, list, list_bodies, put_batch, rekey_vault, stamp_of,
  purge_tombstoned_before,
}
use veyora.Storage.Sqlite.Run.{
  Call, puts, batches, tombstones, rekeys, purges, Answer, number, numbers, one, many, sqlite_step,
}

-- `store_unavailable`, as the answer of the call's type.
abbrev pub refusal : Call → Answer
refusal (puts r e) = number (err store_unavailable)
refusal (batches rs es) = numbers (err store_unavailable)
refusal (tombstones vault id e now) = number (err store_unavailable)
refusal (rekeys vault to_vault rs now) = number (err store_unavailable)
refusal (purges vault before) = number (err store_unavailable)

-- The call was refused and changed nothing, or it went as with a healthy engine.
abbrev FailsSafe : {A : Type 0} → A × Table → A → Table → A × Table → Type 0
FailsSafe p refused t healthy = (p ≡ (refused, t)) ⊎ (p ≡ healthy)

FailsSafe-one :
    (p q : Result StoreError ℕ × Table) (t : Table)
    → FailsSafe p (err store_unavailable) t q
    → FailsSafe (one p) (number (err store_unavailable)) t (one q)
FailsSafe-one p q t (inl e) = inl (ap one e)
FailsSafe-one p q t (inr e) = inr (ap one e)

FailsSafe-many :
    (p q : Result StoreError (List ℕ) × Table) (t : Table)
    → FailsSafe p (err store_unavailable) t q
    → FailsSafe (many p) (numbers (err store_unavailable)) t (many q)
FailsSafe-many p q t (inl e) = inl (ap many e)
FailsSafe-many p q t (inr e) = inr (ap many e)

put_tx-IsAllOrNothing : (r : GenericEncryptedRecordV1) (e : Option ℕ) → IsAllOrNothing (put_tx r e)
put_tx-IsAllOrNothing r e =
    checked-IsAllOrNothing (validate r) _ (transaction-IsAllOrNothing (write_row r e))

put_batch_tx-IsAllOrNothing :
    (rs : List GenericEncryptedRecordV1) (es : List (Option ℕ))
    → IsAllOrNothing (put_batch_tx rs es)
put_batch_tx-IsAllOrNothing rs es =
    checked-IsAllOrNothing (validate_all rs) _ (transaction-IsAllOrNothing (write_rows rs es))

tombstone_tx-IsAllOrNothing :
    (vault id : Bytes) (e now : ℕ) → IsAllOrNothing (tombstone_tx vault id e now)
tombstone_tx-IsAllOrNothing vault id e now = transaction-IsAllOrNothing _

rekey_tx-IsAllOrNothing :
    (vault to_vault : Bytes) (rs : List GenericEncryptedRecordV1) (clock : ℕ → ℕ)
    → IsAllOrNothing (rekey_tx vault to_vault rs clock)
rekey_tx-IsAllOrNothing vault to_vault rs clock =
    checked-IsAllOrNothing (validate_all rs) _
      (checked-IsAllOrNothing (scope_check vault to_vault) _ (transaction-IsAllOrNothing _))

-- Whichever engine calls fail during a write, a batch, a deletion, a rekey or a purge, the commit
-- included: the call has the answer and the table of a healthy engine, or it answers
-- `store_unavailable` and the table is unchanged. The engine rolls back what a transaction did, and
-- nothing that was done outside of one.
pub step_fault :
    (g : Faults) (c : Call) (t : Table)
    → (sqlite_step g c t ≡ (refusal c, t)) ⊎ (sqlite_step g c t ≡ sqlite_step [] c t)
unfolding sqlite_step put put_batch tombstone rekey_vault purge_tombstoned_before
step_fault g (puts r e) t = FailsSafe-one _ _ t ((put_tx-IsAllOrNothing r e).faulty g t)
step_fault g (batches rs es) t =
    FailsSafe-many _ _ t ((put_batch_tx-IsAllOrNothing rs es).faulty g t)
step_fault g (tombstones vault id e now) t =
    FailsSafe-one _ _ t ((tombstone_tx-IsAllOrNothing vault id e now).faulty g t)
step_fault g (rekeys vault to_vault rs now) t =
    FailsSafe-one _ _ t ((rekey_tx-IsAllOrNothing vault to_vault rs (λ _. now)).faulty g t)
step_fault g (purges vault before) t = FailsSafe-one _ _ t (statement_fault _ g t)

-- `SqliteStore` behind the trait; `current_revision` is the trait's default.
abbrev pub sqlite : Faults → OpaqueStore
sqlite g = record {
  State = Table;
  put = put g;
  get = λ vault id t. (get g vault id t).0;
  current_revision = λ vault id t. (get g vault id t).0 >>= λ r. ok r.revision;
  tombstone = tombstone g;
  list = λ vault limit offset t. (list g vault limit offset t).0;
  list_bodies = λ vault limit offset t. (list_bodies g vault limit offset t).0;
  put_batch = put_batch g;
  rekey_vault = λ vault to_vault rs now. rekey_vault g vault to_vault rs (λ _. now);
  tombstoned_at = λ vault id t. (stamp_of g vault id t).0;
  purge_tombstoned_before = purge_tombstoned_before g;
}

-- Whichever engine calls fail, the SQLite adapter keeps what the trait documents: no refused write,
-- tombstone, batch or rekey changes the table.
pub sqlite-IsAtomic : (g : Faults) → IsAtomic (sqlite g)
unfolding put put_batch tombstone rekey_vault
sqlite-IsAtomic g = record {
  put_refused = λ r x t e. (put_tx-IsAllOrNothing r x).refused g t e;
  tombstone_refused =
      λ vault id x now t e. (tombstone_tx-IsAllOrNothing vault id x now).refused g t e;
  put_batch_refused = λ rs xs t e. (put_batch_tx-IsAllOrNothing rs xs).refused g t e;
  rekey_refused = λ vault to_vault rs now t e.
      (rekey_tx-IsAllOrNothing vault to_vault rs (λ _. now)).refused g t e;
}
