-- ===== src/Storage/Interface.antt =====
-- The trait `OpaqueStore` of packages/storage/persistence/src/lib.rs as an interface: its methods over
-- the state of an adapter, the laws that the service relies on, and the in-memory adapter's instance.
use veyora.Prelude.{ℕ, ◌≡◌, Bytes, Option, List, Result, ok, err}
use veyora.Storage.Port.{StoreError, GenericEncryptedRecordV1, RecordSummary}
use veyora.Storage.Memory.{
  InMemoryStore, put, get, current_revision, tombstone, stamp_of, list, list_bodies, put_batch,
  rekey_vault, purge_tombstoned_before,
}
use veyora.Storage.Memory.Writes.{put_err}
use veyora.Storage.Memory.Deletion.{tombstone_err}
use veyora.Storage.Memory.Batch.{put_batch_err}
use veyora.Storage.Memory.Rekey.{rekey_err}

-- A method that writes returns its result and the state after it; `ℕ` before the state is the clock.
pub record OpaqueStore : Type 1 where
  pub State : Type 0
  pub put : GenericEncryptedRecordV1 → Option ℕ → State → Result StoreError ℕ × State
  pub get : Bytes → Bytes → State → Result StoreError GenericEncryptedRecordV1
  pub current_revision : Bytes → Bytes → State → Result StoreError ℕ
  pub tombstone : Bytes → Bytes → ℕ → ℕ → State → Result StoreError ℕ × State
  pub list : Bytes → ℕ → ℕ → State → Result StoreError (List RecordSummary)
  pub list_bodies : Bytes → ℕ → ℕ → State → Result StoreError (List GenericEncryptedRecordV1)
  pub put_batch :
      List GenericEncryptedRecordV1 → List (Option ℕ) → State → Result StoreError (List ℕ) × State
  pub rekey_vault :
      Bytes → Bytes → List GenericEncryptedRecordV1 → ℕ → State → Result StoreError ℕ × State
  pub tombstoned_at : Bytes → Bytes → State → Result StoreError (Option ℕ)
  pub purge_tombstoned_before : Bytes → ℕ → State → Result StoreError ℕ × State

-- What the trait documents of a refused write: it changes nothing.
pub record IsAtomic (store : OpaqueStore) : Type 0 where
  pub put_refused :
      (r : GenericEncryptedRecordV1) (x : Option ℕ) (s : store.State) (e : StoreError)
      → (store.put r x s).0 ≡ err e
      → (store.put r x s).1 ≡ s
  pub tombstone_refused :
      (vault id : Bytes) (x now : ℕ) (s : store.State) (e : StoreError)
      → (store.tombstone vault id x now s).0 ≡ err e
      → (store.tombstone vault id x now s).1 ≡ s
  pub put_batch_refused :
      (rs : List GenericEncryptedRecordV1) (xs : List (Option ℕ)) (s : store.State) (e : StoreError)
      → (store.put_batch rs xs s).0 ≡ err e
      → (store.put_batch rs xs s).1 ≡ s
  pub rekey_refused :
      (vault to_vault : Bytes) (rs : List GenericEncryptedRecordV1) (now : ℕ) (s : store.State)
      (e : StoreError)
      → (store.rekey_vault vault to_vault rs now s).0 ≡ err e
      → (store.rekey_vault vault to_vault rs now s).1 ≡ s

abbrev purge_result : ℕ × InMemoryStore → Result StoreError ℕ × InMemoryStore
purge_result (n, s) = (ok n, s)

-- `InMemoryStore` behind the trait.
abbrev pub in_memory : OpaqueStore
in_memory = record {
  State = InMemoryStore;
  put = put;
  get = get;
  current_revision = current_revision;
  tombstone = tombstone;
  list = λ vault limit offset s. ok (list vault limit offset s);
  list_bodies = λ vault limit offset s. ok (list_bodies vault limit offset s);
  put_batch = put_batch;
  rekey_vault = rekey_vault;
  tombstoned_at = stamp_of;
  purge_tombstoned_before = λ vault before s. purge_result (purge_tombstoned_before vault before s);
}

-- The in-memory adapter keeps what the trait documents: no refused write, tombstone, batch or rekey changes
-- the store.
pub in_memory-IsAtomic : IsAtomic in_memory
in_memory-IsAtomic = record {
  put_refused = put_err;
  tombstone_refused = tombstone_err;
  put_batch_refused = put_batch_err;
  rekey_refused = rekey_err;
}
