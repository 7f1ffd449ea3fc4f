-- ===== src/Storage/Memory.antt =====
-- `InMemoryStore` of packages/storage/persistence/src/lib.rs: each trait method as a function of
-- the store, with `utc_now_epoch()` as an argument where the method reads the clock. The proofs are
-- in the modules below.
pub mod Writes
pub mod Invariant
pub mod Rekey
pub mod Batch
pub mod Purge
pub mod Deletion
pub mod Listing
pub mod Pages
pub mod Corners
mod Tests
use veyora.Prelude.{
  is_empty, ℕ, ◌+◌, Bool, true, false, not, ◌&&◌, Bytes, bytes_eq, Option, none, some, List, [],
  ◌∷◌, map, Result, ok, err, ◌>>=◌, ◌==◌, leb, if◌then◌else◌, length, take, drop, filter, any,
  bytes_lt,
}
use veyora.Storage.Assoc.{Key, HashMap, lookup, insert, remove, retain}
use veyora.Storage.Port.{
  StoreError, conflict, not_found, invalid_record, GenericEncryptedRecordV1, RecordSummary,
  validate, succ_u64, revision_of, next_revision,
}

pub record InMemoryStore : Type 0 where
  pub rows : HashMap GenericEncryptedRecordV1
  pub tombstoned_at : HashMap ℕ

abbrev pub empty_store : InMemoryStore
empty_store = record { rows = []; tombstoned_at = [] }

abbrev pub key_of : GenericEncryptedRecordV1 → Key
key_of r = (r.vault_id, r.record_id)

-- One planned write: the row takes its new revision, and a live row clears its deletion stamp.
unfoldable pub write : GenericEncryptedRecordV1 → ℕ → InMemoryStore → InMemoryStore
write r assigned s = record {
  rows = insert (key_of r) (record r { revision = assigned }) s.rows;
  tombstoned_at = if r.tombstone then s.tombstoned_at else remove (key_of r) s.tombstoned_at;
}

unfoldable pub put_checked :
    GenericEncryptedRecordV1
    → Result StoreError ℕ
    → InMemoryStore
    → Result StoreError ℕ × InMemoryStore
put_checked r (ok assigned) s = (ok assigned, write r assigned s)
put_checked r (err e) s = (err e, s)

unfoldable pub put :
    GenericEncryptedRecordV1 → Option ℕ → InMemoryStore → Result StoreError ℕ × InMemoryStore
unfolding put_checked
put r expected s =
    put_checked r
      (validate r >>= λ _. next_revision (revision_of (lookup (key_of r) s.rows)) expected) s

unfoldable pub get : Bytes → Bytes → InMemoryStore → Result StoreError GenericEncryptedRecordV1
get vault id s = elim (lookup (vault, id) s.rows) [ none ↦ err not_found | some r ↦ ok r ]

unfoldable pub current_revision : Bytes → Bytes → InMemoryStore → Result StoreError ℕ
current_revision vault id s = get vault id s >>= λ r. ok r.revision

-- The row becomes a tombstone of the next revision and takes the deletion stamp `now`.
unfoldable pub stamp_row : Key → GenericEncryptedRecordV1 → ℕ → ℕ → InMemoryStore → InMemoryStore
stamp_row k r expected now s = record {
  rows = insert k (record r { tombstone = true; revision = succ_u64 expected }) s.rows;
  tombstoned_at = insert k now s.tombstoned_at;
}

unfoldable pub tombstone_row :
    Key
    → Option GenericEncryptedRecordV1
    → ℕ
    → ℕ
    → InMemoryStore
    → Result StoreError ℕ × InMemoryStore
tombstone_row k none expected now s = (err not_found, s)
tombstone_row k (some r) expected now s =
    if r.revision == expected
    then (ok (succ_u64 expected), stamp_row k r expected now s)
    else (err conflict, s)

unfoldable pub tombstone :
    Bytes → Bytes → ℕ → ℕ → InMemoryStore → Result StoreError ℕ × InMemoryStore
unfolding tombstone_row
tombstone vault id expected now s =
    tombstone_row (vault, id) (lookup (vault, id) s.rows) expected now s

unfoldable pub stamp_of : Bytes → Bytes → InMemoryStore → Result StoreError (Option ℕ)
stamp_of vault id s = get vault id s >>= λ _. ok (lookup (vault, id) s.tombstoned_at)

-- Listing: the rows of the vault in the order of their record ids, one page of them.
unfoldable pub paged {ℓ} : {A : Type ℓ} → List A → ℕ → ℕ → List A
paged rows limit offset = if leb (length rows) offset then [] else take limit (drop offset rows)

unfoldable pub insert_by_id :
    GenericEncryptedRecordV1 → List GenericEncryptedRecordV1 → List GenericEncryptedRecordV1
insert_by_id r [] = r ∷ []
insert_by_id r (q ∷ qs) =
    let rest = insert_by_id r qs in
    if bytes_lt q.record_id r.record_id then q ∷ rest else r ∷ q ∷ qs

-- `sort_by(|a, b| a.record_id.cmp(&b.record_id))`, a stable sort
pub sort_by_id : List GenericEncryptedRecordV1 → List GenericEncryptedRecordV1
unfolding insert_by_id
sort_by_id [] = []
sort_by_id (r ∷ rs) = insert_by_id r (sort_by_id rs)

abbrev pub values {ℓ} : {V : Type ℓ} → HashMap V → List V
values [] = []
values ((k, v) ∷ m) = v ∷ values m

unfoldable pub vault_rows : Bytes → InMemoryStore → List GenericEncryptedRecordV1
vault_rows vault s = sort_by_id (filter (λ r. bytes_eq r.vault_id vault) (values s.rows))

abbrev pub summary : GenericEncryptedRecordV1 → RecordSummary
summary r = record {
  record_id = r.record_id;
  revision = r.revision;
  tombstone = r.tombstone;
  ciphertext_hash = r.ciphertext_hash;
}

unfoldable pub list_bodies : Bytes → ℕ → ℕ → InMemoryStore → List GenericEncryptedRecordV1
list_bodies vault limit offset s = paged (vault_rows vault s) limit offset

unfoldable pub list : Bytes → ℕ → ℕ → InMemoryStore → List RecordSummary
list vault limit offset s = paged (map summary (vault_rows vault s)) limit offset

-- The batch: every row is checked, then planned against the state before the batch, then applied.
unfoldable pub validate_all : List GenericEncryptedRecordV1 → Result StoreError (Unit {0})
validate_all [] = ok tt
validate_all (r ∷ rs) = validate r >>= λ _. validate_all rs

abbrev pub Plan : Type 0
Plan = List (GenericEncryptedRecordV1 × ℕ)

-- `zip` stops at the shorter list.
unfoldable pub plan_batch :
    HashMap GenericEncryptedRecordV1
    → List GenericEncryptedRecordV1
    → List (Option ℕ)
    → Result StoreError Plan
plan_batch rows [] expected = ok []
plan_batch rows (r ∷ rs) [] = ok []
plan_batch rows (r ∷ rs) (e ∷ es) =
    next_revision (revision_of (lookup (key_of r) rows)) e >>= λ next.
    plan_batch rows rs es >>= λ rest. ok ((r, next) ∷ rest)

unfoldable pub apply_plan : Plan → InMemoryStore → InMemoryStore
apply_plan [] s = s
apply_plan ((r, next) ∷ plan) s = apply_plan plan (write r next s)

abbrev pub revisions : Plan → List ℕ
revisions [] = []
revisions ((r, next) ∷ plan) = next ∷ revisions plan

unfoldable pub put_batch_planned :
    Result StoreError Plan → InMemoryStore → Result StoreError (List ℕ) × InMemoryStore
put_batch_planned (ok plan) s = (ok (revisions plan), apply_plan plan s)
put_batch_planned (err e) s = (err e, s)

unfoldable pub put_batch :
    List GenericEncryptedRecordV1
    → List (Option ℕ)
    → InMemoryStore
    → Result StoreError (List ℕ) × InMemoryStore
unfolding put_batch_planned
put_batch rs es s = put_batch_planned (validate_all rs >>= λ _. plan_batch s.rows rs es) s

-- The move of a vault to another scope.
abbrev pub retarget : Bytes → GenericEncryptedRecordV1 → GenericEncryptedRecordV1
retarget to_vault r = record r { vault_id = to_vault; revision = 1 }

unfoldable pub occupied : Bytes → HashMap GenericEncryptedRecordV1 → GenericEncryptedRecordV1 → Bool
occupied to_vault rows r = elim (lookup (to_vault, r.record_id) rows) [
  | none ↦ false
  | some q ↦ true
]

abbrev pub outside : Bytes → Key → Bool
outside vault (v, r) = not (bytes_eq v vault)

-- A tombstoned row is stamped, a live one is not.
unfoldable pub place : ℕ → GenericEncryptedRecordV1 → InMemoryStore → InMemoryStore
place now r s = record {
  rows = insert (key_of r) r s.rows;
  tombstoned_at = if r.tombstone then insert (key_of r) now s.tombstoned_at else s.tombstoned_at;
}

unfoldable pub place_all : Bytes → ℕ → List GenericEncryptedRecordV1 → InMemoryStore → InMemoryStore
place_all to_vault now [] s = s
place_all to_vault now (r ∷ rs) s = place_all to_vault now rs (place now (retarget to_vault r) s)

abbrev pub drop_vault : Bytes → InMemoryStore → InMemoryStore
drop_vault vault s = record {
  rows = retain (outside vault) s.rows;
  tombstoned_at = retain (outside vault) s.tombstoned_at;
}

unfoldable pub rekey_check :
    Bytes → Bytes → List GenericEncryptedRecordV1 → InMemoryStore → Result StoreError (Unit {0})
rekey_check vault to_vault rs s = validate_all rs >>= λ _.
    if is_empty to_vault
    then err invalid_record
    else if bytes_eq to_vault vault
    then err invalid_record
    else if any (occupied to_vault s.rows) rs
    then err conflict
    else ok tt

unfoldable pub rekey_vault :
    Bytes
    → Bytes
    → List GenericEncryptedRecordV1
    → ℕ
    → InMemoryStore
    → Result StoreError ℕ × InMemoryStore
rekey_vault vault to_vault rs now s = elim (rekey_check vault to_vault rs s) [
  | ok _ ↦ (ok (length rs), place_all to_vault now rs (drop_vault vault s))
  | err e ↦ (err e, s)
]

-- Retention: the tombstoned rows of the vault whose stamp is at or before the cutoff.
unfoldable pub stamp_expired : ℕ → Option ℕ → Bool
stamp_expired before none = false
stamp_expired before (some stamp) = leb stamp before

unfoldable pub is_expired : Bytes → ℕ → HashMap ℕ → Key → GenericEncryptedRecordV1 → Bool
unfolding stamp_expired
is_expired vault before stamps (v, id) r =
    bytes_eq v vault && r.tombstone && stamp_expired before (lookup (v, id) stamps)

unfoldable pub expired_keys : Bytes → ℕ → HashMap ℕ → HashMap GenericEncryptedRecordV1 → List Key
expired_keys vault before stamps [] = []
expired_keys vault before stamps ((k, r) ∷ m) =
    let rest = expired_keys vault before stamps m in
    if is_expired vault before stamps k r then k ∷ rest else rest

unfoldable pub remove_keys : List Key → InMemoryStore → InMemoryStore
remove_keys [] s = s
remove_keys (k ∷ ks) s =
    remove_keys ks (record { rows = remove k s.rows; tombstoned_at = remove k s.tombstoned_at })

unfoldable pub purge_tombstoned_before : Bytes → ℕ → InMemoryStore → ℕ × InMemoryStore
purge_tombstoned_before vault before s =
    let expired = expired_keys vault before s.tombstoned_at s.rows in
    (length expired, remove_keys expired s)
