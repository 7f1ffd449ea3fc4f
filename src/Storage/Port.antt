-- ===== src/Storage/Port.antt =====
-- The persistence port of packages/storage/persistence/src/lib.rs: the opaque record of
-- packages/contracts-rust/src/lib.rs, the closed error surface, the record check and the
-- compare-and-set decision that every write makes.
use veyora.Prelude.{
  is_empty, ℕ, ◌+◌, ◌%◌, ◌^◌, Bool, not, ◌||◌, Bytes, Option, none, some, Result, ok, err, ◌==◌,
  if◌then◌else◌,
}

pub data StoreError : Type 0 where
  conflict not_found invalid_record store_unavailable : StoreError

pub record GenericEncryptedRecordV1 : Type 0 where
  pub protocol_version : ℕ
  pub suite_id : ℕ
  pub deployment_id : Bytes
  pub vault_id : Bytes
  pub record_id : Bytes
  pub revision : ℕ
  pub ciphertext : Bytes
  pub ciphertext_hash : Bytes
  pub ciphertext_length : ℕ
  pub tombstone : Bool
  pub template_envelope_hash : Bytes
  pub manifest_binding : Bytes

pub record RecordSummary : Type 0 where
  pub record_id : Bytes
  pub revision : ℕ
  pub tombstone : Bool
  pub ciphertext_hash : Bytes

abbrev pub protocol_version : ℕ
protocol_version = 1

abbrev pub suite_id : ℕ
suite_id = 1

unfoldable pub validate : GenericEncryptedRecordV1 → Result StoreError (Unit {0})
validate r =
    if not (r.protocol_version == protocol_version)
      || not (r.suite_id == suite_id)
      || r.revision == 0
      || is_empty r.ciphertext
      || is_empty r.record_id
      || is_empty r.vault_id
      || is_empty r.ciphertext_hash
    then err invalid_record
    else ok tt

-- `existing + 1` on a u64, as a release build computes it.
abbrev pub succ_u64 : ℕ → ℕ
succ_u64 n = (n + 1) % 2 ^ 64

abbrev pub revision_of : Option GenericEncryptedRecordV1 → Option ℕ
revision_of none = none
revision_of (some r) = some r.revision

-- The compare-and-set decision: the revision that a write gets from the stored revision and the
-- caller's expectation.
unfoldable pub next_revision : Option ℕ → Option ℕ → Result StoreError ℕ
next_revision none none = ok 1
next_revision none (some expected) = err conflict
next_revision (some existing) (some expected) =
    if existing == expected then ok (succ_u64 existing) else err conflict
next_revision (some existing) none = err conflict
