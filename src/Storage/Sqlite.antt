-- ===== src/Storage/Sqlite.antt =====
-- `SqliteStore` of packages/storage/sqlite/src/lib.rs: each trait method as a program of engine calls,
-- run with the calls that fail as an argument, and `utc_now_epoch()` as an argument where the
-- method reads the clock. A stored `u64` is the same 64-bit pattern as the `i64` of its column, so a
-- conversion is written out only where the number is compared, checked or added to.
pub mod Represents
pub mod Writes
pub mod Batch
pub mod Deletion
pub mod Purge
pub mod Rekey
pub mod Reads
pub mod Run
pub mod Failures
pub mod Open
mod Tests
use veyora.Prelude.{
  is_empty, ℕ, ◌+◌, ◌^◌, not, ◌||◌, Bytes, bytes_eq, Option, none, some, List, [], ◌∷◌, map, Result,
  ok, err, ◌==◌, ltb, if◌then◌else◌, take, drop, filter, ◌>>=◌,
}
use veyora.Storage.Assoc.{Key, lookup}
use veyora.Storage.Port.{
  StoreError, conflict, not_found, invalid_record, store_unavailable, GenericEncryptedRecordV1,
  RecordSummary, protocol_version, suite_id,
}
use veyora.Storage.Memory.{key_of, retarget, sort_by_id, summary, values}
use veyora.Storage.Sql.{
  Row, Table, Tx, done, exec, ◌>>>◌, Faults, call, Program, statements, transaction, checked,
  select_revision, insert_record, update_record, mark_tombstone, stamp_record, delete_vault,
  delete_expired, cutoff_of, control,
}

-- The adapter's own record check: unlike the in-memory adapter it asks for no vault id.
unfoldable pub validate : GenericEncryptedRecordV1 → Result StoreError (Unit {0})
validate r =
    if not (r.protocol_version == protocol_version)
      || not (r.suite_id == suite_id)
      || r.revision == 0
      || is_empty r.ciphertext
      || is_empty r.record_id
      || is_empty r.ciphertext_hash
    then err invalid_record
    else ok tt

abbrev pub validate_all : List GenericEncryptedRecordV1 → Result StoreError (Unit {0})
validate_all [] = ok tt
validate_all (r ∷ rs) = validate r >>= λ _. validate_all rs

-- `match (prior, expected) { ... }`; the sum stays below 2^63 + 1, and 2^63 is refused by the table.
unfoldable pub next : Option ℕ → Option ℕ → Result StoreError ℕ
next none none = ok 1
next none (some expected) = err conflict
next (some existing) (some expected) =
    if existing == expected then ok (existing + 1) else err conflict
next (some existing) none = err conflict

-- A statement must have written exactly one row.
abbrev pub written_one : {A : Type 0} → A → ℕ → Tx A
written_one a count = if count == 1 then done (ok a) else done (err store_unavailable)

abbrev pub write_next : GenericEncryptedRecordV1 → Option ℕ → Result StoreError ℕ → Tx ℕ
write_next r prior (err e) = done (err e)
write_next r none (ok n) = exec (insert_record r n) (written_one n)
write_next r (some existing) (ok n) = exec (update_record r n) (written_one n)

-- One compare-and-set inside a transaction.
abbrev pub write_row : GenericEncryptedRecordV1 → Option ℕ → Tx ℕ
write_row r expected =
    exec (select_revision (key_of r)) λ prior. write_next r prior (next prior expected)

abbrev pub put_tx : GenericEncryptedRecordV1 → Option ℕ → Program ℕ
put_tx r expected = checked (validate r) (transaction (write_row r expected))

unfoldable pub put :
    Faults → GenericEncryptedRecordV1 → Option ℕ → Table → Result StoreError ℕ × Table
put g r expected t = call (put_tx r expected) g t

-- `zip` stops at the shorter list.
abbrev pub write_rows : List GenericEncryptedRecordV1 → List (Option ℕ) → Tx (List ℕ)
write_rows [] es = done (ok [])
write_rows (r ∷ rs) [] = done (ok [])
write_rows (r ∷ rs) (e ∷ es) = write_row r e >>> λ n. write_rows rs es >>> λ ns. done (ok (n ∷ ns))

abbrev pub put_batch_tx : List GenericEncryptedRecordV1 → List (Option ℕ) → Program (List ℕ)
put_batch_tx rs es = checked (validate_all rs) (transaction (write_rows rs es))

unfoldable pub put_batch :
    Faults
    → List GenericEncryptedRecordV1
    → List (Option ℕ)
    → Table
    → Result StoreError (List ℕ) × Table
put_batch g rs es t = call (put_batch_tx rs es) g t

-- SELECT ... FROM records WHERE vault_id = ?1 AND record_id = ?2
abbrev pub select_row : Key → Table → Result StoreError (Option Row × Table)
select_row k t = ok (lookup k t, t)

abbrev pub found : Option Row → Tx Row
found none = done (err not_found)
found (some row) = done (ok row)

abbrev pub get_tx : Bytes → Bytes → Tx GenericEncryptedRecordV1
get_tx vault id = exec (select_row (vault, id)) λ o. found o >>> λ row. done (ok row.columns)

unfoldable pub get :
    Faults → Bytes → Bytes → Table → Result StoreError GenericEncryptedRecordV1 × Table
get g vault id t = call (statements (get_tx vault id)) g t

-- `LIMIT ?2 OFFSET ?3` on signed integers: a negative limit is none, a negative offset is 0.
abbrev pub limit_rows : {A : Type 0} → ℕ → List A → List A
limit_rows limit rows = if ltb limit (2 ^ 63) then take limit rows else rows

abbrev pub skip_rows : {A : Type 0} → ℕ → List A → List A
skip_rows offset rows = if ltb offset (2 ^ 63) then drop offset rows else rows

abbrev pub columns_of : Row → GenericEncryptedRecordV1
columns_of row = row.columns

-- SELECT ... FROM records WHERE vault_id = ?1 ORDER BY record_id LIMIT ?2 OFFSET ?3
abbrev pub list_rows :
    Bytes → ℕ → ℕ → Table → Result StoreError (List GenericEncryptedRecordV1 × Table)
list_rows vault limit offset t = ok (
  limit_rows limit (
      skip_rows offset
        (sort_by_id (filter (λ r. bytes_eq r.vault_id vault) (map columns_of (values t))))),
  t,
)

unfoldable pub list_bodies :
    Faults → Bytes → ℕ → ℕ → Table → Result StoreError (List GenericEncryptedRecordV1) × Table
list_bodies g vault limit offset t =
    call (statements (exec control λ _. exec (list_rows vault limit offset) λ rs. done (ok rs))) g t

unfoldable pub list :
    Faults → Bytes → ℕ → ℕ → Table → Result StoreError (List RecordSummary) × Table
list g vault limit offset t =
    call
      (statements
        (exec control λ _. exec (list_rows vault limit offset) λ rs. done (ok (map summary rs))))
      g t

abbrev pub mark_next : Key → ℕ → ℕ → Option ℕ → Tx ℕ
mark_next k expected now none = done (err not_found)
mark_next k expected now (some prior) =
    if not (prior == expected)
    then done (err conflict)
    else exec (mark_tombstone k (prior + 1) now) (written_one (prior + 1))

abbrev pub tombstone_tx : Bytes → Bytes → ℕ → ℕ → Program ℕ
tombstone_tx vault id expected now =
    transaction (exec (select_revision (vault, id)) (mark_next (vault, id) expected now))

unfoldable pub tombstone : Faults → Bytes → Bytes → ℕ → ℕ → Table → Result StoreError ℕ × Table
tombstone g vault id expected now t = call (tombstone_tx vault id expected now) g t

-- The insert of a rekey binds `ciphertext_length` as a `u64`, which the driver refuses from 2^63 on.
abbrev pub insert_bound : GenericEncryptedRecordV1 → Table → Result StoreError (ℕ × Table)
insert_bound r t =
    if ltb r.ciphertext_length (2 ^ 63) then insert_record r 1 t else err store_unavailable

abbrev pub stamp_moved : GenericEncryptedRecordV1 → ℕ → Tx (Unit {0})
stamp_moved r now =
    if r.tombstone then exec (stamp_record (key_of r) now) (λ _. done (ok tt)) else done (ok tt)

abbrev pub place_row : GenericEncryptedRecordV1 → ℕ → Option ℕ → Tx (Unit {0})
place_row r now (some existing) = done (err conflict)
place_row r now none = exec (insert_bound r) λ _. stamp_moved r now

abbrev pub move_row : Bytes → ℕ → GenericEncryptedRecordV1 → Tx (Unit {0})
move_row to_vault now r =
    exec (select_revision (to_vault, r.record_id)) (place_row (retarget to_vault r) now)

-- `clock` has the reading of `utc_now_epoch()` at each row.
abbrev pub move_rows : Bytes → (ℕ → ℕ) → List GenericEncryptedRecordV1 → Tx ℕ
move_rows to_vault clock [] = done (ok 0)
move_rows to_vault clock (r ∷ rs) = move_row to_vault (clock 0) r >>> λ _.
    move_rows to_vault (λ row. clock (row + 1)) rs >>> λ moved. done (ok (moved + 1))

abbrev pub scope_check : Bytes → Bytes → Result StoreError (Unit {0})
scope_check vault to_vault =
    if is_empty to_vault || bytes_eq to_vault vault then err invalid_record else ok tt

abbrev pub rekey_tx : Bytes → Bytes → List GenericEncryptedRecordV1 → (ℕ → ℕ) → Program ℕ
rekey_tx vault to_vault rs clock = checked (validate_all rs) (
    checked (scope_check vault to_vault) (
      transaction
        (move_rows to_vault clock rs >>> λ moved. exec (delete_vault vault) λ _. done (ok moved))))

unfoldable pub rekey_vault :
    Faults
    → Bytes
    → Bytes
    → List GenericEncryptedRecordV1
    → (ℕ → ℕ)
    → Table
    → Result StoreError ℕ × Table
rekey_vault g vault to_vault rs clock t = call (rekey_tx vault to_vault rs clock) g t

-- `SELECT tombstoned_at`, after the statement is prepared.
unfoldable pub stamp_of : Faults → Bytes → Bytes → Table → Result StoreError (Option ℕ) × Table
stamp_of g vault id t =
    call
      (statements (
        exec control
          λ _. exec (select_row (vault, id)) λ o. found o >>> λ row. done (ok row.tombstoned_at)))
      g t

unfoldable pub purge_tombstoned_before : Faults → Bytes → ℕ → Table → Result StoreError ℕ × Table
purge_tombstoned_before g vault before t =
    call (statements (exec (delete_expired vault (cutoff_of before)) λ purged. done (ok purged))) g
      t
