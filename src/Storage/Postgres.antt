-- ===== src/Storage/Postgres.antt =====
-- `PostgresStore` of packages/storage/postgres/src/lib.rs: each trait method as a program of calls of
-- the server. What a statement does to the table is what the SQLite adapter's does, but that the
-- server refuses texts with a NUL byte. The server is a parameter: any call
-- of it may fail, and so may the reply of a commit that it carried out. The connection pool and the
-- TLS policy are in the child modules.
pub mod Outcome
pub mod Agreement
pub mod Pool
pub mod Config
mod Tests
use veyora.Prelude.{
  is_empty, ℕ, ◌+◌, ◌^◌, Bool, true, false, not, ◌||◌, ◌&&◌, Bytes, bytes_eq, Option, none, some,
  List, [], ◌∷◌, map, Result, ok, err, ◌==◌, ltb, if◌then◌else◌, any, take, drop, filter, ◌>>=◌,
}
use veyora.Storage.Assoc.{Key, lookup}
use veyora.Storage.Port.{
  StoreError, conflict, not_found, invalid_record, store_unavailable, GenericEncryptedRecordV1,
  RecordSummary, protocol_version, suite_id,
}
use veyora.Storage.Memory.{key_of, retarget, summary, values}
use veyora.Storage.Sql.{
  Row, Table, Tx, done, exec, ◌>>>◌, Faults, run, call, Program, statements, transaction, checked,
  control, select_revision, insert_record, update_record, mark_tombstone, stamp_record,
  delete_vault, delete_expired, cutoff_of,
}
use veyora.Storage.Sqlite.{next, written_one, scope_check, select_row, found, columns_of}

-- What becomes of a commit: carried out, refused, or carried out with its reply lost.
pub data Commit : Type 0 where
  committed refused lost : Commit

pub record Server : Type 0 where
  pub faults : Faults
  pub commit_reply : Commit

-- A transaction that is dropped is rolled back. Each method turns a failed commit into
-- `StoreUnavailable`.
unfoldable pub settle :
    {A : Type 0} → Commit → Table → Result StoreError A × Table → Result StoreError A × Table
settle c t (err e, u) = (err e, t)
settle committed t (ok a, u) = (ok a, u)
settle refused t (ok a, u) = (err store_unavailable, t)
settle lost t (ok a, u) = (err store_unavailable, u)

-- Outside a transaction the server carries out each statement at once, and only the reply of the
-- last one can get lost.
unfoldable pub replied :
    {A : Type 0} → Commit → Result StoreError A × Table → Result StoreError A × Table
replied c (err e, u) = (err e, u)
replied committed (ok a, u) = (ok a, u)
replied refused (ok a, u) = (ok a, u)
replied lost (ok a, u) = (err store_unavailable, u)

-- `self.pool.get()?`
abbrev pub pooled : {A : Type 0} → Tx A → Tx A
pooled m = exec control λ _. m

-- Before a transaction stands `client.transaction()`, which may fail too.
unfoldable pub transact : {A : Type 0} → Server → Program A → Table → Result StoreError A × Table
transact e (statements m) t = replied e.commit_reply (run m e.faults t)
transact e (transaction m) t =
    settle e.commit_reply t (run (pooled (exec control λ _. m)) e.faults t)

unfoldable pub validate : GenericEncryptedRecordV1 → Result StoreError (Unit {0})
validate r =
    if not (r.protocol_version == protocol_version)
      || not (r.suite_id == suite_id)
      || r.revision == 0
      || is_empty r.ciphertext
      || is_empty r.record_id
      || is_empty r.ciphertext_hash
    then err invalid_record
    else ok tt

abbrev pub validate_all : List GenericEncryptedRecordV1 → Result StoreError (Unit {0})
validate_all [] = ok tt
validate_all (r ∷ rs) = validate r >>= λ _. validate_all rs

-- A text with a NUL byte is no value of the type TEXT: the server refuses a statement with one.
unfoldable pub refuses_texts : List Bytes → Bool
refuses_texts texts = any (λ text. any (λ b. b == 0) text) texts

abbrev pub bound :
    {B : Type 0}
    → List Bytes
    → (Table → Result StoreError (B × Table))
    → Table
    → Result StoreError (B × Table)
bound texts op = if refuses_texts texts then (λ t. err store_unavailable) else op

-- The texts that a write of a record binds.
abbrev pub texts_of : GenericEncryptedRecordV1 → List Bytes
texts_of r =
    r.deployment_id ∷ r.vault_id ∷ r.record_id ∷ r.ciphertext ∷ r.ciphertext_hash
    ∷ r.template_envelope_hash ∷ r.manifest_binding ∷ []

abbrev pub texts_of_key : Key → List Bytes
texts_of_key (vault, id) = vault ∷ id ∷ []

abbrev pub revision_of_key : Key → Table → Result StoreError (Option ℕ × Table)
revision_of_key k = bound (texts_of_key k) (select_revision k)

abbrev pub write_next : GenericEncryptedRecordV1 → Option ℕ → Result StoreError ℕ → Tx ℕ
write_next r prior (err e) = done (err e)
write_next r none (ok n) = exec (bound (texts_of r) (insert_record r n)) (written_one n)
write_next r (some existing) (ok n) = exec (bound (texts_of r) (update_record r n)) (written_one n)

-- One compare-and-set inside a transaction.
abbrev pub write_row : GenericEncryptedRecordV1 → Option ℕ → Tx ℕ
write_row r expected =
    exec (revision_of_key (key_of r)) λ prior. write_next r prior (next prior expected)

-- `zip` stops at the shorter list.
abbrev pub write_rows : List GenericEncryptedRecordV1 → List (Option ℕ) → Tx (List ℕ)
write_rows [] es = done (ok [])
write_rows (r ∷ rs) [] = done (ok [])
write_rows (r ∷ rs) (e ∷ es) = write_row r e >>> λ n. write_rows rs es >>> λ ns. done (ok (n ∷ ns))

abbrev pub put_program : GenericEncryptedRecordV1 → Option ℕ → Program ℕ
put_program r expected = checked (validate r) (transaction (write_row r expected))

unfoldable pub put :
    Server → GenericEncryptedRecordV1 → Option ℕ → Table → Result StoreError ℕ × Table
put e r expected t = transact e (put_program r expected) t

abbrev pub put_batch_program : List GenericEncryptedRecordV1 → List (Option ℕ) → Program (List ℕ)
put_batch_program rs es = checked (validate_all rs) (transaction (write_rows rs es))

unfoldable pub put_batch :
    Server
    → List GenericEncryptedRecordV1
    → List (Option ℕ)
    → Table
    → Result StoreError (List ℕ) × Table
put_batch e rs es t = transact e (put_batch_program rs es) t

abbrev pub row_of_key : Key → Table → Result StoreError (Option Row × Table)
row_of_key k = bound (texts_of_key k) (select_row k)

unfoldable pub get :
    Faults → Bytes → Bytes → Table → Result StoreError GenericEncryptedRecordV1 × Table
get g vault id t =
    call
      (statements
        (pooled (exec (row_of_key (vault, id)) λ o. found o >>> λ row. done (ok row.columns))))
      g t

-- The order of `ORDER BY` is the collation of the database, a parameter.
module _ (at_most : Bytes → Bytes → Bool) where
  insert_in_order :
      GenericEncryptedRecordV1 → List GenericEncryptedRecordV1 → List GenericEncryptedRecordV1
  insert_in_order r [] = r ∷ []
  insert_in_order r (q ∷ qs) =
      let rest = insert_in_order r qs in
      if at_most r.record_id q.record_id then r ∷ q ∷ qs else q ∷ rest

  in_order : List GenericEncryptedRecordV1 → List GenericEncryptedRecordV1
  in_order [] = []
  in_order (r ∷ rs) = insert_in_order r (in_order rs)

  -- `LIMIT $2 OFFSET $3`: the server refuses a negative number.
  abbrev pub select_page :
      Bytes → ℕ → ℕ → Table → Result StoreError (List GenericEncryptedRecordV1 × Table)
  unfolding in_order insert_in_order
  select_page vault limit offset t =
      if ltb limit (2 ^ 63) && ltb offset (2 ^ 63) && not (refuses_texts (vault ∷ []))
      then ok (
        take limit (
            drop offset
              (in_order (filter (λ r. bytes_eq r.vault_id vault) (map columns_of (values t))))),
        t,
      )
      else err store_unavailable

  unfoldable pub list :
      Faults → Bytes → ℕ → ℕ → Table → Result StoreError (List RecordSummary) × Table
  list g vault limit offset t =
      call
        (statements
          (pooled (exec (select_page vault limit offset) λ rs. done (ok (map summary rs)))))
        g t

  unfoldable pub list_bodies :
      Faults → Bytes → ℕ → ℕ → Table → Result StoreError (List GenericEncryptedRecordV1) × Table
  list_bodies g vault limit offset t =
      call (statements (pooled (exec (select_page vault limit offset) λ rs. done (ok rs)))) g t

abbrev pub mark_next : Key → ℕ → ℕ → Option ℕ → Tx ℕ
mark_next k expected now none = done (err not_found)
mark_next k expected now (some prior) =
    if not (prior == expected)
    then done (err conflict)
    else exec (bound (texts_of_key k) (mark_tombstone k (prior + 1) now)) (written_one (prior + 1))

abbrev pub tombstone_program : Bytes → Bytes → ℕ → ℕ → Program ℕ
tombstone_program vault id expected now =
    transaction (exec (revision_of_key (vault, id)) (mark_next (vault, id) expected now))

unfoldable pub tombstone : Server → Bytes → Bytes → ℕ → ℕ → Table → Result StoreError ℕ × Table
tombstone e vault id expected now t = transact e (tombstone_program vault id expected now) t

abbrev pub stamp_moved : GenericEncryptedRecordV1 → ℕ → Tx (Unit {0})
stamp_moved r now =
    if r.tombstone
    then exec (bound (texts_of_key (key_of r)) (stamp_record (key_of r) now)) (λ _. done (ok tt))
    else done (ok tt)

-- The insert of a rekey binds the length as an `i64`, so every length is taken.
abbrev pub place_row : GenericEncryptedRecordV1 → ℕ → Option ℕ → Tx (Unit {0})
place_row r now (some existing) = done (err conflict)
place_row r now none = exec (bound (texts_of r) (insert_record r 1)) λ _. stamp_moved r now

-- `clock` has the reading of `utc_now_epoch()` at each row.
abbrev pub move_rows : Bytes → (ℕ → ℕ) → List GenericEncryptedRecordV1 → Tx ℕ
move_rows to_vault clock [] = done (ok 0)
move_rows to_vault clock (r ∷ rs) =
    exec (revision_of_key (to_vault, r.record_id)) (place_row (retarget to_vault r) (clock 0))
    >>> λ _. move_rows to_vault (λ row. clock (row + 1)) rs >>> λ moved. done (ok (moved + 1))

abbrev pub rekey_program : Bytes → Bytes → List GenericEncryptedRecordV1 → (ℕ → ℕ) → Program ℕ
rekey_program vault to_vault rs clock = checked (validate_all rs) (
    checked (scope_check vault to_vault) (
      transaction (
        move_rows to_vault clock rs >>> λ moved.
        exec (bound (vault ∷ []) (delete_vault vault)) λ _. done (ok moved))))

unfoldable pub rekey_vault :
    Server
    → Bytes
    → Bytes
    → List GenericEncryptedRecordV1
    → (ℕ → ℕ)
    → Table
    → Result StoreError ℕ × Table
rekey_vault e vault to_vault rs clock t = transact e (rekey_program vault to_vault rs clock) t

unfoldable pub stamp_of : Faults → Bytes → Bytes → Table → Result StoreError (Option ℕ) × Table
stamp_of g vault id t =
    call
      (statements (
        pooled (exec (row_of_key (vault, id)) λ o. found o >>> λ row. done (ok row.tombstoned_at))))
      g t

-- One statement outside a transaction: the server commits it, and the reply may be lost too.
unfoldable pub purge_tombstoned_before : Server → Bytes → ℕ → Table → Result StoreError ℕ × Table
purge_tombstoned_before e vault before t =
    transact e
      (statements (
        pooled (
          exec (bound (vault ∷ []) (delete_expired vault (cutoff_of before)))
            λ purged. done (ok purged))))
      t
