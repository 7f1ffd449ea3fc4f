-- ===== src/Storage/Sql.antt =====
-- The table `records` of the SQL adapters and the statements that they run on it, translated from the
-- SQL text of packages/storage/sqlite/src/lib.rs. The engine itself is a parameter: any call of it
-- may fail, and it rolls a transaction back that is dropped before its commit.
pub mod Faults
use veyora.Prelude.{
  ℕ, ◌-◌, ◌^◌, Bool, true, false, not, ◌&&◌, Bytes, bytes_eq, Option, none, some, List, [], ◌∷◌,
  Result, ok, err, leb, if◌then◌else◌, length, ltb, ◌||◌,
}
use veyora.Storage.Assoc.{Key, HashMap, lookup, insert, retain}
use veyora.Storage.Port.{StoreError, store_unavailable, GenericEncryptedRecordV1}
use veyora.Storage.Memory.{key_of, outside}

-- A row: the record's columns and the retention stamp, NULL or an epoch second.
pub record Row : Type 0 where
  pub columns : GenericEncryptedRecordV1
  pub tombstoned_at : Option ℕ

-- PRIMARY KEY (vault_id, record_id)
abbrev pub Table : Type 0
Table = HashMap Row

-- A program that talks to the engine: it ends, or it runs a statement, which fails or has a reply and
-- a table after it, and goes on with the reply.
pub data Tx (A : Type 0) : Type 1 where
  done : Result StoreError A → Tx A
  exec : {B : Type 0} → (Table → Result StoreError (B × Table)) → (B → Tx A) → Tx A

module _ {A B : Type 0} where
  infixl 5 ◌>>>◌
  abbrev pub ◌>>>◌ : Tx A → (A → Tx B) → Tx B
  done (ok a) >>> next = next a
  done (err e) >>> next = done (err e)
  exec op k >>> next = exec op (λ b. k b >>> next)

-- The engine calls that fail, in the order of the calls: `true` for a failure. Behind the end of the
-- list no call fails.
abbrev pub Faults : Type 0
Faults = List Bool

abbrev pub fails : Faults → Bool
fails [] = false
fails (f ∷ g) = f

abbrev pub later : Faults → Faults
later [] = []
later (f ∷ g) = g

-- A run of a program: its result, and the table as the statements left it.
unfoldable pub run : {A : Type 0} → Tx A → Faults → Table → Result StoreError A × Table
run (done a) g t = (a, t)
run (exec op k) g t =
    if fails g
    then (err store_unavailable, t)
    else (elim (op t) [ ok (b, u) ↦ run (k b) (later g) u | err e ↦ (err e, t) ])

-- A call of the engine that leaves the table alone, as BEGIN and COMMIT do.
abbrev pub control : Table → Result StoreError (Unit {0} × Table)
control t = ok (tt, t)

-- What a method asks of the engine: statements that commit one by one, or a transaction.
pub data Program (A : Type 0) : Type 1 where
  statements transaction : Tx A → Program A

-- A check before the first engine call.
abbrev pub checked : {A : Type 0} → Result StoreError (Unit {0}) → Program A → Program A
checked (ok _) p = p
checked (err e) p = statements (done (err e))

abbrev pub begin_commit : {A : Type 0} → Tx A → Tx A
begin_commit m = exec control λ _. m >>> λ a. exec control λ _. done (ok a)

-- A transaction that is dropped before its commit leaves the table as it was when it began.
abbrev pub settle : {A : Type 0} → Table → Result StoreError A × Table → Result StoreError A × Table
settle t (ok a, u) = (ok a, u)
settle t (err e, u) = (err e, t)

-- Outside a transaction nothing is rolled back: what the statements before a failure did stays.
unfoldable pub call : {A : Type 0} → Program A → Faults → Table → Result StoreError A × Table
call (statements m) g t = run m g t
call (transaction m) g t = settle t (run (begin_commit m) g t)

-- SELECT revision FROM records WHERE vault_id = ?1 AND record_id = ?2
abbrev pub revision_at : Option Row → Option ℕ
revision_at none = none
revision_at (some row) = some row.columns.revision

unfoldable pub select_revision : Key → Table → Result StoreError (Option ℕ × Table)
select_revision k t = ok (revision_at (lookup k t), t)

-- The column check `revision >= 1` on a 64-bit signed integer: a number from 2^63 on is negative.
abbrev pub check_revision : ℕ → Bool
check_revision n = leb 1 n && ltb n (2 ^ 63)

-- INSERT INTO records (...) VALUES (...): the key must be free, and the stamp is NULL.
unfoldable pub insert_row :
    Option Row → GenericEncryptedRecordV1 → ℕ → Table → Result StoreError (ℕ × Table)
insert_row (some row) r n t = err store_unavailable
insert_row none r n t =
    if check_revision n
    then ok (
      1,
      insert (key_of r) (record { columns = record r { revision = n }; tombstoned_at = none }) t,
    )
    else err store_unavailable

unfoldable pub insert_record : GenericEncryptedRecordV1 → ℕ → Table → Result StoreError (ℕ × Table)
unfolding insert_row
insert_record r n t = insert_row (lookup (key_of r) t) r n t

-- UPDATE records SET ..., tombstoned_at = CASE WHEN ?5 = 0 THEN NULL ELSE tombstoned_at END
--   WHERE vault_id = ?12 AND record_id = ?13
unfoldable pub update_row :
    Option Row → GenericEncryptedRecordV1 → ℕ → Table → Result StoreError (ℕ × Table)
update_row none r n t = ok (0, t)
update_row (some row) r n t =
    if check_revision n
    then ok (
      1,
      insert (key_of r)
          (record {
            columns = record r { revision = n };
            tombstoned_at = if r.tombstone then row.tombstoned_at else none;
          })
          t,
    )
    else err store_unavailable

unfoldable pub update_record : GenericEncryptedRecordV1 → ℕ → Table → Result StoreError (ℕ × Table)
unfolding update_row
update_record r n t = update_row (lookup (key_of r) t) r n t

-- UPDATE records SET revision = ?1, tombstone = 1, tombstoned_at = ?4 WHERE ...
unfoldable pub mark_row : Option Row → Key → ℕ → ℕ → Table → Result StoreError (ℕ × Table)
mark_row none k n stamp t = ok (0, t)
mark_row (some row) k n stamp t =
    if check_revision n
    then ok (
      1,
      insert k
          (record {
            columns = record row.columns { revision = n; tombstone = true };
            tombstoned_at = some stamp;
          })
          t,
    )
    else err store_unavailable

unfoldable pub mark_tombstone : Key → ℕ → ℕ → Table → Result StoreError (ℕ × Table)
unfolding mark_row
mark_tombstone k n stamp t = mark_row (lookup k t) k n stamp t

-- UPDATE records SET tombstoned_at = ?1 WHERE vault_id = ?2 AND record_id = ?3
unfoldable pub stamp_found : Option Row → Key → ℕ → Table → Result StoreError (ℕ × Table)
stamp_found none k stamp t = ok (0, t)
stamp_found (some row) k stamp t = ok (1, insert k (record row { tombstoned_at = some stamp }) t)

unfoldable pub stamp_record : Key → ℕ → Table → Result StoreError (ℕ × Table)
unfolding stamp_found
stamp_record k stamp t = stamp_found (lookup k t) k stamp t

-- DELETE FROM records WHERE vault_id = ?1
unfoldable pub delete_vault : Bytes → Table → Result StoreError (ℕ × Table)
delete_vault vault t = let kept = retain (outside vault) t in ok (length t - length kept, kept)

-- tombstoned_at <= cutoff on 64-bit signed integers: a stamp from 2^63 on is negative.
abbrev pub stamp_due : ℕ → Option ℕ → Bool
stamp_due cutoff none = false
stamp_due cutoff (some stamp) = leb (2 ^ 63) stamp || leb stamp cutoff

abbrev pub is_due : Bytes → ℕ → Key → Row → Bool
is_due vault cutoff (v, id) row =
    bytes_eq v vault && row.columns.tombstone && stamp_due cutoff row.tombstoned_at

unfoldable pub keep_rows : (Key → Row → Bool) → Table → Table
keep_rows p [] = []
keep_rows p ((k, row) ∷ t) = let rest = keep_rows p t in if p k row then (k, row) ∷ rest else rest

-- `i64::try_from(before_epoch_seconds).unwrap_or(i64::MAX)`
abbrev pub cutoff_of : ℕ → ℕ
cutoff_of before = if ltb before (2 ^ 63) then before else 2 ^ 63 - 1

-- DELETE FROM records WHERE vault_id = ?1 AND tombstone = 1 AND tombstoned_at IS NOT NULL
--   AND tombstoned_at <= ?2
unfoldable pub delete_expired : Bytes → ℕ → Table → Result StoreError (ℕ × Table)
unfolding keep_rows
delete_expired vault cutoff t =
    let kept = keep_rows (λ k row. not (is_due vault cutoff k row)) t in
    ok (length t - length kept, kept)
