-- ===== src/Storage/Sqlite/Rekey/Moves.antt =====
-- The inserts of a rekey of `SqliteStore`, one record after the other, with a healthy engine.
use veyora.Prelude.{
  ℕ, ◌+◌, ◌^◌, ◌<◌, ◌≡◌, refl, Bool, true, false, Bytes, Option, none, some, List, [], ◌∷◌, Result,
  ok, err, arith, Bool-cases, inl, inr, length, All, any, if◌then◌else◌, lt→ltb,
}
use veyora.Storage.Assoc.{Key, lookup, insert, lookup-insert, key_eq, key_eq_refl, insert-insert}
use veyora.Storage.Port.{StoreError, conflict, GenericEncryptedRecordV1}
use veyora.Storage.Memory.{retarget}
use veyora.Storage.Memory.Rekey.{AbsentId, DistinctIds}
use veyora.Storage.Sql.{
  Row, Table, run, revision_at, select_revision, insert_record, insert_row, stamp_record,
  stamp_found, done, ◌>>>◌,
}
use veyora.Storage.Sql.Faults.{follow, run->>>}
use veyora.Storage.Sqlite.{move_rows, move_row, place_row, insert_bound, stamp_moved}

-- The driver takes the length of every record.
abbrev pub Bindable : List GenericEncryptedRecordV1 → Type 0
Bindable = All (λ r. r.ciphertext_length < 2 ^ 63)

-- The row that a moved record ends as.
abbrev pub moved_row : Bytes → ℕ → GenericEncryptedRecordV1 → Row
moved_row to_vault now r = record {
  columns = retarget to_vault r;
  tombstoned_at = if r.tombstone then some now else none;
}

abbrev pub place_table : Bytes → ℕ → List GenericEncryptedRecordV1 → Table → Table
place_table to_vault now [] t = t
place_table to_vault now (r ∷ rs) t =
    place_table to_vault now rs (insert (to_vault, r.record_id) (moved_row to_vault now r) t)

abbrev pub is_taken : Option Row → Bool
is_taken none = false
is_taken (some row) = true

abbrev pub taken : Bytes → Table → GenericEncryptedRecordV1 → Bool
taken to_vault t r = is_taken (lookup (to_vault, r.record_id) t)

abbrev live_row : Bytes → GenericEncryptedRecordV1 → Row
live_row to_vault r = record { columns = retarget to_vault r; tombstoned_at = none }

insert_bound_free :
    (to_vault : Bytes) (r : GenericEncryptedRecordV1) (t : Table)
    → r.ciphertext_length < 2 ^ 63
    → lookup (to_vault, r.record_id) t ≡ none
    → insert_bound (retarget to_vault r) t
      ≡ ok (1, insert (to_vault, r.record_id) (live_row to_vault r) t)
unfolding insert_record insert_row
insert_bound_free to_vault r t fits free = rw (lt→ltb r.ciphertext_length (2 ^ 63) fits, free) refl

restamp :
    (k : Key) (row : Row) (now : ℕ) (t : Table)
    → stamp_record k now (insert k row t)
      ≡ ok (1, insert k (record row { tombstoned_at = some now }) t)
unfolding stamp_record stamp_found
restamp k row now t =
    rw (lookup-insert k k row t, key_eq_refl k)
      (rw (insert-insert k row (record row { tombstoned_at = some now }) t) refl)

stamp_moved_healthy :
    (to_vault : Bytes) (now : ℕ) (r : GenericEncryptedRecordV1) (t : Table)
    → run
        (stamp_moved (retarget to_vault r) now)
        []
        (insert (to_vault, r.record_id) (live_row to_vault r) t)
      ≡ (ok tt, insert (to_vault, r.record_id) (moved_row to_vault now r) t)
unfolding run
stamp_moved_healthy to_vault now r t = elim (Bool-cases r.tombstone) [
  | inl e ↦ ground (arith, e, restamp (to_vault, r.record_id) (live_row to_vault r) now t)
  | inr e ↦ rw e refl
]

place_row_healthy :
    (to_vault : Bytes) (now : ℕ) (r : GenericEncryptedRecordV1) (t : Table)
    → r.ciphertext_length < 2 ^ 63
    → lookup (to_vault, r.record_id) t ≡ none
    → run (place_row (retarget to_vault r) now none) [] t
      ≡ (ok tt, insert (to_vault, r.record_id) (moved_row to_vault now r) t)
unfolding run
place_row_healthy to_vault now r t fits free =
    rw (insert_bound_free to_vault r t fits free) (stamp_moved_healthy to_vault now r t)

pub taken-insert :
    (to_vault id : Bytes) (row : Row) (t : Table) (rs : List GenericEncryptedRecordV1)
    → AbsentId id rs
    → any (taken to_vault (insert (to_vault, id) row t)) rs ≡ any (taken to_vault t) rs
unfolding key_eq
taken-insert to_vault id row t [] a = refl
taken-insert to_vault id row t (r ∷ rs) (a, as_rest) =
    rw (taken-insert to_vault id row t rs as_rest)
      (rw (lookup-insert (to_vault, id) (to_vault, r.record_id) row t) (ground (arith, a)))

-- What the moves leave: all rows in place, or a conflict.
abbrev pub Moved :
    Bytes → ℕ → List GenericEncryptedRecordV1 → Table → Bool → Result StoreError ℕ × Table → Type 0
Moved to_vault now rs t true (a, u) = a ≡ err conflict
Moved to_vault now rs t false (a, u) = (a ≡ ok (length rs)) × (u ≡ place_table to_vault now rs t)

Moved-follow :
    (to_vault : Bytes) (now : ℕ) (r : GenericEncryptedRecordV1) (rs : List GenericEncryptedRecordV1)
    (t : Table) (b : Bool) (q : Result StoreError ℕ × Table)
    → Moved to_vault now rs (insert (to_vault, r.record_id) (moved_row to_vault now r) t) b q
    → Moved to_vault now (r ∷ rs) t b (follow q (λ n u. (ok (n + 1), u)))
Moved-follow to_vault now r rs t true (ok n, u) h = cc
Moved-follow to_vault now r rs t true (err x, u) h = ground arith
Moved-follow to_vault now r rs t false (ok n, u) (h, at) = (ground (arith, h), at)
Moved-follow to_vault now r rs t false (err x, u) (h, at) = cc

move_row_at :
    (to_vault : Bytes) (now : ℕ) (r : GenericEncryptedRecordV1) (rs : List GenericEncryptedRecordV1)
    (t : Table) (o : Option Row) (b : Bool)
    → lookup (to_vault, r.record_id) t ≡ o
    → r.ciphertext_length < 2 ^ 63
    → Moved to_vault now rs (insert (to_vault, r.record_id) (moved_row to_vault now r) t) b (
        run
          (move_rows to_vault (λ _. now) rs)
          []
          (insert (to_vault, r.record_id) (moved_row to_vault now r) t))
    → Moved to_vault now (r ∷ rs) t (if is_taken o then true else b) (
        follow
          (run (place_row (retarget to_vault r) now (revision_at o)) [] t)
          (λ _ u. run (move_rows to_vault (λ _. now) rs >>> λ n. done (ok (n + 1))) [] u))
unfolding run
move_row_at to_vault now r rs t (some row) b f fits rest = refl
move_row_at to_vault now r rs t none b f fits rest =
    rw (place_row_healthy to_vault now r t fits f) (
      rw
        (run->>> (move_rows to_vault (λ _. now) rs) (λ n. done (ok (n + 1)))
          (insert (to_vault, r.record_id) (moved_row to_vault now r) t))
        (Moved-follow to_vault now r rs t b _ rest))

pub move_rows_healthy :
    (to_vault : Bytes) (now : ℕ) (rs : List GenericEncryptedRecordV1) (t : Table)
    → DistinctIds rs
    → Bindable rs
    → Moved to_vault now rs t
        (any (taken to_vault t) rs)
        (run (move_rows to_vault (λ _. now) rs) [] t)
unfolding run select_revision
move_rows_healthy to_vault now [] t d fits = (refl, refl)
move_rows_healthy to_vault now (r ∷ rs) t (a, d) (fits, all_fit) =
    let u = insert (to_vault, r.record_id) (moved_row to_vault now r) t in
    let rest = move_rows_healthy to_vault now rs u d all_fit in
    rw (run->>> (move_row to_vault now r) _ t) (
      move_row_at to_vault now r rs t _ (any (taken to_vault t) rs) refl fits
        (rw (taken-insert to_vault r.record_id (moved_row to_vault now r) t rs a) at rest))
