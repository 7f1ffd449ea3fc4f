-- ===== src/Storage/Memory/Deletion.antt =====
-- `tombstone` and `tombstoned_at` of `InMemoryStore`: deletion, restoring and the deletion stamp.
use veyora.Prelude.{
  ℕ, ◌≡◌, refl, ap, Bytes, Option, none, some, Result, ok, err, arith, true, false,
}
use veyora.Storage.Assoc.{Key, lookup, key_eq, key_eq_refl, lookup-insert, lookup-remove}
use veyora.Storage.Port.{StoreError, GenericEncryptedRecordV1, succ_u64}
use veyora.Storage.Memory.{
  InMemoryStore, key_of, put, write, get, stamp_of, stamp_row, tombstone_row, tombstone,
}
use veyora.Storage.Memory.Writes.{put_inversion, lookup-write}

tombstone_row_err :
    (k : Key) (o : Option GenericEncryptedRecordV1) (e now : ℕ) (s : InMemoryStore) (x : StoreError)
    → (tombstone_row k o e now s).0 ≡ err x
    → (tombstone_row k o e now s).1 ≡ s
unfolding tombstone_row
tombstone_row_err k none e now s x h = refl
tombstone_row_err k (some r) e now s x h = ground arith

-- A failed deletion leaves the store as it was.
pub tombstone_err :
    (vault id : Bytes) (e now : ℕ) (s : InMemoryStore) (x : StoreError)
    → (tombstone vault id e now s).0 ≡ err x
    → (tombstone vault id e now s).1 ≡ s
unfolding tombstone
tombstone_err vault id e now s x h = tombstone_row_err _ _ e now s x h

tombstone_row_ok :
    (k : Key) (o : Option GenericEncryptedRecordV1) (e now n : ℕ) (s t : InMemoryStore)
    → tombstone_row k o e now s ≡ (ok n, t)
    → (r : GenericEncryptedRecordV1) × (o ≡ some r)
      × (r.revision ≡ e)
      × (n ≡ succ_u64 e)
      × (t ≡ stamp_row k r e now s)
unfolding tombstone_row
tombstone_row_ok k none e now n s t h = cc (ap (λ (p : Result StoreError ℕ × InMemoryStore). p.0) h)
tombstone_row_ok k (some r) e now n s t h = (r, refl, ground arith, ground arith, ground arith)

get_found :
    (k : Key) (s : InMemoryStore) (r : GenericEncryptedRecordV1)
    → lookup k s.rows ≡ some r
    → get k.0 k.1 s ≡ ok r
unfolding get
get_found k s r h = rw (h, get)

stamped_row :
    (k : Key) (r : GenericEncryptedRecordV1) (e now : ℕ) (s : InMemoryStore)
    → get k.0 k.1 (stamp_row k r e now s)
      ≡ ok (record r { tombstone = true; revision = succ_u64 e })
unfolding get stamp_row
stamped_row k r e now s = ground (
  arith,
  key_eq_refl k,
  lookup-insert k k (record r { tombstone = true; revision = succ_u64 e }) s.rows,
)

stamped_at :
    (k : Key) (r : GenericEncryptedRecordV1) (e now : ℕ) (s : InMemoryStore)
    → stamp_of k.0 k.1 (stamp_row k r e now s) ≡ ok (some now)
unfolding stamp_of stamp_row
stamped_at k r e now s =
    ground (arith, stamped_row k r e now s, key_eq_refl k, lookup-insert k k now s.tombstoned_at)

stamped_other :
    (k : Key) (r : GenericEncryptedRecordV1) (e now : ℕ) (s : InMemoryStore) (w j : Bytes)
    → key_eq k (w, j) ≡ false
    → get w j (stamp_row k r e now s) ≡ get w j s
unfolding get stamp_row
stamped_other k r e now s w j ne =
    ground
      (arith, lookup-insert k (w, j) (record r { tombstone = true; revision = succ_u64 e }) s.rows)

-- A successful deletion found the row at the expected revision; afterwards the row reads as the
-- same record, tombstoned and at the next revision, its deletion stamp is the clock's reading, and
-- every other key reads as before.
pub get-tombstone :
    (vault id : Bytes) (e now n : ℕ) (s t : InMemoryStore)
    → tombstone vault id e now s ≡ (ok n, t)
    → (r : GenericEncryptedRecordV1) × (get vault id s ≡ ok r)
      × (r.revision ≡ e)
      × (n ≡ succ_u64 e)
      × (get vault id t ≡ ok (record r { tombstone = true; revision = n }))
      × (stamp_of vault id t ≡ ok (some now))
      × ((w j : Bytes) → key_eq (vault, id) (w, j) ≡ false → get w j t ≡ get w j s)
unfolding tombstone
get-tombstone vault id e now n s t h =
    let k : Key = (vault, id) in
    let (r, found, same, next, at) = tombstone_row_ok k _ e now n s t h in
    (
      r,
      get_found k s r found,
      same,
      next,
      cc (at, next, stamped_row k r e now s),
      cc (at, stamped_at k r e now s),
      λ w j ne. cc (at, stamped_other k r e now s w j ne),
    )

-- Restoring: a successful write of a live record leaves it without a deletion stamp.
pub put_restores :
    (r : GenericEncryptedRecordV1) (e : Option ℕ) (s t : InMemoryStore) (n : ℕ)
    → put r e s ≡ (ok n, t)
    → r.tombstone ≡ false
    → stamp_of r.vault_id r.record_id t ≡ ok none
unfolding stamp_of get write
put_restores r e s t n h live = rw (put_inversion r e s t n h).2 (
    ground (
      arith,
      lookup-write r n s (key_of r),
      key_eq_refl (key_of r),
      lookup-remove (key_of r) (key_of r) s.tombstoned_at,
    ))
