-- ===== src/Storage/Sqlite/Rekey/Places.antt =====
-- The table after the inserts of a rekey, against the in-memory adapter's placed rows.
use veyora.Prelude.{
  ℕ, ◌+◌, ◌^◌, ◌<◌, ◌≡◌, refl, Bool, true, false, Bytes, Option, none, some, List, [], ◌∷◌, arith,
  any, bytes_eq, if◌then◌else◌,
}
use veyora.Storage.Assoc.{
  Key, lookup, insert, retain, lookup-insert, lookup-retain, key_eq_iff, retain-insert,
}
use veyora.Storage.Port.{GenericEncryptedRecordV1}
use veyora.Storage.Memory.{InMemoryStore, retarget, occupied, outside, place, place_all, drop_vault}
use veyora.Storage.Memory.Rekey.{DistinctIds}
use veyora.Storage.Sql.{Row, Table}
use veyora.Storage.Sqlite.Represents.{
  Represents, Below, Below-insert, Fits, rows_of-insert, rows_of-retain, lookup-rows, columns_at,
}
use veyora.Storage.Sqlite.Rekey.Moves.{moved_row, place_table, is_taken, taken, taken-insert}

occupied-taken :
    (to_vault : Bytes) (t : Table) (s : InMemoryStore) (r : GenericEncryptedRecordV1)
    → Represents t s
    → occupied to_vault s.rows r ≡ taken to_vault t r
unfolding occupied
occupied-taken to_vault t s r v =
    rw (occupied, lookup-rows (to_vault, r.record_id) t s v)
      (one (lookup (to_vault, r.record_id) t))
  where
    one : (o : Option Row) → (elim (columns_at o) [ none ↦ false | some q ↦ true ]) ≡ is_taken o
    one none = refl
    one (some row) = refl

pub any-occupied :
    (to_vault : Bytes) (t : Table) (s : InMemoryStore) (rs : List GenericEncryptedRecordV1)
    → Represents t s
    → any (occupied to_vault s.rows) rs ≡ any (taken to_vault t) rs
any-occupied to_vault t s [] v = refl
any-occupied to_vault t s (r ∷ rs) v =
    rw (any-occupied to_vault t s rs v, occupied-taken to_vault t s r v) refl

Represents-place :
    (to_vault : Bytes) (now : ℕ) (r : GenericEncryptedRecordV1) (t : Table) (s : InMemoryStore)
    → lookup (to_vault, r.record_id) t ≡ none
    → Represents t s
    → Represents
        (insert (to_vault, r.record_id) (moved_row to_vault now r) t)
        (place now (retarget to_vault r) s)
unfolding place
Represents-place to_vault now r t s free v =
    let k : Key = (to_vault, r.record_id) in
    record {
      rows = rw (v.rows, rows_of-insert k (moved_row to_vault now r) t) refl;
      stamps = λ j. ground (
        arith,
        lookup-insert k j (moved_row to_vault now r) t,
        lookup-insert k j now s.tombstoned_at,
        v.stamps j,
        key_eq_iff k j,
        free,
      );
    }

not_taken : (o : Option Row) → is_taken o ≡ false → o ≡ none
not_taken none h = refl
not_taken (some row) h = cc

pub Represents-place_all :
    (to_vault : Bytes) (now : ℕ) (rs : List GenericEncryptedRecordV1) (t : Table)
    (s : InMemoryStore)
    → DistinctIds rs
    → any (taken to_vault t) rs ≡ false
    → Represents t s
    → Represents (place_table to_vault now rs t) (place_all to_vault now rs s)
unfolding place_all
Represents-place_all to_vault now [] t s d free v = v
Represents-place_all to_vault now (r ∷ rs) t s (a, d) free v =
    Represents-place_all to_vault now rs _ _ d
      (rw (taken-insert to_vault r.record_id (moved_row to_vault now r) t rs a)
        (ground (arith, free)))
      (Represents-place to_vault now r t s (not_taken _ (ground (arith, free))) v)

pub Represents-drop :
    (vault : Bytes) (t : Table) (s : InMemoryStore)
    → Represents t s
    → Represents (retain (outside vault) t) (drop_vault vault s)
Represents-drop vault t s v = record {
  rows = rw (v.rows, rows_of-retain (outside vault) t) refl;
  stamps = λ k. ground (
    arith,
    lookup-retain (outside vault) k t,
    lookup-retain (outside vault) k s.tombstoned_at,
    v.stamps k,
  );
}

-- Deleting the old scope after the moves leaves what deleting it before them leaves.
pub retain-place_table :
    (vault to_vault : Bytes) (now : ℕ) (rs : List GenericEncryptedRecordV1) (t : Table)
    → bytes_eq to_vault vault ≡ false
    → retain (outside vault) (place_table to_vault now rs t)
      ≡ place_table to_vault now rs (retain (outside vault) t)
retain-place_table vault to_vault now [] t ne = refl
retain-place_table vault to_vault now (r ∷ rs) t ne =
    rw
      (retain-place_table vault to_vault now rs
        (insert (to_vault, r.record_id) (moved_row to_vault now r) t) ne)
      (rw
        (retain-insert (outside vault) (to_vault, r.record_id) (moved_row to_vault now r) t
          (rw ne refl))
        refl)

pub taken-retain :
    (vault to_vault : Bytes) (t : Table) (rs : List GenericEncryptedRecordV1)
    → bytes_eq to_vault vault ≡ false
    → any (taken to_vault (retain (outside vault) t)) rs ≡ any (taken to_vault t) rs
taken-retain vault to_vault t [] ne = refl
taken-retain vault to_vault t (r ∷ rs) ne =
    rw (taken-retain vault to_vault t rs ne)
      (rw (lookup-retain (outside vault) (to_vault, r.record_id) t, ne) refl)

pub Below-place :
    (to_vault : Bytes) (now n : ℕ) (rs : List GenericEncryptedRecordV1) (t : Table)
    → now < 2 ^ 63
    → Below (n + 1) t
    → Below (n + 1) (place_table to_vault now rs t)
Below-place to_vault now n [] t clock b = b
Below-place to_vault now n (r ∷ rs) t clock b = Below-place to_vault now n rs _ clock (
    Below-insert (to_vault, r.record_id) (moved_row to_vault now r) (n + 1) (n + 1) t b
      (omega arith) (omega arith, stamp_fits r.tombstone))
  where
    stamp_fits : (b : Bool) → Fits (if b then some now else none)
    stamp_fits true = clock
    stamp_fits false = tt

pub Below-drop :
    (vault : Bytes) (n : ℕ) (t : Table) → Below n t → Below n (retain (outside vault) t)
Below-drop vault n t b k row h = b k row (ground (arith, h, lookup-retain (outside vault) k t))
