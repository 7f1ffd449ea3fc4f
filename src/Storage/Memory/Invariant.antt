-- ===== src/Storage/Memory/Invariant.antt =====
-- The invariant of `InMemoryStore`, and that every operation keeps it.
use veyora.Prelude.{
  ℕ, ◌≡◌, refl, ◌⊎◌, inl, inr, Bytes, Option, none, some, List, [], ◌∷◌, Result, ok, err, arith,
  Bool, true, false, Bool-cases, ◌==◌,
}
use veyora.Storage.Assoc.{
  Key, lookup, key_eq_iff, lookup-insert, lookup-remove, lookup-retain, Distinct, Distinct-insert,
  Distinct-remove, Distinct-retain,
}
use veyora.Storage.Port.{StoreError, succ_u64, GenericEncryptedRecordV1}
use veyora.Storage.Memory.{
  InMemoryStore, empty_store, key_of, write, put_checked, put, stamp_row, tombstone_row, tombstone,
  Plan, apply_plan, put_batch_planned, put_batch, outside, place, drop_vault, remove_keys,
  purge_tombstoned_before,
}

abbrev pub is_tombstoned : Option GenericEncryptedRecordV1 → Bool
is_tombstoned none = false
is_tombstoned (some r) = r.tombstone

-- Every row stands under its own vault and record id, no key stands twice, and a deletion stamp
-- belongs to a tombstoned row.
pub record IsValid (s : InMemoryStore) : Type 0 where
  pub distinct : Distinct s.rows
  pub keyed : (k : Key) (r : GenericEncryptedRecordV1) → lookup k s.rows ≡ some r → key_of r ≡ k
  pub stamped :
      (k : Key) → (lookup k s.tombstoned_at ≡ none) ⊎ (is_tombstoned (lookup k s.rows) ≡ true)

pub IsValid-empty : IsValid empty_store
unfolding lookup
IsValid-empty = record { distinct = tt; keyed = λ k r h. cc; stamped = λ k. inl refl }

pub write-IsValid :
    (r : GenericEncryptedRecordV1) (n : ℕ) (s : InMemoryStore) → IsValid s → IsValid (write r n s)
unfolding write
write-IsValid r n s v = record {
  distinct = Distinct-insert (key_of r) (record r { revision = n }) s.rows v.distinct;
  keyed = λ k q h. ground (
    arith,
    lookup-insert (key_of r) k (record r { revision = n }) s.rows,
    key_eq_iff (key_of r) k,
    v.keyed k q,
  );
  stamped = λ k. ground (
    arith,
    lookup-insert (key_of r) k (record r { revision = n }) s.rows,
    key_eq_iff (key_of r) k,
    lookup-remove (key_of r) k s.tombstoned_at,
    v.stamped k,
  );
}

put_checked-IsValid :
    (r : GenericEncryptedRecordV1) (a : Result StoreError ℕ) (s : InMemoryStore)
    → IsValid s
    → IsValid (put_checked r a s).1
unfolding put_checked
put_checked-IsValid r (ok n) s v = write-IsValid r n s v
put_checked-IsValid r (err e) s v = v

-- `put` keeps the invariant, whether it succeeds or fails.
pub put-IsValid :
    (r : GenericEncryptedRecordV1) (e : Option ℕ) (s : InMemoryStore)
    → IsValid s
    → IsValid (put r e s).1
unfolding put
put-IsValid r e s v = put_checked-IsValid r _ s v

stamp_row-IsValid :
    (k : Key) (r : GenericEncryptedRecordV1) (e now : ℕ) (s : InMemoryStore)
    → lookup k s.rows ≡ some r
    → IsValid s
    → IsValid (stamp_row k r e now s)
unfolding stamp_row
stamp_row-IsValid k r e now s f v =
    let new : GenericEncryptedRecordV1 = record r { tombstone = true; revision = succ_u64 e } in
    record {
      distinct = Distinct-insert k new s.rows v.distinct;
      keyed = λ j q h.
          ground (arith, lookup-insert k j new s.rows, key_eq_iff k j, v.keyed j q, v.keyed k r f);
      stamped = λ j.
          ground (
            arith,
            lookup-insert k j new s.rows,
            lookup-insert k j now s.tombstoned_at,
            v.stamped j,
          );
    }

tombstone_row-IsValid :
    (k : Key) (o : Option GenericEncryptedRecordV1) (e now : ℕ) (s : InMemoryStore)
    → lookup k s.rows ≡ o
    → IsValid s
    → IsValid (tombstone_row k o e now s).1
unfolding tombstone_row
tombstone_row-IsValid k none e now s f v = v
tombstone_row-IsValid k (some r) e now s f v = elim (Bool-cases (r.revision == e)) [
  | inl same ↦ rw same (stamp_row-IsValid k r e now s f v)
  | inr other ↦ rw other v
]

-- `tombstone` keeps the invariant, whether it succeeds or fails.
pub tombstone-IsValid :
    (vault id : Bytes) (e now : ℕ) (s : InMemoryStore)
    → IsValid s
    → IsValid (tombstone vault id e now s).1
unfolding tombstone
tombstone-IsValid vault id e now s v = tombstone_row-IsValid (vault, id) _ e now s refl v

apply_plan-IsValid : (p : Plan) (s : InMemoryStore) → IsValid s → IsValid (apply_plan p s)
unfolding apply_plan
apply_plan-IsValid [] s v = v
apply_plan-IsValid ((r, n) ∷ p) s v = apply_plan-IsValid p (write r n s) (write-IsValid r n s v)

put_batch_planned-IsValid :
    (p : Result StoreError Plan) (s : InMemoryStore) → IsValid s → IsValid (put_batch_planned p s).1
unfolding put_batch_planned
put_batch_planned-IsValid (ok p) s v = apply_plan-IsValid p s v
put_batch_planned-IsValid (err e) s v = v

-- `put_batch` keeps the invariant, whether it succeeds or fails.
pub put_batch-IsValid :
    (rs : List GenericEncryptedRecordV1) (es : List (Option ℕ)) (s : InMemoryStore)
    → IsValid s
    → IsValid (put_batch rs es s).1
unfolding put_batch
put_batch-IsValid rs es s v = put_batch_planned-IsValid _ s v

pub drop_vault-IsValid :
    (vault : Bytes) (s : InMemoryStore) → IsValid s → IsValid (drop_vault vault s)
drop_vault-IsValid vault s v = record {
  distinct = Distinct-retain (outside vault) s.rows v.distinct;
  keyed = λ k q h. ground (arith, lookup-retain (outside vault) k s.rows, v.keyed k q);
  stamped = λ k. ground (
    arith,
    lookup-retain (outside vault) k s.rows,
    lookup-retain (outside vault) k s.tombstoned_at,
    v.stamped k,
  );
}

-- A row may be placed where none of the same key is stamped.
pub place-IsValid :
    (now : ℕ) (r : GenericEncryptedRecordV1) (s : InMemoryStore)
    → IsValid s
    → lookup (key_of r) s.tombstoned_at ≡ none
    → IsValid (place now r s)
unfolding place
place-IsValid now r s v free = record {
  distinct = Distinct-insert (key_of r) r s.rows v.distinct;
  keyed = λ k q h.
      ground (arith, lookup-insert (key_of r) k r s.rows, key_eq_iff (key_of r) k, v.keyed k q);
  stamped = λ k. ground (
    arith,
    lookup-insert (key_of r) k r s.rows,
    key_eq_iff (key_of r) k,
    lookup-insert (key_of r) k now s.tombstoned_at,
    v.stamped k,
    free,
  );
}

remove_keys-IsValid : (ks : List Key) (s : InMemoryStore) → IsValid s → IsValid (remove_keys ks s)
unfolding remove_keys
remove_keys-IsValid [] s v = v
remove_keys-IsValid (k ∷ ks) s v = remove_keys-IsValid ks _ (record {
  distinct = Distinct-remove k s.rows v.distinct;
  keyed = λ j q h. ground (arith, lookup-remove k j s.rows, v.keyed j q);
  stamped =
      λ j. ground (arith, lookup-remove k j s.rows, lookup-remove k j s.tombstoned_at, v.stamped j);
})

-- `purge_tombstoned_before` keeps the invariant.
pub purge-IsValid :
    (vault : Bytes) (before : ℕ) (s : InMemoryStore)
    → IsValid s
    → IsValid (purge_tombstoned_before vault before s).1
unfolding purge_tombstoned_before
purge-IsValid vault before s v = remove_keys-IsValid _ s v
