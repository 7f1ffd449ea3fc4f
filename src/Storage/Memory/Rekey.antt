-- ===== src/Storage/Memory/Rekey.antt =====
-- `rekey_vault` of `InMemoryStore`: the move of a vault to another scope.
use veyora.Prelude.{
  ℕ, ◌≡◌, Bytes, bytes_eq, bytes_eq_iff, Option, none, some, List, [], ◌∷◌, ok, err, arith, false,
  any, length, Result-cases, if◌then◌else◌, inl, inr,
}
use veyora.Storage.Assoc.{lookup, key_eq, lookup-insert, lookup-retain}
use veyora.Storage.Port.{StoreError, not_found, GenericEncryptedRecordV1}
use veyora.Storage.Memory.{
  InMemoryStore, get, retarget, outside, occupied, place, place_all, drop_vault, rekey_check,
  rekey_vault,
}
use veyora.Storage.Memory.Invariant.{IsValid, drop_vault-IsValid, place-IsValid}

-- A failed rekey leaves the store as it was.
pub rekey_err :
    (vault to_vault : Bytes) (rs : List GenericEncryptedRecordV1) (now : ℕ) (s : InMemoryStore)
    (x : StoreError)
    → (rekey_vault vault to_vault rs now s).0 ≡ err x
    → (rekey_vault vault to_vault rs now s).1 ≡ s
unfolding rekey_vault
rekey_err vault to_vault rs now s x h = ground arith

-- The last row of a batch that has the given record id.
abbrev pub last_with_id : Bytes → List GenericEncryptedRecordV1 → Option GenericEncryptedRecordV1
last_with_id id [] = none
last_with_id id (r ∷ rs) = elim (last_with_id id rs) [
  | some q ↦ some q
  | none ↦ if bytes_eq r.record_id id then some r else none
]

-- What the placed rows leave at a key of the target scope.
abbrev placed :
    Bytes
    → Option GenericEncryptedRecordV1
    → Option GenericEncryptedRecordV1
    → Option GenericEncryptedRecordV1
placed to_vault none old = old
placed to_vault (some r) old = some (retarget to_vault r)

lookup-place_all :
    (to_vault : Bytes) (now : ℕ) (rs : List GenericEncryptedRecordV1) (s : InMemoryStore)
    (w id : Bytes)
    → lookup (w, id) (place_all to_vault now rs s).rows ≡ (
        if bytes_eq w to_vault
        then placed to_vault (last_with_id id rs) (lookup (w, id) s.rows)
        else lookup (w, id) s.rows)
unfolding place_all place key_eq
lookup-place_all to_vault now [] s w id = ground arith
lookup-place_all to_vault now (r ∷ rs) s w id = ground (
  arith,
  lookup-place_all to_vault now rs (place now (retarget to_vault r) s) w id,
  lookup-insert (to_vault, r.record_id) (w, id) (retarget to_vault r) s.rows,
  bytes_eq_iff w to_vault,
  bytes_eq_iff to_vault w,
)

rekey_ok :
    (vault to_vault : Bytes) (rs : List GenericEncryptedRecordV1) (now n : ℕ) (s t : InMemoryStore)
    → rekey_vault vault to_vault rs now s ≡ (ok n, t)
    → (rekey_check vault to_vault rs s ≡ ok tt)
      × (n ≡ length rs)
      × (t ≡ place_all to_vault now rs (drop_vault vault s))
unfolding rekey_vault
rekey_ok vault to_vault rs now n s t h = ground arith

rekey_check_ne :
    (vault to_vault : Bytes) (rs : List GenericEncryptedRecordV1) (s : InMemoryStore)
    → rekey_check vault to_vault rs s ≡ ok tt
    → (bytes_eq to_vault vault ≡ false) × (any (occupied to_vault s.rows) rs ≡ false)
unfolding rekey_check
rekey_check_ne vault to_vault rs s h = ground arith

-- After a successful rekey the old scope holds nothing, a record id of the request is found in the
-- new scope as the last row of the request with that id, under the new scope and at revision 1, and
-- every other row of every other scope is what it was.
pub get-rekey_vault :
    (vault to_vault : Bytes) (rs : List GenericEncryptedRecordV1) (now n : ℕ) (s t : InMemoryStore)
    → rekey_vault vault to_vault rs now s ≡ (ok n, t)
    → (w id : Bytes)
    → get w id t ≡ (
        if bytes_eq w vault
        then err not_found
        else if bytes_eq w to_vault
        then (elim (last_with_id id rs) [ none ↦ get w id s | some r ↦ ok (retarget to_vault r) ])
        else get w id s)
unfolding get
get-rekey_vault vault to_vault rs now n s t h w id =
    let p = rekey_ok vault to_vault rs now n s t h in
    let q = rekey_check_ne vault to_vault rs s p.0 in
    rw p.2 (
      ground (
        arith,
        q.0,
        lookup-place_all to_vault now rs (drop_vault vault s) w id,
        lookup-retain (outside vault) (w, id) s.rows,
        bytes_eq_iff w to_vault,
        bytes_eq_iff w vault,
        bytes_eq_iff to_vault vault,
      ))

-- No stamp stands at a target key of the rows.
abbrev Unstamped : Bytes → InMemoryStore → List GenericEncryptedRecordV1 → Type 0
Unstamped to_vault s [] = Unit
Unstamped to_vault s (r ∷ rs) =
    (lookup (to_vault, r.record_id) s.tombstoned_at ≡ none) × Unstamped to_vault s rs

-- No two rows of the request have one record id.
abbrev pub AbsentId : Bytes → List GenericEncryptedRecordV1 → Type 0
AbsentId id [] = Unit
AbsentId id (r ∷ rs) = (bytes_eq id r.record_id ≡ false) × AbsentId id rs

abbrev pub DistinctIds : List GenericEncryptedRecordV1 → Type 0
DistinctIds [] = Unit
DistinctIds (r ∷ rs) = AbsentId r.record_id rs × DistinctIds rs

Unstamped-place :
    (to_vault : Bytes) (now : ℕ) (r : GenericEncryptedRecordV1) (s : InMemoryStore)
    (rs : List GenericEncryptedRecordV1)
    → AbsentId r.record_id rs
    → Unstamped to_vault s rs
    → Unstamped to_vault (place now (retarget to_vault r) s) rs
unfolding place key_eq
Unstamped-place to_vault now r s [] a u = tt
Unstamped-place to_vault now r s (q ∷ rs) (a, as_rest) (u, us) = (
  ground (
    arith,
    a,
    u,
    lookup-insert (to_vault, r.record_id) (to_vault, q.record_id) now s.tombstoned_at,
  ),
  Unstamped-place to_vault now r s rs as_rest us,
)

place_all-IsValid :
    (to_vault : Bytes) (now : ℕ) (rs : List GenericEncryptedRecordV1) (s : InMemoryStore)
    → DistinctIds rs
    → Unstamped to_vault s rs
    → IsValid s
    → IsValid (place_all to_vault now rs s)
unfolding place_all
place_all-IsValid to_vault now [] s d u v = v
place_all-IsValid to_vault now (r ∷ rs) s (a, d) (u, us) v =
    place_all-IsValid to_vault now rs _ d (Unstamped-place to_vault now r s rs a us)
      (place-IsValid now (retarget to_vault r) s v u)

free_slots :
    (vault to_vault : Bytes) (rs : List GenericEncryptedRecordV1) (s : InMemoryStore)
    → IsValid s
    → any (occupied to_vault s.rows) rs ≡ false
    → Unstamped to_vault (drop_vault vault s) rs
unfolding occupied
free_slots vault to_vault [] s v h = tt
free_slots vault to_vault (r ∷ rs) s v h = (
  ground (
    arith,
    v.stamped (to_vault, r.record_id),
    lookup-retain (outside vault) (to_vault, r.record_id) s.tombstoned_at,
  ),
  free_slots vault to_vault rs s v (ground arith),
)

-- A rekey of rows with different record ids keeps the invariant, whether it succeeds or fails.
pub rekey-IsValid :
    (vault to_vault : Bytes) (rs : List GenericEncryptedRecordV1) (now : ℕ) (s : InMemoryStore)
    → DistinctIds rs
    → IsValid s
    → IsValid (rekey_vault vault to_vault rs now s).1
unfolding rekey_vault
rekey-IsValid vault to_vault rs now s d v = elim (Result-cases (rekey_check vault to_vault rs s)) [
  | inl (u, e) ↦
      rw (e, rekey_vault)
        (place_all-IsValid to_vault now rs (drop_vault vault s) d
          (free_slots vault to_vault rs s v (rekey_check_ne vault to_vault rs s e).1)
          (drop_vault-IsValid vault s v))
  | inr (x, e) ↦ rw (e, rekey_vault) v
]
