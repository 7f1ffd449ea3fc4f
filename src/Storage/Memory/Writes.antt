-- ===== src/Storage/Memory/Writes.antt =====
-- What `put`, `get` and `tombstone` of `InMemoryStore` do.
use veyora.Prelude.{
  ℕ, ◌≡◌, ◌↔◌, refl, ap, Bytes, Option, none, some, Result, ok, err, arith, if◌then◌else◌,
  >>=-eq-ok,
}
use veyora.Storage.Assoc.{Key, lookup, key_eq, key_eq_refl, lookup-insert}
use veyora.Storage.Port.{
  StoreError, conflict, GenericEncryptedRecordV1, validate, succ_u64, revision_of, next_revision,
}
use veyora.Storage.Memory.{InMemoryStore, key_of, write, put_checked, put, get}

pub lookup-write :
    (r : GenericEncryptedRecordV1) (n : ℕ) (s : InMemoryStore) (k : Key)
    → lookup k (write r n s).rows
      ≡ (if key_eq (key_of r) k then some (record r { revision = n }) else lookup k s.rows)
unfolding write
lookup-write r n s k = lookup-insert (key_of r) k (record r { revision = n }) s.rows

put_checked_err :
    (r : GenericEncryptedRecordV1) (a : Result StoreError ℕ) (s : InMemoryStore) (x : StoreError)
    → (put_checked r a s).0 ≡ err x
    → (put_checked r a s).1 ≡ s
unfolding put_checked
put_checked_err r (ok n) s x h = cc
put_checked_err r (err e) s x h = refl

-- A failed write leaves the store as it was.
pub put_err :
    (r : GenericEncryptedRecordV1) (e : Option ℕ) (s : InMemoryStore) (x : StoreError)
    → (put r e s).0 ≡ err x
    → (put r e s).1 ≡ s
unfolding put
put_err r e s x h = put_checked_err r _ s x h

-- The compare-and-set decision passes exactly when the expectation is the stored revision.
pub next_revision_iff :
    (prior e : Option ℕ) → ((n : ℕ) × (next_revision prior e ≡ ok n)) ↔ (prior ≡ e)
unfolding next_revision
next_revision_iff none none = ((λ _. refl), λ _. (1, refl))
next_revision_iff none (some x) = ((λ h. cc h.1), λ h. cc)
next_revision_iff (some m) none = ((λ h. cc h.1), λ h. cc)
next_revision_iff (some m) (some x) = ((λ h. ground (arith, h.1)), λ h. (succ_u64 m, ground arith))

pub put_ok :
    (r : GenericEncryptedRecordV1) (e : Option ℕ) (s : InMemoryStore) (n : ℕ)
    → validate r ≡ ok tt
    → next_revision (revision_of (lookup (key_of r) s.rows)) e ≡ ok n
    → put r e s ≡ (ok n, write r n s)
unfolding put
put_ok r e s n v h = rw v (rw h)

put_checked_inversion :
    (r : GenericEncryptedRecordV1) (a : Result StoreError ℕ) (s t : InMemoryStore) (n : ℕ)
    → put_checked r a s ≡ (ok n, t)
    → (a ≡ ok n) × (t ≡ write r n s)
unfolding put_checked
put_checked_inversion r (ok m) s t n h = ground arith
put_checked_inversion r (err x) s t n h =
    cc (ap (λ (p : Result StoreError ℕ × InMemoryStore). p.0) h)

pub put_inversion :
    (r : GenericEncryptedRecordV1) (e : Option ℕ) (s t : InMemoryStore) (n : ℕ)
    → put r e s ≡ (ok n, t)
    → (validate r ≡ ok tt)
      × (next_revision (revision_of (lookup (key_of r) s.rows)) e ≡ ok n)
      × (t ≡ write r n s)
unfolding put
put_inversion r e s t n h =
    let p = put_checked_inversion r _ s t n h in
    let q = >>=-eq-ok (validate r) _ p.0 in (q.1, q.2, p.1)

-- The revision that a write assigns is never the one that it expected.
stale :
    (prior e : Option ℕ) (n : ℕ)
    → next_revision prior e ≡ ok n
    → next_revision (some n) e ≡ err conflict
unfolding next_revision
stale none none n h = refl
stale none (some x) n h = cc
stale (some m) none n h = cc
stale (some m) (some x) n h = ground arith

pub put_conflict :
    (r : GenericEncryptedRecordV1) (e : Option ℕ) (s : InMemoryStore)
    → validate r ≡ ok tt
    → next_revision (revision_of (lookup (key_of r) s.rows)) e ≡ err conflict
    → put r e s ≡ (err conflict, s)
unfolding put put_checked
put_conflict r e s v h = rw v (rw h)

-- `put` succeeds exactly on a valid record whose expectation is the stored revision.
put_succeeds_iff :
    (r : GenericEncryptedRecordV1) (e : Option ℕ) (s : InMemoryStore)
    → ((n : ℕ) × ((put r e s).0 ≡ ok n))
      ↔ ((validate r ≡ ok tt) × (revision_of (lookup (key_of r) s.rows) ≡ e))
put_succeeds_iff r e s = (
  (λ (n, h).
      let p = put_inversion r e s (put r e s).1 n (λ i. (h i, (put r e s).1)) in
      (p.0, (next_revision_iff _ e).0 (n, p.1))),
  (λ (v, h).
      let (n, q) = (next_revision_iff _ e).1 h in
      (n, ap (λ (p : Result StoreError ℕ × InMemoryStore). p.0) (put_ok r e s n v q))),
)

-- After a successful write of `r` the store returns `r` with its assigned revision at its key, and
-- what it returned before at every other key.
pub get-put :
    (r : GenericEncryptedRecordV1) (e : Option ℕ) (s t : InMemoryStore) (n : ℕ) (vault id : Bytes)
    → put r e s ≡ (ok n, t)
    → get vault id t
      ≡ (if key_eq (key_of r) (vault, id) then ok (record r { revision = n }) else get vault id s)
unfolding get
get-put r e s t n vault id h =
    rw ((put_inversion r e s t n h).2) (ground (arith, lookup-write r n s (vault, id)))

-- Of two writers of one key with the same expectation only the first succeeds: the second, on the
-- store that the first left, gets `conflict` if its record is valid.
pub put_race :
    (r q : GenericEncryptedRecordV1) (e : Option ℕ) (s t : InMemoryStore) (n : ℕ)
    → put r e s ≡ (ok n, t)
    → key_of q ≡ key_of r
    → validate q ≡ ok tt
    → put q e t ≡ (err conflict, t)
put_race r q e s t n h k v =
    let p = put_inversion r e s t n h in
    put_conflict q e t v
      (rw (p.2, k) (rw (lookup-write r n s (key_of r), key_eq_refl (key_of r)) (stale _ e n p.1)))
