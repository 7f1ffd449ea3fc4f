-- ===== src/Storage/Memory/Corners.antt =====
-- Inputs at which `InMemoryStore` and the documented contract part.
use mathlib.Core.Path.{subst}
use veyora.Prelude.{
  ℕ, ◌≡◌, refl, ap, Bytes, Option, none, some, List, [], ◌∷◌, Result, ok, err, arith, true, ◌⊎◌,
  inl, inr,
}
use veyora.Storage.Assoc.{Distinct, lookup, key_eq_refl}
use veyora.Storage.Port.{
  StoreError, conflict, GenericEncryptedRecordV1, validate, revision_of, next_revision,
}
use veyora.Storage.Memory.{
  InMemoryStore, key_of, write, put, get, validate_all, plan_batch, put_batch_planned, put_batch,
  purge_tombstoned_before,
}
use veyora.Storage.Memory.Writes.{put_inversion, put_race, put_ok, next_revision_iff, lookup-write}
use veyora.Storage.Memory.Invariant.{IsValid, is_tombstoned, put-IsValid}
use veyora.Storage.Memory.Batch.{put_each}
use veyora.Storage.Memory.Purge.{get-purge, purge-Distinct, purge_unstamped}

revision_of-none : (o : Option GenericEncryptedRecordV1) → revision_of o ≡ none → o ≡ none
revision_of-none none h = refl
revision_of-none (some r) h = cc

unstamped_write :
    (r : GenericEncryptedRecordV1) (n : ℕ) (s t : InMemoryStore)
    → t ≡ write r n s
    → r.tombstone ≡ true
    → ((lookup (key_of r) s.tombstoned_at ≡ none)
        ⊎ (is_tombstoned (lookup (key_of r) s.rows) ≡ true))
    → lookup (key_of r) s.rows ≡ none
    → lookup (key_of r) t.tombstoned_at ≡ none
unfolding write
unstamped_write r n s t e dead stamp absent = rw e (ground arith)

written :
    (r : GenericEncryptedRecordV1) (n : ℕ) (s t : InMemoryStore)
    → t ≡ write r n s
    → get r.vault_id r.record_id t ≡ ok (record r { revision = n })
unfolding get
written r n s t e = rw e (ground (arith, lookup-write r n s (key_of r), key_eq_refl (key_of r)))

-- One purge after the other, each of a vault with a cutoff.
abbrev pub purges : List (Bytes × ℕ) → InMemoryStore → InMemoryStore
purges [] s = s
purges ((vault, before) ∷ cuts) s = purges cuts (purge_tombstoned_before vault before s).1

purges_keep :
    (cuts : List (Bytes × ℕ)) (s : InMemoryStore) (w id : Bytes) (r : GenericEncryptedRecordV1)
    → Distinct s.rows
    → lookup (w, id) s.tombstoned_at ≡ none
    → get w id s ≡ ok r
    → get w id (purges cuts s) ≡ ok r
purges_keep [] s w id r d clear h = h
purges_keep ((vault, before) ∷ cuts) s w id r d clear h =
    let (due, out) = get-purge vault before s w id r d h in
    let kept : get w id (purge_tombstoned_before vault before s).1 ≡ ok r = elim out [
      | inl gone ↦ cc (clear, (due.0 gone).3)
      | inr same ↦ same
    ] in
    purges_keep cuts (purge_tombstoned_before vault before s).1 w id r
      (purge-Distinct vault before s d) (purge_unstamped vault before s (w, id) clear) kept

-- In a valid store, a record that is first written as a tombstone gets no deletion stamp: any number
-- of purges after the write, of any vaults and with any cutoffs, leave it where it is.
pub put_tombstone_unpurgeable :
    (r : GenericEncryptedRecordV1) (s t : InMemoryStore) (n : ℕ) (cuts : List (Bytes × ℕ))
    → IsValid s
    → put r none s ≡ (ok n, t)
    → r.tombstone ≡ true
    → get r.vault_id r.record_id (purges cuts t) ≡ ok (record r { revision = n })
put_tombstone_unpurgeable r s t n cuts v h dead =
    let p = put_inversion r none s t n h in
    let k = key_of r in
    let w : IsValid t =
      subst IsValid (ap (λ (x : Result StoreError ℕ × InMemoryStore). x.1) h)
        (put-IsValid r none s v) in
    let absent : lookup k s.rows ≡ none =
      revision_of-none _ ((next_revision_iff _ none).0 (n, p.1)) in
    purges_keep cuts t r.vault_id r.record_id (record r { revision = n }) w.distinct
      (unstamped_write r n s t p.2 dead (v.stamped k) absent) (written r n s t p.2)

batch_accepts :
    (r q : GenericEncryptedRecordV1) (s : InMemoryStore)
    → validate r ≡ ok tt
    → validate q ≡ ok tt
    → key_of q ≡ key_of r
    → lookup (key_of r) s.rows ≡ none
    → (put_batch (r ∷ q ∷ []) (none ∷ none ∷ []) s).0 ≡ ok (1 ∷ 1 ∷ [])
unfolding put_batch put_batch_planned plan_batch validate_all next_revision
batch_accepts r q s vr vq same fresh = rw (vr, vq, same, fresh)

each_refuses :
    (r q : GenericEncryptedRecordV1) (s : InMemoryStore)
    → validate r ≡ ok tt
    → validate q ≡ ok tt
    → key_of q ≡ key_of r
    → lookup (key_of r) s.rows ≡ none
    → (put_each (r ∷ q ∷ []) (none ∷ none ∷ []) s).0 ≡ err conflict
unfolding put_each next_revision
each_refuses r q s vr vq same fresh =
    let first : put r none s ≡ (ok 1, write r 1 s) = put_ok r none s 1 vr (rw fresh) in
    rw first (rw (put_race r q none s (write r 1 s) 1 first same vq))

-- Two rows of one new key in one batch are both accepted at revision 1, where the trait's reference
-- implementation refuses the second with a conflict.
pub put_batch_duplicate :
    (r q : GenericEncryptedRecordV1) (s : InMemoryStore)
    → validate r ≡ ok tt
    → validate q ≡ ok tt
    → key_of q ≡ key_of r
    → lookup (key_of r) s.rows ≡ none
    → ((put_batch (r ∷ q ∷ []) (none ∷ none ∷ []) s).0 ≡ ok (1 ∷ 1 ∷ []))
      × ((put_each (r ∷ q ∷ []) (none ∷ none ∷ []) s).0 ≡ err conflict)
put_batch_duplicate r q s vr vq same fresh =
    (batch_accepts r q s vr vq same fresh, each_refuses r q s vr vq same fresh)
