-- ===== src/Storage/Memory/Purge.antt =====
-- `purge_tombstoned_before` of `InMemoryStore`: which rows a retention purge removes.
use veyora.Prelude.{
  ℕ, ◌≡◌, refl, ◌↔◌, ◌≤◌, ◌⊎◌, Bytes, bytes_eq, bytes_eq_iff, Option, none, some, List, [], ◌∷◌, ok,
  err, arith, Bool, true, false, ◌&&◌, Bool-cases, if◌then◌else◌, inl, inr,
}
use veyora.Storage.Assoc.{
  Key, HashMap, lookup, remove, key_eq, key_eq_iff, lookup-remove, Distinct, Distinct-remove,
}
use veyora.Storage.Port.{not_found, GenericEncryptedRecordV1}
use veyora.Storage.Memory.{
  InMemoryStore, get, stamp_expired, is_expired, expired_keys, remove_keys, purge_tombstoned_before,
}

unfoldable pub has : Key → List Key → Bool
has j [] = false
has j (k ∷ ks) = if key_eq k j then true else has j ks

pub lookup-remove_keys :
    (ks : List Key) (s : InMemoryStore) (j : Key)
    → lookup j (remove_keys ks s).rows ≡ (if has j ks then none else lookup j s.rows)
unfolding remove_keys has
lookup-remove_keys [] s j = refl
lookup-remove_keys (k ∷ ks) s j = ground (
  arith,
  lookup-remove_keys ks
      (record { rows = remove k s.rows; tombstoned_at = remove k s.tombstoned_at }) j,
  lookup-remove k j s.rows,
)

abbrev pub expired_row : Bytes → ℕ → HashMap ℕ → Key → Option GenericEncryptedRecordV1 → Bool
expired_row vault before stamps k none = false
expired_row vault before stamps k (some r) = is_expired vault before stamps k r

pub has-expired_keys :
    (vault : Bytes) (before : ℕ) (stamps : HashMap ℕ) (m : HashMap GenericEncryptedRecordV1)
    (j : Key)
    → Distinct m
    → has j (expired_keys vault before stamps m) ≡ expired_row vault before stamps j (lookup j m)
unfolding has expired_keys lookup
has-expired_keys vault before stamps [] j d = refl
has-expired_keys vault before stamps ((k, r) ∷ m) j (f, d) =
    ground (arith, has-expired_keys vault before stamps m j d, key_eq_iff k j)

lookup-purge :
    (vault : Bytes) (before : ℕ) (s : InMemoryStore) (k : Key)
    → Distinct s.rows
    → lookup k (purge_tombstoned_before vault before s).1.rows ≡ (
        if expired_row vault before s.tombstoned_at k (lookup k s.rows)
        then none
        else lookup k s.rows)
unfolding purge_tombstoned_before
lookup-purge vault before s k d =
    rw (lookup-remove_keys _ s k) (rw (has-expired_keys vault before s.tombstoned_at s.rows k d))

stamp_expired_iff :
    (before : ℕ) (o : Option ℕ)
    → (stamp_expired before o ≡ true) ↔ ((n : ℕ) × (o ≡ some n) × (n ≤ before))
unfolding stamp_expired
stamp_expired_iff before none = ((λ h. cc), λ h. cc h.1)
stamp_expired_iff before (some n) = ((λ h. (n, refl, ground arith)), λ h. ground (arith, h.1, h.2))

and_iff : (a b c : Bool) → ((a && b && c) ≡ true) ↔ ((a ≡ true) × (b ≡ true) × (c ≡ true))
and_iff a b c = ground arith

expired_iff :
    (vault : Bytes) (before : ℕ) (stamps : HashMap ℕ) (w id : Bytes) (r : GenericEncryptedRecordV1)
    → (is_expired vault before stamps (w, id) r ≡ true) ↔ (
        (w ≡ vault)
        × (r.tombstone ≡ true)
        × (n : ℕ) × (lookup (w, id) stamps ≡ some n)
        × (n ≤ before))
unfolding is_expired
expired_iff vault before stamps w id r =
    let both =
      and_iff (bytes_eq w vault) r.tombstone (stamp_expired before (lookup (w, id) stamps)) in
    let due = stamp_expired_iff before (lookup (w, id) stamps) in
    (
      (λ h.
          let (p, q, x) = both.0 h in
          let (n, at, le) = due.0 x in ((bytes_eq_iff w vault).0 p, q, n, at, le)),
      λ (p, q, n, at, le). both.1 ((bytes_eq_iff w vault).1 p, q, due.1 (n, at, le)),
    )

get_found :
    (w id : Bytes) (s : InMemoryStore) (r : GenericEncryptedRecordV1)
    → get w id s ≡ ok r
    → lookup (w, id) s.rows ≡ some r
unfolding get
get_found w id s r h = ground arith

get-lookup :
    (w id : Bytes) (s : InMemoryStore) (r : GenericEncryptedRecordV1) (b : Bool)
    → lookup (w, id) s.rows ≡ (if b then none else some r)
    → get w id s ≡ (if b then err not_found else ok r)
unfolding get
get-lookup w id s r b h = ground arith

pub remove_keys-Distinct :
    (ks : List Key) (s : InMemoryStore) → Distinct s.rows → Distinct (remove_keys ks s).rows
unfolding remove_keys
remove_keys-Distinct [] s d = d
remove_keys-Distinct (k ∷ ks) s d =
    remove_keys-Distinct ks
      (record { rows = remove k s.rows; tombstoned_at = remove k s.tombstoned_at })
      (Distinct-remove k s.rows d)

pub purge-Distinct :
    (vault : Bytes) (before : ℕ) (s : InMemoryStore)
    → Distinct s.rows
    → Distinct (purge_tombstoned_before vault before s).1.rows
unfolding purge_tombstoned_before
purge-Distinct vault before s d = remove_keys-Distinct _ s d

unstamped_keys :
    (ks : List Key) (s : InMemoryStore) (j : Key)
    → lookup j s.tombstoned_at ≡ none
    → lookup j (remove_keys ks s).tombstoned_at ≡ none
unfolding remove_keys
unstamped_keys [] s j h = h
unstamped_keys (k ∷ ks) s j h =
    unstamped_keys ks (record { rows = remove k s.rows; tombstoned_at = remove k s.tombstoned_at })
      j (ground (arith, h, lookup-remove k j s.tombstoned_at))

-- A purge stamps nothing.
pub purge_unstamped :
    (vault : Bytes) (before : ℕ) (s : InMemoryStore) (j : Key)
    → lookup j s.tombstoned_at ≡ none
    → lookup j (purge_tombstoned_before vault before s).1.tombstoned_at ≡ none
unfolding purge_tombstoned_before
purge_unstamped vault before s j h = unstamped_keys _ s j h

-- In a store in which no key stands twice, a purge of a vault drops a row exactly if the row is of that
-- vault, is tombstoned and has a deletion stamp at or before the cutoff; every other row, live, unstamped, younger or of another
-- vault, reads as before.
pub get-purge :
    (vault : Bytes) (before : ℕ) (s : InMemoryStore) (w id : Bytes) (r : GenericEncryptedRecordV1)
    → Distinct s.rows
    → get w id s ≡ ok r
    → ((get w id (purge_tombstoned_before vault before s).1 ≡ err not_found) ↔ (
        (w ≡ vault)
        × (r.tombstone ≡ true)
        × (n : ℕ) × (lookup (w, id) s.tombstoned_at ≡ some n)
        × (n ≤ before)))
      × ((get w id (purge_tombstoned_before vault before s).1 ≡ err not_found)
          ⊎ (get w id (purge_tombstoned_before vault before s).1 ≡ ok r))
get-purge vault before s w id r d h =
    let t = (purge_tombstoned_before vault before s).1 in
    let b = is_expired vault before s.tombstoned_at (w, id) r in
    let due = expired_iff vault before s.tombstoned_at w id r in
    let found = get_found w id s r h in
    let after : get w id t ≡ (if b then err not_found else ok r) =
      get-lookup w id t r b (rw (lookup-purge vault before s (w, id) d) (rw found)) in
    elim (Bool-cases b) [
      | inl e ↦ (((λ _. due.0 e), λ _. rw e at after), inl (rw e at after))
      | inr e ↦ (((λ g. cc (g, e, after)), λ x. cc (e, due.1 x)), inr (rw e at after))
    ]

lookup-remove_keys_stamps :
    (ks : List Key) (s : InMemoryStore) (j : Key)
    → lookup j (remove_keys ks s).tombstoned_at
      ≡ (if has j ks then none else lookup j s.tombstoned_at)
unfolding remove_keys has
lookup-remove_keys_stamps [] s j = refl
lookup-remove_keys_stamps (k ∷ ks) s j = ground (
  arith,
  lookup-remove_keys_stamps ks
      (record { rows = remove k s.rows; tombstoned_at = remove k s.tombstoned_at }) j,
  lookup-remove k j s.tombstoned_at,
)

removed_or_kept :
    (ks : List Key) (s : InMemoryStore) (w id : Bytes) (r : GenericEncryptedRecordV1)
    → get w id (remove_keys ks s) ≡ ok r
    → lookup (w, id) (remove_keys ks s).tombstoned_at ≡ lookup (w, id) s.tombstoned_at
removed_or_kept ks s w id r h =
    let rows = lookup-remove_keys ks s (w, id) in
    let stamps = lookup-remove_keys_stamps ks s (w, id) in
    let found = get_found w id (remove_keys ks s) r h in
    elim (Bool-cases (has (w, id) ks)) [
      | inl e ↦ absurd (ground (arith, rows, found, e))
      | inr e ↦ ground (arith, stamps, e)
    ]

-- A row that a purge keeps keeps its stamp.
pub purge_keeps_stamp :
    (vault : Bytes) (before : ℕ) (s : InMemoryStore) (w id : Bytes) (r : GenericEncryptedRecordV1)
    → get w id (purge_tombstoned_before vault before s).1 ≡ ok r
    → lookup (w, id) (purge_tombstoned_before vault before s).1.tombstoned_at
      ≡ lookup (w, id) s.tombstoned_at
unfolding purge_tombstoned_before
purge_keeps_stamp vault before s w id r h = removed_or_kept _ s w id r h

-- A purge brings no row back.
pub purge_not_found :
    (vault : Bytes) (before : ℕ) (s : InMemoryStore) (w id : Bytes)
    → get w id s ≡ err not_found
    → get w id (purge_tombstoned_before vault before s).1 ≡ err not_found
unfolding purge_tombstoned_before get
purge_not_found vault before s w id h =
    ground
      (arith, h, lookup-remove_keys (expired_keys vault before s.tombstoned_at s.rows) s (w, id))
