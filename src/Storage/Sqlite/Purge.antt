-- ===== src/Storage/Sqlite/Purge.antt =====
-- `purge_tombstoned_before` of `SqliteStore`, one DELETE, against the in-memory adapter, which collects
-- the expired keys first.
use veyora.Prelude.{
  ℕ, ◌+◌, ◌-◌, ◌≡◌, refl, ap, Bool, true, false, not, Bytes, Option, none, some, List, [], ◌∷◌, ok,
  arith, Bool-cases, inl, inr, length, All, if◌then◌else◌,
}
use veyora.Storage.Assoc.{
  Key, HashMap, lookup, remove, lookup-remove, key_eq, key_eq_iff, key_eq_refl, Distinct,
}
use veyora.Storage.Port.{GenericEncryptedRecordV1}
use veyora.Storage.Memory.{InMemoryStore, stamp_expired, is_expired, expired_keys, remove_keys}
use veyora.Storage.Memory
use veyora.Storage.Memory.Invariant.{IsValid}
use veyora.Storage.Memory.Purge.{has, has-expired_keys, expired_row}
use veyora.Storage.Sql.{
  Row, Table, run, call, keep_rows, is_due, stamp_due, cutoff_of, delete_expired,
}
use veyora.Storage.Sqlite.{purge_tombstoned_before}
use veyora.Storage.Sqlite.Represents.{
  Represents, Below, Fits, Agree, rows_of, columns_at, stamp_at, lookup-rows, lookup-rows_of,
}

stamp_due_agrees :
    (before : ℕ) (o : Option ℕ) → Fits o → stamp_due (cutoff_of before) o ≡ stamp_expired before o
unfolding stamp_expired
stamp_due_agrees before none h = refl
stamp_due_agrees before (some stamp) h = ground (arith, h)

is_due_agrees :
    (vault : Bytes) (before : ℕ) (stamps : HashMap ℕ) (k : Key) (row : Row)
    → lookup k stamps ≡ row.tombstoned_at
    → Fits row.tombstoned_at
    → is_due vault (cutoff_of before) k row ≡ is_expired vault before stamps k row.columns
unfolding is_expired
is_due_agrees vault before stamps (v, id) row at fits =
    rw (at, stamp_due_agrees before row.tombstoned_at fits) refl

-- The rows that the adapter keeps.
abbrev kept : Bytes → ℕ → Table → Table
kept vault before = keep_rows (λ k row. not (is_due vault (cutoff_of before) k row))

-- The keys removed one after the other.
strike {ℓ} : {V : Type ℓ} → List Key → HashMap V → HashMap V
strike [] m = m
strike (k ∷ ks) m = strike ks (remove k m)

remove_keys-strike :
    (ks : List Key) (s : InMemoryStore) → (remove_keys ks s).rows ≡ strike ks s.rows
unfolding remove_keys strike
remove_keys-strike [] s = refl
remove_keys-strike (k ∷ ks) s = remove_keys-strike ks _

lookup_stamp_keys :
    (ks : List Key) (s : InMemoryStore) (j : Key)
    → lookup j (remove_keys ks s).tombstoned_at
      ≡ (if has j ks then none else lookup j s.tombstoned_at)
unfolding remove_keys has
lookup_stamp_keys [] s j = refl
lookup_stamp_keys (k ∷ ks) s j = ground (
  arith,
  lookup_stamp_keys ks (record { rows = remove k s.rows; tombstoned_at = remove k s.tombstoned_at })
      j,
  lookup-remove k j s.tombstoned_at,
)

remove_absent {ℓ} : {V : Type ℓ} (k : Key) (m : HashMap V) → lookup k m ≡ none → remove k m ≡ m
unfolding lookup remove
remove_absent k [] h = refl
remove_absent k ((j, v) ∷ m) h = ground (arith, remove_absent k m)

remove_head {ℓ} :
    {V : Type ℓ} (k : Key) (v : V) (m : HashMap V) → lookup k m ≡ none → remove k ((k, v) ∷ m) ≡ m
unfolding remove
remove_head k v m h = rw (key_eq_refl k) (remove_absent k m h)

strike_other {ℓ} :
    {V : Type ℓ} (ks : List Key) (k : Key) (v : V) (m : HashMap V)
    → All (λ j. key_eq k j ≡ false) ks
    → strike ks ((k, v) ∷ m) ≡ (k, v) ∷ strike ks m
unfolding strike remove
strike_other [] k v m h = refl
strike_other (j ∷ ks) k v m (h, hs) = rw h (strike_other ks k v (remove j m) hs)

expired_absent :
    (vault : Bytes) (before : ℕ) (stamps : HashMap ℕ) (m : HashMap GenericEncryptedRecordV1)
    (k : Key)
    → lookup k m ≡ none
    → All (λ j. key_eq k j ≡ false) (expired_keys vault before stamps m)
unfolding expired_keys lookup
expired_absent vault before stamps [] k h = tt
expired_absent vault before stamps ((j, r) ∷ m) k h = elim (Bool-cases (key_eq j k)) [
  | inl e ↦ absurd (found e)
  | inr e ↦ elim (Bool-cases (is_expired vault before stamps j r)) [
    | inl x ↦ rw x (apart e, expired_absent vault before stamps m k (rest e))
    | inr x ↦ rw x (expired_absent vault before stamps m k (rest e))
  ]
]
  where
    found : key_eq j k ≡ true → ⊥
    found e = ground (arith, e, h)

    rest : key_eq j k ≡ false → lookup k m ≡ none
    rest e = ground (arith, e, h)

    apart : key_eq j k ≡ false → key_eq k j ≡ false
    apart e = ground (arith, key_eq_iff j k, key_eq_iff k j)

module _ (vault : Bytes) (before : ℕ) (stamps : HashMap ℕ) where
  -- Each row of the part has its stamp among the stamps.
  abbrev Stamped : Table → Type 0
  Stamped t =
      (k : Key) (row : Row)
      → lookup k t ≡ some row
      → (lookup k stamps ≡ row.tombstoned_at) × Fits row.tombstoned_at

  Stamped-tail :
      (j : Key) (row : Row) (t : Table) → lookup j t ≡ none → Stamped ((j, row) ∷ t) → Stamped t
  unfolding lookup
  Stamped-tail j row t free h k w at = h k w (ground (arith, key_eq_iff j k, at, free))

  head_agrees :
      (j : Key) (row : Row) (t : Table)
      → Stamped ((j, row) ∷ t)
      → is_due vault (cutoff_of before) j row ≡ is_expired vault before stamps j row.columns
  unfolding lookup
  head_agrees j row t h =
      let p = h j row (rw (key_eq_refl j) refl) in is_due_agrees vault before stamps j row p.0 p.1

  abbrev expired : Table → List Key
  expired t = expired_keys vault before stamps (rows_of t)

  count_agrees :
      (t : Table)
      → Distinct t
      → Stamped t
      → length t ≡ length (kept vault before t) + length (expired t)
  unfolding expired_keys keep_rows rows_of
  count_agrees [] d h = refl
  count_agrees ((j, row) ∷ t) (free, d) h =
      let rest = count_agrees t d (Stamped-tail j row t free h) in
      let head = head_agrees j row t h in
      elim (Bool-cases (is_expired vault before stamps j row.columns)) [
        | inl e ↦ rw (head, e) (omega (arith, rest))
        | inr e ↦ rw (head, e) (omega (arith, rest))
      ]

  rows_agree :
      (t : Table)
      → Distinct t
      → Stamped t
      → strike (expired t) (rows_of t) ≡ rows_of (kept vault before t)
  unfolding expired_keys keep_rows rows_of strike
  rows_agree [] d h = refl
  rows_agree ((j, row) ∷ t) (free, d) h =
      let rest = rows_agree t d (Stamped-tail j row t free h) in
      let head = head_agrees j row t h in
      let gone : lookup j (rows_of t) ≡ none = rw (lookup-rows_of j t, free) refl in
      elim (Bool-cases (is_expired vault before stamps j row.columns)) [
        | inl e ↦ rw (head, e) (rw (strike, remove_head j row.columns (rows_of t) gone) rest)
        | inr e ↦
            rw (head, e)
              (rw
                (
                  strike_other (expired t) j row.columns (rows_of t)
                      (expired_absent vault before stamps (rows_of t) j gone),
                  rest,
                )
                refl)
      ]

lookup-keep_rows :
    (p : Key → Row → Bool) (t : Table) (k : Key)
    → Distinct t
    → lookup k (keep_rows p t)
      ≡ (elim (lookup k t) [ none ↦ none | some row ↦ if p k row then some row else none ])
unfolding lookup keep_rows
lookup-keep_rows p [] k d = refl
lookup-keep_rows p ((j, row) ∷ t) k (free, d) =
    ground (arith, lookup-keep_rows p t k d, key_eq_iff j k, free)

Distinct-rows_of : (t : Table) → Distinct (rows_of t) → Distinct t
unfolding rows_of
Distinct-rows_of [] d = tt
Distinct-rows_of ((j, row) ∷ t) (free, d) =
    (ground (arith, lookup-rows_of j t, free), Distinct-rows_of t d)

Stamped-table :
    (vault : Bytes) (before n : ℕ) (t : Table) (s : InMemoryStore)
    → Represents t s
    → Below n t
    → Stamped vault before s.tombstoned_at t
Stamped-table vault before n t s v b k row h = (rw (v.stamps k, h) refl, (b k row h).1)

-- The stamps after the purge, at a key whose row the adapter keeps or drops.
stamp_after :
    (vault : Bytes) (before : ℕ) (t : Table) (s : InMemoryStore) (k : Key) (o : Option Row)
    → lookup k t ≡ o
    → Represents t s
    → ((row : Row) → o ≡ some row → Fits row.tombstoned_at)
    → (if expired_row vault before s.tombstoned_at k (columns_at o)
        then none
        else lookup k s.tombstoned_at)
      ≡ stamp_at (elim o [
        | none ↦ none
        | some row ↦ if not (is_due vault (cutoff_of before) k row) then some row else none
      ])
stamp_after vault before t s k none f v fits = rw (v.stamps k, f) refl
stamp_after vault before t s k (some row) f v fits =
    let at : lookup k s.tombstoned_at ≡ row.tombstoned_at = rw (v.stamps k, f) refl in
    let head = is_due_agrees vault before s.tombstoned_at k row at (fits row refl) in
    elim (Bool-cases (is_expired vault before s.tombstoned_at k row.columns)) [
      | inl e ↦ rw (head, e) refl
      | inr e ↦ rw (head, e) at
    ]

kept-Represents :
    (vault : Bytes) (before n : ℕ) (t : Table) (s : InMemoryStore)
    → IsValid s
    → Represents t s
    → Below n t
    → Distinct t
    → Represents (kept vault before t) (Memory.purge_tombstoned_before vault before s).1
unfolding Memory.purge_tombstoned_before
kept-Represents vault before n t s valid v b d = record {
  rows =
      rw (remove_keys-strike _ s, v.rows)
        (rows_agree vault before s.tombstoned_at t d (Stamped-table vault before n t s v b));
  stamps = λ k.
      rw
        (
          lookup_stamp_keys _ s k,
          has-expired_keys vault before s.tombstoned_at s.rows k valid.distinct,
          lookup-rows k t s v,
          lookup-keep_rows (λ j row. not (is_due vault (cutoff_of before) j row)) t k d,
        )
        (stamp_after vault before t s k (lookup k t) refl v λ row h. (b k row h).1);
}

kept_Below :
    (p : Key → Row → Bool) (n : ℕ) (t : Table) → Distinct t → Below n t → Below n (keep_rows p t)
kept_Below p n t d b k row h = b k row (kept_from (lookup k t) (rw (lookup-keep_rows p t k d) at h))
  where
    kept_from :
        (o : Option Row)
        → (elim o [ none ↦ none | some w ↦ if p k w then some w else none ]) ≡ some row
        → o ≡ some row
    kept_from none e = cc
    kept_from (some w) e = ground (arith, e)

purge_count :
    (vault : Bytes) (before n : ℕ) (t : Table) (s : InMemoryStore)
    → Represents t s
    → Below n t
    → Distinct t
    → length t - length (kept vault before t) ≡ (Memory.purge_tombstoned_before vault before s).0
unfolding Memory.purge_tombstoned_before
purge_count vault before n t s v b d = rw v.rows (
    omega
      (arith, count_agrees vault before s.tombstoned_at t d (Stamped-table vault before n t s v b)))

-- From a table that represents a valid store, a purge deletes as many rows as the in-memory
-- adapter's and ends in a table that represents the in-memory adapter's store.
pub purge_agrees :
    (vault : Bytes) (before n : ℕ) (t : Table) (s : InMemoryStore)
    → IsValid s
    → Represents t s
    → Below n t
    → let (count, s') = Memory.purge_tombstoned_before vault before s in
      Agree n (purge_tombstoned_before [] vault before t) (ok count, s')
unfolding purge_tombstoned_before call run delete_expired
purge_agrees vault before n t s valid v b =
    let d = Distinct-rows_of t (rw v.rows at valid.distinct) in
    (
      ap ok (purge_count vault before n t s v b d),
      kept-Represents vault before n t s valid v b d,
      kept_Below _ n t d b,
    )
