-- ===== src/Storage/Sqlite/Rekey.antt =====
-- `rekey_vault` of `SqliteStore`, which inserts first and deletes the old scope last, against the
-- in-memory adapter, which removes the old scope first.
pub mod Moves
pub mod Places
use veyora.Prelude.{
  is_empty, ℕ, ◌+◌, ◌^◌, ◌≤◌, ◌<◌, ◌≡◌, refl, ap, Bool, true, false, not, Bytes, Option, none, some,
  List, [], ◌∷◌, Result, ok, err, arith, Bool-cases, Option-cases, Result-cases, inl, inr, length,
  All, any, bytes_eq, bytes_eq_iff, ◌>>=◌, if◌then◌else◌, ◌||◌, lt→ltb,
}
use veyora.Storage.Assoc.{
  Key, HashMap, lookup, insert, retain, lookup-insert, lookup-retain, key_eq, key_eq_iff,
  key_eq_refl, insert-insert, retain-insert,
}
use veyora.Storage.Port.{StoreError, conflict, invalid_record, GenericEncryptedRecordV1}
use veyora.Storage.Memory.{
  InMemoryStore, key_of, retarget, occupied, outside, place, place_all, drop_vault, rekey_check,
}
use veyora.Storage.Memory
use veyora.Storage.Memory.Rekey.{AbsentId, DistinctIds}
use veyora.Storage.Sql.{
  Row, Table, run, call, settle, revision_at, select_revision, insert_record, insert_row,
  stamp_record, stamp_found, delete_vault, done, exec, ◌>>>◌, checked, transaction,
}
use veyora.Storage.Sql.Faults.{follow, run->>>}
use veyora.Storage.Sqlite.{
  validate_all, scope_check, rekey_vault, rekey_tx, move_rows, move_row, place_row, insert_bound,
  stamp_moved,
}
use veyora.Storage.Sqlite.Represents.{
  Represents, Below, Below-weaken, Below-insert, Fits, Agree, Agree-refused, rows_of,
  rows_of-insert, rows_of-retain, lookup-rows, columns_at, stamp_at,
}
use veyora.Storage.Sqlite.Writes.{call-transaction}
use veyora.Storage.Sqlite.Batch.{Named, validate_all_agrees}
use veyora.Storage.Sqlite.Rekey.Moves.{Bindable, place_table, taken, Moved, move_rows_healthy}
use veyora.Storage.Sqlite.Rekey.Places.{
  any-occupied, Represents-place_all, Represents-drop, retain-place_table, taken-retain,
  Below-place, Below-drop,
}

module _ (vault to_vault : Bytes) (rs : List GenericEncryptedRecordV1) (now : ℕ) where
  -- The in-memory adapter behind its checks.
  abbrev moved_store :
      Result StoreError (Unit {0}) → InMemoryStore → Result StoreError ℕ × InMemoryStore
  moved_store c s = elim c [
    | ok _ ↦ (ok (length rs), place_all to_vault now rs (drop_vault vault s))
    | err e ↦ (err e, s)
  ]

  abbrev final_table : Table → Table
  final_table t = retain (outside vault) (place_table to_vault now rs t)

  settle-Moved :
      (n : ℕ) (t : Table) (s : InMemoryStore) (c : Bool) (q : Result StoreError ℕ × Table)
      → Represents t s
      → Below n t
      → now < 2 ^ 63
      → (c ≡ false → Represents (final_table t) (place_all to_vault now rs (drop_vault vault s)))
      → Moved to_vault now rs t c q
      → Agree
          (n + 1)
          (settle t (follow q (λ m u. run (exec (delete_vault vault) λ _. done (ok m)) [] u)))
          (moved_store (if c then err conflict else ok tt) s)
  unfolding run delete_vault
  settle-Moved n t s true (ok m, u) v b clock final h = cc
  settle-Moved n t s true (err x, u) v b clock final h =
      (ground (arith, h), v, Below-weaken n (n + 1) t (omega arith) b)
  settle-Moved n t s false (ok m, u) v b clock final (h, at) = (
    h,
    rw at (final refl),
    rw at (
        Below-drop vault (n + 1) (place_table to_vault now rs t)
          (Below-place to_vault now n rs t clock (Below-weaken n (n + 1) t (omega arith) b))),
  )
  settle-Moved n t s false (err x, u) v b clock final (h, at) = cc

  rekey_tx_agrees :
      (n : ℕ) (t : Table) (s : InMemoryStore) (a : Result StoreError (Unit {0})) (e q c : Bool)
      → Represents t s
      → Below n t
      → now < 2 ^ 63
      → (q ≡ false
          → c ≡ false
          → Represents (final_table t) (place_all to_vault now rs (drop_vault vault s)))
      → Moved to_vault now rs t c (run (move_rows to_vault (λ _. now) rs) [] t)
      → Agree
          (n + 1)
          (call
            (checked a (
              checked (if e || q then err invalid_record else ok tt) (
                transaction (
                  move_rows to_vault (λ _. now) rs >>> λ m.
                  exec (delete_vault vault) λ _. done (ok m)))))
            []
            t)
          (moved_store
            (a >>= λ _.
              if e
              then err invalid_record
              else if q
              then err invalid_record
              else if c
              then err conflict
              else ok tt)
            s)
  unfolding call run
  rekey_tx_agrees n t s (err x) e q c v b clock final h =
      Agree-refused x n (n + 1) t s v b (omega arith)
  rekey_tx_agrees n t s (ok u) true q c v b clock final h =
      Agree-refused _ n (n + 1) t s v b (omega arith)
  rekey_tx_agrees n t s (ok u) false true c v b clock final h =
      Agree-refused _ n (n + 1) t s v b (omega arith)
  rekey_tx_agrees n t s (ok u) false false c v b clock final h =
      rw (call-transaction _ t, run->>> (move_rows to_vault (λ _. now) rs) _ t)
        (settle-Moved n t s c _ v b clock (final refl) h)

  final_Represents :
      (t : Table) (s : InMemoryStore)
      → DistinctIds rs
      → Represents t s
      → bytes_eq to_vault vault ≡ false
      → any (taken to_vault t) rs ≡ false
      → Represents (final_table t) (place_all to_vault now rs (drop_vault vault s))
  final_Represents t s d v ne free = rw (retain-place_table vault to_vault now rs t ne) (
      Represents-place_all to_vault now rs _ _ d (rw (taken-retain vault to_vault t rs ne) free)
        (Represents-drop vault t s v))

  rekey_vault-moved_store :
      (t : Table) (s : InMemoryStore)
      → Represents t s
      → Memory.rekey_vault vault to_vault rs now s
        ≡ moved_store
            (Memory.validate_all rs >>= λ _.
              if is_empty to_vault
              then err invalid_record
              else if bytes_eq to_vault vault
              then err invalid_record
              else if any (taken to_vault t) rs
              then err conflict
              else ok tt)
            s
  unfolding Memory.rekey_vault rekey_check
  rekey_vault-moved_store t s v = rw (← any-occupied to_vault t s rs v) refl

  -- From a table that represents a store, a rekey of records with vault ids, different record ids and
  -- bindable lengths has the in-memory adapter's result, whether it succeeds or fails, and ends in a
  -- table that represents the in-memory adapter's store.
  pub rekey_agrees :
      (n : ℕ) (t : Table) (s : InMemoryStore)
      → Named rs
      → DistinctIds rs
      → Bindable rs
      → Represents t s
      → Below n t
      → now < 2 ^ 63
      → Agree
          (n + 1)
          (rekey_vault [] vault to_vault rs (λ _. now) t)
          (Memory.rekey_vault vault to_vault rs now s)
  unfolding rekey_vault
  rekey_agrees n t s named d fits v b clock =
      rw (validate_all_agrees rs named, rekey_vault-moved_store t s v)
        (rekey_tx_agrees n t s _ (is_empty to_vault) (bytes_eq to_vault vault)
          (any (taken to_vault t) rs) v b clock (final_Represents t s d v)
          (move_rows_healthy to_vault now rs t d fits))
