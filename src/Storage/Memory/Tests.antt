-- ===== src/Storage/Memory/Tests.antt =====
-- The properties of the in-memory store at concrete stores.
use mathlib.Core.Path.{subst}
use veyora.Prelude.{
  ℕ, ◌≡◌, ◌↔◌, ◌≤◌, refl, ap, ◌⊎◌, Bytes, codes, Bool, true, false, none, some, List, [], ◌∷◌,
  Result, ok, err, if◌then◌else◌, bytes_eq,
}
use veyora.Storage.Assoc.{key_eq, lookup, insert, remove}
use veyora.Storage.Port.{
  StoreError, conflict, not_found, GenericEncryptedRecordV1, validate, next_revision, succ_u64,
}
use veyora.Storage.Memory.{
  InMemoryStore, empty_store, write, put_checked, put, get, stamp_row, tombstone_row, tombstone,
  stamp_of, vault_rows, put_batch, put_batch_planned, validate_all, plan_batch, apply_plan,
  retarget, occupied, place_all, drop_vault, rekey_check, rekey_vault, purge_tombstoned_before,
}
use veyora.Storage.Memory.Writes.{put_race}
use veyora.Storage.Memory.Invariant.{IsValid, IsValid-empty, put-IsValid, tombstone-IsValid}
use veyora.Storage.Memory.Rekey.{last_with_id, get-rekey_vault}
use veyora.Storage.Memory.Batch.{put_each, put_batch-put_each}
use veyora.Storage.Memory.Purge.{get-purge}
use veyora.Storage.Memory.Deletion.{get-tombstone}
use veyora.Storage.Memory.Listing.{Member}
use veyora.Storage.Memory.{list_bodies, list, summary, sort_by_id, insert_by_id, paged}
use veyora.Prelude.{arith, map, bytes_lt, ◌*◌}
use veyora.Storage.Memory.Pages.{IsRising, pages, pages_complete}
use veyora.Storage.Memory.Corners.{purges, put_tombstone_unpurgeable, put_batch_duplicate}

-- A sealed row of vault `v` with one of the ids `a` and `b`.
abbrev row : Bytes → Bool → GenericEncryptedRecordV1
row id dead = record {
  protocol_version = 1;
  suite_id = 1;
  deployment_id = codes "d";
  vault_id = codes "v";
  record_id = id;
  revision = 1;
  ciphertext = codes "00ff";
  ciphertext_hash = codes "hash";
  ciphertext_length = 2;
  tombstone = dead;
  template_envelope_hash = codes "t";
  manifest_binding = codes "m";
}

abbrev row_a : GenericEncryptedRecordV1
row_a = row (codes "a") false

abbrev row_b : GenericEncryptedRecordV1
row_b = row (codes "b") false

abbrev dead_a : GenericEncryptedRecordV1
dead_a = row (codes "a") true

-- The stores after one write, two writes and the deletion of `a` at second 100.
abbrev one_row : InMemoryStore
one_row = write row_a 1 empty_store

abbrev two_rows : InMemoryStore
two_rows = write row_b 1 one_row

abbrev deleted_a : InMemoryStore
deleted_a = (tombstone (codes "v") (codes "a") 1 100 two_rows).1

first_put : put row_a none empty_store ≡ (ok 1, one_row)
unfolding put put_checked write validate next_revision lookup insert remove key_eq bytes_eq
first_put = refl

put_race_example : put dead_a none one_row ≡ (err conflict, one_row)
unfolding validate
put_race_example = put_race row_a dead_a none empty_store one_row 1 first_put refl refl

one_row-IsValid : IsValid one_row
one_row-IsValid =
    subst IsValid (ap (λ (x : Result StoreError ℕ × InMemoryStore). x.1) first_put)
      (put-IsValid row_a none empty_store IsValid-empty)

second_put : put row_b none one_row ≡ (ok 1, two_rows)
unfolding put put_checked write validate next_revision lookup insert remove key_eq bytes_eq
second_put = refl

two_rows-IsValid : IsValid two_rows
two_rows-IsValid =
    subst IsValid (ap (λ (x : Result StoreError ℕ × InMemoryStore). x.1) second_put)
      (put-IsValid row_b none one_row one_row-IsValid)

-- The two rows, sealed for the scope `w`.
abbrev moved : List GenericEncryptedRecordV1
moved =
    record row_a { vault_id = codes "w" }
    ∷ record dead_a { vault_id = codes "w"; record_id = codes "b" }
    ∷ []

abbrev rekeyed : InMemoryStore
rekeyed = place_all (codes "w") 200 moved (drop_vault (codes "v") two_rows)

rekey_run : rekey_vault (codes "v") (codes "w") moved 200 two_rows ≡ (ok 2, rekeyed)
unfolding rekey_vault rekey_check validate_all validate occupied write lookup insert remove key_eq
    bytes_eq
rekey_run = refl

get-rekey_vault_example : get (codes "w") (codes "a") rekeyed ≡ (
    if bytes_eq (codes "w") (codes "v")
    then err not_found
    else if bytes_eq (codes "w") (codes "w")
    then (elim (last_with_id (codes "a") moved) [
      | none ↦ get (codes "w") (codes "a") two_rows
      | some r ↦ ok (retarget (codes "w") r)
    ])
    else get (codes "w") (codes "a") two_rows)
get-rekey_vault_example =
    get-rekey_vault (codes "v") (codes "w") moved 200 2 two_rows rekeyed rekey_run (codes "w")
      (codes "a")

batch_run :
    put_batch (row_a ∷ row_b ∷ []) (none ∷ none ∷ []) empty_store ≡ (ok (1 ∷ 1 ∷ []), two_rows)
unfolding put_batch put_batch_planned validate_all plan_batch apply_plan validate next_revision
    lookup key_eq bytes_eq
batch_run = refl

put_batch-put_each_example :
    put_each (row_a ∷ row_b ∷ []) (none ∷ none ∷ []) empty_store ≡ (ok (1 ∷ 1 ∷ []), two_rows)
unfolding key_eq bytes_eq
put_batch-put_each_example =
    put_batch-put_each (row_a ∷ row_b ∷ []) (none ∷ none ∷ []) empty_store two_rows (1 ∷ 1 ∷ [])
      ((refl, tt), (tt, tt)) batch_run

delete_run : tombstone (codes "v") (codes "a") 1 100 two_rows ≡ (ok 2, deleted_a)
unfolding tombstone tombstone_row write lookup insert remove key_eq bytes_eq
delete_run = refl

get-tombstone_example :
    (r : GenericEncryptedRecordV1) × (get (codes "v") (codes "a") two_rows ≡ ok r)
    × (r.revision ≡ 1)
    × (2 ≡ succ_u64 1)
    × (get (codes "v") (codes "a") deleted_a ≡ ok (record r { tombstone = true; revision = 2 }))
    × (stamp_of (codes "v") (codes "a") deleted_a ≡ ok (some 100))
    × ((w j : Bytes)
        → key_eq (codes "v", codes "a") (w, j) ≡ false
        → get w j deleted_a ≡ get w j two_rows)
get-tombstone_example = get-tombstone (codes "v") (codes "a") 1 100 2 two_rows deleted_a delete_run

read_deleted : get (codes "v") (codes "a") deleted_a ≡ ok (record dead_a { revision = 2 })
unfolding get tombstone tombstone_row stamp_row write lookup insert remove key_eq bytes_eq
read_deleted = refl

deleted_a-IsValid : IsValid deleted_a
deleted_a-IsValid = tombstone-IsValid (codes "v") (codes "a") 1 100 two_rows two_rows-IsValid

get-purge_example :
    ((get (codes "v") (codes "a") (purge_tombstoned_before (codes "v") 100 deleted_a).1
        ≡ err not_found)
      ↔ ((codes "v" ≡ codes "v")
          × (true ≡ true)
          × (n : ℕ) × (lookup (codes "v", codes "a") deleted_a.tombstoned_at ≡ some n)
          × (n ≤ 100)))
    × ((get (codes "v") (codes "a") (purge_tombstoned_before (codes "v") 100 deleted_a).1
          ≡ err not_found)
        ⊎ (get (codes "v") (codes "a") (purge_tombstoned_before (codes "v") 100 deleted_a).1
            ≡ ok (record dead_a { revision = 2 })))
get-purge_example =
    get-purge (codes "v") 100 deleted_a (codes "v") (codes "a") (record dead_a { revision = 2 })
      deleted_a-IsValid.distinct read_deleted

two_pages_end : list_bodies (codes "v") 1 (2 * 1) two_rows ≡ []
unfolding list_bodies vault_rows sort_by_id insert_by_id paged bytes_eq bytes_lt write insert key_eq
two_pages_end = refl

pages_complete_example :
    IsRising (pages (codes "v") 1 2 0 two_rows)
    × ((r : GenericEncryptedRecordV1)
        → Member r (pages (codes "v") 1 2 0 two_rows)
          ↔ ((r.vault_id ≡ codes "v") × (get r.vault_id r.record_id two_rows ≡ ok r)))
    × ((offset : ℕ)
        → list (codes "v") 1 offset two_rows
          ≡ map summary (list_bodies (codes "v") 1 offset two_rows))
pages_complete_example =
    pages_complete (codes "v") 1 2 two_rows two_rows-IsValid.distinct two_rows-IsValid.keyed
      (omega arith) two_pages_end

first_dead : put dead_a none empty_store ≡ (ok 1, write dead_a 1 empty_store)
unfolding put put_checked validate next_revision lookup key_eq bytes_eq
first_dead = refl

put_tombstone_unpurgeable_example :
    get
      (codes "v")
      (codes "a")
      (purges ((codes "v", 1_000) ∷ (codes "v", 2_000) ∷ []) (write dead_a 1 empty_store))
    ≡ ok (record dead_a { revision = 1 })
put_tombstone_unpurgeable_example =
    put_tombstone_unpurgeable dead_a empty_store (write dead_a 1 empty_store) 1
      ((codes "v", 1_000) ∷ (codes "v", 2_000) ∷ []) IsValid-empty first_dead refl

put_batch_duplicate_example :
    ((put_batch (row_a ∷ dead_a ∷ []) (none ∷ none ∷ []) empty_store).0 ≡ ok (1 ∷ 1 ∷ []))
    × ((put_each (row_a ∷ dead_a ∷ []) (none ∷ none ∷ []) empty_store).0 ≡ err conflict)
unfolding validate lookup
put_batch_duplicate_example = put_batch_duplicate row_a dead_a empty_store refl refl refl refl
