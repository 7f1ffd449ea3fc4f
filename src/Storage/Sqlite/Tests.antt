-- ===== src/Storage/Sqlite/Tests.antt =====
-- The properties of the SQLite adapter at concrete databases.
use veyora.Prelude.{
  ◌≡◌, refl, ◌⊎◌, codes, Bytes, Bool, true, false, none, some, List, [], ◌∷◌, ok, err, arith, ◌+◌,
  ◌<◌, ◌^◌, bytes_eq, length,
}
use veyora.Storage.Assoc.{lookup, insert, key_eq, Distinct}
use veyora.Storage.Port.{GenericEncryptedRecordV1, store_unavailable}
use veyora.Storage.Memory.{empty_store}
use veyora.Storage.Memory.Invariant.{IsValid-empty}
use veyora.Storage.Sql.{
  Table, Faults, call, statements, run, select_revision, insert_record, insert_row,
}
use veyora.Storage.Sqlite.{write_rows, next}
use veyora.Storage.Sqlite.Represents.{Represents, Below, rows_of}
use veyora.Storage.Sqlite.Run.{
  Call, puts, batches, tombstones, rekeys, purges, sqlite_step, sqlite_run, memory_run, growths,
  IsProper, AllProper, Together, run_agrees,
}
use veyora.Storage.Sqlite.Failures.{refusal, step_fault}
use veyora.Storage.Sqlite.Open.{on_rows, open_schema, interrupted}
use veyora.Storage.Sqlite.Open.Restart.{with_table, restamp, open_restamps}
use veyora.Storage.Sqlite.Open.Crash.{open_recovers, open_stuck}

abbrev sealed : Bytes → Bytes → Bool → GenericEncryptedRecordV1
sealed vault id dead = record {
  protocol_version = 1;
  suite_id = 1;
  deployment_id = codes "d";
  vault_id = vault;
  record_id = id;
  revision = 1;
  ciphertext = codes "00ff";
  ciphertext_hash = codes "hash";
  ciphertext_length = 2;
  tombstone = dead;
  template_envelope_hash = codes "t";
  manifest_binding = codes "m";
}

abbrev row_a : GenericEncryptedRecordV1
row_a = sealed (codes "v") (codes "a") false

abbrev row_b : GenericEncryptedRecordV1
row_b = sealed (codes "v") (codes "b") false

-- Two rows in a batch, one of them written again, the other deleted, the vault moved and purged.
abbrev calls : List Call
calls =
    batches (row_a ∷ row_b ∷ []) (none ∷ none ∷ [])
    ∷ puts row_a (some 1)
    ∷ puts row_a (some 1)
    ∷ tombstones (codes "v") (codes "b") 1 100
    ∷ rekeys (codes "v") (codes "w") (row_a ∷ sealed (codes "v") (codes "b") true ∷ []) 200
    ∷ purges (codes "w") 200
    ∷ []

calls-AllProper : AllProper calls
unfolding key_eq bytes_eq
calls-AllProper =
    (((refl, (refl, tt)), ((refl, tt), (tt, tt))), (refl, (refl, (hundred, (moved, (tt, tt))))))
  where
    hundred : 100 < 2 ^ 63
    hundred = omega arith

    moved :
        IsProper
          (rekeys (codes "v") (codes "w") (row_a ∷ sealed (codes "v") (codes "b") true ∷ []) 200)
    moved =
        ((refl, (refl, tt)), ((refl, tt), (tt, tt)), (omega arith, (omega arith, tt)), omega arith)

empty-Represents : Represents [] empty_store
unfolding rows_of lookup
empty-Represents = record { rows = refl; stamps = λ k. refl }

empty-Below : Below 0 []
unfolding lookup
empty-Below k row h = cc

run_agrees_example :
    Together (0 + growths calls) (sqlite_run calls []) (memory_run calls empty_store)
run_agrees_example =
    run_agrees calls 0 [] empty_store calls-AllProper empty-Represents empty-Below IsValid-empty
      (omega arith)

-- The second engine call of a batch fails, the first being BEGIN.
abbrev second_fails : Faults
second_fails = false ∷ true ∷ []

abbrev batch : Call
batch = batches (row_a ∷ row_b ∷ []) (none ∷ none ∷ [])

step_fault_example :
    (sqlite_step second_fails batch [] ≡ (refusal batch, []))
    ⊎ (sqlite_step second_fails batch [] ≡ sqlite_step [] batch [])
step_fault_example = step_fault second_fails batch []

-- The same rows written as bare statements, of which the third fails, leave the first row behind.
torn_batch :
    length
      (call
        (statements (write_rows (row_a ∷ row_b ∷ []) (none ∷ none ∷ [])))
        (false ∷ false ∷ true ∷ [])
        []).1
    ≡ 1
unfolding call run select_revision insert_record insert_row next lookup insert key_eq bytes_eq
torn_batch = refl

-- A tombstone that was deleted at second 100, and a live row.
abbrev stored : Table
stored =
    (
      (codes "v", codes "a"),
      record { columns = sealed (codes "v") (codes "a") true; tombstoned_at = some 100 },
    )
    ∷ ((codes "v", codes "b"), record { columns = row_b; tombstoned_at = none })
    ∷ []

stored-Distinct : Distinct stored
unfolding lookup key_eq bytes_eq
stored-Distinct = (refl, (refl, tt))

open_restamps_example :
    open_schema 900 (with_table stored true)
    ≡ (ok tt, with_table (on_rows (restamp 900) stored) true)
open_restamps_example = open_restamps 900 stored true stored-Distinct

open_recovers_example :
    open_schema 900 (interrupted 4 (with_table stored true))
    ≡ (ok tt, with_table (on_rows (restamp 900) stored) true)
open_recovers_example = open_recovers 4 900 stored true stored-Distinct (λ e. omega (arith, e))

open_stuck_example :
    open_schema 900 (interrupted 3 (with_table stored true))
    ≡ (err store_unavailable, interrupted 3 (with_table stored true))
open_stuck_example = open_stuck 900 _ _ _ true stored-Distinct
