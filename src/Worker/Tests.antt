-- ===== src/Worker/Tests.antt =====
-- The sweep at a store with one deleted record, and readings of the setting.
use veyora.Prelude.{
  ℕ, ◌+◌, ◌*◌, ◌^◌, ◌≡◌, ◌≤◌, ◌<◌, ◌⊎◌, refl, Bytes, codes, Bool, true, false, none, some, [], ◌∷◌,
  Result, ok, arith,
}
use veyora.Storage.Port.{not_found, GenericEncryptedRecordV1}
use veyora.Storage.Assoc.{lookup, insert, remove, key_eq}
use veyora.Storage.Memory.{InMemoryStore, empty_store, put, get, write, tombstone}
use veyora.Storage.Memory.Invariant.{IsValid-empty, put-IsValid, tombstone-IsValid}
use veyora.Storage.Interface.{in_memory}
use veyora.Prelude.{err, trim, parse_u64}
use veyora.Worker.{days, disabled, from_env, cutoff, run_retention}
use veyora.Worker.Sweep.{IsDue, run_retention_exact}

abbrev live : GenericEncryptedRecordV1
live = record {
  protocol_version = 1;
  suite_id = 1;
  deployment_id = codes "d";
  vault_id = codes "v";
  record_id = codes "a";
  revision = 1;
  ciphertext = codes "00ff";
  ciphertext_hash = codes "hash";
  ciphertext_length = 2;
  tombstone = false;
  template_envelope_hash = codes "t";
  manifest_binding = codes "m";
}

abbrev store : InMemoryStore
store = (put live none empty_store).1

abbrev deleted : InMemoryStore
deleted = (tombstone (codes "v") (codes "a") 1 100 store).1

abbrev dead : GenericEncryptedRecordV1
dead = record live { tombstone = true; revision = 2 }

read_dead : get (codes "v") (codes "a") deleted ≡ ok dead
unfolding get put tombstone veyora.Storage.Memory.put_checked veyora.Storage.Port.validate
    veyora.Storage.Memory.tombstone_row veyora.Storage.Memory.stamp_row
    veyora.Storage.Port.next_revision write lookup insert remove key_eq veyora.Prelude.bytes_eq
read_dead = refl

run_retention_exact_example :
    let after =
      get
        (codes "v")
        (codes "a")
        (run_retention in_memory (codes "v" ∷ []) (days 30) 1_800_000_000 deleted).1 in
    let Removed =
      (before : ℕ) × (cutoff (days 30) 1_800_000_000 ≡ some before)
      × IsDue (codes "v" ∷ []) before deleted (codes "v") (codes "a") dead in
    ((after ≡ err not_found) × Removed) ⊎ ((after ≡ ok dead) × ¬ Removed)
run_retention_exact_example =
    run_retention_exact (codes "v" ∷ []) (days 30) 1_800_000_000 deleted (codes "v") (codes "a")
      dead
      (tombstone-IsValid (codes "v") (codes "a") 1 100 store
        (put-IsValid live none empty_store IsValid-empty)).distinct
      read_dead

padded_days : from_env (some (codes " +7\t")) ≡ ok (days 7)
unfolding from_env trim parse_u64
padded_days = refl

zero_days : from_env (some (codes "00")) ≡ ok disabled
unfolding from_env trim parse_u64
zero_days = refl

-- A no-break space alone is blank, and 2 ^ 64 does not fit.
blank_days : from_env (some (0xc2 ∷ 0xa0 ∷ [])) ≡ ok (days 30)
unfolding from_env trim
blank_days = refl

too_many_days : from_env (some (codes "18446744073709551616")) ≡ err (codes "18446744073709551616")
unfolding from_env trim parse_u64
too_many_days = refl
