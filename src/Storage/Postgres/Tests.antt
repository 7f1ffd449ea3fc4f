-- ===== src/Storage/Postgres/Tests.antt =====
-- The properties of the PostgreSQL adapter, its pool and its configuration at concrete values.
use veyora.Prelude.{
  ◌≤◌, ◌^◌, ◌<◌, ◌≡◌, refl, ◌⊎◌, codes, true, false, none, some, List, [], ◌∷◌, arith, ltb,
}
use veyora.Storage.Port.{GenericEncryptedRecordV1}
use veyora.Storage.Memory.{empty_store}
use veyora.Storage.Sqlite.Run.{Call, puts, tombstones, purges, memory_run, AllProper}
use veyora.Storage.Sqlite.Failures.{refusal}
use veyora.Storage.Sql.{run}
use veyora.Storage.Postgres.{Server, lost, tombstone, transact, settle}
use veyora.Storage.Postgres.Outcome.{healthy, postgres_step, step_ends}
use veyora.Storage.Postgres.Agreement.{AllPlain, postgres_run, postgres_run-memory_run}
use veyora.Storage.Postgres.Pool.{
  PoolConfig, PoolState, acquire, release, shutdown, shutdown_wait, connected, probed, probe,
  connect, acquires, probes, Reach, here, next, discard_expired,
}
use veyora.Storage.Postgres.Pool.Capacity.{
  IsCounted, connections, connected-IsCounted, Reach-IsCounted, pool_capped, shutdown_waits,
}
use veyora.Storage.Postgres.Pool.Service.{release_serves}

abbrev row_a : GenericEncryptedRecordV1
row_a = record {
  protocol_version = 1;
  suite_id = 1;
  deployment_id = codes "d";
  vault_id = codes "v";
  record_id = codes "a";
  revision = 1;
  ciphertext = codes "00ff";
  ciphertext_hash = codes "hash";
  ciphertext_length = 2;
  tombstone = false;
  template_envelope_hash = codes "t";
  manifest_binding = codes "m";
}

-- A server that carries out the commit and loses its reply.
abbrev forgetful : Server
forgetful = record { faults = []; commit_reply = lost }

step_ends_example :
    (postgres_step forgetful (puts row_a none) [] ≡ (refusal (puts row_a none), []))
    ⊎ ((postgres_step forgetful (puts row_a none) [] ≡ postgres_step healthy (puts row_a none) [])
        ⊎ ((lost ≡ lost)
            × (postgres_step forgetful (puts row_a none) []
                ≡ (refusal (puts row_a none), (postgres_step healthy (puts row_a none) []).1))))
step_ends_example = step_ends forgetful (puts row_a none) []

abbrev calls : List Call
calls = puts row_a none ∷ tombstones (codes "v") (codes "a") 1 100 ∷ purges (codes "v") 100 ∷ []

calls-AllProper : AllProper calls
calls-AllProper = (refl, (hundred, (tt, tt)))
  where
    hundred : 100 < 2 ^ 63
    hundred = omega arith

calls-AllPlain : AllPlain calls
unfolding veyora.Storage.Postgres.refuses_texts
calls-AllPlain = (refl, (refl, (refl, tt)))

-- A record id with a NUL byte: the server refuses the deletion, and the in-memory adapter has no such
-- record.
nul_refused :
    postgres_step healthy (tombstones (codes "v") (0 ∷ []) 1 100) []
    ≡ (refusal (tombstones (codes "v") (0 ∷ []) 1 100), [])
unfolding postgres_step tombstone transact settle run veyora.Storage.Postgres.refuses_texts
nul_refused = refl

postgres_run-memory_run_example : (postgres_run calls []).0 ≡ (memory_run calls empty_store).0
postgres_run-memory_run_example =
    postgres_run-memory_run calls calls-AllProper calls-AllPlain (omega arith)

-- A pool of one connection, and the pool after a caller took it.
abbrev single : PoolConfig
single = record {
  max_size = 1;
  acquire_timeout = 3000;
  statement_timeout = 15000;
  idle_timeout = 300000;
}

abbrev asked : PoolState
asked = (acquire single 10 (connected 0)).1

abbrev taken : PoolState
taken = probed true asked

asked-probing : ltb 0 asked.probing ≡ true
unfolding acquire discard_expired
asked-probing = refl

taken-Reach : Reach single (connected 0) taken
taken-Reach = next (next here (acquires 10 (connected 0))) (probes true asked asked-probing)

taken-IsCounted : IsCounted single taken
taken-IsCounted = Reach-IsCounted single taken-Reach (connected-IsCounted single 0 (omega arith))

pool_capped_example : (connections taken ≤ taken.outstanding) × (taken.outstanding ≤ 1)
pool_capped_example = pool_capped single 0 taken (omega arith) taken-Reach

abbrev closed_pool : PoolState
closed_pool = shutdown (connected 0)

-- A shutdown at time 0 of a pool that nobody uses, which looks twice and waits for its whole timeout.
waited : shutdown_wait 3000 ((0, closed_pool) ∷ (3000, closed_pool) ∷ []) ≡ some 3000
unfolding shutdown_wait shutdown
waited = refl

shutdown_waits_example : 3000 ≤ 3000
shutdown_waits_example =
    shutdown_waits single (connected 0) 3000 3000 ((0, closed_pool) ∷ (3000, closed_pool) ∷ [])
      (connected-IsCounted single 0 (omega arith)) (omega arith) (here, (here, tt)) waited

taken_open : taken.closed ≡ false
unfolding acquire discard_expired
taken_open = refl

taken_held : 1 ≤ taken.held
unfolding acquire discard_expired
taken_held = omega arith

release_serves_example :
    ((acquire single 900000 (release single 20 taken)).0 ≡ probe)
    ⊎ ((acquire single 900000 (release single 20 taken)).0 ≡ connect)
release_serves_example = release_serves single 20 900000 taken taken-IsCounted taken_open taken_held
