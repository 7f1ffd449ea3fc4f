-- ===== src/Lib.antt =====
-- Verification of Veyora: the stores, the security kernel, the HTTP service, the retention worker,
-- the configuration and the desktop application's file replacement.
--
-- Veyora stores sealed records for clients: the kernel encodes, hashes and seals on the client, the
-- service checks requests and writes opaque rows to a store, and the worker purges old tombstones.
--
-- Which file models which part:
--   Prelude and Prelude/      shared names, tests on numbers, lists, byte strings, the reading of numbers
--                             and results
--   Storage/Port              packages/contracts-rust/src/lib.rs and packages/storage/persistence/src/lib.rs:
--                             records, errors, `validate` and the compare-and-set decision
--   Storage/Assoc             the maps of the in-memory store, as association lists with their laws
--   Storage/Memory            `InMemoryStore` of packages/storage/persistence/src/lib.rs, method by method
--   Storage/Memory/*          its proofs: Writes, Invariant, Batch, Rekey, Purge, Deletion, Listing, Pages,
--                             Corners
--   Storage/Interface         the trait `OpaqueStore` as an interface with its law, filled by the in-memory store
--   Storage/Sql               the SQL table and its statements, and programs of engine calls that may fail;
--                             Faults says what failed calls leave behind
--   Storage/Sqlite            `SqliteStore` of packages/storage/sqlite/src/lib.rs, method by method; Represents,
--                             Writes, Batch, Deletion, Purge, Rekey, Reads and Run compare it with the
--                             in-memory store, Failures is about failing engine calls
--   Storage/Sqlite/Open       the schema steps of `SqliteStore::open` and packages/storage/sqlite/migrations;
--                             Restart and Crash are its proofs
--   Storage/Postgres          `PostgresStore` of packages/storage/postgres/src/lib.rs; Outcome and Agreement are
--                             its proofs
--   Storage/Postgres/Pool     `ConnectionPool` there; Capacity and Service are its proofs
--   Storage/Postgres/Config   the pool policy and the TLS policy there
--   Kernel/Error, Limits      error.rs and limits.rs of packages/security-kernel/crates/kernel-core/src
--   Kernel/Evidence           the canonical encoder of manifest.rs; Canonical and Injective are its proofs,
--                             Fields reads the fields of a value back
--   Kernel/Manifest           the Merkle tree of manifest.rs; Tree, Chunks and Root are its proofs
--   Kernel/Crypto             crypto.rs: preimages, key derivation, sealing; Preimage, Commit, Records;
--                             Envelope is its signed and MAC envelopes, Envelope/Signed their proofs
--   Kernel/Session, Auth, AccountState, Unlock
--                             session.rs, auth.rs, account_state.rs and unlock.rs, each with its proofs below it
--   Kernel/Recovery           recovery.rs; Base32, Groups and Kit are its proofs
--   Kernel/Generator          generator.rs; Output and Sampling are its proofs
--   Kernel/Record             lib.rs and ids.rs of the kernel: the record check; Check compares it with the store's
--   Kernel/Secret             lib.rs of the kernel: secret texts and the password key; Texts is its proofs
--   Api/Shape, Records, Access, Limiter
--                             services/api/src/lib.rs: the record check, the record handlers, the token, CORS
--                             and error tables, the rate limiter; Records/ReadBack is on a read after a write,
--                             Records/BatchRequests on a batch and single requests,
--                             Shape/Mismatch compares the check with the kernel's
--   Worker                    services/worker/src/lib.rs: the setting, the cutoff and the sweep; Policy and
--                             Sweep are its proofs
--   Config/Value              packages/config/src/value.rs: setting values and their specifications; Paths is about
--                             the mounted paths
--   Config/Generated          the committed registry of packages/config/src/generated.rs
--   Config/Resolved           resolved.rs there: the layers and the load; Registry, Layers, Load, Secrets and
--                             Committed are its proofs
--   Config/Roles, Bootstrap   role_plan.rs and bootstrap_plan.rs there; Compiled and Assessment are their proofs
--   Desktop/AtomicFile        apps/desktop/src-tauri/src/atomic_file.rs; Crash is its proofs, in the logic of Crash/Logic
--
-- State and operations. A method that changes the store is a function from the store to its result and
-- the store after it; `utc_now_epoch` and the clock of the limiter are arguments. The service and the
-- worker are written over the interface, and take its law as a hypothesis where they need it. Texts are
-- lists of bytes. Numbers are natural numbers; a u64 that a client or the stored data supplies keeps its
-- wrap-around or its overflow check where the code adds to it. Counts that start at 0 are not bounded:
-- the requests of a client in a minute, and the rows that a rekey moves or a sweep purges. The SQL
-- adapters read the clock for each row of a rekey; a call of a sequence of calls that is compared with
-- the in-memory adapter has one reading.
--
-- The SQL engines are parameters. A method of an SQL adapter is a program of engine calls; which of the
-- calls fail, and whether the reply of a PostgreSQL commit is lost, is an argument of the run. What the
-- model relies on is what the engines document: a statement that fails changes nothing, a transaction
-- that is dropped is rolled back, a primary key stands once. What was done outside of a transaction is never
-- rolled back. PostgreSQL refuses a text with a NUL byte, and sorts by a collation that is a parameter. A revision is a signed 64-bit column: the
-- comparisons with the in-memory store ask that revisions stay below 2^63, and that records have vault
-- ids, since only the in-memory store asks for one. The connection pool is a step relation over the
-- critical sections of its callers, so a theorem about a reachable state holds in every interleaving.
--
-- A file system call of the desktop application is a run of directories, one for each state that a crash
-- can find; whether each call passes is a parameter. What was written counts as durable before it is
-- synced.
--
-- The kernel's primitives (SHA-256, HKDF, XChaCha20-Poly1305) come from crates: they are the record
-- `Primitives`, with the decryption law `IsAead` and, for the Merkle tree, the 32-byte length as
-- hypotheses. So are the signatures, the record `Ed25519`, and the CBOR reader of an envelope, the record
-- `Decoder` with its law `IsDecoder`. A binding theorem does not assume that SHA-256 has no collisions:
-- it says that the committed values agree or that a collision is exhibited.
--
-- Fuel. The loop of `reduce` takes the number of hashes as fuel, since each pass on two or more of them
-- leaves fewer; the chunks take the number of leaves, since each chunk takes at least one. The
-- password generator takes the number of draws as fuel, since the source sets no bound on them; a
-- pass of the base-32 encoder takes five of the bits that are its fuel, a pass of `trim` drops a byte
-- of the text whose length is its fuel, and the decimal counter of a temporary name has the 20 digits
-- of a u64. Every other recursion is structural. The generator's outcome `running` and the option
-- around the Merkle root stand for a run that has not ended or has panicked.
--
-- Not modelled: interleaved transactions of PostgreSQL and its migrate, the pragmas and file handling of
-- SQLite, the locks of the in-memory store, the wake-ups and deadlines of the pool, the CBOR codec,
-- the HTTP layers below the handlers, the bindings and the rest of the desktop application. What axum
-- parses from a request is an option: `none` is a rejected part.
pub mod Prelude
pub mod Storage
pub mod Kernel
pub mod Api
pub mod Worker
pub mod Config
pub mod Desktop
