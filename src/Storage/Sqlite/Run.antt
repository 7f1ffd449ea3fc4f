-- ===== src/Storage/Sqlite/Run.antt =====
-- Any sequence of the trait's writes, on `SqliteStore` and on the in-memory adapter.
use veyora.Prelude.{
  is_empty, ℕ, ◌+◌, ◌^◌, ◌<◌, ◌≡◌, refl, ap, false, Bytes, Option, List, [], ◌∷◌, Result, ok, arith,
  length,
}
use veyora.Storage.Assoc.{lookup}
use veyora.Storage.Port.{StoreError, GenericEncryptedRecordV1}
use veyora.Storage.Memory.{InMemoryStore, empty_store}
use veyora.Storage.Memory
use veyora.Storage.Memory.Batch.{Apart}
use veyora.Storage.Memory.Rekey.{DistinctIds, rekey-IsValid}
use veyora.Storage.Memory.Invariant.{
  IsValid, IsValid-empty, put-IsValid, tombstone-IsValid, put_batch-IsValid, purge-IsValid,
}
use veyora.Storage.Sql.{Table, Faults}
use veyora.Storage.Sqlite
use veyora.Storage.Sqlite.Represents.{Represents, Below, Below-weaken, Agree, rows_of}
use veyora.Storage.Sqlite.Writes.{put_agrees}
use veyora.Storage.Sqlite.Batch.{Named, put_batch_agrees}
use veyora.Storage.Sqlite.Deletion.{tombstone_agrees}
use veyora.Storage.Sqlite.Purge.{purge_agrees}
use veyora.Storage.Sqlite.Rekey.{rekey_agrees}
use veyora.Storage.Sqlite.Rekey.Moves.{Bindable}

-- A call of a method that writes, with the reading of the clock where it has one.
pub data Call : Type 0 where
  puts : GenericEncryptedRecordV1 → Option ℕ → Call
  batches : List GenericEncryptedRecordV1 → List (Option ℕ) → Call
  tombstones : Bytes → Bytes → ℕ → ℕ → Call
  rekeys : Bytes → Bytes → List GenericEncryptedRecordV1 → ℕ → Call
  purges : Bytes → ℕ → Call

pub data Answer : Type 0 where
  number : Result StoreError ℕ → Answer
  numbers : Result StoreError (List ℕ) → Answer

abbrev pub one : {S : Type 0} → Result StoreError ℕ × S → Answer × S
one (a, s) = (number a, s)

abbrev pub many : {S : Type 0} → Result StoreError (List ℕ) × S → Answer × S
many (a, s) = (numbers a, s)

abbrev counted : ℕ × InMemoryStore → Answer × InMemoryStore
counted (n, s) = (number (ok n), s)

-- A call on the SQLite adapter, with the engine calls that fail during it and a clock that stands still.
unfoldable pub sqlite_step : Faults → Call → Table → Answer × Table
sqlite_step g (puts r e) t = one (Sqlite.put g r e t)
sqlite_step g (batches rs es) t = many (Sqlite.put_batch g rs es t)
sqlite_step g (tombstones vault id e now) t = one (Sqlite.tombstone g vault id e now t)
sqlite_step g (rekeys vault to_vault rs now) t =
    one (Sqlite.rekey_vault g vault to_vault rs (λ _. now) t)
sqlite_step g (purges vault before) t = one (Sqlite.purge_tombstoned_before g vault before t)

unfoldable pub memory_step : Call → InMemoryStore → Answer × InMemoryStore
memory_step (puts r e) s = one (Memory.put r e s)
memory_step (batches rs es) s = many (Memory.put_batch rs es s)
memory_step (tombstones vault id e now) s = one (Memory.tombstone vault id e now s)
memory_step (rekeys vault to_vault rs now) s = one (Memory.rekey_vault vault to_vault rs now s)
memory_step (purges vault before) s = counted (Memory.purge_tombstoned_before vault before s)

abbrev pub answers : {S : Type 0} → Answer × S → (S → List Answer × S) → List Answer × S
answers (a, s) rest = let (later, u) = rest s in (a ∷ later, u)

unfoldable pub sqlite_run : List Call → Table → List Answer × Table
sqlite_run [] t = ([], t)
sqlite_run (c ∷ cs) t = answers (sqlite_step [] c t) (sqlite_run cs)

unfoldable pub memory_run : List Call → InMemoryStore → List Answer × InMemoryStore
memory_run [] s = ([], s)
memory_run (c ∷ cs) s = answers (memory_step c s) (memory_run cs)

-- What the calls of the service satisfy: records have vault ids and different keys, and clock
-- readings and lengths fit a signed 64-bit integer.
abbrev pub IsProper : Call → Type 0
IsProper (puts r e) = is_empty r.vault_id ≡ false
IsProper (batches rs es) = Named rs × Apart rs
IsProper (tombstones vault id e now) = now < 2 ^ 63
IsProper (rekeys vault to_vault rs now) = Named rs × DistinctIds rs × Bindable rs × (now < 2 ^ 63)
IsProper (purges vault before) = Unit

abbrev pub AllProper : List Call → Type 0
AllProper [] = Unit
AllProper (c ∷ cs) = IsProper c × AllProper cs

-- How far a call can raise the highest revision.
abbrev pub growth : Call → ℕ
growth (puts r e) = 1
growth (batches rs es) = length rs
growth (tombstones vault id e now) = 1
growth (rekeys vault to_vault rs now) = 1
growth (purges vault before) = 0

abbrev pub growths : List Call → ℕ
growths [] = 0
growths (c ∷ cs) = growth c + growths cs

-- The two adapters after a call: one answer, and states that belong together.
abbrev pub Together : {A : Type 0} → ℕ → A × Table → A × InMemoryStore → Type 0
Together n (a, t) (b, s) = (a ≡ b) × Represents t s × Below n t × IsValid s

Together-one :
    (n : ℕ) (p : Result StoreError ℕ × Table) (q : Result StoreError ℕ × InMemoryStore)
    → Agree n p q
    → IsValid q.1
    → Together n (one p) (one q)
Together-one n (a, t) (b, s) (h, v, below) valid = (ap number h, v, below, valid)

Together-many :
    (n : ℕ) (p : Result StoreError (List ℕ) × Table)
    (q : Result StoreError (List ℕ) × InMemoryStore)
    → Agree n p q
    → IsValid q.1
    → Together n (many p) (many q)
Together-many n (a, t) (b, s) (h, v, below) valid = (ap numbers h, v, below, valid)

step_agrees :
    (c : Call) (n : ℕ) (t : Table) (s : InMemoryStore)
    → IsProper c
    → Represents t s
    → Below n t
    → IsValid s
    → n + growth c < 2 ^ 63
    → Together (n + growth c) (sqlite_step [] c t) (memory_step c s)
unfolding sqlite_step memory_step
step_agrees (puts r e) n t s named v b valid small =
    Together-one (n + 1) _ _ (put_agrees r e n t s named v b small) (put-IsValid r e s valid)
step_agrees (batches rs es) n t s (named, apart) v b valid small =
    Together-many (n + length rs) _ _ (put_batch_agrees rs es n t s named apart v b small)
      (put_batch-IsValid rs es s valid)
step_agrees (tombstones vault id e now) n t s clock v b valid small =
    Together-one (n + 1) _ _ (tombstone_agrees vault id e now n t s v b small clock)
      (tombstone-IsValid vault id e now s valid)
step_agrees (rekeys vault to_vault rs now) n t s (named, ids, fits, clock) v b valid small =
    Together-one (n + 1) _ _ (rekey_agrees vault to_vault rs now n t s named ids fits v b clock)
      (rekey-IsValid vault to_vault rs now s ids valid)
step_agrees (purges vault before) n t s u v b valid small =
    let p = purge_agrees vault before n t s valid v b in
    (
      ap number p.0,
      p.1,
      Below-weaken n (n + 0) _ (omega arith) p.2,
      purge-IsValid vault before s valid,
    )

Together-prepend :
    (m n : ℕ) (p : Answer × Table) (q : Answer × InMemoryStore) (f : Table → List Answer × Table)
    (g : InMemoryStore → List Answer × InMemoryStore)
    → Together m p q
    → ((t : Table) (s : InMemoryStore)
        → Represents t s
        → Below m t
        → IsValid s
        → Together n (f t) (g s))
    → Together n (answers p f) (answers q g)
Together-prepend m n (a, t) (b, s) f g (h, v, below, valid) rest =
    let (later, w, bound, kept) = rest t s v below valid in ((λ i. h i ∷ later i), w, bound, kept)

-- From a table that represents a valid store, any sequence of proper calls, each with one clock
-- reading, has the answers of the in-memory adapter, as long as revisions stay below 2^63; the table
-- after it represents the in-memory adapter's store, which is valid.
pub run_agrees :
    (cs : List Call) (n : ℕ) (t : Table) (s : InMemoryStore)
    → AllProper cs
    → Represents t s
    → Below n t
    → IsValid s
    → n + growths cs < 2 ^ 63
    → Together (n + growths cs) (sqlite_run cs t) (memory_run cs s)
unfolding sqlite_run memory_run
run_agrees [] n t s p v b valid small = (refl, v, Below-weaken n (n + 0) t (omega arith) b, valid)
run_agrees (c ∷ cs) n t s (p, ps) v b valid small =
    let sum : n + growths (c ∷ cs) ≡ n + growth c + growths cs = omega arith in
    rw sum (
      Together-prepend (n + growth c) (n + growth c + growths cs) _ _ _ _
        (step_agrees c n t s p v b valid (omega (arith, small)))
        (λ u w vu bu valid_w.
          run_agrees cs (n + growth c) u w ps vu bu valid_w (omega (arith, small))))

-- From an empty database, the SQLite adapter answers whatever proper calls a client makes as the
-- in-memory adapter does, if each has one clock reading and if the calls together cannot raise a
-- revision to 2^63.
pub sqlite_run-memory_run :
    (cs : List Call)
    → AllProper cs
    → growths cs < 2 ^ 63
    → (sqlite_run cs []).0 ≡ (memory_run cs empty_store).0
unfolding rows_of lookup
sqlite_run-memory_run cs p small =
    (run_agrees cs 0 [] empty_store p (record { rows = refl; stamps = λ k. refl }) (λ k row h. cc)
      IsValid-empty (omega (arith, small))).0
