-- ===== src/Storage/Postgres/Agreement.antt =====
-- With a healthy server `PostgresStore` answers as the other two adapters do.
use veyora.Prelude.{
  ℕ, Bytes, ◌+◌, ◌^◌, ◌<◌, ◌≡◌, refl, sym, ap, ◌∙◌, [], List, ◌∷◌, Option, none, some, Result, ok,
  err, lt→ltb, false, All, arith,
}
use veyora.Storage.Port.{StoreError, GenericEncryptedRecordV1}
use veyora.Storage.Memory.{empty_store, retarget, key_of}
use veyora.Storage.Assoc.{Key}
use veyora.Storage.Sql.{
  Table, Tx, Faults, run, call, transaction, checked, ◌>>>◌, done, exec, select_revision,
  insert_record, update_record, stamp_record,
}
use veyora.Storage.Sql
use veyora.Storage.Sqlite
use veyora.Storage.Sqlite.Writes.{call-transaction}
use veyora.Storage.Sqlite.Rekey.Moves.{Bindable}
use veyora.Storage.Sqlite.Run.{
  Call, puts, batches, tombstones, rekeys, purges, Answer, one, many, sqlite_step, answers,
  sqlite_run, memory_run, IsProper, AllProper, growths, sqlite_run-memory_run,
}
use veyora.Storage.Postgres.{
  committed, settle, replied, transact, refuses_texts, texts_of, texts_of_key, bound, validate,
  validate_all, write_next, write_row, write_rows, mark_next, stamp_moved, put, put_batch,
  tombstone, tombstone_program, rekey_vault, purge_tombstoned_before, move_rows, place_row,
}
use veyora.Storage.Postgres.Outcome.{healthy, postgres_step}

settle_committed :
    {A : Type 0} (t : Table) (p : Result StoreError A × Table)
    → settle committed t p ≡ Sql.settle t p
unfolding settle
settle_committed t (ok a, u) = refl
settle_committed t (err x, u) = refl

replied_committed : {A : Type 0} (p : Result StoreError A × Table) → replied committed p ≡ p
unfolding replied
replied_committed (ok a, u) = refl
replied_committed (err x, u) = refl

checked_run :
    {A : Type 0} (a : Result StoreError (Unit {0})) (m : Tx A) (t : Table)
    → transact healthy (checked a (transaction m)) t ≡ call (checked a (transaction m)) [] t
unfolding run call settle replied transact
checked_run (err x) m t = refl
checked_run (ok u) m t = settle_committed t (run m [] t) ∙ sym (call-transaction m t)

validate_alike : (r : GenericEncryptedRecordV1) → validate r ≡ Sqlite.validate r
unfolding validate Sqlite.validate
validate_alike r = refl

validate_all_alike : (rs : List GenericEncryptedRecordV1) → validate_all rs ≡ Sqlite.validate_all rs
validate_all_alike [] = refl
validate_all_alike (r ∷ rs) = rw (validate_alike r, validate_all_alike rs) refl

-- No text of the call has a NUL byte.
abbrev pub IsStorable : GenericEncryptedRecordV1 → Type 0
IsStorable r = refuses_texts (texts_of r) ≡ false

abbrev pub IsPlain : Call → Type 0
IsPlain (puts r x) = IsStorable r
IsPlain (batches rs xs) = All IsStorable rs
IsPlain (tombstones vault id x now) = refuses_texts (vault ∷ id ∷ []) ≡ false
IsPlain (rekeys vault to_vault rs now) =
    (refuses_texts (vault ∷ []) ≡ false) × All (λ r. IsStorable (retarget to_vault r)) rs
IsPlain (purges vault before) = refuses_texts (vault ∷ []) ≡ false

bound_plain :
    {B : Type 0} (texts : List Bytes) (op : Table → Result StoreError (B × Table))
    → refuses_texts texts ≡ false
    → bound texts op ≡ op
bound_plain texts op h = rw h refl

key_plain :
    (r : GenericEncryptedRecordV1) → IsStorable r → refuses_texts (texts_of_key (key_of r)) ≡ false
unfolding refuses_texts
key_plain r h = ground (arith, h)

next_alike :
    (r : GenericEncryptedRecordV1) (prior : Option ℕ) (d : Result StoreError ℕ)
    → IsStorable r
    → write_next r prior d ≡ Sqlite.write_next r prior d
next_alike r none (err e) h = refl
next_alike r (some existing) (err e) h = refl
next_alike r none (ok n) h = rw (bound_plain (texts_of r) (insert_record r n) h) refl
next_alike r (some existing) (ok n) h = rw (bound_plain (texts_of r) (update_record r n) h) refl

row_alike :
    (r : GenericEncryptedRecordV1) (x : Option ℕ)
    → IsStorable r
    → write_row r x ≡ Sqlite.write_row r x
row_alike r x h = λ i.
    exec (bound_plain (texts_of_key (key_of r)) (select_revision (key_of r)) (key_plain r h) i)
      (λ prior. next_alike r prior (Sqlite.next prior x) h i)

rows_alike :
    (rs : List GenericEncryptedRecordV1) (xs : List (Option ℕ))
    → All IsStorable rs
    → write_rows rs xs ≡ Sqlite.write_rows rs xs
rows_alike [] xs h = refl
rows_alike (r ∷ rs) [] h = refl
rows_alike (r ∷ rs) (x ∷ xs) (h, hs) =
    λ i. row_alike r x h i >>> λ n. rows_alike rs xs hs i >>> λ ns. done (ok (n ∷ ns))

inserted_alike :
    (r : GenericEncryptedRecordV1)
    → r.ciphertext_length < 2 ^ 63
    → insert_record r 1 ≡ Sqlite.insert_bound r
inserted_alike r h = λ i t. bindable t i
  where
    bindable : (t : Table) → insert_record r 1 t ≡ Sqlite.insert_bound r t
    bindable t = rw (lt→ltb r.ciphertext_length (2 ^ 63) h) refl

stamped_alike :
    (r : GenericEncryptedRecordV1) (now : ℕ)
    → IsStorable r
    → stamp_moved r now ≡ Sqlite.stamp_moved r now
stamped_alike r now h =
    rw (bound_plain (texts_of_key (key_of r)) (stamp_record (key_of r) now) (key_plain r h)) refl

placed_alike :
    (r : GenericEncryptedRecordV1) (now : ℕ) (o : Option ℕ)
    → IsStorable r
    → r.ciphertext_length < 2 ^ 63
    → place_row r now o ≡ Sqlite.place_row r now o
placed_alike r now (some existing) p h = refl
placed_alike r now none p h = λ i.
    exec ((bound_plain (texts_of r) (insert_record r 1) p ∙ inserted_alike r h) i)
      (λ _. stamped_alike r now p i)

moved_alike :
    (to_vault : Bytes) (now : ℕ) (rs : List GenericEncryptedRecordV1)
    → All (λ r. IsStorable (retarget to_vault r)) rs
    → Bindable rs
    → move_rows to_vault (λ _. now) rs ≡ Sqlite.move_rows to_vault (λ _. now) rs
moved_alike to_vault now [] p h = refl
moved_alike to_vault now (r ∷ rs) (p, ps) (h, hs) = λ i.
    exec
      (bound_plain (texts_of_key (to_vault, r.record_id)) (select_revision (to_vault, r.record_id))
        (key_plain (retarget to_vault r) p) i)
      (λ o. placed_alike (retarget to_vault r) now o p h i)
    >>> λ _. moved_alike to_vault now rs ps hs i >>> λ moved. done (ok (moved + 1))

checked-transaction :
    {A : Type 0} (a b : Result StoreError (Unit {0})) (m : Tx A) (t : Table)
    → transact healthy (checked a (checked b (transaction m))) t
      ≡ call (checked a (checked b (transaction m))) [] t
unfolding run call settle replied transact
checked-transaction (err x) b m t = refl
checked-transaction (ok u) b m t = checked_run b m t

rekey_alike :
    (vault to_vault : Bytes) (rs : List GenericEncryptedRecordV1) (now : ℕ) (t : Table)
    → IsPlain (rekeys vault to_vault rs now)
    → Bindable rs
    → rekey_vault healthy vault to_vault rs (λ _. now) t
      ≡ Sqlite.rekey_vault [] vault to_vault rs (λ _. now) t
unfolding rekey_vault Sqlite.rekey_vault
rekey_alike vault to_vault rs now t (p, ps) fits =
    rw
      (
        validate_all_alike rs,
        moved_alike to_vault now rs ps fits,
        bound_plain (vault ∷ []) (Sql.delete_vault vault) p,
      )
      (checked-transaction (Sqlite.validate_all rs) (Sqlite.scope_check vault to_vault) _ t)

marked_alike :
    (k : Key) (x now : ℕ) (prior : Option ℕ)
    → refuses_texts (texts_of_key k) ≡ false
    → mark_next k x now prior ≡ Sqlite.mark_next k x now prior
marked_alike k x now none h = refl
marked_alike k x now (some prior) h =
    rw (bound_plain (texts_of_key k) (Sql.mark_tombstone k (prior + 1) now) h) refl

tombstone_alike :
    (vault id : Bytes) (x now : ℕ)
    → refuses_texts (vault ∷ id ∷ []) ≡ false
    → tombstone_program vault id x now ≡ Sqlite.tombstone_tx vault id x now
tombstone_alike vault id x now h = λ i. transaction (
    exec (bound_plain (vault ∷ id ∷ []) (select_revision (vault, id)) h i)
      (λ prior. marked_alike (vault, id) x now prior h i))

step_alike :
    (c : Call) (t : Table) → IsProper c → IsPlain c → postgres_step healthy c t ≡ sqlite_step [] c t
unfolding postgres_step sqlite_step put put_batch tombstone rekey_vault purge_tombstoned_before
    Sqlite.put Sqlite.put_batch Sqlite.tombstone Sqlite.rekey_vault Sqlite.purge_tombstoned_before
    call run transact
step_alike (puts r x) t p h = ap one (
    rw (validate_alike r, row_alike r x h)
      (checked_run (Sqlite.validate r) (Sqlite.write_row r x) t))
step_alike (batches rs xs) t p h = ap many (
    rw (validate_all_alike rs, rows_alike rs xs h)
      (checked_run (Sqlite.validate_all rs) (Sqlite.write_rows rs xs) t))
step_alike (tombstones vault id x now) t p h = ap one (
    ap (λ program. transact healthy program t) (tombstone_alike vault id x now h)
    ∙ checked_run (ok tt) (exec (select_revision (vault, id)) (Sqlite.mark_next (vault, id) x now))
        t)
step_alike (rekeys vault to_vault rs now) t (named, ids, fits, clock) h =
    ap one (rekey_alike vault to_vault rs now t h fits)
step_alike (purges vault before) t p h = ap one (
    rw (bound_plain (vault ∷ []) (Sql.delete_expired vault (Sql.cutoff_of before)) h)
      (replied_committed _))

abbrev pub AllPlain : List Call → Type 0
AllPlain cs = All IsPlain cs

unfoldable pub postgres_run : List Call → Table → List Answer × Table
postgres_run [] t = ([], t)
postgres_run (c ∷ cs) t = answers (postgres_step healthy c t) (postgres_run cs)

run_alike :
    (cs : List Call) (t : Table) → AllProper cs → AllPlain cs → postgres_run cs t ≡ sqlite_run cs t
unfolding postgres_run sqlite_run
run_alike [] t p h = refl
run_alike (c ∷ cs) t (p, ps) (h, hs) =
    rw (step_alike c t p h) (λ i. answers (sqlite_step [] c t) (λ u. run_alike cs u ps hs i))

-- From an empty database, a healthy PostgreSQL server answers whatever proper calls a client makes,
-- each with one clock reading, as the in-memory adapter does, if no text in them has a NUL byte, which
-- PostgreSQL refuses, and if the calls together cannot raise a revision to 2^63.
pub postgres_run-memory_run :
    (cs : List Call)
    → AllProper cs
    → AllPlain cs
    → growths cs < 2 ^ 63
    → (postgres_run cs []).0 ≡ (memory_run cs empty_store).0
postgres_run-memory_run cs p plain small =
    rw (run_alike cs [] p plain) (sqlite_run-memory_run cs p small)
