-- ===== src/Storage/Sqlite/Batch.antt =====
-- `put_batch` of `SqliteStore`, one write after the other in one transaction, against the in-memory
-- adapter, which plans the batch first.
use veyora.Prelude.{
  is_empty, ℕ, ◌+◌, ◌^◌, ◌≤◌, ◌<◌, ◌≡◌, refl, false, Option, List, [], ◌∷◌, Result, ok, err, arith,
  ◌>>=◌, length, All,
}
use veyora.Storage.Assoc.{lookup}
use veyora.Storage.Port.{StoreError, GenericEncryptedRecordV1}
use veyora.Storage.Memory.{
  InMemoryStore, key_of, write, Plan, plan_batch, revisions, apply_plan, put_batch_planned,
}
use veyora.Storage.Memory
use veyora.Storage.Memory.Batch.{Absent, Apart, plan_batch-write}
use veyora.Storage.Sql.{Table, done, run, call, settle, checked, transaction, ◌>>>◌}
use veyora.Storage.Sql.Faults.{follow, run->>>}
use veyora.Storage.Sqlite.{validate_all, write_row, write_rows, put_batch}
use veyora.Storage.Sqlite.Represents.{
  Represents, Below, Agree, Agree-refused, decided, write_table, write_row_healthy,
  Represents-write, Below-write, Below-weaken, next_revision-le, revision_at-rows,
}
use veyora.Storage.Sqlite.Writes.{call-transaction, validate_agrees}

-- Every record of the list has a vault id.
abbrev pub Named : List GenericEncryptedRecordV1 → Type 0
Named = All (λ r. is_empty r.vault_id ≡ false)

pub validate_all_agrees :
    (rs : List GenericEncryptedRecordV1) → Named rs → validate_all rs ≡ Memory.validate_all rs
unfolding Memory.validate_all
validate_all_agrees [] h = refl
validate_all_agrees (r ∷ rs) (h, hs) = rw (validate_agrees r h, validate_all_agrees rs hs) refl

-- What the transaction leaves, by the plan of the batch.
abbrev Follows :
    ℕ → Result StoreError Plan → InMemoryStore → Result StoreError (List ℕ) × Table → Type 0
Follows n (ok p) s (a, u) = (a ≡ ok (revisions p)) × Represents u (apply_plan p s) × Below n u
Follows n (err x) s (a, u) = a ≡ err x

abbrev then_plan : GenericEncryptedRecordV1 → ℕ → Result StoreError Plan → Result StoreError Plan
then_plan r m rest = rest >>= λ p. ok ((r, m) ∷ p)

Follows-prepend :
    (r : GenericEncryptedRecordV1) (m n : ℕ) (s : InMemoryStore) (rest : Result StoreError Plan)
    (q : Result StoreError (List ℕ) × Table)
    → Follows n rest (write r m s) q
    → Follows n (then_plan r m rest) s (follow q (λ ns u. (ok (m ∷ ns), u)))
unfolding apply_plan
Follows-prepend r m n s (ok p) (ok ns, u) (a, v, b) = (ground arith, v, b)
Follows-prepend r m n s (ok p) (err x, u) (a, v, b) = cc
Follows-prepend r m n s (err x) (ok ns, u) h = cc
Follows-prepend r m n s (err x) (err y, u) h = ground arith

-- The rest of the batch follows its plan from the table after the first write.
abbrev RestFollows : ℕ → List GenericEncryptedRecordV1 → List (Option ℕ) → Type 0
RestFollows n rs es =
    (t : Table) (s : InMemoryStore)
    → Represents t s
    → Below (n + 1) t
    → Follows (n + 1 + length rs) (plan_batch s.rows rs es) s (run (write_rows rs es) [] t)

first_write :
    (r : GenericEncryptedRecordV1) (rs : List GenericEncryptedRecordV1) (es : List (Option ℕ))
    (n : ℕ) (t : Table) (s : InMemoryStore) (d : Result StoreError ℕ)
    → Absent (key_of r) rs
    → Represents t s
    → Below n t
    → ((m : ℕ) → d ≡ ok m → m ≤ n + 1)
    → RestFollows n rs es
    → Follows
        (n + 1 + length rs)
        (d >>= λ m. then_plan r m (plan_batch s.rows rs es))
        s
        (follow (decided r d t) (λ m u. run (write_rows rs es >>> λ ns. done (ok (m ∷ ns))) [] u))
unfolding run
first_write r rs es n t s (err x) a v b le rest = refl
first_write r rs es n t s (ok m) a v b le rest =
    let u = write_table r m t in
    let after =
      rest u (write r m s) (Represents-write r m t s v) (Below-write r m n t b (le m refl)) in
    rw (run->>> (write_rows rs es) (λ ns. done (ok (m ∷ ns))) u) (
      Follows-prepend r m _ s (plan_batch s.rows rs es) (run (write_rows rs es) [] u)
        (rw (plan_batch-write r m s rs es a) at after))

write_rows-Follows :
    (rs : List GenericEncryptedRecordV1) (es : List (Option ℕ)) (n : ℕ) (t : Table)
    (s : InMemoryStore)
    → Apart rs
    → Represents t s
    → Below n t
    → n + length rs < 2 ^ 63
    → Follows (n + length rs) (plan_batch s.rows rs es) s (run (write_rows rs es) [] t)
unfolding run plan_batch apply_plan
write_rows-Follows [] es n t s a v b small = (refl, v, Below-weaken n _ t (omega arith) b)
write_rows-Follows (r ∷ rs) [] n t s a v b small = (refl, v, Below-weaken n _ t (omega arith) b)
write_rows-Follows (r ∷ rs) (e ∷ es) n t s (a, apart) v b small =
    let near : n + 1 < 2 ^ 63 = omega (arith, small) in
    let sum : n + length (r ∷ rs) ≡ n + 1 + length rs = omega arith in
    rw
      (
        sum,
        run->>> (write_row r e) _ t,
        write_row_healthy r e n t b near,
        revision_at-rows (key_of r) t s v,
      )
      (first_write r rs es n t s _ a v b
        (λ m h. next_revision-le (lookup (key_of r) t) e m n (b (key_of r)) near h)
        (λ u w vu bu. write_rows-Follows rs es (n + 1) u w apart vu bu (omega (arith, small))))

planned_agrees :
    (p : Result StoreError Plan) (n m : ℕ) (t : Table) (s : InMemoryStore)
    (q : Result StoreError (List ℕ) × Table)
    → Represents t s
    → Below n t
    → n ≤ m
    → Follows m p s q
    → Agree m (settle t q) (put_batch_planned p s)
unfolding put_batch_planned
planned_agrees (ok p) n m t s (ok ns, u) v b le (a, w, c) = (a, w, c)
planned_agrees (ok p) n m t s (err x, u) v b le (a, w, c) = cc
planned_agrees (err x) n m t s (ok ns, u) v b le h = cc
planned_agrees (err x) n m t s (err y, u) v b le h = (h, v, Below-weaken n m t le b)

put_batch_tx_agrees :
    (rs : List GenericEncryptedRecordV1) (es : List (Option ℕ)) (n : ℕ) (t : Table)
    (s : InMemoryStore) (a : Result StoreError (Unit {0}))
    → Apart rs
    → Represents t s
    → Below n t
    → n + length rs < 2 ^ 63
    → Agree
        (n + length rs)
        (call (checked a (transaction (write_rows rs es))) [] t)
        (put_batch_planned (a >>= λ _. plan_batch s.rows rs es) s)
unfolding call run put_batch_planned
put_batch_tx_agrees rs es n t s (err x) apart v b small =
    Agree-refused x n (n + length rs) t s v b (omega arith)
put_batch_tx_agrees rs es n t s (ok u) apart v b small =
    rw (call-transaction (write_rows rs es) t) (
      planned_agrees (plan_batch s.rows rs es) n (n + length rs) t s _ v b (omega arith)
        (write_rows-Follows rs es n t s apart v b small))

-- From a table that represents a store, a batch of records with vault ids and different keys has
-- the in-memory adapter's result, whether it succeeds or fails, and ends in a table that represents
-- the in-memory adapter's store.
pub put_batch_agrees :
    (rs : List GenericEncryptedRecordV1) (es : List (Option ℕ)) (n : ℕ) (t : Table)
    (s : InMemoryStore)
    → Named rs
    → Apart rs
    → Represents t s
    → Below n t
    → n + length rs < 2 ^ 63
    → Agree (n + length rs) (put_batch [] rs es t) (Memory.put_batch rs es s)
unfolding put_batch Memory.put_batch
put_batch_agrees rs es n t s named apart v b small =
    rw (validate_all_agrees rs named)
      (put_batch_tx_agrees rs es n t s (Memory.validate_all rs) apart v b small)
