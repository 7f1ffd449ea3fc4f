-- ===== src/Storage/Postgres/Outcome.antt =====
-- What a write of `PostgresStore` leaves behind when calls of the server fail, and that with a healthy
-- server the adapter answers as the other two do.
use veyora.Prelude.{Bool-cases, ℕ, ◌≡◌, refl, ap, ◌⊎◌, inl, inr, [], List, Result, ok, err, arith}
use veyora.Storage.Port.{StoreError, store_unavailable}
use veyora.Storage.Sql.{
  control, Table, Tx, run, Program, statements, transaction, checked, done, exec, fails, later,
}
use veyora.Storage.Sql.Faults.{run_fault}
use veyora.Storage.Sqlite.{scope_check}
use veyora.Storage.Sqlite.Run.{
  Call, puts, batches, tombstones, rekeys, purges, Answer, number, numbers, one, many,
}
use veyora.Storage.Sqlite.Failures.{refusal}
use veyora.Storage.Postgres.{
  pooled, validate, validate_all, write_row, write_rows, Server, Commit, committed, refused, lost,
  settle, replied, transact, put, put_batch, tombstone, rekey_vault, purge_tombstoned_before,
}

abbrev pub healthy : Server
healthy = record { faults = []; commit_reply = committed }

unfoldable pub postgres_step : Server → Call → Table → Answer × Table
postgres_step e (puts r x) t = one (put e r x t)
postgres_step e (batches rs xs) t = many (put_batch e rs xs t)
postgres_step e (tombstones vault id x now) t = one (tombstone e vault id x now t)
postgres_step e (rekeys vault to_vault rs now) t =
    one (rekey_vault e vault to_vault rs (λ _. now) t)
postgres_step e (purges vault before) t = one (purge_tombstoned_before e vault before t)

-- Refused without a trace, or as with a healthy server, or refused with the whole effect in place
-- because the reply of the commit was lost.
abbrev Ends : {A : Type 0} → Commit → A × Table → A → Table → A × Table → Type 0
Ends c p refused_answer t q =
    (p ≡ (refused_answer, t)) ⊎ ((p ≡ q) ⊎ ((c ≡ lost) × (p ≡ (refused_answer, q.1))))

settle-Ends :
    {A : Type 0} (c : Commit) (t : Table) (p : Result StoreError A × Table)
    → Ends c (settle c t p) (err store_unavailable) t (settle committed t p)
unfolding settle
settle-Ends c t (err x, u) = inr (inl refl)
settle-Ends committed t (ok a, u) = inr (inl refl)
settle-Ends refused t (ok a, u) = inl refl
settle-Ends lost t (ok a, u) = inr (inr (refl, refl))

settle_unavailable :
    {A : Type 0} (c : Commit) (t : Table) (a : Result StoreError A) (u : Table)
    → a ≡ err store_unavailable
    → settle c t (a, u) ≡ (err store_unavailable, t)
unfolding settle
settle_unavailable c t (ok a) u h = cc
settle_unavailable c t (err x) u h = ground arith

-- A program that ends in one of these ways, whatever the server does.
abbrev Program-Ends : {A : Type 0} → Program A → Type 0
Program-Ends p =
    (e : Server) (t : Table)
    → Ends e.commit_reply (transact e p t) (err store_unavailable) t (transact healthy p t)

transaction-Ends : {A : Type 0} (m : Tx A) → Program-Ends (transaction m)
unfolding transact
transaction-Ends m e t = elim (run_fault (pooled (exec control λ _. m)) e.faults t) [
  | inl h ↦
      inl
        (settle_unavailable e.commit_reply t _ (run (pooled (exec control λ _. m)) e.faults t).1 h)
  | inr h ↦ rw h (settle-Ends e.commit_reply t (run (pooled (exec control λ _. m)) [] t))
]

checked-Ends :
    {A : Type 0} (a : Result StoreError (Unit {0})) (p : Program A)
    → Program-Ends p
    → Program-Ends (checked a p)
unfolding transact run replied
checked-Ends (ok u) p h e t = h e t
checked-Ends (err x) p h e t = inr (inl refl)

replied-Ends :
    {A : Type 0} (c : Commit) (t : Table) (p : Result StoreError A × Table)
    → Ends c (replied c p) (err store_unavailable) t (replied committed p)
unfolding replied
replied-Ends c t (err x, u) = inr (inl refl)
replied-Ends committed t (ok a, u) = inr (inl refl)
replied-Ends refused t (ok a, u) = inr (inl refl)
replied-Ends lost t (ok a, u) = inr (inr (refl, refl))

-- One statement outside a transaction.
statement-Ends :
    {A : Type 0} (op : Table → Result StoreError (A × Table))
    → Program-Ends (statements (pooled (exec op λ a. done (ok a))))
unfolding transact run replied
statement-Ends op e t = elim (Bool-cases (fails e.faults)) [
  | inl h ↦ inl (rw h refl)
  | inr h ↦ elim (Bool-cases (fails (later e.faults))) [
    | inl k ↦ inl (rw (h, k) refl)
    | inr k ↦ rw (h, k) (replied-Ends e.commit_reply t _)
  ]
]

Ends-one :
    (c : Commit) (p q : Result StoreError ℕ × Table) (t : Table)
    → Ends c p (err store_unavailable) t q
    → Ends c (one p) (number (err store_unavailable)) t (one q)
Ends-one c p q t (inl h) = inl (ap one h)
Ends-one c p q t (inr (inl h)) = inr (inl (ap one h))
Ends-one c p q t (inr (inr (l, h))) = inr (inr (l, ap one h))

Ends-many :
    (c : Commit) (p q : Result StoreError (List ℕ) × Table) (t : Table)
    → Ends c p (err store_unavailable) t q
    → Ends c (many p) (numbers (err store_unavailable)) t (many q)
Ends-many c p q t (inl h) = inl (ap many h)
Ends-many c p q t (inr (inl h)) = inr (inl (ap many h))
Ends-many c p q t (inr (inr (l, h))) = inr (inr (l, ap many h))

-- Whichever calls of the server fail during a write, a batch, a deletion, a rekey or a purge, it is
-- all or nothing: the call has the answer and the table of a healthy server, or it answers
-- `store_unavailable` and the table is unchanged, or, only where the reply of a commit was lost, it
-- answers `store_unavailable` and the table is that of a healthy server. The server rolls back what a
-- transaction did, and nothing that was done outside of one.
pub step_ends :
    (e : Server) (c : Call) (t : Table)
    → let done_well = postgres_step healthy c t in
      (postgres_step e c t ≡ (refusal c, t))
      ⊎ ((postgres_step e c t ≡ done_well)
          ⊎ ((e.commit_reply ≡ lost) × (postgres_step e c t ≡ (refusal c, done_well.1))))
unfolding postgres_step put put_batch tombstone rekey_vault purge_tombstoned_before
step_ends e (puts r x) t =
    Ends-one _ _ _ t (checked-Ends (validate r) _ (transaction-Ends (write_row r x)) e t)
step_ends e (batches rs xs) t =
    Ends-many _ _ _ t (checked-Ends (validate_all rs) _ (transaction-Ends (write_rows rs xs)) e t)
step_ends e (tombstones vault id x now) t = Ends-one _ _ _ t (transaction-Ends _ e t)
step_ends e (rekeys vault to_vault rs now) t = Ends-one _ _ _ t (
    checked-Ends (validate_all rs) _
      (checked-Ends (scope_check vault to_vault) _ (transaction-Ends _)) e t)
step_ends e (purges vault before) t = Ends-one _ _ _ t (statement-Ends _ e t)
