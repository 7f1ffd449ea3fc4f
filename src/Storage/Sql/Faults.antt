-- ===== src/Storage/Sql/Faults.antt =====
-- What a program of engine calls does when calls fail, and how programs in a row run.
use veyora.Prelude.{◌≡◌, refl, ◌⊎◌, inl, inr, [], Result, ok, err, arith, Bool-cases, Result-cases}
use veyora.Storage.Port.{StoreError, store_unavailable}
use veyora.Storage.Sql.{
  Table, Tx, done, exec, ◌>>>◌, Faults, fails, later, run, settle, call, Program, statements,
  transaction, checked, begin_commit,
}

module _ {A : Type 0} where
  -- What follows a result.
  abbrev pub follow :
      {B : Type 0}
      → Result StoreError A × Table
      → (A → Table → Result StoreError B × Table)
      → Result StoreError B × Table
  follow (ok a, t) next = next a t
  follow (err e, t) next = (err e, t)

  -- Without failures a chain of programs runs one after the other.
  pub run->>> :
      {B : Type 0} (m : Tx A) (f : A → Tx B) (t : Table)
      → run (m >>> f) [] t ≡ follow (run m [] t) (λ a u. run (f a) [] u)
  unfolding run
  run->>> (done (ok a)) f t = refl
  run->>> (done (err e)) f t = refl
  run->>> (exec op k) f t = elim (Result-cases (op t)) [
    | inl (p, e) ↦ rw e (run->>> (k p.0) f p.1)
    | inr (x, e) ↦ rw e refl
  ]

  pub run_fault :
      (m : Tx A) (g : Faults) (t : Table)
      → ((run m g t).0 ≡ err store_unavailable) ⊎ (run m g t ≡ run m [] t)
  unfolding run
  run_fault (done a) g t = inr refl
  run_fault (exec op k) g t = elim (Bool-cases (fails g)) [
    | inl e ↦ inl (rw e refl)
    | inr e ↦ elim (Result-cases (op t)) [
      | inl (p, h) ↦ rw (e, h) (run_fault (k p.0) (later g) p.1)
      | inr (x, h) ↦ inr (rw (e, h) refl)
    ]
  ]

  pub settle_err :
      (t : Table) (a : Result StoreError A) (u : Table) (x : StoreError)
      → a ≡ err x
      → settle t (a, u) ≡ (err x, t)
  settle_err t (ok a) u x h = cc
  settle_err t (err e) u x h = ground arith

  settled :
      (t : Table) (p : Result StoreError A × Table) (x : StoreError)
      → (settle t p).0 ≡ err x
      → (settle t p).1 ≡ t
  settled t (ok a, u) x h = cc
  settled t (err e, u) x h = refl

  -- Whichever calls fail, the program has the result and the table of a healthy engine, or it reports
  -- `store_unavailable` and has changed nothing; and if it reports an error, it has changed nothing.
  pub record IsAllOrNothing (p : Program A) : Type 0 where
    pub faulty :
        (g : Faults) (t : Table)
        → (call p g t ≡ (err store_unavailable, t)) ⊎ (call p g t ≡ call p [] t)
    pub refused :
        (g : Faults) (t : Table) (x : StoreError) → (call p g t).0 ≡ err x → (call p g t).1 ≡ t

  pub transaction-IsAllOrNothing : (m : Tx A) → IsAllOrNothing (transaction m)
  unfolding call
  transaction-IsAllOrNothing m = record {
    faulty = λ g t. elim (run_fault (begin_commit m) g t) [
      | inl e ↦ inl (
          settle_err t (run (begin_commit m) g t).0 (run (begin_commit m) g t).1 store_unavailable
            e)
      | inr e ↦ inr (rw e refl)
    ];
    refused = λ g t x h. settled t (run (begin_commit m) g t) x h;
  }

  pub checked-IsAllOrNothing :
      (a : Result StoreError (Unit {0})) (p : Program A)
      → IsAllOrNothing p
      → IsAllOrNothing (checked a p)
  unfolding call run
  checked-IsAllOrNothing (ok u) p h = h
  checked-IsAllOrNothing (err e) p h = record {
    faulty = λ g t. inr refl;
    refused = λ g t x k. refl;
  }

  -- One statement is carried out or not, without a transaction too.
  pub statement_fault :
      (op : Table → Result StoreError (A × Table)) (g : Faults) (t : Table)
      → let one = statements (exec op λ a. done (ok a)) in
        (call one g t ≡ (err store_unavailable, t)) ⊎ (call one g t ≡ call one [] t)
  unfolding call run
  statement_fault op g t = elim (Bool-cases (fails g)) [
    | inl e ↦ inl (rw e refl)
    | inr e ↦ inr (rw e refl)
  ]
