-- ===== src/Storage/Memory/Batch.antt =====
-- `put_batch` of `InMemoryStore`, against the sequential reference implementation of the trait.
use veyora.Prelude.{
  ℕ, ◌≡◌, refl, ap, sym, Option, List, [], ◌∷◌, Result, ok, err, >>=-eq-ok, arith, false,
}
use veyora.Storage.Assoc.{Key, lookup, key_eq}
use veyora.Storage.Port.{StoreError, GenericEncryptedRecordV1, validate, revision_of, next_revision}
use veyora.Storage.Memory.{
  InMemoryStore, key_of, write, put, validate_all, plan_batch, Plan, apply_plan, revisions,
  put_batch_planned, put_batch,
}
use veyora.Storage.Memory.Writes.{lookup-write, put_ok}

-- The default `put_batch` of the trait: one `put` after the other, up to the first failure.
abbrev pub prepend :
    {E : Type 0} → ℕ → Result E (List ℕ) × InMemoryStore → Result E (List ℕ) × InMemoryStore
prepend n (ok ns, t) = (ok (n ∷ ns), t)
prepend n (err e, t) = (err e, t)

abbrev pub continue :
    {E : Type 0}
    → Result E ℕ × InMemoryStore
    → (InMemoryStore → Result E (List ℕ) × InMemoryStore)
    → Result E (List ℕ) × InMemoryStore
continue (ok n, t) rest = prepend n (rest t)
continue (err e, t) rest = (err e, t)

unfoldable pub put_each :
    List GenericEncryptedRecordV1
    → List (Option ℕ)
    → InMemoryStore
    → Result StoreError (List ℕ) × InMemoryStore
put_each [] es s = (ok [], s)
put_each (r ∷ rs) [] s = (ok [], s)
put_each (r ∷ rs) (e ∷ es) s = continue (put r e s) (put_each rs es)

put_batch_planned_err :
    (p : Result StoreError Plan) (s : InMemoryStore) (x : StoreError)
    → (put_batch_planned p s).0 ≡ err x
    → (put_batch_planned p s).1 ≡ s
unfolding put_batch_planned
put_batch_planned_err (ok p) s x h = cc
put_batch_planned_err (err e) s x h = refl

-- A failed batch leaves the store as it was: no row of it is written.
pub put_batch_err :
    (rs : List GenericEncryptedRecordV1) (es : List (Option ℕ)) (s : InMemoryStore) (x : StoreError)
    → (put_batch rs es s).0 ≡ err x
    → (put_batch rs es s).1 ≡ s
unfolding put_batch
put_batch_err rs es s x h = put_batch_planned_err _ s x h

-- No two rows of the batch have one key.
abbrev pub Absent : Key → List GenericEncryptedRecordV1 → Type 0
Absent k [] = Unit
Absent k (r ∷ rs) = (key_eq k (key_of r) ≡ false) × Absent k rs

abbrev pub Apart : List GenericEncryptedRecordV1 → Type 0
Apart [] = Unit
Apart (r ∷ rs) = Absent (key_of r) rs × Apart rs

-- A write does not change the plan of rows with other keys.
pub plan_batch-write :
    (r : GenericEncryptedRecordV1) (n : ℕ) (s : InMemoryStore) (rs : List GenericEncryptedRecordV1)
    (es : List (Option ℕ))
    → Absent (key_of r) rs
    → plan_batch (write r n s).rows rs es ≡ plan_batch s.rows rs es
unfolding plan_batch
plan_batch-write r n s [] es a = refl
plan_batch-write r n s (q ∷ rs) [] a = refl
plan_batch-write r n s (q ∷ rs) (e ∷ es) (a, as_rest) =
    rw (plan_batch-write r n s rs es as_rest) (rw (lookup-write r n s (key_of q), a))

put_each-planned :
    (rs : List GenericEncryptedRecordV1) (es : List (Option ℕ)) (s : InMemoryStore) (p : Plan)
    → Apart rs
    → validate_all rs ≡ ok tt
    → plan_batch s.rows rs es ≡ ok p
    → put_each rs es s ≡ (ok (revisions p), apply_plan p s)
unfolding put_each plan_batch validate_all apply_plan
put_each-planned [] es s p a v h = ground arith
put_each-planned (r ∷ rs) [] s p a v h = ground arith
put_each-planned (r ∷ rs) (e ∷ es) s p (a, as_rest) v h =
    let vr = >>=-eq-ok (validate r) (λ _. validate_all rs) v in
    let (n, hn, h') = >>=-eq-ok (next_revision (revision_of (lookup (key_of r) s.rows)) e) _ h in
    let (q, hq, e') = >>=-eq-ok (plan_batch s.rows rs es) _ h' in
    let rest =
      put_each-planned rs es (write r n s) q as_rest vr.2
        (rw (plan_batch-write r n s rs es a) hq) in
    rw (put_ok r e s n vr.1 hn) (rw rest (ground arith))

put_batch_planned_ok :
    (a : Result StoreError Plan) (s t : InMemoryStore) (ns : List ℕ)
    → put_batch_planned a s ≡ (ok ns, t)
    → (p : Plan) × (a ≡ ok p) × (ns ≡ revisions p) × (t ≡ apply_plan p s)
unfolding put_batch_planned
put_batch_planned_ok (ok p) s t ns h = (p, refl, ground arith, ground arith)
put_batch_planned_ok (err x) s t ns h =
    cc (ap (λ (p : Result StoreError (List ℕ) × InMemoryStore). p.0) h)

-- On rows with different keys a successful batch has the result and the store that the trait's
-- reference implementation, one `put` after the other, has.
pub put_batch-put_each :
    (rs : List GenericEncryptedRecordV1) (es : List (Option ℕ)) (s t : InMemoryStore) (ns : List ℕ)
    → Apart rs
    → put_batch rs es s ≡ (ok ns, t)
    → put_each rs es s ≡ (ok ns, t)
unfolding put_batch
put_batch-put_each rs es s t ns a h =
    let (p, hp, hn, ht) = put_batch_planned_ok _ s t ns h in
    let v = >>=-eq-ok (validate_all rs) _ hp in
    rw (put_each-planned rs es s p a v.1 v.2) (λ i. (ok (sym hn i), sym ht i))
