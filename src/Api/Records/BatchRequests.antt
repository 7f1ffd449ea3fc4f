-- ===== src/Api/Records/BatchRequests.antt =====
-- What the batch handler does, in terms of the handler of one record.
use veyora.Prelude.{
  ℕ, suc, ◌≡◌, Bytes, bytes_eq, bytes_eq_iff, bytes_eq_refl, is_empty, true, false, not, some, List,
  [], ◌∷◌, map, any, length, Result, ok, err, >>=-eq-ok, refl, ap, ◌∙◌, arith,
}
use veyora.Storage.Port.{StoreError}
use veyora.Storage.Memory.{InMemoryStore, put}
use veyora.Storage.Memory.Batch.{prepend, continue, put_each, Apart, put_batch-put_each}
use veyora.Storage.Interface.{in_memory}
use veyora.Api.Shape.{RecordDto, ApiError, into_record, validate_record_shape}
use veyora.Api.Records.{
  BatchResponse, batch_response, checked_batch, batch_scope, validate_shapes, written, guarded,
  answered_batch, put_record, batch_put_records,
}
use veyora.Api.Records.ReadBack.{guarded_ok}

-- A chain that ends well had a first write and a chain behind it.
continue_ok :
    (w : Result StoreError ℕ × InMemoryStore)
    (rest : InMemoryStore → Result StoreError (List ℕ) × InMemoryStore) (t : InMemoryStore)
    (ns : List ℕ)
    → continue w rest ≡ (ok ns, t)
    → (n : ℕ) × (u : InMemoryStore) × (ms : List ℕ) × (w ≡ (ok n, u))
      × (rest u ≡ (ok ms, t))
      × (ns ≡ n ∷ ms)
continue_ok (err e, u) rest t ns h = absurd (ground (arith, h))
continue_ok (ok n, u) rest t ns h = behind (rest u) refl h
  where
    behind :
        (after : Result StoreError (List ℕ) × InMemoryStore)
        → rest u ≡ after
        → prepend n after ≡ (ok ns, t)
        → (m : ℕ) × (v : InMemoryStore) × (ms : List ℕ) × (◌≡◌
            {A = Result StoreError ℕ × InMemoryStore}
            (ok n, u)
            (ok m, v))
          × (rest v ≡ (ok ms, t))
          × (ns ≡ m ∷ ms)
    behind (ok ms, v) e k = (
      n,
      u,
      ms,
      refl,
      e ∙ ap (λ (x : InMemoryStore). (ok ms, x)) (ground (arith, k)),
      ground (arith, k),
    )
    behind (err x, v) e k = absurd (ground (arith, k))

module _ (sha256 : Bytes → Bytes) where
  -- One request for each record, up to the first that is refused.
  abbrev pub requests : List RecordDto → InMemoryStore → Result ApiError (List ℕ) × InMemoryStore
  requests [] s = (ok [], s)
  requests (d ∷ ds) s = continue (put_record sha256 in_memory d.record_id (some d) s) (requests ds)

  put_record_ok :
      (d : RecordDto) (s u : InMemoryStore) (n : ℕ)
      → validate_record_shape sha256 d ≡ ok tt
      → is_empty d.vault_id ≡ false
      → put (into_record d) d.expected_prior_revision s ≡ (ok n, u)
      → put_record sha256 in_memory d.record_id (some d) s ≡ (ok n, u)
  unfolding put_record written guarded
  put_record_ok d s u n shape named h = rw (bytes_eq_refl d.record_id, shape, named, h) refl

  requests_lem :
      (dtos : List RecordDto) (vault : Bytes) (s t : InMemoryStore) (ns : List ℕ)
      → is_empty vault ≡ false
      → validate_shapes sha256 in_memory dtos ≡ ok tt
      → any (λ d. not (bytes_eq d.vault_id vault)) dtos ≡ false
      → put_each (map into_record dtos) (map (λ d. d.expected_prior_revision) dtos) s ≡ (ok ns, t)
      → (requests dtos s ≡ (ok ns, t)) × (length ns ≡ length dtos)
  unfolding put_each
  requests_lem [] vault s t ns named shapes same h = (ground (arith, h), ground (arith, h))
  requests_lem (d ∷ ds) vault s t ns named shapes same h =
      let (n, u, ms, first, rest, all) =
        continue_ok (put (into_record d) d.expected_prior_revision s) _ t ns h in
      let (checked, shape, shapes') = >>=-eq-ok (validate_record_shape sha256 d) _ shapes in
      let here : bytes_eq d.vault_id vault ≡ true = ground (arith, same) in
      let scope = (bytes_eq_iff d.vault_id vault).0 here in
      let (done, size) = requests_lem ds vault u t ms named shapes' (ground (arith, same)) rest in
      (
        rw (put_record_ok d s u n shape (ap is_empty scope ∙ named) first, done, all) refl,
        rw all (ap suc size),
      )

  answered_ok :
      (dtos : List RecordDto) (w : Result StoreError (List ℕ) × InMemoryStore) (t : InMemoryStore)
      (response : BatchResponse)
      → answered_batch sha256 in_memory dtos w ≡ (ok response, t)
      → (ns : List ℕ) × (w ≡ (ok ns, t)) × (response ≡ batch_response sha256 in_memory dtos ns)
  unfolding answered_batch
  answered_ok dtos (ok ns, u) t response h = (ns, ground (arith, h), ground (arith, h))
  answered_ok dtos (err e, u) t response h = absurd (ground (arith, h))

  scope_named :
      (dtos : List RecordDto) (vault : Bytes)
      → batch_scope sha256 in_memory dtos ≡ ok vault
      → is_empty vault ≡ false
  scope_named [] vault h = absurd (ground (arith, h))
  scope_named (d ∷ ds) vault h = ground (arith, h)

  -- A batch of records with different keys that is accepted leaves the store as one put request for
  -- each record in turn does, all of them accepted with the revisions that the answer reports, one for
  -- each record asked for.
  pub batch_put_records-requests :
      (dtos : List RecordDto) (s t : InMemoryStore) (response : BatchResponse)
      → Apart (map into_record dtos)
      → batch_put_records sha256 in_memory (some dtos) s ≡ (ok response, t)
      → (ns : List ℕ) × (requests dtos s ≡ (ok ns, t))
        × (response ≡ batch_response sha256 in_memory dtos ns)
        × (response.committed ≡ response.requested)
  unfolding batch_put_records
  batch_put_records-requests dtos s t response apart h =
      let (u, accepted, run) =
        guarded_ok sha256 (checked_batch sha256 in_memory dtos) _ s t response h in
      let (ns, stored, answer) = answered_ok dtos _ t response run in
      let (v, shapes, rest) = >>=-eq-ok (validate_shapes sha256 in_memory dtos) _ accepted in
      let (vault, scope, same) = >>=-eq-ok (batch_scope sha256 in_memory dtos) _ rest in
      let each = put_batch-put_each (map into_record dtos) _ s t ns apart stored in
      let (done, size) =
        requests_lem dtos vault s t ns (scope_named dtos vault scope) shapes (ground (arith, same))
          each in
      (ns, done, answer, rw answer size)
