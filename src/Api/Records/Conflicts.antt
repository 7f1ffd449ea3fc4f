-- ===== src/Api/Records/Conflicts.antt =====
-- What a refused write answers, and that it changes nothing.
use veyora.Prelude.{
  ℕ, ◌≡◌, ◌≢◌, inl, inr, refl, sym, ap, ◌∙◌, Bytes, bytes_eq_iff, Option, none, some, Result, ok,
  err, arith, Result-cases, Option-cases,
}
use veyora.Storage.Port.{StoreError, conflict, GenericEncryptedRecordV1}
use veyora.Storage.Interface.{OpaqueStore, IsAtomic}
use veyora.Api.Shape.{
  RecordDto, ApiError, conflict_at_revision, into_record, decode_pairs, validate_record_shape,
}
use veyora.Api.Records.{
  ListQuery, checked_put, written, guarded, put_record, tombstone_record,
  conflict_with_authoritative_revision,
}

module _ (sha256 : Bytes → Bytes) (db : OpaqueStore) where
  written_err :
      (vault id : Bytes) (w : Result StoreError ℕ × db.State) (s : db.State) (e : ApiError)
      → ((x : StoreError) → w.0 ≡ err x → w.1 ≡ s)
      → (written sha256 db vault id w).0 ≡ err e
      → (written sha256 db vault id w).1 ≡ s
  unfolding written
  written_err vault id (ok n, t) s e keeps h = absurd (ground arith)
  written_err vault id (err x, t) s e keeps h = keeps x refl

  guarded_err {ℓ κ} :
      {A : Type ℓ} {B : Type κ} (m : Result ApiError A) (run : A → Result ApiError B × db.State)
      (s : db.State) (e : ApiError)
      → ((a : A) → (run a).0 ≡ err e → (run a).1 ≡ s)
      → (guarded sha256 db m run s).0 ≡ err e
      → (guarded sha256 db m run s).1 ≡ s
  unfolding guarded
  guarded_err (err x) run s e keeps h = refl
  guarded_err (ok a) run s e keeps h = keeps a h

  -- A put that answers with an error leaves the store as it was.
  pub put_record_err :
      IsAtomic db
      → (id : Bytes) (payload : Option RecordDto) (s : db.State) (e : ApiError)
      → (put_record sha256 db id payload s).0 ≡ err e
      → (put_record sha256 db id payload s).1 ≡ s
  unfolding put_record
  put_record_err laws id none s e h = refl
  put_record_err laws id (some dto) s e h =
      guarded_err _ _ s e
        (λ r k.
          written_err dto.vault_id id (db.put r dto.expected_prior_revision s) s e
            (laws.put_refused r _ s) k)
        h

  -- So does a delete.
  pub tombstone_record_err :
      IsAtomic db
      → (id : Bytes) (query : Option ListQuery) (payload : Option ℕ) (now : ℕ) (s : db.State)
        (e : ApiError)
      → (tombstone_record sha256 db id query payload now s).0 ≡ err e
      → (tombstone_record sha256 db id query payload now s).1 ≡ s
  unfolding tombstone_record
  tombstone_record_err laws id query payload now s e h =
      guarded_err _ _ s e
        (λ (b : Bytes × ℕ) k.
          written_err b.0 id (db.tombstone b.0 id b.1 now s) s e
            (laws.tombstone_refused b.0 id b.1 now s) k)
        h

  -- The revision that a conflict names is the store's.
  written_conflict :
      (vault id : Bytes) (w : Result StoreError ℕ × db.State) (n : ℕ)
      → (written sha256 db vault id w).0 ≡ err (conflict_at_revision n)
      → (w.0 ≡ err conflict)
        × (db.current_revision vault id (written sha256 db vault id w).1 ≡ ok n)
  unfolding written conflict_with_authoritative_revision
  written_conflict vault id (ok m, t) n h = absurd (ground arith)
  written_conflict vault id (err conflict, t) n h =
      elim (Result-cases (db.current_revision vault id t)) [
        | inl (m, e) ↦ (refl, ground arith)
        | inr (x, e) ↦ absurd (ground arith)
      ]
  written_conflict vault id (err _, t) n h = absurd (ground arith)

  guarded_conflict {ℓ} :
      {A : Type ℓ} (m : Result ApiError A) (run : A → Result ApiError ℕ × db.State) (s : db.State)
      (n : ℕ)
      → m ≢ err (conflict_at_revision n)
      → (guarded sha256 db m run s).0 ≡ err (conflict_at_revision n)
      → (a : A) × (m ≡ ok a)
        × ((run a).0 ≡ err (conflict_at_revision n))
        × (guarded sha256 db m run s ≡ run a)
  unfolding guarded
  guarded_conflict (err x) run s n other h = absurd (other (ground arith))
  guarded_conflict (ok a) run s n other h = (a, refl, h, refl)

  shape_error :
      (dto : RecordDto) (n : ℕ) → validate_record_shape sha256 dto ≢ err (conflict_at_revision n)
  unfolding validate_record_shape
  shape_error dto n h = elim (Option-cases (decode_pairs dto.ciphertext)) [
    | inl e ↦ ground arith
    | inr (bytes, e) ↦ ground arith
  ]

  checked_put_error :
      (id : Bytes) (dto : RecordDto) (n : ℕ)
      → checked_put sha256 db id dto ≢ err (conflict_at_revision n)
  checked_put_error id dto n h = elim (Result-cases (validate_record_shape sha256 dto)) [
    | inl (u, e) ↦ ground arith
    | inr (x, e) ↦ ground (arith, shape_error dto n)
  ]

  pub checked_put_ok :
      (id : Bytes) (dto : RecordDto) (r : GenericEncryptedRecordV1)
      → checked_put sha256 db id dto ≡ ok r
      → (r ≡ into_record dto) × (dto.record_id ≡ id) × (validate_record_shape sha256 dto ≡ ok tt)
  checked_put_ok id dto r h = elim (Result-cases (validate_record_shape sha256 dto)) [
    | inl (u, e) ↦ (ground arith, (bytes_eq_iff dto.record_id id).0 (ground arith), e)
    | inr (x, e) ↦ absurd (ground arith)
  ]

  -- A put that answers with a revision in conflict was refused by the store's compare-and-set, and names the
  -- revision that the store has, which the put left as it was.
  pub put_record_conflict :
      IsAtomic db
      → (id : Bytes) (dto : RecordDto) (s : db.State) (n : ℕ)
      → (put_record sha256 db id (some dto) s).0 ≡ err (conflict_at_revision n)
      → ((db.put (into_record dto) dto.expected_prior_revision s).0 ≡ err conflict)
        × (db.current_revision dto.vault_id id s ≡ ok n)
  unfolding put_record
  put_record_conflict laws id dto s n h =
      let same = put_record_err laws id (some dto) s (conflict_at_revision n) h in
      let (r, ok_r, refused, state) = guarded_conflict _ _ s n (checked_put_error id dto n) h in
      let (is_dto, route, shape) = checked_put_ok id dto r ok_r in
      let (lost, now) =
        written_conflict dto.vault_id id (db.put r dto.expected_prior_revision s) n refused in
      (
        rw is_dto at lost,
        ap (db.current_revision dto.vault_id id)
              (sym same ∙ ap (λ (t : Result ApiError ℕ × db.State). t.1) state)
            ∙ now,
      )
