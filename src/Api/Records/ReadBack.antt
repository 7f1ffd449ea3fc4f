-- ===== src/Api/Records/ReadBack.antt =====
-- What the service answers to a read after a write.
use veyora.Prelude.{
  ℕ, ◌≡◌, Bytes, is_empty, Bool, true, false, none, some, Result, ok, err, ◌>>=◌, if◌then◌else◌,
  refl, ap, arith,
}
use veyora.Storage.Port.{StoreError, GenericEncryptedRecordV1}
use veyora.Storage.Assoc.{key_eq}
use veyora.Storage.Memory.{InMemoryStore, put, get, key_of}
use veyora.Storage.Memory.Writes.{get-put}
use veyora.Storage.Interface.{in_memory}
use veyora.Api.Shape.{RecordDto, ApiError, from_record}
use veyora.Api.Records.{
  checked_put, written, guarded, of_store, required_vault, put_record, get_record,
}
use veyora.Api.Records.Conflicts.{checked_put_ok}

module _ (sha256 : Bytes → Bytes) where
  pub guarded_ok {ℓ κ} :
      {A : Type ℓ} {B : Type κ} (m : Result ApiError A)
      (run : A → Result ApiError B × InMemoryStore) (s t : InMemoryStore) (b : B)
      → guarded sha256 in_memory m run s ≡ (ok b, t)
      → (a : A) × (m ≡ ok a) × (run a ≡ (ok b, t))
  unfolding guarded
  guarded_ok (err x) run s t b h =
      absurd (ground (arith, ap (λ (p : Result ApiError _ × InMemoryStore). p.0) h))
  guarded_ok (ok a) run s t b h = (a, refl, h)

  written_ok :
      (vault id : Bytes) (w : Result StoreError ℕ × InMemoryStore) (n : ℕ) (t : InMemoryStore)
      → written sha256 in_memory vault id w ≡ (ok n, t)
      → w ≡ (ok n, t)
  unfolding written
  written_ok vault id (ok m, u) n t h = ground (arith, h)
  written_ok vault id (err e, u) n t h = absurd (ground (arith, h))

  -- The answer to a read of an id in a named vault.
  abbrev pub answer : Bytes → Bytes → InMemoryStore → Result ApiError RecordDto
  answer vault id s =
      get_record sha256 in_memory id
        (some (record { embed = none; vault = some vault; limit = none; offset = none })) s

  answer_lem :
      (vault id : Bytes) (s : InMemoryStore)
      → is_empty vault ≡ false
      → answer vault id s ≡ (of_store (get vault id s) >>= λ r. ok (from_record r))
  unfolding get_record required_vault
  answer_lem vault id s h = rw (h, required_vault) refl

  -- What a read of the store gives is what the service answers.
  shown :
      (b : Bool) (g g' : Result StoreError GenericEncryptedRecordV1) (r : GenericEncryptedRecordV1)
      → g ≡ (if b then ok r else g')
      → ◌≡◌ {A = Result ApiError RecordDto}
          (of_store g >>= λ r. ok (from_record r))
          (if b then ok (from_record r) else (of_store g' >>= λ r. ok (from_record r)))
  shown true g g' r h = rw h refl
  shown false g g' r h = rw h refl

  -- After a put that was accepted with a revision, a read of the same vault and id through the service
  -- answers with the record as it was sent, at that revision; a read of any other id, or in any other
  -- named vault, answers as before.
  pub get_record-put_record :
      (id : Bytes) (dto : RecordDto) (s t : InMemoryStore) (n : ℕ) (vault other : Bytes)
      → is_empty vault ≡ false
      → put_record sha256 in_memory id (some dto) s ≡ (ok n, t)
      → answer vault other t ≡ (
          if key_eq (dto.vault_id, id) (vault, other)
          then ok (record dto { revision = n; expected_prior_revision = none })
          else answer vault other s)
  unfolding put_record
  get_record-put_record id dto s t n vault other named h =
      let (r, accepted, wrote) = guarded_ok (checked_put sha256 in_memory id dto) _ s t n h in
      let (is_dto, route, shape) = checked_put_ok sha256 in_memory id dto r accepted in
      let stored = written_ok dto.vault_id id (put r dto.expected_prior_revision s) n t wrote in
      let read = get-put r dto.expected_prior_revision s t n vault other stored in
      let key : key_of r ≡ (dto.vault_id, id) = rw is_dto (rw route refl) in
      let sent : from_record (record r { revision = n })
          ≡ record dto { revision = n; expected_prior_revision = none } =
        rw is_dto refl in
      rw (answer_lem vault other t named, answer_lem vault other s named, ← sent, ← key)
        (shown (key_eq (key_of r) (vault, other)) (get vault other t) (get vault other s)
          (record r { revision = n }) read)
