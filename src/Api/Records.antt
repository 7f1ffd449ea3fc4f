-- ===== src/Api/Records.antt =====
-- The record handlers of services/api/src/lib.rs over any store. A request part that axum refuses to parse
-- is `none`; a handler returns its response and the state of the store after it.
pub mod Conflicts
pub mod ReadBack
pub mod BatchRequests
use veyora.Prelude.{
  trim, is_empty, ℕ, ◌+◌, Bytes, codes, bytes_eq, Bool, true, false, not, ◌||◌, ◌&&◌, Option, none,
  some, List, [], ◌∷◌, map, Result, ok, err, ◌>>=◌, ltb, leb, ◌==◌, if◌then◌else◌, length, any,
}
use veyora.Storage.Port.{StoreError, conflict, GenericEncryptedRecordV1, RecordSummary}
use veyora.Storage.Interface.{OpaqueStore}
use veyora.Api.Shape.{
  RecordDto, ApiError, store, conflict_at_revision, route_mismatch, bad_body, bad_query,
  from_record, into_record, validate_record_shape,
}

pub record ListQuery : Type 0 where
  pub embed : Option Bytes
  pub vault : Option Bytes
  pub limit : Option ℕ
  pub offset : Option ℕ

abbrev pub default_list_limit : ℕ
default_list_limit = 500

abbrev pub max_list_limit : ℕ
max_list_limit = 5_000

abbrev pub max_embed_bodies : ℕ
max_embed_bodies = 500

pub record BatchResponse : Type 0 where
  pub requested : ℕ
  pub committed : ℕ
  pub results : List (Bytes × ℕ)

-- A listing: bodies, or summaries with the `x-truncated` marker.
pub data Listed : Type 0 where
  bodies : List RecordDto → Listed
  summaries : Bool → List RecordSummary → Listed

abbrev pub of_store {ℓ} : {A : Type ℓ} → Result StoreError A → Result ApiError A
of_store (ok a) = ok a
of_store (err e) = err (store e)

abbrev pub unwrap_or {ℓ} : {A : Type ℓ} → Option A → A → A
unwrap_or none d = d
unwrap_or (some a) d = a

abbrev pub parsed {ℓ} : {A : Type ℓ} → Option A → ApiError → Result ApiError A
parsed none e = err e
parsed (some a) e = ok a

unfoldable pub required_vault : Option Bytes → Result ApiError Bytes
required_vault none = err bad_query
required_vault (some value) = if is_empty value then err bad_query else ok value

abbrev pub zip_ids : List Bytes → List ℕ → List (Bytes × ℕ)
zip_ids (x ∷ xs) (y ∷ ys) = (x, y) ∷ zip_ids xs ys
zip_ids xs ys = []

abbrev is_nil : List RecordDto → Bool
is_nil [] = true
is_nil (d ∷ ds) = false

module _ (sha256 : Bytes → Bytes) (db : OpaqueStore) where
  -- The error of a refused write, with the revision that the store has now.
  unfoldable pub conflict_with_authoritative_revision :
      db.State → Bytes → Bytes → ApiError → ApiError
  conflict_with_authoritative_revision s vault id (store conflict) =
      elim (db.current_revision vault id s) [
        | ok current ↦ conflict_at_revision current
        | err e ↦ store conflict
      ]
  conflict_with_authoritative_revision s vault id error = error

  -- A write that was refused answers with that error; the state is the one after the write.
  written : Bytes → Bytes → Result StoreError ℕ × db.State → Result ApiError ℕ × db.State
  written vault id (ok revision, s) = (ok revision, s)
  written vault id (err e, s) = (err (conflict_with_authoritative_revision s vault id (store e)), s)

  -- A check that fails answers with its error before the store is reached.
  pub guarded {ℓ κ} :
      {A : Type ℓ} {B : Type κ}
      → Result ApiError A
      → (A → Result ApiError B × db.State)
      → db.State
      → Result ApiError B × db.State
  guarded (err e) run s = (err e, s)
  guarded (ok a) run s = run a

  abbrev checked_put : Bytes → RecordDto → Result ApiError GenericEncryptedRecordV1
  checked_put id dto =
      if not (bytes_eq dto.record_id id)
      then err route_mismatch
      else validate_record_shape sha256 dto >>= λ _.
          if is_empty dto.vault_id then err route_mismatch else ok (into_record dto)

  -- The answer is the assigned revision.
  unfoldable pub put_record : Bytes → Option RecordDto → db.State → Result ApiError ℕ × db.State
  unfolding written guarded
  put_record id none s = (err bad_body, s)
  put_record id (some dto) s =
      guarded (checked_put id dto)
        (λ r. written dto.vault_id id (db.put r dto.expected_prior_revision s)) s

  abbrev scope : Option ListQuery → Result ApiError Bytes
  scope query = parsed query bad_query >>= λ q. required_vault q.vault

  abbrev with_body : Option ListQuery → Option ℕ → Result ApiError (Bytes × ℕ)
  with_body query payload =
      scope query >>= λ vault. parsed payload bad_body >>= λ prior. ok (vault, prior)

  -- The payload is the expected prior revision.
  unfoldable pub tombstone_record :
      Bytes → Option ListQuery → Option ℕ → ℕ → db.State → Result ApiError ℕ × db.State
  unfolding written guarded
  tombstone_record id query payload now s =
      guarded (with_body query payload)
        (λ body. written body.0 id (db.tombstone body.0 id body.1 now s)) s

  unfoldable pub get_record : Bytes → Option ListQuery → db.State → Result ApiError RecordDto
  get_record id query s =
      scope query >>= λ vault. of_store (db.get vault id s) >>= λ r. ok (from_record r)

  abbrev embedded : List GenericEncryptedRecordV1 → Result ApiError Listed
  embedded rs =
      if ltb max_embed_bodies (length rs) then err bad_query else ok (bodies (map from_record rs))

  unfoldable pub list_records : Option ListQuery → db.State → Result ApiError Listed
  list_records none s = err bad_query
  list_records (some query) s = required_vault query.vault >>= λ vault.
      let limit = unwrap_or query.limit default_list_limit in
      if limit == 0 || ltb max_list_limit limit
      then err bad_query
      else let offset = unwrap_or query.offset 0 in
        if bytes_eq (unwrap_or query.embed []) (codes "bodies")
        then of_store (db.list_bodies vault (max_embed_bodies + 1) offset s) >>= embedded
        else of_store (db.list vault limit offset s) >>= λ rows.
            ok (summaries (length rows == limit) rows)

  -- `now` is the clock's reading.
  unfoldable pub purge_tombstoned : Option ListQuery → ℕ → db.State → Result ApiError ℕ × db.State
  unfolding guarded
  purge_tombstoned query now s =
      guarded (scope query)
        (λ vault. let done = db.purge_tombstoned_before vault now s in (of_store done.0, done.1)) s

  abbrev validate_shapes : List RecordDto → Result ApiError (Unit {0})
  validate_shapes [] = ok tt
  validate_shapes (d ∷ ds) = validate_record_shape sha256 d >>= λ _. validate_shapes ds

  abbrev batch_scope : List RecordDto → Result ApiError Bytes
  batch_scope [] = err bad_body
  batch_scope (d ∷ ds) = if is_empty d.vault_id then err bad_body else ok d.vault_id

  abbrev checked_batch : List RecordDto → Result ApiError (Unit {0})
  checked_batch dtos = validate_shapes dtos >>= λ _. batch_scope dtos >>= λ vault.
      if any (λ d. not (bytes_eq d.vault_id vault)) dtos then err bad_body else ok tt

  abbrev pub batch_response : List RecordDto → List ℕ → BatchResponse
  batch_response dtos revisions = record {
    requested = length dtos;
    committed = length revisions;
    results = zip_ids (map (λ d. d.record_id) dtos) revisions;
  }

  answered_batch :
      List RecordDto
      → Result StoreError (List ℕ) × db.State
      → Result ApiError BatchResponse × db.State
  answered_batch dtos (ok revisions, s) = (ok (batch_response dtos revisions), s)
  answered_batch dtos (err e, s) = (err (store e), s)

  unfoldable pub batch_put_records :
      Option (List RecordDto) → db.State → Result ApiError BatchResponse × db.State
  unfolding guarded answered_batch
  batch_put_records none s = (err bad_body, s)
  batch_put_records (some dtos) s =
      guarded (checked_batch dtos)
        (λ _.
          answered_batch dtos
            (db.put_batch (map into_record dtos) (map (λ d. d.expected_prior_revision) dtos) s))
        s

  -- The body of a rekey.
  abbrev rekey_target :
      Option ListQuery
      → Option (Bytes × List RecordDto)
      → Result ApiError (Bytes × Bytes × List RecordDto)
  rekey_target query payload = scope query >>= λ vault. parsed payload bad_body >>= λ request.
      if is_empty (trim request.0) || bytes_eq request.0 vault
      then err bad_body
      else if is_nil request.1 || any (λ d. not (bytes_eq d.vault_id request.0)) request.1
      then err bad_body
      else ok (vault, request.0, request.1)

  abbrev answered : Result StoreError ℕ × db.State → Result ApiError ℕ × db.State
  answered (moved, s) = (of_store moved, s)

  unfoldable pub rekey_vault :
      Option ListQuery
      → Option (Bytes × List RecordDto)
      → ℕ
      → db.State
      → Result ApiError ℕ × db.State
  unfolding guarded
  rekey_vault query payload now s =
      guarded (rekey_target query payload)
        (λ (vault, to_vault, dtos).
          answered (db.rekey_vault vault to_vault (map into_record dtos) now s))
        s
