-- ===== src/Api/Tests.antt =====
-- The service's properties at concrete requests, over the in-memory store and a toy hash of 32 zeros.
use veyora.Prelude.{
  All, ℕ, ◌++◌, ◌≡◌, ◌↔◌, ◌≢◌, ◌≤◌, refl, Bytes, codes, bytes_eq, true, false, none, some, List, [],
  ◌∷◌, ok, err, arith,
}
use veyora.Storage.Port.{conflict, validate, next_revision}
use veyora.Storage.Assoc.{lookup, insert, remove, key_eq}
use veyora.Storage.Memory.{
  InMemoryStore, empty_store, put, put_checked, get, current_revision, write,
}
use veyora.Storage.Interface.{in_memory, in_memory-IsAtomic}
use veyora.Api.Shape.{
  RecordDto, into_record, is_identifier, is_digest, from_str_radix, decode_pairs,
  validate_record_shape,
}
use veyora.Api.Shape.Accepted.{IsSealed, IsIdentifier, IsDigest, validate_record_shape_iff}
use veyora.Api.Shape.Mismatch.{validate_record_shape_excludes}
use veyora.Kernel.Record.{validate_generic_record}
use veyora.Api.Access.{bearer_token, auth_middleware}
use veyora.Api.Access.Token.{auth_middleware_iff}
use veyora.Api.Records.{put_record, conflict_with_authoritative_revision}
use veyora.Prelude.{if◌then◌else◌}
use veyora.Storage.Memory.{put_batch, put_batch_planned, validate_all, plan_batch, apply_plan}
use veyora.Api.Records.{BatchResponse, batch_response, batch_put_records}
use veyora.Api.Records.BatchRequests.{requests, batch_put_records-requests}
use veyora.Api.Records.ReadBack.{answer, get_record-put_record}
use veyora.Api.Records.Conflicts.{put_record_conflict}
use veyora.Api.Limiter.{passed, allow_bounds_minute}

abbrev zeros : Bytes → Bytes
zeros b =
    0 ∷ 0 ∷ 0 ∷ 0 ∷ 0 ∷ 0 ∷ 0 ∷ 0 ∷ 0 ∷ 0 ∷ 0 ∷ 0 ∷ 0 ∷ 0 ∷ 0 ∷ 0 ∷ 0 ∷ 0 ∷ 0 ∷ 0 ∷ 0 ∷ 0 ∷ 0 ∷ 0
    ∷ 0 ∷ 0 ∷ 0 ∷ 0 ∷ 0 ∷ 0 ∷ 0 ∷ 0 ∷ []

abbrev digest : Bytes
digest = codes "0000000000000000000000000000000000000000000000000000000000000000"

abbrev dto : RecordDto
dto = record {
  protocol_version = 1;
  suite_id = 1;
  deployment_id = codes "d";
  vault_id = codes "v";
  record_id = codes "a";
  revision = 1;
  ciphertext = codes "00ff";
  ciphertext_hash = digest;
  ciphertext_length = 2;
  tombstone = false;
  template_envelope_hash = digest;
  manifest_binding = digest;
  expected_prior_revision = none;
}

validate_record_shape_iff_example : (validate_record_shape zeros dto ≡ ok tt) ↔ (
    ((bytes : Bytes) × (decode_pairs (codes "00ff") ≡ some bytes) × IsSealed zeros dto bytes)
    × All IsIdentifier (codes "d" ∷ codes "v" ∷ codes "a" ∷ [])
    × All IsDigest (digest ∷ digest ∷ digest ∷ []))
validate_record_shape_iff_example = validate_record_shape_iff zeros dto

shape_run : validate_record_shape zeros dto ≡ ok tt
unfolding validate_record_shape is_identifier is_digest decode_pairs from_str_radix bytes_eq
shape_run = refl

-- A second digit pair that starts with a plus sign is read as one digit.
plus_accepted : decode_pairs (codes "00+f") ≡ some (0 ∷ 15 ∷ [])
unfolding decode_pairs from_str_radix
plus_accepted = refl

abbrev one_row : InMemoryStore
one_row = (put (into_record dto) none empty_store).1

put_record_conflict_example :
    ((put (into_record dto) none one_row).0 ≡ err conflict)
    × (current_revision (codes "v") (codes "a") one_row ≡ ok 1)
unfolding put_record conflict_with_authoritative_revision validate_record_shape is_identifier
    is_digest decode_pairs from_str_radix bytes_eq put put_checked validate next_revision write get
    current_revision lookup insert remove key_eq
put_record_conflict_example =
    put_record_conflict zeros in_memory in_memory-IsAtomic (codes "a") dto one_row 1 refl

get_record-put_record_example : answer zeros (codes "v") (codes "a") one_row ≡ (
    if key_eq (codes "v", codes "a") (codes "v", codes "a")
    then ok (record dto { revision = 1; expected_prior_revision = none })
    else answer zeros (codes "v") (codes "a") empty_store)
unfolding put_record validate_record_shape is_identifier is_digest decode_pairs from_str_radix
    bytes_eq put put_checked validate next_revision write lookup insert remove key_eq
get_record-put_record_example =
    get_record-put_record zeros (codes "a") dto empty_store one_row 1 (codes "v") (codes "a") refl
      refl

abbrev second : RecordDto
second = record dto { record_id = codes "b" }

abbrev two_rows : InMemoryStore
two_rows = (put (into_record second) none one_row).1

abbrev both : BatchResponse
both = record { requested = 2; committed = 2; results = (codes "a", 1) ∷ (codes "b", 1) ∷ [] }

batch_put_records-requests_example :
    (ns : List ℕ) × (requests zeros (dto ∷ second ∷ []) empty_store ≡ (ok ns, two_rows))
    × (both ≡ batch_response zeros in_memory (dto ∷ second ∷ []) ns)
    × (both.committed ≡ both.requested)
unfolding batch_put_records validate_record_shape is_identifier is_digest decode_pairs
    from_str_radix bytes_eq put_batch put_batch_planned validate_all plan_batch apply_plan put
    put_checked validate next_revision write lookup insert remove key_eq
batch_put_records-requests_example =
    batch_put_records-requests zeros (dto ∷ second ∷ []) empty_store two_rows both
      ((refl, tt), (tt, tt)) refl

-- Four requests of one client within minute 3, and one in minute 4.
abbrev arrivals : List (Bytes × ℕ)
arrivals =
    (codes "ip", 180)
    ∷ (codes "ip", 190)
    ∷ (codes "other", 200)
    ∷ (codes "ip", 210)
    ∷ (codes "ip", 239)
    ∷ (codes "ip", 240)
    ∷ []

allow_bounds_minute_example : passed 2 (codes "ip") 3 arrivals [] ≤ 2
allow_bounds_minute_example =
    allow_bounds_minute 2 (codes "ip") 3 0 arrivals (omega arith)
      (omega arith, (omega arith, (omega arith, (omega arith, (omega arith, (omega arith, tt))))))

validate_record_shape_excludes_example : validate_generic_record (into_record dto) ≢ ok tt
unfolding validate_record_shape is_identifier is_digest decode_pairs from_str_radix bytes_eq
validate_record_shape_excludes_example = validate_record_shape_excludes zeros dto refl

auth_middleware_iff_example :
    (auth_middleware
        (bearer_token (codes "token"))
        (codes "/v1/records")
        false
        (some (codes "Bearer token"))
      ≡ true)
    ↔ (codes "Bearer token" ≡ codes "Bearer " ++ codes "token")
unfolding bytes_eq
auth_middleware_iff_example =
    auth_middleware_iff (codes "token") (codes "/v1/records") (codes "Bearer token")
      (omega arith, (omega arith, (omega arith, (omega arith, (omega arith, tt)))))
      (
        omega arith,
        (
          omega arith,
          (
            omega arith,
            (
              omega arith,
              (
                omega arith,
                (
                  omega arith,
                  (
                    omega arith,
                    (omega arith, (omega arith, (omega arith, (omega arith, (omega arith, tt))))),
                  ),
                ),
              ),
            ),
          ),
        ),
      )
      refl refl
