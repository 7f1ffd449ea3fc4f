-- ===== src/Api/Shape.antt =====
-- `RecordDto`, `ApiError` and `validate_record_shape` of services/api/src/lib.rs. SHA-256 is a parameter.
pub mod Accepted
pub mod Mismatch
use veyora.Prelude.{
  is_empty, ℕ, ◌+◌, ◌-◌, ◌*◌, ◌/◌, ◌%◌, Bytes, bytes_eq, Bool, true, false, not, ◌||◌, ◌&&◌, Option,
  none, some, List, [], ◌∷◌, Result, ok, err, ◌>>=◌, ltb, leb, ◌==◌, if◌then◌else◌, length, all,
}
use veyora.Storage.Port.{StoreError, invalid_record, GenericEncryptedRecordV1}

pub record RecordDto : Type 0 where
  pub protocol_version : ℕ
  pub suite_id : ℕ
  pub deployment_id : Bytes
  pub vault_id : Bytes
  pub record_id : Bytes
  pub revision : ℕ
  pub ciphertext : Bytes
  pub ciphertext_hash : Bytes
  pub ciphertext_length : ℕ
  pub tombstone : Bool
  pub template_envelope_hash : Bytes
  pub manifest_binding : Bytes
  pub expected_prior_revision : Option ℕ

abbrev pub from_record : GenericEncryptedRecordV1 → RecordDto
from_record r = record {
  protocol_version = r.protocol_version;
  suite_id = r.suite_id;
  deployment_id = r.deployment_id;
  vault_id = r.vault_id;
  record_id = r.record_id;
  revision = r.revision;
  ciphertext = r.ciphertext;
  ciphertext_hash = r.ciphertext_hash;
  ciphertext_length = r.ciphertext_length;
  tombstone = r.tombstone;
  template_envelope_hash = r.template_envelope_hash;
  manifest_binding = r.manifest_binding;
  expected_prior_revision = none;
}

abbrev pub into_record : RecordDto → GenericEncryptedRecordV1
into_record d = record {
  protocol_version = d.protocol_version;
  suite_id = d.suite_id;
  deployment_id = d.deployment_id;
  vault_id = d.vault_id;
  record_id = d.record_id;
  revision = d.revision;
  ciphertext = d.ciphertext;
  ciphertext_hash = d.ciphertext_hash;
  ciphertext_length = d.ciphertext_length;
  tombstone = d.tombstone;
  template_envelope_hash = d.template_envelope_hash;
  manifest_binding = d.manifest_binding;
}

pub data ApiError : Type 0 where
  store : StoreError → ApiError
  conflict_at_revision : ℕ → ApiError
  route_mismatch bad_body bad_query : ApiError

-- `is_ascii_graphic`, on a byte
abbrev pub is_graphic : ℕ → Bool
is_graphic b = leb 0x21 b && leb b 0x7e

abbrev pub is_lower_hex_digit : ℕ → Bool
is_lower_hex_digit b = (leb 48 b && leb b 57) || (leb 97 b && leb b 102)

unfoldable pub is_identifier : Bytes → Bool
is_identifier value = not (is_empty value || ltb 128 (length value) || not (all is_graphic value))

unfoldable pub is_digest : Bytes → Bool
is_digest value = not (not (length value == 64) || not (all is_lower_hex_digit value))

-- A digit of base 16, of either case.
abbrev pub hex_digit : ℕ → Option ℕ
hex_digit b =
    if leb 48 b && leb b 57
    then some (b - 48)
    else if leb 97 b && leb b 102
    then some (b - 87)
    else if leb 65 b && leb b 70
    then some (b - 55)
    else none

abbrev pub two_digits : Option ℕ → Option ℕ → Option ℕ
two_digits none y = none
two_digits (some x) none = none
two_digits (some x) (some y) = some (x * 16 + y)

-- `u8::from_str_radix(pair, 16)` on one or two characters: a leading `+` is accepted before a digit.
unfoldable pub from_str_radix : ℕ → Option ℕ → Option ℕ
from_str_radix a none = hex_digit a
from_str_radix a (some b) = if a == 43 then hex_digit b else two_digits (hex_digit a) (hex_digit b)

-- `chunks(2)`, each parsed; a chunk that is no UTF-8 holds no digit.
unfoldable pub decode_pairs : Bytes → Option Bytes
decode_pairs [] = some []
decode_pairs (a ∷ []) = elim (from_str_radix a none) [ none ↦ none | some x ↦ some (x ∷ []) ]
decode_pairs (a ∷ b ∷ rest) = elim (from_str_radix a (some b)) [
  | none ↦ none
  | some x ↦ elim (decode_pairs rest) [ none ↦ none | some xs ↦ some (x ∷ xs) ]
]

-- `format!("{byte:02x}")`
abbrev pub lower_digit : ℕ → ℕ
lower_digit d = if ltb d 10 then d + 48 else d + 87

abbrev pub to_lower_hex : Bytes → Bytes
to_lower_hex [] = []
to_lower_hex (b ∷ bs) = lower_digit (b / 16 % 16) ∷ lower_digit (b % 16) ∷ to_lower_hex bs

abbrev pub reject : ApiError
reject = store invalid_record

module _ (sha256 : Bytes → Bytes) where
  unfoldable pub validate_record_shape : RecordDto → Result ApiError (Unit {0})
  validate_record_shape dto =
      if not (
        is_identifier dto.deployment_id
        && is_identifier dto.vault_id
        && is_identifier dto.record_id)
      then err reject
      else if not (
          is_digest dto.ciphertext_hash
          && is_digest dto.template_envelope_hash
          && is_digest dto.manifest_binding)
      then err reject
      else elim (decode_pairs dto.ciphertext) [
        | none ↦ err reject
        | some bytes ↦
            if is_empty bytes || not (dto.ciphertext_length == length bytes)
            then err reject
            else if not (bytes_eq (to_lower_hex (sha256 bytes)) dto.ciphertext_hash)
            then err reject
            else ok tt
      ]
