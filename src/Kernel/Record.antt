-- ===== src/Kernel/Record.antt =====
-- The record check of packages/security-kernel/crates/kernel-core/src/lib.rs and the identifiers of
-- ids.rs beside it.
pub mod Check
use veyora.Prelude.{
  is_empty, ℕ, zero, suc, ◌+◌, ◌-◌, ◌*◌, ◌%◌, ◌^◌, Bytes, Bool, true, false, not, ◌&&◌, ◌||◌, List,
  [], ◌∷◌, Result, ok, err, ltb, leb, ◌==◌, if◌then◌else◌, length, all,
}
use veyora.Storage.Port.{GenericEncryptedRecordV1, protocol_version, suite_id}
use veyora.Kernel.Error.{KernelError, invalid_record, invalid_identifier}

abbrev pub record_plaintext_bucket_max_bytes : ℕ
record_plaintext_bucket_max_bytes = 16_777_216

abbrev pub record_ciphertext_max_bytes : ℕ
record_ciphertext_max_bytes = 16_777_232

-- `is_power_of_two` on a u64: one of the first `bits` powers.
unfoldable pub is_power_below : ℕ → ℕ → Bool
is_power_below zero n = false
is_power_below (suc bits) n = n == 2 ^ bits || is_power_below bits n

unfoldable pub is_valid_record_ciphertext_length : ℕ → Bool
is_valid_record_ciphertext_length ciphertext_length =
    let bucket = ciphertext_length - 16 in
    if ltb record_ciphertext_max_bytes ciphertext_length
    then false
    else if ltb ciphertext_length 16
    then false
    else if not (leb 1_024 bucket && leb bucket record_plaintext_bucket_max_bytes)
    then false
    else if leb bucket 4_096
    then bucket % 1_024 == 0
    else if leb bucket 65_536
    then bucket % 4_096 == 0
    else is_power_below 64 bucket

abbrev is_hex_byte : ℕ → Bool
is_hex_byte b = (leb 48 b && leb b 57) || (leb 97 b && leb b 102)

unfoldable pub is_lower_hex : Bytes → ℕ → Bool
is_lower_hex value expected_length = length value == expected_length && all is_hex_byte value

unfoldable pub validate_generic_record : GenericEncryptedRecordV1 → Result KernelError (Unit {0})
validate_generic_record r =
    if not (r.protocol_version == protocol_version)
      || not (r.suite_id == suite_id)
      || r.revision == 0
      || is_empty r.ciphertext
      || not (is_valid_record_ciphertext_length r.ciphertext_length)
      || not (length r.ciphertext == r.ciphertext_length)
      || not (is_lower_hex r.deployment_id 32)
      || not (is_lower_hex r.vault_id 32)
      || not (is_lower_hex r.record_id 32)
      || not (is_lower_hex r.ciphertext_hash 64)
      || not (is_lower_hex r.template_envelope_hash 64)
      || not (is_lower_hex r.manifest_binding 64)
    then err invalid_record
    else ok tt

-- `OpaqueId::try_from_slice`
unfoldable pub try_from_slice : Bytes → Result KernelError Bytes
try_from_slice bytes = if length bytes == 16 then ok bytes else err invalid_identifier

-- `OpaqueId::random`, over a source of that many random bytes.
unfoldable pub random : (ℕ → Result KernelError Bytes) → Result KernelError Bytes
random fill_bytes = fill_bytes 16
