-- ===== src/Kernel/Record/Check.antt =====
-- The kernel's record check against the store's.
use veyora.Prelude.{is_empty, ℕ, ◌≡◌, ◌≤◌, refl, Bytes, true, false, [], ◌∷◌, ok, length, arith}
use veyora.Storage.Port.{GenericEncryptedRecordV1, validate}
use veyora.Kernel.Record.{is_valid_record_ciphertext_length, is_lower_hex, validate_generic_record}

hex_not_empty : (value : Bytes) → is_lower_hex value 32 ≡ true → is_empty value ≡ false
unfolding is_lower_hex
hex_not_empty [] h = ground arith
hex_not_empty (b ∷ bs) h = refl

digest_not_empty : (value : Bytes) → is_lower_hex value 64 ≡ true → is_empty value ≡ false
unfolding is_lower_hex
digest_not_empty [] h = ground arith
digest_not_empty (b ∷ bs) h = refl

-- A record that the kernel accepts passes the store's check as well.
pub validate_generic_record-validate :
    (r : GenericEncryptedRecordV1) → validate_generic_record r ≡ ok tt → validate r ≡ ok tt
unfolding validate_generic_record validate
validate_generic_record-validate r h =
    ground (
      arith,
      hex_not_empty r.vault_id,
      hex_not_empty r.record_id,
      digest_not_empty r.ciphertext_hash,
    )

-- What the check says of the ciphertext: its text has the stated length, which is one of the schedule.
pub validate_generic_record-length :
    (r : GenericEncryptedRecordV1)
    → validate_generic_record r ≡ ok tt
    → (length r.ciphertext ≡ r.ciphertext_length)
      × (is_valid_record_ciphertext_length r.ciphertext_length ≡ true)
unfolding validate_generic_record
validate_generic_record-length r h = (ground arith, ground arith)

pub valid_length_bound : (n : ℕ) → is_valid_record_ciphertext_length n ≡ true → 1_040 ≤ n
unfolding is_valid_record_ciphertext_length
valid_length_bound n h = ground arith
