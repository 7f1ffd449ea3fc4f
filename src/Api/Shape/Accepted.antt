-- ===== src/Api/Shape/Accepted.antt =====
-- Which records pass the shape check of services/api/src/lib.rs.
use veyora.Prelude.{
  ◌≤◌, ◌↔◌, All, [], ◌∷◌, ◌≡◌, inl, inr, Bytes, bytes_eq_iff, true, some, ok, length, arith,
  Option-cases,
}
use veyora.Prelude.{refl, bytes_eq, false, is_empty, all, ◌==◌}
use veyora.Api.Shape.{
  is_graphic, is_lower_hex_digit, RecordDto, is_identifier, is_digest, decode_pairs, to_lower_hex,
  validate_record_shape,
}

-- One to 128 printable ASCII characters without a space, and 64 lower-case hex digits.
abbrev pub IsIdentifier : Bytes → Type 0
IsIdentifier value = (1 ≤ length value) × (length value ≤ 128) × (all is_graphic value ≡ true)

abbrev pub IsDigest : Bytes → Type 0
IsDigest value = (length value ≡ 64) × (all is_lower_hex_digit value ≡ true)

is_identifier_iff : (value : Bytes) → (is_identifier value ≡ true) ↔ IsIdentifier value
unfolding is_identifier
is_identifier_iff [] = (λ h. absurd (ground (arith, h)), λ h. absurd (omega (arith, h.0)))
is_identifier_iff (b ∷ bs) = (λ h. ground (arith, h), λ h. ground (arith, h.0, h.1, h.2))

is_digest_iff : (value : Bytes) → (is_digest value ≡ true) ↔ IsDigest value
unfolding is_digest
is_digest_iff value = (λ h. ground (arith, h), λ h. ground (arith, h.0, h.1))

-- What the check asks of the bytes that the ciphertext decodes to.
abbrev pub IsSealed : (Bytes → Bytes) → RecordDto → Bytes → Type 0
IsSealed sha256 dto bytes =
    (1 ≤ length bytes)
    × (dto.ciphertext_length ≡ length bytes)
    × (to_lower_hex (sha256 bytes) ≡ dto.ciphertext_hash)

accepted_bytes :
    (sha256 : Bytes → Bytes) (dto : RecordDto)
    → validate_record_shape sha256 dto ≡ ok tt
    → (bytes : Bytes) × (decode_pairs dto.ciphertext ≡ some bytes) × IsSealed sha256 dto bytes
unfolding validate_record_shape
accepted_bytes sha256 dto h = elim (Option-cases (decode_pairs dto.ciphertext)) [
  | inl n ↦ absurd (ground arith)
  | inr (bytes, d) ↦
      (bytes, d, (filled bytes (ground arith), ground arith, (bytes_eq_iff _ _).0 (ground arith)))
]
  where
    filled : (bytes : Bytes) → is_empty bytes ≡ false → 1 ≤ length bytes
    filled [] e = absurd (ground (arith, e))
    filled (b ∷ bs) e = omega arith

accepted_names :
    (sha256 : Bytes → Bytes) (dto : RecordDto)
    → validate_record_shape sha256 dto ≡ ok tt
    → ((is_identifier dto.deployment_id ≡ true)
        × (is_identifier dto.vault_id ≡ true)
        × (is_identifier dto.record_id ≡ true))
      × (is_digest dto.ciphertext_hash ≡ true)
      × (is_digest dto.template_envelope_hash ≡ true)
      × (is_digest dto.manifest_binding ≡ true)
unfolding validate_record_shape
accepted_names sha256 dto h = (
  (ground (arith, h), ground (arith, h), ground (arith, h)),
  ground (arith, h),
  ground (arith, h),
  ground (arith, h),
)

accepts :
    (sha256 : Bytes → Bytes) (dto : RecordDto) (bytes : Bytes)
    → decode_pairs dto.ciphertext ≡ some bytes
    → IsSealed sha256 dto bytes
    → is_identifier dto.deployment_id ≡ true
    → is_identifier dto.vault_id ≡ true
    → is_identifier dto.record_id ≡ true
    → is_digest dto.ciphertext_hash ≡ true
    → is_digest dto.template_envelope_hash ≡ true
    → is_digest dto.manifest_binding ≡ true
    → validate_record_shape sha256 dto ≡ ok tt
unfolding validate_record_shape
accepts sha256 dto [] d (filled, size, hash) a b c e f g = absurd (omega (arith, filled))
accepts sha256 dto (x ∷ xs) d (filled, size, hash) a b c e f g =
    let same : bytes_eq (to_lower_hex (sha256 (x ∷ xs))) dto.ciphertext_hash ≡ true =
      (bytes_eq_iff _ _).1 hash in
    let stated : (dto.ciphertext_length == length (x ∷ xs)) ≡ true = ground (arith, size) in
    rw (a, b, c, e, f, g, d, stated, same) refl

-- A record passes the check of the write boundary exactly if its three ids have 1 to 128 printable
-- characters, its three hashes are 64 lower-case hex digits, and its ciphertext decodes to at least one
-- byte, as many as it states, whose SHA-256 in lower-case hex is the stated hash.
pub validate_record_shape_iff :
    (sha256 : Bytes → Bytes) (dto : RecordDto)
    → (validate_record_shape sha256 dto ≡ ok tt) ↔ (
        ((bytes : Bytes) × (decode_pairs dto.ciphertext ≡ some bytes) × IsSealed sha256 dto bytes)
        × All IsIdentifier (dto.deployment_id ∷ dto.vault_id ∷ dto.record_id ∷ [])
        × All IsDigest
            (dto.ciphertext_hash ∷ dto.template_envelope_hash ∷ dto.manifest_binding ∷ []))
validate_record_shape_iff sha256 dto = (
  λ h.
      let ((a, b, c), e, f, g) = accepted_names sha256 dto h in
      (
        accepted_bytes sha256 dto h,
        ((is_identifier_iff _).0 a, ((is_identifier_iff _).0 b, ((is_identifier_iff _).0 c, tt))),
        ((is_digest_iff _).0 e, ((is_digest_iff _).0 f, ((is_digest_iff _).0 g, tt))),
      ),
  λ ((bytes, d, sealed), (i, (j, (k, u))), (l, (m, (n, v)))).
      accepts sha256 dto bytes d sealed ((is_identifier_iff _).1 i) ((is_identifier_iff _).1 j)
        ((is_identifier_iff _).1 k) ((is_digest_iff _).1 l) ((is_digest_iff _).1 m)
        ((is_digest_iff _).1 n),
)
