-- ===== src/Api/Shape/Mismatch.antt =====
-- The service's record check against the kernel's.
use veyora.Prelude.{
  ◌+◌, ◌*◌, ◌≡◌, ◌≢◌, ◌≤◌, Bytes, some, [], ◌∷◌, ok, length, arith, Option-cases, inl, inr,
}
use veyora.Kernel.Record.{validate_generic_record}
use veyora.Kernel.Record.Check.{validate_generic_record-length, valid_length_bound}
use veyora.Api.Shape.{RecordDto, into_record, from_str_radix, decode_pairs, validate_record_shape}
use veyora.Api.Shape.Accepted.{validate_record_shape_iff}

-- Two characters make one byte.
decode_pairs-length :
    (text bytes : Bytes) → decode_pairs text ≡ some bytes → length bytes * 2 ≤ length text + 1
unfolding decode_pairs
decode_pairs-length [] bytes h = ground arith
decode_pairs-length (a ∷ []) bytes h = ground arith
decode_pairs-length (a ∷ b ∷ rest) bytes h = elim (Option-cases (from_str_radix a (some b))) [
  | inl n ↦ absurd (ground arith)
  | inr (x, d) ↦ elim (Option-cases (decode_pairs rest)) [
    | inl n ↦ absurd (ground arith)
    | inr (xs, ds) ↦ ground (arith, decode_pairs-length rest xs ds)
  ]
]

-- No record passes both checks: a record that the service accepts is one that the kernel's check refuses, since
-- the service counts the bytes that the ciphertext's text decodes to and the kernel the text itself.
pub validate_record_shape_excludes :
    (sha256 : Bytes → Bytes) (dto : RecordDto)
    → validate_record_shape sha256 dto ≡ ok tt
    → validate_generic_record (into_record dto) ≢ ok tt
validate_record_shape_excludes sha256 dto accepted generic =
    let ((bytes, decoded, (filled, counted, hash)), ids, hashes) =
      (validate_record_shape_iff sha256 dto).0 accepted in
    let halved = decode_pairs-length dto.ciphertext bytes decoded in
    let (text, scheduled) = validate_generic_record-length (into_record dto) generic in
    let long = valid_length_bound dto.ciphertext_length scheduled in omega arith
