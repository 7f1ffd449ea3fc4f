-- ===== src/Kernel/Crypto/Envelope/Signed.antt =====
-- Which envelopes verify.
use veyora.Prelude.{
  ℕ, ◌-◌, ◌+◌, ◌≤◌, ◌<◌, ◌≡◌, ◌↔◌, refl, sym, ap, ◌∙◌, Bytes, bytes_eq, bytes_eq_iff, bytes_eq_refl,
  Bool, true, some, ◌∷◌, ◌++◌, ok, err, >>=-eq-ok, ◌==◌, if◌then◌else◌, length, length-append,
  take-append, arith,
}
use veyora.Kernel.Error.{KernelError}
use veyora.Kernel.Crypto.{Primitives, domain_preimage}
use veyora.Kernel.Crypto.Envelope.{
  Decoder, Ed25519, ed25519_signature_bytes, mac_tag_bytes, encode_envelope, envelope_parts,
  decode_canonical_envelope, sign_envelope, verify_envelope, hmac_sha256, mac_envelope,
  verify_mac_envelope,
}

-- What minicbor documents: the head of an array of two, that `skip` passes over one item, and a byte
-- string with its length in one byte.
pub record IsDecoder (c : Decoder) (IsItem : Bytes → Type 0) : Type 0 where
  pub head : (rest : Bytes) → c.array (0x82 ∷ rest) 0 ≡ some (some 2, 1)
  pub item :
      (body rest : Bytes) → IsItem body → c.skip (0x82 ∷ (body ++ rest)) 1 ≡ some (1 + length body)
  pub string :
      (before tag : Bytes) (n : ℕ)
      → length tag ≡ n
      → 24 ≤ n
      → n < 256
      → c.bytes (before ++ 0x58 ∷ n ∷ tag) (length before) ≡ some (tag, length before + 2 + n)

module _ (c : Decoder) (IsItem : Bytes → Type 0) (laws : IsDecoder c IsItem) where
  envelope_parts_lem :
      (body tag : Bytes) (n : ℕ)
      → IsItem body
      → length tag ≡ n
      → 24 ≤ n
      → n < 256
      → envelope_parts c n (0x82 ∷ (body ++ 0x58 ∷ n ∷ tag)) ≡ ok (body, tag)
  unfolding envelope_parts
  envelope_parts_lem body tag n i h lo hi =
      let rest = 0x58 ∷ n ∷ tag in
      let at_end : 1 + length body ≡ length (0x82 ∷ body) = omega arith in
      let tag_read : c.bytes (0x82 ∷ (body ++ rest)) (1 + length body)
          ≡ some (tag, 1 + length body + 2 + n) =
        rw at_end (laws.string (0x82 ∷ body) tag n h lo hi) in
      let sized : (length tag == n) ≡ true = ground (arith, h) in
      let ends : (1 + length body + 2 + n == length (0x82 ∷ (body ++ rest))) ≡ true =
        ground (arith, h, length-append body rest) in
      let short : 1 + length body - 1 ≡ length body = omega arith in
      rw
        (
          laws.head (body ++ rest),
          envelope_parts,
          laws.item body rest i,
          tag_read,
          sized,
          ends,
          short,
          take-append body rest,
        )
        refl

envelope_parts_size :
    (c : Decoder) (size : ℕ) (raw body tag : Bytes)
    → envelope_parts c size raw ≡ ok (body, tag)
    → length tag ≡ size
unfolding envelope_parts
envelope_parts_size c size raw body tag e = ground (arith, e)

checked :
    {A : Type 0} (accepted : Bool) (a b : A) (k : KernelError)
    → (if accepted then ok a else err k) ≡ ok b
    → (accepted ≡ true) × (a ≡ b)
checked accepted a b k h = ground (arith, h)

decoded_is_encoded :
    (c : Decoder) (raw body signature : Bytes)
    → decode_canonical_envelope c raw ≡ ok (body, signature)
    → (length signature ≡ ed25519_signature_bytes) × (raw ≡ encode_envelope body signature)
unfolding decode_canonical_envelope
decoded_is_encoded c raw body signature e =
    let ((b, t), parts, rest) = >>=-eq-ok (envelope_parts c ed25519_signature_bytes raw) _ e in
    let size = envelope_parts_size c ed25519_signature_bytes raw b t parts in
    let (same, kept) =
      checked (bytes_eq (encode_envelope b t) raw) (b, t) (body, signature) _ rest in
    let encoded = sym ((bytes_eq_iff (encode_envelope b t) raw).0 same) in
    (ap (λ (x, y). length y) (sym kept) ∙ size, encoded ∙ ap (λ (x, y). encode_envelope x y) kept)

module _ (c : Decoder) (IsItem : Bytes → Type 0) (laws : IsDecoder c IsItem) where
  decode-encode_envelope :
      (body signature : Bytes)
      → IsItem body
      → length signature ≡ ed25519_signature_bytes
      → decode_canonical_envelope c (encode_envelope body signature) ≡ ok (body, signature)
  unfolding decode_canonical_envelope encode_envelope
  decode-encode_envelope body signature i h =
      rw
        (
          envelope_parts_lem c IsItem laws body signature ed25519_signature_bytes i h (omega arith)
              (omega arith),
          bytes_eq_refl (0x82 ∷ (body ++ 0x58 ∷ 0x40 ∷ signature)),
        )
        refl

  -- For an item as body, an envelope verifies under a key and a domain and gives the body exactly if
  -- it is the encoding of the body with 64 bytes behind it that the key accepts as a signature of the
  -- domain's preimage of the body.
  pub verify_envelope_iff :
      (e : Ed25519) (key domain raw body : Bytes)
      → IsItem body
      → (verify_envelope c e key domain raw ≡ ok body) ↔ (
          (signature : Bytes) × (length signature ≡ ed25519_signature_bytes)
          × (raw ≡ encode_envelope body signature)
          × (preimage : Bytes) × (domain_preimage domain body ≡ ok preimage)
          × (e.verify key preimage signature ≡ true))
  unfolding verify_envelope
  verify_envelope_iff e key domain raw body i = (
    λ accepted.
        let ((b, t), decoded, rest) = >>=-eq-ok (decode_canonical_envelope c raw) _ accepted in
        let (x, bound, check) = >>=-eq-ok (domain_preimage domain b) _ rest in
        let (signed, same) = checked (e.verify key x t) b body _ check in
        let (size, encoded) = decoded_is_encoded c raw b t decoded in
        (t, size, encoded ∙ ap (λ m. encode_envelope m t) same, x, rw (← same) bound, signed),
    λ (signature, size, encoded, preimage, bound, signed).
        rw (encoded, decode-encode_envelope body signature i size, bound, signed) refl,
  )

  -- What a key signs verifies under its public key and the same domain, for an item as body, if
  -- signatures have 64 bytes and the public key accepts what the secret key signs.
  verify-sign_envelope :
      (e : Ed25519) (secret domain body raw : Bytes)
      → IsItem body
      → ((m : Bytes) → length (e.sign secret m) ≡ ed25519_signature_bytes)
      → ((m : Bytes) → e.verify (e.public secret) m (e.sign secret m) ≡ true)
      → sign_envelope e secret domain body ≡ ok raw
      → verify_envelope c e (e.public secret) domain raw ≡ ok body
  unfolding sign_envelope
  verify-sign_envelope e secret domain body raw i size accepts h =
      let (x, bound, out) = >>=-eq-ok (domain_preimage domain body) _ h in
      (verify_envelope_iff e (e.public secret) domain raw body i).1
        (e.sign secret x, size x, ground (arith, out), x, bound, accepts x)

  -- What is authenticated under a key verifies under the key and the same domain, for an item as body,
  -- if hashes have 32 bytes.
  verify-mac_envelope :
      (p : Primitives) (domain body key raw : Bytes)
      → IsItem body
      → ((m : Bytes) → length (p.sha256 m) ≡ mac_tag_bytes)
      → mac_envelope p domain body key ≡ ok raw
      → verify_mac_envelope p c domain raw key ≡ ok body
  unfolding mac_envelope verify_mac_envelope hmac_sha256
  verify-mac_envelope p domain body key raw i size h =
      let (x, bound, out) = >>=-eq-ok (domain_preimage domain body) _ h in
      let tag = hmac_sha256 p key x in
      let parts =
        envelope_parts_lem c IsItem laws body tag mac_tag_bytes i (size _) (omega arith)
          (omega arith) in
      let made : raw ≡ 0x82 ∷ (body ++ 0x58 ∷ 0x20 ∷ tag) = ground (arith, out) in
      rw (made, parts, bound, bytes_eq_refl tag) refl
