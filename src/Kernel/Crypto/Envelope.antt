-- ===== src/Kernel/Crypto/Envelope.antt =====
-- The envelopes of packages/security-kernel/crates/kernel-core/src/crypto.rs. The decoder of minicbor
-- and the signatures of ed25519-dalek are parameters.
pub mod Signed
pub mod Tests
use Prim.Native.Nat.{bit_xor}
use veyora.Prelude.{
  ℕ, ◌-◌, ◌+◌, Bytes, bytes_eq, Bool, true, false, not, Option, none, some, List, [], ◌∷◌, ◌++◌,
  map, Result, ok, err, ◌>>=◌, ltb, ◌==◌, if◌then◌else◌, length, take, drop,
}
use veyora.Kernel.Error.{
  KernelError, invalid_encoding, non_canonical_encoding, cryptographic_failure,
}
use veyora.Kernel.Crypto.{Primitives, replicate, domain_preimage}

-- A call on an input and a position: what it reads, if it succeeds, and the position behind it. The
-- length of an indefinite array is `none`.
pub record Decoder : Type 0 where
  pub array : Bytes → ℕ → Option (Option ℕ × ℕ)
  pub skip : Bytes → ℕ → Option ℕ
  pub bytes : Bytes → ℕ → Option (Bytes × ℕ)

-- Signing with a secret key, the public key of one, and the check of a signature.
pub record Ed25519 : Type 0 where
  pub sign : Bytes → Bytes → Bytes
  pub public : Bytes → Bytes
  pub verify : Bytes → Bytes → Bytes → Bool

abbrev pub ed25519_signature_bytes : ℕ
ed25519_signature_bytes = 64

abbrev pub mac_tag_bytes : ℕ
mac_tag_bytes = 32

unfoldable pub encode_envelope : Bytes → Bytes → Bytes
encode_envelope body signature = 0x82 ∷ (body ++ 0x58 ∷ 0x40 ∷ signature)

abbrev pub slice : ℕ → ℕ → Bytes → Bytes
slice start end raw = take (end - start) (drop start raw)

abbrev pub is_two : Option ℕ → Bool
is_two none = false
is_two (some n) = n == 2

-- The raw first item of a two-element array, and its second, a byte string of the given size that ends
-- the input.
unfoldable pub envelope_parts : Decoder → ℕ → Bytes → Result KernelError (Bytes × Bytes)
envelope_parts c size raw = elim (c.array raw 0) [
  | none ↦ err non_canonical_encoding
  | some (count, body_start) ↦
      if not (is_two count) then err non_canonical_encoding else (elim (c.skip raw body_start) [
        | none ↦ err non_canonical_encoding
        | some body_end ↦ elim (c.bytes raw body_end) [
          | none ↦ err non_canonical_encoding
          | some (tag, last) ↦
              if not (length tag == size)
              then err invalid_encoding
              else if not (last == length raw)
              then err non_canonical_encoding
              else ok (slice body_start body_end raw, tag)
        ]
      ])
]

unfoldable pub decode_canonical_envelope : Decoder → Bytes → Result KernelError (Bytes × Bytes)
decode_canonical_envelope c raw =
    envelope_parts c ed25519_signature_bytes raw >>= λ (body, signature).
    if bytes_eq (encode_envelope body signature) raw
    then ok (body, signature)
    else err non_canonical_encoding

unfoldable pub sign_envelope : Ed25519 → Bytes → Bytes → Bytes → Result KernelError Bytes
sign_envelope e secret domain body =
    domain_preimage domain body >>= λ preimage. ok (encode_envelope body (e.sign secret preimage))

-- `Signature::from_slice` takes 64 bytes, which the decoded signature has.
unfoldable pub verify_envelope :
    Decoder → Ed25519 → Bytes → Bytes → Bytes → Result KernelError Bytes
verify_envelope c e key domain raw = decode_canonical_envelope c raw >>= λ (body, signature).
    domain_preimage domain body >>= λ preimage.
    if e.verify key preimage signature then ok body else err cryptographic_failure

module _ (p : Primitives) where
  -- The key, or its hash if it is long, filled up to the block.
  abbrev pub block_key : Bytes → Bytes
  block_key key = take 64 ((if ltb 64 (length key) then p.sha256 key else key) ++ replicate 64 0)

  unfoldable pub hmac_sha256 : Bytes → Bytes → Bytes
  hmac_sha256 key msg =
      p.sha256
        (map (bit_xor 0x5c) (block_key key) ++ p.sha256 (map (bit_xor 0x36) (block_key key) ++ msg))

  unfoldable pub mac_envelope : Bytes → Bytes → Bytes → Result KernelError Bytes
  mac_envelope domain body key = domain_preimage domain body >>= λ preimage.
      ok (0x82 ∷ (body ++ 0x58 ∷ 0x20 ∷ hmac_sha256 key preimage))

  unfoldable pub verify_mac_envelope : Decoder → Bytes → Bytes → Bytes → Result KernelError Bytes
  verify_mac_envelope c domain raw key = envelope_parts c mac_tag_bytes raw >>= λ (body, tag).
      domain_preimage domain body >>= λ preimage.
      if bytes_eq (hmac_sha256 key preimage) tag then ok body else err cryptographic_failure
