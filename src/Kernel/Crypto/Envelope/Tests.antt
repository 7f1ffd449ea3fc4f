-- ===== src/Kernel/Crypto/Envelope/Tests.antt =====
-- Envelopes of a decoder that knows small numbers and both heads of an array of two, the short and the
-- long one, with a signature and a hash that keep what they are given.
use veyora.Prelude.{
  ℕ, ◌+◌, ◌<◌, ◌≡◌, ◌↔◌, refl, Bytes, bytes_eq, true, not, Option, none, some, [], ◌∷◌, ◌++◌, ok,
  err, ◌==◌, ltb, if◌then◌else◌, length, take, drop, drop-append, arith,
}
use veyora.Kernel.Error.{non_canonical_encoding, cryptographic_failure}
use veyora.Kernel.Crypto.{Primitives, domain_preimage, replicate}
use veyora.Kernel.Crypto.Envelope.{
  Decoder, Ed25519, envelope_parts, decode_canonical_envelope, ed25519_signature_bytes,
  encode_envelope, verify_envelope, hmac_sha256, verify_mac_envelope,
}
use veyora.Kernel.Crypto.Envelope.Signed.{IsDecoder, verify_envelope_iff}

abbrev small_array : ℕ → Bytes → Option (Option ℕ × ℕ)
small_array at [] = none
small_array at (b ∷ []) = if b == 0x82 then some (some 2, at + 1) else none
small_array at (b ∷ n ∷ bs) =
    if b == 0x82 then some (some 2, at + 1) else if b == 0x98 then some (some n, at + 2) else none

abbrev small_skip : ℕ → Bytes → Option ℕ
small_skip at [] = none
small_skip at (b ∷ bs) = if ltb b 24 then some (at + 1) else none

abbrev small_string : ℕ → Bytes → Option (Bytes × ℕ)
small_string at [] = none
small_string at (b ∷ []) = none
small_string at (b ∷ n ∷ bs) =
    if not (b == 0x58)
    then none
    else if ltb (length bs) n
    then none
    else some (take n bs, at + 2 + n)

abbrev small : Decoder
small = record {
  array = λ raw at. small_array at (drop at raw);
  skip = λ raw at. small_skip at (drop at raw);
  bytes = λ raw at. small_string at (drop at raw);
}

abbrev IsSmall : Bytes → Type 0
IsSmall body = (x : ℕ) × (x < 24) × (body ≡ x ∷ [])

item_skipped :
    (body rest : Bytes)
    → IsSmall body
    → small.skip (0x82 ∷ (body ++ rest)) 1 ≡ some (1 + length body)
item_skipped body rest (x, l, e) = rw e (ground arith)

take_whole : (tag : Bytes) → take (length tag) tag ≡ tag
take_whole [] = refl
take_whole (b ∷ bs) = rw (take_whole bs)

string_read :
    (at n : ℕ) (tag : Bytes)
    → length tag ≡ n
    → small_string at (0x58 ∷ n ∷ tag) ≡ some (tag, at + 2 + n)
string_read at n tag h = rw (← h, take_whole tag) (ground arith)

small_head : (rest : Bytes) → small.array (0x82 ∷ rest) 0 ≡ some (some 2, 1)
small_head [] = refl
small_head (n ∷ bs) = refl

small-IsDecoder : IsDecoder small IsSmall
small-IsDecoder = record {
  head = small_head;
  item = item_skipped;
  string = λ before tag n h lo hi.
      rw (drop-append before (0x58 ∷ n ∷ tag)) (string_read (length before) n tag h);
}

abbrev wide : ℕ → Bytes → Bytes
wide n b = take n (b ++ replicate n 0)

abbrev plain : Ed25519
plain = record {
  sign = λ secret m. wide 64 (secret ++ m);
  public = λ secret. secret;
  verify = λ key m s. bytes_eq s (wide 64 (key ++ m));
}

abbrev toy : Primitives
toy = record {
  sha256 = wide 32;
  hkdf = λ salt key info n. none;
  encrypt = λ key nonce aad msg. none;
  decrypt = λ key nonce aad c. none;
}

abbrev signed : Bytes
signed = 0x82 ∷ 5 ∷ 0x58 ∷ 0x40 ∷ wide 64 (7 ∷ 9 ∷ 0 ∷ 5 ∷ [])

-- The body 5 under the domain 9 and the key 7.
verify_envelope_iff_example :
    (verify_envelope small plain (7 ∷ []) (9 ∷ []) signed ≡ ok (5 ∷ [])) ↔ (
      (signature : Bytes) × (length signature ≡ ed25519_signature_bytes)
      × (signed ≡ encode_envelope (5 ∷ []) signature)
      × (preimage : Bytes) × (domain_preimage (9 ∷ []) (5 ∷ []) ≡ ok preimage)
      × (bytes_eq signature (wide 64 (7 ∷ preimage)) ≡ true))
verify_envelope_iff_example =
    verify_envelope_iff small IsSmall small-IsDecoder plain (7 ∷ []) (9 ∷ []) signed (5 ∷ [])
      (5, ground arith, refl)

accepted_run : verify_envelope small plain (7 ∷ []) (9 ∷ []) signed ≡ ok (5 ∷ [])
unfolding verify_envelope decode_canonical_envelope envelope_parts encode_envelope domain_preimage
    bytes_eq
accepted_run = refl

-- Another domain.
domain_run : verify_envelope small plain (7 ∷ []) (8 ∷ []) signed ≡ err cryptographic_failure
unfolding verify_envelope decode_canonical_envelope envelope_parts encode_envelope domain_preimage
    bytes_eq
domain_run = refl

-- The long head of the array, which a signed envelope may not have.
long_head_run :
    verify_envelope small plain (7 ∷ []) (9 ∷ []) (0x98 ∷ 2 ∷ drop 1 signed)
    ≡ err non_canonical_encoding
unfolding verify_envelope decode_canonical_envelope envelope_parts encode_envelope domain_preimage
    bytes_eq
long_head_run = refl

abbrev authenticated : Bytes
authenticated = 5 ∷ 0x58 ∷ 0x20 ∷ hmac_sha256 toy (7 ∷ []) (9 ∷ 0 ∷ 5 ∷ [])

mac_run : verify_mac_envelope toy small (9 ∷ []) (0x82 ∷ authenticated) (7 ∷ []) ≡ ok (5 ∷ [])
unfolding verify_mac_envelope envelope_parts hmac_sha256 domain_preimage bytes_eq
mac_run = refl

-- `verify_mac_envelope` takes the long head too.
mac_long_head_run :
    verify_mac_envelope toy small (9 ∷ []) (0x98 ∷ 2 ∷ authenticated) (7 ∷ []) ≡ ok (5 ∷ [])
unfolding verify_mac_envelope envelope_parts hmac_sha256 domain_preimage bytes_eq
mac_long_head_run = refl
