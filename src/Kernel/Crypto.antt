-- ===== src/Kernel/Crypto.antt =====
-- packages/security-kernel/crates/kernel-core/src/crypto.rs. The primitives of the RustCrypto crates
-- are a parameter.
pub mod Preimage
pub mod Commit
pub mod Records
pub mod Envelope
use veyora.Prelude.{
  is_empty, ℕ, zero, suc, ◌+◌, ◌≡◌, Bytes, codes, Bool, true, false, ◌||◌, Option, none, some, List,
  [], ◌∷◌, ◌++◌, Result, ok, err, ◌>>=◌, ltb, ◌==◌, if◌then◌else◌, length, any,
}
use veyora.Kernel.Error.{KernelError, cryptographic_failure, limit_exceeded, invalid_encoding}
use veyora.Kernel.Limits.{LimitProfile}

-- SHA-256, HKDF-SHA-256 (salt, input key, info, output length), and XChaCha20-Poly1305 (key, nonce,
-- associated data, message).
pub record Primitives : Type 0 where
  pub sha256 : Bytes → Bytes
  pub hkdf : Bytes → Bytes → Bytes → ℕ → Option Bytes
  pub encrypt : Bytes → Bytes → Bytes → Bytes → Option Bytes
  pub decrypt : Bytes → Bytes → Bytes → Bytes → Option Bytes

-- What the crates document of them.
pub record IsAead (p : Primitives) : Type 0 where
  pub decrypts :
      (key nonce aad msg c : Bytes)
      → p.encrypt key nonce aad msg ≡ some c
      → p.decrypt key nonce aad c ≡ some msg
  pub tagged :
      (key nonce aad msg c : Bytes)
      → p.encrypt key nonce aad msg ≡ some c
      → length c ≡ length msg + 16

abbrev pub has_nul : Bytes → Bool
has_nul = any (λ b. b == 0)

abbrev pub replicate : ℕ → ℕ → Bytes
replicate zero b = []
replicate (suc n) b = b ∷ replicate n b

abbrev pub or_failure : Option Bytes → Result KernelError Bytes
or_failure none = err cryptographic_failure
or_failure (some b) = ok b

unfoldable pub domain_preimage : Bytes → Bytes → Result KernelError Bytes
domain_preimage domain body =
    if is_empty domain || has_nul domain then err cryptographic_failure else ok (domain ++ 0 ∷ body)

-- The length check of `AeadKey::from_bytes`.
unfoldable pub aead_key : Bytes → Result KernelError Bytes
aead_key bytes = if length bytes == 32 then ok bytes else err cryptographic_failure

module _ (p : Primitives) where
  unfoldable pub kdf : Bytes → Bytes → Bytes → Result KernelError Bytes
  kdf label ikm context =
      if is_empty label || has_nul label
      then err cryptographic_failure
      else or_failure (p.hkdf (replicate 32 0) ikm (label ++ 0 ∷ context) 32)

  unfoldable pub derive_record_key : Bytes → Bytes → Result KernelError Bytes
  derive_record_key root_key context = kdf (codes "pm-v1/record-key") root_key context >>= aead_key

  unfoldable pub seal_record :
      Bytes → Bytes → Bytes → Bytes → LimitProfile → Result KernelError Bytes
  seal_record key nonce aad plaintext limits =
      if is_empty plaintext || ltb limits.max_secret_text_bytes (length plaintext)
      then err limit_exceeded
      else or_failure (p.encrypt key nonce aad plaintext)

  unfoldable pub open_record :
      Bytes → Bytes → Bytes → Bytes → LimitProfile → Result KernelError Bytes
  open_record key nonce aad sealed limits =
      if ltb (length sealed) (16 + 1)
      then err invalid_encoding
      else or_failure (p.decrypt key nonce aad sealed) >>= λ plaintext.
          if is_empty plaintext || ltb limits.max_secret_text_bytes (length plaintext)
          then err limit_exceeded
          else ok plaintext
