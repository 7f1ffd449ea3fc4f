-- ===== src/Kernel/Crypto/Records.antt =====
-- Sealing and opening vault records.
use veyora.Prelude.{is_empty, ◌≡◌, ◌≤◌, ◌<◌, Bytes, false, some, [], ◌∷◌, ok, arith, ltb, length}
use veyora.Kernel.Limits.{LimitProfile}
use veyora.Kernel.Crypto.{Primitives, IsAead, seal_record, open_record}

not_empty : (b : Bytes) → is_empty b ≡ false → 0 < length b
not_empty [] h = absurd (cc h)
not_empty (x ∷ b) h = omega arith

sealed_by :
    (p : Primitives) (key nonce aad plaintext sealed : Bytes) (limits : LimitProfile)
    → seal_record p key nonce aad plaintext limits ≡ ok sealed
    → (p.encrypt key nonce aad plaintext ≡ some sealed)
      × (is_empty plaintext ≡ false)
      × (ltb limits.max_secret_text_bytes (length plaintext) ≡ false)
unfolding seal_record
sealed_by p key nonce aad plaintext sealed limits h = ground arith

-- What was sealed opens, under the same key, nonce, associated data and limits, to the plaintext.
pub open_record-seal_record :
    (p : Primitives) (key nonce aad plaintext sealed : Bytes) (limits : LimitProfile)
    → IsAead p
    → seal_record p key nonce aad plaintext limits ≡ ok sealed
    → open_record p key nonce aad sealed limits ≡ ok plaintext
unfolding open_record
open_record-seal_record p key nonce aad plaintext sealed limits laws h =
    let (e, full, small) = sealed_by p key nonce aad plaintext sealed limits h in
    let opens = laws.decrypts key nonce aad plaintext sealed e in
    let long = laws.tagged key nonce aad plaintext sealed e in
    let nonzero = not_empty plaintext full in ground arith

-- Whatever is opened is not empty and within the limit, and came from more than a bare tag.
pub open_record_bounds :
    (p : Primitives) (key nonce aad sealed plaintext : Bytes) (limits : LimitProfile)
    → open_record p key nonce aad sealed limits ≡ ok plaintext
    → (0 < length plaintext)
      × (length plaintext ≤ limits.max_secret_text_bytes)
      × (16 < length sealed)
unfolding open_record
open_record_bounds p key nonce aad sealed plaintext limits h = ground (arith, not_empty plaintext)
