-- ===== src/Kernel/Secret.antt =====
-- The secret texts of packages/security-kernel/crates/kernel-core/src/lib.rs and the key that Argon2id
-- derives from a password, with the argon2 crate as a parameter.
pub mod Texts
use veyora.Prelude.{
  ℕ, zero, suc, Bytes, Bool, true, false, ◌&&◌, ◌||◌, Option, none, some, [], ◌∷◌, Result, ok, err,
  ◌>>=◌, ltb, leb, ◌==◌, if◌then◌else◌, length, is_empty,
}
use veyora.Kernel.Error.{KernelError, limit_exceeded, invalid_secret_text}
use veyora.Kernel.Limits.{LimitProfile, v1}
use veyora.Kernel.Crypto.{or_failure}

-- What a byte in front of a character announces: the number of bytes that follow it, and the bounds of
-- the first of them.
abbrev pub lead : ℕ → Option (ℕ × ℕ × ℕ)
lead b =
    if ltb b 0x80
    then some (0, 0, 0)
    else if leb 0xc2 b && leb b 0xdf
    then some (1, 0x80, 0xbf)
    else if b == 0xe0
    then some (2, 0xa0, 0xbf)
    else if b == 0xed
    then some (2, 0x80, 0x9f)
    else if leb 0xe1 b && leb b 0xef
    then some (2, 0x80, 0xbf)
    else if b == 0xf0
    then some (3, 0x90, 0xbf)
    else if leb 0xf1 b && leb b 0xf3
    then some (3, 0x80, 0xbf)
    else if b == 0xf4
    then some (3, 0x80, 0x8f)
    else none

-- `core::str::from_utf8`, with the bytes that the character so far still needs.
abbrev pub utf8_from : ℕ → ℕ → ℕ → Bytes → Bool
utf8_from need low high [] = need == 0
utf8_from (suc need) low high (b ∷ bs) =
    let rest = utf8_from need 0x80 0xbf bs in leb low b && leb b high && rest
utf8_from zero low high (b ∷ bs) = elim (lead b) [
  | none ↦ false
  | some (need, l, h) ↦ utf8_from need l h bs
]

unfoldable pub is_utf8 : Bytes → Bool
is_utf8 bs = utf8_from 0 0 0 bs

-- `OpaqueSecret` as the bytes that it wraps.
unfoldable pub encode_opaque_secret : Bytes → Result KernelError Bytes
encode_opaque_secret bytes =
    if is_empty bytes || ltb v1.max_secret_text_bytes (length bytes)
    then err limit_exceeded
    else if is_utf8 bytes
    then ok bytes
    else err invalid_secret_text

abbrev pub decode_opaque_secret : Bytes → Result KernelError Bytes
decode_opaque_secret secret = ok secret

-- Argon2id with its memory, passes, lanes and output length, on a password and a salt.
unfoldable pub derive_password_key :
    (ℕ → ℕ → ℕ → ℕ → Bytes → Bytes → Option Bytes) → Bytes → Bytes → Result KernelError Bytes
derive_password_key argon2id password_utf8 salt = encode_opaque_secret password_utf8 >>= λ password.
    or_failure (argon2id 65_536 3 1 32 password salt)
