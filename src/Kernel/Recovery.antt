-- ===== src/Kernel/Recovery.antt =====
-- packages/security-kernel/crates/kernel-core/src/recovery.rs: the human form of the recovery entropy.
-- SHA-256 is that of the primitives. A `u64` buffer loses its high bits in a shift; the bits that an
-- `|` adds are free, so it is an addition. A string of ASCII characters is the list of their bytes.
pub mod Base32
pub mod Groups
pub mod Kit
pub mod Tests
use veyora.Prelude.{
  ℕ, zero, suc, ◌+◌, ◌-◌, ◌*◌, ◌/◌, ◌%◌, ◌^◌, Bytes, codes, byte_at, bytes_eq, Bool, not, ◌&&◌,
  ◌||◌, Option, none, some, List, [], ◌∷◌, ◌++◌, Result, ok, err, ◌>>=◌, ltb, leb, ◌==◌,
  if◌then◌else◌, length, take, drop,
}
use veyora.Kernel.Error.{KernelError, invalid_encoding}
use veyora.Kernel.Crypto.{Primitives}

abbrev pub recovery_entropy_bytes : ℕ
recovery_entropy_bytes = 32

abbrev pub checksum_bytes : ℕ
checksum_bytes = 5

abbrev pub base32_alphabet : Bytes
base32_alphabet = codes "abcdefghijklmnopqrstuvwxyz234567"

unfoldable pub recovery_checksum : Primitives → Bytes → Bytes
recovery_checksum p entropy =
    take checksum_bytes (p.sha256 (codes "pm-v1/recovery-checksum" ++ 0 ∷ entropy))

-- `buffer << n` on a u64
abbrev pub shift : ℕ → ℕ → ℕ
shift buffer n = buffer * 2 ^ n % 2 ^ 64

-- `BASE32_ALPHABET[index]`; an index is below 32.
unfoldable pub char_at : ℕ → ℕ
char_at index = byte_at index base32_alphabet

-- `while bits >= 5`: the characters, and the bits that are left. A pass takes 5 bits off, so `bits`
-- passes are enough.
abbrev pub emit : ℕ → ℕ → ℕ → Bytes × ℕ
emit zero buffer bits = ([], bits)
emit (suc fuel) buffer bits =
    let (rest, left) = emit fuel buffer (bits - 5) in
    if leb 5 bits then (char_at (buffer / 2 ^ (bits - 5) % 32) ∷ rest, left) else ([], bits)

unfoldable pub encode_bytes : Bytes → ℕ → ℕ → Bytes
encode_bytes [] buffer bits = if ltb 0 bits then char_at (shift buffer (5 - bits) % 32) ∷ [] else []
encode_bytes (byte ∷ bytes) buffer bits =
    let buffer' = shift buffer 8 + byte in
    let (chars, left) = emit (bits + 8) buffer' (bits + 8) in
    chars ++ encode_bytes bytes buffer' left

unfoldable pub base32_encode : Bytes → Bytes
base32_encode bytes = encode_bytes bytes 0 0

unfoldable pub base32_value : ℕ → Option ℕ
base32_value byte =
    if leb 97 byte && leb byte 122
    then some (byte - 97)
    else if leb 50 byte && leb byte 55
    then some (byte - 50 + 26)
    else none

abbrev pub valued : Option ℕ → Result KernelError ℕ
valued none = err invalid_encoding
valued (some v) = ok v

-- The bytes of the text from a buffer and its bits.
unfoldable pub decode_text : Bytes → ℕ → ℕ → Result KernelError Bytes
decode_text [] buffer bits =
    if ltb 0 bits && not (buffer % 2 ^ bits == 0) then err invalid_encoding else ok []
decode_text (byte ∷ text) buffer bits = valued (base32_value byte) >>= λ value.
    let buffer' = shift buffer 5 + value in
    let full = leb 8 (bits + 5) in
    let rest = decode_text text buffer' (if full then bits + 5 - 8 else bits + 5) in
    if full then (rest >>= λ out. ok (buffer' / 2 ^ (bits + 5 - 8) % 256 ∷ out)) else rest

unfoldable pub base32_decode : Bytes → Result KernelError Bytes
base32_decode text = decode_text text 0 0

-- `chunks(5)`
abbrev pub chunks : Bytes → List Bytes
chunks [] = []
chunks (a ∷ []) = (a ∷ []) ∷ []
chunks (a ∷ b ∷ []) = (a ∷ b ∷ []) ∷ []
chunks (a ∷ b ∷ c ∷ []) = (a ∷ b ∷ c ∷ []) ∷ []
chunks (a ∷ b ∷ c ∷ d ∷ []) = (a ∷ b ∷ c ∷ d ∷ []) ∷ []
chunks (a ∷ b ∷ c ∷ d ∷ e ∷ rest) = (a ∷ b ∷ c ∷ d ∷ e ∷ []) ∷ chunks rest

-- A hyphen (45) before every group but the first.
abbrev pub join_groups : ℕ → List Bytes → Bytes
join_groups index [] = []
join_groups index (chunk ∷ rest) =
    (if ltb 0 index then 45 ∷ chunk else chunk) ++ join_groups (index + 1) rest

unfoldable pub encode_recovery : Primitives → Bytes → Bytes
encode_recovery p entropy =
    join_groups 0 (chunks (base32_encode (entropy ++ recovery_checksum p entropy)))

-- The loop over the characters: the text without hyphens, the number of hyphens, and the place
-- within the last group.
unfoldable pub ungroup : Bytes → ℕ → ℕ → Result KernelError (Bytes × ℕ × ℕ)
ungroup [] group_index within = ok ([], group_index, within)
ungroup (byte ∷ bytes) group_index within =
    let after_hyphen = ungroup bytes (group_index + 1) 0 in
    let after_char = ungroup bytes group_index (within + 1) in
    if within == 5
    then (if byte == 45 then after_hyphen else err invalid_encoding)
    else (elim (base32_value byte) [
      | none ↦ err invalid_encoding
      | some v ↦ after_char >>= λ (text, g, w). ok (byte ∷ text, g, w)
    ])

unfoldable pub checked_payload : Primitives → Bytes → Result KernelError Bytes
checked_payload p payload =
    if not (length payload == recovery_entropy_bytes + checksum_bytes)
    then err invalid_encoding
    else if bytes_eq (recovery_checksum p (take recovery_entropy_bytes payload))
        (drop recovery_entropy_bytes payload)
    then ok (take recovery_entropy_bytes payload)
    else err invalid_encoding

unfoldable pub ungrouped : Primitives → Bytes × ℕ × ℕ → Result KernelError Bytes
ungrouped p (text, group_index, within) =
    if not (group_index == 11) || not (within == 5)
    then err invalid_encoding
    else base32_decode text >>= checked_payload p

unfoldable pub decode_recovery : Primitives → Bytes → Result KernelError Bytes
unfolding ungrouped checked_payload
decode_recovery p form =
    if not (length form == 71) then err invalid_encoding else ungroup form 0 0 >>= ungrouped p
