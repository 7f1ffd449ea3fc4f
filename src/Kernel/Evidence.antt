-- ===== src/Kernel/Evidence.antt =====
-- The canonical evidence encoding of packages/security-kernel/crates/kernel-core/src/manifest.rs.
-- A function that writes to `out` returns the bytes that `out` then holds.
pub mod Canonical
pub mod Injective
pub mod Fields
use Prim.Native.Nat.{bit_or}
use veyora.Prelude.{
  ℕ, ◌+◌, ◌*◌, ◌/◌, ◌%◌, ◌^◌, Bytes, Bool, true, false, List, [], ◌∷◌, ◌++◌, Result, ok, err, ◌>>=◌,
  ltb, leb, if◌then◌else◌, length, suc, zero,
}
use veyora.Kernel.Error.{KernelError, limit_exceeded}

mutual
  pub data Evidence : Type 0 where
    bool : Bool → Evidence
    uint : ℕ → Evidence
    bytes : Bytes → Evidence
    array : Items → Evidence

  -- The vector inside an array.
  pub data Items : Type 0 where
    nil : Items
    cons : Evidence → Items → Items

abbrev pub items : List Evidence → Items
items [] = nil
items (v ∷ vs) = cons v (items vs)

abbrev pub count : Items → ℕ
count nil = 0
count (cons v vs) = suc (count vs)

-- `u32::MAX as u64`
abbrev pub head_limit : ℕ
head_limit = 0xffff_ffff

-- `to_be_bytes` of a u16 and of a u32
abbrev pub be16 : ℕ → Bytes
be16 v = (v / 256 % 256) ∷ (v % 256) ∷ []

abbrev pub be32 : ℕ → Bytes
be32 v = (v / 2 ^ 24 % 256) ∷ (v / 2 ^ 16 % 256) ∷ (v / 256 % 256) ∷ (v % 256) ∷ []

unfoldable pub write_head : Bytes → ℕ → ℕ → Result KernelError Bytes
write_head out major value =
    let prefix = major * 2 ^ 5 % 256 in
    if ltb head_limit value
    then err limit_exceeded
    else if ltb value 24
    then ok (out ++ bit_or prefix (value % 256) ∷ [])
    else if leb value 0xff
    then ok (out ++ bit_or prefix 24 ∷ (value % 256) ∷ [])
    else if leb value 0xffff
    then ok (out ++ bit_or prefix 25 ∷ be16 (value % 2 ^ 16))
    else ok (out ++ bit_or prefix 26 ∷ be32 (value % 2 ^ 32))

unfoldable mutual
  pub encode_into : Evidence → Bytes → Result KernelError Bytes
  encode_into (bool false) out = ok (out ++ 0xf4 ∷ [])
  encode_into (bool true) out = ok (out ++ 0xf5 ∷ [])
  encode_into (uint n) out = write_head out 0 n
  encode_into (bytes bs) out = write_head out 2 (length bs) >>= λ out'. ok (out' ++ bs)
  encode_into (array vs) out = write_head out 4 (count vs) >>= λ out'. encode_items vs out'

  pub encode_items : Items → Bytes → Result KernelError Bytes
  encode_items nil out = ok out
  encode_items (cons v vs) out = encode_into v out >>= λ out'. encode_items vs out'

unfoldable pub encode_evidence : Evidence → Result KernelError Bytes
unfolding encode_into write_head
encode_evidence v = encode_into v []
