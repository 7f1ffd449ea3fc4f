-- ===== src/Kernel/Evidence/Canonical.antt =====
-- The encoder against a plain description: the exact bytes, and exactly when it refuses.
use Prim.Native.Nat.{bit_or}
use mathlib.Core.Logic.{ite}
use native.Mathlib.Decide.{ℕ_discrete}
use veyora.Prelude.{
  ℕ, zero, suc, ◌+◌, ◌*◌, ◌/◌, ◌%◌, ◌^◌, ◌<◌, ◌≡◌, refl, sym, ◌∙◌, ap, Bytes, Bool, true, false, [],
  ◌∷◌, ◌++◌, append_assoc, append-nil, Result, ok, err, arith, ltb, leb, if◌then◌else◌, length,
}
use veyora.Kernel.Error.{KernelError, limit_exceeded}
use veyora.Kernel.Evidence.{
  Evidence, Items, bool, uint, bytes, array, nil, cons, count, head_limit, be16, be32, write_head,
  encode_into, encode_items, encode_evidence,
}

-- A head of CBOR: the major type in the top three bits, then the shortest form of the argument.
unfoldable pub head : ℕ → ℕ → Bytes
head major value =
    if ltb value 24
    then (major * 32 + value) ∷ []
    else if ltb value 0x100
    then (major * 32 + 24) ∷ value ∷ []
    else if ltb value 0x10000
    then (major * 32 + 25) ∷ be16 value
    else (major * 32 + 26) ∷ be32 value

or_table : ℕ → Bool
or_table zero = true
or_table (suc n) = ite (ℕ_discrete (bit_or (n / 32 * 32) (n % 32)) n) (or_table n) false

or_table_sound : (k n : ℕ) → or_table k ≡ true → n < k → bit_or (n / 32 * 32) (n % 32) ≡ n
unfolding or_table
or_table_sound zero n h lt = absurd (omega arith)
or_table_sound (suc k) n h lt = ground (arith, or_table_sound k n)

or_is_add : (major low : ℕ) → major < 8 → low < 32 → bit_or (major * 32) low ≡ major * 32 + low
unfolding or_table ℕ_discrete
or_is_add major low hm hl =
    let n = major * 32 + low in
    let e : bit_or (n / 32 * 32) (n % 32) ≡ n = or_table_sound 256 n refl (omega arith) in
    let p : n / 32 * 32 ≡ major * 32 = omega arith in
    let q : n % 32 ≡ low = omega arith in rw (p, q) at e

prefix_or :
    (major low : ℕ) → major < 8 → low < 32 → bit_or (major * 2 ^ 5 % 256) low ≡ major * 32 + low
prefix_or major low hm hl =
    let p : major * 2 ^ 5 % 256 ≡ major * 32 = omega arith in rw p (or_is_add major low hm hl)

prefix_low :
    (major value : ℕ)
    → major < 8
    → value < 24
    → bit_or (major * 2 ^ 5 % 256) (value % 256) ≡ major * 32 + value
prefix_low major value hm hv =
    let p : value ≡ value % 256 = omega arith in
    prefix_or major (value % 256) hm (omega arith) ∙ ap (λ (t : ℕ). major * 32 + t) (sym p)

write_head-head :
    (out : Bytes) (major value : ℕ)
    → major < 8
    → write_head out major value
      ≡ (if ltb head_limit value then err limit_exceeded else ok (out ++ head major value))
unfolding write_head head
write_head-head out major value h =
    ground
      (arith, prefix_low major value, prefix_or major 24, prefix_or major 25, prefix_or major 26)

-- The evidence that can be encoded: no number and no length passes the u32 range.
unfoldable mutual
  pub fits : Evidence → Bool
  fits (bool b) = true
  fits (uint n) = leb n head_limit
  fits (bytes bs) = leb (length bs) head_limit
  fits (array vs) = if leb (count vs) head_limit then fits_items vs else false

  pub fits_items : Items → Bool
  fits_items nil = true
  fits_items (cons v vs) = if fits v then fits_items vs else false

-- The encoding as a function of the value: false and true are the simple values 20 and 21.
unfoldable mutual
  pub canonical : Evidence → Bytes
  canonical (bool b) = head 7 (if b then 21 else 20)
  canonical (uint n) = head 0 n
  canonical (bytes bs) = head 2 (length bs) ++ bs
  canonical (array vs) = head 4 (count vs) ++ canonical_items vs

  pub canonical_items : Items → Bytes
  canonical_items nil = []
  canonical_items (cons v vs) = canonical v ++ canonical_items vs

head_bool : (b : Bool) → head 7 (if b then 21 else 20) ≡ (if b then 0xf5 else 0xf4) ∷ []
unfolding head
head_bool true = refl
head_bool false = refl

abbrev Encodes : Bytes → Bool → Bytes → Result KernelError Bytes → Type 0
Encodes out ok? body r = r ≡ (if ok? then ok (out ++ body) else err limit_exceeded)

mutual
  unfolding encode_into fits canonical

  encode_into-canonical :
      (v : Evidence) (out : Bytes) → Encodes out (fits v) (canonical v) (encode_into v out)
  encode_into-canonical (bool true) out = ap (λ (t : Bytes). ok (out ++ t)) (sym (head_bool true))
  encode_into-canonical (bool false) out = ap (λ (t : Bytes). ok (out ++ t)) (sym (head_bool false))
  encode_into-canonical (uint n) out = ground (arith, write_head-head out 0 n)
  encode_into-canonical (bytes bs) out =
      ground (arith, write_head-head out 2 (length bs), append_assoc out (head 2 (length bs)) bs)
  encode_into-canonical (array vs) out = ground (
    arith,
    write_head-head out 4 (count vs),
    encode_items-canonical vs (out ++ head 4 (count vs)),
    append_assoc out (head 4 (count vs)) (canonical_items vs),
  )

  encode_items-canonical :
      (vs : Items) (out : Bytes)
      → Encodes out (fits_items vs) (canonical_items vs) (encode_items vs out)
  encode_items-canonical nil out = ap ok (sym (append-nil out))
  encode_items-canonical (cons v vs) out = ground (
    arith,
    encode_into-canonical v out,
    encode_items-canonical vs (out ++ canonical v),
    append_assoc out (canonical v) (canonical_items vs),
  )

-- The encoder writes the canonical form of a value whose numbers and lengths fit a u32, and refuses
-- every other value with `limit_exceeded`.
pub encode_evidence-canonical :
    (v : Evidence) → encode_evidence v ≡ (if fits v then ok (canonical v) else err limit_exceeded)
unfolding encode_evidence
encode_evidence-canonical v = encode_into-canonical v []
