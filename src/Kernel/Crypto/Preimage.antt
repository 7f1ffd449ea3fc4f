-- ===== src/Kernel/Crypto/Preimage.antt =====
-- Domain separation: a preimage determines its domain and its body.
use veyora.Prelude.{◌≡◌, sym, ◌∙◌, Bytes, false, [], ◌∷◌, ◌++◌, ok, arith}
use veyora.Kernel.Crypto.{domain_preimage, has_nul}

split_at_nul :
    (d e b c : Bytes)
    → has_nul d ≡ false
    → has_nul e ≡ false
    → d ++ 0 ∷ b ≡ e ++ 0 ∷ c
    → (d ≡ e) × (b ≡ c)
split_at_nul [] [] b c nd ne h = ground arith
split_at_nul [] (y ∷ e) b c nd ne h = ground arith
split_at_nul (x ∷ d) [] b c nd ne h = ground arith
split_at_nul (x ∷ d) (y ∷ e) b c nd ne h =
    ground (arith, split_at_nul d e b c (ground arith) (ground arith))

preimage_ok : (d b x : Bytes) → domain_preimage d b ≡ ok x → (has_nul d ≡ false) × (x ≡ d ++ 0 ∷ b)
unfolding domain_preimage
preimage_ok d b x h = ground arith

-- Two accepted preimages with the same bytes have the same domain and the same body.
pub domain_preimage-injective :
    (d e b c x : Bytes)
    → domain_preimage d b ≡ ok x
    → domain_preimage e c ≡ ok x
    → (d ≡ e) × (b ≡ c)
domain_preimage-injective d e b c x h k =
    let (nd, p) = preimage_ok d b x h in
    let (ne, q) = preimage_ok e c x k in split_at_nul d e b c nd ne (sym p ∙ q)
