-- ===== src/Kernel/Recovery/Tests.antt =====
-- recovery.rs at the entropy of its own tests, over a hash that has the digest's first bytes there.
use veyora.Prelude.{
  ℕ, zero, suc, ◌+◌, bytes_eq, ◌<◌, ◌≡◌, refl, Bytes, codes, true, some, take, [], ◌∷◌, ◌++◌, ok,
  err, ltb, All, all, arith, Bool-cases, inl, inr,
}
use veyora.Kernel.Error.{invalid_encoding}
use veyora.Kernel.Crypto.{Primitives, replicate}
use veyora.Kernel.Recovery.{
  encode_recovery, decode_recovery, recovery_checksum, base32_encode, base32_decode, encode_bytes,
  decode_text, char_at, base32_value, ungroup, ungrouped, checked_payload,
}
use veyora.Kernel.Recovery.Kit.{decode_recovery-encode_recovery}

abbrev counted : ℕ → ℕ → Bytes
counted zero from = []
counted (suc n) from = from ∷ counted n (from + 1)

abbrev adr_entropy : Bytes
adr_entropy = counted 32 0

abbrev adr_digest : Bytes
adr_digest = 26 ∷ 88 ∷ 179 ∷ 180 ∷ 8 ∷ replicate 27 0

abbrev adr_hash : Primitives
adr_hash = record {
  sha256 = λ b. adr_digest;
  hkdf = λ salt key info n. some (take n (key ++ replicate n 0));
  encrypt = λ key nonce aad msg. some (msg ++ replicate 16 0);
  decrypt = λ key nonce aad c. some c;
}

abbrev adr_form : Bytes
adr_form = codes "aaaqe-ayeau-daoca-jbifq-ydiob-4ibce-qtcqk-rmfyy-denbw-ha5dy-pruwf-twqea"

all_bytes : (xs : Bytes) → all (λ b. ltb b 256) xs ≡ true → All (λ b. b < 256) xs
all_bytes [] h = tt
all_bytes (x ∷ xs) h = elim (Bool-cases (ltb x 256)) [
  | inl e ↦ (ground (arith, e), all_bytes xs (ground (arith, h, e)))
  | inr e ↦ absurd (ground (arith, h, e))
]

encode_matches_adr : encode_recovery adr_hash adr_entropy ≡ adr_form
unfolding encode_recovery base32_encode encode_bytes recovery_checksum char_at
encode_matches_adr = refl

decode_matches_adr : decode_recovery adr_hash adr_form ≡ ok adr_entropy
unfolding decode_recovery ungroup ungrouped base32_decode decode_text base32_value checked_payload
    recovery_checksum bytes_eq
decode_matches_adr = refl

-- A form whose last character is another is refused.
decode_rejects_changed :
    decode_recovery adr_hash (take 70 adr_form ++ 98 ∷ []) ≡ err invalid_encoding
unfolding decode_recovery ungroup ungrouped base32_decode decode_text base32_value checked_payload
    recovery_checksum bytes_eq
decode_rejects_changed = refl

decode_recovery-encode_recovery_example :
    decode_recovery adr_hash (encode_recovery adr_hash adr_entropy) ≡ ok adr_entropy
decode_recovery-encode_recovery_example =
    decode_recovery-encode_recovery adr_hash adr_entropy refl (all_bytes adr_entropy refl)
      (λ x. refl) (λ x. all_bytes adr_digest refl)
