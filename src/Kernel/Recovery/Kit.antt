-- ===== src/Kernel/Recovery/Kit.antt =====
-- The round trip of recovery.rs: a recovery form decodes to the entropy that it was made from.
use veyora.Prelude.{
  ℕ, zero, suc, ◌+◌, ◌*◌, ◌<◌, ◌≡◌, refl, ◌∙◌, Bytes, true, [], ◌∷◌, ◌++◌, Result, ok, ltb, length,
  length-append, length-take, take-append, drop-append, take, drop, bytes_eq_refl, sym, All, arith,
}
use veyora.Kernel.Error.{KernelError}
use veyora.Kernel.Crypto.{Primitives}
use veyora.Kernel.Recovery.{
  recovery_checksum, base32_encode, chunks, join_groups, encode_recovery, ungroup, checked_payload,
  ungrouped, decode_recovery,
}
use veyora.Kernel.Recovery.Base32.{base32_decode-base32_encode}
use veyora.Kernel.Recovery.Groups.{
  IsText, encode_bytes-IsText, length-encode_bytes, hyphen_step, group_step,
}

-- What a text of `m` groups becomes behind another group: each group has its hyphen, and is read
-- with it.
record Grouped (t : Bytes) (i g m : ℕ) : Type 0 where
  six_each : length (join_groups i (chunks t)) ≡ 6 * m
  reads : ungroup (join_groups i (chunks t)) g 5 ≡ ok (t, g + m, 5)

later_groups :
    (m : ℕ) (t : Bytes) (i g : ℕ) → length t ≡ 5 * m → IsText t → ltb 0 i ≡ true → Grouped t i g m
unfolding ungroup
later_groups zero [] i g h ht hi = record { six_each = refl; reads = same }
  where
    same : ◌≡◌ {A = Result KernelError (Bytes × ℕ × ℕ)} (ok ([], g, 5)) (ok ([], g + 0, 5))
    same = rw (let e : g + 0 ≡ g = omega arith in e) refl
later_groups zero (a ∷ t) i g h ht hi = absurd (omega (arith, h))
later_groups (suc m) [] i g h ht hi = absurd (omega (arith, h))
later_groups (suc m) (a ∷ []) i g h ht hi = absurd (omega (arith, h))
later_groups (suc m) (a ∷ b ∷ []) i g h ht hi = absurd (omega (arith, h))
later_groups (suc m) (a ∷ b ∷ c ∷ []) i g h ht hi = absurd (omega (arith, h))
later_groups (suc m) (a ∷ b ∷ c ∷ d ∷ []) i g h ht hi = absurd (omega (arith, h))
later_groups (suc m) (a ∷ b ∷ c ∷ d ∷ e ∷ r) i g h ht hi =
    let rest = join_groups (i + 1) (chunks r) in
    let later = later_groups m r (i + 1) (g + 1) (omega (arith, h)) ht.1.1.1.1.1 (ground arith) in
    let sum : g + suc m ≡ g + 1 + m = omega arith in
    record {
      six_each = rw hi (omega (arith, later.six_each));
      reads = rw hi (
          hyphen_step (a ∷ b ∷ c ∷ d ∷ e ∷ rest) g
          ∙ rw sum (group_step a b c d e rest r (g + 1) (g + 1 + m) 5 ht later.reads));
    }

-- The first group has no hyphen.
first_group :
    (m : ℕ) (t : Bytes)
    → length t ≡ 5 * suc m
    → IsText t
    → (length (join_groups 0 (chunks t)) ≡ 6 * m + 5)
      × (ungroup (join_groups 0 (chunks t)) 0 0 ≡ ok (t, m, 5))
first_group m [] h ht = absurd (omega (arith, h))
first_group m (a ∷ []) h ht = absurd (omega (arith, h))
first_group m (a ∷ b ∷ []) h ht = absurd (omega (arith, h))
first_group m (a ∷ b ∷ c ∷ []) h ht = absurd (omega (arith, h))
first_group m (a ∷ b ∷ c ∷ d ∷ []) h ht = absurd (omega (arith, h))
first_group m (a ∷ b ∷ c ∷ d ∷ e ∷ r) h ht =
    let later = later_groups m r 1 0 (omega (arith, h)) ht.1.1.1.1.1 refl in
    let groups : m ≡ 0 + m = omega arith in
    (
      omega (arith, later.six_each),
      rw groups (group_step a b c d e (join_groups 1 (chunks r)) r 0 (0 + m) 5 ht later.reads),
    )

All-take : (n : ℕ) (xs : Bytes) → All (λ b. b < 256) xs → All (λ b. b < 256) (take n xs)
All-take zero xs h = tt
All-take (suc n) [] h = tt
All-take (suc n) (x ∷ xs) (h, hs) = (h, All-take n xs hs)

All-append :
    (xs ys : Bytes) → All (λ b. b < 256) xs → All (λ b. b < 256) ys → All (λ b. b < 256) (xs ++ ys)
All-append [] ys hx hy = hy
All-append (x ∷ xs) ys (h, hx) hy = (h, All-append xs ys hx hy)

length-base32_encode : (x : Bytes) → length x ≡ 37 → length (base32_encode x) ≡ 60
unfolding base32_encode
length-base32_encode x e = omega (arith, length-encode_bytes x 0 0 (omega arith), e)

base32_encode-IsText : (x : Bytes) → IsText (base32_encode x)
unfolding base32_encode
base32_encode-IsText x = encode_bytes-IsText x 0 0

module _ (p : Primitives) where
  length-recovery_checksum :
      (x : Bytes) → ((y : Bytes) → length (p.sha256 y) ≡ 32) → length (recovery_checksum p x) ≡ 5
  unfolding recovery_checksum
  length-recovery_checksum x hl = length-take 5 _ ∙ rw (hl _) refl

  recovery_checksum_bytes :
      (x : Bytes)
      → ((y : Bytes) → All (λ b. b < 256) (p.sha256 y))
      → All (λ b. b < 256) (recovery_checksum p x)
  unfolding recovery_checksum
  recovery_checksum_bytes x hb = All-take 5 _ (hb _)

  -- A payload whose checksum is the one of its entropy is taken.
  checked_payload_lem :
      (entropy : Bytes)
      → length entropy ≡ 32
      → length (recovery_checksum p entropy) ≡ 5
      → checked_payload p (entropy ++ recovery_checksum p entropy) ≡ ok entropy
  unfolding checked_payload
  checked_payload_lem entropy h hc =
      let sum = recovery_checksum p entropy in
      let front : take 32 (entropy ++ sum) ≡ entropy = rw (sym h) (take-append entropy sum) in
      let back : drop 32 (entropy ++ sum) ≡ sum = rw (sym h) (drop-append entropy sum) in
      rw (length-append entropy sum, h, hc, front, back, bytes_eq_refl sum) refl

  -- The form of an entropy decodes to it.
  pub decode_recovery-encode_recovery :
      (entropy : Bytes)
      → length entropy ≡ 32
      → All (λ b. b < 256) entropy
      → ((x : Bytes) → length (p.sha256 x) ≡ 32)
      → ((x : Bytes) → All (λ b. b < 256) (p.sha256 x))
      → decode_recovery p (encode_recovery p entropy) ≡ ok entropy
  unfolding decode_recovery encode_recovery ungrouped
  decode_recovery-encode_recovery entropy h he hl hb =
      let sum = recovery_checksum p entropy in
      let payload = entropy ++ sum in
      let sized : length sum ≡ 5 = length-recovery_checksum entropy hl in
      let bytes : All (λ b. b < 256) payload =
        All-append entropy sum he (recovery_checksum_bytes entropy hb) in
      let sixty : length (base32_encode payload) ≡ 60 =
        length-base32_encode payload (length-append entropy sum ∙ omega (arith, h, sized)) in
      let form = first_group 11 (base32_encode payload) sixty (base32_encode-IsText payload) in
      rw (form.0, form.1, base32_decode-base32_encode payload bytes)
        (checked_payload_lem entropy h sized)
