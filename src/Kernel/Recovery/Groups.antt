-- ===== src/Kernel/Recovery/Groups.antt =====
-- The grouping of recovery.rs: hyphens go in and come out, and how long the text and the form are.
use veyora.Prelude.{
  ℕ, zero, suc, ◌+◌, ◌-◌, ◌*◌, ◌/◌, ◌%◌, ◌≤◌, ◌<◌, ◌≡◌, refl, Bytes, Bool, true, false, Option,
  none, some, [], ◌∷◌, ◌++◌, Result, ok, err, ◌>>=◌, ltb, leb, ◌==◌, length, length-append, All,
  arith, Bool-cases, inl, inr,
}
use veyora.Kernel.Error.{KernelError, invalid_encoding}
use veyora.Kernel.Recovery.{shift, char_at, emit, encode_bytes, base32_value, ungroup}
use veyora.Kernel.Recovery.Base32.{base32_value-char_at}

abbrev pub is_valued : Option ℕ → Bool
is_valued none = false
is_valued (some v) = true

-- Every character is one of the alphabet.
abbrev pub IsText : Bytes → Type 0
IsText = All (λ c. is_valued (base32_value c) ≡ true)

char_at-IsText : (index : ℕ) → index < 32 → is_valued (base32_value (char_at index)) ≡ true
char_at-IsText index h = rw (base32_value-char_at index h) refl

pub IsText-append : (xs ys : Bytes) → IsText xs → IsText ys → IsText (xs ++ ys)
IsText-append [] ys hx hy = hy
IsText-append (x ∷ xs) ys (h, hx) hy = (h, IsText-append xs ys hx hy)

emit-IsText : (fuel buffer bits : ℕ) → IsText (emit fuel buffer bits).0
emit-IsText zero buffer bits = tt
emit-IsText (suc fuel) buffer bits = elim (Bool-cases (leb 5 bits)) [
  | inl e ↦ rw e (char_at-IsText _ (omega arith), emit-IsText fuel buffer (bits - 5))
  | inr e ↦ rw e tt
]

pub encode_bytes-IsText :
    (bytes : Bytes) (buffer bits : ℕ) → IsText (encode_bytes bytes buffer bits)
unfolding encode_bytes
encode_bytes-IsText [] buffer bits = elim (Bool-cases (ltb 0 bits)) [
  | inl e ↦ rw e (char_at-IsText _ (omega arith), tt)
  | inr e ↦ rw e tt
]
encode_bytes-IsText (b ∷ bytes) buffer bits =
    IsText-append (emit (bits + 8) (shift buffer 8 + b) (bits + 8)).0 _
      (emit-IsText (bits + 8) (shift buffer 8 + b) (bits + 8))
      (encode_bytes-IsText bytes (shift buffer 8 + b) _)

-- The passes over `bits` bits give one character for each five of them.
emit_counts :
    (fuel buffer bits : ℕ)
    → bits ≤ fuel
    → let (chars, left) = emit fuel buffer bits in (length chars ≡ bits / 5) × (left ≡ bits % 5)
emit_counts zero buffer bits h = (omega (arith, h), omega (arith, h))
emit_counts (suc fuel) buffer bits h = elim (Bool-cases (leb 5 bits)) [
  | inl e ↦
      let more : 5 ≤ bits = ground (arith, e) in
      let p = emit_counts fuel buffer (bits - 5) (omega (arith, h, more)) in
      rw e (omega (arith, p.0, more), omega (arith, p.1, more))
  | inr e ↦ let few : bits < 5 = ground (arith, e) in rw e (omega (arith, few), omega (arith, few))
]

pub length-encode_bytes :
    (bytes : Bytes) (buffer bits : ℕ)
    → bits < 5
    → length (encode_bytes bytes buffer bits) ≡ (8 * length bytes + bits + 4) / 5
unfolding encode_bytes
length-encode_bytes [] buffer bits h = elim (Bool-cases (ltb 0 bits)) [
  | inl e ↦ let some_bits : 0 < bits = ground (arith, e) in rw e (omega (arith, some_bits, h))
  | inr e ↦ let no_bits : bits ≡ 0 = ground (arith, e) in rw e (omega (arith, no_bits))
]
length-encode_bytes (b ∷ bytes) buffer bits h =
    let buffer' = shift buffer 8 + b in
    let p = emit_counts (bits + 8) buffer' (bits + 8) (omega arith) in
    let left = (emit (bits + 8) buffer' (bits + 8)).1 in
    let rest = length-encode_bytes bytes buffer' left (omega (arith, p.1)) in
    rw (length-append (emit (bits + 8) buffer' (bits + 8)).0 (encode_bytes bytes buffer' left))
      (omega (arith, p.0, p.1, rest, h))

-- A character within a group, and the hyphen behind one.
char_step :
    (c : ℕ) (rest text : Bytes) (g w g' w' : ℕ)
    → is_valued (base32_value c) ≡ true
    → (w == 5) ≡ false
    → ungroup rest g (w + 1) ≡ ok (text, g', w')
    → ungroup (c ∷ rest) g w ≡ ok (c ∷ text, g', w')
unfolding ungroup
char_step c rest text g w g' w' v e h = rw e (with_value (base32_value c) v)
  where
    with_value :
        (o : Option ℕ)
        → is_valued o ≡ true
        → ◌≡◌ {A = Result KernelError (Bytes × ℕ × ℕ)}
            (elim o [
              | none ↦ err invalid_encoding
              | some x ↦ ungroup rest g (w + 1) >>= λ (t, a, b). ok (c ∷ t, a, b)
            ])
            (ok (c ∷ text, g', w'))
    with_value none z = cc
    with_value (some x) z = rw h refl

pub hyphen_step : (rest : Bytes) (g : ℕ) → ungroup (45 ∷ rest) g 5 ≡ ungroup rest (g + 1) 0
unfolding ungroup
hyphen_step rest g = refl

pub group_step :
    (a b c d e : ℕ) (rest text : Bytes) (g g' w' : ℕ)
    → IsText (a ∷ b ∷ c ∷ d ∷ e ∷ text)
    → ungroup rest g 5 ≡ ok (text, g', w')
    → ungroup (a ∷ b ∷ c ∷ d ∷ e ∷ rest) g 0 ≡ ok (a ∷ b ∷ c ∷ d ∷ e ∷ text, g', w')
group_step a b c d e rest text g g' w' (ha, (hb, (hc, (hd, (he, ht))))) h =
    char_step a _ _ g 0 g' w' ha refl (
      char_step b _ _ g 1 g' w' hb refl (
        char_step c _ _ g 2 g' w' hc refl
          (char_step d _ _ g 3 g' w' hd refl (char_step e rest text g 4 g' w' he refl h))))
