-- ===== src/Kernel/Recovery/Base32.antt =====
-- The base-32 text of recovery.rs decodes to the bytes that it encodes.
use veyora.Prelude.{
  ℕ, zero, suc, ◌+◌, ◌-◌, ◌*◌, ◌/◌, ◌%◌, ◌^◌, ◌<◌, ◌≡◌, refl, ap, ◌∙◌, Bytes, Bool, true, false,
  ◌&&◌, Option, none, some, [], ◌∷◌, Result, ok, ◌>>=◌, leb, ◌==◌, All, arith, Bool-cases, inl, inr,
}
use veyora.Kernel.Error.{KernelError}
use veyora.Kernel.Recovery.{
  shift, char_at, encode_bytes, base32_encode, base32_value, decode_text, base32_decode,
}

-- A test holds at every number below a bound.
abbrev all_below : ℕ → (ℕ → Bool) → Bool
all_below zero p = true
all_below (suc n) p = p n && all_below n p

below : (p : ℕ → Bool) (n : ℕ) → all_below n p ≡ true → (i : ℕ) → i < n → p i ≡ true
below p zero h i lt = absurd (omega (arith, lt))
below p (suc n) h i lt = elim (Bool-cases (i == n)) [
  | inl e ↦ let at : i ≡ n = ground (arith, e) in rw at (ground (arith, h))
  | inr e ↦ below p n (ground (arith, h)) i (ground (arith, e, lt))
]

abbrev reads_back : ℕ → Bool
reads_back index = elim (base32_value (char_at index)) [ none ↦ false | some v ↦ v == index ]

-- Every index of the alphabet reads back.
all_read_back : all_below 32 reads_back ≡ true
unfolding base32_value char_at
all_read_back = refl

pub base32_value-char_at : (index : ℕ) → index < 32 → base32_value (char_at index) ≡ some index
base32_value-char_at index h =
    read (base32_value (char_at index)) (below reads_back 32 all_read_back index h)
  where
    read : (o : Option ℕ) → (elim o [ none ↦ false | some v ↦ v == index ]) ≡ true → o ≡ some index
    read none e = cc
    read (some v) e = ground (arith, e)

-- A character that does not complete a byte, and one that does.
decode_short :
    (index : ℕ) (text : Bytes) (buffer bits : ℕ)
    → index < 32
    → leb 8 (bits + 5) ≡ false
    → decode_text (char_at index ∷ text) buffer bits
      ≡ decode_text text (shift buffer 5 + index) (bits + 5)
unfolding decode_text
decode_short index text buffer bits h e = rw (base32_value-char_at index h) (rw e refl)

decode_full :
    (index : ℕ) (text : Bytes) (buffer bits : ℕ)
    → index < 32
    → leb 8 (bits + 5) ≡ true
    → decode_text (char_at index ∷ text) buffer bits ≡ (
        decode_text text (shift buffer 5 + index) (bits + 5 - 8) >>= λ out.
        ok ((shift buffer 5 + index) / 2 ^ (bits + 5 - 8) % 256 ∷ out))
unfolding decode_text
decode_full index text buffer bits h e = rw (base32_value-char_at index h) (rw e refl)

-- The bits that the encoder and the decoder hold between two bytes.
data Phase : Type 0 where
  none_held three_five one_seven four_four two_six : Phase

abbrev encoder_bits : Phase → ℕ
encoder_bits none_held = 0
encoder_bits three_five = 3
encoder_bits one_seven = 1
encoder_bits four_four = 4
encoder_bits two_six = 2

abbrev decoder_bits : Phase → ℕ
decoder_bits none_held = 0
decoder_bits three_five = 5
decoder_bits one_seven = 7
decoder_bits four_four = 4
decoder_bits two_six = 6

-- What is still to come out of the decoder: the byte that the two hold between them, and the rest.
abbrev to_come : Phase → ℕ → ℕ → Bytes → Bytes
to_come none_held eb db bytes = bytes
to_come three_five eb db bytes = (db % 2 ^ 5 * 2 ^ 3 + eb % 2 ^ 3) ∷ bytes
to_come one_seven eb db bytes = (db % 2 ^ 7 * 2 ^ 1 + eb % 2 ^ 1) ∷ bytes
to_come four_four eb db bytes = (db % 2 ^ 4 * 2 ^ 4 + eb % 2 ^ 4) ∷ bytes
to_come two_six eb db bytes = (db % 2 ^ 6 * 2 ^ 2 + eb % 2 ^ 2) ∷ bytes

one_more :
    (x y : ℕ) (r : Result KernelError Bytes) (bytes : Bytes)
    → x ≡ y
    → r ≡ ok bytes
    → (r >>= λ out. ok (x ∷ out)) ≡ ok (y ∷ bytes)
one_more x y r bytes e h = rw (h, e) refl

ends : (buffer bits : ℕ) → buffer % 2 ^ bits ≡ 0 → decode_text [] buffer bits ≡ ok []
unfolding decode_text
ends buffer bits h = ground (arith, h)

abbrev done : Bytes → Result KernelError Bytes
done bytes = ok bytes

next_byte : (x y : ℕ) (bytes : Bytes) → x ≡ y → done (x ∷ bytes) ≡ done (y ∷ bytes)
next_byte x y bytes e = ap (λ v. done (v ∷ bytes)) e

-- From a common place in the stream, the decoder has the bytes that the encoder has still to write.
decoded :
    (ph : Phase) (bytes : Bytes) (eb db : ℕ)
    → All (λ b. b < 256) bytes
    → decode_text (encode_bytes bytes eb (encoder_bits ph)) db (decoder_bits ph)
      ≡ ok (to_come ph eb db bytes)
unfolding encode_bytes
decoded none_held [] eb db h = ends db 0 (omega arith)
decoded three_five [] eb db h =
    decode_full (shift eb 2 % 32) [] db 5 (omega arith) refl
    ∙ one_more _ _ _ [] (omega arith) (ends (shift db 5 + shift eb 2 % 32) 2 (omega arith))
decoded one_seven [] eb db h =
    decode_full (shift eb 4 % 32) [] db 7 (omega arith) refl
    ∙ one_more _ _ _ [] (omega arith) (ends (shift db 5 + shift eb 4 % 32) 4 (omega arith))
decoded four_four [] eb db h =
    decode_full (shift eb 1 % 32) [] db 4 (omega arith) refl
    ∙ one_more _ _ _ [] (omega arith) (ends (shift db 5 + shift eb 1 % 32) 1 (omega arith))
decoded two_six [] eb db h =
    decode_full (shift eb 3 % 32) [] db 6 (omega arith) refl
    ∙ one_more _ _ _ [] (omega arith) (ends (shift db 5 + shift eb 3 % 32) 3 (omega arith))
decoded none_held (b ∷ bytes) eb db (h, hs) =
    let eb' = shift eb 8 + b in
    let i = eb' / 2 ^ 3 % 32 in
    decode_short i (encode_bytes bytes eb' 3) db 0 (omega arith) refl
    ∙ decoded three_five bytes eb' (shift db 5 + i) hs
    ∙ next_byte _ b bytes (omega (arith, h))
decoded three_five (b ∷ bytes) eb db (h, hs) =
    let eb' = shift eb 8 + b in
    let i = eb' / 2 ^ 6 % 32 in
    let j = eb' / 2 ^ 1 % 32 in
    let db' = shift db 5 + i in
    decode_full i (char_at j ∷ encode_bytes bytes eb' 1) db 5 (omega arith) refl
    ∙ one_more _ _ _ (b ∷ bytes) (omega (arith, h)) (
        decode_short j (encode_bytes bytes eb' 1) db' 2 (omega arith) refl
        ∙ decoded one_seven bytes eb' (shift db' 5 + j) hs
        ∙ next_byte _ b bytes (omega (arith, h)))
decoded one_seven (b ∷ bytes) eb db (h, hs) =
    let eb' = shift eb 8 + b in
    let i = eb' / 2 ^ 4 % 32 in
    decode_full i (encode_bytes bytes eb' 4) db 7 (omega arith) refl
    ∙ one_more _ _ _ (b ∷ bytes) (omega (arith, h))
        (decoded four_four bytes eb' (shift db 5 + i) hs ∙ next_byte _ b bytes (omega (arith, h)))
decoded four_four (b ∷ bytes) eb db (h, hs) =
    let eb' = shift eb 8 + b in
    let i = eb' / 2 ^ 7 % 32 in
    let j = eb' / 2 ^ 2 % 32 in
    let db' = shift db 5 + i in
    decode_full i (char_at j ∷ encode_bytes bytes eb' 2) db 4 (omega arith) refl
    ∙ one_more _ _ _ (b ∷ bytes) (omega (arith, h)) (
        decode_short j (encode_bytes bytes eb' 2) db' 1 (omega arith) refl
        ∙ decoded two_six bytes eb' (shift db' 5 + j) hs
        ∙ next_byte _ b bytes (omega (arith, h)))
decoded two_six (b ∷ bytes) eb db (h, hs) =
    let eb' = shift eb 8 + b in
    let i = eb' / 2 ^ 5 % 32 in
    let j = eb' / 2 ^ 0 % 32 in
    let db' = shift db 5 + i in
    decode_full i (char_at j ∷ encode_bytes bytes eb' 0) db 6 (omega arith) refl
    ∙ one_more _ _ _ (b ∷ bytes) (omega (arith, h)) (
        decode_full j (encode_bytes bytes eb' 0) db' 3 (omega arith) refl
        ∙ one_more _ b _ bytes (omega (arith, h))
            (decoded none_held bytes eb' (shift db' 5 + j) hs))

-- A text that was encoded from bytes decodes to them.
pub base32_decode-base32_encode :
    (bytes : Bytes) → All (λ b. b < 256) bytes → base32_decode (base32_encode bytes) ≡ ok bytes
unfolding base32_decode base32_encode
base32_decode-base32_encode bytes h = decoded none_held bytes 0 0 h
