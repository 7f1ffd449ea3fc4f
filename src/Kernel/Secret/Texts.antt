-- ===== src/Kernel/Secret/Texts.antt =====
-- Which texts a secret can be: the UTF-8 of Unicode's scalar values.
use veyora.Prelude.{
  ℕ, ◌+◌, ◌/◌, ◌%◌, ◌≡◌, ◌<◌, ◌≤◌, ◌⊎◌, refl, Bytes, true, List, [], ◌∷◌, ◌++◌, suc, inl, inr, All,
  ok, err, is_empty, length, ◌||◌, Bool-cases, ltb→lt, some, ◌∙◌, ◌==◌, ltb, if◌then◌else◌, arith,
}
use veyora.Kernel.Error.{limit_exceeded}
use veyora.Kernel.Limits.{v1}
use veyora.Kernel.Secret.{lead, utf8_from, is_utf8, encode_opaque_secret}

-- The bytes of a character.
abbrev utf8 : ℕ → Bytes
utf8 c =
    if ltb c 0x80
    then c ∷ []
    else if ltb c 0x800
    then (0xc0 + c / 64) ∷ (0x80 + c % 64) ∷ []
    else if ltb c 0x10000
    then (0xe0 + c / 4096) ∷ (0x80 + c / 64 % 64) ∷ (0x80 + c % 64) ∷ []
    else (0xf0 + c / 262144) ∷ (0x80 + c / 4096 % 64) ∷ (0x80 + c / 64 % 64) ∷ (0x80 + c % 64) ∷ []

IsScalar : ℕ → Type 0
IsScalar c = (c < 0xd800) ⊎ ((0xdfff < c) × (c < 0x110000))

-- Between two characters the bounds do not matter.
between : (low high : ℕ) (bs : Bytes) → utf8_from 0 low high bs ≡ is_utf8 bs
unfolding is_utf8
between low high [] = refl
between low high (b ∷ bs) = refl

starts :
    (b need low high : ℕ) (bs : Bytes)
    → lead b ≡ some (need, low, high)
    → is_utf8 (b ∷ bs) ≡ utf8_from need low high bs
unfolding is_utf8
starts b need low high bs h = rw (h, utf8_from) refl

follows :
    (need low high b : ℕ) (bs : Bytes)
    → low ≤ b
    → b ≤ high
    → utf8_from (suc need) low high (b ∷ bs) ≡ utf8_from need 0x80 0xbf bs
follows need low high b bs l h = ground arith

module _ (low high : ℕ) (bs : Bytes) where
  two_bytes :
      (a b : ℕ)
      → lead a ≡ some (1, low, high)
      → low ≤ b
      → b ≤ high
      → is_utf8 (a ∷ b ∷ bs) ≡ is_utf8 bs
  two_bytes a b h l m =
      starts a 1 low high (b ∷ bs) h ∙ follows 0 low high b bs l m ∙ between 0x80 0xbf bs

  three_bytes :
      (a b c : ℕ)
      → lead a ≡ some (2, low, high)
      → low ≤ b
      → b ≤ high
      → 0x80 ≤ c
      → c ≤ 0xbf
      → is_utf8 (a ∷ b ∷ c ∷ bs) ≡ is_utf8 bs
  three_bytes a b c h l m n o =
      starts a 2 low high (b ∷ c ∷ bs) h
      ∙ follows 1 low high b (c ∷ bs) l m
      ∙ follows 0 0x80 0xbf c bs n o
      ∙ between 0x80 0xbf bs

  four_bytes :
      (a b c d : ℕ)
      → lead a ≡ some (3, low, high)
      → low ≤ b
      → b ≤ high
      → 0x80 ≤ c
      → c ≤ 0xbf
      → 0x80 ≤ d
      → d ≤ 0xbf
      → is_utf8 (a ∷ b ∷ c ∷ d ∷ bs) ≡ is_utf8 bs
  four_bytes a b c d h l m n o p q =
      starts a 3 low high (b ∷ c ∷ d ∷ bs) h
      ∙ follows 2 low high b (c ∷ d ∷ bs) l m
      ∙ follows 1 0x80 0xbf c (d ∷ bs) n o
      ∙ follows 0 0x80 0xbf d bs p q
      ∙ between 0x80 0xbf bs

abbrev low_of_three : ℕ → ℕ
low_of_three a = if a == 0xe0 then 0xa0 else 0x80

abbrev high_of_three : ℕ → ℕ
high_of_three a = if a == 0xed then 0x9f else 0xbf

abbrev low_of_four : ℕ → ℕ
low_of_four a = if a == 0xf0 then 0x90 else 0x80

abbrev high_of_four : ℕ → ℕ
high_of_four a = if a == 0xf4 then 0x8f else 0xbf

lead_three : (a : ℕ) → 0xe0 ≤ a → a ≤ 0xef → lead a ≡ some (2, low_of_three a, high_of_three a)
lead_three a l h = ground arith

lead_four : (a : ℕ) → 0xf0 ≤ a → a ≤ 0xf4 → lead a ≡ some (3, low_of_four a, high_of_four a)
lead_four a l h = ground arith

one_lem : (c : ℕ) (bs : Bytes) → c < 0x80 → is_utf8 (c ∷ bs) ≡ is_utf8 bs
one_lem c bs h = starts c 0 0 0 bs (ground arith) ∙ between 0 0 bs

two_lem :
    (c : ℕ) (bs : Bytes)
    → 0x80 ≤ c
    → c < 0x800
    → is_utf8 ((0xc0 + c / 64) ∷ (0x80 + c % 64) ∷ bs) ≡ is_utf8 bs
two_lem c bs l h =
    two_bytes 0x80 0xbf bs (0xc0 + c / 64) (0x80 + c % 64) (ground arith) (omega arith)
      (omega arith)

three_low : (c : ℕ) → 0x800 ≤ c → c < 0x10000 → low_of_three (0xe0 + c / 4096) ≤ 0x80 + c / 64 % 64
three_low c l h = ground arith

three_high :
    (c : ℕ) → IsScalar c → c < 0x10000 → 0x80 + c / 64 % 64 ≤ high_of_three (0xe0 + c / 4096)
unfolding IsScalar
three_high c (inl l) h = ground arith
three_high c (inr r) h = ground arith

three_lem :
    (c : ℕ) (bs : Bytes)
    → IsScalar c
    → 0x800 ≤ c
    → c < 0x10000
    → is_utf8 ((0xe0 + c / 4096) ∷ (0x80 + c / 64 % 64) ∷ (0x80 + c % 64) ∷ bs) ≡ is_utf8 bs
three_lem c bs i l h =
    let a = 0xe0 + c / 4096 in
    three_bytes (low_of_three a) (high_of_three a) bs a (0x80 + c / 64 % 64) (0x80 + c % 64)
      (lead_three a (omega arith) (omega arith)) (three_low c l h) (three_high c i h) (omega arith)
      (omega arith)

four_low :
    (c : ℕ) → 0x10000 ≤ c → c < 0x110000 → low_of_four (0xf0 + c / 262144) ≤ 0x80 + c / 4096 % 64
four_low c l h = ground arith

four_high : (c : ℕ) → c < 0x110000 → 0x80 + c / 4096 % 64 ≤ high_of_four (0xf0 + c / 262144)
four_high c h = ground arith

four_lem :
    (c : ℕ) (bs : Bytes)
    → 0x10000 ≤ c
    → c < 0x110000
    → is_utf8
        ((0xf0 + c / 262144) ∷ (0x80 + c / 4096 % 64) ∷ (0x80 + c / 64 % 64) ∷ (0x80 + c % 64) ∷ bs)
      ≡ is_utf8 bs
four_lem c bs l h =
    let a = 0xf0 + c / 262144 in
    four_bytes (low_of_four a) (high_of_four a) bs a (0x80 + c / 4096 % 64) (0x80 + c / 64 % 64)
      (0x80 + c % 64) (lead_four a (omega arith) (omega arith)) (four_low c l h) (four_high c h)
      (omega arith) (omega arith) (omega arith) (omega arith)

scalar_lem : (c : ℕ) (bs : Bytes) → IsScalar c → is_utf8 (utf8 c ++ bs) ≡ is_utf8 bs
unfolding IsScalar
scalar_lem c bs i = elim (Bool-cases (ltb c 0x80)) [
  | inl e ↦ rw e (one_lem c bs (ltb→lt c 0x80 e))
  | inr a ↦ elim (Bool-cases (ltb c 0x800)) [
    | inl e ↦ rw (a, e) (two_lem c bs (ground arith) (ltb→lt c 0x800 e))
    | inr b ↦ elim (Bool-cases (ltb c 0x10000)) [
      | inl e ↦ rw (a, b, e) (three_lem c bs i (ground arith) (ltb→lt c 0x10000 e))
      | inr d ↦ rw (a, b, d) (four_lem c bs (ground arith) (ground (arith, i)))
    ]
  ]
]

abbrev utf8_text : List ℕ → Bytes
utf8_text [] = []
utf8_text (c ∷ cs) = utf8 c ++ utf8_text cs

text_lem : (cs : List ℕ) → All IsScalar cs → is_utf8 (utf8_text cs) ≡ true
unfolding is_utf8
text_lem [] all = refl
text_lem (c ∷ cs) (i, rest) = scalar_lem c (utf8_text cs) i ∙ text_lem cs rest

-- The UTF-8 of scalar values is a secret unless it is empty or over the limit, and then it is refused
-- by its length.
encode_opaque_secret_lem :
    (cs : List ℕ)
    → All IsScalar cs
    → encode_opaque_secret (utf8_text cs) ≡ (
        if is_empty (utf8_text cs) || ltb v1.max_secret_text_bytes (length (utf8_text cs))
        then err limit_exceeded
        else ok (utf8_text cs))
unfolding encode_opaque_secret
encode_opaque_secret_lem cs i = rw (text_lem cs i) refl
