-- ===== src/Kernel/Generator/Output.antt =====
-- What a generated password looks like.
use veyora.Prelude.{
  ℕ, zero, suc, ◌+◌, ◌%◌, ◌≤◌, ◌<◌, ◌≡◌, ◌⊎◌, inl, inr, refl, Bool, true, some, Option-cases,
  Bool-cases, Result-cases, [], ◌∷◌, ◌++◌, Result, ltb, leb, ◌==◌, length, get_elem?, all, any,
  arith, length-append,
}
use veyora.Kernel.Error.{KernelError}
use veyora.Kernel.Generator.{
  Chars, password, threshold, utf8_length, push_byte, generate_loop, generate_password,
}

abbrev pub member : ℕ → Chars → Bool
member c = any (λ a. a == c)

get_elem_member :
    (alphabet : Chars) (i c : ℕ) → get_elem? alphabet i ≡ some c → member c alphabet ≡ true
get_elem_member [] i c h = ground arith
get_elem_member (a ∷ alphabet) zero c h = ground arith
get_elem_member (a ∷ alphabet) (suc i) c h = ground (arith, get_elem_member alphabet i c)

all-append :
    (q : ℕ → Bool) (xs ys : Chars) → all q xs ≡ true → all q ys ≡ true → all q (xs ++ ys) ≡ true
all-append q [] ys h k = k
all-append q (x ∷ xs) ys h k = ground (arith, all-append q xs ys)

push_cases :
    (alphabet : Chars) (value : ℕ) (chars chars' : Chars)
    → push_byte alphabet value chars ≡ some chars'
    → (chars' ≡ chars)
      ⊎ ((c : ℕ) × (get_elem? alphabet (value % length alphabet) ≡ some c)
          × (chars' ≡ chars ++ c ∷ []))
unfolding push_byte
push_cases alphabet value chars chars' h =
    elim (Bool-cases (ltb value (threshold (length alphabet)))) [
      | inr e ↦ inl (ground arith)
      | inl e ↦ elim (Option-cases (get_elem? alphabet (value % length alphabet))) [
        | inl n ↦ absurd (ground arith)
        | inr (c, f) ↦ inr (c, f, ground arith)
      ]
    ]

abbrev pub from_alphabet : Chars → Chars → Bool
from_alphabet alphabet = all (λ c. member c alphabet)

push_byte_member :
    (alphabet : Chars) (value : ℕ) (chars chars' : Chars)
    → push_byte alphabet value chars ≡ some chars'
    → from_alphabet alphabet chars ≡ true
    → from_alphabet alphabet chars' ≡ true
push_byte_member alphabet value chars chars' h k = elim (push_cases alphabet value chars chars' h) [
  | inl e ↦ rw e k
  | inr (c, f, e) ↦ rw e (
      all-append (λ c. member c alphabet) chars (c ∷ []) k
        (rw (get_elem_member alphabet _ c f) refl))
]

-- One turn of the loop that ends in a password.
pub loop_cases :
    (draw : ℕ → Result KernelError ℕ) (alphabet : Chars) (size fuel i : ℕ) (chars cs : Chars)
    → generate_loop draw alphabet size (suc fuel) i chars ≡ password cs
    → ((size ≤ utf8_length chars) × (cs ≡ chars))
      ⊎ ((value : ℕ) × (chars' : Chars) × (utf8_length chars < size)
          × (push_byte alphabet value chars ≡ some chars')
          × (generate_loop draw alphabet size fuel (suc i) chars' ≡ password cs))
unfolding generate_loop
loop_cases draw alphabet size fuel i chars cs h = elim (Bool-cases (leb size (utf8_length chars))) [
  | inl e ↦ inl (ground arith, ground arith)
  | inr e ↦ elim (Result-cases (draw i)) [
    | inr (f, d) ↦ absurd (ground arith)
    | inl (value, d) ↦ elim (Option-cases (push_byte alphabet value chars)) [
      | inl n ↦ absurd (ground arith)
      | inr (chars', q) ↦ inr (value, chars', ground arith, q, ground arith)
    ]
  ]
]

loop_end :
    (draw : ℕ → Result KernelError ℕ) (alphabet : Chars) (size i : ℕ) (chars cs : Chars)
    → generate_loop draw alphabet size 0 i chars ≡ password cs
    → (size ≤ utf8_length chars) × (cs ≡ chars)
unfolding generate_loop
loop_end draw alphabet size i chars cs h = ground arith

pub utf8_length-append : (xs ys : Chars) → utf8_length (xs ++ ys) ≡ utf8_length xs + utf8_length ys
utf8_length-append [] ys = omega arith
utf8_length-append (x ∷ xs) ys = omega (arith, utf8_length-append xs ys)

-- Alphabets of one-byte characters.
abbrev pub is_ascii : Chars → Bool
is_ascii = all (λ c. ltb c 0x80)

member_ascii :
    (alphabet : Chars) (i c : ℕ)
    → is_ascii alphabet ≡ true
    → get_elem? alphabet i ≡ some c
    → c < 0x80
member_ascii [] i c h k = absurd (ground arith)
member_ascii (a ∷ alphabet) zero c h k = ground arith
member_ascii (a ∷ alphabet) (suc i) c h k = member_ascii alphabet i c (ground arith) k

-- What the loop keeps of its string over such an alphabet.
abbrev Kept : Chars → ℕ → Chars → Type 0
Kept alphabet size chars =
    (from_alphabet alphabet chars ≡ true)
    × (utf8_length chars ≡ length chars)
    × (utf8_length chars ≤ size)

push_byte-Kept :
    (alphabet : Chars) (value size : ℕ) (chars chars' : Chars)
    → is_ascii alphabet ≡ true
    → push_byte alphabet value chars ≡ some chars'
    → utf8_length chars < size
    → Kept alphabet size chars
    → Kept alphabet size chars'
push_byte-Kept alphabet value size chars chars' ascii h lt (k, l, m) =
    let (n, u) = counted (push_cases alphabet value chars chars' h) in
    (push_byte_member alphabet value chars chars' h k, n, u)
  where
    counted :
        (chars' ≡ chars)
          ⊎ ((c : ℕ) × (get_elem? alphabet (value % length alphabet) ≡ some c)
              × (chars' ≡ chars ++ c ∷ []))
        → (utf8_length chars' ≡ length chars') × (utf8_length chars' ≤ size)
    counted (inl e) = rw e (l, m)
    counted (inr (c, f, e)) =
        let small = member_ascii alphabet (value % length alphabet) c ascii f in
        let u = utf8_length-append chars (c ∷ []) in
        let n = length-append chars (c ∷ []) in rw e (ground arith, ground arith)

loop-Kept :
    (draw : ℕ → Result KernelError ℕ) (alphabet : Chars) (size fuel i : ℕ) (chars cs : Chars)
    → is_ascii alphabet ≡ true
    → generate_loop draw alphabet size fuel i chars ≡ password cs
    → Kept alphabet size chars
    → Kept alphabet size cs × (size ≤ utf8_length cs)
loop-Kept draw alphabet size zero i chars cs ascii h k =
    let (big, e) = loop_end draw alphabet size i chars cs h in rw e (k, big)
loop-Kept draw alphabet size (suc fuel) i chars cs ascii h k =
    elim (loop_cases draw alphabet size fuel i chars cs h) [
      | inl (big, e) ↦ rw e (k, big)
      | inr (value, chars', lt, q, rest) ↦
          loop-Kept draw alphabet size fuel (suc i) chars' cs ascii rest
            (push_byte-Kept alphabet value size chars chars' ascii q lt k)
    ]

looped :
    (draw : ℕ → Result KernelError ℕ) (alphabet : Chars) (size fuel : ℕ) (cs : Chars)
    → generate_password draw alphabet size fuel ≡ password cs
    → (8 ≤ size) × (size ≤ 128) × (generate_loop draw alphabet size fuel 0 [] ≡ password cs)
unfolding generate_password
looped draw alphabet size fuel cs h = ground arith

-- Over an alphabet of one-byte characters a generated password has exactly the number of characters asked
-- for, from 8 to 128, and each is a character of the alphabet.
pub generate_password_output :
    (draw : ℕ → Result KernelError ℕ) (alphabet : Chars) (size fuel : ℕ) (cs : Chars)
    → is_ascii alphabet ≡ true
    → generate_password draw alphabet size fuel ≡ password cs
    → (length cs ≡ size) × (8 ≤ size) × (size ≤ 128) × (from_alphabet alphabet cs ≡ true)
generate_password_output draw alphabet size fuel cs ascii h =
    let (least, most, run) = looped draw alphabet size fuel cs h in
    let ((k, l, m), big) =
      loop-Kept draw alphabet size fuel 0 [] cs ascii run (refl, refl, omega arith) in
    (omega arith, least, most, k)
