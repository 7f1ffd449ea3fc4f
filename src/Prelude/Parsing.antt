-- ===== src/Prelude/Parsing.antt =====
-- `str::trim` and `str::parse` for u64 on UTF-8 bytes, and the decimal digits of a number.
use Prim.Native.Nat.{ℕ, zero, suc, ◌+◌, ◌-◌, ◌*◌, ◌/◌, ◌%◌, ◌^◌, ◌<◌}
use mathlib.Core.Path.{◌≡◌, refl}
use mathlib.Core.Bool.{Bool, true, false, ◌&&◌, ◌||◌}
use mathlib.Core.Option.{Option, none, some}
use mathlib.Core.List.{[], ◌∷◌, ◌++◌}
use native.Mathlib.Omega.{arith}
use mathlib.Core.Logic.{inl, inr}
use veyora.Prelude.Tests.{Bool-cases, ltb, leb, ◌==◌, if◌then◌else◌}
use veyora.Prelude.Lists.{length, drop}
use veyora.Prelude.Text.{Bytes, byte_at, is_empty}

abbrev pub is_digit : ℕ → Bool
is_digit b = leb 48 b && leb b 57

-- The digits behind the number read so far, which stays below 2 ^ 64 at every step.
abbrev pub parse_digits : ℕ → Bytes → Option ℕ
parse_digits acc [] = some acc
parse_digits acc (b ∷ bs) =
    let next = acc * 10 + (b - 48) in
    let rest = parse_digits next bs in if is_digit b && ltb next (2 ^ 64) then rest else none

-- One plus sign may stand before the digits, of which there is at least one.
unfoldable pub parse_u64 : Bytes → Option ℕ
parse_u64 [] = none
parse_u64 (b ∷ []) = parse_digits 0 (b ∷ [])
parse_u64 (b ∷ c ∷ bs) = parse_digits 0 (if b == 43 then c ∷ bs else b ∷ c ∷ bs)

-- The white space of Unicode with two and with three bytes.
abbrev pub two_white : ℕ → ℕ → Bool
two_white b c = b == 0xc2 && (c == 0x85 || c == 0xa0)

abbrev pub three_white : ℕ → ℕ → ℕ → Bool
three_white b c d =
    (b == 0xe1 && c == 0x9a && d == 0x80)
    || (b == 0xe2
        && c == 0x80
        && ((leb 0x80 d && leb d 0x8a) || d == 0xa8 || d == 0xa9 || d == 0xaf))
    || (b == 0xe2 && c == 0x81 && d == 0x9f)
    || (b == 0xe3 && c == 0x80 && d == 0x80)

-- The bytes of a white character in front, 0 if there is none.
abbrev pub white_width : Bytes → ℕ
white_width [] = 0
white_width (b ∷ bs) =
    if (leb 9 b && leb b 13) || b == 32
    then 1
    else if two_white b (byte_at 0 bs)
    then 2
    else if three_white b (byte_at 0 bs) (byte_at 1 bs)
    then 3
    else 0

-- Each pass drops a byte at least, so the length is fuel enough.
abbrev pub trim_loop : ℕ → Bytes → Bytes
trim_loop zero bs = bs
trim_loop (suc fuel) bs =
    let rest = trim_loop fuel (drop (white_width bs) bs) in if white_width bs == 0 then bs else rest

abbrev pub trim_start : Bytes → Bytes
trim_start bs = trim_loop (length bs) bs

abbrev pub trim_end : Bytes → Bytes
trim_end [] = []
trim_end (b ∷ bs) =
    let rest = trim_end bs in if is_empty (trim_start (b ∷ bs)) then [] else b ∷ rest

unfoldable pub trim : Bytes → Bytes
trim bs = trim_end (trim_start bs)

-- A u64 has 20 digits at most.
unfoldable pub decimal : ℕ → ℕ → Bytes
decimal zero id = []
decimal (suc fuel) id =
    let front = decimal fuel (id / 10) in
    if ltb id 10 then (48 + id) ∷ [] else front ++ (48 + id % 10) ∷ []

abbrev next_digit : ℕ → Option ℕ → Option ℕ
next_digit b none = none
next_digit b (some acc) =
    if is_digit b && ltb (acc * 10 + (b - 48)) (2 ^ 64) then some (acc * 10 + (b - 48)) else none

parse_digits-append :
    (xs : Bytes) (b acc : ℕ) → parse_digits acc (xs ++ b ∷ []) ≡ next_digit b (parse_digits acc xs)
parse_digits-append [] b acc = refl
parse_digits-append (x ∷ xs) b acc =
    rw (parse_digits-append xs b (acc * 10 + (x - 48))) (ground arith)

last_digit : (id : ℕ) → id < 2 ^ 64 → next_digit (48 + id % 10) (some (id / 10)) ≡ some id
last_digit id small = ground arith

-- The digits of a u64 read as it, with fuel for all of them.
pub parse_digits-decimal :
    (fuel id : ℕ)
    → id < 10 ^ suc fuel
    → id < 2 ^ 64
    → parse_digits 0 (decimal (suc fuel) id) ≡ some id
unfolding decimal
parse_digits-decimal zero id bound small = ground arith
parse_digits-decimal (suc fuel) id bound small =
    let front = parse_digits-decimal fuel (id / 10) (omega arith) (omega arith) in
    elim (Bool-cases (ltb id 10)) [
      | inl one ↦ rw one (ground arith)
      | inr more ↦
          rw (more, parse_digits-append (decimal (suc fuel) (id / 10)) (48 + id % 10) 0, front)
            (last_digit id small)
    ]

first_digit :
    (b : ℕ) (bs : Bytes) (acc n : ℕ)
    → parse_digits acc (b ∷ bs) ≡ some n
    → (is_digit b ≡ true) × (parse_digits (acc * 10 + (b - 48)) bs ≡ some n)
first_digit b bs acc n h = ground arith

digit_stays : (b : ℕ) (bs : Bytes) → is_digit b ≡ true → trim_start (b ∷ bs) ≡ b ∷ bs
digit_stays b bs d = let width : (white_width (b ∷ bs) == 0) ≡ true = ground arith in rw width refl

digits_end : (bs : Bytes) (acc n : ℕ) → parse_digits acc bs ≡ some n → trim_end bs ≡ bs
digits_end [] acc n h = refl
digits_end (b ∷ bs) acc n h =
    let (d, rest) = first_digit b bs acc n h in
    rw (digit_stays b bs d, digits_end bs (acc * 10 + (b - 48)) n rest) refl

-- Digits hold no white space to trim, and parse as what they are read as.
pub trim_digits : (bs : Bytes) (n : ℕ) → parse_digits 0 bs ≡ some n → trim bs ≡ bs
unfolding trim
trim_digits [] n h = refl
trim_digits (b ∷ bs) n h =
    let (d, rest) = first_digit b bs 0 n h in
    rw (digit_stays b bs d, digits_end (b ∷ bs) 0 n h) refl

pub parse_u64_digits :
    (bs : Bytes) (n : ℕ) → is_empty bs ≡ false → parse_digits 0 bs ≡ some n → parse_u64 bs ≡ some n
unfolding parse_u64
parse_u64_digits [] n some_byte h = ground arith
parse_u64_digits (b ∷ []) n some_byte h = h
parse_u64_digits (b ∷ c ∷ bs) n some_byte h =
    let (d, rest) = first_digit b (c ∷ bs) 0 n h in
    let no_sign : (b == 43) ≡ false = ground arith in rw no_sign h

pub is_empty-decimal : (fuel id : ℕ) → is_empty (decimal (suc fuel) id) ≡ false
unfolding decimal
is_empty-decimal fuel id = elim (Bool-cases (ltb id 10)) [
  | inl one ↦ rw one refl
  | inr more ↦ rw more (filled (decimal fuel (id / 10)))
]
  where
    filled : (front : Bytes) → is_empty (front ++ (48 + id % 10) ∷ []) ≡ false
    filled [] = refl
    filled (b ∷ bs) = refl
