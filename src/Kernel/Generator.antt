-- ===== src/Kernel/Generator.antt =====
-- packages/security-kernel/crates/kernel-core/src/generator.rs: the password generator. The random
-- source is a parameter: the n-th draw of one byte, or its failure. The loop runs on fuel.
pub mod Output
pub mod Sampling
use veyora.Prelude.{
  is_empty, ℕ, zero, suc, ◌+◌, ◌-◌, ◌%◌, ◌^◌, Bytes, codes, Bool, not, ◌||◌, Option, none, some,
  List, [], ◌∷◌, ◌++◌, Result, ok, err, ltb, leb, if◌then◌else◌, length, get_elem?,
}
use veyora.Kernel.Error.{KernelError, invalid_secret_text, limit_exceeded}

abbrev pub min_length : ℕ
min_length = 8

abbrev pub max_length : ℕ
max_length = 128

-- A string of characters, each by its scalar value.
abbrev pub Chars : Type 0
Chars = List ℕ

-- `String::len`: the length in UTF-8.
abbrev pub utf8_width : ℕ → ℕ
utf8_width c = if ltb c 0x80 then 1 else if ltb c 0x800 then 2 else if ltb c 0x10000 then 3 else 4

abbrev pub utf8_length : Chars → ℕ
utf8_length [] = 0
utf8_length (c ∷ cs) = utf8_width c + utf8_length cs

pub data Outcome : Type 0 where
  -- `Ok` and `Err` of the function
  password : Chars → Outcome
  failed : KernelError → Outcome
  -- an index out of range
  panicked : Outcome
  -- not finished within the fuel
  running : Outcome

-- `256 - (256 % n)`
abbrev pub threshold : ℕ → ℕ
threshold n = 256 - 256 % n

-- What one byte does to the string: `none` for a panic of the index.
unfoldable pub push_byte : Chars → ℕ → Chars → Option Chars
push_byte alphabet value chars =
    let n = length alphabet in
    if ltb value (threshold n)
    then elim (get_elem? alphabet (value % n)) [ none ↦ none | some c ↦ some (chars ++ c ∷ []) ]
    else some chars

unfoldable pub generate_loop : (ℕ → Result KernelError ℕ) → Chars → ℕ → ℕ → ℕ → Chars → Outcome
generate_loop draw alphabet size zero i chars =
    if leb size (utf8_length chars) then password chars else running
generate_loop draw alphabet size (suc fuel) i chars =
    if leb size (utf8_length chars) then password chars else elim (draw i) [
      | err e ↦ failed e
      | ok value ↦ elim (push_byte alphabet value chars) [
        | none ↦ panicked
        | some chars' ↦ generate_loop draw alphabet size fuel (suc i) chars'
      ]
    ]

unfoldable pub generate_password : (ℕ → Result KernelError ℕ) → Chars → ℕ → ℕ → Outcome
generate_password draw alphabet size fuel =
    if is_empty alphabet
    then failed invalid_secret_text
    else if not (leb min_length size) || not (leb size max_length)
    then failed limit_exceeded
    else if leb (2 ^ 32) (length alphabet)
    then failed limit_exceeded
    else generate_loop draw alphabet size fuel 0 []

abbrev pub default_alphabet : Chars
default_alphabet =
    codes "ABCDEFGHIJKLMNOPQRSTUVWXYZ"
    ++ codes "abcdefghijklmnopqrstuvwxyz"
    ++ codes "0123456789"
    ++ codes "!@#$%^&*()-_=+[]{}:,.?"
