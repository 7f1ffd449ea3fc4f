-- ===== src/Prelude/Text.antt =====
-- Texts and byte strings as lists of bytes; Rust compares both byte by byte.
use Prim.Native.Nat.{ℕ, zero, suc}
use Prim.Native.Char.{code}
use Prim.Native.String.{String}
use mathlib.Core.Path.{◌≡◌, refl}
use mathlib.Core.Logic.{◌↔◌}
use mathlib.Core.Bool.{Bool, true, false, ◌&&◌, ◌||◌}
use mathlib.Core.List.{List, [], ◌∷◌}
use native.Mathlib.Omega.{arith}
use veyora.Prelude.Tests.{ltb, ◌==◌}

abbrev pub Bytes : Type 0
Bytes = List ℕ

-- The bytes of an ASCII literal.
abbrev pub codes : String → Bytes
codes String.[] = []
codes (String.◌∷◌ c s) = code c ∷ codes s

-- `is_empty` of a text.
abbrev pub is_empty : Bytes → Bool
is_empty [] = true
is_empty (b ∷ bs) = false

-- The byte at a place, 0 past the end.
abbrev pub byte_at : ℕ → Bytes → ℕ
byte_at k [] = 0
byte_at zero (x ∷ xs) = x
byte_at (suc k) (x ∷ xs) = byte_at k xs

unfoldable pub bytes_eq : Bytes → Bytes → Bool
bytes_eq [] [] = true
bytes_eq [] (y ∷ ys) = false
bytes_eq (x ∷ xs) [] = false
bytes_eq (x ∷ xs) (y ∷ ys) = x == y && bytes_eq xs ys

pub bytes_eq_iff : (a b : Bytes) → (bytes_eq a b ≡ true) ↔ (a ≡ b)
unfolding bytes_eq
bytes_eq_iff [] [] = ground arith
bytes_eq_iff [] (y ∷ ys) = ground arith
bytes_eq_iff (x ∷ xs) [] = ground arith
bytes_eq_iff (x ∷ xs) (y ∷ ys) = ground (arith, bytes_eq_iff xs ys)

pub bytes_eq_refl : (a : Bytes) → bytes_eq a a ≡ true
bytes_eq_refl a = (bytes_eq_iff a a).1 refl

-- Lexicographic order, as `Ord` of `str` and of `[u8]`.
unfoldable pub bytes_lt : Bytes → Bytes → Bool
bytes_lt [] [] = false
bytes_lt [] (y ∷ ys) = true
bytes_lt (x ∷ xs) [] = false
bytes_lt (x ∷ xs) (y ∷ ys) = ltb x y || (x == y && bytes_lt xs ys)

pub bytes_lt_trans :
    (a b c : Bytes) → bytes_lt a b ≡ true → bytes_lt b c ≡ true → bytes_lt a c ≡ true
unfolding bytes_lt
bytes_lt_trans [] [] c p q = ground arith
bytes_lt_trans [] (y ∷ ys) [] p q = ground arith
bytes_lt_trans [] (y ∷ ys) (z ∷ zs) p q = refl
bytes_lt_trans (x ∷ xs) [] c p q = ground arith
bytes_lt_trans (x ∷ xs) (y ∷ ys) [] p q = ground arith
bytes_lt_trans (x ∷ xs) (y ∷ ys) (z ∷ zs) p q = ground (arith, bytes_lt_trans xs ys zs)

pub bytes_lt_irrefl : (a : Bytes) → bytes_lt a a ≡ false
unfolding bytes_lt
bytes_lt_irrefl [] = refl
bytes_lt_irrefl (x ∷ xs) = ground (arith, bytes_lt_irrefl xs)

pub bytes_lt_total : (a b : Bytes) → bytes_lt a b ≡ false → bytes_lt b a ≡ false → a ≡ b
unfolding bytes_lt
bytes_lt_total [] [] p q = refl
bytes_lt_total [] (y ∷ ys) p q = ground arith
bytes_lt_total (x ∷ xs) [] p q = ground arith
bytes_lt_total (x ∷ xs) (y ∷ ys) p q = ground (arith, bytes_lt_total xs ys)

pub bytes_ge_trans :
    (a b c : Bytes) → bytes_lt a b ≡ false → bytes_lt b c ≡ false → bytes_lt a c ≡ false
unfolding bytes_lt
bytes_ge_trans [] [] c p q = q
bytes_ge_trans [] (y ∷ ys) c p q = ground arith
bytes_ge_trans (x ∷ xs) b [] p q = refl
bytes_ge_trans (x ∷ xs) [] (z ∷ zs) p q = ground arith
bytes_ge_trans (x ∷ xs) (y ∷ ys) (z ∷ zs) p q = ground (arith, bytes_ge_trans xs ys zs)
