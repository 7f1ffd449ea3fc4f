-- ===== src/Kernel/Generator/Sampling.antt =====
-- The loop of the generator: when it ends, and when it never does.
use native.Mathlib.Nat.{mod-eq_of_lt}
use native.Mathlib.Omega.{mod_fact}
use veyora.Prelude.{
  ℕ, zero, suc, ◌+◌, ◌%◌, ◌^◌, ◌≤◌, ◌<◌, ◌≡◌, inl, inr, refl, some, Bool-cases, [], ◌∷◌, ◌++◌,
  Result, ok, err, ltb, leb, if◌then◌else◌, length, get_elem?, arith,
}
use veyora.Kernel.Error.{KernelError}
use veyora.Kernel.Generator.{
  Chars, password, running, threshold, utf8_length, push_byte, generate_loop, generate_password,
}
use veyora.Kernel.Generator.Output.{utf8_length-append}

-- The draws of `fuel` bytes from the i-th on that are below the threshold.
abbrev pub accepted : (ℕ → Result KernelError ℕ) → ℕ → ℕ → ℕ → ℕ
accepted draw limit zero i = 0
accepted draw limit (suc fuel) i =
    let rest = accepted draw limit fuel (suc i) in
    elim (draw i) [ err e ↦ rest | ok value ↦ if ltb value limit then suc rest else rest ]

in_range : (cs : Chars) (i : ℕ) → i < length cs → (c : ℕ) × (get_elem? cs i ≡ some c)
in_range [] i h = absurd (omega arith)
in_range (c ∷ cs) zero h = (c, refl)
in_range (c ∷ cs) (suc i) h = in_range cs i (omega arith)

mod_below : (a n : ℕ) → 0 < n → a % n < n
mod_below a zero h = absurd (omega arith)
mod_below a (suc k) h = mod_fact a k

push_accepted :
    (alphabet : Chars) (value : ℕ) (chars : Chars)
    → 0 < length alphabet
    → (chars' : Chars) × (push_byte alphabet value chars ≡ some chars')
      × ((if ltb value (threshold (length alphabet))
            then suc (utf8_length chars)
            else utf8_length chars)
          ≤ utf8_length chars')
unfolding push_byte
push_accepted alphabet value chars h = elim (Bool-cases (ltb value (threshold (length alphabet)))) [
  | inr e ↦ (chars, ground arith, ground arith)
  | inl e ↦
      let (c, f) =
        in_range alphabet (value % length alphabet) (mod_below value (length alphabet) h) in
      (chars ++ c ∷ [], ground arith, ground (arith, utf8_length-append chars (c ∷ [])))
]

loop_returns :
    (draw : ℕ → Result KernelError ℕ) (alphabet : Chars) (size fuel i : ℕ) (chars : Chars)
    → 0 < length alphabet
    → ((j : ℕ) → (b : ℕ) × (draw j ≡ ok b))
    → size ≤ utf8_length chars + accepted draw (threshold (length alphabet)) fuel i
    → (cs : Chars) × (generate_loop draw alphabet size fuel i chars ≡ password cs)
unfolding generate_loop
loop_returns draw alphabet size zero i chars h total enough = (chars, ground arith)
loop_returns draw alphabet size (suc fuel) i chars h total enough =
    elim (Bool-cases (leb size (utf8_length chars))) [
      | inl e ↦ (chars, rw e refl)
      | inr e ↦
          let (b, d) = total i in
          let (chars', q, longer) = push_accepted alphabet b chars h in
          let (cs, rest) =
            loop_returns draw alphabet size fuel (suc i) chars' h total (ground arith) in
          (cs, ground arith)
    ]

-- The generator returns a password as soon as enough of the bytes drawn are accepted: for a source that does
-- not fail, an alphabet that is not empty, a length from 8 to 128, and as many draws as hold that many
-- bytes below the threshold.
pub generate_password_returns :
    (draw : ℕ → Result KernelError ℕ) (alphabet : Chars) (size fuel : ℕ)
    → 0 < length alphabet
    → length alphabet < 2 ^ 32
    → 8 ≤ size
    → size ≤ 128
    → ((j : ℕ) → (b : ℕ) × (draw j ≡ ok b))
    → size ≤ accepted draw (threshold (length alphabet)) fuel 0
    → (cs : Chars) × (generate_password draw alphabet size fuel ≡ password cs)
unfolding generate_password
generate_password_returns draw [] size fuel some_char small least most total enough =
    absurd (omega arith)
generate_password_returns draw (a ∷ alphabet) size fuel some_char small least most total enough =
    let (cs, run) = loop_returns draw (a ∷ alphabet) size fuel 0 [] some_char total (omega arith) in
    (cs, ground arith)

wide_threshold : (n : ℕ) → 256 < n → threshold n ≡ 0
wide_threshold n h = let e : 256 % n ≡ 256 = mod-eq_of_lt h in omega arith

loop_stuck :
    (draw : ℕ → Result KernelError ℕ) (alphabet : Chars) (size fuel i : ℕ)
    → 256 < length alphabet
    → 0 < size
    → ((j : ℕ) → (b : ℕ) × (draw j ≡ ok b))
    → generate_loop draw alphabet size fuel i [] ≡ running
unfolding generate_loop push_byte
loop_stuck draw alphabet size zero i wide some_char total = ground arith
loop_stuck draw alphabet size (suc fuel) i wide some_char total =
    let (b, d) = total i in
    let none_below = wide_threshold (length alphabet) wide in
    let rest = loop_stuck draw alphabet size fuel (suc i) wide some_char total in ground arith

-- Over an alphabet of more than 256 characters, of a length in range, the generator never ends: however
-- many bytes it draws from a source that does not fail, it is still running.
pub generate_password_endless :
    (draw : ℕ → Result KernelError ℕ) (alphabet : Chars) (size fuel : ℕ)
    → 256 < length alphabet
    → length alphabet < 2 ^ 32
    → 8 ≤ size
    → size ≤ 128
    → ((j : ℕ) → (b : ℕ) × (draw j ≡ ok b))
    → generate_password draw alphabet size fuel ≡ running
unfolding generate_password
generate_password_endless draw [] size fuel wide small least most total = absurd (omega arith)
generate_password_endless draw (a ∷ alphabet) size fuel wide small least most total =
    let run = loop_stuck draw (a ∷ alphabet) size fuel 0 wide (omega arith) total in ground arith
