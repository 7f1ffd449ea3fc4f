-- ===== src/Api/Access/Token.antt =====
-- The constant-time comparison against equality.
use Prim.Native.Nat.{bit_or, bit_xor}
use mathlib.Core.Path.{subst}
use veyora.Prelude.{
  ℕ, zero, suc, ◌≡◌, ◌≢◌, ◌<◌, ◌↔◌, refl, ap, Bytes, byte_at, drop, Bool, true, false, not, ◌&&◌,
  Option, none, some, Option-cases, inl, inr, sym, ◌∙◌, ◌++◌, codes, bytes_eq, [], ◌∷◌, ltb, ◌==◌,
  if◌then◌else◌, length, arith, All,
}
use veyora.Api.Access.{differences, constant_time_eq, bearer_token, strip_prefix, auth_middleware}

abbrev row_ok : (ℕ → Bool) → ℕ → Bool
row_ok test zero = true
row_ok test (suc n) = if test n then row_ok test n else false

row_ok_sound : (test : ℕ → Bool) (k n : ℕ) → row_ok test k ≡ true → n < k → test n ≡ true
row_ok_sound test zero n h lt = absurd (omega arith)
row_ok_sound test (suc k) n h lt = ground (arith, row_ok_sound test k n)

abbrev agree : Bool → Bool → Bool
agree a b = if a then b else not b

xor_test : ℕ → ℕ → Bool
xor_test x y = agree (bit_xor x y == 0) (x == y) && ltb (bit_xor x y) 256

or_test : ℕ → ℕ → Bool
or_test d z = agree (bit_or d z == 0) (d == 0 && z == 0) && ltb (bit_or d z) 256

xor_table : row_ok (λ x. row_ok (xor_test x) 256) 256 ≡ true
unfolding xor_test
xor_table = refl

or_table : row_ok (λ d. row_ok (or_test d) 256) 256 ≡ true
unfolding or_test
or_table = refl

xor_cell : (x y : ℕ) → x < 256 → y < 256 → xor_test x y ≡ true
xor_cell x y hx hy =
    row_ok_sound (xor_test x) 256 y (row_ok_sound (λ u. row_ok (xor_test u) 256) 256 x xor_table hx)
      hy

or_cell : (d z : ℕ) → d < 256 → z < 256 → or_test d z ≡ true
or_cell d z hd hz =
    row_ok_sound (or_test d) 256 z (row_ok_sound (λ u. row_ok (or_test u) 256) 256 d or_table hd) hz

xor_zero : (x y : ℕ) → xor_test x y ≡ true → ((bit_xor x y ≡ 0) ↔ (x ≡ y)) × (bit_xor x y < 256)
unfolding xor_test
xor_zero x y h = (((λ e. ground arith), λ e. ground arith), ground arith)

or_zero :
    (d z : ℕ) → or_test d z ≡ true → ((bit_or d z ≡ 0) ↔ ((d ≡ 0) × (z ≡ 0))) × (bit_or d z < 256)
unfolding or_test
or_zero d z h = (((λ e. ground arith), λ e. ground arith), ground arith)

abbrev pub IsBytes : Bytes → Type 0
IsBytes = All (λ b. b < 256)

differences_zero :
    (diff : ℕ) (a b : Bytes)
    → diff < 256
    → IsBytes a
    → IsBytes b
    → length a ≡ length b
    → (differences diff a b ≡ 0) ↔ ((diff ≡ 0) × (a ≡ b))
unfolding differences
differences_zero diff [] [] hd ha hb l = ((λ e. (e, refl)), λ (e, f). e)
differences_zero diff [] (y ∷ b) hd ha hb l = absurd (omega arith)
differences_zero diff (x ∷ a) [] hd ha hb l = absurd (omega arith)
differences_zero diff (x ∷ a) (y ∷ b) hd (hx, ha) (hy, hb) l =
    let (xz, xs) = xor_zero x y (xor_cell x y hx hy) in
    let (oz, os) = or_zero diff (bit_xor x y) (or_cell diff (bit_xor x y) hd xs) in
    let rest = differences_zero (bit_or diff (bit_xor x y)) a b os ha hb (omega arith) in
    (
      (λ e.
          let (zero_or, same) = rest.0 e in
          let (zero_diff, zero_xor) = oz.0 zero_or in
          let heads = xz.0 zero_xor in (zero_diff, λ i. heads i ∷ same i)),
      λ (e, f). rest.1 (oz.1 (e, xz.1 (ap (byte_at 0) f)), ap (drop 1) f),
    )

-- On byte strings, the constant-time comparison of secrets is equality.
pub constant_time_eq_iff :
    (a b : Bytes) → IsBytes a → IsBytes b → (constant_time_eq a b ≡ true) ↔ (a ≡ b)
unfolding constant_time_eq
constant_time_eq_iff a b ha hb = (
  (λ h. ((differences_zero 0 a b (omega arith) ha hb (ground arith)).0 (ground arith)).1),
  λ e.
      let sizes : length a ≡ length b = ap (λ (t : Bytes). length t) e in
      let none_differ = (differences_zero 0 a b (omega arith) ha hb sizes).1 (refl, e) in
      ground arith,
)

-- A prefix is stripped exactly when it is there.
strip_prefix_iff : (p t r : Bytes) → (strip_prefix p t ≡ some r) ↔ (t ≡ p ++ r)
strip_prefix_iff [] t r = ((λ h. ground arith), λ h. ap some h)
strip_prefix_iff (x ∷ p) [] r = ((λ h. absurd (ground arith)), λ h. absurd (ground arith))
strip_prefix_iff (x ∷ p) (y ∷ t) r = (
  (λ h. ground (arith, (strip_prefix_iff p t r).0)),
  λ h. ground (arith, (strip_prefix_iff p t r).1 (ap (drop 1) h), ap (byte_at 0) h),
)

some_bytes : (a b : Bytes) → ◌≡◌ {A = Option Bytes} (some a) (some b) → a ≡ b
some_bytes a b h = ground arith

not_both : (o : Option Bytes) (x : Bytes) → o ≡ none → o ≢ some x
not_both o x n e = ground arith

stripped_bytes : (p t r : Bytes) → strip_prefix p t ≡ some r → IsBytes t → IsBytes r
stripped_bytes [] t r h b = subst IsBytes (some_bytes t r h) b
stripped_bytes (x ∷ p) [] r h b = absurd (ground arith)
stripped_bytes (x ∷ p) (y ∷ t) r h (by, b) = stripped_bytes p t r (ground arith) b

-- With a configured token, a request to an endpoint other than the two health endpoints that is not an OPTIONS
-- request passes exactly when its Authorization header is `Bearer ` followed by that token.
pub auth_middleware_iff :
    (expected path header : Bytes)
    → IsBytes expected
    → IsBytes header
    → bytes_eq path (codes "/healthz") ≡ false
    → bytes_eq path (codes "/readyz") ≡ false
    → (auth_middleware (bearer_token expected) path false (some header) ≡ true)
      ↔ (header ≡ codes "Bearer " ++ expected)
unfolding auth_middleware
auth_middleware_iff expected path header be bh not_healthz not_readyz =
    elim (Option-cases (strip_prefix (codes "Bearer ") header)) [
      | inl n ↦ (
        (λ h. absurd (ground arith)),
        λ e.
            absurd
              (not_both _ expected n ((strip_prefix_iff (codes "Bearer ") header expected).1 e)),
      )
      | inr (token, d) ↦
          let same =
            constant_time_eq_iff token expected (stripped_bytes (codes "Bearer ") header token d bh)
              be in
          (
            (λ h.
                (strip_prefix_iff (codes "Bearer ") header token).0 d
                ∙ ap (λ (t : Bytes). codes "Bearer " ++ t) (same.0 (ground arith))),
            λ e.
                let token_is =
                  some_bytes token expected
                    (sym d ∙ (strip_prefix_iff (codes "Bearer ") header expected).1 e) in
                let passes = same.1 token_is in ground arith,
          )
    ]
