-- ===== src/Worker/Policy.antt =====
-- What the retention setting is read as.
use veyora.Prelude.{
  ℕ, ◌^◌, ◌≡◌, ◌<◌, refl, Bytes, false, some, ok, ◌==◌, if◌then◌else◌, is_empty, parse_digits,
  decimal, trim_digits, parse_u64_digits, parse_digits-decimal, is_empty-decimal, arith,
}
use veyora.Worker.{days, disabled, from_env}

from_env_digits :
    (text : Bytes) (n : ℕ)
    → is_empty text ≡ false
    → parse_digits 0 text ≡ some n
    → from_env (some text) ≡ ok (if n == 0 then disabled else days n)
unfolding from_env
from_env_digits text n filled h =
    rw (trim_digits text n h, filled, parse_u64_digits text n filled h) refl

-- The decimal text of a u64 sets the window to that many days, and that of 0 turns purging off.
from_env-decimal :
    (n : ℕ) → n < 2 ^ 64 → from_env (some (decimal 20 n)) ≡ ok (if n == 0 then disabled else days n)
from_env-decimal n small =
    from_env_digits (decimal 20 n) n (is_empty-decimal 19 n)
      (parse_digits-decimal 19 n (omega arith) small)
