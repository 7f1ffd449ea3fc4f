-- ===== src/Storage/Postgres/Config.antt =====
-- `PoolConfig::from_overrides` and `tls_mode_with_override` of packages/storage/postgres/src/lib.rs.
use native.Mathlib.Nat.{mul-le-mul_left}
use veyora.Prelude.{
  is_empty, parse_u64, ℕ, ◌*◌, ◌≤◌, ◌≡◌, ◌⊎◌, Bool, true, false, not, ◌||◌, Bytes, bytes_eq,
  bytes_eq_iff, codes, Option, none, some, List, Result, ok, err, any, leb, if◌then◌else◌, arith,
}
use veyora.Storage.Port.{StoreError, store_unavailable}
use veyora.Storage.Postgres.Pool.{PoolConfig}

-- Timeouts are in milliseconds.
abbrev pub default_config : PoolConfig
default_config = record {
  max_size = 8;
  acquire_timeout = 3000;
  statement_timeout = 15000;
  idle_timeout = 300 * 1000;
}

-- `value.max(1)`
abbrev pub at_least_one : ℕ → ℕ
at_least_one n = if leb n 1 then 1 else n

-- The parsed value of an override, or the default where it is absent or does not parse.
unfoldable pub override_or : ℕ → Option Bytes → ℕ → ℕ
override_or unit none default = default
override_or unit (some raw) default = elim (parse_u64 raw) [
  | none ↦ default
  | some n ↦ unit * at_least_one n
]

-- A `usize` has 64 bits.
unfoldable pub from_overrides :
    Option Bytes → Option Bytes → Option Bytes → Option Bytes → PoolConfig
from_overrides pool_max acquire_ms statement_ms idle_secs = record {
  max_size = override_or 1 pool_max default_config.max_size;
  acquire_timeout = override_or 1 acquire_ms default_config.acquire_timeout;
  statement_timeout = override_or 1 statement_ms default_config.statement_timeout;
  idle_timeout = override_or 1000 idle_secs default_config.idle_timeout;
}

override_or_positive :
    (unit default : ℕ) (o : Option Bytes) → 1 ≤ unit → 1 ≤ default → 1 ≤ override_or unit o default
unfolding override_or
override_or_positive unit default none hu hd = hd
override_or_positive unit default (some raw) hu hd = parsed (parse_u64 raw)
  where
    floor : (n : ℕ) → 1 ≤ at_least_one n
    floor n = ground arith

    parsed : (o : Option ℕ) → 1 ≤ (elim o [ none ↦ default | some n ↦ unit * at_least_one n ])
    parsed none = hd
    parsed (some n) = omega (arith, hu, mul-le-mul_left unit (floor n))

-- Whatever the environment says, the pool has room for a connection and every timeout is at least a
-- millisecond.
from_overrides_positive :
    (pool_max acquire_ms statement_ms idle_secs : Option Bytes)
    → let c = from_overrides pool_max acquire_ms statement_ms idle_secs in
      (1 ≤ c.max_size) × (1 ≤ c.acquire_timeout) × (1 ≤ c.statement_timeout) × (1 ≤ c.idle_timeout)
unfolding from_overrides
from_overrides_positive a b c d = (
  override_or_positive 1 8 a (omega arith) (omega arith),
  override_or_positive 1 3000 b (omega arith) (omega arith),
  override_or_positive 1 15000 c (omega arith) (omega arith),
  override_or_positive 1000 300000 d (omega arith) (omega arith),
)

-- A host of a connection target.
pub data Host : Type 0 where
  tcp unix : Bytes → Host

pub data TlsMode : Type 0 where
  plain required acknowledged_insecure : TlsMode

-- `name.parse::<IpAddr>().is_ok_and(|address| address.is_loopback())`
module _ (is_loopback : Bytes → Bool) where
  abbrev pub is_remote : Host → Bool
  is_remote (tcp name) =
      not (is_empty name || bytes_eq name (codes "localhost") || is_loopback name)
  is_remote (unix path) = false

  unfoldable pub tls_mode_with_override : List Host → Bytes → Result StoreError TlsMode
  tls_mode_with_override hosts override_mode =
      let remote_tcp = any is_remote hosts in
      if bytes_eq override_mode (codes "verify-full")
      then ok required
      else if bytes_eq override_mode (codes "disabled-insecure")
      then ok (if remote_tcp then acknowledged_insecure else plain)
      else if is_empty override_mode || bytes_eq override_mode (codes "auto")
      then ok (if remote_tcp then required else plain)
      else err store_unavailable

  -- A connection to a target with a remote host is encrypted and verified, or refused, unless the
  -- operator asked for `disabled-insecure` in so many letters; and then the mode says so.
  tls_fails_closed :
      (hosts : List Host) (override_mode : Bytes)
      → any is_remote hosts ≡ true
      → let mode = tls_mode_with_override hosts override_mode in
        ((mode ≡ ok required) ⊎ (mode ≡ err store_unavailable))
        ⊎ ((mode ≡ ok acknowledged_insecure) × (override_mode ≡ codes "disabled-insecure"))
  unfolding tls_mode_with_override
  tls_fails_closed hosts override_mode remote =
      ground (arith, remote, bytes_eq_iff override_mode (codes "disabled-insecure"))
