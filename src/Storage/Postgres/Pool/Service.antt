-- ===== src/Storage/Postgres/Pool/Service.antt =====
-- When a caller of the pool is served and when it has to wait.
use veyora.Prelude.{ℕ, ◌+◌, ◌≤◌, ◌≡◌, ◌⊎◌, false, ◌∷◌, arith}
use veyora.Storage.Postgres.Pool.{
  PoolConfig, PoolState, probe, connect, wait, reserve_slot, reserved, take_idle, after_discard,
  acquire, release,
}
use veyora.Storage.Postgres.Pool.Capacity.{IsCounted, length-discard_expired}

-- A caller is told to wait only where the pool is open and all of its connections, as many as the
-- configured maximum, are held, probed or being opened by other callers.
pub acquire_waits :
    (c : PoolConfig) (now : ℕ) (s : PoolState)
    → IsCounted c s
    → (acquire c now s).0 ≡ wait
    → (s.closed ≡ false) × (s.held + s.probing + s.opening ≡ c.max_size)
unfolding acquire after_discard take_idle reserved reserve_slot
acquire_waits c now s v h =
    ground (
      arith,
      h,
      v.accounted,
      v.capped,
      v.uncleared,
      length-discard_expired c.idle_timeout now s.idle,
    )

-- A connection that a caller returned to an open pool serves the next caller, whenever that comes:
-- it is probed, or its slot is used for a new connection.
pub release_serves :
    (c : PoolConfig) (now later : ℕ) (s : PoolState)
    → IsCounted c s
    → s.closed ≡ false
    → 1 ≤ s.held
    → ((acquire c later (release c now s)).0 ≡ probe)
      ⊎ ((acquire c later (release c now s)).0 ≡ connect)
unfolding acquire after_discard take_idle reserved reserve_slot release
release_serves c now later s v open_pool held = ground (
  arith,
  v.accounted,
  v.capped,
  v.uncleared,
  open_pool,
  held,
  length-discard_expired c.idle_timeout later (now ∷ s.idle),
)
