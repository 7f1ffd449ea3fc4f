-- ===== src/Storage/Postgres/Pool/Capacity.antt =====
-- How many connections the pool holds, in every interleaving of its callers.
use veyora.Prelude.{
  ℕ, ◌+◌, ◌≤◌, ◌≡◌, refl, true, false, List, [], ◌∷◌, length, arith, All, some, Bool-cases, inl,
  inr, ltb,
}
use veyora.Storage.Postgres.Pool.{
  PoolConfig, PoolState, reserve_slot, discard_expired, reserved, take_idle, after_discard, acquire,
  release, shutdown, shutdown_wait, connected, Step, acquires, probes, opens, releases, shuts,
  Reach, here, next,
}

-- The connections that exist: idle, held, being probed or being opened.
abbrev pub connections : PoolState → ℕ
connections s = length s.idle + s.held + s.probing + s.opening

-- Every outstanding slot is a connection or was cleared by a shutdown, there are at most `max_size`
-- of them, and an open pool has cleared none.
pub record IsCounted (c : PoolConfig) (s : PoolState) : Type 0 where
  pub accounted : s.outstanding ≡ connections s + s.cleared
  pub capped : s.outstanding ≤ c.max_size
  pub uncleared : s.closed ≡ false → s.cleared ≡ 0

pub length-discard_expired :
    (timeout now : ℕ) (idle : List ℕ)
    → let (kept, dropped) = discard_expired timeout now idle in length idle ≡ length kept + dropped
unfolding discard_expired
length-discard_expired timeout now [] = refl
length-discard_expired timeout now (since ∷ rest) =
    ground (arith, length-discard_expired timeout now rest)

pub acquire-IsCounted :
    (c : PoolConfig) (now : ℕ) (s : PoolState) → IsCounted c s → IsCounted c (acquire c now s).1
unfolding acquire after_discard take_idle reserved reserve_slot
acquire-IsCounted c now s v =
    ground
      (arith, v.accounted, v.capped, v.uncleared, length-discard_expired c.idle_timeout now s.idle)

Step-IsCounted : (c : PoolConfig) {s t : PoolState} → Step c s t → IsCounted c s → IsCounted c t
unfolding release shutdown
Step-IsCounted c (acquires now s) v = acquire-IsCounted c now s v
Step-IsCounted c (probes true s h) v = ground (arith, h, v.accounted, v.capped, v.uncleared)
Step-IsCounted c (probes false s h) v = ground (arith, h, v.accounted, v.capped, v.uncleared)
Step-IsCounted c (opens true s h) v = ground (arith, h, v.accounted, v.capped, v.uncleared)
Step-IsCounted c (opens false s h) v = ground (arith, h, v.accounted, v.capped, v.uncleared)
Step-IsCounted c (releases now s h) v = ground (arith, h, v.accounted, v.capped, v.uncleared)
Step-IsCounted c (shuts s) v = ground (arith, v.accounted, v.capped, v.uncleared)

pub Reach-IsCounted :
    (c : PoolConfig) {s t : PoolState} → Reach c s t → IsCounted c s → IsCounted c t
Reach-IsCounted c here v = v
Reach-IsCounted c (next r st) v = Step-IsCounted c st (Reach-IsCounted c r v)

pub connected-IsCounted : (c : PoolConfig) (now : ℕ) → 1 ≤ c.max_size → IsCounted c (connected now)
connected-IsCounted c now some_slot = record {
  accounted = refl;
  capped = some_slot;
  uncleared = λ _. refl;
}

-- However callers interleave, the connections that are idle, held, probed or being opened are never
-- more than the configured maximum, nor more than the slots that are counted as taken.
pub pool_capped :
    (c : PoolConfig) (now : ℕ) (s : PoolState)
    → 1 ≤ c.max_size
    → Reach c (connected now) s
    → (connections s ≤ s.outstanding) × (s.outstanding ≤ c.max_size)
pool_capped c now s some_slot r =
    let v = Reach-IsCounted c r (connected-IsCounted c now some_slot) in
    (omega (arith, v.accounted), v.capped)

Step-cleared : (c : PoolConfig) {s t : PoolState} → Step c s t → s.cleared ≤ t.cleared
unfolding release shutdown acquire after_discard take_idle reserved reserve_slot
Step-cleared c (acquires now s) = ground arith
Step-cleared c (probes true s h) = ground arith
Step-cleared c (probes false s h) = ground arith
Step-cleared c (opens true s h) = ground arith
Step-cleared c (opens false s h) = ground arith
Step-cleared c (releases now s h) = ground arith
Step-cleared c (shuts s) = ground arith

Reach-cleared : (c : PoolConfig) {s t : PoolState} → Reach c s t → s.cleared ≤ t.cleared
Reach-cleared c here = omega arith
Reach-cleared c (next r st) = omega (arith, Reach-cleared c r, Step-cleared c st)

shutdown_idle : (s : PoolState) → length s.idle ≤ (shutdown s).cleared
unfolding shutdown
shutdown_idle s = omega arith

-- As many slots as there were idle connections stay counted as outstanding after a shutdown.
shutdown_outstanding :
    (c : PoolConfig) (s t : PoolState)
    → IsCounted c s
    → Reach c (shutdown s) t
    → length s.idle ≤ t.outstanding
shutdown_outstanding c s t v r =
    let w = Reach-IsCounted c r (Step-IsCounted c (shuts s) v) in
    omega (arith, shutdown_idle s, Reach-cleared c r, w.accounted)

-- A shutdown does not give back the slots of the idle connections that it closes: if there was one,
-- its wait never ends before its deadline, whatever callers do while it waits and even if none of
-- them holds a connection.
pub shutdown_waits :
    (c : PoolConfig) (s : PoolState) (deadline now : ℕ) (looks : List (ℕ × PoolState))
    → IsCounted c s
    → 1 ≤ length s.idle
    → All (λ look. Reach c (shutdown s) look.1) looks
    → shutdown_wait deadline looks ≡ some now
    → deadline ≤ now
unfolding shutdown_wait
shutdown_waits c s deadline now [] v idle seen h = absurd (ground (arith, h))
shutdown_waits c s deadline now ((at, t) ∷ looks) v idle (r, seen) h =
    let taken = shutdown_outstanding c s t v r in
    elim (Bool-cases (ltb at deadline)) [
      | inl early ↦
          shutdown_waits c s deadline now looks v idle seen (ground (arith, h, early, idle, taken))
      | inr late ↦ ground (arith, h, late)
    ]
