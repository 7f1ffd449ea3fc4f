-- ===== src/Storage/Postgres/Pool.antt =====
-- The connection pool of packages/storage/postgres/src/lib.rs (`ConnectionPool`): what each critical
-- section of `get`, `shutdown` and `release` does, and the interleavings of any number of callers as a
-- step relation. A connection is modelled by the time at which it became idle. The counts of
-- connections that a caller holds, probes or opens, and of those that a shutdown closed, are of the
-- model: the program keeps them in its callers' stacks.
pub mod Capacity
pub mod Service
use veyora.Prelude.{
  ℕ, suc, ◌+◌, ◌-◌, ◌≡◌, Bool, true, false, not, ◌&&◌, List, [], ◌∷◌, Option, none, some, leb, ltb,
  if◌then◌else◌, length,
}

pub record PoolConfig : Type 0 where
  pub max_size : ℕ
  pub acquire_timeout : ℕ
  pub statement_timeout : ℕ
  pub idle_timeout : ℕ

-- `idle` has the connection that was returned last at its head, where `push` and `pop` work.
pub record PoolState : Type 0 where
  pub idle : List ℕ
  pub closed : Bool
  pub outstanding : ℕ
  pub held : ℕ
  pub probing : ℕ
  pub opening : ℕ
  pub cleared : ℕ

-- What a pass of the loop of `get` decides, under the lock.
pub data Decision : Type 0 where
  unavailable probe connect wait : Decision

-- The result of `reserve_slot`, and the count after it.
unfoldable pub reserve_slot : ℕ → ℕ → Bool × ℕ
reserve_slot outstanding max =
    if leb max outstanding then (false, outstanding) else (true, outstanding + 1)

-- The `while` loop that discards idle connections that have been idle for the timeout or longer:
-- what is left, and how many were dropped.
unfoldable pub discard_expired : ℕ → ℕ → List ℕ → List ℕ × ℕ
discard_expired timeout now [] = ([], 0)
discard_expired timeout now (since ∷ rest) =
    let (kept, dropped) = discard_expired timeout now rest in
    if leb timeout (now - since) then (kept, dropped + 1) else (since ∷ rest, 0)

-- The slot that is free, or the wait.
reserved : Bool × ℕ → PoolState → Decision × PoolState
reserved (true, n) s = (connect, record s { outstanding = n; opening = s.opening + 1 })
reserved (false, n) s = (wait, record s { outstanding = n })

take_idle : PoolConfig → List ℕ → PoolState → Decision × PoolState
take_idle c [] s = reserved (reserve_slot s.outstanding c.max_size) (record s { idle = [] })
take_idle c (since ∷ rest) s = (probe, record s { idle = rest; probing = s.probing + 1 })

after_discard : PoolConfig → List ℕ × ℕ → PoolState → Decision × PoolState
after_discard c (kept, dropped) s =
    take_idle c kept (record s { outstanding = s.outstanding - dropped })

-- One pass of the loop of `get`, up to the probe, the opening or the wait.
unfoldable pub acquire : PoolConfig → ℕ → PoolState → Decision × PoolState
unfolding reserved take_idle after_discard
acquire c now s =
    if s.closed
    then (unavailable, s)
    else after_discard c (discard_expired c.idle_timeout now s.idle) s

-- The answer to the probe: a live connection is handed out, a dead one gives its slot back.
abbrev pub probed : Bool → PoolState → PoolState
probed true s = record s { probing = s.probing - 1; held = s.held + 1 }
probed false s = record s { probing = s.probing - 1; outstanding = s.outstanding - 1 }

-- The result of `open_connection`, in the slot that was reserved for it.
abbrev pub opened : Bool → PoolState → PoolState
opened true s = record s { opening = s.opening - 1; held = s.held + 1 }
opened false s = record s { opening = s.opening - 1; outstanding = s.outstanding - 1 }

-- `release`, by the drop of a connection that a caller holds.
unfoldable pub release : PoolConfig → ℕ → PoolState → PoolState
release c now s =
    if not s.closed && ltb (length s.idle) c.max_size
    then record s { idle = now ∷ s.idle; held = s.held - 1 }
    else record s { outstanding = s.outstanding - 1; held = s.held - 1 }

-- The part of `shutdown` before its wait: the count of outstanding connections is left alone.
unfoldable pub shutdown : PoolState → PoolState
shutdown s = record s { idle = []; closed = true; cleared = s.cleared + length s.idle }

-- The wait of `shutdown`, over what it finds each time that it looks, the clock and the pool: the time
-- at which it leaves the loop, or `none` if it still waits.
unfoldable pub shutdown_wait : ℕ → List (ℕ × PoolState) → Option ℕ
shutdown_wait deadline [] = none
shutdown_wait deadline ((now, s) ∷ looks) =
    let rest = shutdown_wait deadline looks in
    if ltb 0 s.outstanding && ltb now deadline then rest else some now

-- `connect`: the initial connection stands idle.
abbrev pub connected : ℕ → PoolState
connected now = record {
  idle = now ∷ [];
  closed = false;
  outstanding = 1;
  held = 0;
  probing = 0;
  opening = 0;
  cleared = 0;
}

-- A step of some caller. Only a connection that is probed, opened or held can end so.
pub data Step (c : PoolConfig) : PoolState → PoolState → Type 0 where
  acquires : (now : ℕ) (s : PoolState) → Step c s (acquire c now s).1
  probes : (live : Bool) (s : PoolState) → ltb 0 s.probing ≡ true → Step c s (probed live s)
  opens : (success : Bool) (s : PoolState) → ltb 0 s.opening ≡ true → Step c s (opened success s)
  releases : (now : ℕ) (s : PoolState) → ltb 0 s.held ≡ true → Step c s (release c now s)
  shuts : (s : PoolState) → Step c s (shutdown s)

pub data Reach (c : PoolConfig) (s : PoolState) : PoolState → Type 0 where
  here : Reach c s s
  next : {t u : PoolState} → Reach c s t → Step c t u → Reach c s u
