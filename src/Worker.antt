-- ===== src/Worker.antt =====
-- services/worker/src/lib.rs: the retention policy and its sweep over a store.
pub mod Policy
pub mod Sweep
mod Tests
use veyora.Prelude.{
  ℕ, ◌+◌, ◌-◌, ◌*◌, ◌^◌, Bytes, Option, none, some, List, [], ◌∷◌, Result, ok, err, min, is_empty,
  trim, parse_u64, ◌==◌, if◌then◌else◌,
}
use veyora.Storage.Port.{StoreError}
use veyora.Storage.Interface.{OpaqueStore}

pub data RetentionPolicy : Type 0 where
  days : ℕ → RetentionPolicy
  disabled : RetentionPolicy

-- `VEYORA_TRASH_RETENTION_DAYS`; an error carries the text that the message quotes.
unfoldable pub from_env : Option Bytes → Result Bytes RetentionPolicy
from_env none = ok (days 30)
from_env (some text) =
    if is_empty (trim text) then ok (days 30) else (elim (parse_u64 (trim text)) [
      | none ↦ err text
      | some n ↦ ok (if n == 0 then disabled else days n)
    ])

-- `now_epoch.saturating_sub(days.saturating_mul(86_400))`; subtraction on ℕ stops at 0 as well.
unfoldable pub cutoff : RetentionPolicy → ℕ → Option ℕ
cutoff disabled now_epoch = none
cutoff (days n) now_epoch = some (now_epoch - min (n * 86_400) (2 ^ 64 - 1))

module _ (db : OpaqueStore) where
  -- The loop on the vaults, with the count so far: it stops at the first failure.
  unfoldable pub sweep : List Bytes → ℕ → ℕ → db.State → Result StoreError ℕ × db.State
  sweep [] before purged s = (ok purged, s)
  sweep (vault ∷ vaults) before purged s =
      let done = db.purge_tombstoned_before vault before s in
      elim done.0 [ err e ↦ (err e, done.1) | ok n ↦ sweep vaults before (purged + n) done.1 ]

  unfoldable pub run_retention :
      List Bytes → RetentionPolicy → ℕ → db.State → Result StoreError ℕ × db.State
  run_retention vaults policy now_epoch s = elim (cutoff policy now_epoch) [
    | none ↦ (ok 0, s)
    | some before ↦ sweep vaults before 0 s
  ]
