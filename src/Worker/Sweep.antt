-- ===== src/Worker/Sweep.antt =====
-- Which records a retention sweep over the in-memory store removes.
use veyora.Prelude.{
  err, refl, sym, ◌∙◌, min, ℕ, ◌+◌, ◌-◌, ◌*◌, ◌^◌, ◌≡◌, ◌≤◌, ◌<◌, ◌⊎◌, inl, inr, Bytes, true, some,
  List, [], ◌∷◌, ok, arith, Bool-cases, ltb,
}
use veyora.Storage.Port.{not_found, GenericEncryptedRecordV1}
use veyora.Storage.Interface.{in_memory}
use veyora.Storage.Memory.{InMemoryStore, get, purge_tombstoned_before}
use veyora.Storage.Assoc.{lookup, Distinct}
use veyora.Storage.Memory.Purge.{get-purge, purge-Distinct, purge_keeps_stamp, purge_not_found}
use veyora.Worker.{RetentionPolicy, days, disabled, cutoff, sweep, run_retention}

abbrev pub Among : Bytes → List Bytes → Type 0
Among w [] = ⊥
Among w (vault ∷ vaults) = (w ≡ vault) ⊎ Among w vaults

-- The row is of one of the vaults, tombstoned, and stamped at or before the cutoff.
abbrev pub IsDue :
    List Bytes → ℕ → InMemoryStore → Bytes → Bytes → GenericEncryptedRecordV1 → Type 0
IsDue vaults before s w id r =
    Among w vaults
    × (r.tombstone ≡ true)
    × (stamp : ℕ) × (lookup (w, id) s.tombstoned_at ≡ some stamp)
    × (stamp ≤ before)

sweep_not_found :
    (vaults : List Bytes) (before n : ℕ) (s : InMemoryStore) (w id : Bytes)
    → get w id s ≡ err not_found
    → get w id (sweep in_memory vaults before n s).1 ≡ err not_found
unfolding sweep
sweep_not_found [] before n s w id h = h
sweep_not_found (vault ∷ vaults) before n s w id h =
    sweep_not_found vaults before _ (purge_tombstoned_before vault before s).1 w id
      (purge_not_found vault before s w id h)

sweep_exact :
    (vaults : List Bytes) (before n : ℕ) (s : InMemoryStore) (w id : Bytes)
    (r : GenericEncryptedRecordV1)
    → Distinct s.rows
    → get w id s ≡ ok r
    → ((get w id (sweep in_memory vaults before n s).1 ≡ err not_found)
        × IsDue vaults before s w id r)
      ⊎ ((get w id (sweep in_memory vaults before n s).1 ≡ ok r) × ¬ (IsDue vaults before s w id r))
unfolding sweep
sweep_exact [] before n s w id r d h = inr (h, λ due. due.0)
sweep_exact (vault ∷ vaults) before n s w id r d h =
    let t = (purge_tombstoned_before vault before s).1 in
    let (due, out) = get-purge vault before s w id r d h in
    elim out [
      | inl gone ↦
          let (here, dead, stamp, at, le) = due.0 gone in
          inl (sweep_not_found vaults before _ t w id gone, (inl here, dead, stamp, at, le))
      | inr kept ↦
          let same = purge_keeps_stamp vault before s w id r kept in
          elim (sweep_exact vaults before (n + (purge_tombstoned_before vault before s).0) t w id r
            (purge-Distinct vault before s d) kept) [
              | inl (gone, (among, dead, stamp, at, le)) ↦
                  inl (gone, (inr among, dead, stamp, sym same ∙ at, le))
              | inr (still, not_due) ↦ inr (
                still,
                λ (among, dead, stamp, at, le). elim among [
                  | inl here ↦ cc (kept, due.1 (here, dead, stamp, at, le))
                  | inr later ↦ not_due (later, dead, stamp, same ∙ at, le)
                ],
              )
            ]
    ]

-- In an in-memory store in which no key stands twice, a retention run removes a record exactly if its
-- policy has a cutoff at the clock's reading and the record is of one of the vaults, tombstoned, and
-- has a deletion stamp at or before the cutoff; every other record reads as before the run.
pub run_retention_exact :
    (vaults : List Bytes) (policy : RetentionPolicy) (now : ℕ) (s : InMemoryStore) (w id : Bytes)
    (r : GenericEncryptedRecordV1)
    → Distinct s.rows
    → get w id s ≡ ok r
    → let after = get w id (run_retention in_memory vaults policy now s).1 in
      let Removed =
        (before : ℕ) × (cutoff policy now ≡ some before) × IsDue vaults before s w id r in
      ((after ≡ err not_found) × Removed) ⊎ ((after ≡ ok r) × ¬ Removed)
unfolding run_retention cutoff
run_retention_exact vaults disabled now s w id r d h = inr (h, λ removed. cc removed.1)
run_retention_exact vaults (days n) now s w id r d h =
    elim (sweep_exact vaults (now - min (n * 86_400) (2 ^ 64 - 1)) 0 s w id r d h) [
      | inl (gone, due) ↦ inl (gone, (_, refl, due))
      | inr (kept, not_due) ↦ inr (
        kept,
        λ (before, at, due).
            let same : now - min (n * 86_400) (2 ^ 64 - 1) ≡ before = ground (arith, at) in
            not_due (rw same due),
      )
    ]

-- A stamp at or before the cutoff is at least the retention window old, or the clock has not yet reached the
-- window and the stamp is 0: only a tombstone stamped at the epoch is purged early.
pub cutoff_age :
    (n now before stamp : ℕ)
    → n * 86_400 < 2 ^ 64
    → cutoff (days n) now ≡ some before
    → stamp ≤ before
    → (stamp + n * 86_400 ≤ now) ⊎ ((now < n * 86_400) × (stamp ≡ 0))
unfolding cutoff
cutoff_age n now before stamp small h le =
    let e : before ≡ now - n * 86_400 = ground arith in
    elim (Bool-cases (ltb now (n * 86_400))) [
      | inl lt ↦ inr (ground arith, ground arith)
      | inr ge ↦ inl (ground arith)
    ]
