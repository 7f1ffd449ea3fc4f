-- ===== src/Kernel/Manifest.antt =====
-- The Merkle tree and the signing seed of packages/security-kernel/crates/kernel-core/src/manifest.rs.
-- `none` stands for a panic. A loop on a list runs on fuel, the length of the list.
pub mod Tree
pub mod Chunks
pub mod Root
use veyora.Prelude.{
  ℕ, zero, suc, ◌+◌, ◌-◌, Bytes, codes, Bool, Option, none, some, List, [], ◌∷◌, ◌++◌, map, Result,
  ok, err, ◌>>=◌, length, take, drop,
}
use veyora.Kernel.Error.{KernelError, limit_exceeded}
use veyora.Kernel.Evidence.{Evidence, bool, uint, bytes, array, items, encode_evidence}
use veyora.Kernel.Crypto.{Primitives, kdf}

abbrev pub domain_empty : Bytes
domain_empty = codes "pm-v1/manifest-empty" ++ 0 ∷ []

abbrev pub domain_leaf : Bytes
domain_leaf = codes "pm-v1/manifest-leaf" ++ 0 ∷ []

abbrev pub domain_chunk : Bytes
domain_chunk = codes "pm-v1/manifest-chunk" ++ 0 ∷ []

abbrev pub domain_node : Bytes
domain_node = codes "pm-v1/manifest-node" ++ 0 ∷ []

-- `(record_id, hash)`
abbrev pub Leaf : Type 0
Leaf = Bytes × Bytes

-- One chunk, not empty.
abbrev pub Chunk : Type 0
Chunk = Leaf × List Leaf

abbrev pub leaf_evidence : Bytes → ℕ → ℕ → Bytes → Bool → Evidence
leaf_evidence record_id revision key_epoch envelope_hash tombstone = array (
    items (
      bytes record_id ∷ uint revision ∷ uint key_epoch ∷ bytes envelope_hash ∷ bool tombstone ∷ []))

abbrev pub last_id : Leaf → List Leaf → Bytes
last_id x [] = x.0
last_id x (y ∷ ys) = last_id y ys

abbrev pub chunk_evidence : ℕ → Chunk → Evidence
chunk_evidence index (x, xs) = array (
    items (
      uint index
      ∷ bytes x.0
      ∷ bytes (last_id x xs)
      ∷ array (items (map (λ l. bytes l.1) (x ∷ xs)))
      ∷ []))

-- The ranges `start..end` of the loop, for a page size of at least one.
unfoldable pub chunks : ℕ → ℕ → List Leaf → List Chunk
chunks fuel page_size [] = []
chunks zero page_size (x ∷ xs) = []
chunks (suc fuel) page_size (x ∷ xs) =
    (x, take (page_size - 1) xs) ∷ chunks fuel page_size (drop (page_size - 1) xs)

unfoldable pub chunk_bodies : ℕ → List Chunk → Result KernelError (List Bytes)
chunk_bodies index [] = ok []
chunk_bodies index (c ∷ cs) = encode_evidence (chunk_evidence index c) >>= λ chunk_body.
    chunk_bodies (index + 1) cs >>= λ rest. ok (chunk_body ∷ rest)

-- `Ok(..)` around a value that may have panicked.
abbrev returned : Option Bytes → Option (Result KernelError Bytes)
returned none = none
returned (some root) = some (ok root)

module _ (p : Primitives) where
  unfoldable pub empty_root : Bytes
  empty_root = p.sha256 domain_empty

  -- The `expect` on the encoding panics.
  unfoldable pub leaf_hash : Bytes → ℕ → ℕ → Bytes → Bool → Option Bytes
  leaf_hash record_id revision key_epoch envelope_hash tombstone =
      elim (encode_evidence (leaf_evidence record_id revision key_epoch envelope_hash tombstone)) [
        | ok body ↦ some (p.sha256 (domain_leaf ++ body))
        | err e ↦ none
      ]

  -- One pass of the loop: an odd final node is promoted unchanged.
  unfoldable pub next_level : List Bytes → List Bytes
  next_level [] = []
  next_level (x ∷ []) = x ∷ []
  next_level (x ∷ y ∷ level) = p.sha256 (domain_node ++ (x ++ y)) ∷ next_level level

  unfoldable pub reduce_loop : ℕ → List Bytes → Option Bytes
  reduce_loop fuel [] = none
  reduce_loop fuel (x ∷ []) = some x
  reduce_loop zero (x ∷ y ∷ level) = none
  reduce_loop (suc fuel) (x ∷ y ∷ level) = reduce_loop fuel (next_level (x ∷ y ∷ level))

  unfoldable pub reduce : List Bytes → Option Bytes
  reduce level = reduce_loop (length level) level

  chunk_hashes : List Bytes → List Bytes
  chunk_hashes = map (λ body. p.sha256 (domain_chunk ++ body))

  reduced : Result KernelError (List Bytes) → Option (Result KernelError Bytes)
  unfolding chunk_hashes
  reduced (err e) = some (err e)
  reduced (ok bodies) = returned (reduce (chunk_hashes bodies))

  unfoldable pub root_from_leaves : List Leaf → ℕ → Option (Result KernelError Bytes)
  unfolding chunk_hashes reduced
  root_from_leaves leaves zero = some (err limit_exceeded)
  root_from_leaves [] (suc n) = some (ok empty_root)
  root_from_leaves (x ∷ xs) (suc n) =
      reduced (chunk_bodies 0 (chunks (length (x ∷ xs)) (suc n) (x ∷ xs)))

  unfoldable pub derive_manifest_signing_seed :
      Bytes → Bytes → Bytes → ℕ → Bytes → Result KernelError Bytes
  derive_manifest_signing_seed root_key deployment_id vault_id epoch manifest_key_id =
      encode_evidence (
        array
          (items (bytes deployment_id ∷ bytes vault_id ∷ uint epoch ∷ bytes manifest_key_id ∷ [])))
      >>= λ context. kdf p (codes "pm-v1/manifest-signing-seed") root_key context
