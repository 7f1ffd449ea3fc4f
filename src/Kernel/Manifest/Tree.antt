-- ===== src/Kernel/Manifest/Tree.antt =====
-- The Merkle tree that `reduce` hashes, and what its root commits to.
use veyora.Prelude.{
  ℕ, zero, suc, ◌≡◌, ◌≢◌, ◌≤◌, ◌⊎◌, inl, inr, refl, sym, ap, ◌∙◌, Bytes, byte_at, some, List, [],
  ◌∷◌, ◌++◌, append_assoc, append-nil, map, length, drop, arith,
}
use veyora.Kernel.Crypto.{Primitives}
use veyora.Kernel.Crypto.Commit.{Collision, same_or_Collision}
use veyora.Kernel.Evidence.Injective.{append_cancel}
use veyora.Kernel.Manifest.{domain_chunk, domain_node, next_level, reduce_loop}

pub data Tree : Type 0 where
  chunk : Bytes → Tree
  node : Tree → Tree → Tree

-- The chunk bodies at the leaves, from left to right.
abbrev pub flatten : Tree → List Bytes
flatten (chunk b) = b ∷ []
flatten (node l r) = flatten l ++ flatten r

abbrev pub flatten_all : List Tree → List Bytes
flatten_all [] = []
flatten_all (t ∷ ts) = flatten t ++ flatten_all ts

abbrev pair_up : List Tree → List Tree
pair_up [] = []
pair_up (x ∷ []) = x ∷ []
pair_up (x ∷ y ∷ ts) = node x y ∷ pair_up ts

flatten-pair_up : (ts : List Tree) → flatten_all (pair_up ts) ≡ flatten_all ts
flatten-pair_up [] = refl
flatten-pair_up (x ∷ []) = refl
flatten-pair_up (x ∷ y ∷ ts) =
    rw (flatten-pair_up ts) (append_assoc (flatten x) (flatten y) (flatten_all ts))

length-pair_up : (ts : List Tree) → length (pair_up ts) ≤ length ts
length-pair_up [] = omega arith
length-pair_up (x ∷ []) = omega arith
length-pair_up (x ∷ y ∷ ts) = omega (arith, length-pair_up ts)

module _ (p : Primitives) where
  abbrev pub root : Tree → Bytes
  root (chunk b) = p.sha256 (domain_chunk ++ b)
  root (node l r) = p.sha256 (domain_node ++ (root l ++ root r))

  next_level-root : (ts : List Tree) → next_level p (map root ts) ≡ map root (pair_up ts)
  unfolding next_level
  next_level-root [] = refl
  next_level-root (x ∷ []) = refl
  next_level-root (x ∷ y ∷ ts) = λ i. root (node x y) ∷ next_level-root ts i

  -- The loop on the roots of some trees ends, and with the root of one tree over the same chunks.
  pub reduce_loop-root :
      (fuel : ℕ) (t : Tree) (ts : List Tree)
      → length ts ≤ fuel
      → (u : Tree) × (reduce_loop p fuel (map root (t ∷ ts)) ≡ some (root u))
        × (flatten u ≡ flatten_all (t ∷ ts))
  unfolding reduce_loop
  reduce_loop-root fuel t [] h = (t, refl, sym (append-nil (flatten t)))
  reduce_loop-root zero t (y ∷ ts) h = absurd (omega arith)
  reduce_loop-root (suc fuel) t (y ∷ ts) h =
      let (u, e, f) =
        reduce_loop-root fuel (node t y) (pair_up ts) (omega (arith, length-pair_up ts)) in
      (
        u,
        ap (reduce_loop p fuel) (next_level-root (t ∷ y ∷ ts)) ∙ e,
        f ∙ flatten-pair_up (t ∷ y ∷ ts),
      )

  root_apart : (b : Bytes) (l r : Tree) → domain_chunk ++ b ≢ domain_node ++ (root l ++ root r)
  root_apart b l r h = different (ap (byte_at 15) h)
    where
      different : ◌≢◌ {A = ℕ} 99 110
      different e = omega arith

  same_node :
      (l r l' r' : Tree)
      → (l ≡ l') ⊎ Collision p.sha256
      → (r ≡ r') ⊎ Collision p.sha256
      → (node l r ≡ node l' r') ⊎ Collision p.sha256
  same_node l r l' r' (inl e) (inl f) = inl (λ i. node (e i) (f i))
  same_node l r l' r' (inr found) q = inr found
  same_node l r l' r' (inl e) (inr found) = inr found

  module _ (wide : (b : Bytes) → length (p.sha256 b) ≡ 32) where
    root_wide : (t : Tree) → length (root t) ≡ 32
    root_wide (chunk b) = wide _
    root_wide (node l r) = wide _

    halves :
        (l r l' r' : Tree)
        → domain_node ++ (root l ++ root r) ≡ domain_node ++ (root l' ++ root r')
        → (root l ≡ root l') × (root r ≡ root r')
    halves l r l' r' h =
        append_cancel (root l) (root l') (root r) (root r') (root_wide l ∙ sym (root_wide l'))
          (ap (drop 20) h)

    -- One root stands for one tree, chunks and shape, or it exhibits a collision of SHA-256.
    pub root_binds : (s t : Tree) → root s ≡ root t → (s ≡ t) ⊎ Collision p.sha256
    root_binds (chunk b) (chunk c) h = elim (same_or_Collision p.sha256 _ _ h) [
      | inl e ↦ inl (ap chunk (ap (drop 21) e))
      | inr found ↦ inr found
    ]
    root_binds (chunk b) (node l r) h = elim (same_or_Collision p.sha256 _ _ h) [
      | inl e ↦ absurd (root_apart b l r e)
      | inr found ↦ inr found
    ]
    root_binds (node l r) (chunk b) h = elim (same_or_Collision p.sha256 _ _ h) [
      | inl e ↦ absurd (root_apart b l r (sym e))
      | inr found ↦ inr found
    ]
    root_binds (node l r) (node l' r') h = elim (same_or_Collision p.sha256 _ _ h) [
      | inl e ↦
          let (a, b) = halves l r l' r' e in
          same_node l r l' r' (root_binds l l' a) (root_binds r r' b)
      | inr found ↦ inr found
    ]
