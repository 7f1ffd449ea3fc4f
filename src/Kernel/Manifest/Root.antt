-- ===== src/Kernel/Manifest/Root.antt =====
-- The root against the tree of the chunks: totality, and what a root commits to.
use veyora.Prelude.{
  ℕ, zero, suc, ◌≡◌, ◌≢◌, ◌⊎◌, inl, inr, refl, sym, ap, ◌∙◌, Bytes, Bool, byte_at, Option, some,
  List, [], ◌∷◌, ◌++◌, drop, map, length, arith, Result, ok, err, Result-cases,
}
use veyora.Kernel.Error.{KernelError, limit_exceeded}
use veyora.Kernel.Evidence.{Evidence, encode_evidence}
use veyora.Kernel.Evidence.Injective.{encode_evidence-cancel}
use veyora.Kernel.Evidence.Fields.{at, number, octets, flag}
use veyora.Kernel.Crypto.{Primitives}
use veyora.Kernel.Crypto.Commit.{Collision, same_or_Collision}
use veyora.Kernel.Manifest.{
  Leaf, domain_leaf, domain_chunk, leaf_evidence, chunks, chunk_bodies, chunk_hashes, returned,
  reduced, empty_root, leaf_hash, reduce, reduce_loop, root_from_leaves,
}
use veyora.Kernel.Manifest.Tree.{
  Tree, chunk, node, root, flatten, flatten_all, reduce_loop-root, root_binds,
}
use veyora.Kernel.Manifest.Chunks.{hashes, together-chunks, bodies_bind, chunk_bodies_cons}

-- The trees of some chunk bodies.
abbrev leaves_of : List Bytes → List Tree
leaves_of [] = []
leaves_of (b ∷ bs) = chunk b ∷ leaves_of bs

flatten-leaves_of : (bs : List Bytes) → flatten_all (leaves_of bs) ≡ bs
flatten-leaves_of [] = refl
flatten-leaves_of (b ∷ bs) = λ i. b ∷ flatten-leaves_of bs i

length-leaves_of : (bs : List Bytes) → length (leaves_of bs) ≡ length bs
length-leaves_of [] = refl
length-leaves_of (b ∷ bs) = ap suc (length-leaves_of bs)

length-map : {A B : Type 0} → (f : A → B) (xs : List A) → length (map f xs) ≡ length xs
length-map f [] = refl
length-map f (x ∷ xs) = ap suc (length-map f xs)

some_ok :
    (a b : Bytes) → ◌≡◌ {A = Option (Result KernelError Bytes)} (some (ok a)) (some (ok b)) → a ≡ b
some_ok a b h = ground arith

-- The letters after `pm-v1/manifest-`: `e`mpty against `c`hunk and `n`ode.
different_chunk : ◌≢◌ {A = ℕ} 99 101
different_chunk e = omega arith

different_node : ◌≢◌ {A = ℕ} 110 101
different_node e = omega arith

module _ (p : Primitives) where
  roots : (bs : List Bytes) → map (root p) (leaves_of bs) ≡ chunk_hashes p bs
  unfolding chunk_hashes
  roots [] = refl
  roots (b ∷ bs) = λ i. p.sha256 (domain_chunk ++ b) ∷ roots bs i

  -- The reduction of some chunk hashes is the root of a tree over their bodies.
  reduce-root :
      (b : Bytes) (bs : List Bytes)
      → (t : Tree) × (reduce p (chunk_hashes p (b ∷ bs)) ≡ some (root p t)) × (flatten t ≡ b ∷ bs)
  unfolding reduce
  reduce-root b bs =
      let level = chunk_hashes p (b ∷ bs) in
      let size : length (leaves_of (b ∷ bs)) ≡ length level =
        sym (length-map (root p) (leaves_of (b ∷ bs))) ∙ ap length (roots (b ∷ bs)) in
      let (t, e, f) = reduce_loop-root p (length level) (chunk b) (leaves_of bs) (omega arith) in
      (
        t,
        ap (reduce_loop p (length level)) (sym (roots (b ∷ bs))) ∙ e,
        f ∙ flatten-leaves_of (b ∷ bs),
      )

  bodies_of_some :
      (x : Leaf) (xs : List Leaf) (n : ℕ) (bodies : List Bytes)
      → chunk_bodies 0 (chunks (length (x ∷ xs)) (suc n) (x ∷ xs)) ≡ ok bodies
      → (b : Bytes) × (bs : List Bytes) × (bodies ≡ b ∷ bs)
  unfolding chunks
  bodies_of_some x xs n bodies h =
      let (e, es, he, hes, x2) = chunk_bodies_cons 0 _ _ bodies h in (e, es, ground arith)

  reduced_tree :
      (b : Bytes) (bs : List Bytes)
      → (t : Tree) × (reduced p (ok (b ∷ bs)) ≡ some (ok (root p t))) × (flatten t ≡ b ∷ bs)
  unfolding reduced
  reduced_tree b bs = let (t, e, f) = reduce-root b bs in (t, ap returned e, f)

  abbrev made : Leaf → List Leaf → ℕ → Result KernelError (List Bytes)
  made x xs n = chunk_bodies 0 (chunks (length (x ∷ xs)) (suc n) (x ∷ xs))

  -- Either the chunks encode, and the root is that of a tree over their bodies, or the root fails with
  -- their error.
  root_cases :
      (x : Leaf) (xs : List Leaf) (n : ℕ)
      → ((t : Tree) × (root_from_leaves p (x ∷ xs) (suc n) ≡ some (ok (root p t)))
          × (made x xs n ≡ ok (flatten t)))
        ⊎ ((e : KernelError) × (root_from_leaves p (x ∷ xs) (suc n) ≡ some (err e)))
  unfolding root_from_leaves reduced
  root_cases x xs n = elim (Result-cases (made x xs n)) [
    | inl (bodies, h) ↦
        let (b, bs, same) = bodies_of_some x xs n bodies h in
        let (t, e, f) = reduced_tree b bs in
        inl (t, ap (reduced p) (h ∙ ap ok same) ∙ e, h ∙ ap ok (same ∙ sym f))
    | inr (e, h) ↦ inr (e, ap (reduced p) h)
  ]

  -- Computing the root never panics and never runs past its passes: there is a root or an error, for
  -- every list of leaves and every page size.
  pub root_from_leaves_total :
      (leaves : List Leaf) (page_size : ℕ)
      → (r : Result KernelError Bytes) × (root_from_leaves p leaves page_size ≡ some r)
  unfolding root_from_leaves
  root_from_leaves_total leaves zero = (err limit_exceeded, refl)
  root_from_leaves_total [] (suc n) = (ok (empty_root p), refl)
  root_from_leaves_total (x ∷ xs) (suc n) = elim (root_cases x xs n) [
    | inl (t, e, f) ↦ (ok (root p t), e)
    | inr (e, h) ↦ (err e, h)
  ]

  -- The tree behind a root.
  root_tree :
      (x : Leaf) (xs : List Leaf) (n : ℕ) (h : Bytes)
      → root_from_leaves p (x ∷ xs) (suc n) ≡ some (ok h)
      → (t : Tree) × (root p t ≡ h) × (made x xs n ≡ ok (flatten t))
  root_tree x xs n h e = elim (root_cases x xs n) [
    | inl (t, r, f) ↦ (t, some_ok (root p t) h (sym r ∙ e), f)
    | inr (f, r) ↦ absurd (failed f h (sym r ∙ e))
  ]
    where
      failed :
          (f : KernelError) (h : Bytes)
          → ◌≢◌ {A = Option (Result KernelError Bytes)} (some (err f)) (some (ok h))
      failed f h e = ground arith

  empty_apart : (t : Tree) → root p t ≡ empty_root p → Collision p.sha256
  unfolding empty_root
  empty_apart (chunk b) h = elim (same_or_Collision p.sha256 _ _ h) [
    | inl e ↦ absurd (different_chunk (ap (byte_at 15) e))
    | inr found ↦ found
  ]
  empty_apart (node l r) h = elim (same_or_Collision p.sha256 _ _ h) [
    | inl e ↦ absurd (different_node (ap (byte_at 15) e))
    | inr found ↦ found
  ]

  no_root_zero : (ls : List Leaf) (h : Bytes) → root_from_leaves p ls 0 ≢ some (ok h)
  unfolding root_from_leaves
  no_root_zero ls h e = ground arith

  empty_is_root :
      (n : ℕ) (h : Bytes) → root_from_leaves p [] (suc n) ≡ some (ok h) → empty_root p ≡ h
  unfolding root_from_leaves
  empty_is_root n h e = some_ok (empty_root p) h e

  module _ (wide : (b : Bytes) → length (p.sha256 b) ≡ 32) where
    -- With 32-byte hashes, one manifest root stands for one list of leaf hashes, in order and whatever the
    -- two page sizes, or it exhibits a collision of SHA-256.
    pub root_from_leaves_binds :
        (ls ms : List Leaf) (m n : ℕ) (h : Bytes)
        → root_from_leaves p ls m ≡ some (ok h)
        → root_from_leaves p ms n ≡ some (ok h)
        → (hashes ls ≡ hashes ms) ⊎ Collision p.sha256
    root_from_leaves_binds ls ms zero n h x y = absurd (no_root_zero ls h x)
    root_from_leaves_binds ls ms (suc m) zero h x y = absurd (no_root_zero ms h y)
    root_from_leaves_binds [] [] (suc m) (suc n) h x y = inl refl
    root_from_leaves_binds [] (b ∷ ms) (suc m) (suc n) h x y =
        let (t, r, f) = root_tree b ms n h y in inr (empty_apart t (r ∙ sym (empty_is_root m h x)))
    root_from_leaves_binds (a ∷ ls) [] (suc m) (suc n) h x y =
        let (t, r, f) = root_tree a ls m h x in inr (empty_apart t (r ∙ sym (empty_is_root n h y)))
    root_from_leaves_binds (a ∷ ls) (b ∷ ms) (suc m) (suc n) h x y =
        let (t, r, f) = root_tree a ls m h x in
        let (u, q, g) = root_tree b ms n h y in
        elim (root_binds p wide t u (r ∙ sym q)) [
          | inl e ↦ inl (
              sym (ap hashes (together-chunks (length (a ∷ ls)) (suc m) (a ∷ ls) (omega arith)))
              ∙ bodies_bind 0 0 _ _ (flatten u) (f ∙ ap (λ (v : Tree). ok (flatten v)) e) g
              ∙ ap hashes (together-chunks (length (b ∷ ms)) (suc n) (b ∷ ms) (omega arith)))
          | inr found ↦ inr found
        ]

  leaf_body :
      (a : Bytes) (r j : ℕ) (x : Bytes) (u : Bool) (h : Bytes)
      → leaf_hash p a r j x u ≡ some h
      → (body : Bytes) × (encode_evidence (leaf_evidence a r j x u) ≡ ok body)
        × (p.sha256 (domain_leaf ++ body) ≡ h)
  unfolding leaf_hash
  leaf_body a r j x u h q = elim (Result-cases (encode_evidence (leaf_evidence a r j x u))) [
    | inl (body, e) ↦ (body, e, ground arith)
    | inr (f, e) ↦ absurd (ground arith)
  ]

  -- One leaf hash stands for one record's identity, revision, key epoch, envelope hash and tombstone flag,
  -- or it exhibits a collision of SHA-256.
  pub leaf_hash_binds :
      (a b : Bytes) (r s j k : ℕ) (x y : Bytes) (u v : Bool) (h : Bytes)
      → leaf_hash p a r j x u ≡ some h
      → leaf_hash p b s k y v ≡ some h
      → ((a ≡ b) × (r ≡ s) × (j ≡ k) × (x ≡ y) × (u ≡ v)) ⊎ Collision p.sha256
  leaf_hash_binds a b r s j k x y u v h q w =
      let (c, hc, qc) = leaf_body a r j x u h q in
      let (d, hd, wd) = leaf_body b s k y v h w in
      elim (same_or_Collision p.sha256 _ _ (qc ∙ sym wd)) [
        | inl e ↦
            let (same, rest) =
              encode_evidence-cancel (leaf_evidence a r j x u) (leaf_evidence b s k y v) c d [] []
                hc hd (ap (λ (t : Bytes). drop 20 t ++ []) e) in
            inl (
              ap (λ (t : Evidence). octets (at 0 t)) same,
              ap (λ (t : Evidence). number (at 1 t)) same,
              ap (λ (t : Evidence). number (at 2 t)) same,
              ap (λ (t : Evidence). octets (at 3 t)) same,
              ap (λ (t : Evidence). flag (at 4 t)) same,
            )
        | inr found ↦ inr found
      ]
