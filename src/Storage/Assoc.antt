-- ===== src/Storage/Assoc.antt =====
-- The `HashMap<(String, String), V>` of packages/storage/persistence/src/lib.rs as an association
-- list. The order of the list stands for the unspecified iteration order of the map.
use veyora.Prelude.{
  ◌≡◌, refl, ◌↔◌, inl, inr, Bool, true, false, ◌&&◌, Option, none, some, List, [], ◌∷◌, arith,
  Bytes, bytes_eq, bytes_eq_iff, Bool-cases, if◌then◌else◌,
}

-- (vault_id, record_id)
abbrev pub Key : Type 0
Key = Bytes × Bytes

unfoldable pub key_eq : Key → Key → Bool
key_eq (v, r) (w, s) = bytes_eq v w && bytes_eq r s

pub key_eq_iff : (a b : Key) → (key_eq a b ≡ true) ↔ (a ≡ b)
unfolding key_eq
key_eq_iff (v, r) (w, s) = ground (arith, bytes_eq_iff v w, bytes_eq_iff r s)

pub key_eq_refl : (a : Key) → key_eq a a ≡ true
key_eq_refl a = (key_eq_iff a a).1 refl

abbrev pub HashMap {ℓ} : Type ℓ → Type ℓ
HashMap V = List (Key × V)

module _ {ℓ} {V : Type ℓ} where
  unfoldable pub lookup : Key → HashMap V → Option V
  lookup k [] = none
  lookup k ((j, v) ∷ m) = if key_eq j k then some v else lookup k m

  unfoldable pub insert : Key → V → HashMap V → HashMap V
  insert k v [] = (k, v) ∷ []
  insert k v ((j, w) ∷ m) = if key_eq j k then (k, v) ∷ m else (j, w) ∷ insert k v m

  unfoldable pub remove : Key → HashMap V → HashMap V
  remove k [] = []
  remove k ((j, v) ∷ m) = let rest = remove k m in if key_eq j k then rest else (j, v) ∷ rest

  -- `retain` with a test on the key
  unfoldable pub retain : (Key → Bool) → HashMap V → HashMap V
  retain p [] = []
  retain p ((j, v) ∷ m) = let rest = retain p m in if p j then (j, v) ∷ rest else rest

  pub lookup-insert :
      (k j : Key) (v : V) (m : HashMap V)
      → lookup j (insert k v m) ≡ (if key_eq k j then some v else lookup j m)
  unfolding lookup insert
  lookup-insert k j v [] = refl
  lookup-insert k j v ((i, w) ∷ m) =
      ground (arith, key_eq_iff k j, key_eq_iff i k, key_eq_iff i j, lookup-insert k j v m)

  pub lookup-remove :
      (k j : Key) (m : HashMap V)
      → lookup j (remove k m) ≡ (if key_eq k j then none else lookup j m)
  unfolding lookup remove
  lookup-remove k j [] = ground arith
  lookup-remove k j ((i, w) ∷ m) =
      ground (arith, key_eq_iff k j, key_eq_iff i k, key_eq_iff i j, lookup-remove k j m)

  pub lookup-retain :
      (p : Key → Bool) (j : Key) (m : HashMap V)
      → lookup j (retain p m) ≡ (if p j then lookup j m else none)
  unfolding lookup retain
  lookup-retain p j [] = ground arith
  lookup-retain p j ((i, w) ∷ m) = ground (arith, key_eq_iff i j, lookup-retain p j m)

  pub insert-insert : (k : Key) (v w : V) (m : HashMap V) → insert k w (insert k v m) ≡ insert k w m
  unfolding insert
  insert-insert k v w [] = rw (key_eq_refl k) refl
  insert-insert k v w ((j, x) ∷ m) = ground (arith, insert-insert k v w m, key_eq_refl k)

  pub retain-insert :
      (p : Key → Bool) (k : Key) (v : V) (m : HashMap V)
      → p k ≡ true
      → retain p (insert k v m) ≡ insert k v (retain p m)
  unfolding insert retain
  retain-insert p k v [] h = rw h refl
  retain-insert p k v ((j, x) ∷ m) h = elim (Bool-cases (key_eq j k)) [
    | inl e ↦ let at : p j ≡ true = rw ((key_eq_iff j k).0 e) h in ground (arith, e, h, at)
    | inr e ↦ ground (arith, e, retain-insert p k v m h)
  ]

pub ruleset map_laws = (lookup-insert, lookup-remove, lookup-retain)

-- No key stands twice, as in every `HashMap`.
abbrev pub Distinct {ℓ} : {V : Type ℓ} → HashMap V → Type ℓ
Distinct [] = Unit {ℓ}
Distinct ((k, v) ∷ m) = (lookup k m ≡ none) × Distinct m

module _ {ℓ} {V : Type ℓ} where
  pub Distinct-insert : (k : Key) (v : V) (m : HashMap V) → Distinct m → Distinct (insert k v m)
  unfolding insert lookup
  Distinct-insert k v [] d = (refl, tt)
  Distinct-insert k v ((j, w) ∷ m) (f, d) = elim (Bool-cases (key_eq j k)) [
    | inl e ↦ rw e (rw ((key_eq_iff j k).0 e) at f, d)
    | inr e ↦ rw e (rw lookup-insert (rw (ne e) f), Distinct-insert k v m d)
  ]
    where
      ne : key_eq j k ≡ false → key_eq k j ≡ false
      ne e = ground (arith, key_eq_iff j k, key_eq_iff k j)

  pub Distinct-remove : (k : Key) (m : HashMap V) → Distinct m → Distinct (remove k m)
  unfolding remove
  Distinct-remove k [] d = tt
  Distinct-remove k ((j, w) ∷ m) (f, d) = elim (Bool-cases (key_eq j k)) [
    | inl e ↦ rw e (Distinct-remove k m d)
    | inr e ↦ rw e (ground (arith, lookup-remove k j m), Distinct-remove k m d)
  ]

  pub Distinct-retain : (p : Key → Bool) (m : HashMap V) → Distinct m → Distinct (retain p m)
  unfolding retain
  Distinct-retain p [] d = tt
  Distinct-retain p ((j, w) ∷ m) (f, d) = elim (Bool-cases (p j)) [
    | inl e ↦ rw e (ground (arith, lookup-retain p j m), Distinct-retain p m d)
    | inr e ↦ rw e (Distinct-retain p m d)
  ]
