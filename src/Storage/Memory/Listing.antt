-- ===== src/Storage/Memory/Listing.antt =====
-- `list` and `list_bodies` of `InMemoryStore`: which rows, in what order, in which pages.
use veyora.Prelude.{
  ℕ, zero, suc, ◌+◌, ◌≤◌, ◌≡◌, ◌↔◌, refl, sym, ◌⊎◌, inl, inr, Bytes, bytes_eq, bytes_eq_iff,
  bytes_lt, bytes_lt_trans, bytes_lt_irrefl, bytes_ge_trans, none, some, List, [], ◌∷◌, ◌++◌, map,
  ok, arith, true, false, Bool-cases, length, take, drop, filter, length-take, drop-drop, leb,
}
use veyora.Storage.Assoc.{Key, HashMap, lookup, key_eq, key_eq_iff, key_eq_refl, Distinct}
use veyora.Storage.Port.{GenericEncryptedRecordV1}
use veyora.Storage.Memory.{
  InMemoryStore, key_of, get, paged, insert_by_id, sort_by_id, values, vault_rows, list_bodies,
}

pub map-take {ℓ κ} :
    {A : Type ℓ} {B : Type κ} (f : A → B) (n : ℕ) (xs : List A)
    → map f (take n xs) ≡ take n (map f xs)
map-take f zero xs = refl
map-take f (suc n) [] = refl
map-take f (suc n) (x ∷ xs) = rw (map-take f n xs) refl

pub map-drop {ℓ κ} :
    {A : Type ℓ} {B : Type κ} (f : A → B) (n : ℕ) (xs : List A)
    → map f (drop n xs) ≡ drop n (map f xs)
map-drop f zero xs = refl
map-drop f (suc n) [] = refl
map-drop f (suc n) (x ∷ xs) = map-drop f n xs

module _ {ℓ} {A : Type ℓ} where
  take-take-drop : (a b : ℕ) (xs : List A) → take a xs ++ take b (drop a xs) ≡ take (a + b) xs
  take-take-drop zero b xs = rw (let e : 0 + b ≡ b = omega arith in e)
  take-take-drop (suc a) zero [] = rw (let e : suc a + 0 ≡ suc a = omega arith in e)
  take-take-drop (suc a) (suc b) [] =
      rw (let e : suc a + suc b ≡ suc (a + suc b) = omega arith in e)
  take-take-drop (suc a) b (x ∷ xs) =
      rw (let e : suc a + b ≡ suc (a + b) = omega arith in e) (rw (take-take-drop a b xs))

  pub drop_all : (n : ℕ) (xs : List A) → length xs ≤ n → drop n xs ≡ []
  drop_all zero [] h = refl
  drop_all zero (x ∷ xs) h = absurd (omega arith)
  drop_all (suc n) [] h = refl
  drop_all (suc n) (x ∷ xs) h = drop_all n xs (omega arith)

  take_nil : (n : ℕ) (xs : List A) → xs ≡ [] → take n xs ≡ []
  take_nil zero xs h = refl
  take_nil (suc n) [] h = refl
  take_nil (suc n) (x ∷ xs) h = cc

  pub paged-drop :
      (rows : List A) (limit offset : ℕ) → paged rows limit offset ≡ take limit (drop offset rows)
  unfolding paged
  paged-drop rows limit offset = elim (Bool-cases (leb (length rows) offset)) [
    | inl past ↦ rw past (sym (take_nil limit _ (drop_all offset rows (ground arith))))
    | inr inside ↦ rw inside
  ]

-- A page never holds more than its limit.
pub length-list_bodies :
    (vault : Bytes) (limit offset : ℕ) (s : InMemoryStore)
    → length (list_bodies vault limit offset s) ≤ limit
unfolding list_bodies
length-list_bodies vault limit offset s = rw (paged-drop, length-take) (omega arith)

-- Two pages that follow one another are one page of the summed limit: paging skips no row and
-- repeats none.
pub list_bodies_pages :
    (vault : Bytes) (a b offset : ℕ) (s : InMemoryStore)
    → list_bodies vault a offset s ++ list_bodies vault b (offset + a) s
      ≡ list_bodies vault (a + b) offset s
unfolding list_bodies
list_bodies_pages vault a b offset s =
    rw (paged-drop, paged-drop, paged-drop)
      (rw (← drop-drop a offset (vault_rows vault s)) (take-take-drop a b _))

-- The rows in the order of their ids: no row has a smaller id than one before it.
abbrev pub NoneBelow : Bytes → List GenericEncryptedRecordV1 → Type 0
NoneBelow id [] = Unit
NoneBelow id (q ∷ qs) = (bytes_lt q.record_id id ≡ false) × NoneBelow id qs

abbrev pub IsSorted : List GenericEncryptedRecordV1 → Type 0
IsSorted [] = Unit
IsSorted (r ∷ rs) = NoneBelow r.record_id rs × IsSorted rs

NoneBelow-insert :
    (id : Bytes) (r : GenericEncryptedRecordV1) (rs : List GenericEncryptedRecordV1)
    → bytes_lt r.record_id id ≡ false
    → NoneBelow id rs
    → NoneBelow id (insert_by_id r rs)
unfolding insert_by_id
NoneBelow-insert id r [] h n = (h, tt)
NoneBelow-insert id r (q ∷ qs) h (n, ns) = elim (Bool-cases (bytes_lt q.record_id r.record_id)) [
  | inl lt ↦ rw lt (n, NoneBelow-insert id r qs h ns)
  | inr ge ↦ rw ge (h, (n, ns))
]

-- An id below the head of a sorted rest is below the rest.
NoneBelow-trans :
    (a b : Bytes) (rs : List GenericEncryptedRecordV1)
    → bytes_lt b a ≡ false
    → NoneBelow b rs
    → NoneBelow a rs
NoneBelow-trans a b [] h n = tt
NoneBelow-trans a b (q ∷ qs) h (n, ns) =
    (bytes_ge_trans q.record_id b a n h, NoneBelow-trans a b qs h ns)

IsSorted-insert :
    (r : GenericEncryptedRecordV1) (rs : List GenericEncryptedRecordV1)
    → IsSorted rs
    → IsSorted (insert_by_id r rs)
unfolding insert_by_id
IsSorted-insert r [] h = (tt, tt)
IsSorted-insert r (q ∷ qs) (n, h) = elim (Bool-cases (bytes_lt q.record_id r.record_id)) [
  | inl lt ↦ rw lt (
    NoneBelow-insert q.record_id r qs
        (ground
          (arith, bytes_lt_irrefl q.record_id, bytes_lt_trans q.record_id r.record_id q.record_id))
        n,
    IsSorted-insert r qs h,
  )
  | inr ge ↦ rw ge ((ge, NoneBelow-trans r.record_id q.record_id qs ge n), (n, h))
]

IsSorted-sort : (rs : List GenericEncryptedRecordV1) → IsSorted (sort_by_id rs)
unfolding sort_by_id
IsSorted-sort [] = tt
IsSorted-sort (r ∷ rs) = IsSorted-insert r (sort_by_id rs) (IsSorted-sort rs)

abbrev pub Member : GenericEncryptedRecordV1 → List GenericEncryptedRecordV1 → Type 0
Member r [] = ⊥
Member r (q ∷ qs) = (q ≡ r) ⊎ Member r qs

Member-insert :
    (q r : GenericEncryptedRecordV1) (rs : List GenericEncryptedRecordV1)
    → Member q (insert_by_id r rs) ↔ ((r ≡ q) ⊎ Member q rs)
unfolding insert_by_id
Member-insert q r [] = ((λ h. h), λ h. h)
Member-insert q r (p ∷ ps) = elim (Bool-cases (bytes_lt p.record_id r.record_id)) [
  | inl lt ↦ let ih = Member-insert q r ps in rw lt (swap_in ih.0, swap_out ih.1)
  | inr ge ↦ rw ge ((λ h. h), λ h. h)
]
  where
    swap_in : {A B C D : Type 0} → (A → B ⊎ C) → D ⊎ A → B ⊎ (D ⊎ C)
    swap_in f (inl d) = inr (inl d)
    swap_in f (inr a) = elim (f a) [ inl b ↦ inl b | inr c ↦ inr (inr c) ]

    swap_out : {A B C D : Type 0} → (B ⊎ C → A) → B ⊎ (D ⊎ C) → D ⊎ A
    swap_out f (inl b) = inr (f (inl b))
    swap_out f (inr (inl d)) = inl d
    swap_out f (inr (inr c)) = inr (f (inr c))

Member-sort :
    (q : GenericEncryptedRecordV1) (rs : List GenericEncryptedRecordV1)
    → Member q (sort_by_id rs) ↔ Member q rs
unfolding sort_by_id
Member-sort q [] = ((λ h. h), λ h. h)
Member-sort q (r ∷ rs) =
    let ih = Member-sort q rs in
    let one = Member-insert q r (sort_by_id rs) in
    (
      (λ h. elim (one.0 h) [ inl e ↦ inl e | inr m ↦ inr (ih.0 m) ]),
      λ h. one.1 (elim h [ inl e ↦ inl e | inr m ↦ inr (ih.1 m) ]),
    )

module _ (k : Key) (q : GenericEncryptedRecordV1) (m : HashMap GenericEncryptedRecordV1) where
  pub lookup-tail :
      (j : Key) (p : GenericEncryptedRecordV1)
      → lookup k m ≡ none
      → lookup j m ≡ some p
      → lookup j ((k, q) ∷ m) ≡ some p
  unfolding lookup
  lookup-tail j p f h = ground (arith, key_eq_iff k j)

  lookup-head :
      (j : Key) (p : GenericEncryptedRecordV1)
      → lookup j ((k, q) ∷ m) ≡ some p
      → ((k ≡ j) × (q ≡ p)) ⊎ (lookup j m ≡ some p)
  unfolding lookup
  lookup-head j p h = elim (Bool-cases (key_eq k j)) [
    | inl e ↦ inl ((key_eq_iff k j).0 e, ground arith)
    | inr e ↦ inr (ground arith)
  ]

  pub lookup-here : lookup k ((k, q) ∷ m) ≡ some q
  unfolding lookup
  lookup-here = rw (key_eq_refl k)

abbrev pub IsKeyed : HashMap GenericEncryptedRecordV1 → Type 0
IsKeyed m = (k : Key) (q : GenericEncryptedRecordV1) → lookup k m ≡ some q → key_of q ≡ k

abbrev pub of_vault : Bytes → HashMap GenericEncryptedRecordV1 → List GenericEncryptedRecordV1
of_vault vault m = filter (λ q. bytes_eq q.vault_id vault) (values m)

Member-cons :
    (vault : Bytes) (r q : GenericEncryptedRecordV1) (k : Key)
    (m : HashMap GenericEncryptedRecordV1)
    → Member r (of_vault vault ((k, q) ∷ m))
      ↔ (((bytes_eq q.vault_id vault ≡ true) × (q ≡ r)) ⊎ Member r (of_vault vault m))
Member-cons vault r q k m = elim (Bool-cases (bytes_eq q.vault_id vault)) [
  | inl e ↦ rw e (
    (λ h. elim h [ inl p ↦ inl (refl, p) | inr n ↦ inr n ]),
    λ h. elim h [ inl p ↦ inl p.1 | inr n ↦ inr n ],
  )
  | inr e ↦ rw e ((λ h. inr h), λ h. elim h [ inl p ↦ cc p.0 | inr n ↦ n ])
]

pub Member-values :
    (vault : Bytes) (r : GenericEncryptedRecordV1) (m : HashMap GenericEncryptedRecordV1)
    → Distinct m
    → IsKeyed m
    → Member r (of_vault vault m) ↔ ((r.vault_id ≡ vault) × (lookup (key_of r) m ≡ some r))
Member-values vault r [] d keyed = ((λ h. absurd h), λ h. unfold lookup in cc h.1)
Member-values vault r ((k, q) ∷ m) (f, d) keyed =
    let at : key_of q ≡ k = keyed k q (lookup-here k q m) in
    let ih = Member-values vault r m d (λ j p h. keyed j p (lookup-tail k q m j p f h)) in
    let here = Member-cons vault r q k m in
    (
      (λ h. elim (here.0 h) [
        | inl (e, same) ↦
            (rw (← same) ((bytes_eq_iff q.vault_id vault).0 e), rw (← same, at) (lookup-here k q m))
        | inr n ↦ ((ih.0 n).0, lookup-tail k q m (key_of r) r f (ih.0 n).1)
      ]),
      λ (v, h). here.1 (elim (lookup-head k q m (key_of r) r h) [
        | inl (e, same) ↦ inl (rw same ((bytes_eq_iff r.vault_id vault).1 v), same)
        | inr n ↦ inr (ih.1 (v, n))
      ]),
    )

get_iff :
    (w id : Bytes) (s : InMemoryStore) (r : GenericEncryptedRecordV1)
    → (get w id s ≡ ok r) ↔ (lookup (w, id) s.rows ≡ some r)
unfolding get
get_iff w id s r = ((λ h. ground arith), λ h. ground arith)

-- The rows of a vault are in the order of the record ids and are exactly the records of that vault that
-- `get` returns.
pub vault_rows_complete :
    (vault : Bytes) (s : InMemoryStore)
    → Distinct s.rows
    → IsKeyed s.rows
    → IsSorted (vault_rows vault s)
      × ((r : GenericEncryptedRecordV1)
          → Member r (vault_rows vault s)
            ↔ ((r.vault_id ≡ vault) × (get r.vault_id r.record_id s ≡ ok r)))
unfolding vault_rows
vault_rows_complete vault s d keyed = (
  IsSorted-sort _,
  λ r.
      let sorted = Member-sort r (of_vault vault s.rows) in
      let stored = Member-values vault r s.rows d keyed in
      let read = get_iff r.vault_id r.record_id s r in
      (
        (λ h. let (e, found) = stored.0 (sorted.0 h) in (e, read.1 found)),
        λ (e, h). sorted.1 (stored.1 (e, read.0 h)),
      ),
)
