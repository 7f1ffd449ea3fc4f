-- ===== src/Storage/Memory/Pages.antt =====
-- What a client reads that asks `list_bodies` or `list` of `InMemoryStore` for one page after the other.
use veyora.Prelude.{
  ℕ, zero, suc, ◌+◌, ◌*◌, ◌≤◌, ◌≡◌, ◌↔◌, refl, sym, ap, ◌∙◌, inl, inr, Bytes, bytes_eq,
  bytes_eq_iff, bytes_lt, bytes_lt_total, none, some, List, [], ◌∷◌, ◌++◌, map, ok, arith, true,
  false, Bool-cases, All, take, drop,
}
use veyora.Storage.Assoc.{HashMap, lookup, Distinct}
use veyora.Storage.Port.{GenericEncryptedRecordV1}
use veyora.Storage.Memory.{
  InMemoryStore, key_of, get, insert_by_id, sort_by_id, vault_rows, list_bodies, list, summary,
}
use veyora.Storage.Memory.Listing.{
  map-take, map-drop, paged-drop, list_bodies_pages, NoneBelow, IsSorted, Member, IsKeyed, of_vault,
  lookup-tail, lookup-here, Member-values, vault_rows_complete,
}

-- No row has the id, and no two rows have one id.
abbrev Fresh : Bytes → List GenericEncryptedRecordV1 → Type 0
Fresh id = All (λ q. bytes_eq q.record_id id ≡ false)

abbrev Separate : List GenericEncryptedRecordV1 → Type 0
Separate [] = Unit
Separate (r ∷ rs) = Fresh r.record_id rs × Separate rs

differs_sym : (a b : Bytes) → bytes_eq a b ≡ false → bytes_eq b a ≡ false
differs_sym a b h = ground (arith, h, bytes_eq_iff a b, bytes_eq_iff b a)

Fresh-insert :
    (id : Bytes) (r : GenericEncryptedRecordV1) (rs : List GenericEncryptedRecordV1)
    → bytes_eq r.record_id id ≡ false
    → Fresh id rs
    → Fresh id (insert_by_id r rs)
unfolding insert_by_id
Fresh-insert id r [] h f = (h, tt)
Fresh-insert id r (q ∷ qs) h (f, fs) = elim (Bool-cases (bytes_lt q.record_id r.record_id)) [
  | inl lt ↦ rw lt (f, Fresh-insert id r qs h fs)
  | inr ge ↦ rw ge (h, (f, fs))
]

Separate-insert :
    (r : GenericEncryptedRecordV1) (rs : List GenericEncryptedRecordV1)
    → Fresh r.record_id rs
    → Separate rs
    → Separate (insert_by_id r rs)
unfolding insert_by_id
Separate-insert r [] f h = (tt, tt)
Separate-insert r (q ∷ qs) (f, fs) (g, h) = elim (Bool-cases (bytes_lt q.record_id r.record_id)) [
  | inl lt ↦ rw lt (
    Fresh-insert q.record_id r qs (differs_sym q.record_id r.record_id f) g,
    Separate-insert r qs fs h,
  )
  | inr ge ↦ rw ge ((f, fs), (g, h))
]

Fresh-sort :
    (id : Bytes) (rs : List GenericEncryptedRecordV1) → Fresh id rs → Fresh id (sort_by_id rs)
unfolding sort_by_id
Fresh-sort id [] f = tt
Fresh-sort id (r ∷ rs) (f, fs) = Fresh-insert id r (sort_by_id rs) f (Fresh-sort id rs fs)

Separate-sort : (rs : List GenericEncryptedRecordV1) → Separate rs → Separate (sort_by_id rs)
unfolding sort_by_id
Separate-sort [] h = tt
Separate-sort (r ∷ rs) (f, h) =
    Separate-insert r (sort_by_id rs) (Fresh-sort r.record_id rs f) (Separate-sort rs h)

-- Ids that rise from row to row.
abbrev pub IsRising : List GenericEncryptedRecordV1 → Type 0
IsRising [] = Unit
IsRising (r ∷ rs) = All (λ q. bytes_lt r.record_id q.record_id ≡ true) rs × IsRising rs

above :
    (id : Bytes) (rs : List GenericEncryptedRecordV1)
    → NoneBelow id rs
    → Fresh id rs
    → All (λ q. bytes_lt id q.record_id ≡ true) rs
above id [] n f = tt
above id (q ∷ qs) (n, ns) (f, fs) = (
  elim (Bool-cases (bytes_lt id q.record_id)) [
    | inl lt ↦ lt
    | inr ge ↦ ground (arith, f, bytes_eq_iff q.record_id id, bytes_lt_total q.record_id id n ge)
  ],
  above id qs ns fs,
)

IsRising-sorted : (rs : List GenericEncryptedRecordV1) → IsSorted rs → Separate rs → IsRising rs
IsRising-sorted [] h f = tt
IsRising-sorted (r ∷ rs) (n, h) (f, fs) = (above r.record_id rs n f, IsRising-sorted rs h fs)

Fresh-members :
    (id : Bytes) (rs : List GenericEncryptedRecordV1)
    → ((q : GenericEncryptedRecordV1) → Member q rs → bytes_eq q.record_id id ≡ false)
    → Fresh id rs
Fresh-members id [] h = tt
Fresh-members id (q ∷ qs) h = (h q (inl refl), Fresh-members id qs (λ p m. h p (inr m)))

other_id :
    (q p : GenericEncryptedRecordV1) (vault : Bytes) (m : HashMap GenericEncryptedRecordV1)
    → q.vault_id ≡ vault
    → p.vault_id ≡ vault
    → lookup (key_of q) m ≡ none
    → lookup (key_of p) m ≡ some p
    → bytes_eq p.record_id q.record_id ≡ false
other_id q p vault m v w absent found = elim (Bool-cases (bytes_eq p.record_id q.record_id)) [
  | inl e ↦
      let same : key_of p ≡ key_of q =
        λ i. ((w ∙ sym v) i, (bytes_eq_iff p.record_id q.record_id).0 e i) in
      cc (found, absent, ap (λ k. lookup k m) same)
  | inr e ↦ e
]

Separate-of_vault :
    (vault : Bytes) (m : HashMap GenericEncryptedRecordV1)
    → Distinct m
    → IsKeyed m
    → Separate (of_vault vault m)
Separate-of_vault vault [] d keyed = tt
Separate-of_vault vault ((k, q) ∷ m) (f, d) keyed =
    let at : key_of q ≡ k = keyed k q (lookup-here k q m) in
    let below : IsKeyed m = λ j p h. keyed j p (lookup-tail k q m j p f h) in
    let rest = Separate-of_vault vault m d below in
    elim (Bool-cases (bytes_eq q.vault_id vault)) [
      | inl e ↦ rw e (
        Fresh-members q.record_id (of_vault vault m) (λ p h.
            let (w, found) = (Member-values vault p m d below).0 h in
            other_id q p vault m ((bytes_eq_iff q.vault_id vault).0 e) w (rw at f) found),
        rest,
      )
      | inr e ↦ rw e rest
    ]

-- The first `n` pages of a listing from an offset on.
abbrev pub pages : Bytes → ℕ → ℕ → ℕ → InMemoryStore → List GenericEncryptedRecordV1
pages vault limit zero offset s = []
pages vault limit (suc n) offset s =
    list_bodies vault limit offset s ++ pages vault limit n (offset + limit) s

no_page : (vault : Bytes) (offset : ℕ) (s : InMemoryStore) → list_bodies vault 0 offset s ≡ []
unfolding list_bodies
no_page vault offset s = rw paged-drop refl

next_end : (limit n : ℕ) → limit + n * limit ≡ suc n * limit
next_end limit n = omega arith

pages_lem :
    (vault : Bytes) (limit n offset : ℕ) (s : InMemoryStore)
    → pages vault limit n offset s ≡ list_bodies vault (n * limit) offset s
pages_lem vault limit zero offset s =
    let e : 0 * limit ≡ 0 = omega arith in rw e (sym (no_page vault offset s))
pages_lem vault limit (suc n) offset s = rw (pages_lem vault limit n (offset + limit) s) (
    list_bodies_pages vault limit (n * limit) offset s
    ∙ ap (λ k. list_bodies vault k offset s) (next_end limit n))

all_taken {ℓ} :
    {A : Type ℓ} (limit n : ℕ) (xs : List A)
    → 1 ≤ limit
    → take limit (drop n xs) ≡ []
    → take n xs ≡ xs
all_taken limit zero [] h e = refl
all_taken zero zero (x ∷ xs) h e = absurd (omega (arith, h))
all_taken (suc limit) zero (x ∷ xs) h e = cc e
all_taken limit (suc n) [] h e = refl
all_taken limit (suc n) (x ∷ xs) h e = rw (all_taken limit n xs h e) refl

whole :
    (vault : Bytes) (limit n : ℕ) (s : InMemoryStore)
    → 1 ≤ limit
    → list_bodies vault limit (n * limit) s ≡ []
    → list_bodies vault (n * limit) 0 s ≡ vault_rows vault s
unfolding list_bodies
whole vault limit n s some_row h =
    paged-drop (vault_rows vault s) (n * limit) 0
    ∙ all_taken limit (n * limit) (vault_rows vault s) some_row
        (sym (paged-drop (vault_rows vault s) limit (n * limit)) ∙ h)

all_pages :
    (vault : Bytes) (limit n : ℕ) (s : InMemoryStore)
    → 1 ≤ limit
    → list_bodies vault limit (n * limit) s ≡ []
    → pages vault limit n 0 s ≡ vault_rows vault s
all_pages vault limit n s some_row e =
    pages_lem vault limit n 0 s ∙ whole vault limit n s some_row e

vault_rows-Separate :
    (vault : Bytes) (s : InMemoryStore)
    → Distinct s.rows
    → IsKeyed s.rows
    → Separate (vault_rows vault s)
unfolding vault_rows
vault_rows-Separate vault s d keyed =
    Separate-sort (of_vault vault s.rows) (Separate-of_vault vault s.rows d keyed)

list_summaries :
    (vault : Bytes) (limit offset : ℕ) (s : InMemoryStore)
    → list vault limit offset s ≡ map summary (list_bodies vault limit offset s)
unfolding list list_bodies
list_summaries vault limit offset s = rw (paged-drop, paged-drop, map-take, map-drop) refl

-- On a store in which every row stands under its own key and no key stands twice: the pages of a
-- listing, asked for with one limit of at least 1 until a page is empty, hold together, in the order
-- of the record ids and each once, exactly the records of the vault that `get` returns. A page of
-- summaries is the summaries of the page of bodies.
pub pages_complete :
    (vault : Bytes) (limit n : ℕ) (s : InMemoryStore)
    → Distinct s.rows
    → IsKeyed s.rows
    → 1 ≤ limit
    → list_bodies vault limit (n * limit) s ≡ []
    → IsRising (pages vault limit n 0 s)
      × ((r : GenericEncryptedRecordV1)
          → Member r (pages vault limit n 0 s)
            ↔ ((r.vault_id ≡ vault) × (get r.vault_id r.record_id s ≡ ok r)))
      × ((offset : ℕ) → list vault limit offset s ≡ map summary (list_bodies vault limit offset s))
pages_complete vault limit n s d keyed some_row last =
    let (sorted, exact) = vault_rows_complete vault s d keyed in
    rw (all_pages vault limit n s some_row last) (
      IsRising-sorted (vault_rows vault s) sorted (vault_rows-Separate vault s d keyed),
      exact,
      λ offset. list_summaries vault limit offset s,
    )
