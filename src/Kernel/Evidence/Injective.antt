-- ===== src/Kernel/Evidence/Injective.antt =====
-- No two evidence values have one encoding, and no encoding is the start of another.
use veyora.Prelude.{
  ℕ, ◌+◌, ◌*◌, ◌/◌, ◌%◌, ◌^◌, ◌≤◌, ◌≡◌, refl, sym, ap, ◌∙◌, Bytes, Bool, true, false, [], ◌∷◌, ◌++◌,
  append_assoc, append-nil, Option, some, none, ok, arith, ltb, ◌==◌, if◌then◌else◌, length,
  Bool-cases, inl, inr,
}
use veyora.Kernel.Evidence.{
  Evidence, Items, bool, uint, bytes, array, nil, cons, count, head_limit, encode_evidence,
}
use veyora.Kernel.Evidence.Canonical.{
  head, fits, fits_items, canonical, canonical_items, encode_evidence-canonical,
}

-- A reader of heads: the major type, the argument and what follows.
read_one : ℕ → Bytes → Option (ℕ × ℕ × Bytes)
read_one m (x ∷ bs) = some (m, x, bs)
read_one m bs = none

read_two : ℕ → Bytes → Option (ℕ × ℕ × Bytes)
read_two m (x ∷ y ∷ bs) = some (m, x * 256 + y, bs)
read_two m bs = none

read_four : ℕ → Bytes → Option (ℕ × ℕ × Bytes)
read_four m (x ∷ y ∷ z ∷ w ∷ bs) = some (m, x * 2 ^ 24 + y * 2 ^ 16 + z * 256 + w, bs)
read_four m bs = none

read_head : Bytes → Option (ℕ × ℕ × Bytes)
unfolding read_one read_two read_four
read_head [] = none
read_head (b ∷ bs) =
    if ltb (b % 32) 24
    then some (b / 32, b % 32, bs)
    else if b % 32 == 24
    then read_one (b / 32) bs
    else if b % 32 == 25
    then read_two (b / 32) bs
    else read_four (b / 32) bs

read_head-head : (m v : ℕ) (r : Bytes) → v ≤ head_limit → read_head (head m v ++ r) ≡ some (m, v, r)
unfolding read_head head
read_head-head m v r h = ground arith

head_cancel :
    (m v n w : ℕ) (r s : Bytes)
    → v ≤ head_limit
    → w ≤ head_limit
    → head m v ++ r ≡ head n w ++ s
    → (m ≡ n) × (v ≡ w) × (r ≡ s)
head_cancel m v n w r s hv hw e =
    some_triple m v n w r s
      (sym (read_head-head m v r hv) ∙ ap read_head e ∙ read_head-head n w s hw)
  where
    some_triple :
        (m v n w : ℕ) (r s : Bytes)
        → ◌≡◌ {A = Option (ℕ × ℕ × Bytes)} (some (m, v, r)) (some (n, w, s))
        → (m ≡ n) × (v ≡ w) × (r ≡ s)
    some_triple m v n w r s e = ground arith

pub append_cancel :
    (xs ys r s : Bytes) → length xs ≡ length ys → xs ++ r ≡ ys ++ s → (xs ≡ ys) × (r ≡ s)
append_cancel [] [] r s h e = (refl, e)
append_cancel [] (y ∷ ys) r s h e = absurd (omega arith)
append_cancel (x ∷ xs) [] r s h e = absurd (omega arith)
append_cancel (x ∷ xs) (y ∷ ys) r s h e = ground (arith, append_cancel xs ys r s (omega arith))

-- The first head of a value.
abbrev major : Evidence → ℕ
major (bool b) = 7
major (uint n) = 0
major (bytes bs) = 2
major (array vs) = 4

abbrev argument : Evidence → ℕ
argument (bool b) = if b then 21 else 20
argument (uint n) = n
argument (bytes bs) = length bs
argument (array vs) = count vs

abbrev body : Evidence → Bytes
body (bool b) = []
body (uint n) = []
body (bytes bs) = bs
body (array vs) = canonical_items vs

canonical-head : (v : Evidence) → canonical v ≡ head (major v) (argument v) ++ body v
unfolding canonical
canonical-head (bool b) = sym (append-nil _)
canonical-head (uint n) = sym (append-nil _)
canonical-head _ = refl

argument-fits : (v : Evidence) → fits v ≡ true → argument v ≤ head_limit
unfolding fits
argument-fits (bool b) h = ground arith
argument-fits (uint n) h = ground arith
argument-fits (bytes bs) h = ground arith
argument-fits (array vs) h = ground arith

first_head :
    (v w : Evidence) (r s : Bytes)
    → fits v ≡ true
    → fits w ≡ true
    → canonical v ++ r ≡ canonical w ++ s
    → (major v ≡ major w) × (argument v ≡ argument w) × (body v ++ r ≡ body w ++ s)
first_head v w r s fv fw e =
    head_cancel (major v) (argument v) (major w) (argument w) (body v ++ r) (body w ++ s)
      (argument-fits v fv) (argument-fits w fw) (sym (split v r) ∙ e ∙ split w s)
  where
    split :
        (u : Evidence) (t : Bytes) → canonical u ++ t ≡ head (major u) (argument u) ++ (body u ++ t)
    split u t = rw (canonical-head u) (append_assoc (head (major u) (argument u)) (body u) t)

items_fit : (vs : Items) → fits (array vs) ≡ true → fits_items vs ≡ true
unfolding fits
items_fit vs h = ground arith

fits_cons :
    (v : Evidence) (vs : Items)
    → fits_items (cons v vs) ≡ true
    → (fits v ≡ true) × (fits_items vs ≡ true)
unfolding fits
fits_cons v vs h = ground arith

canonical-cons :
    (v : Evidence) (vs : Items) (r : Bytes)
    → canonical_items (cons v vs) ++ r ≡ canonical v ++ (canonical_items vs ++ r)
unfolding canonical
canonical-cons v vs r = append_assoc (canonical v) (canonical_items vs) r

canonical-nil : (r : Bytes) → canonical_items nil ++ r ≡ r
unfolding canonical
canonical-nil r = refl

bool_argument : (a b : Bool) → ◌≡◌ {A = ℕ} (if a then 21 else 20) (if b then 21 else 20) → a ≡ b
bool_argument true true h = refl
bool_argument false false h = refl
bool_argument true false h = absurd (omega arith)
bool_argument false true h = absurd (omega arith)

mutual
  canonical_cancel :
      (v w : Evidence) (r s : Bytes)
      → fits v ≡ true
      → fits w ≡ true
      → canonical v ++ r ≡ canonical w ++ s
      → (v ≡ w) × (r ≡ s)
  canonical_cancel (bool a) (bool b) r s fv fw e =
      let p = first_head (bool a) (bool b) r s fv fw e in (ap bool (bool_argument a b p.1), p.2)
  canonical_cancel (uint n) (uint m) r s fv fw e =
      let p = first_head (uint n) (uint m) r s fv fw e in (ap uint p.1, p.2)
  canonical_cancel (bytes xs) (bytes ys) r s fv fw e =
      let p = first_head (bytes xs) (bytes ys) r s fv fw e in
      let q = append_cancel xs ys r s p.1 p.2 in (ap bytes q.0, q.1)
  canonical_cancel (array vs) (array ws) r s fv fw e =
      let p = first_head (array vs) (array ws) r s fv fw e in
      let q = items_cancel vs ws r s p.1 (items_fit vs fv) (items_fit ws fw) p.2 in
      (ap array q.0, q.1)
  canonical_cancel v w r s fv fw e = absurd (omega (arith, first_head v w r s fv fw e))

  items_cancel :
      (vs ws : Items) (r s : Bytes)
      → count vs ≡ count ws
      → fits_items vs ≡ true
      → fits_items ws ≡ true
      → canonical_items vs ++ r ≡ canonical_items ws ++ s
      → (vs ≡ ws) × (r ≡ s)
  items_cancel nil nil r s c fv fw e = (refl, sym (canonical-nil r) ∙ e ∙ canonical-nil s)
  items_cancel nil (cons w ws) r s c fv fw e = absurd (omega arith)
  items_cancel (cons v vs) nil r s c fv fw e = absurd (omega arith)
  items_cancel (cons v vs) (cons w ws) r s c fv fw e =
      let (f, fs) = fits_cons v vs fv in
      let (g, gs) = fits_cons w ws fw in
      let (p, rest) =
        canonical_cancel v w _ _ f g (sym (canonical-cons v vs r) ∙ e ∙ canonical-cons w ws s) in
      let (ps, q) = items_cancel vs ws r s (omega arith) fs gs rest in ((λ i. cons (p i) (ps i)), q)

encoded :
    (v : Evidence) (b : Bytes) → encode_evidence v ≡ ok b → (fits v ≡ true) × (canonical v ≡ b)
encoded v b h = elim (Bool-cases (fits v)) [
  | inl e ↦ (e, cc (e, encode_evidence-canonical v))
  | inr e ↦ cc (e, encode_evidence-canonical v)
]

-- The encoding is injective and prefix free: where the bytes of two encoded values, each followed by
-- anything, agree, the values agree and so does what follows them.
pub encode_evidence-cancel :
    (v w : Evidence) (b c r s : Bytes)
    → encode_evidence v ≡ ok b
    → encode_evidence w ≡ ok c
    → b ++ r ≡ c ++ s
    → (v ≡ w) × (r ≡ s)
encode_evidence-cancel v w b c r s hv hw e =
    let (fv, ev) = encoded v b hv in
    let (fw, ew) = encoded w c hw in canonical_cancel v w r s fv fw (rw (ev, ew) e)
