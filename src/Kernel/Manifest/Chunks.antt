-- ===== src/Kernel/Manifest/Chunks.antt =====
-- The chunks of a list of leaves, and what their encodings commit to.
use veyora.Prelude.{
  ℕ, zero, suc, ◌+◌, ◌-◌, ◌≡◌, ◌≢◌, ◌≤◌, refl, sym, ap, ◌∙◌, Bytes, List, [], ◌∷◌, ◌++◌, map,
  length, drop, take, take-append-drop, arith, Result, ok, >>=-eq-ok,
}
use veyora.Kernel.Error.{KernelError}
use veyora.Kernel.Evidence.{Evidence, bytes, array, items, encode_evidence}
use veyora.Kernel.Evidence.Injective.{encode_evidence-cancel}
use veyora.Kernel.Evidence.Fields.{at, octets, elements}
use veyora.Kernel.Manifest.{Leaf, Chunk, chunk_evidence, chunks, chunk_bodies}

-- The chunks of a list, one after the other, are the list.
abbrev pub together : List Chunk → List Leaf
together [] = []
together ((x, xs) ∷ cs) = x ∷ xs ++ together cs

length-drop : {A : Type 0} → (n : ℕ) (xs : List A) → length (drop n xs) ≤ length xs
length-drop zero xs = omega arith
length-drop (suc n) [] = omega arith
length-drop (suc n) (x ∷ xs) = omega (arith, length-drop n xs)

pub together-chunks :
    (fuel page_size : ℕ) (leaves : List Leaf)
    → length leaves ≤ fuel
    → together (chunks fuel page_size leaves) ≡ leaves
unfolding chunks
together-chunks fuel page_size [] h = refl
together-chunks zero page_size (x ∷ xs) h = absurd (omega arith)
together-chunks (suc fuel) page_size (x ∷ xs) h = λ i.
    x
    ∷ (ap (λ (t : List Leaf). take (page_size - 1) xs ++ t)
            (together-chunks fuel page_size (drop (page_size - 1) xs)
              (omega (arith, length-drop (page_size - 1) xs)))
          ∙ take-append-drop (page_size - 1) xs)
        i

-- The leaf hashes of a chunk, read back from its encoding.
abbrev pub hashes : List Leaf → List Bytes
hashes = map (λ l. l.1)

abbrev read_hashes : Evidence → List Bytes
read_hashes v = map octets (elements (at 3 v))

octets_back :
    (xs : List Leaf)
    → map octets (elements (array (items (map (λ (l : Leaf). bytes l.1) xs)))) ≡ hashes xs
octets_back [] = refl
octets_back (x ∷ xs) = λ i. x.1 ∷ octets_back xs i

hashes-append : (xs ys : List Leaf) → hashes (xs ++ ys) ≡ hashes xs ++ hashes ys
hashes-append [] ys = refl
hashes-append (x ∷ xs) ys = λ i. x.1 ∷ hashes-append xs ys i

uncons :
    (e f : Bytes) (es fs b : List Bytes)
    → ◌≡◌ {A = Result KernelError (List Bytes)} (ok (e ∷ es)) (ok b)
    → ◌≡◌ {A = Result KernelError (List Bytes)} (ok (f ∷ fs)) (ok b)
    → (e ≡ f) × (es ≡ fs)
uncons e f es fs b x y = ground arith

pub chunk_bodies_cons :
    (i : ℕ) (c : Chunk) (cs : List Chunk) (b : List Bytes)
    → chunk_bodies i (c ∷ cs) ≡ ok b
    → (e : Bytes) × (es : List Bytes) × (encode_evidence (chunk_evidence i c) ≡ ok e)
      × (chunk_bodies (i + 1) cs ≡ ok es)
      × (◌≡◌ {A = Result KernelError (List Bytes)} (ok (e ∷ es)) (ok b))
unfolding chunk_bodies
chunk_bodies_cons i c cs b x =
    let (e, he, x1) = >>=-eq-ok (encode_evidence (chunk_evidence i c)) _ x in
    let (es, hes, x2) = >>=-eq-ok (chunk_bodies (i + 1) cs) _ x1 in (e, es, he, hes, x2)

empty_bodies :
    (i j : ℕ) (c : Chunk) (cs : List Chunk) (b : List Bytes)
    → chunk_bodies i [] ≡ ok b
    → chunk_bodies j (c ∷ cs) ≢ ok b
unfolding chunk_bodies
empty_bodies i j c cs b x y =
    let (e, es, he, hes, y2) = chunk_bodies_cons j c cs b y in differ e es b x y2
  where
    differ :
        (e : Bytes) (es b : List Bytes)
        → ◌≡◌ {A = Result KernelError (List Bytes)} (ok []) (ok b)
        → ◌≢◌ {A = Result KernelError (List Bytes)} (ok (e ∷ es)) (ok b)
    differ e es b x y = ground arith

chunk_binds :
    (i j : ℕ) (c d : Chunk) (e f : Bytes)
    → encode_evidence (chunk_evidence i c) ≡ ok e
    → encode_evidence (chunk_evidence j d) ≡ ok f
    → e ≡ f
    → hashes (c.0 ∷ c.1) ≡ hashes (d.0 ∷ d.1)
chunk_binds i j c d e f x y h =
    let (same, rest) =
      encode_evidence-cancel (chunk_evidence i c) (chunk_evidence j d) e f [] [] x y
        (ap (λ (t : Bytes). t ++ []) h) in
    sym (octets_back (c.0 ∷ c.1)) ∙ ap read_hashes same ∙ octets_back (d.0 ∷ d.1)

pub bodies_bind :
    (i j : ℕ) (cs ds : List Chunk) (b : List Bytes)
    → chunk_bodies i cs ≡ ok b
    → chunk_bodies j ds ≡ ok b
    → hashes (together cs) ≡ hashes (together ds)
bodies_bind i j [] [] b x y = refl
bodies_bind i j [] (d ∷ ds) b x y = absurd (empty_bodies i j d ds b x y)
bodies_bind i j (c ∷ cs) [] b x y = absurd (empty_bodies j i c cs b y x)
bodies_bind i j (c ∷ cs) (d ∷ ds) b x y =
    let (e, es, he, hes, x2) = chunk_bodies_cons i c cs b x in
    let (f, fs, hf, hfs, y2) = chunk_bodies_cons j d ds b y in
    let (first, rest) = uncons e f es fs b x2 y2 in
    let later = bodies_bind (i + 1) (j + 1) cs ds fs (hes ∙ ap ok rest) hfs in
    hashes-append (c.0 ∷ c.1) (together cs)
    ∙ (λ k. chunk_binds i j c d e f he hf first k ++ later k)
    ∙ sym (hashes-append (d.0 ∷ d.1) (together ds))
