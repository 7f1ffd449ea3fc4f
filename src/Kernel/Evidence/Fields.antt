-- ===== src/Kernel/Evidence/Fields.antt =====
-- Reading the fields of an evidence value back by their place in its array.
use veyora.Prelude.{ℕ, zero, suc, ◌≡◌, refl, Bytes, Bool, false, List, [], ◌∷◌, map}
use veyora.Kernel.Evidence.{Evidence, Items, bool, uint, bytes, array, nil, cons, items}

abbrev nth : ℕ → Items → Evidence
nth k nil = bool false
nth zero (cons v vs) = v
nth (suc k) (cons v vs) = nth k vs

abbrev as_list : Items → List Evidence
as_list nil = []
as_list (cons v vs) = v ∷ as_list vs

abbrev pub at : ℕ → Evidence → Evidence
at k (array vs) = nth k vs
at k v = v

abbrev pub number : Evidence → ℕ
number (uint n) = n
number v = 0

abbrev pub octets : Evidence → Bytes
octets (bytes bs) = bs
octets v = []

abbrev pub flag : Evidence → Bool
flag (bool b) = b
flag v = false

abbrev pub elements : Evidence → List Evidence
elements (array vs) = as_list vs
elements v = []

as_list-items : (vs : List Evidence) → as_list (items vs) ≡ vs
as_list-items [] = refl
as_list-items (v ∷ vs) = λ i. v ∷ as_list-items vs i

-- A list that was written element by element is read back element by element.
pub elements_back :
    {A : Type 0}
    → (write : A → Evidence) (read : Evidence → A) → ((x : A) → read (write x) ≡ x)
    → (xs : List A) → map read (elements (array (items (map write xs)))) ≡ xs
elements_back write read back [] = refl
elements_back write read back (x ∷ xs) = λ i. back x i ∷ elements_back write read back xs i
