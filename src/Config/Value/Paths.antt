-- ===== src/Config/Value/Paths.antt =====
-- Where the mounted paths of value.rs lead, by an independent resolution of `.` and `..`.
use veyora.Prelude.{
  ℕ, ◌≤◌, ◌≡◌, refl, sym, ap, ◌∙◌, Bytes, codes, bytes_eq, Bool-cases, true, false, ◌||◌,
  Option-cases, some, inl, inr, List, [], ◌∷◌, ◌++◌, append_assoc, append-nil, ◌==◌, if◌then◌else◌,
  length, all, arith,
}
use veyora.Config.Value.{
  strip_prefix, push_first, split, valid_part, valid_mounted_path, valid_secret_reference,
}

abbrev pub drop_last : List Bytes → List Bytes
drop_last [] = []
drop_last (part ∷ []) = []
drop_last (part ∷ next ∷ rest) = part ∷ drop_last (next ∷ rest)

-- The directories that a path goes through: an empty part and `.` stay, `..` goes up.
abbrev pub resolve : List Bytes → List Bytes → List Bytes
resolve at [] = at
resolve at (part ∷ parts) =
    resolve
      (if bytes_eq part [] || bytes_eq part (codes ".")
        then at
        else if bytes_eq part (codes "..")
        then drop_last at
        else at ++ part ∷ [])
      parts

strip_prefix-eq-some :
    (prefix raw rest : Bytes) → strip_prefix prefix raw ≡ some rest → raw ≡ prefix ++ rest
strip_prefix-eq-some [] raw rest h = cc
strip_prefix-eq-some (p ∷ prefix) [] rest h = cc
strip_prefix-eq-some (p ∷ prefix) (c ∷ raw) rest h = elim (Bool-cases (p == c)) [
  | inl e ↦
      let same : p ≡ c = ground (arith, e) in
      rw (same, strip_prefix-eq-some prefix raw rest (rw e at h)) refl
  | inr e ↦ cc (rw e at h)
]

resolve-valid :
    (at parts : List Bytes) → all valid_part parts ≡ true → resolve at parts ≡ at ++ parts
unfolding valid_part
resolve-valid at [] h = sym (append-nil at)
resolve-valid at (part ∷ parts) h = elim (Bool-cases (valid_part part)) [
  | inl e ↦
      let stays : (bytes_eq part [] || bytes_eq part (codes ".")) ≡ false = ground (arith, e) in
      let climbs : bytes_eq part (codes "..") ≡ false = ground (arith, e) in
      rw (stays, climbs)
        (resolve-valid (at ++ part ∷ []) parts (rw e at h) ∙ append_assoc at (part ∷ []) parts)
  | inr e ↦ cc (rw e at h)
]

length-push_first : (c : ℕ) (parts : List Bytes) → 1 ≤ length (push_first c parts)
length-push_first c [] = omega arith
length-push_first c (part ∷ parts) = omega arith

length-split : (raw : Bytes) → 1 ≤ length (split raw)
length-split [] = omega arith
length-split (c ∷ raw) = elim (Bool-cases (c == 47)) [
  | inl e ↦ rw e (omega arith)
  | inr e ↦ rw e (length-push_first c (split raw))
]

valid_mounted_path-eq-true :
    (raw prefix : Bytes)
    → valid_mounted_path raw prefix ≡ true
    → (rest : Bytes) × (raw ≡ prefix ++ rest) × (all valid_part (split rest) ≡ true)
unfolding valid_mounted_path
valid_mounted_path-eq-true raw prefix h = elim (Option-cases (strip_prefix prefix raw)) [
  | inl e ↦ cc (rw (e, valid_mounted_path) at h)
  | inr (rest, e) ↦
      let passed = rw (e, valid_mounted_path) at h in
      (rest, strip_prefix-eq-some prefix raw rest e, ground (arith, passed))
]

-- A secret reference that is accepted resolves to a place below /run/secrets, and is at most 268 bytes
-- long.
pub valid_secret_reference_within :
    (raw : Bytes)
    → valid_secret_reference raw ≡ true
    → (parts : List Bytes) × (resolve [] (split raw) ≡ codes "run" ∷ codes "secrets" ∷ parts)
      × (1 ≤ length parts)
      × (length raw ≤ 268)
unfolding valid_secret_reference bytes_eq
valid_secret_reference_within raw h =
    let mounted : valid_mounted_path raw (codes "/run/secrets/") ≡ true = ground (arith, h) in
    let (rest, e, parts) = valid_mounted_path-eq-true raw (codes "/run/secrets/") mounted in
    (
      split rest,
      ap (λ r. resolve [] (split r)) e
          ∙ resolve-valid (codes "run" ∷ codes "secrets" ∷ []) (split rest) parts,
      length-split rest,
      ground (arith, h),
    )
