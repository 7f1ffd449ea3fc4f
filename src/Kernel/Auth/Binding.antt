-- ===== src/Kernel/Auth/Binding.antt =====
-- What the authorization hashes commit to.
use veyora.Prelude.{
  ℕ, ◌≡◌, ◌≢◌, ◌⊎◌, inl, inr, refl, sym, ap, ◌∙◌, Bytes, byte_at, codes, List, [], ◌∷◌, map, ok,
  arith,
}
use veyora.Kernel.Evidence.{Evidence, uint, bytes, array, items}
use veyora.Kernel.Evidence.Fields.{at, number, octets, elements}
use veyora.Kernel.Crypto.{Primitives}
use veyora.Kernel.Crypto.Commit.{Collision, commit_binds, commit_body_binds}
use veyora.Kernel.Auth.{
  WrapEntry, credential_evidence, wrap_entry, credential_id_hash, authorization_request_hash,
  authorization_payload_hash, device_wrap_set_root,
}

-- One credential hash stands for one method, authority and raw identifier, or it exhibits a collision
-- of SHA-256.
pub credential_id_hash_binds :
    (p : Primitives) (m n k l : ℕ) (a b r s h : Bytes)
    → credential_id_hash p m k a r ≡ ok h
    → credential_id_hash p n l b s ≡ ok h
    → ((m ≡ n) × (k ≡ l) × (a ≡ b) × (r ≡ s)) ⊎ Collision p.sha256
unfolding credential_id_hash
credential_id_hash_binds p m n k l a b r s h x y =
    elim (commit_binds p _ _ (credential_evidence m k a r) (credential_evidence n l b s) h x y) [
      | inl (d, e) ↦ inl (
        ap (λ (v : Evidence). number (at 0 v)) e,
        ap (λ (v : Evidence). number (at 1 v)) e,
        ap (λ (v : Evidence). octets (at 2 v)) e,
        ap (λ (v : Evidence). octets (at 3 v)) e,
      )
      | inr found ↦ inr found
    ]

-- What the root of the device wraps covers of an entry.
abbrev pub covered : WrapEntry → Bytes × ℕ × Bytes
covered (status, device_id, generation, envelope_hash) = (device_id, status, envelope_hash)

abbrev entry_evidence : Bytes × ℕ × Bytes → Evidence
entry_evidence (device_id, status, envelope_hash) =
    array (items (bytes device_id ∷ uint status ∷ bytes envelope_hash ∷ []))

abbrev entry_of : Evidence → Bytes × ℕ × Bytes
entry_of v = (octets (at 0 v), number (at 1 v), octets (at 2 v))

covered_back :
    (es : List WrapEntry)
    → map entry_of (elements (array (items (map wrap_entry es)))) ≡ map covered es
covered_back [] = refl
covered_back ((s, d, g, e) ∷ es) = λ i. (d, s, e) ∷ covered_back es i

-- One device-wrap-set root stands for one list of devices in order, each with its status and its
-- envelope hash, or it exhibits a collision of SHA-256.
pub device_wrap_set_root_binds :
    (p : Primitives) (es fs : List WrapEntry) (h : Bytes)
    → device_wrap_set_root p es ≡ ok h
    → device_wrap_set_root p fs ≡ ok h
    → (map covered es ≡ map covered fs) ⊎ Collision p.sha256
unfolding device_wrap_set_root
device_wrap_set_root_binds p es fs h x y =
    elim (commit_binds p _ _ (array (items (map wrap_entry es))) (array (items (map wrap_entry fs)))
      h x y) [
        | inl (d, e) ↦ inl (
            sym (covered_back es)
            ∙ ap (λ (v : Evidence). map entry_of (elements v)) e
            ∙ covered_back fs)
        | inr found ↦ inr found
      ]

apart : ◌≢◌ {A = ℕ} 114 112
apart h = omega arith

-- No authorization request and authorization payload share a hash, even with equal bodies, unless
-- they exhibit a collision of SHA-256.
pub request_payload_apart :
    (p : Primitives) (a b h : Bytes)
    → authorization_request_hash p a ≡ ok h
    → authorization_payload_hash p b ≡ ok h
    → Collision p.sha256
unfolding authorization_request_hash authorization_payload_hash
request_payload_apart p a b h x y =
    let request = codes "pm-v1/authorization-request" in
    let payload = codes "pm-v1/authorization-payload" in
    elim (commit_body_binds p request payload a b h x y) [
      | inl (d, e) ↦ absurd (apart (ap (byte_at 20) d))
      | inr found ↦ found
    ]
