-- ===== src/Kernel/Unlock/Wrap.antt =====
-- What a wrap of the root key determines.
use veyora.Prelude.{
  ◌≡◌, refl, sym, ap, ◌∙◌, Bytes, [], ◌∷◌, ◌++◌, Result, ok, ◌>>=◌, >>=-eq-ok, arith,
}
use veyora.Kernel.Error.{KernelError}
use veyora.Kernel.Limits.{v1}
use veyora.Kernel.Evidence.{Evidence, bytes, array, items, encode_evidence}
use veyora.Kernel.Evidence.Fields.{at, number, octets}
use veyora.Kernel.Evidence.Injective.{encode_evidence-cancel}
use veyora.Kernel.Crypto.{Primitives, IsAead, seal_record, open_record}
use veyora.Kernel.Crypto.Records.{open_record-seal_record}
use veyora.Kernel.Unlock.{UnlockWrapAad, aad_fields, aad_preimage, seal_unlock_wrap}

abbrev wrap_evidence : UnlockWrapAad → Bytes → Evidence
wrap_evidence aad ciphertext = array (items (aad_fields aad ++ bytes ciphertext ∷ []))

abbrev read_aad : Evidence → UnlockWrapAad
read_aad v = record {
  deployment_id = octets (at 2 v);
  vault_id = octets (at 3 v);
  generation = number (at 4 v);
  salt = octets (at 5 v);
  kib_memory = number (at 6 v);
  iterations = number (at 7 v);
  parallelism = number (at 8 v);
  nonce = octets (at 9 v);
}

-- A sealed wrap is the encoding of its fields and a ciphertext, and that ciphertext opens, with the same key
-- and the associated data made of those fields, to the root key.
pub seal_unlock_wrap_opens :
    (p : Primitives) (key : Bytes) (aad : UnlockWrapAad) (root_key wrap : Bytes)
    → IsAead p
    → seal_unlock_wrap p key aad root_key ≡ ok wrap
    → (aad_bytes : Bytes) × (ciphertext : Bytes) × (aad_preimage aad ≡ ok aad_bytes)
      × (encode_evidence (wrap_evidence aad ciphertext) ≡ ok wrap)
      × (open_record p key aad.nonce aad_bytes ciphertext v1 ≡ ok root_key)
unfolding seal_unlock_wrap
seal_unlock_wrap_opens p key aad root_key wrap laws h =
    let (aad_bytes, ha, h1) = >>=-eq-ok (aad_preimage aad) _ h in
    let (ciphertext, hc, h2) = >>=-eq-ok (seal_record p key aad.nonce aad_bytes root_key v1) _ h1 in
    (
      aad_bytes,
      ciphertext,
      ha,
      h2,
      open_record-seal_record p key aad.nonce aad_bytes root_key ciphertext v1 laws hc,
    )

unwrap : Primitives → Bytes → UnlockWrapAad → Bytes → Result KernelError Bytes
unwrap p key aad ciphertext =
    aad_preimage aad >>= λ aad_bytes. open_record p key aad.nonce aad_bytes ciphertext v1

unwrapped :
    (p : Primitives) (key : Bytes) (aad : UnlockWrapAad) (d c r : Bytes)
    → aad_preimage aad ≡ ok d
    → open_record p key aad.nonce d c v1 ≡ ok r
    → unwrap p key aad c ≡ ok r
unfolding unwrap
unwrapped p key aad d c r h e =
    ap
      (λ (m : Result KernelError Bytes).
        m >>= λ aad_bytes. open_record p key aad.nonce aad_bytes c v1)
      h
    ∙ e

ok_injective : (r s : Bytes) → ◌≡◌ {A = Result KernelError Bytes} (ok r) (ok s) → r ≡ s
ok_injective r s h = ground arith

-- One wrap stands for one set of fields and one root key under a key: no two different vaults, generations,
-- salts, cost parameters, nonces or root keys give the same wrap bytes.
pub seal_unlock_wrap-injective :
    (p : Primitives) (key : Bytes) (a b : UnlockWrapAad) (r s wrap : Bytes)
    → IsAead p
    → seal_unlock_wrap p key a r ≡ ok wrap
    → seal_unlock_wrap p key b s ≡ ok wrap
    → (a ≡ b) × (r ≡ s)
seal_unlock_wrap-injective p key a b r s wrap laws x y =
    let (da, ca, ha, ea, oa) = seal_unlock_wrap_opens p key a r wrap laws x in
    let (db, cb, hb, eb, ob) = seal_unlock_wrap_opens p key b s wrap laws y in
    let (same, rest) =
      encode_evidence-cancel (wrap_evidence a ca) (wrap_evidence b cb) wrap wrap [] [] ea eb refl in
    let fields : a ≡ b = ap read_aad same in
    let bodies : ca ≡ cb = ap (λ (v : Evidence). octets (at 10 v)) same in
    (
      fields,
      ok_injective r s (
          sym (unwrapped p key a da ca r ha oa)
          ∙ (λ i. unwrap p key (fields i) (bodies i))
          ∙ unwrapped p key b db cb s hb ob),
    )
