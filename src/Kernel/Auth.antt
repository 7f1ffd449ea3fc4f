-- ===== src/Kernel/Auth.antt =====
-- packages/security-kernel/crates/kernel-core/src/auth.rs: the hashes of the authorization flow.
pub mod Binding
use veyora.Prelude.{ℕ, Bytes, codes, List, [], ◌∷◌, map, Result, ok, err}
use veyora.Kernel.Error.{KernelError}
use veyora.Kernel.Evidence.{Evidence, uint, bytes, array, items}
use veyora.Kernel.Crypto.{Primitives}
use veyora.Kernel.Crypto.Commit.{commit, commit_body}

-- `(status, device_id, generation, envelope_hash)`
abbrev pub WrapEntry : Type 0
WrapEntry = ℕ × Bytes × ℕ × Bytes

abbrev pub credential_evidence : ℕ → ℕ → Bytes → Bytes → Evidence
credential_evidence method authority_kind authority_id raw_credential_id =
    array (
      items (uint method ∷ uint authority_kind ∷ bytes authority_id ∷ bytes raw_credential_id ∷ []))

abbrev pub wrap_entry : WrapEntry → Evidence
wrap_entry (status, device_id, generation, envelope_hash) =
    array (items (bytes device_id ∷ uint status ∷ bytes envelope_hash ∷ []))

abbrev pub descriptor_evidence : ℕ → ℕ → ℕ → Bytes → Bytes → Evidence
descriptor_evidence kem_id kdf_id aead_id device_id public_key =
    array
      (items (uint kem_id ∷ uint kdf_id ∷ uint aead_id ∷ bytes device_id ∷ bytes public_key ∷ []))

module _ (p : Primitives) where
  unfoldable pub credential_id_hash : ℕ → ℕ → Bytes → Bytes → Result KernelError Bytes
  credential_id_hash method authority_kind authority_id raw_credential_id =
      commit p (codes "pm-v1/auth-credential-id")
        (credential_evidence method authority_kind authority_id raw_credential_id)

  unfoldable pub server_identity_hash : Bytes → Bytes
  server_identity_hash server_public_key = p.sha256 server_public_key

  unfoldable pub authorization_request_hash : Bytes → Result KernelError Bytes
  authorization_request_hash body = commit_body p (codes "pm-v1/authorization-request") body

  unfoldable pub authorization_payload_hash : Bytes → Result KernelError Bytes
  authorization_payload_hash body = commit_body p (codes "pm-v1/authorization-payload") body

  unfoldable pub device_wrap_set_root : List WrapEntry → Result KernelError Bytes
  device_wrap_set_root entries =
      commit p (codes "pm-v1/device-wrap-set") (array (items (map wrap_entry entries)))

  unfoldable pub hpke_recipient_descriptor_hash :
      ℕ → ℕ → ℕ → Bytes → Bytes → Result KernelError Bytes
  hpke_recipient_descriptor_hash kem_id kdf_id aead_id device_id public_key =
      commit p (codes "pm-v1/hpke-recipient")
        (descriptor_evidence kem_id kdf_id aead_id device_id public_key)

  unfoldable pub recovery_kit_core_hash : Bytes → Result KernelError Bytes
  recovery_kit_core_hash body = commit_body p (codes "pm-v1/recovery-kit-core") body

  unfoldable pub unlock_wrap_hash : Bytes → Bytes
  unlock_wrap_hash wrap_cbor = p.sha256 wrap_cbor
