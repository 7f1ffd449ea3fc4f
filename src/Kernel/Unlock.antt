-- ===== src/Kernel/Unlock.antt =====
-- packages/security-kernel/crates/kernel-core/src/unlock.rs: the keys derived from the password and
-- the recovery material, and the wrap of the vault root key.
pub mod Wrap
use veyora.Prelude.{ℕ, Bytes, codes, List, [], ◌∷◌, ◌++◌, Result, ok, err, ◌>>=◌}
use veyora.Kernel.Error.{KernelError}
use veyora.Kernel.Limits.{v1}
use veyora.Kernel.Evidence.{Evidence, uint, bytes, array, items, encode_evidence}
use veyora.Kernel.Crypto.{Primitives, domain_preimage, kdf, aead_key, seal_record}

pub record UnlockWrapAad : Type 0 where
  pub deployment_id : Bytes
  pub vault_id : Bytes
  pub generation : ℕ
  pub salt : Bytes
  pub kib_memory : ℕ
  pub iterations : ℕ
  pub parallelism : ℕ
  pub nonce : Bytes

abbrev pub aad_fields : UnlockWrapAad → List Evidence
aad_fields aad =
    uint 1
    ∷ uint 1
    ∷ bytes aad.deployment_id
    ∷ bytes aad.vault_id
    ∷ uint aad.generation
    ∷ bytes aad.salt
    ∷ uint aad.kib_memory
    ∷ uint aad.iterations
    ∷ uint aad.parallelism
    ∷ bytes aad.nonce
    ∷ []

unfoldable pub aad_preimage : UnlockWrapAad → Result KernelError Bytes
aad_preimage aad = encode_evidence (array (items (aad_fields aad))) >>= λ body.
    domain_preimage (codes "pm-v1/unlock-wrap") body

abbrev pub unlock_context : Bytes → Bytes → ℕ → Evidence
unlock_context deployment_id vault_id generation =
    array (items (bytes deployment_id ∷ bytes vault_id ∷ uint generation ∷ []))

abbrev pub recovery_context : Bytes → Bytes → ℕ → Bytes → Evidence
recovery_context deployment_id vault_id generation recovery_id =
    array (items (bytes deployment_id ∷ bytes vault_id ∷ uint generation ∷ bytes recovery_id ∷ []))

module _ (p : Primitives) where
  unfoldable pub derive_unlock_key : Bytes → Bytes → Bytes → ℕ → Result KernelError Bytes
  derive_unlock_key argon2id_output deployment_id vault_id generation =
      encode_evidence (unlock_context deployment_id vault_id generation) >>= λ context.
      kdf p (codes "pm-v1/unlock-wrap-key") argon2id_output context >>= λ raw. aead_key raw

  unfoldable pub seal_unlock_wrap : Bytes → UnlockWrapAad → Bytes → Result KernelError Bytes
  seal_unlock_wrap unlock_key aad root_key = aad_preimage aad >>= λ aad_bytes.
      seal_record p unlock_key aad.nonce aad_bytes root_key v1 >>= λ ciphertext.
      encode_evidence (array (items (aad_fields aad ++ bytes ciphertext ∷ [])))

  unfoldable pub wrap_hash : Bytes → Bytes
  wrap_hash wrap_cbor = p.sha256 (wrap_cbor ++ [])

  unfoldable pub derive_recovery_wrap_key :
      Bytes → Bytes → Bytes → ℕ → Bytes → Result KernelError Bytes
  derive_recovery_wrap_key recovery_material deployment_id vault_id generation recovery_id =
      encode_evidence (recovery_context deployment_id vault_id generation recovery_id)
      >>= λ context.
          kdf p (codes "pm-v1/recovery-wrap-key") recovery_material context >>= λ raw. aead_key raw

  unfoldable pub derive_recovery_auth_seed :
      Bytes → Bytes → Bytes → ℕ → Bytes → Result KernelError Bytes
  derive_recovery_auth_seed recovery_material deployment_id vault_id generation recovery_id =
      encode_evidence (recovery_context deployment_id vault_id generation recovery_id)
      >>= λ context. kdf p (codes "pm-v1/recovery-auth-seed") recovery_material context

  unfoldable pub derive_bootstrap_key : Bytes → Bytes → Bytes → Result KernelError Bytes
  derive_bootstrap_key bootstrap_secret deployment_id server_identity_hash =
      encode_evidence (array (items (bytes deployment_id ∷ bytes server_identity_hash ∷ [])))
      >>= λ context. kdf p (codes "pm-v1/bootstrap-key") bootstrap_secret context
