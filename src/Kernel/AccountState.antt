-- ===== src/Kernel/AccountState.antt =====
-- packages/security-kernel/crates/kernel-core/src/account_state.rs: the account-state core.
pub mod Binding
use veyora.Prelude.{ℕ, Bytes, codes, Bool, List, [], ◌∷◌, ◌++◌, map, Result, ok, err, ◌>>=◌}
use veyora.Kernel.Error.{KernelError}
use veyora.Kernel.Evidence.{Evidence, bool, uint, bytes, array, items, encode_evidence}
use veyora.Kernel.Crypto.{Primitives}
use veyora.Kernel.Crypto.Commit.{commit_body}

pub record DeviceCredential : Type 0 where
  pub method : ℕ
  pub credential_id : Bytes
  pub public_key_coords : Bytes × Bytes
  pub sign_count : ℕ
  pub backup_eligible : Bool
  pub backup_state : Bool

pub record DeviceEntry : Type 0 where
  pub device_id : Bytes
  pub status : ℕ
  pub credential : DeviceCredential
  pub device_wrap_public : Bytes
  pub permission_mask : ℕ
  pub revocation_epoch : ℕ
  pub enrolled_revision : ℕ

abbrev pub MethodPolicyEntry : Type 0
MethodPolicyEntry = ℕ × ℕ

pub record AccountStateCore : Type 0 where
  pub deployment_id : Bytes
  pub vault_id : Bytes
  pub security_version : ℕ
  pub prior_state_root : Bytes
  pub epoch : ℕ
  pub manifest_key_id : Bytes
  pub manifest_public_key : Bytes
  pub recovery_generation : ℕ
  pub recovery_id : Bytes
  pub recovery_public_key : Bytes
  pub unlock_generation : ℕ
  pub unlock_hash : Bytes
  pub auth_policy : ℕ
  pub method_policy : List MethodPolicyEntry
  pub active_writer : ℕ
  pub active_suite : ℕ
  pub minimum_reader : ℕ
  pub minimum_suite : ℕ
  pub migration_generation : ℕ
  pub server_key_id : Bytes
  pub server_key_hash : Bytes
  pub origin : Bytes
  pub rp_id : Bytes
  pub psl_hash : Bytes
  pub receipt_key_id : Bytes
  pub receipt_public_key : Bytes
  pub device_entries : List DeviceEntry
  pub device_wrap_set_root : Bytes

abbrev pub policy_item : MethodPolicyEntry → Evidence
policy_item (m, p) = array (items (uint m ∷ uint p ∷ []))

abbrev pub device_item : DeviceEntry → Evidence
device_item d = array (
    items (
      bytes d.device_id
      ∷ uint d.status
      ∷ array (
          items (
            uint d.credential.method
            ∷ bytes d.credential.credential_id
            ∷ bytes d.credential.public_key_coords.0
            ∷ bytes d.credential.public_key_coords.1
            ∷ uint d.credential.sign_count
            ∷ bool d.credential.backup_eligible
            ∷ bool d.credential.backup_state
            ∷ []))
      ∷ bytes d.device_wrap_public
      ∷ uint d.permission_mask
      ∷ uint d.revocation_epoch
      ∷ uint d.enrolled_revision
      ∷ []))

abbrev pub core_evidence : AccountStateCore → Evidence
core_evidence c = array (
    items (
      uint 1
      ∷ uint 1
      ∷ bytes c.deployment_id
      ∷ bytes c.vault_id
      ∷ uint c.security_version
      ∷ bytes c.prior_state_root
      ∷ uint c.epoch
      ∷ bytes c.manifest_key_id
      ∷ bytes c.manifest_public_key
      ∷ uint c.recovery_generation
      ∷ bytes c.recovery_id
      ∷ bytes c.recovery_public_key
      ∷ uint c.unlock_generation
      ∷ bytes c.unlock_hash
      ∷ uint c.auth_policy
      ∷ array (items (map policy_item c.method_policy))
      ∷ uint c.active_writer
      ∷ uint c.active_suite
      ∷ uint c.minimum_reader
      ∷ uint c.minimum_suite
      ∷ uint c.migration_generation
      ∷ bytes c.server_key_id
      ∷ bytes c.server_key_hash
      ∷ bytes c.origin
      ∷ bytes c.rp_id
      ∷ bytes c.psl_hash
      ∷ bytes c.receipt_key_id
      ∷ bytes c.receipt_public_key
      ∷ array (items (map device_item c.device_entries))
      ∷ bytes c.device_wrap_set_root
      ∷ []))

unfoldable pub encode : AccountStateCore → Result KernelError Bytes
encode c = encode_evidence (core_evidence c)

module _ (p : Primitives) where
  unfoldable pub core_hash : AccountStateCore → Result KernelError Bytes
  core_hash c = encode c >>= λ cbor. commit_body p (codes "pm-v1/account-state-core") cbor
