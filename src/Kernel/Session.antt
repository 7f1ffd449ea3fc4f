-- ===== src/Kernel/Session.antt =====
-- packages/security-kernel/crates/kernel-core/src/session.rs: the session policy and its result.
pub mod Binding
use veyora.Prelude.{
  ℕ, ◌+◌, ◌^◌, Bytes, codes, Bool, Option, none, some, [], ◌∷◌, Result, ok, err, ◌>>=◌, ltb,
  if◌then◌else◌,
}
use veyora.Kernel.Error.{KernelError, limit_exceeded}
use veyora.Kernel.Evidence.{Evidence, uint, bytes, array, items, encode_evidence}
use veyora.Kernel.Crypto.{Primitives, domain_preimage}

pub record SessionPolicy : Type 0 where
  pub granted_mask : ℕ
  pub absolute_ttl_seconds : ℕ
  pub idle_ttl_seconds : ℕ
  pub max_concurrent_sessions : ℕ

pub record SessionResult : Type 0 where
  pub body_cbor : Bytes
  pub result_hash : Bytes

-- `u64::checked_add`, with `ok_or(KernelError::LimitExceeded)`
abbrev pub checked_add_u64 : ℕ → ℕ → Result KernelError ℕ
checked_add_u64 a b = if ltb (a + b) (2 ^ 64) then ok (a + b) else err limit_exceeded

abbrev pub policy_evidence : SessionPolicy → Evidence
policy_evidence policy = array (
    items (
      uint 1
      ∷ uint policy.granted_mask
      ∷ uint policy.absolute_ttl_seconds
      ∷ uint policy.idle_ttl_seconds
      ∷ uint policy.max_concurrent_sessions
      ∷ []))

abbrev pub result_evidence : SessionPolicy → Bytes → ℕ → ℕ → ℕ → Evidence
result_evidence policy policy_hash issued_at absolute_expires idle_expires = array (
    items (
      uint 1
      ∷ bytes policy_hash
      ∷ uint policy.granted_mask
      ∷ uint policy.absolute_ttl_seconds
      ∷ uint policy.idle_ttl_seconds
      ∷ uint policy.max_concurrent_sessions
      ∷ uint issued_at
      ∷ uint absolute_expires
      ∷ uint idle_expires
      ∷ []))

module _ (p : Primitives) where
  unfoldable pub body_and_hash : SessionPolicy → Result KernelError (Bytes × Bytes)
  body_and_hash policy = encode_evidence (policy_evidence policy) >>= λ body.
      domain_preimage (codes "pm-v1/session-policy") body >>= λ preimage.
      ok (body, p.sha256 preimage)

  unfoldable pub derive_session_result : SessionPolicy → ℕ → Result KernelError SessionResult
  unfolding body_and_hash
  derive_session_result policy issued_at = body_and_hash policy >>= λ policy_body.
      checked_add_u64 issued_at policy.absolute_ttl_seconds >>= λ absolute_expires.
      checked_add_u64 issued_at policy.idle_ttl_seconds >>= λ idle_expires.
      encode_evidence (result_evidence policy policy_body.1 issued_at absolute_expires idle_expires)
      >>= λ result_body.
          domain_preimage (codes "pm-v1/session-policy-result") result_body >>= λ preimage.
          ok (record { body_cbor = result_body; result_hash = p.sha256 preimage })
