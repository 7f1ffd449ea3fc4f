-- ===== src/Kernel/Error.antt =====
-- The closed error surface of packages/security-kernel/crates/kernel-core/src/error.rs.
pub data KernelError : Type 0 where
  invalid_encoding non_canonical_encoding limit_exceeded invalid_secret_text : KernelError
  invalid_identifier invalid_record entropy_unavailable cryptographic_failure conflict : KernelError
  storage_unavailable clipboard_unavailable device_credential_unavailable : KernelError
  clock_unavailable : KernelError
