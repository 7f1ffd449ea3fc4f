-- ===== src/Config/Bootstrap/Tests.antt =====
-- The bootstrap plan at concrete observations.
use veyora.Prelude.{◌≡◌, ◌↔◌, refl, bytes_eq, none, some, [], ◌∷◌, ok}
use veyora.Kernel.Crypto.{replicate}
use veyora.Config.Roles.{
  canonical_service_capabilities, RoleKind, ServiceName, for_service, find_role,
}
use veyora.Config.Roles.Compiled.{backend_roles, compile-canonical}
use veyora.Config.Bootstrap.{
  UntrustedBootstrapIdentity, new_identity, capabilities_file_digest, is_zero, is_complete, draft,
  absent, ManagedFeature, all_reported_available, first_unavailable, DriftField, reported_no_drift,
  first_reported_drift, UntrustedBootstrapObservation, apply_candidate, apply_actions,
  identity_mismatch, assess_untrusted,
}
use veyora.Config.Bootstrap.Assessment.{
  SameIdentity, Leads, reported, IsPlanned, assess_untrusted_iff, assess_untrusted-IsPlanned,
}

abbrev identity : UntrustedBootstrapIdentity
identity = new_identity (replicate 32 1) (replicate 32 2) (replicate 32 3) (replicate 32 4) 7

abbrev observation : UntrustedBootstrapObservation
observation = record {
  plan = replicate 32 1;
  destination = replicate 32 2;
  configuration = replicate 32 3;
  capabilities = capabilities_file_digest;
  contract = replicate 32 4;
  guard_epoch = 7;
  features = all_reported_available;
  destination_state = absent;
  drift = reported_no_drift;
}

drafted : draft identity ≡ ok identity
unfolding draft is_complete is_zero
drafted = refl

assessed : assess_untrusted identity observation ≡ ok (apply_candidate identity apply_actions)
unfolding assess_untrusted identity_mismatch first_unavailable first_reported_drift bytes_eq
assessed = refl

services_have_roles :
    (for_service backend_roles ServiceName.backup ≡ some RoleKind.backup)
    × (for_service backend_roles ServiceName.gateway ≡ none)
unfolding for_service find_role
services_have_roles = (refl, refl)

assess_untrusted_iff_example :
    (assess_untrusted identity
        (reported observation (ManagedFeature.role_creation ∷ []) (DriftField.grants ∷ []))
      ≡ ok (apply_candidate identity apply_actions))
    ↔ (SameIdentity identity observation
        × (ManagedFeature.role_creation ∷ [] ≡ [])
        × (DriftField.grants ∷ [] ≡ [])
        × Leads identity absent (apply_candidate identity apply_actions))
assess_untrusted_iff_example =
    assess_untrusted_iff identity observation (ManagedFeature.role_creation ∷ [])
      (DriftField.grants ∷ []) (apply_candidate identity apply_actions)

assess_untrusted-IsPlanned_example :
    IsPlanned backend_roles (apply_candidate identity apply_actions)
assess_untrusted-IsPlanned_example =
    assess_untrusted-IsPlanned identity observation (apply_candidate identity apply_actions)
      canonical_service_capabilities backend_roles assessed compile-canonical
