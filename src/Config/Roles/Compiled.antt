-- ===== src/Config/Roles/Compiled.antt =====
-- Which candidates compile to plans.
use veyora.Prelude.{
  ◌≡◌, ◌↔◌, inl, inr, refl, sym, ap, ◌∙◌, Bytes, bytes_eq, bytes_eq_iff, Bool-cases, true, not,
  Option, none, some, List, [], ◌∷◌, Result, ok, ◌==◌, ==_iff, arith,
}
use veyora.Config.Roles.{
  ServiceCapability, ServiceCapabilityMap, ServiceCapabilities, canonical_service_capabilities,
  RoleKind, AuthorizationPlanErrorCode, texts_eq, stdin_eq, capability_eq, services_eq,
  capabilities_eq, compile,
}

texts_eq_iff : (a b : List Bytes) → (texts_eq a b ≡ true) ↔ (a ≡ b)
unfolding texts_eq
texts_eq_iff [] [] = ground arith
texts_eq_iff [] (y ∷ ys) = ground arith
texts_eq_iff (x ∷ xs) [] = ground arith
texts_eq_iff (x ∷ xs) (y ∷ ys) = ground (arith, bytes_eq_iff x y, texts_eq_iff xs ys)

stdin_eq_iff : (a b : Option (List Bytes)) → (stdin_eq a b ≡ true) ↔ (a ≡ b)
unfolding stdin_eq
stdin_eq_iff none none = ground arith
stdin_eq_iff none (some ys) = ground arith
stdin_eq_iff (some xs) none = ground arith
stdin_eq_iff (some xs) (some ys) = ground (arith, texts_eq_iff xs ys)

capability_eq_iff : (a b : ServiceCapability) → (capability_eq a b ≡ true) ↔ (a ≡ b)
unfolding capability_eq
capability_eq_iff a b = ground (
  arith,
  texts_eq_iff a.routes b.routes,
  texts_eq_iff a.database_operations b.database_operations,
  texts_eq_iff a.secret_files b.secret_files,
  texts_eq_iff a.network_targets b.network_targets,
  texts_eq_iff a.volumes b.volumes,
  texts_eq_iff a.jobs b.jobs,
  texts_eq_iff a.observability b.observability,
  stdin_eq_iff a.stdin b.stdin,
)

services_eq_iff : (a b : ServiceCapabilityMap) → (services_eq a b ≡ true) ↔ (a ≡ b)
unfolding services_eq
services_eq_iff a b = ground (
  arith,
  capability_eq_iff a.gateway b.gateway,
  capability_eq_iff a.api b.api,
  capability_eq_iff a.worker b.worker,
  capability_eq_iff a.web b.web,
  capability_eq_iff a.validator b.validator,
  capability_eq_iff a.migrator b.migrator,
  capability_eq_iff a.backup b.backup,
  capability_eq_iff a.restore b.restore,
)

capabilities_eq_iff : (a b : ServiceCapabilities) → (capabilities_eq a b ≡ true) ↔ (a ≡ b)
unfolding capabilities_eq
capabilities_eq_iff a b = ground (
  arith,
  ==_iff a.schema_version b.schema_version,
  bytes_eq_iff a.default_rule b.default_rule,
  services_eq_iff a.services b.services,
)

abbrev pub backend_roles : List RoleKind
backend_roles =
    RoleKind.api ∷ RoleKind.worker ∷ RoleKind.migrator ∷ RoleKind.backup ∷ RoleKind.restore ∷ []

ok_roles :
    (r s : List RoleKind)
    → ◌≡◌ {A = Result AuthorizationPlanErrorCode (List RoleKind)} (ok r) (ok s)
    → s ≡ r
ok_roles r s h = cc

compiled_of :
    (candidate : ServiceCapabilities) (roles : List RoleKind)
    → compile candidate ≡ ok roles
    → (candidate ≡ canonical_service_capabilities) × (roles ≡ backend_roles)
unfolding compile
compiled_of candidate roles h =
    elim (Bool-cases
      (not (candidate.schema_version == canonical_service_capabilities.schema_version))) [
        | inl e ↦ cc (rw e at h)
        | inr e ↦
            elim (Bool-cases
              (not (bytes_eq candidate.default_rule canonical_service_capabilities.default_rule))) [
                | inl f ↦ cc (rw (e, f) at h)
                | inr f ↦
                    elim (Bool-cases (capabilities_eq candidate canonical_service_capabilities)) [
                      | inl g ↦ (
                        (capabilities_eq_iff candidate canonical_service_capabilities).0 g,
                        ok_roles _ _ (rw (e, f, g) at h),
                      )
                      | inr g ↦ cc (rw (e, f, g) at h)
                    ]
              ]
      ]

pub compile-canonical : compile canonical_service_capabilities ≡ ok backend_roles
unfolding compile capabilities_eq services_eq capability_eq stdin_eq texts_eq bytes_eq
compile-canonical = refl

-- A candidate compiles if and only if it is the committed capabilities, and then to the five roles of
-- the backend.
pub compile_iff :
    (candidate : ServiceCapabilities) (roles : List RoleKind)
    → (compile candidate ≡ ok roles)
      ↔ ((candidate ≡ canonical_service_capabilities) × (roles ≡ backend_roles))
compile_iff candidate roles = (
  compiled_of candidate roles,
  λ (e, r). ap compile e ∙ compile-canonical ∙ ap (λ s. ok s) (sym r),
)
