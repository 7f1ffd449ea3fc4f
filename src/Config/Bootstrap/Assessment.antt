-- ===== src/Config/Bootstrap/Assessment.antt =====
-- What the assessment of a bootstrap admits.
use veyora.Prelude.{
  ◌≡◌, ◌↔◌, refl, sym, ap, bytes_eq_iff, Bool, true, false, Option, none, some, List, [], ◌∷◌,
  Result, ok, err, ==_iff, All, take, arith,
}
use mathlib.Core.Path.{subst}
use veyora.Config.Roles.{RoleKind, ServiceCapabilities, compile}
use veyora.Config.Roles.Compiled.{backend_roles, compile_iff}
use veyora.Config.Bootstrap.{
  UntrustedBootstrapIdentity, UntrustedDestinationState, absent, exact_completed, partial,
  unexpected, ManagedFeature, all_reported_available, first_unavailable, DriftField,
  reported_no_drift, first_reported_drift, UntrustedBootstrapObservation, BootstrapAction,
  require_exclusive_guard, create_database, create_application_schema, create_role,
  enforce_deny_by_default, UntrustedExecutionAssessment, apply_candidate, verify_only_candidate,
  BootstrapIdentityField, BootstrapError, error, observation_identity_mismatch,
  managed_feature_unavailable, diagnostic_drift, identity_mismatch, apply_actions,
  verify_only_actions, role_actions, assess_state, assess_untrusted,
}
use veyora.Config.Bootstrap.Reports.{
  features_after, drift_after, features_after_iff, drift_after_iff,
}

pub record SameIdentity (i : UntrustedBootstrapIdentity) (o : UntrustedBootstrapObservation)
    : Type 0 where
  pub plan : i.plan ≡ o.plan
  pub destination : i.destination ≡ o.destination
  pub configuration : i.configuration ≡ o.configuration
  pub capabilities : i.capabilities ≡ o.capabilities
  pub contract : i.contract ≡ o.contract
  pub guard_epoch : i.guard_epoch ≡ o.guard_epoch

identity_mismatch_iff :
    (i : UntrustedBootstrapIdentity) (o : UntrustedBootstrapObservation)
    → (identity_mismatch i o ≡ none) ↔ SameIdentity i o
unfolding identity_mismatch
identity_mismatch_iff i o = ground (
  arith,
  bytes_eq_iff i.plan o.plan,
  bytes_eq_iff i.destination o.destination,
  bytes_eq_iff i.configuration o.configuration,
  bytes_eq_iff i.capabilities o.capabilities,
  bytes_eq_iff i.contract o.contract,
  ==_iff i.guard_epoch o.guard_epoch,
)

-- What an assessed destination state leads to.
abbrev pub Leads :
    UntrustedBootstrapIdentity → UntrustedDestinationState → UntrustedExecutionAssessment → Type 0
Leads i absent a = a ≡ apply_candidate i apply_actions
Leads i exact_completed a = a ≡ verify_only_candidate i verify_only_actions
Leads i partial a = ⊥
Leads i unexpected a = ⊥

ok_same :
    (a b : UntrustedExecutionAssessment)
    → ◌≡◌ {A = Result BootstrapError UntrustedExecutionAssessment} (ok a) (ok b)
    → b ≡ a
ok_same a b h = cc

assess_state_iff :
    (i : UntrustedBootstrapIdentity) (st : UntrustedDestinationState)
    (a : UntrustedExecutionAssessment)
    → (assess_state i st ≡ ok a) ↔ Leads i st a
assess_state_iff i absent a = (λ h. ok_same _ _ h, λ h. ap (λ x. ok x) (sym h))
assess_state_iff i exact_completed a = (λ h. ok_same _ _ h, λ h. ap (λ x. ok x) (sym h))
assess_state_iff i partial a = (λ h. cc, λ h. absurd h)
assess_state_iff i unexpected a = (λ h. cc, λ h. absurd h)

assess_untrusted_stages :
    (i : UntrustedBootstrapIdentity) (o : UntrustedBootstrapObservation)
    (a : UntrustedExecutionAssessment)
    → (assess_untrusted i o ≡ ok a) ↔ (
        (identity_mismatch i o ≡ none)
        × (first_unavailable o.features ≡ none)
        × (first_reported_drift o.drift ≡ none)
        × (assess_state i o.destination_state ≡ ok a))
unfolding assess_untrusted
assess_untrusted_stages i o a =
    stages (identity_mismatch i o) (first_unavailable o.features) (first_reported_drift o.drift)
  where
    stages :
        (m : Option BootstrapIdentityField) (f : Option ManagedFeature) (d : Option DriftField)
        → ((elim m [
          | some field ↦
              err (record (error observation_identity_mismatch) { identity_field = some field })
          | none ↦ elim f [
            | some feature ↦
                err (record (error managed_feature_unavailable) { feature = some feature })
            | none ↦ elim d [
              | some field ↦ err (record (error diagnostic_drift) { drift = some field })
              | none ↦ assess_state i o.destination_state
            ]
          ]
        ])
            ≡ ok a)
          ↔ ((m ≡ none) × (f ≡ none) × (d ≡ none) × (assess_state i o.destination_state ≡ ok a))
    stages (some m) f d = (λ h. cc, λ h. cc)
    stages none (some f) d = (λ h. cc, λ h. cc)
    stages none none (some d) = (λ h. cc, λ h. cc)
    stages none none none = (λ h. (refl, refl, refl, h), λ (e, f, g, h). h)

-- The observation after an observer's reports.
abbrev pub reported :
    UntrustedBootstrapObservation
    → List ManagedFeature
    → List DriftField
    → UntrustedBootstrapObservation
reported o fs ds = record o {
  features = features_after fs all_reported_available;
  drift = drift_after ds reported_no_drift;
}

-- A plan is assessed as a candidate if and only if the observation has the plan's identity, nothing was
-- reported unavailable, no drift was reported, and the destination is absent, for a full bootstrap, or
-- exactly completed, for a verification alone.
pub assess_untrusted_iff :
    (i : UntrustedBootstrapIdentity) (o : UntrustedBootstrapObservation) (fs : List ManagedFeature)
    (ds : List DriftField) (a : UntrustedExecutionAssessment)
    → (assess_untrusted i (reported o fs ds) ≡ ok a)
      ↔ (SameIdentity i o × (fs ≡ []) × (ds ≡ []) × Leads i o.destination_state a)
assess_untrusted_iff i o fs ds a =
    let seen = reported o fs ds in
    let stages = assess_untrusted_stages i seen a in
    let same = identity_mismatch_iff i seen in
    let state = assess_state_iff i o.destination_state a in
    (
      λ h.
          let (m, f, d, s) = stages.0 h in
          (own (same.0 m), (features_after_iff fs).0 f, (drift_after_iff ds).0 d, state.0 s),
      λ (m, f, d, s).
          stages.1
            (same.1 (own' m), (features_after_iff fs).1 f, (drift_after_iff ds).1 d, state.1 s),
    )
  where
    own : SameIdentity i (reported o fs ds) → SameIdentity i o
    own r = record {
      plan = r.plan;
      destination = r.destination;
      configuration = r.configuration;
      capabilities = r.capabilities;
      contract = r.contract;
      guard_epoch = r.guard_epoch;
    }

    own' : SameIdentity i o → SameIdentity i (reported o fs ds)
    own' r = record {
      plan = r.plan;
      destination = r.destination;
      configuration = r.configuration;
      capabilities = r.capabilities;
      contract = r.contract;
      guard_epoch = r.guard_epoch;
    }

abbrev pub is_creating : BootstrapAction → Bool
is_creating create_database = true
is_creating create_application_schema = true
is_creating (create_role role) = true
is_creating enforce_deny_by_default = true
is_creating action = false

-- What the actions of a candidate are to be, for the roles that have plans.
abbrev pub IsPlanned : List RoleKind → UntrustedExecutionAssessment → Type 0
IsPlanned roles (apply_candidate i actions) =
    (take 1 actions ≡ require_exclusive_guard ∷ []) × (role_actions actions ≡ roles)
IsPlanned roles (verify_only_candidate i actions) =
    (take 1 actions ≡ require_exclusive_guard ∷ []) × All (λ x. is_creating x ≡ false) actions

Leads-IsPlanned :
    (i : UntrustedBootstrapIdentity) (st : UntrustedDestinationState)
    (a : UntrustedExecutionAssessment)
    → Leads i st a
    → IsPlanned backend_roles a
unfolding apply_actions verify_only_actions role_actions
Leads-IsPlanned i absent a h = rw h (refl, refl)
Leads-IsPlanned i exact_completed a h =
    rw h (refl, (refl, (refl, (refl, (refl, (refl, (refl, (refl, tt))))))))
Leads-IsPlanned i partial a h = absurd h
Leads-IsPlanned i unexpected a h = absurd h

-- The actions of a candidate begin with the exclusive guard. A full bootstrap creates the roles that
-- compiled capabilities give plans to, in their order; a verification creates and enforces nothing.
pub assess_untrusted-IsPlanned :
    (i : UntrustedBootstrapIdentity) (o : UntrustedBootstrapObservation)
    (a : UntrustedExecutionAssessment) (candidate : ServiceCapabilities) (roles : List RoleKind)
    → assess_untrusted i o ≡ ok a
    → compile candidate ≡ ok roles
    → IsPlanned roles a
assess_untrusted-IsPlanned i o a candidate roles h c =
    let leads =
      (assess_state_iff i o.destination_state a).0 ((assess_untrusted_stages i o a).0 h).3 in
    subst (λ r. IsPlanned r a) (sym ((compile_iff candidate roles).0 c).1)
      (Leads-IsPlanned i o.destination_state a leads)
