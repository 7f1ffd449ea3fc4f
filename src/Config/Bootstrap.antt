-- ===== src/Config/Bootstrap.antt =====
-- packages/config/src/bootstrap_plan.rs: the plan of an external database and the assessment of what
-- an untrusted observer reports. A digest is the list of its 32 bytes.
pub mod Reports
pub mod Assessment
pub mod Tests
use veyora.Prelude.{
  ℕ, Bytes, bytes_eq, Bool, true, false, not, ◌&&◌, Option, none, some, List, [], ◌∷◌, Result, ok,
  err, ltb, ◌==◌, if◌then◌else◌, all,
}
use veyora.Config.Roles.{RoleKind}

abbrev pub capabilities_file_digest : Bytes
capabilities_file_digest =
    42 ∷ 227 ∷ 162 ∷ 3 ∷ 1 ∷ 50 ∷ 202 ∷ 223 ∷ 98 ∷ 188 ∷ 89 ∷ 229 ∷ 247 ∷ 5 ∷ 57 ∷ 28 ∷ 158 ∷ 238
    ∷ 130 ∷ 237 ∷ 89 ∷ 206 ∷ 247 ∷ 173 ∷ 149 ∷ 192 ∷ 221 ∷ 74 ∷ 163 ∷ 242 ∷ 219 ∷ 144 ∷ []

unfoldable pub is_zero : Bytes → Bool
is_zero = all (λ b. b == 0)

pub record UntrustedBootstrapIdentity : Type 0 where
  pub plan : Bytes
  pub destination : Bytes
  pub configuration : Bytes
  pub capabilities : Bytes
  pub contract : Bytes
  pub guard_epoch : ℕ

abbrev pub new_identity : Bytes → Bytes → Bytes → Bytes → ℕ → UntrustedBootstrapIdentity
new_identity plan destination configuration contract guard_epoch = record {
  plan = plan;
  destination = destination;
  configuration = configuration;
  capabilities = capabilities_file_digest;
  contract = contract;
  guard_epoch = guard_epoch;
}

unfoldable pub is_complete : UntrustedBootstrapIdentity → Bool
is_complete i =
    not (is_zero i.plan)
    && not (is_zero i.destination)
    && not (is_zero i.configuration)
    && not (is_zero i.capabilities)
    && not (is_zero i.contract)
    && ltb 0 i.guard_epoch

pub data UntrustedDestinationState : Type 0 where
  absent exact_completed partial unexpected : UntrustedDestinationState

pub data ManagedFeature : Type 0 where
  database_creation schema_creation role_creation default_privileges : ManagedFeature
  ownership_inspection : ManagedFeature

pub record UntrustedManagedFeatureDiagnostics : Type 0 where
  pub database_creation : Bool
  pub schema_creation : Bool
  pub role_creation : Bool
  pub default_privileges : Bool
  pub ownership_inspection : Bool

abbrev pub all_reported_available : UntrustedManagedFeatureDiagnostics
all_reported_available = record {
  database_creation = true;
  schema_creation = true;
  role_creation = true;
  default_privileges = true;
  ownership_inspection = true;
}

unfoldable pub report_unavailable :
    UntrustedManagedFeatureDiagnostics → ManagedFeature → UntrustedManagedFeatureDiagnostics
report_unavailable d ManagedFeature.database_creation = record d { database_creation = false }
report_unavailable d ManagedFeature.schema_creation = record d { schema_creation = false }
report_unavailable d ManagedFeature.role_creation = record d { role_creation = false }
report_unavailable d ManagedFeature.default_privileges = record d { default_privileges = false }
report_unavailable d ManagedFeature.ownership_inspection = record d { ownership_inspection = false }

-- `find_map` over pairs of a value and whether it is the one.
abbrev pub first_of {ℓ} : {A : Type ℓ} → List (A × Bool) → Option A
first_of [] = none
first_of ((a, hit) ∷ rest) = if hit then some a else first_of rest

unfoldable pub first_unavailable : UntrustedManagedFeatureDiagnostics → Option ManagedFeature
first_unavailable d = first_of (
    (ManagedFeature.database_creation, not d.database_creation)
    ∷ (ManagedFeature.schema_creation, not d.schema_creation)
    ∷ (ManagedFeature.role_creation, not d.role_creation)
    ∷ (ManagedFeature.default_privileges, not d.default_privileges)
    ∷ (ManagedFeature.ownership_inspection, not d.ownership_inspection)
    ∷ [])

pub data DriftField : Type 0 where
  owner role_attributes grants search_path default_privileges : DriftField

pub record UntrustedDriftDiagnostics : Type 0 where
  pub owner : Bool
  pub role_attributes : Bool
  pub grants : Bool
  pub search_path : Bool
  pub default_privileges : Bool

abbrev pub reported_no_drift : UntrustedDriftDiagnostics
reported_no_drift = record {
  owner = false;
  role_attributes = false;
  grants = false;
  search_path = false;
  default_privileges = false;
}

unfoldable pub report_drift : UntrustedDriftDiagnostics → DriftField → UntrustedDriftDiagnostics
report_drift d DriftField.owner = record d { owner = true }
report_drift d DriftField.role_attributes = record d { role_attributes = true }
report_drift d DriftField.grants = record d { grants = true }
report_drift d DriftField.search_path = record d { search_path = true }
report_drift d DriftField.default_privileges = record d { default_privileges = true }

unfoldable pub first_reported_drift : UntrustedDriftDiagnostics → Option DriftField
first_reported_drift d = first_of (
    (DriftField.owner, d.owner)
    ∷ (DriftField.role_attributes, d.role_attributes)
    ∷ (DriftField.grants, d.grants)
    ∷ (DriftField.search_path, d.search_path)
    ∷ (DriftField.default_privileges, d.default_privileges)
    ∷ [])

pub record UntrustedBootstrapObservation : Type 0 where
  pub plan : Bytes
  pub destination : Bytes
  pub configuration : Bytes
  pub capabilities : Bytes
  pub contract : Bytes
  pub guard_epoch : ℕ
  pub features : UntrustedManagedFeatureDiagnostics
  pub destination_state : UntrustedDestinationState
  pub drift : UntrustedDriftDiagnostics

pub data BootstrapAction : Type 0 where
  require_exclusive_guard inspect_destination create_database : BootstrapAction
  create_application_schema : BootstrapAction
  create_role : RoleKind → BootstrapAction
  enforce_deny_by_default verify_owner verify_role_attributes verify_grants : BootstrapAction
  verify_search_path verify_default_privileges : BootstrapAction

-- A candidate is its identity and its actions.
pub data UntrustedExecutionAssessment : Type 0 where
  apply_candidate verify_only_candidate :
      UntrustedBootstrapIdentity → List BootstrapAction → UntrustedExecutionAssessment

pub data BootstrapIdentityField : Type 0 where
  plan destination configuration capabilities contract guard_epoch : BootstrapIdentityField

pub data BootstrapErrorCode : Type 0 where
  identity_required observation_identity_mismatch managed_feature_unavailable : BootstrapErrorCode
  pre_existing_state_mismatch diagnostic_drift : BootstrapErrorCode

pub record BootstrapError : Type 0 where
  pub code : BootstrapErrorCode
  pub identity_field : Option BootstrapIdentityField
  pub feature : Option ManagedFeature
  pub drift : Option DriftField

abbrev pub error : BootstrapErrorCode → BootstrapError
error code = record { code = code; identity_field = none; feature = none; drift = none }

-- An `ExternalDatabaseBootstrapPlan` is its identity.
unfoldable pub draft : UntrustedBootstrapIdentity → Result BootstrapError UntrustedBootstrapIdentity
draft i = if not (is_complete i) then err (error identity_required) else ok i

unfoldable pub identity_mismatch :
    UntrustedBootstrapIdentity → UntrustedBootstrapObservation → Option BootstrapIdentityField
identity_mismatch e o = first_of (
    (BootstrapIdentityField.plan, not (bytes_eq e.plan o.plan))
    ∷ (BootstrapIdentityField.destination, not (bytes_eq e.destination o.destination))
    ∷ (BootstrapIdentityField.configuration, not (bytes_eq e.configuration o.configuration))
    ∷ (BootstrapIdentityField.capabilities, not (bytes_eq e.capabilities o.capabilities))
    ∷ (BootstrapIdentityField.contract, not (bytes_eq e.contract o.contract))
    ∷ (BootstrapIdentityField.guard_epoch, not (e.guard_epoch == o.guard_epoch))
    ∷ [])

abbrev pub verifications : List BootstrapAction
verifications =
    verify_owner ∷ verify_role_attributes ∷ verify_grants ∷ verify_search_path
    ∷ verify_default_privileges ∷ []

unfoldable pub apply_actions : List BootstrapAction
apply_actions =
    require_exclusive_guard
    ∷ inspect_destination
    ∷ create_database
    ∷ create_application_schema
    ∷ create_role RoleKind.api
    ∷ create_role RoleKind.worker
    ∷ create_role RoleKind.migrator
    ∷ create_role RoleKind.backup
    ∷ create_role RoleKind.restore
    ∷ enforce_deny_by_default
    ∷ verifications

unfoldable pub verify_only_actions : List BootstrapAction
verify_only_actions = require_exclusive_guard ∷ inspect_destination ∷ verifications

-- `role_actions` of a candidate's actions.
unfoldable pub role_actions : List BootstrapAction → List RoleKind
role_actions [] = []
role_actions (create_role role ∷ rest) = role ∷ role_actions rest
role_actions (action ∷ rest) = role_actions rest

abbrev pub assess_state :
    UntrustedBootstrapIdentity
    → UntrustedDestinationState
    → Result BootstrapError UntrustedExecutionAssessment
assess_state i absent = ok (apply_candidate i apply_actions)
assess_state i exact_completed = ok (verify_only_candidate i verify_only_actions)
assess_state i partial = err (error pre_existing_state_mismatch)
assess_state i unexpected = err (error pre_existing_state_mismatch)

unfoldable pub assess_untrusted :
    UntrustedBootstrapIdentity
    → UntrustedBootstrapObservation
    → Result BootstrapError UntrustedExecutionAssessment
assess_untrusted i o = elim (identity_mismatch i o) [
  | some field ↦ err (record (error observation_identity_mismatch) { identity_field = some field })
  | none ↦ elim (first_unavailable o.features) [
    | some feature ↦ err (record (error managed_feature_unavailable) { feature = some feature })
    | none ↦ elim (first_reported_drift o.drift) [
      | some field ↦ err (record (error diagnostic_drift) { drift = some field })
      | none ↦ assess_state i o.destination_state
    ]
  ]
]
