-- ===== src/Config/Roles.antt =====
-- packages/config/src/role_plan.rs: the authorization plans of the services, over the committed
-- capabilities of generated.rs. The two shapes of a capability, static and owned, are one record.
pub mod Compiled
use veyora.Prelude.{
  ℕ, Bytes, codes, bytes_eq, Bool, true, false, not, ◌&&◌, Option, none, some, List, [], ◌∷◌,
  Result, ok, err, ◌==◌, if◌then◌else◌,
}

pub record ServiceCapability : Type 0 where
  pub routes : List Bytes
  pub database_operations : List Bytes
  pub secret_files : List Bytes
  pub network_targets : List Bytes
  pub volumes : List Bytes
  pub jobs : List Bytes
  pub observability : List Bytes
  pub stdin : Option (List Bytes)

pub record ServiceCapabilityMap : Type 0 where
  pub gateway : ServiceCapability
  pub api : ServiceCapability
  pub worker : ServiceCapability
  pub web : ServiceCapability
  pub validator : ServiceCapability
  pub migrator : ServiceCapability
  pub backup : ServiceCapability
  pub restore : ServiceCapability

pub record ServiceCapabilities : Type 0 where
  pub schema_version : ℕ
  pub default_rule : Bytes
  pub services : ServiceCapabilityMap

-- Every list is empty; a service names its own.
abbrev no_capability : ServiceCapability
no_capability = record {
  routes = [];
  database_operations = [];
  secret_files = [];
  network_targets = [];
  volumes = [];
  jobs = [];
  observability = [];
  stdin = none;
}

abbrev pub gateway_capability : ServiceCapability
gateway_capability = record no_capability {
  routes = codes "public-gateway" ∷ [];
  network_targets = codes "api" ∷ codes "web" ∷ [];
  observability = codes "gateway-metrics" ∷ [];
}

abbrev pub api_capability : ServiceCapability
api_capability = record no_capability {
  routes = codes "private-api" ∷ [];
  database_operations = codes "api-transaction" ∷ [];
  secret_files = codes "server-identity-key" ∷ codes "database-api-password" ∷ [];
  network_targets = codes "postgresql" ∷ [];
  jobs = codes "enqueue-outbox" ∷ [];
  observability = codes "api-metrics" ∷ [];
}

abbrev pub worker_capability : ServiceCapability
worker_capability = record no_capability {
  database_operations = codes "worker-lease" ∷ codes "outbox" ∷ [];
  secret_files = codes "database-worker-password" ∷ [];
  network_targets = codes "postgresql" ∷ [];
  jobs = codes "worker-jobs" ∷ [];
  observability = codes "worker-metrics" ∷ [];
}

abbrev pub web_capability : ServiceCapability
web_capability = record no_capability { routes = codes "static-assets" ∷ [] }

abbrev pub validator_capability : ServiceCapability
validator_capability = record no_capability { stdin = some (codes "bounded-ciphertext" ∷ []) }

abbrev pub migrator_capability : ServiceCapability
migrator_capability = record no_capability {
  database_operations = codes "schema-migration" ∷ [];
  secret_files = codes "database-migrator-password" ∷ [];
  network_targets = codes "postgresql" ∷ [];
  observability = codes "migration-status" ∷ [];
}

abbrev pub backup_capability : ServiceCapability
backup_capability = record no_capability {
  database_operations = codes "logical-snapshot" ∷ [];
  secret_files =
      codes "database-backup-password" ∷ codes "backup-key" ∷ codes "receipt-signing-key" ∷ [];
  network_targets = codes "postgresql" ∷ codes "backup-target" ∷ [];
  volumes = codes "backup-staging" ∷ [];
  jobs = codes "backup-once" ∷ [];
  observability = codes "backup-status" ∷ [];
}

abbrev pub restore_capability : ServiceCapability
restore_capability = record no_capability {
  database_operations = codes "provisional-restore" ∷ [];
  secret_files = codes "database-restore-password" ∷ codes "backup-key" ∷ [];
  network_targets = codes "provisional-postgresql" ∷ codes "operator-egress-proxy" ∷ [];
  volumes = codes "restore-staging" ∷ [];
  jobs = codes "restore-once" ∷ [];
  observability = codes "restore-status" ∷ [];
}

abbrev pub canonical_service_capabilities : ServiceCapabilities
canonical_service_capabilities = record {
  schema_version = 1;
  default_rule = codes "deny";
  services = record {
    gateway = gateway_capability;
    api = api_capability;
    worker = worker_capability;
    web = web_capability;
    validator = validator_capability;
    migrator = migrator_capability;
    backup = backup_capability;
    restore = restore_capability;
  };
}

pub data RoleKind : Type 0 where
  api worker migrator backup restore : RoleKind

pub data ServiceName : Type 0 where
  gateway api worker web validator migrator backup restore : ServiceName

pub data AuthorizationPlanErrorCode : Type 0 where
  version_mismatch default_must_deny capability_mismatch : AuthorizationPlanErrorCode

-- The derived equalities.
unfoldable pub texts_eq : List Bytes → List Bytes → Bool
texts_eq [] [] = true
texts_eq [] (y ∷ ys) = false
texts_eq (x ∷ xs) [] = false
texts_eq (x ∷ xs) (y ∷ ys) = bytes_eq x y && texts_eq xs ys

unfoldable pub stdin_eq : Option (List Bytes) → Option (List Bytes) → Bool
stdin_eq none none = true
stdin_eq none (some ys) = false
stdin_eq (some xs) none = false
stdin_eq (some xs) (some ys) = texts_eq xs ys

unfoldable pub capability_eq : ServiceCapability → ServiceCapability → Bool
capability_eq a b =
    texts_eq a.routes b.routes
    && texts_eq a.database_operations b.database_operations
    && texts_eq a.secret_files b.secret_files
    && texts_eq a.network_targets b.network_targets
    && texts_eq a.volumes b.volumes
    && texts_eq a.jobs b.jobs
    && texts_eq a.observability b.observability
    && stdin_eq a.stdin b.stdin

unfoldable pub services_eq : ServiceCapabilityMap → ServiceCapabilityMap → Bool
services_eq a b =
    capability_eq a.gateway b.gateway
    && capability_eq a.api b.api
    && capability_eq a.worker b.worker
    && capability_eq a.web b.web
    && capability_eq a.validator b.validator
    && capability_eq a.migrator b.migrator
    && capability_eq a.backup b.backup
    && capability_eq a.restore b.restore

unfoldable pub capabilities_eq : ServiceCapabilities → ServiceCapabilities → Bool
capabilities_eq a b =
    a.schema_version == b.schema_version
    && bytes_eq a.default_rule b.default_rule
    && services_eq a.services b.services

-- A `ServiceRolePlan` is its kind.
unfoldable pub compile : ServiceCapabilities → Result AuthorizationPlanErrorCode (List RoleKind)
compile candidate =
    if not (candidate.schema_version == canonical_service_capabilities.schema_version)
    then err version_mismatch
    else if not (bytes_eq candidate.default_rule canonical_service_capabilities.default_rule)
    then err default_must_deny
    else if not (capabilities_eq candidate canonical_service_capabilities)
    then err capability_mismatch
    else ok (
        RoleKind.api ∷ RoleKind.worker ∷ RoleKind.migrator ∷ RoleKind.backup ∷ RoleKind.restore
        ∷ [])

abbrev pub role_index : RoleKind → ℕ
role_index RoleKind.api = 0
role_index RoleKind.worker = 1
role_index RoleKind.migrator = 2
role_index RoleKind.backup = 3
role_index RoleKind.restore = 4

abbrev pub role_of : ServiceName → Option RoleKind
role_of ServiceName.api = some RoleKind.api
role_of ServiceName.worker = some RoleKind.worker
role_of ServiceName.migrator = some RoleKind.migrator
role_of ServiceName.backup = some RoleKind.backup
role_of ServiceName.restore = some RoleKind.restore
role_of s = none

unfoldable pub find_role : RoleKind → List RoleKind → Option RoleKind
find_role kind [] = none
find_role kind (role ∷ roles) =
    if role_index role == role_index kind then some role else find_role kind roles

unfoldable pub for_service : List RoleKind → ServiceName → Option RoleKind
for_service roles service = elim (role_of service) [
  | none ↦ none
  | some kind ↦ find_role kind roles
]
