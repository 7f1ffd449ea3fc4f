-- ===== src/Config/Generated.antt =====
-- packages/config/src/generated.rs: the committed registry of settings.
mod Shape
mod Database
mod Service
use Prim.Native.String.{String}
use veyora.Prelude.{ℕ, Bytes, codes, Option, none, some, List, [], ◌∷◌}
use veyora.Config.Int.{pos}
use veyora.Config.Value.{
  SettingKind, GeneratedValueMode, GeneratedDefault, default, required, number, text,
  GeneratedConstraints, GeneratedSettingSpec,
}
use Database.{
  database_api_password, database_backup_password, database_ca_file,
  database_connect_timeout_seconds, database_hosts, database_migrator_password, database_name,
  database_pool_api, database_pool_worker, database_port, database_query_timeout_seconds,
  database_restore_password, database_schema, database_tls_mode, database_worker_password,
}
use Service.{
  auth_max_concurrent_sessions, auth_server_identity_key, idempotency_retention_seconds, log_format,
  log_level, queue_backlog_alert_count, queue_claim_default_count, queue_claim_max_count,
  queue_lease_seconds, queue_max_attempts, quota_live_records, quota_relationships,
  session_absolute_ttl_seconds, session_idle_ttl_seconds, snapshot_lease_ttl_seconds,
  snapshot_page_max_bytes, sync_page_size, sync_record_size_bytes, tombstone_retention_days,
}

abbrev pub registry_file_sha256 : Bytes
registry_file_sha256 =
    codes "sha256:76938009515bd78cb0d723c1bf315df6acc40516ab342316109759b71ae4e11c"

abbrev pub registry_source_integrity : Bytes
registry_source_integrity =
    codes "sha256:18d9bed314293a16e953cbb7d4236b610fa42c0c361d3200756f8c0b30e708e3"

abbrev pub registry_projection_integrity : Bytes
registry_projection_integrity =
    codes "sha256:087fdb7f44ac6bbcf1fa22d690cbc16ff434b3f8f9153c3e6ca169ba4789ee58"

abbrev pub generated_catalog_version : ℕ
generated_catalog_version = 1

abbrev pub generated_owner : Bytes
generated_owner = codes "backend"

abbrev pub generated_settings : List GeneratedSettingSpec
generated_settings =
    auth_max_concurrent_sessions ∷ auth_server_identity_key ∷ database_api_password
    ∷ database_backup_password ∷ database_ca_file ∷ database_connect_timeout_seconds
    ∷ database_hosts ∷ database_migrator_password ∷ database_name ∷ database_pool_api
    ∷ database_pool_worker ∷ database_port ∷ database_query_timeout_seconds
    ∷ database_restore_password ∷ database_schema ∷ database_tls_mode ∷ database_worker_password
    ∷ idempotency_retention_seconds ∷ log_format ∷ log_level ∷ queue_backlog_alert_count
    ∷ queue_claim_default_count ∷ queue_claim_max_count ∷ queue_lease_seconds ∷ queue_max_attempts
    ∷ quota_live_records ∷ quota_relationships ∷ session_absolute_ttl_seconds
    ∷ session_idle_ttl_seconds ∷ snapshot_lease_ttl_seconds ∷ snapshot_page_max_bytes
    ∷ sync_page_size ∷ sync_record_size_bytes ∷ tombstone_retention_days ∷ []
