-- ===== src/Config/Generated/Service.antt =====
-- The settings of the service in generated.rs, but for those of the database.
use veyora.Prelude.{codes, none, some, [], ◌∷◌}
use veyora.Config.Int.{pos}
use veyora.Config.Value.{SettingKind, default, required, number, text, GeneratedSettingSpec}
use veyora.Config.Generated.Shape.{unconstrained, mounted_file, setting}

abbrev pub auth_max_concurrent_sessions : GeneratedSettingSpec
auth_max_concurrent_sessions =
    setting "backend.auth.max-concurrent-sessions" SettingKind.integer
      (record unconstrained { minimum = some (pos 1); maximum = some (pos 16) }) default
      (some (number (pos 5)))

abbrev pub auth_server_identity_key : GeneratedSettingSpec
auth_server_identity_key =
    setting "backend.auth.server-identity-key" SettingKind.secret_reference mounted_file required
      none

abbrev pub idempotency_retention_seconds : GeneratedSettingSpec
idempotency_retention_seconds =
    setting "backend.idempotency.retention-seconds" SettingKind.duration_seconds
      (record unconstrained { minimum = some (pos 3600); maximum = some (pos 604800) }) default
      (some (number (pos 86400)))

abbrev pub log_format : GeneratedSettingSpec
log_format =
    setting "backend.log.format" SettingKind.string
      (record unconstrained { allowed = codes "json" ∷ [] }) default (some (text (codes "json")))

abbrev pub log_level : GeneratedSettingSpec
log_level =
    setting "backend.log.level" SettingKind.string
      (record unconstrained {
        allowed = codes "error" ∷ codes "warn" ∷ codes "info" ∷ codes "debug" ∷ [];
      })
      default (some (text (codes "info")))

abbrev pub queue_backlog_alert_count : GeneratedSettingSpec
queue_backlog_alert_count =
    setting "backend.queue.backlog-alert-count" SettingKind.integer
      (record unconstrained { minimum = some (pos 100); maximum = some (pos 100000) }) default
      (some (number (pos 10000)))

abbrev pub queue_claim_default_count : GeneratedSettingSpec
queue_claim_default_count =
    setting "backend.queue.claim-default-count" SettingKind.integer
      (record unconstrained { minimum = some (pos 1); maximum = some (pos 64) }) default
      (some (number (pos 4)))

abbrev pub queue_claim_max_count : GeneratedSettingSpec
queue_claim_max_count =
    setting "backend.queue.claim-max-count" SettingKind.integer
      (record unconstrained { minimum = some (pos 1); maximum = some (pos 64) }) default
      (some (number (pos 64)))

abbrev pub queue_lease_seconds : GeneratedSettingSpec
queue_lease_seconds =
    setting "backend.queue.lease-seconds" SettingKind.duration_seconds
      (record unconstrained { minimum = some (pos 5); maximum = some (pos 300) }) default
      (some (number (pos 60)))

abbrev pub queue_max_attempts : GeneratedSettingSpec
queue_max_attempts =
    setting "backend.queue.max-attempts" SettingKind.integer
      (record unconstrained { minimum = some (pos 1); maximum = some (pos 10) }) default
      (some (number (pos 5)))

abbrev pub quota_live_records : GeneratedSettingSpec
quota_live_records =
    setting "backend.quota.live-records" SettingKind.integer
      (record unconstrained { minimum = some (pos 1); maximum = some (pos 100000) }) default
      (some (number (pos 10000)))

abbrev pub quota_relationships : GeneratedSettingSpec
quota_relationships =
    setting "backend.quota.relationships" SettingKind.integer
      (record unconstrained { minimum = some (pos 0); maximum = some (pos 1000000) }) default
      (some (number (pos 50000)))

abbrev pub session_absolute_ttl_seconds : GeneratedSettingSpec
session_absolute_ttl_seconds =
    setting "backend.session.absolute-ttl-seconds" SettingKind.duration_seconds
      (record unconstrained { minimum = some (pos 3600); maximum = some (pos 604800) }) default
      (some (number (pos 86400)))

abbrev pub session_idle_ttl_seconds : GeneratedSettingSpec
session_idle_ttl_seconds =
    setting "backend.session.idle-ttl-seconds" SettingKind.duration_seconds
      (record unconstrained { minimum = some (pos 60); maximum = some (pos 3600) }) default
      (some (number (pos 900)))

abbrev pub snapshot_lease_ttl_seconds : GeneratedSettingSpec
snapshot_lease_ttl_seconds =
    setting "backend.snapshot.lease-ttl-seconds" SettingKind.duration_seconds
      (record unconstrained { minimum = some (pos 30); maximum = some (pos 900) }) default
      (some (number (pos 300)))

abbrev pub snapshot_page_max_bytes : GeneratedSettingSpec
snapshot_page_max_bytes =
    setting "backend.snapshot.page-max-bytes" SettingKind.bytes
      (record unconstrained { minimum = some (pos 65536); maximum = some (pos 4194304) }) default
      (some (number (pos 4194304)))

abbrev pub sync_page_size : GeneratedSettingSpec
sync_page_size =
    setting "backend.sync.page-size" SettingKind.integer
      (record unconstrained { minimum = some (pos 1); maximum = some (pos 2000) }) default
      (some (number (pos 500)))

abbrev pub sync_record_size_bytes : GeneratedSettingSpec
sync_record_size_bytes =
    setting "backend.sync.record-size-bytes" SettingKind.bytes
      (record unconstrained { minimum = some (pos 1024); maximum = some (pos 16777216) }) default
      (some (number (pos 1048576)))

abbrev pub tombstone_retention_days : GeneratedSettingSpec
tombstone_retention_days =
    setting "backend.tombstone.retention-days" SettingKind.integer
      (record unconstrained { minimum = some (pos 7); maximum = some (pos 90) }) default
      (some (number (pos 30)))
