-- ===== src/Config/Generated/Database.antt =====
-- The settings of the database in generated.rs.
use veyora.Prelude.{codes, none, some, [], ◌∷◌}
use veyora.Config.Int.{pos}
use veyora.Config.Value.{SettingKind, default, required, number, text, GeneratedSettingSpec}
use veyora.Config.Generated.Shape.{unconstrained, mounted_file, setting}

abbrev pub database_api_password : GeneratedSettingSpec
database_api_password =
    setting "backend.database.api-password" SettingKind.secret_reference mounted_file required none

abbrev pub database_backup_password : GeneratedSettingSpec
database_backup_password =
    setting "backend.database.backup-password" SettingKind.secret_reference mounted_file required
      none

abbrev pub database_ca_file : GeneratedSettingSpec
database_ca_file =
    setting "backend.database.ca-file" SettingKind.path
      (record unconstrained {
        maximum_length = some 256;
        pattern_text = some (codes "^/run/config/");
      })
      required none

abbrev pub database_connect_timeout_seconds : GeneratedSettingSpec
database_connect_timeout_seconds =
    setting "backend.database.connect-timeout-seconds" SettingKind.duration_seconds
      (record unconstrained { minimum = some (pos 1); maximum = some (pos 15) }) default
      (some (number (pos 5)))

abbrev pub database_hosts : GeneratedSettingSpec
database_hosts =
    setting "backend.database.hosts" SettingKind.string_list
      (record unconstrained { minimum_items = some 1; maximum_items = some 8 }) required none

abbrev pub database_migrator_password : GeneratedSettingSpec
database_migrator_password =
    setting "backend.database.migrator-password" SettingKind.secret_reference mounted_file required
      none

abbrev pub database_name : GeneratedSettingSpec
database_name =
    setting "backend.database.name" SettingKind.string
      (record unconstrained {
        maximum_length = some 63;
        pattern_text = some (codes "^[a-z][a-z0-9_]*$");
      })
      required none

abbrev pub database_pool_api : GeneratedSettingSpec
database_pool_api =
    setting "backend.database.pool-api" SettingKind.integer
      (record unconstrained { minimum = some (pos 1); maximum = some (pos 50) }) default
      (some (number (pos 10)))

abbrev pub database_pool_worker : GeneratedSettingSpec
database_pool_worker =
    setting "backend.database.pool-worker" SettingKind.integer
      (record unconstrained { minimum = some (pos 1); maximum = some (pos 25) }) default
      (some (number (pos 5)))

abbrev pub database_port : GeneratedSettingSpec
database_port =
    setting "backend.database.port" SettingKind.integer
      (record unconstrained { minimum = some (pos 1); maximum = some (pos 65535) }) default
      (some (number (pos 5432)))

abbrev pub database_query_timeout_seconds : GeneratedSettingSpec
database_query_timeout_seconds =
    setting "backend.database.query-timeout-seconds" SettingKind.duration_seconds
      (record unconstrained { minimum = some (pos 1); maximum = some (pos 120) }) default
      (some (number (pos 30)))

abbrev pub database_restore_password : GeneratedSettingSpec
database_restore_password =
    setting "backend.database.restore-password" SettingKind.secret_reference mounted_file required
      none

abbrev pub database_schema : GeneratedSettingSpec
database_schema =
    setting "backend.database.schema" SettingKind.string
      (record unconstrained {
        maximum_length = some 63;
        pattern_text = some (codes "^[a-z][a-z0-9_]*$");
      })
      default (some (text (codes "veyora_v1")))

abbrev pub database_tls_mode : GeneratedSettingSpec
database_tls_mode =
    setting "backend.database.tls-mode" SettingKind.string
      (record unconstrained { allowed = codes "verify-full" ∷ [] }) default
      (some (text (codes "verify-full")))

abbrev pub database_worker_password : GeneratedSettingSpec
database_worker_password =
    setting "backend.database.worker-password" SettingKind.secret_reference mounted_file required
      none
