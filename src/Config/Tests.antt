-- ===== src/Config/Tests.antt =====
-- The settings and the plans at concrete inputs.
use veyora.Prelude.{
  ◌≡◌, ◌≢◌, ◌≤◌, refl, Bytes, codes, bytes_eq, none, some, List, [], ◌∷◌, Result, ok, err, length,
  All,
}
use veyora.Config.Int.{pos, leb_ℤ}
use veyora.Config.Map.{lookup, insert}
use veyora.Config.Value.{
  SettingValue, ConfigErrorCode, out_of_bounds, missing_required, secret_reference_source,
  invalid_projection, split, valid_part, valid_mounted_path, valid_config_path,
  valid_secret_reference, is_name, matches_pattern, validate, validate_number, validate_text,
  validate_items, validate_secret_reference, default_value,
}
use veyora.Config.Value.Paths.{resolve}
use veyora.Config.Generated.{generated_settings}
use veyora.Config.Resolved.{
  SettingEntry, ConfigLayer, ResolvedBackendConfig, replace, check_specs,
  validate_generated_projection, collect, insert_defaults, apply_entries, apply_layer, load, get,
}
use veyora.Config.Resolved.Layers.{entry_for}
use veyora.Config.Resolved.Load.{IsResolved, load-IsResolved}
use veyora.Config.Resolved.Secrets.{load_secrets}
use veyora.Config.Resolved.Committed.{load-generated_settings}

abbrev layer : List SettingEntry → ConfigLayer
layer entries = record { catalog_version = 1; owner = codes "backend"; entries = entries }

abbrev secret : Bytes → SettingEntry
secret id = record { id = id; value = SettingValue.secret_reference (codes "/run/secrets/key") }

abbrev owner_entries : List SettingEntry
owner_entries =
    secret (codes "backend.auth.server-identity-key")
    ∷ secret (codes "backend.database.api-password")
    ∷ secret (codes "backend.database.backup-password")
    ∷ record {
      id = codes "backend.database.ca-file";
      value = SettingValue.path (codes "/run/config/ca.pem");
    }
    ∷ record {
      id = codes "backend.database.hosts";
      value = SettingValue.string_list (codes "db" ∷ []);
    }
    ∷ secret (codes "backend.database.migrator-password")
    ∷ record { id = codes "backend.database.name"; value = SettingValue.string (codes "veyora") }
    ∷ secret (codes "backend.database.restore-password")
    ∷ secret (codes "backend.database.worker-password")
    ∷ []

abbrev port_entry : SettingEntry
port_entry = record { id = codes "backend.database.port"; value = SettingValue.integer (pos 5433) }

abbrev config_of : Result ConfigErrorCode ResolvedBackendConfig → ResolvedBackendConfig
config_of (ok c) = c
config_of (err e) = []

abbrev config : ResolvedBackendConfig
config = config_of (load generated_settings (layer owner_entries) (layer (port_entry ∷ [])))

loads : load generated_settings (layer owner_entries) (layer (port_entry ∷ [])) ≡ ok config
unfolding load validate_generated_projection check_specs collect insert_defaults apply_layer
    apply_entries default_value validate validate_number validate_text validate_items
    validate_secret_reference leb_ℤ valid_secret_reference valid_config_path valid_mounted_path
    valid_part is_name matches_pattern bytes_eq insert lookup
loads = refl

load-IsResolved_example :
    All (IsResolved (layer owner_entries) (layer (port_entry ∷ [])) config) generated_settings
load-IsResolved_example =
    load-IsResolved generated_settings (layer owner_entries) (layer (port_entry ∷ [])) config loads

abbrev api_password : Bytes
api_password = codes "backend.database.api-password"

secret_found :
    get api_password config ≡ some (SettingValue.secret_reference (codes "/run/secrets/key"))
unfolding get load validate_generated_projection check_specs collect insert_defaults apply_layer
    apply_entries default_value validate validate_number validate_text validate_items
    validate_secret_reference leb_ℤ valid_secret_reference valid_config_path valid_mounted_path
    valid_part is_name matches_pattern bytes_eq insert lookup
secret_found = refl

load_secrets_example :
    (entry_for api_password owner_entries
      ≡ some (SettingValue.secret_reference (codes "/run/secrets/key")))
    × (entry_for api_password (port_entry ∷ []) ≡ none)
    × (parts : List Bytes) × (resolve [] (split (codes "/run/secrets/key"))
        ≡ codes "run" ∷ codes "secrets" ∷ parts)
    × (1 ≤ length parts)
load_secrets_example =
    load_secrets generated_settings (layer owner_entries) (layer (port_entry ∷ [])) config
      api_password (codes "/run/secrets/key") loads secret_found

load-generated_settings_example :
    load generated_settings (layer (port_entry ∷ port_entry ∷ [])) (layer [])
    ≢ err invalid_projection
load-generated_settings_example =
    load-generated_settings (layer (port_entry ∷ port_entry ∷ [])) (layer [])

-- A required setting that no layer names, a secret that the command brings, and a port out of bounds.
refused :
    (load generated_settings (layer []) (layer []) ≡ err missing_required)
    × (load generated_settings (layer owner_entries) (layer (secret api_password ∷ []))
        ≡ err secret_reference_source)
    × (load generated_settings (layer owner_entries) (
          replace
            (codes "backend.database.port")
            (SettingValue.integer (pos 65536))
            (layer (port_entry ∷ [])))
        ≡ err out_of_bounds)
unfolding load validate_generated_projection check_specs collect insert_defaults apply_layer
    apply_entries default_value validate validate_number validate_text validate_items
    validate_secret_reference leb_ℤ valid_secret_reference valid_config_path valid_mounted_path
    valid_part is_name matches_pattern bytes_eq insert lookup replace
refused = (refl, refl, refl)
