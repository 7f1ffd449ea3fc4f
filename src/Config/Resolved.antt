-- ===== src/Config/Resolved.antt =====
-- packages/config/src/resolved.rs: the layers of settings and the configuration that they resolve to.
-- The registry is an argument; the committed one is `generated_settings`. A set is the list of what
-- was inserted.
pub mod Registry
pub mod Layers
pub mod Stages
pub mod Load
pub mod Secrets
pub mod Proper
pub mod Committed
use veyora.Prelude.{
  ℕ, Bytes, codes, bytes_eq, Bool, true, false, not, ◌&&◌, ◌||◌, Option, none, some, List, [], ◌∷◌,
  Result, ok, err, ◌>>=◌, ◌==◌, if◌then◌else◌, length, any,
}
use veyora.Config.Map.{BTreeMap, lookup, insert}
use veyora.Config.Value.{
  SettingValue, GeneratedValueMode, default, required, GeneratedSettingSpec, ConfigErrorCode,
  unknown_setting, duplicate_setting, owner_mismatch, version_mismatch, secret_reference_source,
  missing_required, invalid_projection, strip_prefix, Checked, validate, default_value,
}
use veyora.Config.Generated.{
  registry_file_sha256, registry_source_integrity, registry_projection_integrity,
  generated_catalog_version, generated_owner,
}

pub record SettingEntry : Type 0 where
  pub id : Bytes
  pub value : SettingValue

pub record ConfigLayer : Type 0 where
  pub catalog_version : ℕ
  pub owner : Bytes
  pub entries : List SettingEntry

abbrev pub replace_entry : Bytes → SettingValue → List SettingEntry → List SettingEntry
replace_entry id value [] = record { id = id; value = value } ∷ []
replace_entry id value (e ∷ rest) =
    if bytes_eq e.id id then record e { value = value } ∷ rest else e ∷ replace_entry id value rest

unfoldable pub replace : Bytes → SettingValue → ConfigLayer → ConfigLayer
replace id value layer = record layer { entries = replace_entry id value layer.entries }

abbrev pub ResolvedBackendConfig : Type 0
ResolvedBackendConfig = BTreeMap SettingValue

abbrev pub is_some {ℓ} : {A : Type ℓ} → Option A → Bool
is_some none = false
is_some (some a) = true

abbrev pub contains : Bytes → List Bytes → Bool
contains id = any (λ j. bytes_eq j id)

abbrev pub is_required : GeneratedValueMode → Bool
is_required default = false
is_required required = true

abbrev pub bad_digest : Bytes → Bool
bad_digest digest =
    not (is_some (strip_prefix (codes "sha256:") digest)) || not (length digest == 71)

abbrev pub bad_spec : GeneratedSettingSpec → List Bytes → Bool
bad_spec s ids =
    not (bytes_eq s.owner generated_owner)
    || not (is_some (strip_prefix (codes "backend.") s.id))
    || contains s.id ids
    || (not (is_required s.mode) && not (is_some s.default_text))
    || (is_required s.mode && is_some s.default_text)

unfoldable pub check_specs : List GeneratedSettingSpec → List Bytes → Checked
check_specs [] ids = ok tt
check_specs (s ∷ rest) ids =
    if bad_spec s ids then err invalid_projection else check_specs rest (s.id ∷ ids)

unfoldable pub validate_generated_projection : List GeneratedSettingSpec → Checked
validate_generated_projection settings =
    if not (generated_catalog_version == 1)
      || not (bytes_eq generated_owner (codes "backend"))
      || not (length settings == 34)
      || any bad_digest
          (registry_file_sha256 ∷ registry_source_integrity ∷ registry_projection_integrity ∷ [])
    then err invalid_projection
    else check_specs settings []

-- `collect::<BTreeMap<_, _>>()`
unfoldable pub collect :
    List GeneratedSettingSpec → BTreeMap GeneratedSettingSpec → BTreeMap GeneratedSettingSpec
collect [] known = known
collect (s ∷ rest) known = collect rest (insert s.id s known)

abbrev pub with_default :
    Bytes → Option SettingValue → BTreeMap SettingValue → BTreeMap SettingValue
with_default id none values = values
with_default id (some value) values = insert id value values

unfoldable pub insert_defaults :
    List GeneratedSettingSpec
    → BTreeMap SettingValue
    → Result ConfigErrorCode (BTreeMap SettingValue)
insert_defaults [] values = ok values
insert_defaults (s ∷ rest) values =
    default_value s >>= λ value. insert_defaults rest (with_default s.id value values)

abbrev pub is_secret : SettingValue → Bool
is_secret (SettingValue.secret_reference r) = true
is_secret v = false

unfoldable pub apply_entries :
    BTreeMap GeneratedSettingSpec
    → Bool
    → List SettingEntry
    → List Bytes
    → BTreeMap SettingValue
    → Result ConfigErrorCode (BTreeMap SettingValue)
apply_entries known permits [] seen values = ok values
apply_entries known permits (e ∷ rest) seen values =
    if contains e.id seen then err duplicate_setting else (elim (lookup e.id known) [
      | none ↦ err unknown_setting
      | some s ↦
          if is_secret e.value && not permits
          then err secret_reference_source
          else validate s e.value >>= λ u.
              apply_entries known permits rest (e.id ∷ seen) (insert e.id e.value values)
    ])

unfoldable pub apply_layer :
    ConfigLayer
    → BTreeMap GeneratedSettingSpec
    → BTreeMap SettingValue
    → Bool
    → Result ConfigErrorCode (BTreeMap SettingValue)
apply_layer layer known values permits = apply_entries known permits layer.entries [] values

abbrev pub is_missing : BTreeMap SettingValue → GeneratedSettingSpec → Bool
is_missing values s = is_required s.mode && not (is_some (lookup s.id values))

abbrev pub check_required :
    List GeneratedSettingSpec → BTreeMap SettingValue → Result ConfigErrorCode ResolvedBackendConfig
check_required settings values =
    if any (is_missing values) settings then err missing_required else ok values

unfoldable pub load :
    List GeneratedSettingSpec
    → ConfigLayer
    → ConfigLayer
    → Result ConfigErrorCode ResolvedBackendConfig
load settings owner_file command = validate_generated_projection settings >>= λ u.
    if not (bytes_eq owner_file.owner generated_owner)
      || not (bytes_eq command.owner generated_owner)
    then err owner_mismatch
    else if not (owner_file.catalog_version == generated_catalog_version)
        || not (command.catalog_version == generated_catalog_version)
    then err version_mismatch
    else insert_defaults settings [] >>= λ defaults.
        apply_layer owner_file (collect settings []) defaults true >>= λ values.
        apply_layer command (collect settings []) values false >>= check_required settings

unfoldable pub get : Bytes → ResolvedBackendConfig → Option SettingValue
get id config = lookup id config
