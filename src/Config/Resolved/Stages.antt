-- ===== src/Config/Resolved/Stages.antt =====
-- The stages that a load has gone through when it succeeds.
use veyora.Prelude.{
  ◌≡◌, bytes_eq, Bool-cases, true, false, not, ◌||◌, ◌==◌, inl, inr, List, [], ok, >>=-eq-ok, any,
  arith,
}
use mathlib.Core.Path.{subst}
use veyora.Config.Map.{BTreeMap}
use veyora.Config.Value.{SettingValue, GeneratedSettingSpec}
use veyora.Config.Generated.{generated_catalog_version, generated_owner}
use veyora.Config.Resolved.{
  ConfigLayer, ResolvedBackendConfig, is_missing, check_required, check_specs,
  validate_generated_projection, collect, insert_defaults, apply_entries, apply_layer, load,
}
use veyora.Config.Resolved.Registry.{ok_same}

-- The stages of a load that succeeds.
pub record Loaded (settings : List GeneratedSettingSpec) (owner_file command : ConfigLayer)
    (config : ResolvedBackendConfig) : Type 0 where
  pub projection : check_specs settings [] ≡ ok tt
  pub defaults : BTreeMap SettingValue
  pub values : BTreeMap SettingValue
  pub defaulted : insert_defaults settings [] ≡ ok defaults
  pub owned : apply_entries (collect settings []) true owner_file.entries [] defaults ≡ ok values
  pub commanded : apply_entries (collect settings []) false command.entries [] values ≡ ok config
  pub complete : any (is_missing config) settings ≡ false

check_specs_of :
    (settings : List GeneratedSettingSpec)
    → validate_generated_projection settings ≡ ok tt
    → check_specs settings [] ≡ ok tt
unfolding validate_generated_projection
check_specs_of settings h = ground (arith, h)

check_required_of :
    (settings : List GeneratedSettingSpec) (values config : BTreeMap SettingValue)
    → check_required settings values ≡ ok config
    → (values ≡ config) × (any (is_missing config) settings ≡ false)
check_required_of settings values config h = elim (Bool-cases (any (is_missing values) settings)) [
  | inl e ↦ cc (rw e at h)
  | inr e ↦
      let same = ok_same values config (rw e at h) in
      (same, subst (λ m. any (is_missing m) settings ≡ false) same e)
]

pub load-Loaded :
    (settings : List GeneratedSettingSpec) (owner_file command : ConfigLayer)
    (config : ResolvedBackendConfig)
    → load settings owner_file command ≡ ok config
    → Loaded settings owner_file command config
unfolding load apply_layer
load-Loaded settings owner_file command config h =
    let (u, projection, h1) = >>=-eq-ok (validate_generated_projection settings) _ h in
    elim (Bool-cases (
      not (bytes_eq owner_file.owner generated_owner)
      || not (bytes_eq command.owner generated_owner))) [
        | inl e ↦ cc (rw e at h1)
        | inr e ↦
            elim (Bool-cases (
              not (owner_file.catalog_version == generated_catalog_version)
              || not (command.catalog_version == generated_catalog_version))) [
                | inl f ↦ cc (rw (e, f) at h1)
                | inr f ↦
                    let (d, defaulted, h2) =
                      >>=-eq-ok (insert_defaults settings []) _ (rw (e, f) at h1) in
                    let (v, owned, h3) =
                      >>=-eq-ok (apply_entries (collect settings []) true owner_file.entries [] d) _
                        h2 in
                    let (w, commanded, h4) =
                      >>=-eq-ok (apply_entries (collect settings []) false command.entries [] v) _
                        h3 in
                    let (same, complete) = check_required_of settings w config h4 in
                    record {
                      projection = check_specs_of settings projection;
                      defaults = d;
                      values = v;
                      defaulted = defaulted;
                      owned = owned;
                      commanded =
                          subst
                            (λ m.
                              apply_entries (collect settings []) false command.entries [] v ≡ ok m)
                            same commanded;
                      complete = complete;
                    }
              ]
      ]
