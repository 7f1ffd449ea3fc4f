-- ===== src/Config/Resolved/Committed.antt =====
-- The committed registry: a load over it never fails for a fault of the registry's own.
use veyora.Prelude.{
  ◌≡◌, ◌≢◌, refl, sym, ◌∙◌, Bytes, bytes_eq, Bool, Bool-cases, true, false, not, ◌&&◌, ◌||◌, ◌==◌,
  Option, Option-cases, some, inl, inr, List, [], ◌∷◌, Result, ok, err, all, any,
}
use mathlib.Core.Path.{subst}
use veyora.Config.Int.{leb_ℤ}
use veyora.Config.Map.{BTreeMap, lookup, insert, lookup-insert}
use veyora.Config.Value.{
  SettingValue, GeneratedSettingSpec, ConfigErrorCode, invalid_projection, validate,
  validate_number, validate_text, valid_part, valid_config_path, valid_mounted_path, is_name,
  matches_pattern, default_value,
}
use veyora.Config.Generated.{generated_settings, generated_catalog_version, generated_owner}
use veyora.Config.Resolved.{
  ConfigLayer, SettingEntry, is_secret, contains, is_missing, check_required, check_specs,
  validate_generated_projection, collect, insert_defaults, apply_entries, apply_layer, load,
}
use veyora.Config.Resolved.Proper.{IsProper, >>=-IsProper, is_complete, validate-IsProper}

some_spec :
    (s t : GeneratedSettingSpec) → ◌≡◌ {A = Option GeneratedSettingSpec} (some s) (some t) → s ≡ t
some_spec s t h = cc

-- Every specification that is known is complete.
abbrev AllComplete : BTreeMap GeneratedSettingSpec → Type 0
AllComplete known =
    (id : Bytes) (s : GeneratedSettingSpec) → lookup id known ≡ some s → is_complete s ≡ true

insert-AllComplete :
    (s : GeneratedSettingSpec) (known : BTreeMap GeneratedSettingSpec)
    → is_complete s ≡ true
    → AllComplete known
    → AllComplete (insert s.id s known)
insert-AllComplete s known h p = λ id t found. elim (Bool-cases (bytes_eq s.id id)) [
  | inl e ↦
      let same : s ≡ t = some_spec s t (rw e at (sym (lookup-insert s.id id s known) ∙ found)) in
      subst (λ x. is_complete x ≡ true) same h
  | inr e ↦ p id t (rw e at (sym (lookup-insert s.id id s known) ∙ found))
]

collect-AllComplete :
    (settings : List GeneratedSettingSpec) (known : BTreeMap GeneratedSettingSpec)
    → all is_complete settings ≡ true
    → AllComplete known
    → AllComplete (collect settings known)
unfolding collect
collect-AllComplete [] known h p = p
collect-AllComplete (s ∷ rest) known h p = elim (Bool-cases (is_complete s)) [
  | inl e ↦
      collect-AllComplete rest (insert s.id s known) (rw e at h) (insert-AllComplete s known e p)
  | inr e ↦ cc (rw e at h)
]

apply_entries-IsProper :
    (known : BTreeMap GeneratedSettingSpec) (permits : Bool) (entries : List SettingEntry)
    (seen : List Bytes) (values : BTreeMap SettingValue)
    → AllComplete known
    → IsProper (apply_entries known permits entries seen values)
unfolding apply_entries
apply_entries-IsProper known permits [] seen values p = λ h. cc
apply_entries-IsProper known permits (e ∷ rest) seen values p =
    elim (Bool-cases (contains e.id seen)) [
      | inl dup ↦ rw dup (λ h. cc)
      | inr fresh ↦ elim (Option-cases (lookup e.id known)) [
        | inl unknown ↦ rw (fresh, unknown) (λ h. cc)
        | inr (s, found) ↦ elim (Bool-cases (is_secret e.value && not permits)) [
          | inl bad ↦ rw (fresh, found, bad) (λ h. cc)
          | inr sourced ↦
              rw (fresh, found, sourced)
                (>>=-IsProper (validate s e.value) _ (validate-IsProper s e.value (p e.id s found))
                  (λ u.
                    apply_entries-IsProper known permits rest (e.id ∷ seen)
                      (insert e.id e.value values) p))
        ]
      ]
    ]

check_required-IsProper :
    (settings : List GeneratedSettingSpec) (values : BTreeMap SettingValue)
    → IsProper (check_required settings values)
check_required-IsProper settings values = elim (Bool-cases (any (is_missing values) settings)) [
  | inl e ↦ rw e (λ h. cc)
  | inr e ↦ rw e (λ h. cc)
]

abbrev is_ok {ℓ} : {A : Type ℓ} → Result ConfigErrorCode A → Bool
is_ok (ok a) = true
is_ok (err e) = false

is_ok-IsProper {ℓ} : {A : Type ℓ} (r : Result ConfigErrorCode A) → is_ok r ≡ true → IsProper r
is_ok-IsProper (ok a) h = λ z. cc
is_ok-IsProper (err e) h = cc

load-IsProper :
    (settings : List GeneratedSettingSpec) (owner_file command : ConfigLayer)
    → is_ok (validate_generated_projection settings) ≡ true
    → is_ok (insert_defaults settings []) ≡ true
    → all is_complete settings ≡ true
    → IsProper (load settings owner_file command)
unfolding load apply_layer lookup
load-IsProper settings owner_file command hp hd hc =
    let complete = collect-AllComplete settings [] hc (λ id s absent. cc) in
    >>=-IsProper (validate_generated_projection settings) _ (is_ok-IsProper _ hp) λ u.
      elim (Bool-cases (
        not (bytes_eq owner_file.owner generated_owner)
        || not (bytes_eq command.owner generated_owner))) [
          | inl e ↦ rw e (λ h. cc)
          | inr e ↦
              elim (Bool-cases (
                not (owner_file.catalog_version == generated_catalog_version)
                || not (command.catalog_version == generated_catalog_version))) [
                  | inl f ↦ rw (e, f) (λ h. cc)
                  | inr f ↦
                      rw (e, f)
                        (>>=-IsProper (insert_defaults settings []) _ (is_ok-IsProper _ hd)
                          λ defaults.
                            >>=-IsProper
                              (apply_entries (collect settings []) true owner_file.entries []
                                defaults)
                              _
                              (apply_entries-IsProper _ true owner_file.entries [] defaults
                                complete)
                              λ values.
                                >>=-IsProper
                                  (apply_entries (collect settings []) false command.entries []
                                    values)
                                  _
                                  (apply_entries-IsProper _ false command.entries [] values
                                    complete)
                                  (check_required-IsProper settings))
                ]
        ]

-- The committed registry passes its own check, its defaults are valid, and its constraints are there.
committed_projection : is_ok (validate_generated_projection generated_settings) ≡ true
unfolding validate_generated_projection check_specs bytes_eq
committed_projection = refl

committed_defaults : is_ok (insert_defaults generated_settings []) ≡ true
unfolding insert_defaults default_value validate validate_number validate_text leb_ℤ
    valid_config_path valid_mounted_path valid_part is_name matches_pattern bytes_eq insert
committed_defaults = refl

committed_complete : all is_complete generated_settings ≡ true
unfolding bytes_eq
committed_complete = refl

-- Over the committed registry no layers make a load fail with `InvalidProjection`.
pub load-generated_settings :
    (owner_file command : ConfigLayer)
    → load generated_settings owner_file command ≢ err invalid_projection
load-generated_settings owner_file command =
    load-IsProper generated_settings owner_file command committed_projection committed_defaults
      committed_complete
