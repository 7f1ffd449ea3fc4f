-- ===== src/Config/Resolved/Load.antt =====
-- What a configuration that loads says of its settings, and where its secrets come from.
use veyora.Prelude.{
  ◌≡◌, refl, sym, ap, ◌∙◌, Bytes, Bool, Bool-cases, true, false, not, Option, none, some, inl, inr,
  List, [], ◌∷◌, ok, All, any, arith,
}
use mathlib.Core.Path.{subst}
use veyora.Config.Map.{lookup}
use veyora.Config.Value.{SettingValue, GeneratedSettingSpec, validate}
use veyora.Config.Resolved.{
  ConfigLayer, ResolvedBackendConfig, is_some, is_required, is_missing, collect, load, get,
}
use veyora.Config.Resolved.Registry.{
  or_else, default_of, IsAccepted, HasDefault, check_specs-IsDistinct, check_specs-modes,
  collect-IsDistinct, insert_defaults_lem,
}
use veyora.Config.Resolved.Layers.{
  entry_for, IsChecked, lookup-apply_entries, apply_entries-IsChecked,
}
use veyora.Config.Resolved.Stages.{Loaded, load-Loaded}

some_spec :
    (s t : GeneratedSettingSpec) → ◌≡◌ {A = Option GeneratedSettingSpec} (some s) (some t) → s ≡ t
some_spec s t h = cc

-- The value of a setting: what the command says, else the owner's file, else the registry.
abbrev pub layered : ConfigLayer → ConfigLayer → GeneratedSettingSpec → Option SettingValue
layered owner_file command s =
    or_else (entry_for s.id command.entries)
      (or_else (entry_for s.id owner_file.entries) (default_of s))

pub record IsResolved (owner_file command : ConfigLayer) (config : ResolvedBackendConfig)
    (s : GeneratedSettingSpec) : Type 0 where
  pub value : SettingValue
  pub got : get s.id config ≡ some value
  pub accepted : validate s value ≡ ok tt
  pub precedence : layered owner_file command s ≡ some value

module _ (settings : List GeneratedSettingSpec) (owner_file command : ConfigLayer) where
  module _ (config : ResolvedBackendConfig) (l : Loaded settings owner_file command config) where
    pub lookup-config :
        (id : Bytes)
        → lookup id config
          ≡ or_else
              (entry_for id command.entries)
              (or_else (entry_for id owner_file.entries) (lookup id l.defaults))
    lookup-config id =
        let known = collect settings [] in
        lookup-apply_entries known false id command.entries [] l.values l.commanded
        ∙ ap (or_else (entry_for id command.entries))
            (lookup-apply_entries known true id owner_file.entries [] l.defaults l.owned)

    module _ (s : GeneratedSettingSpec) (known : lookup s.id (collect settings []) ≡ some s) where
      IsChecked-accepted :
          (permits : Bool) (v : SettingValue)
          → IsChecked (collect settings []) permits s.id v
          → validate s v ≡ ok tt
      IsChecked-accepted permits v c =
          let same : c.spec ≡ s = some_spec _ _ (sym c.found ∙ known) in
          subst (λ t. validate t v ≡ ok tt) same c.valid

      layer-IsAccepted :
          (permits : Bool) (o d : Option SettingValue)
          → ((v : SettingValue) → o ≡ some v → IsChecked (collect settings []) permits s.id v)
          → IsAccepted s d
          → IsAccepted s (or_else o d)
      layer-IsAccepted permits none d checked h = h
      layer-IsAccepted permits (some v) d checked h = IsChecked-accepted permits v (checked v refl)

      layered-IsAccepted : IsAccepted s (default_of s) → IsAccepted s (layered owner_file command s)
      layered-IsAccepted h =
          let known = collect settings [] in
          let owned = entry_for s.id owner_file.entries in
          layer-IsAccepted false (entry_for s.id command.entries) (or_else owned (default_of s))
            (λ v.
              apply_entries-IsChecked known false s.id v command.entries [] l.values l.commanded)
            (layer-IsAccepted true owned (default_of s)
              (λ v.
                apply_entries-IsChecked known true s.id v owner_file.entries [] l.defaults l.owned)
              h)

      setting-IsResolved :
          HasDefault [] l.defaults s
          → is_required s.mode ≡ not (is_some s.default_text)
          → is_missing config s ≡ false
          → IsResolved owner_file command config s
      unfolding get lookup
      setting-IsResolved d mode present =
          let at : lookup s.id config ≡ layered owner_file command s =
            lookup-config s.id
            ∙ ap
                (λ o.
                  or_else (entry_for s.id command.entries)
                    (or_else (entry_for s.id owner_file.entries) o))
                (d.found ∙ or_else-none (default_of s)) in
          let (v, e) = the_value (layered owner_file command s) (there at) in
          record {
            value = v;
            got = at ∙ e;
            accepted = subst (IsAccepted s) e (layered-IsAccepted d.accepted);
            precedence = e;
          }
        where
          found_of : (o : Option SettingValue) → not (is_some o) ≡ false → is_some o ≡ true
          found_of o h = ground (arith, h)

          or_else-is_some :
              (o o' : Option SettingValue) → is_some o' ≡ true → is_some (or_else o o') ≡ true
          or_else-is_some none o' h = h
          or_else-is_some (some v) o' h = refl

          or_else-none : (o : Option SettingValue) → or_else o none ≡ o
          or_else-none none = refl
          or_else-none (some v) = refl

          the_value :
              (o : Option SettingValue) → is_some o ≡ true → (v : SettingValue) × (o ≡ some v)
          the_value none h = cc
          the_value (some v) h = (v, refl)

          there :
              lookup s.id config ≡ layered owner_file command s
              → is_some (layered owner_file command s) ≡ true
          there at = elim (Bool-cases (is_required s.mode)) [
            | inl e ↦
                subst (λ o. is_some o ≡ true) at (found_of (lookup s.id config) (rw e at present))
            | inr e ↦
                let supplied : is_some (default_of s) ≡ true =
                  d.present ∙ ground (arith, mode, e) in
                or_else-is_some (entry_for s.id command.entries) _
                  (or_else-is_some (entry_for s.id owner_file.entries) (default_of s) supplied)
          ]

  All-IsResolved :
      (config : ResolvedBackendConfig) (l : Loaded settings owner_file command config)
      → (rest : List GeneratedSettingSpec)
      → All (λ s. lookup s.id (collect settings []) ≡ some s) rest
      → All (HasDefault [] l.defaults) rest
      → All (λ s. is_required s.mode ≡ not (is_some s.default_text)) rest
      → any (is_missing config) rest ≡ false
      → All (IsResolved owner_file command config) rest
  All-IsResolved config l [] k d m p = tt
  All-IsResolved config l (s ∷ rest) (k, ks) (d, ds) (m, ms) p =
      elim (Bool-cases (is_missing config s)) [
        | inl e ↦ cc (rw e at p)
        | inr e ↦ (
          setting-IsResolved config l s k d m e,
          All-IsResolved config l rest ks ds ms (rw e at p),
        )
      ]

  -- A configuration that loads has a value for each setting of the registry, which the setting's own
  -- specification accepts: the command's entry, else the owner file's, else the default.
  pub load-IsResolved :
      (config : ResolvedBackendConfig)
      → load settings owner_file command ≡ ok config
      → All (IsResolved owner_file command config) settings
  load-IsResolved config h =
      let l = load-Loaded settings owner_file command config h in
      let distinct = check_specs-IsDistinct settings [] l.projection in
      All-IsResolved config l settings (collect-IsDistinct settings [] distinct)
        (insert_defaults_lem settings [] distinct l.defaulted)
        (check_specs-modes settings [] l.projection) l.complete
