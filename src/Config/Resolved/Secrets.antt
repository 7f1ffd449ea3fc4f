-- ===== src/Config/Resolved/Secrets.antt =====
-- The secret references of a configuration that loads come from the owner's file alone.
use veyora.Prelude.{
  ◌≡◌, ◌≤◌, refl, sym, ◌∙◌, Bytes, codes, Bool, true, false, not, ◌&&◌, Option, none, some, inl,
  inr, List, [], ◌∷◌, Result, ok, ◌>>=◌, >>=-eq-ok, bytes_eq, Bool-cases, length, arith,
}
use mathlib.Core.Path.{subst}
use veyora.Config.Map.{BTreeMap, lookup, lookup-insert}
use veyora.Config.Value.{
  SettingKind, SettingValue, GeneratedDefault, GeneratedSettingSpec, ConfigErrorCode, split,
  read_default, validate, validate_secret_reference, valid_secret_reference, default_value,
}
use veyora.Config.Value.Paths.{resolve, valid_secret_reference_within}
use veyora.Config.Resolved.{
  ConfigLayer, ResolvedBackendConfig, is_secret, with_default, insert_defaults, collect, load, get,
}
use veyora.Config.Resolved.Registry.{ok_same, or_else}
use veyora.Config.Resolved.Layers.{entry_for, some_same, apply_entries-IsChecked}
use veyora.Config.Resolved.Stages.{load-Loaded}
use veyora.Config.Resolved.Load.{lookup-config}

-- No value of the map is a secret reference.
abbrev IsPlain : BTreeMap SettingValue → Type 0
IsPlain values = (id : Bytes) (v : SettingValue) → lookup id values ≡ some v → is_secret v ≡ false

read_default_plain :
    (k : SettingKind) (d : GeneratedDefault) (v : SettingValue)
    → read_default k d ≡ ok v
    → is_secret v ≡ false
read_default_plain k d v h = ground (arith, h)

default_value_plain :
    (s : GeneratedSettingSpec) (v : SettingValue)
    → default_value s ≡ ok (some v)
    → is_secret v ≡ false
unfolding default_value
default_value_plain s v h = from s.default_text h
  where
    from :
        (o : Option GeneratedDefault)
        → ◌≡◌ {A = Result ConfigErrorCode (Option SettingValue)}
            (elim o [
              | none ↦ ok none
              | some r ↦ read_default s.kind r >>= λ w. validate s w >>= λ u. ok (some w)
            ])
            (ok (some v))
        → is_secret v ≡ false
    from none e = cc
    from (some r) e =
        let (w, hw, e') = >>=-eq-ok (read_default s.kind r) _ e in
        let (u, hu, e'') = >>=-eq-ok (validate s w) _ e' in
        let same : w ≡ v = some_same w v (ok_same (some w) (some v) e'') in
        subst (λ x. is_secret x ≡ false) same (read_default_plain s.kind r w hw)

with_default-IsPlain :
    (s : GeneratedSettingSpec) (d : Option SettingValue) (values : BTreeMap SettingValue)
    → default_value s ≡ ok d
    → IsPlain values
    → IsPlain (with_default s.id d values)
with_default-IsPlain s none values h p = p
with_default-IsPlain s (some w) values h p = λ id v found. elim (Bool-cases (bytes_eq s.id id)) [
  | inl e ↦
      let same : w ≡ v = some_same w v (rw e at (sym (lookup-insert s.id id w values) ∙ found)) in
      subst (λ x. is_secret x ≡ false) same (default_value_plain s w h)
  | inr e ↦ p id v (rw e at (sym (lookup-insert s.id id w values) ∙ found))
]

insert_defaults-IsPlain :
    (settings : List GeneratedSettingSpec) (values : BTreeMap SettingValue)
    {out : BTreeMap SettingValue}
    → insert_defaults settings values ≡ ok out
    → IsPlain values
    → IsPlain out
unfolding insert_defaults
insert_defaults-IsPlain [] values h p = subst IsPlain (ok_same values _ h) p
insert_defaults-IsPlain (s ∷ rest) values h p =
    let (d, hd, more) = >>=-eq-ok (default_value s) _ h in
    insert_defaults-IsPlain rest (with_default s.id d values) more
      (with_default-IsPlain s d values hd p)

validate-secret_reference :
    (s : GeneratedSettingSpec) (r : Bytes)
    → validate s (SettingValue.secret_reference r) ≡ ok tt
    → valid_secret_reference r ≡ true
unfolding validate validate_secret_reference
validate-secret_reference s r h = ground (arith, h)

layered_secret :
    (c o d : Option SettingValue) (r : Bytes)
    → ((v : SettingValue) → c ≡ some v → is_secret v ≡ false)
    → ((v : SettingValue) → d ≡ some v → is_secret v ≡ false)
    → or_else c (or_else o d) ≡ some (SettingValue.secret_reference r)
    → (o ≡ some (SettingValue.secret_reference r)) × (c ≡ none)
layered_secret (some v) o d r hc hd e =
    let same : v ≡ SettingValue.secret_reference r = some_same _ _ e in
    let plain = hc v refl in cc (subst (λ x. is_secret x ≡ false) same plain)
layered_secret none (some v) d r hc hd e = (e, refl)
layered_secret none none d r hc hd e = cc (hd (SettingValue.secret_reference r) e)

permitted : (b : Bool) → (b && not false) ≡ false → b ≡ false
permitted b h = ground (arith, h)

-- A secret reference in a configuration that loads is an entry of the owner's file, and the command
-- has none for its id. Its path resolves to a place below /run/secrets.
pub load_secrets :
    (settings : List GeneratedSettingSpec) (owner_file command : ConfigLayer)
    (config : ResolvedBackendConfig) (id r : Bytes)
    → load settings owner_file command ≡ ok config
    → get id config ≡ some (SettingValue.secret_reference r)
    → (entry_for id owner_file.entries ≡ some (SettingValue.secret_reference r))
      × (entry_for id command.entries ≡ none)
      × (parts : List Bytes) × (resolve [] (split r) ≡ codes "run" ∷ codes "secrets" ∷ parts)
      × (1 ≤ length parts)
unfolding get lookup
load_secrets settings owner_file command config id r h e =
    let l = load-Loaded settings owner_file command config h in
    let known = collect settings [] in
    let (owned, no_command) =
      layered_secret (entry_for id command.entries) (entry_for id owner_file.entries)
        (lookup id l.defaults) r
        (λ v g.
          permitted (is_secret v)
            (apply_entries-IsChecked known false id v command.entries [] l.values l.commanded
              g).sourced)
        (insert_defaults-IsPlain settings [] l.defaulted (λ j w absent. cc) id)
        (sym (lookup-config settings owner_file command config l id) ∙ e) in
    let c =
      apply_entries-IsChecked known true id (SettingValue.secret_reference r) owner_file.entries []
        l.defaults l.owned owned in
    let (parts, at, some_part, short) =
      valid_secret_reference_within r (validate-secret_reference c.spec r c.valid) in
    (owned, no_command, parts, at, some_part)
