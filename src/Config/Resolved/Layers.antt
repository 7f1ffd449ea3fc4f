-- ===== src/Config/Resolved/Layers.antt =====
-- A layer that applies has one entry at most for an id, which its specification accepts, and replaces
-- the values below it by its own.
use veyora.Prelude.{
  ◌≡◌, refl, sym, ap, ◌∙◌, Bytes, bytes_eq, bytes_eq_iff, Bool, Bool-cases, true, false, not, ◌&&◌,
  Option, Option-cases, none, some, inl, inr, List, [], ◌∷◌, ok, >>=-eq-ok, if◌then◌else◌,
}
use mathlib.Core.Path.{subst}
use veyora.Config.Map.{BTreeMap, lookup, insert, lookup-insert}
use veyora.Config.Value.{SettingValue, GeneratedSettingSpec, validate}
use veyora.Config.Resolved.{SettingEntry, contains, is_secret, apply_entries}
use veyora.Config.Resolved.Registry.{or_else, ok_same}

-- The value that a layer gives to an id.
abbrev pub entry_for : Bytes → List SettingEntry → Option SettingValue
entry_for id [] = none
entry_for id (e ∷ rest) = if bytes_eq e.id id then some e.value else entry_for id rest

pub some_same : (v w : SettingValue) → ◌≡◌ {A = Option SettingValue} (some v) (some w) → v ≡ w
some_same v w h = cc

module _ (known : BTreeMap GeneratedSettingSpec) (permits : Bool) where
  -- What the layer has checked of an entry before it takes the rest.
  record Applied (e : SettingEntry) (rest : List SettingEntry) (seen : List Bytes)
      (values out : BTreeMap SettingValue) : Type 0 where
    pub fresh : contains e.id seen ≡ false
    pub spec : GeneratedSettingSpec
    pub found : lookup e.id known ≡ some spec
    pub sourced : (is_secret e.value && not permits) ≡ false
    pub valid : validate spec e.value ≡ ok tt
    pub applied :
        apply_entries known permits rest (e.id ∷ seen) (insert e.id e.value values) ≡ ok out

  apply_entries-cons :
      (e : SettingEntry) (rest : List SettingEntry) (seen : List Bytes)
      (values out : BTreeMap SettingValue)
      → apply_entries known permits (e ∷ rest) seen values ≡ ok out
      → Applied e rest seen values out
  unfolding apply_entries
  apply_entries-cons e rest seen values out h = elim (Bool-cases (contains e.id seen)) [
    | inl dup ↦ cc (rw dup at h)
    | inr fresh ↦ elim (Option-cases (lookup e.id known)) [
      | inl unknown ↦ cc (rw (fresh, unknown) at h)
      | inr (s, found) ↦ elim (Bool-cases (is_secret e.value && not permits)) [
        | inl bad ↦ cc (rw (fresh, found, bad) at h)
        | inr sourced ↦
            let (u, valid, applied) =
              >>=-eq-ok (validate s e.value) _ (rw (fresh, found, sourced) at h) in
            record {
              fresh = fresh;
              spec = s;
              found = found;
              sourced = sourced;
              valid = valid;
              applied = applied;
            }
      ]
    ]
  ]

  -- An id that has been seen has no entry left.
  entry_for_seen :
      (id : Bytes) (entries : List SettingEntry) (seen : List Bytes)
      (values : BTreeMap SettingValue) {out : BTreeMap SettingValue}
      → contains id seen ≡ true
      → apply_entries known permits entries seen values ≡ ok out
      → entry_for id entries ≡ none
  entry_for_seen id [] seen values c h = refl
  entry_for_seen id (e ∷ rest) seen values {out} c h =
      let a = apply_entries-cons e rest seen values out h in
      elim (Bool-cases (bytes_eq e.id id)) [
        | inl same ↦
            let clash : contains id seen ≡ false =
              rw (sym ((bytes_eq_iff e.id id).0 same)) a.fresh in
            cc
        | inr other ↦
            let c' : contains id (e.id ∷ seen) ≡ true = rw other c in
            rw other
              (entry_for_seen id rest (e.id ∷ seen) (insert e.id e.value values) c' a.applied)
      ]

  pub lookup-apply_entries :
      (id : Bytes) (entries : List SettingEntry) (seen : List Bytes)
      (values : BTreeMap SettingValue) {out : BTreeMap SettingValue}
      → apply_entries known permits entries seen values ≡ ok out
      → lookup id out ≡ or_else (entry_for id entries) (lookup id values)
  unfolding apply_entries
  lookup-apply_entries id [] seen values h = ap (lookup id) (sym (ok_same values _ h))
  lookup-apply_entries id (e ∷ rest) seen values {out} h =
      let a = apply_entries-cons e rest seen values out h in
      let values' = insert e.id e.value values in
      lookup-apply_entries id rest (e.id ∷ seen) values' a.applied
      ∙ (elim (Bool-cases (bytes_eq e.id id)) [
        | inl same ↦
            let seen' : contains id (e.id ∷ seen) ≡ true = rw same refl in
            let last = entry_for_seen id rest (e.id ∷ seen) values' seen' a.applied in
            rw (last, same, lookup-insert e.id id e.value values, same) refl
        | inr other ↦ rw (other, lookup-insert e.id id e.value values, other) refl
      ])

  -- The entry of an id has passed every check of the layer.
  pub record IsChecked (id : Bytes) (v : SettingValue) : Type 0 where
    pub spec : GeneratedSettingSpec
    pub found : lookup id known ≡ some spec
    pub valid : validate spec v ≡ ok tt
    pub sourced : (is_secret v && not permits) ≡ false

  pub apply_entries-IsChecked :
      (id : Bytes) (v : SettingValue) (entries : List SettingEntry) (seen : List Bytes)
      (values : BTreeMap SettingValue) {out : BTreeMap SettingValue}
      → apply_entries known permits entries seen values ≡ ok out
      → entry_for id entries ≡ some v
      → IsChecked id v
  apply_entries-IsChecked id v [] seen values h e = cc
  apply_entries-IsChecked id v (e ∷ rest) seen values {out} h f =
      let a = apply_entries-cons e rest seen values out h in
      elim (Bool-cases (bytes_eq e.id id)) [
        | inl same ↦
            let own : e.value ≡ v = some_same _ _ (rw same at f) in
            let at : e.id ≡ id = (bytes_eq_iff e.id id).0 same in
            record {
              spec = a.spec;
              found = subst (λ k. lookup k known ≡ some a.spec) at a.found;
              valid = subst (λ w. validate a.spec w ≡ ok tt) own a.valid;
              sourced = subst (λ w. (is_secret w && not permits) ≡ false) own a.sourced;
            }
        | inr other ↦
            apply_entries-IsChecked id v rest (e.id ∷ seen) (insert e.id e.value values) a.applied
              (rw other at f)
      ]
