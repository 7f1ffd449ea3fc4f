-- ===== src/Config/Resolved/Registry.antt =====
-- The registry: its ids differ, so each is known by its own specification and has its own default.
use veyora.Prelude.{
  ◌≡◌, inl, inr, refl, ◌∙◌, Bytes, bytes_eq, bytes_eq_iff, bytes_eq_refl, not, ap, sym, Bool-cases,
  true, false, Option, none, some, List, [], ◌∷◌, Result, ok, err, ◌>>=◌, >>=-eq-ok, if◌then◌else◌,
  All, arith,
}
use mathlib.Core.Path.{subst}
use veyora.Config.Map.{BTreeMap, lookup, insert, lookup-insert}
use veyora.Config.Value.{
  SettingValue, GeneratedDefault, read_default, GeneratedSettingSpec, ConfigErrorCode, validate,
  default_value,
}
use veyora.Config.Resolved.{
  contains, bad_spec, check_specs, collect, with_default, insert_defaults, is_required, is_some,
}

pub ok_same : {A : Type 0} (x y : A) → ◌≡◌ {A = Result ConfigErrorCode A} (ok x) (ok y) → x ≡ y
ok_same x y h = cc

-- No specification of the list has the id.
abbrev pub IsFresh : Bytes → List GeneratedSettingSpec → Type 0
IsFresh id = All (λ s. bytes_eq s.id id ≡ false)

abbrev pub IsDistinct : List GeneratedSettingSpec → Type 0
IsDistinct [] = Unit {0}
IsDistinct (s ∷ rest) = IsFresh s.id rest × IsDistinct rest

check_specs-cons :
    (s : GeneratedSettingSpec) (rest : List GeneratedSettingSpec) (ids : List Bytes)
    → check_specs (s ∷ rest) ids ≡ ok tt
    → (bad_spec s ids ≡ false) × (check_specs rest (s.id ∷ ids) ≡ ok tt)
unfolding check_specs
check_specs-cons s rest ids h = elim (Bool-cases (bad_spec s ids)) [
  | inl e ↦ cc (rw e at h)
  | inr e ↦ (e, rw e at h)
]

bad_spec-contains :
    (s : GeneratedSettingSpec) (ids : List Bytes)
    → bad_spec s ids ≡ false
    → (contains s.id ids ≡ false) × (is_required s.mode ≡ not (is_some s.default_text))
bad_spec-contains s ids h = ground (arith, h)

check_specs-IsFresh :
    (id : Bytes) (settings : List GeneratedSettingSpec) (ids : List Bytes)
    → contains id ids ≡ true
    → check_specs settings ids ≡ ok tt
    → IsFresh id settings
check_specs-IsFresh id [] ids h c = tt
check_specs-IsFresh id (s ∷ rest) ids h c =
    let (good, more) = check_specs-cons s rest ids c in
    let fresh = (bad_spec-contains s ids good).0 in
    (
      elim (Bool-cases (bytes_eq s.id id)) [
        | inl e ↦
            let clash : contains id ids ≡ false = rw (sym ((bytes_eq_iff s.id id).0 e)) fresh in cc
        | inr e ↦ e
      ],
      check_specs-IsFresh id rest (s.id ∷ ids) (ground (arith, h)) more,
    )

pub check_specs-IsDistinct :
    (settings : List GeneratedSettingSpec) (ids : List Bytes)
    → check_specs settings ids ≡ ok tt
    → IsDistinct settings
check_specs-IsDistinct [] ids c = tt
check_specs-IsDistinct (s ∷ rest) ids c =
    let more = (check_specs-cons s rest ids c).1 in
    (
      check_specs-IsFresh s.id rest (s.id ∷ ids) (rw (bytes_eq_refl s.id)) more,
      check_specs-IsDistinct rest (s.id ∷ ids) more,
    )

-- A setting is required if and only if the registry has no default for it.
pub check_specs-modes :
    (settings : List GeneratedSettingSpec) (ids : List Bytes)
    → check_specs settings ids ≡ ok tt
    → All (λ s. is_required s.mode ≡ not (is_some s.default_text)) settings
check_specs-modes [] ids c = tt
check_specs-modes (s ∷ rest) ids c =
    let (good, more) = check_specs-cons s rest ids c in
    ((bad_spec-contains s ids good).1, check_specs-modes rest (s.id ∷ ids) more)

lookup-collect :
    (id : Bytes) (settings : List GeneratedSettingSpec) (known : BTreeMap GeneratedSettingSpec)
    → IsFresh id settings
    → lookup id (collect settings known) ≡ lookup id known
unfolding collect
lookup-collect id [] known h = refl
lookup-collect id (s ∷ rest) known (h, hs) =
    lookup-collect id rest (insert s.id s known) hs ∙ rw (lookup-insert s.id id s known, h) refl

-- Each specification is the one that is known by its id.
pub collect-IsDistinct :
    (settings : List GeneratedSettingSpec) (known : BTreeMap GeneratedSettingSpec)
    → IsDistinct settings
    → All (λ s. lookup s.id (collect settings known) ≡ some s) settings
unfolding collect
collect-IsDistinct [] known h = tt
collect-IsDistinct (s ∷ rest) known (h, hs) = (
  lookup-collect s.id rest (insert s.id s known) h
      ∙ rw (lookup-insert s.id s.id s known, bytes_eq_refl s.id) refl,
  collect-IsDistinct rest (insert s.id s known) hs,
)

abbrev pub or_else {ℓ} : {A : Type ℓ} → Option A → Option A → Option A
or_else none o = o
or_else (some a) o = some a

abbrev pub IsAccepted : GeneratedSettingSpec → Option SettingValue → Type 0
IsAccepted s none = Unit {0}
IsAccepted s (some v) = validate s v ≡ ok tt

-- The default of a specification, if it has a valid one.
pub default_of : GeneratedSettingSpec → Option SettingValue
default_of s = elim (default_value s) [ ok d ↦ d | err e ↦ none ]

default_of_lem :
    (s : GeneratedSettingSpec) (d : Option SettingValue) → default_value s ≡ ok d → d ≡ default_of s
unfolding default_of
default_of_lem s d h = rw (h, default_of) refl

lookup-with_default :
    (id j : Bytes) (d : Option SettingValue) (values : BTreeMap SettingValue)
    → lookup j (with_default id d values)
      ≡ (if bytes_eq id j then or_else d (lookup j values) else lookup j values)
lookup-with_default id j none values = ground arith
lookup-with_default id j (some v) values = lookup-insert id j v values

lookup-insert_defaults :
    (id : Bytes) (settings : List GeneratedSettingSpec) (values : BTreeMap SettingValue)
    → IsFresh id settings
    → {out : BTreeMap SettingValue} → insert_defaults settings values ≡ ok out
    → lookup id out ≡ lookup id values
unfolding insert_defaults
lookup-insert_defaults id [] values h e = ap (lookup id) (sym (ok_same values _ e))
lookup-insert_defaults id (s ∷ rest) values (h, hs) e =
    let (d, hd, more) = >>=-eq-ok (default_value s) _ e in
    lookup-insert_defaults id rest (with_default s.id d values) hs more
    ∙ lookup-with_default s.id id d values
    ∙ rw h refl

-- A default that is read passes the check of its specification.
default_value_checked :
    (s : GeneratedSettingSpec) (d : Option SettingValue)
    → default_value s ≡ ok d
    → (is_some d ≡ is_some s.default_text) × IsAccepted s d
unfolding default_value
default_value_checked s d h = from s.default_text h
  where
    from :
        (o : Option GeneratedDefault)
        → ◌≡◌ {A = Result ConfigErrorCode (Option SettingValue)}
            (elim o [
              | none ↦ ok none
              | some r ↦ read_default s.kind r >>= λ v. validate s v >>= λ u. ok (some v)
            ])
            (ok d)
        → (is_some d ≡ is_some o) × IsAccepted s d
    from none e = rw (sym (ok_same none d e)) (refl, tt)
    from (some r) e =
        let (v, hv, e') = >>=-eq-ok (read_default s.kind r) _ e in
        let (u, hu, e'') = >>=-eq-ok (validate s v) _ e' in
        rw (sym (ok_same (some v) d e'')) (refl, hu)

-- What the defaults leave at the id of each specification.
pub record HasDefault (values out : BTreeMap SettingValue) (s : GeneratedSettingSpec) : Type 0 where
  pub found : lookup s.id out ≡ or_else (default_of s) (lookup s.id values)
  pub present : is_some (default_of s) ≡ is_some s.default_text
  pub accepted : IsAccepted s (default_of s)

bytes_eq_flip : (a b : Bytes) → bytes_eq a b ≡ false → bytes_eq b a ≡ false
bytes_eq_flip a b h = ground (arith, bytes_eq_iff a b, bytes_eq_iff b a)

HasDefault-earlier :
    (id : Bytes) (d : Option SettingValue) (values out : BTreeMap SettingValue)
    → (rest : List GeneratedSettingSpec) → IsFresh id rest
    → All (HasDefault (with_default id d values) out) rest
    → All (HasDefault values out) rest
HasDefault-earlier id d values out [] f h = tt
HasDefault-earlier id d values out (t ∷ rest) (f, fs) (h, hs) =
    let apart = bytes_eq_flip t.id id f in
    let same : lookup t.id (with_default id d values) ≡ lookup t.id values =
      lookup-with_default id t.id d values ∙ rw apart refl in
    (
      record { found = h.found ∙ rw same refl; present = h.present; accepted = h.accepted },
      HasDefault-earlier id d values out rest fs hs,
    )

pub insert_defaults_lem :
    (settings : List GeneratedSettingSpec) (values : BTreeMap SettingValue)
    → IsDistinct settings
    → {out : BTreeMap SettingValue} → insert_defaults settings values ≡ ok out
    → All (HasDefault values out) settings
unfolding insert_defaults
insert_defaults_lem [] values h e = tt
insert_defaults_lem (s ∷ rest) values (h, hs) {out} e =
    let (d, hd, more) = >>=-eq-ok (default_value s) _ e in
    let (present, accepted) = default_value_checked s d hd in
    let values' = with_default s.id d values in
    let own : d ≡ default_of s = default_of_lem s d hd in
    (
      record {
        found =
            lookup-insert_defaults s.id rest values' h more
            ∙ lookup-with_default s.id s.id d values
            ∙ rw (bytes_eq_refl s.id) (ap (λ o. or_else o (lookup s.id values)) own);
        present = subst (λ o. is_some o ≡ is_some s.default_text) own present;
        accepted = subst (IsAccepted s) own accepted;
      },
      HasDefault-earlier s.id d values out rest h (insert_defaults_lem rest values' hs more),
    )
