-- ===== src/Config/Resolved/Proper.antt =====
-- A specification that has the constraints of its kind never finds fault with itself.
use veyora.Prelude.{
  ◌≡◌, ◌≢◌, sym, ℕ, Bytes, codes, bytes_eq, Bool, Bool-cases, true, ◌&&◌, ◌==◌, inl, inr, List,
  Result, ok, err, ◌>>=◌, arith,
}
use mathlib.Core.Path.{subst}
use veyora.Config.Int.{ℤ}
use veyora.Config.Value.{
  SettingKind, SettingValue, GeneratedConstraints, GeneratedSettingSpec, ConfigErrorCode,
  invalid_projection, only_mounted_file, is_some_and, as_i64, kind_of, kind_index, validate_value,
  validate, validate_number, validate_text, validate_items, validate_secret_reference,
}
use veyora.Config.Resolved.{is_some}

abbrev pub IsProper {ℓ} : {A : Type ℓ} → Result ConfigErrorCode A → Type ℓ
IsProper r = r ≢ err invalid_projection

pub >>=-IsProper :
    {A B : Type 0} (r : Result ConfigErrorCode A) (f : A → Result ConfigErrorCode B)
    → IsProper r
    → ((a : A) → IsProper (f a))
    → IsProper (r >>= f)
>>=-IsProper (ok a) f hr hf = hf a
>>=-IsProper (err e) f hr hf = λ h. hr (cc)

-- The constraints that the check of the kind's values needs are there.
abbrev pub has_constraints : SettingKind → GeneratedConstraints → Bool
has_constraints SettingKind.integer c = is_some c.minimum && is_some c.maximum
has_constraints SettingKind.duration_seconds c = is_some c.minimum && is_some c.maximum
has_constraints SettingKind.bytes c = is_some c.minimum && is_some c.maximum
has_constraints SettingKind.string c = true
has_constraints SettingKind.path c = true
has_constraints SettingKind.string_list c = is_some c.minimum_items && is_some c.maximum_items
has_constraints SettingKind.secret_reference c =
    is_some_and (λ t. bytes_eq t (codes "mounted-file")) c.reference_type
    && only_mounted_file c.allowed

abbrev pub is_complete : GeneratedSettingSpec → Bool
is_complete s = has_constraints s.kind s.constraints

module _ (s : GeneratedSettingSpec) where
  validate_number-IsProper :
      (v : ℤ)
      → (is_some s.constraints.minimum && is_some s.constraints.maximum) ≡ true
      → IsProper (validate_number s v)
  unfolding validate_number
  validate_number-IsProper v h = ground (arith, h)

  validate_items-IsProper :
      (v : List Bytes)
      → (is_some s.constraints.minimum_items && is_some s.constraints.maximum_items) ≡ true
      → IsProper (validate_items s v)
  unfolding validate_items
  validate_items-IsProper v h = ground (arith, h)

  validate_text-IsProper : (v : Bytes) → IsProper (validate_text s v)
  unfolding validate_text
  validate_text-IsProper v = ground arith

  validate_secret_reference-IsProper :
      (v : Bytes)
      → has_constraints SettingKind.secret_reference s.constraints ≡ true
      → IsProper (validate_secret_reference s v)
  unfolding validate_secret_reference
  validate_secret_reference-IsProper v h = ground (arith, h)

  as_i64-IsProper : (n : ℕ) → IsProper (as_i64 n)
  as_i64-IsProper n = ground arith

  validate_value-IsProper :
      (v : SettingValue)
      → has_constraints (kind_of v) s.constraints ≡ true
      → IsProper (validate_value s v)
  validate_value-IsProper (SettingValue.integer v) h = validate_number-IsProper v h
  validate_value-IsProper (SettingValue.duration_seconds v) h =
      >>=-IsProper (as_i64 v) (validate_number s) (as_i64-IsProper v)
        (λ n. validate_number-IsProper n h)
  validate_value-IsProper (SettingValue.bytes v) h =
      >>=-IsProper (as_i64 v) (validate_number s) (as_i64-IsProper v)
        (λ n. validate_number-IsProper n h)
  validate_value-IsProper (SettingValue.string v) h = validate_text-IsProper v
  validate_value-IsProper (SettingValue.path v) h = validate_text-IsProper v
  validate_value-IsProper (SettingValue.string_list v) h = validate_items-IsProper v h
  validate_value-IsProper (SettingValue.secret_reference v) h =
      validate_secret_reference-IsProper v h

  same_kind : (k j : SettingKind) → (kind_index k == kind_index j) ≡ true → k ≡ j
  same_kind k j h = ground (arith, h)

  pub validate-IsProper : (v : SettingValue) → is_complete s ≡ true → IsProper (validate s v)
  unfolding validate
  validate-IsProper v h = elim (Bool-cases (kind_index (kind_of v) == kind_index s.kind)) [
    | inr e ↦ λ z. cc (rw e at z)
    | inl e ↦
        let at = same_kind (kind_of v) s.kind e in
        rw e (
          validate_value-IsProper v
            (subst (λ k. has_constraints k s.constraints ≡ true) (sym at) h))
  ]
