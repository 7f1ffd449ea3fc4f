-- ===== src/Config/Value.antt =====
-- packages/config/src/value.rs: a setting's value, its specification, and the check of the one
-- against the other. A ConfigError is its code.
pub mod Paths
use veyora.Prelude.{
  is_digit, ℕ, ◌-◌, ◌^◌, Bytes, codes, bytes_eq, Bool, true, false, not, ◌&&◌, ◌||◌, Option, none,
  some, List, [], ◌∷◌, Result, ok, err, ◌>>=◌, ltb, leb, ◌==◌, if◌then◌else◌, length, all, any,
}
use veyora.Config.Int.{ℤ, pos, negsuc, leb_ℤ}

pub data SettingKind : Type 0 where
  integer duration_seconds bytes string path string_list secret_reference : SettingKind

pub data SettingValue : Type 0 where
  integer : ℤ → SettingValue
  duration_seconds bytes : ℕ → SettingValue
  string path : Bytes → SettingValue
  string_list : List Bytes → SettingValue
  secret_reference : Bytes → SettingValue

abbrev pub kind_of : SettingValue → SettingKind
kind_of (SettingValue.integer v) = SettingKind.integer
kind_of (SettingValue.duration_seconds v) = SettingKind.duration_seconds
kind_of (SettingValue.bytes v) = SettingKind.bytes
kind_of (SettingValue.string v) = SettingKind.string
kind_of (SettingValue.path v) = SettingKind.path
kind_of (SettingValue.string_list v) = SettingKind.string_list
kind_of (SettingValue.secret_reference v) = SettingKind.secret_reference

pub data GeneratedValueMode : Type 0 where
  default required : GeneratedValueMode

pub data GeneratedDefault : Type 0 where
  number : ℤ → GeneratedDefault
  text : Bytes → GeneratedDefault

pub record GeneratedConstraints : Type 0 where
  pub minimum : Option ℤ
  pub maximum : Option ℤ
  pub minimum_length : Option ℕ
  pub maximum_length : Option ℕ
  pub minimum_items : Option ℕ
  pub maximum_items : Option ℕ
  pub pattern_text : Option Bytes
  pub allowed : List Bytes
  pub reference_type : Option Bytes

pub record GeneratedSettingSpec : Type 0 where
  pub id : Bytes
  pub owner : Bytes
  pub kind : SettingKind
  pub constraints : GeneratedConstraints
  pub mode : GeneratedValueMode
  pub default_text : Option GeneratedDefault

pub data ConfigErrorCode : Type 0 where
  unknown_setting duplicate_setting owner_mismatch version_mismatch type_mismatch : ConfigErrorCode
  out_of_bounds invalid_secret_reference secret_reference_source missing_required : ConfigErrorCode
  invalid_projection : ConfigErrorCode

-- The discriminant, by which the derived equality compares.
abbrev pub kind_index : SettingKind → ℕ
kind_index SettingKind.integer = 0
kind_index SettingKind.duration_seconds = 1
kind_index SettingKind.bytes = 2
kind_index SettingKind.string = 3
kind_index SettingKind.path = 4
kind_index SettingKind.string_list = 5
kind_index SettingKind.secret_reference = 6

abbrev pub is_some_and {ℓ} : {A : Type ℓ} → (A → Bool) → Option A → Bool
is_some_and p none = false
is_some_and p (some a) = p a

abbrev pub is_lowercase : ℕ → Bool
is_lowercase b = leb 97 b && leb b 122

abbrev pub is_alphanumeric : ℕ → Bool
is_alphanumeric b = is_lowercase b || (leb 65 b && leb b 90) || is_digit b

abbrev pub strip_prefix : Bytes → Bytes → Option Bytes
strip_prefix [] raw = some raw
strip_prefix (p ∷ prefix) [] = none
strip_prefix (p ∷ prefix) (c ∷ raw) =
    let rest = strip_prefix prefix raw in if p == c then rest else none

-- `split('/')` has one part more than there are slashes.
abbrev pub push_first : ℕ → List Bytes → List Bytes
push_first c [] = (c ∷ []) ∷ []
push_first c (part ∷ parts) = (c ∷ part) ∷ parts

abbrev pub split : Bytes → List Bytes
split [] = [] ∷ []
split (c ∷ raw) = let parts = split raw in if c == 47 then [] ∷ parts else push_first c parts

unfoldable pub valid_part : Bytes → Bool
valid_part part =
    not (bytes_eq part [])
    && not (bytes_eq part (codes "."))
    && not (bytes_eq part (codes ".."))
    && all (λ b. is_alphanumeric b || b == 46 || b == 95 || b == 45) part

unfoldable pub valid_mounted_path : Bytes → Bytes → Bool
valid_mounted_path raw prefix = elim (strip_prefix prefix raw) [
  | none ↦ false
  | some relative ↦ not (bytes_eq relative []) && all valid_part (split relative)
]

unfoldable pub valid_config_path : Bytes → Bool
valid_config_path raw = valid_mounted_path raw (codes "/run/config/")

unfoldable pub valid_secret_reference : Bytes → Bool
valid_secret_reference raw = valid_mounted_path raw (codes "/run/secrets/") && leb (length raw) 268

unfoldable pub is_name : Bytes → Bool
is_name [] = false
is_name (b ∷ rest) = is_lowercase b && all (λ c. is_lowercase c || is_digit c || c == 95) rest

unfoldable pub matches_pattern : Bytes → Bytes → Bool
matches_pattern pattern_text value =
    if bytes_eq pattern_text (codes "^/run/config/")
    then valid_config_path value
    else if bytes_eq pattern_text (codes "^[a-z][a-z0-9_]*$")
    then is_name value
    else false

abbrev pub Checked : Type 0
Checked = Result ConfigErrorCode (Unit {0})

-- `allowed == ["mounted-file"]`
abbrev pub only_mounted_file : List Bytes → Bool
only_mounted_file [] = false
only_mounted_file (a ∷ rest) = bytes_eq a (codes "mounted-file") && length rest == 0

-- `i64::try_from` of a u64
abbrev pub as_i64 : ℕ → Result ConfigErrorCode ℤ
as_i64 n = if ltb n (2 ^ 63) then ok (pos n) else err out_of_bounds

-- `u64::try_from` of an i64
abbrev pub as_u64 : ℤ → Result ConfigErrorCode ℕ
as_u64 (pos n) = ok n
as_u64 (negsuc n) = err invalid_projection

abbrev pub read_default : SettingKind → GeneratedDefault → Result ConfigErrorCode SettingValue
read_default SettingKind.integer (number v) = ok (SettingValue.integer v)
read_default SettingKind.duration_seconds (number v) =
    as_u64 v >>= λ n. ok (SettingValue.duration_seconds n)
read_default SettingKind.bytes (number v) = as_u64 v >>= λ n. ok (SettingValue.bytes n)
read_default SettingKind.string (text v) = ok (SettingValue.string v)
read_default SettingKind.path (text v) = ok (SettingValue.path v)
read_default k d = err invalid_projection

module _ (s : GeneratedSettingSpec) where
  unfoldable pub validate_number : ℤ → Checked
  validate_number value = elim s.constraints.minimum [
    | none ↦ err invalid_projection
    | some low ↦ elim s.constraints.maximum [
      | none ↦ err invalid_projection
      | some high ↦ if leb_ℤ low value && leb_ℤ value high then ok tt else err out_of_bounds
    ]
  ]

  unfoldable pub validate_text : Bytes → Checked
  validate_text value =
      if is_some_and (λ n. ltb (length value) n) s.constraints.minimum_length
        || is_some_and (λ n. ltb n (length value)) s.constraints.maximum_length
        || (not (length s.constraints.allowed == 0)
            && not (any (bytes_eq value) s.constraints.allowed))
        || is_some_and (λ p. not (matches_pattern p value)) s.constraints.pattern_text
      then err out_of_bounds
      else ok tt

  unfoldable pub validate_items : List Bytes → Checked
  validate_items value = elim s.constraints.minimum_items [
    | none ↦ err invalid_projection
    | some low ↦ elim s.constraints.maximum_items [
      | none ↦ err invalid_projection
      | some high ↦
          if leb low (length value) && leb (length value) high then ok tt else err out_of_bounds
    ]
  ]

  unfoldable pub validate_secret_reference : Bytes → Checked
  validate_secret_reference raw =
      if not (is_some_and (λ t. bytes_eq t (codes "mounted-file")) s.constraints.reference_type)
        || not (only_mounted_file s.constraints.allowed)
      then err invalid_projection
      else if valid_secret_reference raw
      then ok tt
      else err invalid_secret_reference

  abbrev pub validate_value : SettingValue → Checked
  validate_value (SettingValue.integer v) = validate_number v
  validate_value (SettingValue.duration_seconds v) = as_i64 v >>= validate_number
  validate_value (SettingValue.bytes v) = as_i64 v >>= validate_number
  validate_value (SettingValue.string v) = validate_text v
  validate_value (SettingValue.path v) = validate_text v
  validate_value (SettingValue.string_list v) = validate_items v
  validate_value (SettingValue.secret_reference v) = validate_secret_reference v

  unfoldable pub validate : SettingValue → Checked
  validate value =
      if not (kind_index (kind_of value) == kind_index s.kind)
      then err type_mismatch
      else validate_value value

  unfoldable pub default_value : Result ConfigErrorCode (Option SettingValue)
  default_value = elim s.default_text [
    | none ↦ ok none
    | some d ↦ read_default s.kind d >>= λ value. validate value >>= λ u. ok (some value)
  ]
