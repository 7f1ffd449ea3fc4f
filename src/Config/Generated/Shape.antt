-- ===== src/Config/Generated/Shape.antt =====
-- What the settings of generated.rs have in common.
use Prim.Native.String.{String}
use veyora.Prelude.{codes, Option, none, some, [], ◌∷◌}
use veyora.Config.Value.{
  SettingKind, GeneratedValueMode, GeneratedDefault, GeneratedConstraints, GeneratedSettingSpec,
}

-- Every constraint is `None` or empty; a setting names its own.
abbrev pub unconstrained : GeneratedConstraints
unconstrained = record {
  minimum = none;
  maximum = none;
  minimum_length = none;
  maximum_length = none;
  minimum_items = none;
  maximum_items = none;
  pattern_text = none;
  allowed = [];
  reference_type = none;
}

abbrev pub mounted_file : GeneratedConstraints
mounted_file = record unconstrained {
  allowed = codes "mounted-file" ∷ [];
  reference_type = some (codes "mounted-file");
}

-- The owner is the same in every setting.
abbrev pub setting :
    String
    → SettingKind
    → GeneratedConstraints
    → GeneratedValueMode
    → Option GeneratedDefault
    → GeneratedSettingSpec
setting id kind constraints mode d = record {
  id = codes id;
  owner = codes "backend";
  kind = kind;
  constraints = constraints;
  mode = mode;
  default_text = d;
}
