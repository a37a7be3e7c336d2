-- ===== src/Schema/Spec.antt =====
-- The field schema of the editor's forms: the types of
-- crates/collector/src/editor/schema_registry.rs. Help texts and descriptions are kept.
use securitygingercia.Prelude.{String, Bool, Option, List}

pub data ComponentCategory : Type 0 where
  receiver exporter extension : ComponentCategory

pub data FieldKind : Type 0 where
  str bool duration : FieldKind
  enum : List String → FieldKind
  string_list : FieldKind
  operator_list : FieldKind

pub record FieldSpec : Type 0 where
  pub key : String
  pub kind : FieldKind
  pub required : Bool
  pub default : Option String
  pub help : String

pub record ComponentTypeSpec : Type 0 where
  pub type_name : String
  pub description : String
  pub fields : List FieldSpec

abbrev pub f : String → FieldKind → Bool → Option String → String → FieldSpec
f key kind required default help = record {
  key = key;
  kind = kind;
  required = required;
  default = default;
  help = help;
}
