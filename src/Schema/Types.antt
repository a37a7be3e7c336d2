-- ===== src/Schema/Types.antt =====
-- Looking a type up in the registry, and the value that a new component starts with:
-- the functions of crates/collector/src/editor/schema_registry.rs.
use securitygingercia.Prelude.{
  String, Bool, false, Option, none, some, List, [], ◌∷◌, ◌==◌, split, find, if◌then◌else◌,
}
use securitygingercia.Json.{Value, Map, end, array_of}
use securitygingercia.Schema.Spec.{
  ComponentCategory, receiver, exporter, extension, FieldKind, FieldSpec, ComponentTypeSpec,
}
use securitygingercia.Schema.Receivers.{receiver_types}
use securitygingercia.Schema.Exporters.{exporter_types}
use securitygingercia.Schema.Extensions.{extension_types}
use securitygingercia.Schema.Operators.{operator_types as registered_operators}
use securitygingercia.Schema.Path.{set_path}

unfoldable pub types_for : ComponentCategory → List ComponentTypeSpec
types_for receiver = receiver_types
types_for exporter = exporter_types
types_for extension = extension_types

unfoldable pub operator_types : List ComponentTypeSpec
operator_types = registered_operators

-- `|s| s.type_name == type_name`
abbrev pub is_named : String → ComponentTypeSpec → Bool
is_named type_name s = s.type_name == type_name

unfoldable pub operator_type : String → Option ComponentTypeSpec
unfolding operator_types
operator_type type_name = find (is_named type_name) operator_types

abbrev pub first_or : String → List String → String
first_or fallback [] = fallback
first_or fallback (s ∷ ss) = s

-- The value of one field of `minimal_value`: its `match`.
unfoldable pub minimal_field : FieldKind → Option String → Value
minimal_field kind (some d) = Value.string d
minimal_field FieldKind.string_list none = array_of (Value.string "placeholder" ∷ [])
minimal_field FieldKind.bool none = Value.bool false
minimal_field FieldKind.operator_list none = array_of []
minimal_field (FieldKind.enum options) none = Value.string (first_or "" options)
minimal_field FieldKind.str none = Value.string "placeholder"
minimal_field FieldKind.duration none = Value.string "placeholder"

-- The loop of `minimal_value`.
unfoldable pub minimal_from : Map → List FieldSpec → Map
unfolding minimal_field
minimal_from m [] = m
minimal_from m (field ∷ fields) =
    minimal_from
      (if field.required then set_path m field.key (minimal_field field.kind field.default) else m)
      fields

unfoldable pub minimal_value : ComponentTypeSpec → Value
unfolding minimal_from
minimal_value spec = Value.object (minimal_from end spec.fields)

-- `id.split('/').next().unwrap_or(id)`
unfoldable pub component_type : String → String
component_type id = first_or id (split b'/' id)
