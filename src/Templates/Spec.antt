-- ===== src/Templates/Spec.antt =====
-- What the curated templates are made of: the types and the helpers of
-- crates/collector/src/editor/templates.rs.
use securitygingercia.Prelude.{
  String, Bool, true, Option, none, some, List, [], ◌∷◌, ◌==◌, if◌then◌else◌,
}
use securitygingercia.Json.{Value, Map, end, insert, as_str}
use securitygingercia.Schema.Spec.{FieldKind, FieldSpec}
use securitygingercia.Schema.Path.{get_path, set_path}

pub data TemplateCategory : Type 0 where
  network_security generic windows database messaging : TemplateCategory

unfoldable pub label : TemplateCategory → String
label TemplateCategory.network_security = "Network & security devices"
label TemplateCategory.database = "Databases"
label TemplateCategory.messaging = "Messaging & big data"
label TemplateCategory.generic = "Generic"
label TemplateCategory.windows = "Windows / Active Directory"

pub record SourceTemplate : Type 0 where
  pub key : String
  pub title : String
  pub category : TemplateCategory
  pub description : String
  pub receiver_type : String
  pub default_id : String
  pub params : List FieldSpec
  pub build : Value → Value

abbrev pub param : String → FieldKind → Bool → Option String → String → FieldSpec
param key kind required default help = record {
  key = key;
  kind = kind;
  required = required;
  default = default;
  help = help;
}

abbrev pub text_or : String → Option Value → String
text_or fallback none = fallback
text_or fallback (some v) = elim (as_str v) [ none ↦ fallback | some s ↦ s ]

unfoldable pub param_str : Value → String → String → String
param_str params key fallback = text_or fallback (get_path params key)

-- `.cloned().unwrap_or_else(|| …)`
abbrev pub value_or : Option Value → Value → Value
value_or none d = d
value_or (some v) d = v

unfoldable pub set_transport : Map → Value → String → Map
unfolding param_str
set_transport map params default_addr =
    let addr = param_str params "listen_address" default_addr in
    if param_str params "transport" "udp" == "tcp"
    then set_path (set_path map "tcp.listen_address" (Value.string addr)) "enable_octet_counting"
        (Value.bool true)
    else set_path map "udp.listen_address" (Value.string addr)

-- `json!({…})`
abbrev pub fields_of : Map → List (String × Value) → Map
fields_of m [] = m
fields_of m ((k, v) ∷ fields) = fields_of (insert k v m) fields

abbrev pub object_of : List (String × Value) → Value
object_of fields = Value.object (fields_of end fields)

unfoldable pub add_op : String → String → Value
add_op field value = object_of (
    ("type", Value.string "add")
    ∷ ("field", Value.string field)
    ∷ ("value", Value.string value)
    ∷ [])

unfoldable pub move_op : String → String → Value
move_op from to =
    object_of
      (("type", Value.string "move") ∷ ("from", Value.string from) ∷ ("to", Value.string to) ∷ [])

abbrev pub transport_enum : FieldKind
transport_enum = FieldKind.enum ("udp" ∷ "tcp" ∷ [])
