-- ===== src/Templates/Built.antt =====
-- What is asked of a curated template and of the receiver it builds for any parameters (`build`
-- of the templates of crates/collector/src/editor/templates.rs).
pub mod Devices
pub mod Formats
pub mod Servers
pub mod Registered
use securitygingercia.Prelude.{split, Bool, true, false, some, none, List, ◌≡◌, all, find}
use securitygingercia.Json.{Value, Map, insert, get_key, array_of}
use securitygingercia.Json.Maps.{get-insert_self}
use securitygingercia.Schema.Types.{types_for, is_named, operator_type, component_type}
use securitygingercia.Schema.Spec.{receiver, ComponentTypeSpec}
use securitygingercia.Templates.Spec.{SourceTemplate, text_or}

-- The type of an operator is registered.
abbrev pub is_known : Value → Bool
is_known op = elim (operator_type (text_or "" (get_key "type" op))) [
  | none ↦ false
  | some spec ↦ true
]

-- A receiver whose operators are a list of registered types.
abbrev pub HasKnownOperators : Value → Type 0
HasKnownOperators v =
    (ops : List Value) × (get_key "operators" v ≡ some (array_of ops)) × (all is_known ops ≡ true)

pub built :
    (ops : List Value) (m : Map)
    → all is_known ops ≡ true
    → HasKnownOperators (Value.object (insert "operators" (array_of ops) m))
unfolding get_key
built ops m h = (ops, get-insert_self "operators" (array_of ops) m, h)

-- The type of the receiver is registered, and the suggested id is of that type.
abbrev pub IsOfType : SourceTemplate → Type 0
IsOfType t =
    ((spec : ComponentTypeSpec) × (find (is_named t.receiver_type) (types_for receiver)
        ≡ some spec))
    × (component_type t.default_id ≡ t.receiver_type)
