-- ===== src/Schema/Path.antt =====
-- Dotted paths into a value: `get_path` and `set_path` of
-- crates/collector/src/editor/schema_registry.rs.
-- `set_path` recurs on the rest behind the first dot: here on fuel, one more than the path's
-- characters, which is enough, since each rest is shorter (`PathLaws`).
use Prim.Native.String.{count}
use securitygingercia.Prelude.{
  ℕ, zero, suc, String, Option, none, some, List, [], ◌∷◌, split, split_once,
}
use securitygingercia.Json.{Value, Map, end, get, insert, get_key, as_object}

-- The loop of `get_path`.
unfoldable pub get_parts : List String → Value → Option Value
get_parts [] current = some current
get_parts (part ∷ parts) current = elim (get_key part current) [
  | none ↦ none
  | some next ↦ get_parts parts next
]

unfoldable pub get_path : Value → String → Option Value
unfolding get_parts
get_path value path = get_parts (split b'.' path) value

-- The object at a key, or the empty one that `set_path` puts there.
abbrev pub object_or_empty : Option Value → Map
object_or_empty none = end
object_or_empty (some v) = elim (as_object v) [ none ↦ end | some m ↦ m ]

unfoldable pub set_path_fuel : ℕ → Map → String → Value → Map
set_path_fuel zero m path value = m
set_path_fuel (suc fuel) m path value = elim (split_once b'.' path) [
  | none ↦ insert path value m
  | some (first, rest) ↦
      insert first (Value.object (set_path_fuel fuel (object_or_empty (get first m)) rest value)) m
]

unfoldable pub set_path : Map → String → Value → Map
unfolding set_path_fuel
set_path m path value = set_path_fuel (suc (count path)) m path value
