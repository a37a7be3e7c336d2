-- ===== src/Doc.antt =====
-- The editor's document: `EditorDoc` of crates/collector/src/editor/model.rs, but for its files
-- (`Save`). The reader of YAML is a parameter of `parse`.
pub mod Strip
pub mod References
pub mod RoundTrip
pub mod Placeholder
pub mod Save
pub mod Validation
pub mod Saving
use securitygingercia.Prelude.{
  String, Bool, true, false, Option, none, some, List, [], ◌∷◌, ◌==◌, contains, sort, any, keep,
  if◌then◌else◌, not,
}
use securitygingercia.Json.{
  Value, Values, Map, nil, cons, end, entry, get, insert, keys, get_key, as_object, as_array,
  is_text, items, values, array_of, strings_of, is_some,
}
use securitygingercia.Schema.Spec.{ComponentCategory, receiver, exporter, extension}

pub record EditorDoc : Type 0 where
  pub receivers : Map
  pub exporters : Map
  pub extensions : Map
  pub pipelines : Map

abbrev pub new : EditorDoc
new = record { receivers = end; exporters = end; extensions = end; pipelines = end }

-- `.and_then(|v| v.as_object()).cloned().unwrap_or_default()`
abbrev pub object_or_default : Option Value → Map
object_or_default none = end
object_or_default (some v) = elim (as_object v) [ none ↦ end | some m ↦ m ]

abbrev pub and_get : String → Option Value → Option Value
and_get k none = none
and_get k (some v) = get_key k v

-- What `parse` makes of the YAML document.
unfoldable pub of_value : Value → EditorDoc
of_value doc = record {
  receivers = object_or_default (get "receivers" (object_or_default (some doc)));
  exporters = object_or_default (get "exporters" (object_or_default (some doc)));
  extensions = object_or_default (get "extensions" (object_or_default (some doc)));
  pipelines =
      object_or_default (and_get "pipelines" (get "service" (object_or_default (some doc))));
}

unfoldable pub to_value : EditorDoc → Value
to_value doc = Value.object (
    entry "receivers" (Value.object doc.receivers) (
      entry "exporters" (Value.object doc.exporters) (
        entry "extensions" (Value.object doc.extensions) (
          entry "service"
            (Value.object (
              entry "extensions" (array_of (strings_of (sort (keys doc.extensions))))
                (entry "pipelines" (Value.object doc.pipelines) end)))
            end))))

unfoldable pub category_key : ComponentCategory → Option String
category_key receiver = some "receivers"
category_key exporter = some "exporters"
category_key extension = none

-- Does a pipeline's definition list the id under the key?
unfoldable pub lists : String → String → Value → Bool
lists key id def = elim (get_key key def) [
  | none ↦ false
  | some v ↦ elim (as_array v) [ none ↦ false | some arr ↦ any (is_text id) (items arr) ]
]

-- `.iter().filter(…).map(|(name, _)| name.clone())`
unfoldable pub names_where : (Value → Bool) → Map → List String
names_where p end = []
names_where p (entry name def m) = let rest = names_where p m in if p def then name ∷ rest else rest

unfoldable pub pipelines_referencing : ComponentCategory → String → EditorDoc → List String
unfolding lists names_where category_key
pipelines_referencing category id doc = elim (category_key category) [
  | none ↦ []
  | some key ↦ sort (names_where (lists key id) doc.pipelines)
]

-- A write through `get_mut(key)`, at a key that is there.
unfoldable pub put_key : String → Value → Value → Value
put_key k v (Value.object m) = Value.object (insert k v m)
put_key k v other = other

-- `arr.retain(|v| v.as_str() != Some(id))`, where the definition has an array at the key
unfoldable pub strip_def : String → String → Value → Value
unfolding put_key
strip_def key id def = elim (get_key key def) [
  | none ↦ def
  | some v ↦ elim (as_array v) [
    | none ↦ def
    | some arr ↦ put_key key (array_of (keep (λ item. not (is_text id item)) (items arr))) def
  ]
]

-- `for def in map.values_mut()`
unfoldable pub map_values : (Value → Value) → Map → Map
map_values f end = end
map_values f (entry k v m) = entry k (f v) (map_values f m)

unfoldable pub strip_from_pipelines : ComponentCategory → String → EditorDoc → EditorDoc
unfolding strip_def map_values category_key
strip_from_pipelines category id doc = elim (category_key category) [
  | none ↦ doc
  | some key ↦ record doc { pipelines = map_values (strip_def key id) doc.pipelines }
]

unfoldable mutual
  unfolding contains

  pub placeholder_for_validation : Value → Value
  placeholder_for_validation (Value.string s) =
      if contains s "${" then Value.string "placeholder-value" else Value.string s
  placeholder_for_validation (Value.object m) = Value.object (placeholder_map m)
  placeholder_for_validation (Value.array vs) = Value.array (placeholder_values vs)
  placeholder_for_validation other = other

  pub placeholder_values : Values → Values
  placeholder_values nil = nil
  placeholder_values (cons v vs) = cons (placeholder_for_validation v) (placeholder_values vs)

  pub placeholder_map : Map → Map
  placeholder_map end = end
  placeholder_map (entry k v m) = entry k (placeholder_for_validation v) (placeholder_map m)
