-- ===== src/Doc/RoundTrip.antt =====
-- Writing a document and reading it back: `to_value` and `parse` of
-- crates/collector/src/editor/model.rs.
use securitygingercia.Prelude.{
  String, none, some, List, [], ◌∷◌, arith, ◌≡◌, ◌≢◌, refl, any, has, sort, insert_sorted, ◌∙◌,
  eq_iff,
}
use securitygingercia.Json.{
  Value, get, get_key, keys, contains_key, items, as_array, is_text, strings_of,
}
use securitygingercia.Json.Maps.{has-keys}
use securitygingercia.Doc.{EditorDoc, of_value, to_value, and_get}
use securitygingercia.Doc.Strip.{items-values}

-- The document that is read from the value that is written is the document.
pub of_value-to_value : (doc : EditorDoc) → of_value (to_value doc) ≡ doc
unfolding of_value to_value get get_key
of_value-to_value doc = refl

-- The value that a save writes has no section but receivers, exporters, extensions and service.
pub to_value_sections :
    (doc : EditorDoc) (k : String)
    → k ≢ "receivers"
    → k ≢ "exporters"
    → k ≢ "extensions"
    → k ≢ "service"
    → get_key k (to_value doc) ≡ none
unfolding to_value get get_key
to_value_sections doc k a b c d =
    ground
      (arith, eq_iff "receivers" k, eq_iff "exporters" k, eq_iff "extensions" k, eq_iff "service" k)

has-insert_sorted :
    (id x : String) (xs : List String) → has id (insert_sorted x xs) ≡ has id (x ∷ xs)
unfolding insert_sorted
has-insert_sorted id x [] = refl
has-insert_sorted id x (y ∷ ys) = ground (arith, has-insert_sorted id x ys)

pub has-sort : (id : String) (xs : List String) → has id (sort xs) ≡ has id xs
unfolding sort
has-sort id [] = refl
has-sort id (x ∷ xs) = ground (arith, has-insert_sorted id x (sort xs), has-sort id xs)

any-strings_of : (id : String) (xs : List String) → any (is_text id) (strings_of xs) ≡ has id xs
unfolding is_text
any-strings_of id [] = refl
any-strings_of id (x ∷ xs) = ground (arith, any-strings_of id xs)

-- The list `service.extensions` of a value, as the collector would read it.
abbrev pub active_extensions : Value → List Value
active_extensions v = elim (and_get "extensions" (get_key "service" v)) [
  | none ↦ []
  | some list ↦ elim (as_array list) [ none ↦ [] | some arr ↦ items arr ]
]

-- Exactly the defined extensions are active in what a save writes.
pub to_value-activates :
    (doc : EditorDoc) (id : String)
    → any (is_text id) (active_extensions (to_value doc)) ≡ contains_key id doc.extensions
unfolding to_value get get_key
to_value-activates doc id = rw (items-values (strings_of (sort (keys doc.extensions)))) (
    any-strings_of id (sort (keys doc.extensions))
    ∙ has-sort id (keys doc.extensions)
    ∙ has-keys id doc.extensions)
