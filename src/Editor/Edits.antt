-- ===== src/Editor/Edits.antt =====
-- The changes that the editor makes to a document (crates/collector/src/editor/app.rs), as a step
-- relation, and the keys of the maps, which are distinct in a `serde_json::Map`.
use securitygingercia.Prelude.{Option, some, arith, none, String, [], ◌≡◌, refl, subst, sym}
use securitygingercia.Json.{entry, end, get, Value, Map, insert, remove}
use securitygingercia.Json.Maps.{IsUnique, insert-IsUnique, remove-IsUnique}
use securitygingercia.Schema.Spec.{ComponentCategory, receiver, exporter, extension}
use securitygingercia.Doc.{
  strip_def, category_key, map_values, EditorDoc, pipelines_referencing, strip_from_pipelines,
}
use securitygingercia.Editor.State.{map_for, with_map}

-- A component that the user is asked about, or that the user agrees to remove.
abbrev pub Question : Type 0
Question = Option (ComponentCategory × String)

-- A component or a pipeline is put in its map, or taken out of it: a component only once no
-- pipeline references it, or, where the user agreed to that, together with the references to it.
pub data Edit (agreed : Question) (doc doc' : EditorDoc) : Type 0 where
  put :
      (c : ComponentCategory) (id : String) (value : Value)
      → doc' ≡ with_map c (insert id value (map_for c doc)) doc
      → Edit agreed doc doc'
  put_pipeline :
      (id : String) (value : Value)
      → doc' ≡ record doc { pipelines = insert id value doc.pipelines }
      → Edit agreed doc doc'
  take :
      (c : ComponentCategory) (id : String)
      → pipelines_referencing c id doc ≡ []
      → doc' ≡ with_map c (remove id (map_for c doc)) doc
      → Edit agreed doc doc'
  take_stripped :
      (c : ComponentCategory) (id : String)
      → agreed ≡ some (c, id)
      → doc'
        ≡ with_map c
            (remove id (map_for c (strip_from_pipelines c id doc)))
            (strip_from_pipelines c id doc)
      → Edit agreed doc doc'
  take_pipeline :
      (id : String)
      → doc' ≡ record doc { pipelines = remove id doc.pipelines }
      → Edit agreed doc doc'

-- The keys of each map are distinct.
pub record AreUnique (doc : EditorDoc) : Type 0 where
  pub receivers : IsUnique doc.receivers
  pub exporters : IsUnique doc.exporters
  pub extensions : IsUnique doc.extensions
  pub pipelines : IsUnique doc.pipelines

pub map_for-AreUnique :
    (c : ComponentCategory) (doc : EditorDoc) → AreUnique doc → IsUnique (map_for c doc)
unfolding map_for
map_for-AreUnique receiver doc u = u.receivers
map_for-AreUnique exporter doc u = u.exporters
map_for-AreUnique extension doc u = u.extensions

with_map-AreUnique :
    (c : ComponentCategory) (m : Map) (doc : EditorDoc)
    → AreUnique doc
    → IsUnique m
    → AreUnique (with_map c m doc)
unfolding with_map
with_map-AreUnique receiver m doc u h = record {
  receivers = h;
  exporters = u.exporters;
  extensions = u.extensions;
  pipelines = u.pipelines;
}
with_map-AreUnique exporter m doc u h = record {
  receivers = u.receivers;
  exporters = h;
  extensions = u.extensions;
  pipelines = u.pipelines;
}
with_map-AreUnique extension m doc u h = record {
  receivers = u.receivers;
  exporters = u.exporters;
  extensions = h;
  pipelines = u.pipelines;
}

with_pipelines-AreUnique :
    (m : Map) (doc : EditorDoc)
    → AreUnique doc
    → IsUnique m
    → AreUnique (record doc { pipelines = m })
with_pipelines-AreUnique m doc u h = record {
  receivers = u.receivers;
  exporters = u.exporters;
  extensions = u.extensions;
  pipelines = h;
}

get-map_values-none :
    (f : Value → Value) (k : String) (m : Map) → get k m ≡ none → get k (map_values f m) ≡ none
unfolding get map_values
get-map_values-none f k end h = refl
get-map_values-none f k (entry j v m) h = ground (arith, get-map_values-none f k m)

map_values-IsUnique : (f : Value → Value) (m : Map) → IsUnique m → IsUnique (map_values f m)
unfolding map_values
map_values-IsUnique f end u = tt
map_values-IsUnique f (entry k v m) u = (get-map_values-none f k m u.0, map_values-IsUnique f m u.1)

pub strip-AreUnique :
    (c : ComponentCategory) (id : String) (doc : EditorDoc)
    → AreUnique doc
    → AreUnique (strip_from_pipelines c id doc)
unfolding strip_from_pipelines category_key
strip-AreUnique receiver id doc u =
    with_pipelines-AreUnique _ doc u
      (map_values-IsUnique (strip_def "receivers" id) doc.pipelines u.pipelines)
strip-AreUnique exporter id doc u =
    with_pipelines-AreUnique _ doc u
      (map_values-IsUnique (strip_def "exporters" id) doc.pipelines u.pipelines)
strip-AreUnique extension id doc u = u

removed-AreUnique :
    (c : ComponentCategory) (id : String) (doc : EditorDoc)
    → AreUnique doc
    → AreUnique (with_map c (remove id (map_for c doc)) doc)
removed-AreUnique c id doc u =
    with_map-AreUnique c (remove id (map_for c doc)) doc u
      (remove-IsUnique id (map_for c doc) (map_for-AreUnique c doc u))

-- Every edit keeps the keys of every map distinct.
pub Edit-AreUnique :
    {agreed : Question} {doc doc' : EditorDoc}
    → Edit agreed doc doc'
    → AreUnique doc
    → AreUnique doc'
Edit-AreUnique {doc} (put c id value e) u = subst AreUnique (sym e) (
    with_map-AreUnique c (insert id value (map_for c doc)) doc u
      (insert-IsUnique id value (map_for c doc) (map_for-AreUnique c doc u)))
Edit-AreUnique {doc} (put_pipeline id value e) u = subst AreUnique (sym e) (
    with_pipelines-AreUnique (insert id value doc.pipelines) doc u
      (insert-IsUnique id value doc.pipelines u.pipelines))
Edit-AreUnique {doc} (take c id n e) u = subst AreUnique (sym e) (removed-AreUnique c id doc u)
Edit-AreUnique {doc} (take_stripped c id agreed_to e) u =
    subst AreUnique (sym e)
      (removed-AreUnique c id (strip_from_pipelines c id doc) (strip-AreUnique c id doc u))
Edit-AreUnique {doc} (take_pipeline id e) u = subst AreUnique (sym e) (
    with_pipelines-AreUnique (remove id doc.pipelines) doc u
      (remove-IsUnique id doc.pipelines u.pipelines))
