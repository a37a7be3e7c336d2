-- ===== src/Editor/Abstract/Refinement.antt =====
-- The edits of a document are steps of its abstract view (crates/collector/src/editor/app.rs and
-- model.rs).
use mathlib.Core.Option
use securitygingercia.Prelude.{
  String, Bool, false, Option, none, some, [], ◌≡◌, refl, ◌∙◌, ap, arith, ◌==◌, ◌&&◌, if◌then◌else◌,
  sort,
}
use securitygingercia.Json.{Value, Map, end, entry, get, insert, remove}
use securitygingercia.Json.Maps.{get-insert, get-remove}
use securitygingercia.Schema.Spec.{ComponentCategory, receiver, exporter, extension}
use securitygingercia.Doc.{
  EditorDoc, category_key, lists, names_where, pipelines_referencing, strip_def, map_values,
  strip_from_pipelines,
}
use securitygingercia.Doc.References.{sort-eq-nil}
use securitygingercia.Editor.State.{map_for, with_map}
use securitygingercia.Editor.Edits.{Edit, AreUnique, map_for-AreUnique, strip-AreUnique}
use securitygingercia.Editor.Abstract.{
  Question, Config, view, is_same, with_component, unlinked, IsFree, Step,
}

-- Two configurations that agree are the same.
config_ext :
    (cfg cfg' : Config)
    → ((c : ComponentCategory) (id : String) → cfg.component c id ≡ cfg'.component c id)
    → ((id : String) → cfg.pipeline id ≡ cfg'.pipeline id)
    → cfg ≡ cfg'
config_ext cfg cfg' h k = λ i. record { component = λ c id. h c id i; pipeline = λ id. k id i }

-- A map that is written back, and what it finds under an id.
changed :
    (c c' : ComponentCategory) (id j : String) (m : Map) (value : Option Value) (doc : EditorDoc)
    → get j m ≡ (if id == j then value else get j (map_for c doc))
    → get j (map_for c' (with_map c m doc))
      ≡ (if is_same c c' && id == j then value else get j (map_for c' doc))
unfolding map_for with_map
changed receiver receiver id j m value doc h = h
changed receiver exporter id j m value doc h = refl
changed receiver extension id j m value doc h = refl
changed exporter receiver id j m value doc h = refl
changed exporter exporter id j m value doc h = h
changed exporter extension id j m value doc h = refl
changed extension receiver id j m value doc h = refl
changed extension exporter id j m value doc h = refl
changed extension extension id j m value doc h = h

pipelines-with_map :
    (c : ComponentCategory) (m : Map) (doc : EditorDoc)
    → (with_map c m doc).pipelines ≡ doc.pipelines
unfolding with_map
pipelines-with_map receiver m doc = refl
pipelines-with_map exporter m doc = refl
pipelines-with_map extension m doc = refl

get-map_values :
    (f : Value → Value) (j : String) (m : Map) → get j (map_values f m) ≡ Option.map f (get j m)
unfolding get map_values
get-map_values f j end = refl
get-map_values f j (entry k v m) = ground (arith, get-map_values f j m)

names_where-nil :
    (p : Value → Bool) (name : String) (def : Value) (m : Map)
    → names_where p m ≡ []
    → get name m ≡ some def
    → p def ≡ false
unfolding get names_where
names_where-nil p name def end h e = cc
names_where-nil p name def (entry k v m) h e = ground (arith, names_where-nil p name def m)

view-with_map :
    (c : ComponentCategory) (id : String) (m : Map) (value : Option Value) (doc : EditorDoc)
    → ((j : String) → get j m ≡ (if id == j then value else get j (map_for c doc)))
    → view (with_map c m doc) ≡ with_component c id value (view doc)
view-with_map c id m value doc h =
    config_ext (view (with_map c m doc)) (with_component c id value (view doc))
      (λ c' j. changed c c' id j m value doc (h j)) (λ j. ap (get j) (pipelines-with_map c m doc))

map_for-pipelines :
    (c : ComponentCategory) (m : Map) (doc : EditorDoc)
    → map_for c (record doc { pipelines = m }) ≡ map_for c doc
unfolding map_for
map_for-pipelines receiver m doc = refl
map_for-pipelines exporter m doc = refl
map_for-pipelines extension m doc = refl

view-with_pipelines :
    (m : Map) (doc : EditorDoc) (pipeline : String → Option Value)
    → ((j : String) → get j m ≡ pipeline j)
    → view (record doc { pipelines = m }) ≡ record (view doc) { pipeline = pipeline }
view-with_pipelines m doc pipeline h =
    config_ext (view (record doc { pipelines = m })) (record (view doc) { pipeline = pipeline })
      (λ c j. ap (get j) (map_for-pipelines c m doc)) h

map-id : (o : Option Value) → o ≡ Option.map (λ def. def) o
map-id none = refl
map-id (some def) = refl

view-strip :
    (c : ComponentCategory) (id : String) (doc : EditorDoc)
    → view (strip_from_pipelines c id doc) ≡ unlinked c id (view doc)
unfolding strip_from_pipelines category_key
view-strip receiver id doc =
    view-with_pipelines _ doc _ (λ j. get-map_values (strip_def "receivers" id) j doc.pipelines)
view-strip exporter id doc =
    view-with_pipelines _ doc _ (λ j. get-map_values (strip_def "exporters" id) j doc.pipelines)
view-strip extension id doc =
    config_ext (view doc) (unlinked extension id (view doc)) (λ c j. refl)
      (λ j. map-id (get j doc.pipelines))

free-where :
    (key id : String) (m : Map) (name : String) (def : Value)
    → sort (names_where (lists key id) m) ≡ []
    → get name m ≡ some def
    → lists key id def ≡ false
free-where key id m name def h e =
    names_where-nil (lists key id) name def m (sort-eq-nil (names_where (lists key id) m) h) e

view-IsFree :
    (c : ComponentCategory) (id : String) (doc : EditorDoc)
    → pipelines_referencing c id doc ≡ []
    → IsFree c id (view doc)
unfolding pipelines_referencing category_key
view-IsFree receiver id doc h name def e = free-where "receivers" id doc.pipelines name def h e
view-IsFree exporter id doc h name def e = free-where "exporters" id doc.pipelines name def h e
view-IsFree extension id doc h name def e = refl

view-remove :
    (c : ComponentCategory) (id : String) (doc : EditorDoc)
    → AreUnique doc
    → view (with_map c (remove id (map_for c doc)) doc) ≡ with_component c id none (view doc)
view-remove c id doc u =
    view-with_map c id (remove id (map_for c doc)) none doc
      (λ j. get-remove id j (map_for c doc) (map_for-AreUnique c doc u))

-- Every edit of a document whose maps have distinct keys is a step of its view.
pub Edit-Step :
    {agreed : Question} {doc doc' : EditorDoc}
    → Edit agreed doc doc'
    → AreUnique doc
    → Step agreed (view doc) (view doc')
Edit-Step {doc} (Edit.put c id value e) u = Step.define c id value (
    ap view e
    ∙ view-with_map c id (insert id value (map_for c doc)) (some value) doc
        (λ j. get-insert id j value (map_for c doc)))
Edit-Step {doc} (Edit.put_pipeline id value e) u = Step.define_pipeline id value (
    ap view e
    ∙ view-with_pipelines (insert id value doc.pipelines) doc _
        (λ j. get-insert id j value doc.pipelines))
Edit-Step {doc} (Edit.take c id n e) u =
    Step.drop c id (view-IsFree c id doc n) (ap view e ∙ view-remove c id doc u)
Edit-Step {doc} (Edit.take_stripped c id agreed_to e) u = Step.drop_with_links c id agreed_to (
    ap view e
    ∙ view-remove c id (strip_from_pipelines c id doc) (strip-AreUnique c id doc u)
    ∙ ap (with_component c id none) (view-strip c id doc))
Edit-Step {doc} (Edit.take_pipeline id e) u = Step.drop_pipeline id (
    ap view e
    ∙ view-with_pipelines (remove id doc.pipelines) doc _
        (λ j. get-remove id j doc.pipelines u.pipelines))
