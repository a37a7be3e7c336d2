-- ===== src/Editor/Removal.antt =====
-- The removal of a component: `d` or Delete on the top-level screen, and `y` on the confirmation
-- (crates/collector/src/editor/app.rs).
use securitygingercia.Prelude.{
  nil-or-cons, ◌≢◌, ◌⊎◌, refl, none, some, ◌≡◌, inl, inr, [], String, ◌∙◌,
}
use securitygingercia.Json.{Map, get, remove}
use securitygingercia.Json.Maps.{IsUnique, get-remove_self}
use securitygingercia.Schema.Spec.{ComponentCategory, receiver, exporter, extension}
use securitygingercia.Doc.{EditorDoc, pipelines_referencing, strip_from_pipelines, category_key}
use securitygingercia.Doc.References.{pipelines_referencing-strip_self}
use securitygingercia.Keys.{Toolkit}
use securitygingercia.Editor.State.{App, TopTab, map_for, with_map, category, confirm_remove}
use securitygingercia.Editor.Top.{remove_id}
use securitygingercia.Editor.Handle.{confirmed}

-- The component is not in the document, and no pipeline names it.
abbrev pub IsGone : ComponentCategory → String → EditorDoc → Type 0
IsGone c id doc = (get id (map_for c doc) ≡ none) × (pipelines_referencing c id doc ≡ [])

map_for-with_map :
    (c : ComponentCategory) (m : Map) (doc : EditorDoc) → map_for c (with_map c m doc) ≡ m
unfolding map_for with_map
map_for-with_map receiver m doc = refl
map_for-with_map exporter m doc = refl
map_for-with_map extension m doc = refl

pipelines_referencing-with_map :
    (c : ComponentCategory) (id : String) (m : Map) (doc : EditorDoc)
    → pipelines_referencing c id (with_map c m doc) ≡ pipelines_referencing c id doc
unfolding pipelines_referencing with_map
pipelines_referencing-with_map receiver id m doc = refl
pipelines_referencing-with_map exporter id m doc = refl
pipelines_referencing-with_map extension id m doc = refl

map_for-strip :
    (c : ComponentCategory) (id : String) (doc : EditorDoc)
    → map_for c (strip_from_pipelines c id doc) ≡ map_for c doc
unfolding map_for strip_from_pipelines category_key
map_for-strip receiver id doc = refl
map_for-strip exporter id doc = refl
map_for-strip extension id doc = refl

removed-IsGone :
    (c : ComponentCategory) (id : String) (doc : EditorDoc)
    → IsUnique (map_for c doc)
    → pipelines_referencing c id doc ≡ []
    → IsGone c id (with_map c (remove id (map_for c doc)) doc)
removed-IsGone c id doc u e = (
  rw (map_for-with_map c (remove id (map_for c doc)) doc) (get-remove_self id (map_for c doc) u),
  pipelines_referencing-with_map c id (remove id (map_for c doc)) doc ∙ e,
)

module _ {Input : Type 0} (kit : Toolkit Input) where
  -- A confirmed removal of a component from a map of distinct keys leaves it neither in its map
  -- nor in any pipeline's list.
  pub confirmed-IsGone :
      (c : ComponentCategory) (id : String) (app : App Input)
      → IsUnique (map_for c app.doc)
      → IsGone c id (confirmed kit c id app).0.doc
  unfolding confirmed
  confirmed-IsGone c id app u =
      removed-IsGone c id (strip_from_pipelines c id app.doc) (rw (map_for-strip c id app.doc) u)
        (pipelines_referencing-strip_self c id app.doc)

  -- A removal of a component from a map of distinct keys is done at once, and then no pipeline
  -- names the component; or the app is as it was and the screen asks for a confirmation, with the
  -- pipelines that name it, of which there are some.
  pub remove_id-IsGone :
      (tab : TopTab) (c : ComponentCategory) (id : String) (app : App Input)
      → category tab ≡ some c
      → IsUnique (map_for c app.doc)
      → IsGone c id (remove_id kit tab app id).0.doc
        ⊎ ((remove_id kit tab app id
              ≡ (app, confirm_remove c id (pipelines_referencing c id app.doc)))
            × (pipelines_referencing c id app.doc ≢ []))
  unfolding remove_id
  remove_id-IsGone tab c id app e u = elim (nil-or-cons (pipelines_referencing c id app.doc)) [
    | inl n ↦ rw (e, n, remove_id) (inl (removed-IsGone c id app.doc u n))
    | inr (name, names, n) ↦ rw (e, n, remove_id) (inr (refl, cc))
  ]
