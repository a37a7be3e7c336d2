-- ===== src/Editor/Top.antt =====
-- The top-level screen: `handle_top_level` of crates/collector/src/editor/app.rs.
use securitygingercia.Prelude.{
  ℕ, String, true, false, Option, none, some, [], ◌∷◌, ◌+++◌, if◌then◌else◌, eqb, code, Run, ret,
  ◌>>=◌, expect, Result, ok, err, get_elem?, find, first?,
}
use securitygingercia.Json.{get, remove}
use securitygingercia.Keys.{KeyCode, Toolkit}
use securitygingercia.Schema.Spec.{ComponentCategory, ComponentTypeSpec}
use securitygingercia.Schema.Types.{types_for, is_named, component_type}
use securitygingercia.Doc.{EditorDoc, pipelines_referencing}
use securitygingercia.Doc.Save.{Disk, Platform, Environment, EditorError, save, error_text, display}
use securitygingercia.Form
use securitygingercia.Form.{or_else}
use securitygingercia.Editor.State.{
  pipeline_fields, TopTab, category, next, prev, is_receivers, Screen, top_level, pick_type,
  name_new_pipeline, edit_component, edit_pipeline, confirm_remove, template_browse, App, map_for,
  with_map, ids_for_tab,
}
use securitygingercia.Editor.Common.{down, up, edited, said, save_error_hint, with_hint}

module _ {Input : Type 0} (kit : Toolkit Input) where
  -- The spec of a component's type, or else the category's first.
  unfoldable pub spec_for : ComponentCategory → String → Option ComponentTypeSpec
  spec_for c id = or_else (find (is_named (component_type id)) (types_for c)) (first? (types_for c))

  -- Enter on a component or a pipeline.
  unfoldable pub open_id : TopTab → ℕ → EditorDoc → String → Run (Screen Input)
  unfolding spec_for
  open_id tab selected doc id = elim (category tab) [
    | some c ↦ do
      value ← expect (get id (map_for c doc))
      elim (spec_for c id) [
        | none ↦ ret (top_level tab selected)
        | some spec ↦ do
          form ← Form.new kit (some spec.type_name) false spec.fields value
          ret (edit_component c id form)
      ]
    | none ↦ do
      value ← expect (get id doc.pipelines)
      form ← Form.new kit none false pipeline_fields value
      ret (edit_pipeline id form)
  ]

  unfoldable pub open_selected : TopTab → ℕ → EditorDoc → Run (Screen Input)
  unfolding open_id
  open_selected tab selected doc = elim (get_elem? (ids_for_tab tab doc) selected) [
    | none ↦ ret (top_level tab selected)
    | some id ↦ open_id tab selected doc id
  ]

  -- `d` or Delete on a component or a pipeline.
  unfoldable pub remove_id : TopTab → App Input → String → App Input × Screen Input
  remove_id tab app id = elim (category tab) [
    | some c ↦ elim (pipelines_referencing c id app.doc) [
      | [] ↦ (
        edited (with_map c (remove id (map_for c app.doc)) app.doc) ("removed " +++ id) app,
        top_level tab 0,
      )
      | name ∷ names ↦ (app, confirm_remove c id (name ∷ names))
    ]
    | none ↦ (
      edited (record app.doc { pipelines = remove id app.doc.pipelines }) ("removed " +++ id) app,
      top_level tab 0,
    )
  ]

  unfoldable pub remove_selected : TopTab → ℕ → App Input → App Input × Screen Input
  unfolding remove_id
  remove_selected tab selected app = elim (get_elem? (ids_for_tab tab app.doc) selected) [
    | none ↦ (app, top_level tab selected)
    | some id ↦ remove_id tab app id
  ]

  -- `a`
  unfoldable pub add_to : TopTab → Screen Input
  add_to tab = elim (category tab) [ some c ↦ pick_type c 0 | none ↦ name_new_pipeline kit.default ]

  abbrev pub after_save : App Input → Result EditorError (Unit {0}) → App Input
  after_save app (ok _) = record app {
    dirty = false;
    status_message = some ("saved " +++ display app.config_path);
  }
  after_save app (err e) =
      let message = "save failed: " +++ error_text e in
      said (with_hint message (save_error_hint message)) app

  module _ (platform : Platform) (env : Environment) where
    -- `s`
    unfoldable pub save_app : App Input → Disk → App Input × Disk
    save_app app disk =
        let (result, disk') = save platform env app.doc app.config_path disk in
        (after_save app result, disk')

    -- What a key leaves: the app, the next screen and the disk.
    abbrev pub Left : Type 0
    Left = App Input × Screen Input × Disk

    unfoldable pub top_char : ℕ → TopTab → ℕ → App Input → Disk → Left
    unfolding save_app add_to remove_selected
    top_char n tab selected app disk =
        if eqb n b'q'
        then (record app { should_quit = true }, top_level tab selected, disk)
        else if eqb n b'a'
        then (app, add_to tab, disk)
        else if eqb n b'T'
        then (app, if is_receivers tab then template_browse 0 else top_level tab selected, disk)
        else if eqb n b'd'
        then (let (app', screen) = remove_selected tab selected app in (app', screen, disk))
        else if eqb n b's'
        then (let (app', disk') = save_app app disk in (app', top_level tab selected, disk'))
        else (app, top_level tab selected, disk)

    unfoldable pub handle_top_level : TopTab → ℕ → KeyCode → App Input → Disk → Run Left
    unfolding top_char open_selected
    handle_top_level tab selected (KeyCode.char c) app disk =
        ret (top_char (code c) tab selected app disk)
    handle_top_level tab selected KeyCode.esc app disk =
        ret (record app { should_quit = true }, top_level tab selected, disk)
    handle_top_level tab selected KeyCode.tab app disk = ret (app, top_level (next tab) 0, disk)
    handle_top_level tab selected KeyCode.back_tab app disk =
        ret (app, top_level (prev tab) 0, disk)
    handle_top_level tab selected KeyCode.down app disk =
        ret (app, top_level tab (down (ids_for_tab tab app.doc) selected), disk)
    handle_top_level tab selected KeyCode.up app disk = ret (app, top_level tab (up selected), disk)
    handle_top_level tab selected KeyCode.enter app disk = do
      screen ← open_selected tab selected app.doc
      ret (app, screen, disk)
    handle_top_level tab selected KeyCode.delete app disk =
        let (app', screen) = remove_selected tab selected app in ret (app', screen, disk)
    handle_top_level tab selected _ app disk = ret (app, top_level tab selected, disk)
