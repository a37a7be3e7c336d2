-- ===== src/Editor/Handle.antt =====
-- The dispatch on the screen: `handle_key` and `on_key` of
-- crates/collector/src/editor/app.rs.
use securitygingercia.Prelude.{
  ℕ, String, Bool, true, false, Option, none, some, List, [], ◌∷◌, ◌+++◌, ◌++◌, if◌then◌else◌,
  is_blank, trim, ltb, code, Run, ret, ◌>>=◌, expect, length, set, find, ◌||◌, ◌&&◌,
}
use securitygingercia.Json.{Value, end, insert, remove, contains_key}
use securitygingercia.Keys.{KeyCode, KeyEvent, Toolkit, is_char}
use securitygingercia.Schema.Spec.{ComponentCategory, FieldKind}
use securitygingercia.Schema.Types.{types_for, is_named, minimal_value}
use securitygingercia.Doc.{strip_from_pipelines}
use securitygingercia.Doc.Save.{Disk, Platform, Environment}
use securitygingercia.Form
use securitygingercia.Form.{
  FormState, FormOutcome, continue, submit, cancel, on_key as form_on_key, to_value, focused_kind,
  operators, set_operators, kind_is_operator_list, unwrap_or,
}
use securitygingercia.Templates.Registry.{find as find_template}
use securitygingercia.Editor.State.{
  pipeline_fields, TopTab, tab_for, Screen, top_level, pick_type, name_new_component,
  name_new_pipeline, edit_component, edit_pipeline, confirm_remove, operator_list,
  operator_pick_type, operator_edit, template_browse, name_template_receiver, edit_template_params,
  review_template_receiver, App, default_screen, screen_accepts_help_hotkey, map_for, with_map,
}
use securitygingercia.Editor.Common.{edited, said, taken, updated}
use securitygingercia.Editor.Lists.{
  handle_pick_type, handle_operator_list, handle_operator_pick_type, handle_template_browse,
}
use securitygingercia.Editor.Top.{handle_top_level}

module _ {Input : Type 0} (kit : Toolkit Input) where
  -- The app and the next screen.
  abbrev pub Next : Type 0
  Next = App Input × Screen Input

  abbrev pub name_of : Input → String
  name_of input = trim (kit.value input)

  -- Enter on the name of a new component.
  unfoldable pub confirm_component :
      ComponentCategory → String → Input → String → App Input → Run Next
  confirm_component c type_name input id app =
      let created : Run Next = (do
        spec ← expect (find (is_named type_name) (types_for c))
        form ← Form.new kit (some type_name) false spec.fields (minimal_value spec)
        ret (app, edit_component c id form)) in
      if is_blank id || contains_key id (map_for c app.doc)
      then ret (said (taken id) app, name_new_component c type_name input)
      else created

  unfoldable pub name_component :
      ComponentCategory → String → Input → KeyEvent → KeyCode → App Input → Run Next
  unfolding confirm_component
  name_component c type_name input key KeyCode.esc app = ret (app, top_level (tab_for c) 0)
  name_component c type_name input key KeyCode.enter app =
      confirm_component c type_name input (name_of input) app
  name_component c type_name input key _ app =
      ret (app, name_new_component c type_name (kit.handle_event key input))

  unfoldable pub confirm_pipeline : Input → String → App Input → Run Next
  confirm_pipeline input id app =
      let created : Run Next = (do
        form ← Form.new kit none false pipeline_fields (Value.object end)
        ret (app, edit_pipeline id form)) in
      if is_blank id || contains_key id app.doc.pipelines
      then ret (said (taken id) app, name_new_pipeline input)
      else created

  unfoldable pub name_pipeline : Input → KeyEvent → KeyCode → App Input → Run Next
  unfolding confirm_pipeline
  name_pipeline input key KeyCode.esc app = ret (app, top_level TopTab.pipelines 0)
  name_pipeline input key KeyCode.enter app = confirm_pipeline input (name_of input) app
  name_pipeline input key _ app = ret (app, name_new_pipeline (kit.handle_event key input))

  unfoldable pub component_outcome :
      ComponentCategory → String → App Input → FormState Input × FormOutcome → Run Next
  component_outcome c id app (form, continue) = ret (app, edit_component c id form)
  component_outcome c id app (form, cancel) = ret (app, top_level (tab_for c) 0)
  component_outcome c id app (form, submit) = do
    value ← to_value kit form
    ret (
      edited (with_map c (insert id value (map_for c app.doc)) app.doc) (updated id) app,
      top_level (tab_for c) 0,
    )

  abbrev pub is_enter : KeyCode → Bool
  is_enter KeyCode.enter = true
  is_enter _ = false

  abbrev pub drills_in : Option FieldKind → Bool
  drills_in none = false
  drills_in (some kind) = kind_is_operator_list kind

  unfoldable pub component_key :
      ComponentCategory → String → FormState Input → KeyEvent → App Input → Run Next
  unfolding component_outcome
  component_key c id form key app =
      let edits : Run Next = (do
        result ← form_on_key kit key form
        component_outcome c id app result) in
      if is_enter key.code && drills_in (focused_kind form)
      then ret (app, operator_list c id form 0)
      else edits

  unfoldable pub pipeline_outcome : String → App Input → FormState Input × FormOutcome → Run Next
  pipeline_outcome id app (form, continue) = ret (app, edit_pipeline id form)
  pipeline_outcome id app (form, cancel) = ret (app, top_level TopTab.pipelines 0)
  pipeline_outcome id app (form, submit) = do
    value ← to_value kit form
    ret (
      edited (record app.doc { pipelines = insert id value app.doc.pipelines }) (updated id) app,
      top_level TopTab.pipelines 0,
    )

  unfoldable pub pipeline_key : String → FormState Input → KeyEvent → App Input → Run Next
  unfolding pipeline_outcome
  pipeline_key id form key app = do
    result ← form_on_key kit key form
    pipeline_outcome id app result

  -- `y` on the confirmation of a removal.
  unfoldable pub confirmed : ComponentCategory → String → App Input → Next
  confirmed c id app =
      let stripped = strip_from_pipelines c id app.doc in
      (
        edited (with_map c (remove id (map_for c stripped)) stripped) ("removed " +++ id) app,
        top_level (tab_for c) 0,
      )

  unfoldable pub confirm_key : ComponentCategory → String → KeyCode → App Input → Next
  unfolding confirmed
  confirm_key c id code app =
      if is_char b'y' code then confirmed c id app else (app, top_level (tab_for c) 0)

  -- The operators with the submitted one in its place, or at the end.
  abbrev pub placed : Option ℕ → Value → List Value → List Value × ℕ
  placed none value ops = (ops ++ value ∷ [], length ops)
  placed (some i) value ops =
      if ltb i (length ops) then (set ops i value, i) else (ops ++ value ∷ [], length ops)

  unfoldable pub operator_outcome :
      ComponentCategory
      → String
      → FormState Input
      → Option ℕ
      → App Input
      → FormState Input × FormOutcome
      → Run Next
  operator_outcome c id form index app (op_form, continue) =
      ret (app, operator_edit c id form index op_form)
  operator_outcome c id form index app (op_form, cancel) =
      ret (app, operator_list c id form (unwrap_or index 0))
  operator_outcome c id form index app (op_form, submit) = do
    value ← to_value kit op_form
    let (ops, selected) = placed index value (operators form)
    ret (app, operator_list c id (set_operators ops form) selected)

  unfoldable pub confirm_template : String → Input → String → App Input → Run Next
  confirm_template template_key input id app =
      let created : Run Next = (do
        template ← expect (find_template template_key)
        form ← Form.new kit none false template.params (Value.object end)
        ret (app, edit_template_params template_key id form)) in
      if is_blank id || contains_key id app.doc.receivers
      then ret (said (taken id) app, name_template_receiver template_key input)
      else created

  unfoldable pub name_template : String → Input → KeyEvent → KeyCode → App Input → Run Next
  unfolding confirm_template
  name_template template_key input key KeyCode.esc app = ret (app, top_level TopTab.receivers 0)
  name_template template_key input key KeyCode.enter app =
      confirm_template template_key input (name_of input) app
  name_template template_key input key _ app =
      ret (app, name_template_receiver template_key (kit.handle_event key input))

  unfoldable pub params_outcome :
      String → String → App Input → FormState Input × FormOutcome → Run Next
  params_outcome template_key id app (form, continue) =
      ret (app, edit_template_params template_key id form)
  params_outcome template_key id app (form, cancel) = ret (app, top_level TopTab.receivers 0)
  params_outcome template_key id app (form, submit) = do
    template ← expect (find_template template_key)
    params ← to_value kit form
    ret (app, review_template_receiver template_key id params (template.build params))

  unfoldable pub review_key : String → String → Value → Value → KeyCode → App Input → Run Next
  review_key template_key id params receiver KeyCode.enter app = ret (
    edited (record app.doc { receivers = insert id receiver app.doc.receivers })
        (id +++ " created from template (press 's' to save to disk)") app,
    top_level TopTab.receivers 0,
  )
  review_key template_key id params receiver KeyCode.esc app = do
    template ← expect (find_template template_key)
    form ← Form.new kit none false template.params params
    ret (app, edit_template_params template_key id form)
  review_key template_key id params receiver _ app =
      ret (app, review_template_receiver template_key id params receiver)

  -- `handle_key`, on every screen but the top-level one: none of them touches the disk.
  unfoldable pub handle_screen : Screen Input → KeyEvent → App Input → Run Next
  unfolding name_component name_pipeline component_key pipeline_key confirm_key operator_outcome
      name_template params_outcome review_key
  handle_screen (top_level tab selected) key app = ret (app, top_level tab selected)
  handle_screen (pick_type c selected) key app = ret (app, handle_pick_type kit c selected key.code)
  handle_screen (name_new_component c type_name input) key app =
      name_component c type_name input key key.code app
  handle_screen (name_new_pipeline input) key app = name_pipeline input key key.code app
  handle_screen (edit_component c id form) key app = component_key c id form key app
  handle_screen (edit_pipeline id form) key app = pipeline_key id form key app
  handle_screen (confirm_remove c id blocking) key app = ret (confirm_key c id key.code app)
  handle_screen (operator_list c id form selected) key app = do
    screen ← handle_operator_list kit c id form selected key.code
    ret (app, screen)
  handle_screen (operator_pick_type c id form selected) key app = do
    screen ← handle_operator_pick_type kit c id form selected key.code
    ret (app, screen)
  handle_screen (operator_edit c id form index op_form) key app = do
    result ← form_on_key kit key op_form
    operator_outcome c id form index app result
  handle_screen (template_browse selected) key app =
      ret (app, handle_template_browse kit selected key.code)
  handle_screen (name_template_receiver template_key input) key app =
      name_template template_key input key key.code app
  handle_screen (edit_template_params template_key id form) key app = do
    result ← form_on_key kit key form
    params_outcome template_key id app result
  handle_screen (review_template_receiver template_key id params receiver) key app =
      review_key template_key id params receiver key.code app

  module _ (platform : Platform) (env : Environment) where
    unfoldable pub handle_key :
        Screen Input → KeyEvent → App Input → Disk → Run (App Input × Screen Input × Disk)
    unfolding handle_screen
    handle_key (top_level tab selected) key app disk =
        handle_top_level kit platform env tab selected key.code app disk
    handle_key screen key app disk = do
      (app', screen') ← handle_screen screen key app
      ret (app', screen', disk)

    -- A key on the screen below the help.
    unfoldable pub key_below : KeyEvent → App Input → Disk → Run (App Input × Disk)
    unfolding handle_key
    key_below key app disk = do
      (app', screen, disk') ←
          handle_key app.screen key (record app { screen = default_screen }) disk
      ret (record app' { screen = screen }, disk')

    unfoldable pub on_key : KeyEvent → App Input → Disk → Run (App Input × Disk)
    unfolding key_below
    on_key key app disk =
        let below = key_below key app disk in
        if app.show_help
        then ret (record app { show_help = false }, disk)
        else if is_char b'?' key.code && screen_accepts_help_hotkey app.screen
        then ret (record app { show_help = true }, disk)
        else below
