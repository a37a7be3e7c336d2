-- ===== src/Editor/View/Draw.antt =====
-- The dispatch on the screen: `draw` of crates/collector/src/editor/ui.rs.
use securitygingercia.Prelude.{
  if◌then◌else◌, String, none, some, [], ◌∷◌, ◌++◌, ◌+++◌, Option, Run, ret, ◌>>=◌,
}
use securitygingercia.Keys.{Toolkit}
use securitygingercia.Doc.Save.{Platform}
use securitygingercia.Templates.Spec.{SourceTemplate}
use securitygingercia.Templates.Registry.{find as find_template}
use securitygingercia.Schema.Spec.{ComponentCategory}
use securitygingercia.Screen.{Constraint, Canvas, Frame}
use securitygingercia.Editor.State.{
  App, Screen, top_level, pick_type, name_new_component, name_new_pipeline, edit_component,
  edit_pipeline, confirm_remove, operator_list, operator_pick_type, operator_edit, template_browse,
  name_template_receiver, edit_template_params, review_template_receiver,
}
use securitygingercia.Editor.View.Items.{describe_type, describe_operator_type}
use securitygingercia.Editor.View.Lists.{
  chunk, draw_top_level, draw_pick_type, draw_operator_pick_type, draw_template_browse,
  draw_template_review, draw_name_prompt, draw_operator_list, draw_confirm_remove, draw_status_bar,
}
use securitygingercia.Editor.View.Forms.{draw_form, draw_help}

abbrev pub pipeline_description : String
pipeline_description =
    "A pipeline wires everything together: events come in from the listed receivers and get sent out to the listed exporters. Per-receiver parsing is configured on each receiver itself (its operators field), not here."

abbrev pub component_description : ComponentCategory → Option String → String
component_description category none = ""
component_description category (some type_name) = describe_type category type_name

abbrev pub operator_description : Option String → String
operator_description none = ""
operator_description (some type_name) = describe_operator_type type_name

abbrev pub template_description : Option SourceTemplate → String
template_description none = ""
template_description (some t) = t.description

abbrev pub template_title : Option SourceTemplate → String → String
template_title none template_key = template_key
template_title (some t) template_key = t.title

module _ {Input Rect : Type 0} (kit : Toolkit Input) (canvas : Canvas Rect)
    (platform : Platform) where
  -- The `match` on the screen.
  unfoldable pub draw_screen : Rect → App Input → Screen Input → Run (Frame Rect)
  unfolding draw_top_level draw_pick_type draw_operator_pick_type draw_template_browse
      draw_name_prompt draw_form
  draw_screen area app (top_level tab selected) = draw_top_level canvas area app tab selected
  draw_screen area app (pick_type category selected) = draw_pick_type canvas area category selected
  draw_screen area app (name_new_component category type_name input) =
      draw_name_prompt canvas area ("new " +++ type_name +++ " id") (kit.value input)
        (describe_type category type_name)
  draw_screen area app (name_new_pipeline input) =
      draw_name_prompt canvas area "new pipeline id" (kit.value input) pipeline_description
  draw_screen area app (edit_component category id form) =
      draw_form kit canvas area ("editing " +++ id) (component_description category form.type_name)
        form
  draw_screen area app (edit_pipeline id form) =
      draw_form kit canvas area ("editing pipeline " +++ id) pipeline_description form
  draw_screen area app (confirm_remove category id blocking) =
      ret (draw_confirm_remove area id blocking)
  draw_screen area app (operator_list category id form selected) =
      ret (draw_operator_list canvas area id form selected)
  draw_screen area app (operator_pick_type category id form selected) =
      draw_operator_pick_type canvas area selected
  draw_screen area app (operator_edit category id form index op_form) =
      draw_form kit canvas area ("editing operator on " +++ id)
        (operator_description op_form.type_name) op_form
  draw_screen area app (template_browse selected) = draw_template_browse canvas area selected
  draw_screen area app (name_template_receiver template_key input) =
      draw_name_prompt canvas area "new receiver id" (kit.value input)
        (template_description (find_template template_key))
  draw_screen area app (edit_template_params template_key id form) =
      draw_form kit canvas area
        (template_title (find_template template_key) template_key +++ " -- " +++ id)
        (template_description (find_template template_key)) form
  draw_screen area app (review_template_receiver template_key id params receiver) =
      ret (draw_template_review canvas platform area id receiver)

  unfoldable pub draw : App Input → Run (Frame Rect)
  unfolding draw_screen
  draw app =
      let chunks = canvas.split (Constraint.min 3 ∷ Constraint.length 3 ∷ []) canvas.area in
      do
        main ← chunk canvas chunks 0
        status ← chunk canvas chunks 1
        shown ← (if app.show_help then ret (draw_help main) else draw_screen main app app.screen)
        ret (shown ++ draw_status_bar status app)
