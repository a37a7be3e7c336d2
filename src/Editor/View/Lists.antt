-- ===== src/Editor/View/Lists.antt =====
-- The screens of the editor that are lists, and the prompts, the confirmations and the status bar:
-- crates/collector/src/editor/ui.rs.
use securitygingercia.Prelude.{
  ℕ, String, false, none, some, List, [], ◌∷◌, ◌++◌, ◌+++◌, Run, ret, ◌>>=◌, expect, ok, err,
  length, get_elem?, join_comma,
}
use securitygingercia.Json.{Value}
use securitygingercia.Schema.Spec.{ComponentCategory, ComponentTypeSpec}
use securitygingercia.Schema.Types.{types_for, operator_types}
use securitygingercia.Templates.Spec.{SourceTemplate}
use securitygingercia.Templates.Registry.{source_templates}
use securitygingercia.Doc.Save.{Platform}
use securitygingercia.Form.{FormState, operators}
use securitygingercia.Editor.State.{TopTab, App}
use securitygingercia.Screen.{
  Color, plain, colored, Text, titled, ListItem, Constraint, Widget, Canvas, Frame, render_widget,
}
use securitygingercia.Editor.View.Items.{
  rows_u16, tab_line, top_title, ids_for_display, id_rows, operator_rows, type_rows, template_rows,
  cyan_paragraph, plain_paragraph, description_at, status_text,
}

module _ {Rect : Type 0} where
  unfoldable pub draw_confirm_remove : Rect → String → List String → Frame Rect
  draw_confirm_remove area id blocking =
      render_widget
        (Widget.paragraph
          (Text.raw (
            "'"
            +++ id
            +++ "' is still used by pipeline(s): "
            +++ join_comma blocking
            +++ "\n\nPress 'y' to remove it anyway (and strip it from those pipelines), any other key to cancel."))
          plain false (some (record { title = "confirm removal"; style = colored Color.red })))
        area

  unfoldable pub draw_status_bar : {Input : Type 0} → Rect → App Input → Frame Rect
  unfolding status_text
  draw_status_bar area app =
      render_widget (Widget.paragraph (Text.raw (status_text app)) plain false (some (titled "")))
        area

module _ {Rect : Type 0} (canvas : Canvas Rect) where
  -- `chunks[i]`
  abbrev pub chunk : List Rect → ℕ → Run Rect
  chunk chunks i = expect (get_elem? chunks i)

  unfoldable pub draw_top_level :
      {Input : Type 0} → Rect → App Input → TopTab → ℕ → Run (Frame Rect)
  draw_top_level area app tab selected =
      let chunks = canvas.split (Constraint.length 3 ∷ Constraint.min 1 ∷ []) area in
      do
        tabs ← chunk chunks 0
        rows ← chunk chunks 1
        ret (
            render_widget
              (Widget.paragraph (Text.lines (tab_line tab ∷ [])) plain false
                (some (titled "sgcia config editor")))
              tabs
            ++ render_widget
                (Widget.list (id_rows (ids_for_display app tab) selected)
                  (some (titled (top_title tab))))
                rows)

  -- A block of items, with the description of the selected one below.
  unfoldable pub draw_described : Rect → String → List ListItem → String → Run (Frame Rect)
  draw_described area title items description =
      let block = titled title in
      let chunks =
        canvas.split (Constraint.length (rows_u16 (length items)) ∷ Constraint.min 2 ∷ [])
          (canvas.inner block area) in
      do
        rows ← chunk chunks 0
        below ← chunk chunks 1
        ret (
            render_widget (Widget.block block) area
            ++ (render_widget (Widget.list items none) rows
                ++ render_widget (cyan_paragraph description) below))

  unfoldable pub draw_type_list : Rect → String → List ComponentTypeSpec → ℕ → Run (Frame Rect)
  unfolding draw_described type_rows
  draw_type_list area title types selected =
      draw_described area title (type_rows types selected)
        (description_at (λ (s : ComponentTypeSpec). s.description) types selected)

  unfoldable pub draw_pick_type : Rect → ComponentCategory → ℕ → Run (Frame Rect)
  unfolding draw_type_list
  draw_pick_type area category selected =
      draw_type_list area
        "pick a type (Up/Down to move, Enter to confirm, ? for help, Esc to cancel)"
        (types_for category) selected

  unfoldable pub draw_operator_pick_type : Rect → ℕ → Run (Frame Rect)
  unfolding draw_type_list
  draw_operator_pick_type area selected =
      draw_type_list area
        "pick an operator type (Up/Down to move, Enter to confirm, ? for help, Esc to cancel)"
        operator_types selected

  unfoldable pub draw_template_browse : Rect → ℕ → Run (Frame Rect)
  unfolding draw_described template_rows
  draw_template_browse area selected =
      draw_described area
        "pick a source template (Up/Down to move, Enter to confirm, ? for help, Esc to cancel)"
        (template_rows none selected 0 source_templates)
        (description_at (λ (t : SourceTemplate). t.description) source_templates selected)

  unfoldable pub draw_template_review : Platform → Rect → String → Value → Frame Rect
  draw_template_review platform area id receiver =
      let block =
        titled ("review " +++ id +++ " -- Enter: confirm and insert  Esc: back to params") in
      let yaml : String = elim (platform.to_yaml receiver) [ ok text ↦ text | err e ↦ "" ] in
      render_widget (Widget.block block) area
      ++ render_widget (plain_paragraph yaml) (canvas.inner block area)

  unfoldable pub draw_name_prompt : Rect → String → String → String → Run (Frame Rect)
  draw_name_prompt area title value description =
      let block = titled title in
      let chunks =
        canvas.split (Constraint.length 1 ∷ Constraint.length 1 ∷ Constraint.min 2 ∷ [])
          (canvas.inner block area) in
      do
        line ← chunk chunks 0
        below ← chunk chunks 2
        ret (
            render_widget (Widget.block block) area
            ++ (render_widget (plain_paragraph value) line
                ++ render_widget (cyan_paragraph description) below))

  unfoldable pub draw_operator_list :
      {Input : Type 0} → Rect → String → FormState Input → ℕ → Frame Rect
  unfolding operator_rows
  draw_operator_list area receiver_id form selected =
      let block = titled (
        "operators on " +++ receiver_id
        +++ " -- a: add  Enter: edit  d: remove  ?: help  Esc: back") in
      render_widget (Widget.block block) area
      ++ render_widget (Widget.list (operator_rows (operators form) selected) none)
          (canvas.inner block area)
