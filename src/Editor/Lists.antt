-- ===== src/Editor/Lists.antt =====
-- The screens that are lists: `handle_pick_type`, `handle_operator_list`,
-- `handle_operator_pick_type` and `handle_template_browse` of
-- crates/collector/src/editor/app.rs. None of them changes the app.
use securitygingercia.Prelude.{
  ℕ, String, true, none, some, if◌then◌else◌, ltb, eqb, code, Run, ret, ◌>>=◌, length, get_elem?,
  remove_at,
}
use securitygingercia.Json.{get_key}
use securitygingercia.Keys.{KeyCode, Toolkit}
use securitygingercia.Schema.Spec.{ComponentCategory}
use securitygingercia.Schema.Types.{types_for, operator_types, operator_type, minimal_value}
use securitygingercia.Form
use securitygingercia.Form.{FormState, advance_focus, operators, set_operators}
use securitygingercia.Templates.Registry.{source_templates}
use securitygingercia.Templates.Spec.{text_or}
use securitygingercia.Editor.State.{
  tab_for, TopTab, Screen, top_level, pick_type, name_new_component, edit_component, operator_list,
  operator_pick_type, operator_edit, template_browse, name_template_receiver,
}
use securitygingercia.Editor.Common.{down, up}

module _ {Input : Type 0} (kit : Toolkit Input) where
  unfoldable pub handle_template_browse : ℕ → KeyCode → Screen Input
  handle_template_browse selected KeyCode.esc = top_level TopTab.receivers 0
  handle_template_browse selected KeyCode.down = template_browse (down source_templates selected)
  handle_template_browse selected KeyCode.up = template_browse (up selected)
  handle_template_browse selected KeyCode.enter = elim (get_elem? source_templates selected) [
    | none ↦ template_browse selected
    | some template ↦ name_template_receiver template.key (kit.new template.default_id)
  ]
  handle_template_browse selected _ = template_browse selected

  unfoldable pub handle_pick_type : ComponentCategory → ℕ → KeyCode → Screen Input
  handle_pick_type category selected KeyCode.esc = top_level (tab_for category) 0
  handle_pick_type category selected KeyCode.down =
      pick_type category (down (types_for category) selected)
  handle_pick_type category selected KeyCode.up = pick_type category (up selected)
  handle_pick_type category selected KeyCode.enter =
      elim (get_elem? (types_for category) selected) [
        | none ↦ pick_type category selected
        | some spec ↦ name_new_component category spec.type_name kit.default
      ]
  handle_pick_type category selected _ = pick_type category selected

  -- Enter on an operator: its form, if its type is registered.
  unfoldable pub open_operator :
      ComponentCategory → String → FormState Input → ℕ → Run (Screen Input)
  open_operator category id form selected = elim (get_elem? (operators form) selected) [
    | none ↦ ret (operator_list category id form selected)
    | some op_value ↦ elim (operator_type (text_or "" (get_key "type" op_value))) [
      | none ↦ ret (operator_list category id form selected)
      | some spec ↦ do
        op_form ← Form.new kit (some spec.type_name) true spec.fields op_value
        ret (operator_edit category id form (some selected) op_form)
    ]
  ]

  -- `d` or Delete on an operator.
  unfoldable pub delete_operator : ComponentCategory → String → FormState Input → ℕ → Screen Input
  delete_operator category id form selected =
      operator_list category id
        (if ltb selected (length (operators form))
          then set_operators (remove_at (operators form) selected) form
          else form)
        0

  unfoldable pub handle_operator_list :
      ComponentCategory → String → FormState Input → ℕ → KeyCode → Run (Screen Input)
  unfolding open_operator delete_operator
  handle_operator_list category id form selected KeyCode.esc =
      ret (edit_component category id (advance_focus form))
  handle_operator_list category id form selected KeyCode.down =
      ret (operator_list category id form (down (operators form) selected))
  handle_operator_list category id form selected KeyCode.up =
      ret (operator_list category id form (up selected))
  handle_operator_list category id form selected (KeyCode.char c) = ret (
      if eqb (code c) b'a'
      then operator_pick_type category id form 0
      else if eqb (code c) b'd'
      then delete_operator category id form selected
      else operator_list category id form selected)
  handle_operator_list category id form selected KeyCode.enter =
      open_operator category id form selected
  handle_operator_list category id form selected KeyCode.delete =
      ret (delete_operator category id form selected)
  handle_operator_list category id form selected _ = ret (operator_list category id form selected)

  unfoldable pub handle_operator_pick_type :
      ComponentCategory → String → FormState Input → ℕ → KeyCode → Run (Screen Input)
  handle_operator_pick_type category id form selected KeyCode.esc =
      ret (operator_list category id form 0)
  handle_operator_pick_type category id form selected KeyCode.down =
      ret (operator_pick_type category id form (down operator_types selected))
  handle_operator_pick_type category id form selected KeyCode.up =
      ret (operator_pick_type category id form (up selected))
  handle_operator_pick_type category id form selected KeyCode.enter =
      elim (get_elem? operator_types selected) [
        | none ↦ ret (operator_pick_type category id form selected)
        | some spec ↦ do
          op_form ← Form.new kit (some spec.type_name) true spec.fields (minimal_value spec)
          ret (operator_edit category id form none op_form)
      ]
  handle_operator_pick_type category id form selected _ =
      ret (operator_pick_type category id form selected)
