-- ===== src/Editor/View/Forms.antt =====
-- The forms of the editor and its key reference: `draw_form` and `draw_help` of
-- crates/collector/src/editor/ui.rs.
use securitygingercia.Prelude.{
  true, max, false, ℕ, zero, suc, ◌+◌, String, Bool, none, some, List, [], ◌∷◌, ◌++◌, ◌+++◌,
  if◌then◌else◌, eqb, Run, ret, ◌>>=◌, expect, length, get_elem?, is_blank, decimal, padded,
  bool_text,
}
use securitygingercia.Keys.{Toolkit}
use securitygingercia.Schema.Spec.{FieldSpec}
use securitygingercia.Form.{FieldEditState, FormState}
use securitygingercia.Screen.{
  Color, Modifier, Style, plain, colored, modified, Line, Text, titled, Constraint, Widget, Canvas,
  Frame, render_widget,
}
use securitygingercia.Editor.View.Items.{rows_u16, cyan_paragraph, heading_style}
use securitygingercia.Editor.View.Lists.{chunk}

-- `vec![x; n]`
abbrev pub repeated : {A : Type 0} → ℕ → A → List A
repeated zero x = []
repeated (suc n) x = x ∷ repeated n x

abbrev pub field_style : Bool → Style
field_style focused = if focused then modified Modifier.bold (colored Color.yellow) else plain

abbrev pub form_title : String → String
form_title title =
    title
    +++ " -- Tab: next field  Left/Right: cycle choice  Enter: save (or manage operators)  Esc: cancel"

abbrev pub focused_help : List FieldSpec → ℕ → String
focused_help specs focused = elim (get_elem? specs focused) [ none ↦ "" | some s ↦ s.help ]

abbrev pub help_heading : String → Line
help_heading text = record { content = text; style = heading_style } ∷ []

abbrev pub help_row : String → String → Line
help_row key action =
    record { content = padded 24 key; style = colored Color.cyan }
    ∷ record { content = action; style = plain }
    ∷ []

abbrev pub help_lines : List Line
help_lines =
    help_heading "Browsing (Receivers / Exporters / Extensions / Pipelines)"
    ∷ help_row "Tab/Shift+Tab, Up/Down" "switch tabs, move selection"
    ∷ help_row "Enter, a, d/Delete" "edit / add / remove the selected item"
    ∷ help_row "s, ?, q/Esc" "save to disk, help, quit"
    ∷ help_row "T (Receivers tab only)"
        "browse curated source templates -- name, fill params, review, insert"
    ∷ help_heading "Editing a component's fields / a pipeline's operators list"
    ∷ help_row "Tab/Shift+Tab, Left/Right" "next/prev field, cycle enum/bool"
    ∷ help_row "Enter, Esc" "save (or manage operators list) / discard"
    ∷ help_row "(operators list) a, Enter, d, Esc" "add / edit / remove / back"
    ∷ help_heading "Editing text -- standard tui-input readline bindings"
    ∷ help_row "Left/Right, Ctrl+B/F" "move one character"
    ∷ help_row "Ctrl+Left/Right, Alt+B/F" "move one word"
    ∷ help_row "Home/Ctrl+A, End/Ctrl+E" "start / end of field"
    ∷ help_row "Backspace/Ctrl+H, Delete" "delete char before / under cursor"
    ∷ help_row "Ctrl+W/Alt+D, Ctrl+Delete" "delete word before / after cursor"
    ∷ help_row "Ctrl+K" "delete to end of field"
    ∷ help_row "Ctrl+U" "clear the entire field"
    ∷ help_row "Ctrl+Y" "paste back the last deleted text"
    ∷ (record { content = ""; style = plain } ∷ [])
    ∷ (record {
      content = "Press any key to close this screen.";
      style = modified Modifier.italic plain;
    }
        ∷ [])
    ∷ []

module _ {Rect : Type 0} where
  unfoldable pub draw_help : Rect → Frame Rect
  draw_help area =
      render_widget
        (Widget.paragraph (Text.lines help_lines) plain true (some (titled "Keybinding reference")))
        area

  -- A field's line in its row, where the layout has a row for it.
  unfoldable pub draw_row : Line → List Rect → ℕ → Frame Rect
  draw_row line rows i = elim (get_elem? rows i) [
    | none ↦ []
    | some row ↦ render_widget (Widget.paragraph (Text.lines (line ∷ [])) plain false none) row
  ]

-- The description above the fields, where there is one: its rectangle is indexed only then.
abbrev pub draw_description : {Rect : Type 0} → String → Canvas Rect → List Rect → Run (Frame Rect)
draw_description description canvas chunks =
    let shown : Run (Frame _) = (do
      top ← chunk canvas chunks 0
      ret (
          render_widget
            (Widget.paragraph (Text.raw description) (modified Modifier.italic plain) true none)
            top)) in
    if is_blank description then ret [] else shown

module _ {Input : Type 0} (kit : Toolkit Input) where
  -- The text that a field shows; `options[*selected]` may be out of range.
  unfoldable pub value_text : FieldEditState Input → Run String
  value_text (FieldEditState.text input) = ret (kit.value input)
  value_text (FieldEditState.string_list input) = ret (kit.value input)
  value_text (FieldEditState.bool checked) = ret (bool_text checked)
  value_text (FieldEditState.enum options selected) = expect (get_elem? options selected)
  value_text (FieldEditState.operator_list ops) =
      ret (decimal (length ops) +++ " operator(s) -- press Enter to manage")

  abbrev pub field_line : Bool → String → String → Line
  field_line focused key value =
      record { content = padded 32 key; style = field_style focused }
      ∷ record { content = value; style = plain }
      ∷ []

  -- The loop over the zipped specs and fields, from an index on.
  unfoldable pub draw_fields :
      {Rect : Type 0}
      → List Rect
      → ℕ
      → ℕ
      → List FieldSpec
      → List (FieldEditState Input)
      → Run (Frame Rect)
  unfolding value_text draw_row
  draw_fields rows focused i (spec ∷ specs) (state ∷ states) = do
    value ← value_text state
    rest ← draw_fields rows focused (i + 1) specs states
    ret (draw_row (field_line (eqb i focused) spec.key value) rows i ++ rest)
  draw_fields rows focused i [] states = ret []
  draw_fields rows focused i (spec ∷ specs) [] = ret []

  unfoldable pub draw_form :
      {Rect : Type 0} → Canvas Rect → Rect → String → String → FormState Input → Run (Frame Rect)
  unfolding draw_fields
  draw_form canvas area title description form =
      let block = titled (form_title title) in
      let chunks =
        canvas.split
          (Constraint.length (if is_blank description then 0 else 2)
            ∷ Constraint.length (rows_u16 (length form.fields))
            ∷ Constraint.length 1
            ∷ Constraint.min 2
            ∷ [])
          (canvas.inner block area) in
      do
        described ← draw_description description canvas chunks
        middle ← chunk canvas chunks 1
        below ← chunk canvas chunks 3
        fields ←
            draw_fields
              (canvas.split (repeated (max (length form.fields) 1) (Constraint.length 1)) middle)
              form.focused 0 form.fields_spec form.fields
        ret (
            render_widget (Widget.block block) area
            ++ (described
                ++ (fields
                    ++ render_widget (cyan_paragraph (focused_help form.fields_spec form.focused))
                        below)))
