-- ===== src/Editor/View/Items.antt =====
-- The rows and the texts of the lists of the editor, without their places on the terminal:
-- crates/collector/src/editor/ui.rs.
use securitygingercia.Prelude.{
  ℕ, ◌+◌, ◌%◌, max, String, Bool, true, false, Option, none, some, List, [], ◌∷◌, ◌+++◌,
  if◌then◌else◌, eqb, get_elem?, find, sort, map, decimal,
}
use securitygingercia.Json.{Value, keys, get_key}
use securitygingercia.Schema.Spec.{ComponentCategory, ComponentTypeSpec}
use securitygingercia.Schema.Types.{types_for, operator_type, is_named}
use securitygingercia.Templates.Spec.{
  TemplateCategory, SourceTemplate, label as category_label, text_or,
}
use securitygingercia.Templates.Registry.{}
use securitygingercia.Doc.Save.{display}
use securitygingercia.Form.{}
use securitygingercia.Editor.State.{TopTab, App, label}
use securitygingercia.Screen.{
  Color, Modifier, Style, plain, colored, modified, Span, Line, Text, ListItem, Widget,
}

abbrev pub highlight : Style
highlight = modified Modifier.reversed plain

-- `if i == selected { reversed } else { default }`
abbrev pub row_style : ℕ → ℕ → Style
row_style i selected = if eqb i selected then highlight else plain

abbrev pub text_item : String → Style → ListItem
text_item s style = record { content = record { content = s; style = plain } ∷ []; style = style }

-- `iter().enumerate().map(…)`: the rows of a list from an index on.
unfoldable pub rows_from {ℓ} : {A : Type ℓ} → (ℕ → A → String) → ℕ → ℕ → List A → List ListItem
rows_from show selected i [] = []
rows_from show selected i (x ∷ xs) =
    text_item (show i x) (row_style i selected) ∷ rows_from show selected (i + 1) xs

abbrev pub none_yet : List ListItem
none_yet = text_item "(none -- press 'a' to add one)" plain ∷ []

-- `len().max(1) as u16`
abbrev pub rows_u16 : ℕ → ℕ
rows_u16 n = max n 1 % 65536

unfoldable pub describe_type : ComponentCategory → String → String
describe_type category type_name = elim (find (is_named type_name) (types_for category)) [
  | none ↦ ""
  | some s ↦ s.description
]

unfoldable pub describe_operator_type : String → String
describe_operator_type type_name = elim (operator_type type_name) [
  | none ↦ ""
  | some s ↦ s.description
]

abbrev pub same_tab : TopTab → TopTab → Bool
same_tab TopTab.receivers TopTab.receivers = true
same_tab TopTab.exporters TopTab.exporters = true
same_tab TopTab.extensions TopTab.extensions = true
same_tab TopTab.pipelines TopTab.pipelines = true
same_tab _ _ = false

abbrev pub tab_span : TopTab → TopTab → Span
tab_span tab t = record {
  content = " " +++ label t +++ " ";
  style = if same_tab t tab then highlight else plain;
}

abbrev pub tab_line : TopTab → Line
tab_line tab =
    map (tab_span tab)
      (TopTab.receivers ∷ TopTab.exporters ∷ TopTab.extensions ∷ TopTab.pipelines ∷ [])

abbrev pub top_title : TopTab → String
top_title TopTab.receivers =
    "a: add  T: from template  Enter: edit  d: remove  s: save  Tab: switch  ?: help  q: quit"
top_title _ = "a: add  Enter: edit  d: remove  s: save  Tab: switch  ?: help  q: quit"

unfoldable pub ids_for_display : {Input : Type 0} → App Input → TopTab → List String
ids_for_display app TopTab.receivers = sort (keys app.doc.receivers)
ids_for_display app TopTab.exporters = sort (keys app.doc.exporters)
ids_for_display app TopTab.extensions = sort (keys app.doc.extensions)
ids_for_display app TopTab.pipelines = sort (keys app.doc.pipelines)

-- The rows of the top-level list.
unfoldable pub id_rows : List String → ℕ → List ListItem
unfolding rows_from
id_rows [] selected = none_yet
id_rows (id ∷ ids) selected = rows_from (λ i s. s) selected 0 (id ∷ ids)

-- The rows of the operators.
abbrev pub operator_text : ℕ → Value → String
operator_text i op = decimal i +++ ": " +++ text_or "?" (get_key "type" op)

unfoldable pub operator_rows : List Value → ℕ → List ListItem
unfolding rows_from
operator_rows [] selected = none_yet
operator_rows (op ∷ ops) selected = rows_from operator_text selected 0 (op ∷ ops)

unfoldable pub type_rows : List ComponentTypeSpec → ℕ → List ListItem
unfolding rows_from
type_rows types selected = rows_from (λ i spec. spec.type_name) selected 0 types

abbrev pub same_category : TemplateCategory → Option TemplateCategory → Bool
same_category TemplateCategory.network_security (some TemplateCategory.network_security) = true
same_category TemplateCategory.generic (some TemplateCategory.generic) = true
same_category TemplateCategory.windows (some TemplateCategory.windows) = true
same_category TemplateCategory.database (some TemplateCategory.database) = true
same_category TemplateCategory.messaging (some TemplateCategory.messaging) = true
same_category _ _ = false

abbrev pub heading_style : Style
heading_style = modified Modifier.bold (colored Color.yellow)

abbrev pub heading_item : TemplateCategory → ListItem
heading_item category = record {
  content = record { content = category_label category; style = heading_style } ∷ [];
  style = plain;
}

abbrev pub template_text : SourceTemplate → String
template_text t = "  " +++ t.title +++ " [" +++ t.receiver_type +++ "]"

-- The loop over the templates: a heading where the category changes, and a row for the template.
unfoldable pub template_rows : Option TemplateCategory → ℕ → ℕ → List SourceTemplate → List ListItem
template_rows last selected i [] = []
template_rows last selected i (t ∷ ts) =
    let rest =
      text_item (template_text t) (row_style i selected)
      ∷ template_rows (some t.category) selected (i + 1) ts in
    if same_category t.category last then rest else heading_item t.category ∷ rest

abbrev pub cyan_paragraph : String → Widget
cyan_paragraph s = Widget.paragraph (Text.raw s) (colored Color.cyan) true none

abbrev pub plain_paragraph : String → Widget
plain_paragraph s = Widget.paragraph (Text.raw s) plain false none

abbrev pub description_at : {A : Type 0} → (A → String) → List A → ℕ → String
description_at describe xs selected = elim (get_elem? xs selected) [
  | none ↦ ""
  | some x ↦ describe x
]

abbrev pub dirty_marker : Bool → String
dirty_marker dirty = if dirty then " [unsaved changes]" else ""

unfoldable pub status_text : {Input : Type 0} → App Input → String
status_text app = elim app.status_message [
  | some msg ↦ msg +++ dirty_marker app.dirty
  | none ↦ display app.config_path +++ dirty_marker app.dirty
]
