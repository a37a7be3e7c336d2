-- ===== src/Editor/View/Rows.antt =====
-- The lists on the screens and the selection: `ids_for_display`, `draw_top_level`,
-- `draw_type_list`, `draw_operator_list` and `draw_template_browse` of
-- crates/collector/src/editor/ui.rs.
use securitygingercia.Prelude.{
  ap, ◌∙◌, ℕ, zero, suc, ◌+◌, ◌<◌, arith, String, Bool, true, false, Option, none, some, List, [],
  ◌∷◌, ◌≡◌, refl, if◌then◌else◌, eqb, get_elem?,
}
use securitygingercia.Json.{Value}
use securitygingercia.Schema.Spec.{ComponentTypeSpec}
use securitygingercia.Templates.Spec.{TemplateCategory, SourceTemplate}
use securitygingercia.Templates.Registry.{source_templates}
use securitygingercia.Screen.{Modifier, plain, Line, ListItem}
use securitygingercia.Editor.State.{App, TopTab, category, map_for, ids_for_tab}
use securitygingercia.Editor.View.Items.{
  ids_for_display, id_rows, operator_text, operator_rows, type_rows, rows_from, text_item,
  highlight, template_text, template_rows, same_category, heading_item,
}

abbrev has_reversed : List Modifier → Bool
has_reversed [] = false
has_reversed (Modifier.reversed ∷ ms) = true
has_reversed (_ ∷ ms) = has_reversed ms

-- The lines of the highlighted items.
abbrev pub highlighted : List ListItem → List Line
highlighted [] = []
highlighted (item ∷ items) =
    let rest = highlighted items in
    if has_reversed item.style.modifiers then item.content ∷ rest else rest

-- The line of a text, where there is one.
abbrev pub line_of : Option String → List Line
line_of none = []
line_of (some text) = (record { content = text; style = plain } ∷ []) ∷ []

-- A text made of the item at an index, where there is one.
abbrev pub text_at : {A : Type 0} → (A → String) → List A → ℕ → Option String
text_at show xs i = elim (get_elem? xs i) [ none ↦ none | some x ↦ some (show x) ]

highlighted_on :
    (b : Bool) (s : String) (rest : List ListItem)
    → b ≡ true
    → highlighted rest ≡ []
    → highlighted (text_item s (if b then highlight else plain) ∷ rest) ≡ line_of (some s)
highlighted_on true s rest e h = rw h refl
highlighted_on false s rest e h = absurd (cc e)

highlighted_off :
    (b : Bool) (s : String) (rest : List ListItem)
    → b ≡ false
    → highlighted (text_item s (if b then highlight else plain) ∷ rest) ≡ highlighted rest
highlighted_off true s rest e = absurd (cc e)
highlighted_off false s rest e = refl

module _ {A : Type 0} (show : ℕ → A → String) where
  highlighted-rows_from_past :
      (selected i : ℕ) (xs : List A)
      → selected < i
      → highlighted (rows_from show selected i xs) ≡ []
  unfolding rows_from
  highlighted-rows_from_past selected i [] h = refl
  highlighted-rows_from_past selected i (x ∷ xs) h =
      highlighted_off (eqb i selected) (show i x) (rows_from show selected (i + 1) xs)
        (ground arith)
      ∙ highlighted-rows_from_past selected (i + 1) xs (omega arith)

  highlighted-rows_from :
      (selected i k : ℕ) (xs : List A)
      → selected ≡ i + k
      → highlighted (rows_from show selected i xs) ≡ line_of (text_at (show selected) xs k)
  unfolding rows_from
  highlighted-rows_from selected i k [] h = refl
  highlighted-rows_from selected i zero (x ∷ xs) h =
      highlighted_on (eqb i selected) (show i x) (rows_from show selected (i + 1) xs) (ground arith)
        (highlighted-rows_from_past selected (i + 1) xs (omega arith))
      ∙ ap (λ n. line_of (some (show n x))) (omega arith)
  highlighted-rows_from selected i (suc k) (x ∷ xs) h =
      highlighted_off (eqb i selected) (show i x) (rows_from show selected (i + 1) xs)
        (ground arith)
      ∙ highlighted-rows_from selected (i + 1) k xs (omega arith)

-- The ids that the list shows are the ids that the keys act on.
ids_for_display-eq :
    {Input : Type 0} (app : App Input) (tab : TopTab)
    → ids_for_display app tab ≡ ids_for_tab tab app.doc
unfolding ids_for_display ids_for_tab category map_for
ids_for_display-eq app TopTab.receivers = refl
ids_for_display-eq app TopTab.exporters = refl
ids_for_display-eq app TopTab.extensions = refl
ids_for_display-eq app TopTab.pipelines = refl

highlighted-id_rows :
    (ids : List String) (selected : ℕ)
    → highlighted (id_rows ids selected) ≡ line_of (get_elem? ids selected)
unfolding id_rows
highlighted-id_rows [] selected = refl
highlighted-id_rows (id ∷ ids) selected =
    rw (highlighted-rows_from (λ i s. s) selected 0 selected (id ∷ ids) (omega arith))
      (same (get_elem? (id ∷ ids) selected))
  where
    same : (o : Option String) → line_of (elim o [ none ↦ none | some x ↦ some x ]) ≡ line_of o
    same none = refl
    same (some x) = refl

-- On every tab and for every selection, the highlighted rows of the list are the one of the id
-- that Enter and `d` act on, or none where there is no such id.
pub highlighted-top_level :
    {Input : Type 0} (app : App Input) (tab : TopTab) (selected : ℕ)
    → highlighted (id_rows (ids_for_display app tab) selected)
      ≡ line_of (get_elem? (ids_for_tab tab app.doc) selected)
highlighted-top_level app tab selected =
    rw (ids_for_display-eq app tab) (highlighted-id_rows (ids_for_tab tab app.doc) selected)

-- The highlighted rows of the operators are the one of the operator that Enter and `d` act on,
-- with its index, or none.
pub highlighted-operator_rows :
    (ops : List Value) (selected : ℕ)
    → highlighted (operator_rows ops selected)
      ≡ line_of (text_at (operator_text selected) ops selected)
unfolding operator_rows
highlighted-operator_rows [] selected = refl
highlighted-operator_rows (op ∷ ops) selected =
    highlighted-rows_from operator_text selected 0 selected (op ∷ ops) (omega arith)

highlighted-type_rows :
    (types : List ComponentTypeSpec) (selected : ℕ)
    → highlighted (type_rows types selected)
      ≡ line_of (text_at (λ (spec : ComponentTypeSpec). spec.type_name) types selected)
unfolding type_rows
highlighted-type_rows types selected =
    highlighted-rows_from (λ i spec. spec.type_name) selected 0 selected types (omega arith)

highlighted-heading :
    (b : Bool) (c : TemplateCategory) (rest : List ListItem)
    → highlighted (if b then rest else heading_item c ∷ rest) ≡ highlighted rest
highlighted-heading true c rest = refl
highlighted-heading false c rest = refl

highlighted-template_rows_past :
    (last : Option TemplateCategory) (selected i : ℕ) (ts : List SourceTemplate)
    → selected < i
    → highlighted (template_rows last selected i ts) ≡ []
unfolding template_rows
highlighted-template_rows_past last selected i [] h = refl
highlighted-template_rows_past last selected i (t ∷ ts) h =
    highlighted-heading (same_category t.category last) t.category _
    ∙ highlighted_off (eqb i selected) (template_text t)
        (template_rows (some t.category) selected (i + 1) ts) (ground arith)
    ∙ highlighted-template_rows_past (some t.category) selected (i + 1) ts (omega arith)

highlighted-template_rows :
    (last : Option TemplateCategory) (selected i k : ℕ) (ts : List SourceTemplate)
    → selected ≡ i + k
    → highlighted (template_rows last selected i ts) ≡ line_of (text_at template_text ts k)
unfolding template_rows
highlighted-template_rows last selected i k [] h = refl
highlighted-template_rows last selected i zero (t ∷ ts) h =
    highlighted-heading (same_category t.category last) t.category _
    ∙ highlighted_on (eqb i selected) (template_text t)
        (template_rows (some t.category) selected (i + 1) ts) (ground arith)
        (highlighted-template_rows_past (some t.category) selected (i + 1) ts (omega arith))
highlighted-template_rows last selected i (suc k) (t ∷ ts) h =
    highlighted-heading (same_category t.category last) t.category _
    ∙ highlighted_off (eqb i selected) (template_text t)
        (template_rows (some t.category) selected (i + 1) ts) (ground arith)
    ∙ highlighted-template_rows (some t.category) selected (i + 1) k ts (omega arith)

-- Among the templates and their headings, the highlighted rows are the one of the template that
-- Enter picks, or none.
pub highlighted-templates :
    (selected : ℕ)
    → highlighted (template_rows none selected 0 source_templates)
      ≡ line_of (text_at template_text source_templates selected)
highlighted-templates selected =
    highlighted-template_rows none selected 0 selected source_templates (omega arith)
