-- ===== src/Editor/View/Safety.antt =====
-- Panics of the drawing: the indices that crates/collector/src/editor/ui.rs takes.
use securitygingercia.Prelude.{
  length, is_blank, ◌+++◌, if◌then◌else◌, ℕ, ◌+◌, ◌<◌, List, Run, ◌>>=◌, Returns, Returns->>=,
  get_elem?_of_lt, ◌∷◌, [], arith, String, ret, length as count,
}
use securitygingercia.Keys.{Toolkit}
use securitygingercia.Doc.Save.{Platform}
use securitygingercia.Schema.Spec.{FieldKind, FieldSpec}
use securitygingercia.Form.{FieldEditState, FormState}
use securitygingercia.Form.Safety.{IsWellFormed, AllFit, Fits}
use securitygingercia.Screen.{titled, Constraint, Canvas, IsComplete, Frame, ListItem}
use securitygingercia.Editor.State.{
  App, Screen, top_level, pick_type, name_new_component, name_new_pipeline, edit_component,
  edit_pipeline, confirm_remove, operator_list, operator_pick_type, operator_edit, template_browse,
  name_template_receiver, edit_template_params, review_template_receiver,
}
use securitygingercia.Editor.Safety.{IsSafe}
use securitygingercia.Editor.SafeKeys.{guarded}
use securitygingercia.Editor.View.Items.{rows_u16}
use securitygingercia.Editor.View.Lists.{
  draw_type_list, draw_template_browse, draw_operator_pick_type, draw_pick_type, chunk,
  draw_described, draw_top_level, draw_name_prompt,
}
use securitygingercia.Editor.View.Forms.{
  form_title, draw_description, draw_help, value_text, draw_fields, draw_form,
}
use securitygingercia.Editor.View.Draw.{pipeline_description, draw_screen, draw}

-- Something is drawn.
abbrev pub IsDrawn : {Rect : Type 0} → Frame Rect → Type 0
IsDrawn frame = Unit

module _ {Rect : Type 0} (canvas : Canvas Rect) (complete : IsComplete canvas) where
  chunk-then :
      {B : Type 0} (Q : B → Type 0) (constraints : List Constraint) (area : Rect) (i : ℕ)
      (f : Rect → Run B)
      → i < count constraints
      → ((r : Rect) → Returns Q (f r))
      → Returns Q (chunk canvas (canvas.split constraints area) i >>= f)
  chunk-then Q constraints area i f h k =
      let (r, e) =
        get_elem?_of_lt (canvas.split constraints area) i
          (omega (arith, complete.length-split constraints area)) in
      rw e (k r)

  draw_described-Returns :
      (area : Rect) (title : String) (items : List ListItem) (description : String)
      → Returns IsDrawn (draw_described canvas area title items description)
  unfolding draw_described
  draw_described-Returns area title items description =
      chunk-then IsDrawn _ _ 0 _ (omega arith)
        (λ r. chunk-then IsDrawn _ _ 1 _ (omega arith) (λ s. tt))

  draw_top_level-Returns :
      {Input : Type 0} (area : Rect) (app : App Input) (tab : _) (selected : ℕ)
      → Returns IsDrawn (draw_top_level canvas area app tab selected)
  unfolding draw_top_level
  draw_top_level-Returns area app tab selected =
      chunk-then IsDrawn _ _ 0 _ (omega arith)
        (λ r. chunk-then IsDrawn _ _ 1 _ (omega arith) (λ s. tt))

  draw_name_prompt-Returns :
      (area : Rect) (title value description : String)
      → Returns IsDrawn (draw_name_prompt canvas area title value description)
  unfolding draw_name_prompt
  draw_name_prompt-Returns area title value description =
      chunk-then IsDrawn _ _ 0 _ (omega arith)
        (λ r. chunk-then IsDrawn _ _ 2 _ (omega arith) (λ s. tt))

  module _ {Input : Type 0} (kit : Toolkit Input) where
    value_text-Returns :
        (kind : FieldKind) (state : FieldEditState Input)
        → Fits kind state
        → Returns (λ text. Unit) (value_text kit state)
    unfolding value_text
    value_text-Returns kind (FieldEditState.text input) h = tt
    value_text-Returns kind (FieldEditState.string_list input) h = tt
    value_text-Returns kind (FieldEditState.bool b) h = tt
    value_text-Returns kind (FieldEditState.operator_list ops) h = tt
    value_text-Returns (FieldKind.enum options) (FieldEditState.enum options' selected) h =
        let (text, e) = get_elem?_of_lt options' selected h.1 in rw e tt
    value_text-Returns FieldKind.str (FieldEditState.enum options' selected) h = absurd h
    value_text-Returns FieldKind.bool (FieldEditState.enum options' selected) h = absurd h
    value_text-Returns FieldKind.duration (FieldEditState.enum options' selected) h = absurd h
    value_text-Returns FieldKind.string_list (FieldEditState.enum options' selected) h = absurd h
    value_text-Returns FieldKind.operator_list (FieldEditState.enum options' selected) h = absurd h

    draw_fields-Returns :
        (rows : List Rect) (focused i : ℕ) (specs : List FieldSpec)
        (states : List (FieldEditState Input))
        → AllFit specs states
        → Returns IsDrawn (draw_fields kit rows focused i specs states)
    unfolding draw_fields
    draw_fields-Returns rows focused i [] states h = tt
    draw_fields-Returns rows focused i (spec ∷ specs) [] h = tt
    draw_fields-Returns rows focused i (spec ∷ specs) (state ∷ states) h =
        Returns->>= (λ text. Unit) IsDrawn (value_text kit state) _
          (value_text-Returns spec.kind state h.0)
          (λ text g.
            Returns->>= IsDrawn IsDrawn (draw_fields kit rows focused (i + 1) specs states) _
              (draw_fields-Returns rows focused (i + 1) specs states h.1) (λ rest g'. tt))

    -- The layout of a form.
    abbrev form_constraints : String → FormState Input → List Constraint
    form_constraints description form =
        Constraint.length (if is_blank description then 0 else 2)
        ∷ Constraint.length (rows_u16 (length form.fields))
        ∷ Constraint.length 1
        ∷ Constraint.min 2
        ∷ []

    draw_form-Returns :
        (area : Rect) (title description : String) (form : FormState Input)
        → IsWellFormed form
        → Returns IsDrawn (draw_form kit canvas area title description form)
    unfolding draw_form
    draw_form-Returns area title description form w =
        Returns->>= IsDrawn IsDrawn
          (draw_description description canvas (
            canvas.split (form_constraints description form)
              (canvas.inner (titled (form_title title)) area)))
          _
          (guarded IsDrawn (is_blank description) (ret []) _ tt
            (chunk-then IsDrawn (form_constraints description form) _ 0 _ (omega arith) (λ r. tt)))
          (λ described g.
            chunk-then IsDrawn (form_constraints description form) _ 1 _ (omega arith) (λ s.
              chunk-then IsDrawn (form_constraints description form) _ 3 _ (omega arith) (λ t.
                Returns->>= IsDrawn IsDrawn
                  (draw_fields kit _ form.focused 0 form.fields_spec form.fields) _
                  (draw_fields-Returns _ form.focused 0 form.fields_spec form.fields w.fit)
                  (λ fields g. tt))))

  module _ {Input : Type 0} (kit : Toolkit Input) (platform : Platform) where
    draw_screen-Returns :
        (area : Rect) (app : App Input) (screen : Screen Input)
        → IsSafe screen
        → Returns IsDrawn (draw_screen kit canvas platform area app screen)
    unfolding draw_screen draw_pick_type draw_operator_pick_type draw_template_browse draw_type_list
    draw_screen-Returns area app (top_level tab selected) s =
        draw_top_level-Returns area app tab selected
    draw_screen-Returns area app (pick_type category selected) s = draw_described-Returns area _ _ _
    draw_screen-Returns area app (name_new_component category type_name input) s =
        draw_name_prompt-Returns area _ _ _
    draw_screen-Returns area app (name_new_pipeline input) s = draw_name_prompt-Returns area _ _ _
    draw_screen-Returns area app (edit_component category id form) s =
        draw_form-Returns kit area _ _ form s
    draw_screen-Returns area app (edit_pipeline id form) s =
        draw_form-Returns kit area ("editing pipeline " +++ id) pipeline_description form s
    draw_screen-Returns area app (confirm_remove category id blocking) s = tt
    draw_screen-Returns area app (operator_list category id form selected) s = tt
    draw_screen-Returns area app (operator_pick_type category id form selected) s =
        draw_described-Returns area _ _ _
    draw_screen-Returns area app (operator_edit category id form index op_form) s =
        draw_form-Returns kit area _ _ op_form s.1
    draw_screen-Returns area app (template_browse selected) s = draw_described-Returns area _ _ _
    draw_screen-Returns area app (name_template_receiver template_key input) s =
        draw_name_prompt-Returns area _ _ _
    draw_screen-Returns area app (edit_template_params template_key id form) s =
        draw_form-Returns kit area _ _ form s.2
    draw_screen-Returns area app (review_template_receiver template_key id params receiver) s = tt

    -- On a safe screen, and where a split has a rectangle for each constraint, the drawing does not
    -- panic: every rectangle and every selected option that it takes is there.
    pub draw-Returns :
        (app : App Input) → IsSafe app.screen → Returns IsDrawn (draw kit canvas platform app)
    unfolding draw
    draw-Returns app s = chunk-then IsDrawn _ _ 0 _ (omega arith) (λ main.
        chunk-then IsDrawn _ _ 1 _ (omega arith) (λ status.
          Returns->>= IsDrawn IsDrawn
            (if app.show_help
              then ret (draw_help main)
              else draw_screen kit canvas platform main app app.screen)
            _
            (guarded IsDrawn app.show_help (ret (draw_help main)) _ tt
              (draw_screen-Returns main app app.screen s))
            (λ shown h. tt)))
