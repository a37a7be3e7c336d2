-- ===== src/Editor/Selections/Screens.antt =====
-- The selections under the keys of every screen but the top-level one (`handle_key` of crates/collector/src/editor/app.rs).
use securitygingercia.Prelude.{
  Option, ℕ, String, false, none, some, chosen, expect, find, is_blank, ◌||◌, ◌&&◌, ◌>>=◌, Run, ret,
  code,
}
use securitygingercia.Json.{Value, end, contains_key}
use securitygingercia.Keys.{Toolkit, KeyEvent, KeyCode, is_char}
use securitygingercia.Schema.Spec.{ComponentCategory}
use securitygingercia.Schema.Types.{types_for, is_named, minimal_value}
use securitygingercia.Templates.Registry.{find as find_template}
use securitygingercia.Doc.{EditorDoc}
use securitygingercia.Doc.Save.{Disk}
use securitygingercia.Form
use securitygingercia.Form.{
  focused_kind, FormState, FormOutcome, continue, cancel, submit, on_key as form_on_key, to_value,
  operators,
}
use securitygingercia.Editor.State.{
  App, Screen, TopTab, top_level, name_new_component, name_new_pipeline, edit_component,
  edit_pipeline, confirm_remove, pick_type, operator_list, operator_pick_type, operator_edit,
  template_browse, name_template_receiver, edit_template_params, review_template_receiver,
  ids_for_tab, map_for, pipeline_fields,
}
use securitygingercia.Editor.Handle.{
  name_of, name_component, confirm_component, name_pipeline, confirm_pipeline, component_key,
  component_outcome, pipeline_outcome, confirm_key, name_template, confirm_template, params_outcome,
  review_key, handle_screen, is_enter, drills_in,
}
use securitygingercia.Editor.Changes.{IfReturns, IfReturns->>=, either}
use securitygingercia.Editor.Safety.{IsSafe}
use securitygingercia.Editor.Selections.{
  handle_operator_pick_type, handle_operator_list, IsWithin, InRange, NextIsInRange, first-IsWithin,
  pick_type-IsInRange, template_browse-IsInRange, operator_list-IsInRange,
  operator_pick_type-IsInRange, operator_outcome-IsInRange,
}

module _ {Input : Type 0} (kit : Toolkit Input) where
  pub top-IsInRange : (doc : EditorDoc) (tab : TopTab) → IsWithin 0 (ids_for_tab tab doc)
  top-IsInRange doc tab = first-IsWithin (ids_for_tab tab doc)

  then_screen :
      (app : App Input) (m : Run (Screen Input))
      → IfReturns (InRange app.doc) m
      → IfReturns (NextIsInRange kit) (m >>= λ screen. ret (app, screen))
  then_screen app (Run.ret screen) h = h
  then_screen app Run.panic h = tt

  pub then_left :
      (app : App Input) (disk : Disk) (m : Run (Screen Input))
      → IfReturns (InRange app.doc) m
      → IfReturns
          (λ (left : App Input × Screen Input × Disk). InRange left.0.doc left.1)
          (m >>= λ screen. ret (app, screen, disk))
  then_left app disk (Run.ret screen) h = h
  then_left app disk Run.panic h = tt

  pub with_disk :
      (disk : Disk) (m : Run (App Input × Screen Input))
      → IfReturns (NextIsInRange kit) m
      → IfReturns
          (λ (left : App Input × Screen Input × Disk). InRange left.0.doc left.1)
          (m >>= (λ (app', screen'). ret (app', screen', disk)))
  with_disk disk (Run.ret next) h = h
  with_disk disk Run.panic h = tt

  moved :
      (doc : EditorDoc) (c : ComponentCategory) (id : String) (form : FormState Input)
      (index : Option ℕ) (op_form op_form' : FormState Input)
      → InRange doc (operator_edit c id form index op_form)
      → InRange doc (operator_edit c id form index op_form')
  moved doc c id form none op_form op_form' h = tt
  moved doc c id form (some i) op_form op_form' h = h

  name_component-IsInRange :
      (c : ComponentCategory) (type_name : String) (input : Input) (key : KeyEvent) (code : KeyCode)
      (app : App Input)
      → IfReturns (NextIsInRange kit) (name_component kit c type_name input key code app)
  unfolding name_component confirm_component
  name_component-IsInRange c type_name input key KeyCode.esc app = top-IsInRange app.doc _
  name_component-IsInRange c type_name input key KeyCode.enter app =
      either (NextIsInRange kit)
        (is_blank (name_of kit input) || contains_key (name_of kit input) (map_for c app.doc)) _ _
        tt
        (IfReturns->>= (NextIsInRange kit) (expect (find (is_named type_name) (types_for c))) _
          (λ spec.
            IfReturns->>= (NextIsInRange kit)
              (Form.new kit (some type_name) false spec.fields (minimal_value spec)) _
              (λ form. tt)))
  name_component-IsInRange c type_name input key _ app = tt

  name_pipeline-IsInRange :
      (input : Input) (key : KeyEvent) (code : KeyCode) (app : App Input)
      → IfReturns (NextIsInRange kit) (name_pipeline kit input key code app)
  unfolding name_pipeline confirm_pipeline
  name_pipeline-IsInRange input key KeyCode.esc app = top-IsInRange app.doc _
  name_pipeline-IsInRange input key KeyCode.enter app =
      either (NextIsInRange kit)
        (is_blank (name_of kit input) || contains_key (name_of kit input) app.doc.pipelines) _ _ tt
        (IfReturns->>= (NextIsInRange kit)
          (Form.new kit none false pipeline_fields (Value.object end)) _ (λ form. tt))
  name_pipeline-IsInRange input key _ app = tt

  component_outcome-IsInRange :
      (c : ComponentCategory) (id : String) (app : App Input) (r : FormState Input × FormOutcome)
      → IfReturns (NextIsInRange kit) (component_outcome kit c id app r)
  unfolding component_outcome
  component_outcome-IsInRange c id app (form, continue) = tt
  component_outcome-IsInRange c id app (form, cancel) = top-IsInRange app.doc _
  component_outcome-IsInRange c id app (form, submit) =
      IfReturns->>= (NextIsInRange kit) (to_value kit form) _ (λ v. top-IsInRange _ _)

  component_key-IsInRange :
      (c : ComponentCategory) (id : String) (form : FormState Input) (key : KeyEvent)
      (app : App Input)
      → IfReturns (NextIsInRange kit) (component_key kit c id form key app)
  unfolding component_key
  component_key-IsInRange c id form key app =
      either (NextIsInRange kit) (is_enter kit key.code && drills_in kit (focused_kind form))
        (ret (app, operator_list c id form 0)) _ (first-IsWithin (operators form))
        (IfReturns->>= (NextIsInRange kit) (form_on_key kit key form) _
          (component_outcome-IsInRange c id app))

  pipeline_outcome-IsInRange :
      (id : String) (app : App Input) (r : FormState Input × FormOutcome)
      → IfReturns (NextIsInRange kit) (pipeline_outcome kit id app r)
  unfolding pipeline_outcome
  pipeline_outcome-IsInRange id app (form, continue) = tt
  pipeline_outcome-IsInRange id app (form, cancel) = top-IsInRange app.doc _
  pipeline_outcome-IsInRange id app (form, submit) =
      IfReturns->>= (NextIsInRange kit) (to_value kit form) _ (λ v. top-IsInRange _ _)

  confirm_key-IsInRange :
      (c : ComponentCategory) (id : String) (code : KeyCode) (app : App Input)
      → (NextIsInRange kit) (confirm_key kit c id code app)
  unfolding confirm_key
  confirm_key-IsInRange c id code app =
      chosen (NextIsInRange kit) (is_char b'y' code) _ _ (top-IsInRange _ _) (top-IsInRange _ _)

  name_template-IsInRange :
      (template_key : String) (input : Input) (key : KeyEvent) (code : KeyCode) (app : App Input)
      → IfReturns (NextIsInRange kit) (name_template kit template_key input key code app)
  unfolding name_template confirm_template
  name_template-IsInRange template_key input key KeyCode.esc app = top-IsInRange app.doc _
  name_template-IsInRange template_key input key KeyCode.enter app =
      either (NextIsInRange kit)
        (is_blank (name_of kit input) || contains_key (name_of kit input) app.doc.receivers) _ _ tt
        (IfReturns->>= (NextIsInRange kit) (expect (find_template template_key)) _ (λ t.
          IfReturns->>= (NextIsInRange kit) (Form.new kit none false t.params (Value.object end)) _
            (λ form. tt)))
  name_template-IsInRange template_key input key _ app = tt

  params_outcome-IsInRange :
      (template_key : String) (id : String) (app : App Input) (r : FormState Input × FormOutcome)
      → IfReturns (NextIsInRange kit) (params_outcome kit template_key id app r)
  unfolding params_outcome
  params_outcome-IsInRange template_key id app (form, continue) = tt
  params_outcome-IsInRange template_key id app (form, cancel) = top-IsInRange app.doc _
  params_outcome-IsInRange template_key id app (form, submit) =
      IfReturns->>= (NextIsInRange kit) (expect (find_template template_key)) _
        (λ t. IfReturns->>= (NextIsInRange kit) (to_value kit form) _ (λ v. tt))

  review_key-IsInRange :
      (template_key : String) (id : String) (params receiver : Value) (code : KeyCode)
      (app : App Input)
      → IfReturns (NextIsInRange kit) (review_key kit template_key id params receiver code app)
  unfolding review_key
  review_key-IsInRange template_key id params receiver KeyCode.enter app = top-IsInRange _ _
  review_key-IsInRange template_key id params receiver KeyCode.esc app =
      IfReturns->>= (NextIsInRange kit) (expect (find_template template_key)) _ (λ t.
        IfReturns->>= (NextIsInRange kit) (Form.new kit none false t.params params) _ (λ form. tt))
  review_key-IsInRange template_key id params receiver _ app = tt

  pub handle_screen-IsInRange :
      (screen : Screen Input) (key : KeyEvent) (app : App Input)
      → IsSafe screen
      → InRange app.doc screen
      → IfReturns (NextIsInRange kit) (handle_screen kit screen key app)
  unfolding handle_screen
  handle_screen-IsInRange (top_level tab selected) key app s h = h
  handle_screen-IsInRange (pick_type c selected) key app s h =
      pick_type-IsInRange kit app.doc c selected key.code h
  handle_screen-IsInRange (name_new_component c type_name input) key app s h =
      name_component-IsInRange c type_name input key key.code app
  handle_screen-IsInRange (name_new_pipeline input) key app s h =
      name_pipeline-IsInRange input key key.code app
  handle_screen-IsInRange (edit_component c id form) key app s h =
      component_key-IsInRange c id form key app
  handle_screen-IsInRange (edit_pipeline id form) key app s h =
      IfReturns->>= (NextIsInRange kit) (form_on_key kit key form) _
        (pipeline_outcome-IsInRange id app)
  handle_screen-IsInRange (confirm_remove c id blocking) key app s h =
      confirm_key-IsInRange c id key.code app
  handle_screen-IsInRange (operator_list c id form selected) key app s h =
      then_screen app (handle_operator_list kit c id form selected key.code)
        (operator_list-IsInRange kit app.doc c id form selected key.code h)
  handle_screen-IsInRange (operator_pick_type c id form selected) key app s h =
      then_screen app (handle_operator_pick_type kit c id form selected key.code)
        (operator_pick_type-IsInRange kit app.doc c id form selected key.code h)
  handle_screen-IsInRange (operator_edit c id form index op_form) key app s h =
      IfReturns->>= (NextIsInRange kit) (form_on_key kit key op_form) _ (λ r.
        operator_outcome-IsInRange kit c id form index app r s.0
          (moved app.doc c id form index op_form r.0 h))
  handle_screen-IsInRange (template_browse selected) key app s h =
      template_browse-IsInRange kit app.doc selected key.code h
  handle_screen-IsInRange (name_template_receiver template_key input) key app s h =
      name_template-IsInRange template_key input key key.code app
  handle_screen-IsInRange (edit_template_params template_key id form) key app s h =
      IfReturns->>= (NextIsInRange kit) (form_on_key kit key form) _
        (params_outcome-IsInRange template_key id app)
  handle_screen-IsInRange (review_template_receiver template_key id params receiver) key app s h =
      review_key-IsInRange template_key id params receiver key.code app
