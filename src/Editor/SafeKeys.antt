-- ===== src/Editor/SafeKeys.antt =====
-- Panics and safe screens: the keys of each screen (`handle_key` and `on_key` of
-- crates/collector/src/editor/app.rs).
use securitygingercia.Editor.Lists.{handle_operator_pick_type, handle_operator_list}
use securitygingercia.Form.Operators.{set_operators-IsWellFormed}
use securitygingercia.Templates.Params.{find-IsSound}
use securitygingercia.Schema.Types.{types_for, minimal_value}
use securitygingercia.Templates.Spec.{SourceTemplate}
use securitygingercia.Form.Safety.{IsWellFormed}
use securitygingercia.Prelude.{
  ret, All-find, Returns->>=, if◌then◌else◌, Bool-cases, is_blank, ℕ, true, Returns, String, Run,
  Bool, ◌≡◌, Option, split,
}
use securitygingercia.Json.{Value}
use securitygingercia.Schema.Spec.{ComponentCategory}
use securitygingercia.Form.{to_value, FormOutcome, FormState}
use securitygingercia.Editor.State.{
  name_template_receiver, name_new_component, Screen, App, pipeline_fields,
}
use securitygingercia.Editor.Handle.{
  is_enter, drills_in, name_template, component_key, confirm_template, pipeline_key, params_outcome,
  handle_screen, operator_outcome, name_pipeline, confirm_key, review_key, confirm_component,
  pipeline_outcome, confirm_pipeline, component_outcome, name_component,
}
use securitygingercia.Keys.{is_char, KeyCode, KeyEvent, Toolkit}
use securitygingercia.Form.Registered.{types_for-IsSound, fields-IsSound, IsSound, is_sound}
use securitygingercia.Prelude.{
  true, false, refl, none, some, inl, inr, if◌then◌else◌, ◌||◌, ◌&&◌, ◌≡◌, ◌>>=◌,
}
use securitygingercia.Form.{
  on_key as form_on_key, to_value, FormState, FormOutcome, continue, cancel, submit, focused_kind,
}
use securitygingercia.Form.Keeping.{on_key-IsWellFormed, StaysWellFormed}
use securitygingercia.Form.Safety.{IsWellFormed}
use securitygingercia.Form.Writing.{to_value-Returns}
use securitygingercia.Templates.Registry.{find as find_template}
use securitygingercia.Templates.Spec.{SourceTemplate}
use securitygingercia.Json.{Value, end, contains_key}
use securitygingercia.Editor.State.{
  App, Screen, top_level, pick_type, name_new_component, name_new_pipeline, edit_component,
  edit_pipeline, confirm_remove, operator_list, operator_pick_type, operator_edit, template_browse,
  name_template_receiver, edit_template_params, review_template_receiver, map_for, pipeline_fields,
}
use securitygingercia.Editor.Handle.{confirm_component}
use securitygingercia.Editor.Safety.{
  IsSafe, new-Returns, template_browse-IsSafe, pick_type-IsSafe, operator_list-IsSafe,
  operator_pick_type-IsSafe,
}

pipeline_fields_check : is_sound pipeline_fields ≡ true
unfolding is_sound pipeline_fields split
pipeline_fields_check = refl

pub pipeline_fields-IsSound : IsSound pipeline_fields
pipeline_fields-IsSound = fields-IsSound pipeline_fields pipeline_fields_check

pub guarded :
    {A : Type 0} (P : A → Type 0) (b : Bool) (m n : Run A)
    → Returns P m
    → Returns P n
    → Returns P (if b then m else n)
guarded P true m n h k = h
guarded P false m n h k = k

module _ {Input : Type 0} (kit : Toolkit Input) where
  -- The next screen is safe.
  abbrev pub NextIsSafe : App Input × Screen Input → Type 0
  NextIsSafe (app, screen) = IsSafe screen

  abbrev FormIsWellFormed : FormState Input × FormOutcome → Type 0
  FormIsWellFormed (form, outcome) = IsWellFormed form

  form_key-Returns :
      {B : Type 0} (Q : B → Type 0) (key : KeyEvent) (form : FormState Input)
      (f : FormState Input × FormOutcome → Run B)
      → IsWellFormed form
      → ((r : FormState Input × FormOutcome) → FormIsWellFormed r → Returns Q (f r))
      → Returns Q (form_on_key kit key form >>= f)
  form_key-Returns Q key form f w k =
      Returns->>= (StaysWellFormed kit form) Q (form_on_key kit key form) f
        (on_key-IsWellFormed kit key form w) (λ r h. k r h.0)

  to_value-then :
      {B : Type 0} (Q : B → Type 0) (form : FormState Input) (f : Value → Run B)
      → IsWellFormed form
      → ((v : Value) → Returns Q (f v))
      → Returns Q (to_value kit form >>= f)
  to_value-then Q form f w k =
      Returns->>= (λ _. Unit) Q (to_value kit form) f (to_value-Returns kit form w) (λ v _. k v)

  confirm_component-IsSafe :
      (c : ComponentCategory) (type_name : String) (input : Input) (id : String) (app : App Input)
      → IsSafe (name_new_component c type_name input)
      → Returns NextIsSafe (confirm_component kit c type_name input id app)
  unfolding confirm_component
  confirm_component-IsSafe c type_name input id app (spec, e) =
      guarded NextIsSafe (is_blank id || contains_key id (map_for c app.doc)) _ _ (spec, e)
        (rw e (
          new-Returns kit NextIsSafe (some type_name) false spec.fields (minimal_value spec) _
            (All-find (λ s. IsSound s.fields) _ (types_for c) spec (types_for-IsSound c) e).editable
            (λ form w. w)))

  name_component-IsSafe :
      (c : ComponentCategory) (type_name : String) (input : Input) (key : KeyEvent) (code : KeyCode)
      (app : App Input)
      → IsSafe (name_new_component c type_name input)
      → Returns NextIsSafe (name_component kit c type_name input key code app)
  unfolding name_component
  name_component-IsSafe c type_name input key KeyCode.esc app s = tt
  name_component-IsSafe c type_name input key KeyCode.enter app s =
      confirm_component-IsSafe c type_name input _ app s
  name_component-IsSafe c type_name input key _ app s = s

  confirm_pipeline-IsSafe :
      (input : Input) (id : String) (app : App Input)
      → Returns NextIsSafe (confirm_pipeline kit input id app)
  unfolding confirm_pipeline
  confirm_pipeline-IsSafe input id app =
      guarded NextIsSafe (is_blank id || contains_key id app.doc.pipelines) _ _ tt (
        new-Returns kit NextIsSafe none false pipeline_fields (Value.object end) _
          pipeline_fields-IsSound.editable (λ form w. w))

  name_pipeline-IsSafe :
      (input : Input) (key : KeyEvent) (code : KeyCode) (app : App Input)
      → Returns NextIsSafe (name_pipeline kit input key code app)
  unfolding name_pipeline
  name_pipeline-IsSafe input key KeyCode.esc app = tt
  name_pipeline-IsSafe input key KeyCode.enter app = confirm_pipeline-IsSafe input _ app
  name_pipeline-IsSafe input key _ app = tt

  component_outcome-IsSafe :
      (c : ComponentCategory) (id : String) (app : App Input) (r : FormState Input × FormOutcome)
      → FormIsWellFormed r
      → Returns NextIsSafe (component_outcome kit c id app r)
  unfolding component_outcome
  component_outcome-IsSafe c id app (form, continue) w = w
  component_outcome-IsSafe c id app (form, cancel) w = tt
  component_outcome-IsSafe c id app (form, submit) w = to_value-then NextIsSafe form _ w (λ v. tt)

  component_key-IsSafe :
      (c : ComponentCategory) (id : String) (form : FormState Input) (key : KeyEvent)
      (app : App Input)
      → IsWellFormed form
      → Returns NextIsSafe (component_key kit c id form key app)
  unfolding component_key
  component_key-IsSafe c id form key app w =
      guarded NextIsSafe (is_enter kit key.code && drills_in kit (focused_kind form))
        (ret (app, operator_list c id form 0)) _ w
        (form_key-Returns NextIsSafe key form _ w (component_outcome-IsSafe c id app))

  pipeline_outcome-IsSafe :
      (id : String) (app : App Input) (r : FormState Input × FormOutcome)
      → FormIsWellFormed r
      → Returns NextIsSafe (pipeline_outcome kit id app r)
  unfolding pipeline_outcome
  pipeline_outcome-IsSafe id app (form, continue) w = w
  pipeline_outcome-IsSafe id app (form, cancel) w = tt
  pipeline_outcome-IsSafe id app (form, submit) w = to_value-then NextIsSafe form _ w (λ v. tt)

  pipeline_key-IsSafe :
      (id : String) (form : FormState Input) (key : KeyEvent) (app : App Input)
      → IsWellFormed form
      → Returns NextIsSafe (pipeline_key kit id form key app)
  unfolding pipeline_key
  pipeline_key-IsSafe id form key app w =
      form_key-Returns NextIsSafe key form _ w (pipeline_outcome-IsSafe id app)

  confirm_key-IsSafe :
      (c : ComponentCategory) (id : String) (code : KeyCode) (app : App Input)
      → NextIsSafe (confirm_key kit c id code app)
  unfolding confirm_key
  confirm_key-IsSafe c id code app = elim (Bool-cases (is_char b'y' code)) [
    | inl e ↦ rw (e, confirm_key) tt
    | inr e ↦ rw (e, confirm_key) tt
  ]

  operator_outcome-IsSafe :
      (c : ComponentCategory) (id : String) (form : FormState Input) (index : Option ℕ)
      (app : App Input) (r : FormState Input × FormOutcome)
      → IsWellFormed form
      → FormIsWellFormed r
      → Returns NextIsSafe (operator_outcome kit c id form index app r)
  unfolding operator_outcome
  operator_outcome-IsSafe c id form index app (op_form, continue) w v = (w, v)
  operator_outcome-IsSafe c id form index app (op_form, cancel) w v = w
  operator_outcome-IsSafe c id form index app (op_form, submit) w v =
      to_value-then NextIsSafe op_form _ v (λ value. (set_operators-IsWellFormed _ form w).0)

  confirm_template-IsSafe :
      (template_key : String) (input : Input) (id : String) (app : App Input)
      → IsSafe (name_template_receiver template_key input)
      → Returns NextIsSafe (confirm_template kit template_key input id app)
  unfolding confirm_template
  confirm_template-IsSafe template_key input id app (t, e) =
      guarded NextIsSafe (is_blank id || contains_key id app.doc.receivers) _ _ (t, e)
        (rw e (
          new-Returns kit NextIsSafe none false t.params (Value.object end) _
            (find-IsSound template_key t e).editable (λ form w. (t, e, w))))

  name_template-IsSafe :
      (template_key : String) (input : Input) (key : KeyEvent) (code : KeyCode) (app : App Input)
      → IsSafe (name_template_receiver template_key input)
      → Returns NextIsSafe (name_template kit template_key input key code app)
  unfolding name_template
  name_template-IsSafe template_key input key KeyCode.esc app s = tt
  name_template-IsSafe template_key input key KeyCode.enter app s =
      confirm_template-IsSafe template_key input _ app s
  name_template-IsSafe template_key input key _ app s = s

  params_outcome-IsSafe :
      (template_key : String) (id : String) (app : App Input) (r : FormState Input × FormOutcome)
      → ((t : SourceTemplate) × (find_template template_key ≡ some t))
      → FormIsWellFormed r
      → Returns NextIsSafe (params_outcome kit template_key id app r)
  unfolding params_outcome
  params_outcome-IsSafe template_key id app (form, continue) (t, e) w = (t, e, w)
  params_outcome-IsSafe template_key id app (form, cancel) (t, e) w = tt
  params_outcome-IsSafe template_key id app (form, submit) (t, e) w =
      rw e (to_value-then NextIsSafe form _ w (λ v. (t, e)))

  review_key-IsSafe :
      (template_key : String) (id : String) (params receiver : Value) (code : KeyCode)
      (app : App Input)
      → ((t : SourceTemplate) × (find_template template_key ≡ some t))
      → Returns NextIsSafe (review_key kit template_key id params receiver code app)
  unfolding review_key
  review_key-IsSafe template_key id params receiver KeyCode.enter app s = tt
  review_key-IsSafe template_key id params receiver KeyCode.esc app (t, e) = rw e (
      new-Returns kit NextIsSafe none false t.params params _
        (find-IsSound template_key t e).editable (λ form w. (t, e, w)))
  review_key-IsSafe template_key id params receiver _ app s = s

  -- A key on any screen but the top-level one.
  pub handle_screen-IsSafe :
      (screen : Screen Input) (key : KeyEvent) (app : App Input)
      → IsSafe screen
      → Returns NextIsSafe (handle_screen kit screen key app)
  unfolding handle_screen
  handle_screen-IsSafe (top_level tab selected) key app s = tt
  handle_screen-IsSafe (pick_type c selected) key app s = pick_type-IsSafe kit c selected key.code
  handle_screen-IsSafe (name_new_component c type_name input) key app s =
      name_component-IsSafe c type_name input key key.code app s
  handle_screen-IsSafe (name_new_pipeline input) key app s =
      name_pipeline-IsSafe input key key.code app
  handle_screen-IsSafe (edit_component c id form) key app s =
      component_key-IsSafe c id form key app s
  handle_screen-IsSafe (edit_pipeline id form) key app s = pipeline_key-IsSafe id form key app s
  handle_screen-IsSafe (confirm_remove c id blocking) key app s =
      confirm_key-IsSafe c id key.code app
  handle_screen-IsSafe (operator_list c id form selected) key app s =
      Returns->>= IsSafe NextIsSafe (handle_operator_list kit c id form selected key.code) _
        (operator_list-IsSafe kit c id form selected key.code s) (λ screen h. h)
  handle_screen-IsSafe (operator_pick_type c id form selected) key app s =
      Returns->>= IsSafe NextIsSafe (handle_operator_pick_type kit c id form selected key.code) _
        (operator_pick_type-IsSafe kit c id form selected key.code s) (λ screen h. h)
  handle_screen-IsSafe (operator_edit c id form index op_form) key app (w, v) =
      form_key-Returns NextIsSafe key op_form _ v
        (λ r h. operator_outcome-IsSafe c id form index app r w h)
  handle_screen-IsSafe (template_browse selected) key app s =
      template_browse-IsSafe kit selected key.code
  handle_screen-IsSafe (name_template_receiver template_key input) key app s =
      name_template-IsSafe template_key input key key.code app s
  handle_screen-IsSafe (edit_template_params template_key id form) key app (t, e, w) =
      form_key-Returns NextIsSafe key form _ w
        (λ r h. params_outcome-IsSafe template_key id app r (t, e) h)
  handle_screen-IsSafe (review_template_receiver template_key id params receiver) key app s =
      review_key-IsSafe template_key id params receiver key.code app s
