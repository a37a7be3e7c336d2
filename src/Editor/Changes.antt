-- ===== src/Editor/Changes.antt =====
-- What a key changes besides the screen: the document, the flag that says it has unsaved changes,
-- and the disk (crates/collector/src/editor/app.rs).
use securitygingercia.Schema.Types.{minimal_value, types_for, is_named}
use securitygingercia.Editor.Lists.{handle_operator_pick_type, handle_operator_list}
use securitygingercia.Schema.Spec.{ComponentCategory}
use securitygingercia.Prelude.{
  some, find, none, ℕ, Bool-cases, Option, expect, is_blank, String, Bool, ◌⊎◌, Returns, true,
  false, refl, ◌≡◌, inl, inr, ◌>>=◌, Run, ret, if◌then◌else◌, ◌||◌, ◌&&◌,
}
use securitygingercia.Form
use securitygingercia.Schema.Types.{is_named}
use securitygingercia.Templates.Registry.{find as find_template}
use securitygingercia.Editor.State.{pipeline_fields}
use securitygingercia.Form.{
  FormState, FormOutcome, continue, cancel, submit, on_key as form_on_key, to_value, focused_kind,
}
use securitygingercia.Json.{Value, end, contains_key}
use securitygingercia.Keys.{is_char, Toolkit, KeyEvent, KeyCode}
use securitygingercia.Editor.State.{pipeline_fields, App, Screen, map_for, operator_list}
use securitygingercia.Editor.Edits.{Edit, Question}
use securitygingercia.Editor.State.{with_map}
use securitygingercia.Editor.Handle.{
  confirmed, name_template, pipeline_outcome, name_pipeline, handle_screen, component_key,
  component_outcome, confirm_pipeline, name_component, review_key, operator_outcome,
  confirm_template, confirm_key, params_outcome, confirm_component, is_enter, drills_in,
}

-- Of a result, where there is one.
abbrev pub IfReturns : {A : Type 0} → (A → Type 0) → Run A → Type 0
IfReturns P (Run.ret a) = P a
IfReturns P Run.panic = Unit

pub IfReturns->>= :
    {A B : Type 0} (Q : B → Type 0) (m : Run A) (f : A → Run B)
    → ((a : A) → IfReturns Q (f a))
    → IfReturns Q (m >>= f)
IfReturns->>= Q (Run.ret a) f k = k a
IfReturns->>= Q Run.panic f k = tt

pub either :
    {A : Type 0} (P : A → Type 0) (b : Bool) (m n : Run A)
    → IfReturns P m
    → IfReturns P n
    → IfReturns P (if b then m else n)
either P true m n h k = h
either P false m n h k = k

pub refine_Returns :
    {A : Type 0} (P Q : A → Type 0) (m : Run A) → Returns P m → IfReturns Q m → Returns Q m
refine_Returns P Q (Run.ret a) h k = k
refine_Returns P Q Run.panic h k = absurd h

-- The question that a screen asks.
abbrev pub question : {Input : Type 0} → Screen Input → Question
question (Screen.confirm_remove c id blocking) = some (c, id)
question _ = none

-- The question that a key answers with `y`.
abbrev pub agreed : {Input : Type 0} → KeyEvent → Screen Input → Question
agreed key (Screen.confirm_remove c id blocking) =
    if is_char b'y' key.code then some (c, id) else none
agreed key _ = none

module _ {Input : Type 0} (kit : Toolkit Input) (asked : Question) where
  -- The document is as it was, and so is its flag; or it has been edited, and the flag says so.
  abbrev pub Kept : App Input → App Input → Type 0
  Kept app app' =
      (app'.config_path ≡ app.config_path)
      × (((app'.doc ≡ app.doc) × (app'.dirty ≡ app.dirty))
          ⊎ ((app'.dirty ≡ true) × Edit asked app.doc app'.doc))

  abbrev pub NextKeeps : App Input → App Input × Screen Input → Type 0
  NextKeeps app (app', screen) = Kept app app'

  pub as_it_was : (app : App Input) → Kept app app
  as_it_was app = (refl, inl (refl, refl))

  confirm_component-Kept :
      (c : ComponentCategory) (type_name : String) (input : Input) (id : String) (app : App Input)
      → IfReturns (NextKeeps app) (confirm_component kit c type_name input id app)
  unfolding confirm_component
  confirm_component-Kept c type_name input id app =
      either (NextKeeps app) (is_blank id || contains_key id (map_for c app.doc)) _ _
        (refl, inl (refl, refl))
        (IfReturns->>= (NextKeeps app) (expect (find (is_named type_name) (types_for c))) _ (λ spec.
          IfReturns->>= (NextKeeps app)
            (Form.new kit (some type_name) false spec.fields (minimal_value spec)) _
            (λ form. as_it_was app)))

  name_component-Kept :
      (c : ComponentCategory) (type_name : String) (input : Input) (key : KeyEvent) (code : KeyCode)
      (app : App Input)
      → IfReturns (NextKeeps app) (name_component kit c type_name input key code app)
  unfolding name_component
  name_component-Kept c type_name input key KeyCode.esc app = as_it_was app
  name_component-Kept c type_name input key KeyCode.enter app =
      confirm_component-Kept c type_name input _ app
  name_component-Kept c type_name input key _ app = as_it_was app

  confirm_pipeline-Kept :
      (input : Input) (id : String) (app : App Input)
      → IfReturns (NextKeeps app) (confirm_pipeline kit input id app)
  unfolding confirm_pipeline
  confirm_pipeline-Kept input id app =
      either (NextKeeps app) (is_blank id || contains_key id app.doc.pipelines) _ _
        (refl, inl (refl, refl))
        (IfReturns->>= (NextKeeps app) (Form.new kit none false pipeline_fields (Value.object end))
          _ (λ form. as_it_was app))

  name_pipeline-Kept :
      (input : Input) (key : KeyEvent) (code : KeyCode) (app : App Input)
      → IfReturns (NextKeeps app) (name_pipeline kit input key code app)
  unfolding name_pipeline
  name_pipeline-Kept input key KeyCode.esc app = as_it_was app
  name_pipeline-Kept input key KeyCode.enter app = confirm_pipeline-Kept input _ app
  name_pipeline-Kept input key _ app = as_it_was app

  component_outcome-Kept :
      (c : ComponentCategory) (id : String) (app : App Input) (r : FormState Input × FormOutcome)
      → IfReturns (NextKeeps app) (component_outcome kit c id app r)
  unfolding component_outcome
  component_outcome-Kept c id app (form, continue) = as_it_was app
  component_outcome-Kept c id app (form, cancel) = as_it_was app
  component_outcome-Kept c id app (form, submit) =
      IfReturns->>= (NextKeeps app) (to_value kit form) _
        (λ v. (refl, inr (refl, Edit.put c id v refl)))

  component_key-Kept :
      (c : ComponentCategory) (id : String) (form : FormState Input) (key : KeyEvent)
      (app : App Input)
      → IfReturns (NextKeeps app) (component_key kit c id form key app)
  unfolding component_key
  component_key-Kept c id form key app =
      either (NextKeeps app) (is_enter kit key.code && drills_in kit (focused_kind form))
        (ret (app, operator_list c id form 0)) _ (as_it_was app)
        (IfReturns->>= (NextKeeps app) (form_on_key kit key form) _
          (component_outcome-Kept c id app))

  pipeline_outcome-Kept :
      (id : String) (app : App Input) (r : FormState Input × FormOutcome)
      → IfReturns (NextKeeps app) (pipeline_outcome kit id app r)
  unfolding pipeline_outcome
  pipeline_outcome-Kept id app (form, continue) = as_it_was app
  pipeline_outcome-Kept id app (form, cancel) = as_it_was app
  pipeline_outcome-Kept id app (form, submit) =
      IfReturns->>= (NextKeeps app) (to_value kit form) _
        (λ v. (refl, inr (refl, Edit.put_pipeline id v refl)))

  confirm_key-Kept :
      (c : ComponentCategory) (id : String) (code : KeyCode) (app : App Input)
      → ((is_char b'y' code ≡ true) → asked ≡ some (c, id))
      → NextKeeps app (confirm_key kit c id code app)
  unfolding confirm_key confirmed
  confirm_key-Kept c id code app agrees = elim (Bool-cases (is_char b'y' code)) [
    | inl e ↦ rw (e, confirm_key) (refl, inr (refl, Edit.take_stripped c id (agrees e) refl))
    | inr e ↦ rw (e, confirm_key) (as_it_was app)
  ]

  operator_outcome-Kept :
      (c : ComponentCategory) (id : String) (form : FormState Input) (index : Option ℕ)
      (app : App Input) (r : FormState Input × FormOutcome)
      → IfReturns (NextKeeps app) (operator_outcome kit c id form index app r)
  unfolding operator_outcome
  operator_outcome-Kept c id form index app (op_form, continue) = as_it_was app
  operator_outcome-Kept c id form index app (op_form, cancel) = as_it_was app
  operator_outcome-Kept c id form index app (op_form, submit) =
      IfReturns->>= (NextKeeps app) (to_value kit op_form) _ (λ v. as_it_was app)

  confirm_template-Kept :
      (template_key : String) (input : Input) (id : String) (app : App Input)
      → IfReturns (NextKeeps app) (confirm_template kit template_key input id app)
  unfolding confirm_template
  confirm_template-Kept template_key input id app =
      either (NextKeeps app) (is_blank id || contains_key id app.doc.receivers) _ _
        (refl, inl (refl, refl))
        (IfReturns->>= (NextKeeps app) (expect (find_template template_key)) _ (λ t.
          IfReturns->>= (NextKeeps app) (Form.new kit none false t.params (Value.object end)) _
            (λ form. as_it_was app)))

  name_template-Kept :
      (template_key : String) (input : Input) (key : KeyEvent) (code : KeyCode) (app : App Input)
      → IfReturns (NextKeeps app) (name_template kit template_key input key code app)
  unfolding name_template
  name_template-Kept template_key input key KeyCode.esc app = as_it_was app
  name_template-Kept template_key input key KeyCode.enter app =
      confirm_template-Kept template_key input _ app
  name_template-Kept template_key input key _ app = as_it_was app

  params_outcome-Kept :
      (template_key : String) (id : String) (app : App Input) (r : FormState Input × FormOutcome)
      → IfReturns (NextKeeps app) (params_outcome kit template_key id app r)
  unfolding params_outcome
  params_outcome-Kept template_key id app (form, continue) = as_it_was app
  params_outcome-Kept template_key id app (form, cancel) = as_it_was app
  params_outcome-Kept template_key id app (form, submit) =
      IfReturns->>= (NextKeeps app) (expect (find_template template_key)) _
        (λ t. IfReturns->>= (NextKeeps app) (to_value kit form) _ (λ v. as_it_was app))

  review_key-Kept :
      (template_key : String) (id : String) (params receiver : Value) (code : KeyCode)
      (app : App Input)
      → IfReturns (NextKeeps app) (review_key kit template_key id params receiver code app)
  unfolding review_key with_map map_for
  review_key-Kept template_key id params receiver_value KeyCode.enter app =
      (refl, inr (refl, Edit.put ComponentCategory.receiver id receiver_value refl))
  review_key-Kept template_key id params receiver KeyCode.esc app =
      IfReturns->>= (NextKeeps app) (expect (find_template template_key)) _ (λ t.
        IfReturns->>= (NextKeeps app) (Form.new kit none false t.params params) _
          (λ form. as_it_was app))
  review_key-Kept template_key id params receiver _ app = as_it_was app

module _ {Input : Type 0} (kit : Toolkit Input) where
  pub handle_screen-Kept :
      (screen : Screen Input) (key : KeyEvent) (app : App Input)
      → IfReturns (NextKeeps kit (agreed key screen) app) (handle_screen kit screen key app)
  unfolding handle_screen
  handle_screen-Kept (Screen.name_new_component c type_name input) key app =
      name_component-Kept kit none c type_name input key key.code app
  handle_screen-Kept (Screen.name_new_pipeline input) key app =
      name_pipeline-Kept kit none input key key.code app
  handle_screen-Kept (Screen.edit_component c id form) key app =
      component_key-Kept kit none c id form key app
  handle_screen-Kept (Screen.edit_pipeline id form) key app =
      IfReturns->>= (NextKeeps kit none app) (form_on_key kit key form) _
        (pipeline_outcome-Kept kit none id app)
  handle_screen-Kept (Screen.confirm_remove c id blocking) key app =
      confirm_key-Kept kit (agreed {Input = Input} key (Screen.confirm_remove c id blocking)) c id
        key.code app (λ e. rw e refl)
  handle_screen-Kept (Screen.operator_list c id form selected) key app =
      IfReturns->>= (NextKeeps kit none app) (handle_operator_list kit c id form selected key.code)
        _ (λ screen. as_it_was kit none app)
  handle_screen-Kept (Screen.operator_pick_type c id form selected) key app =
      IfReturns->>= (NextKeeps kit none app)
        (handle_operator_pick_type kit c id form selected key.code) _
        (λ screen. as_it_was kit none app)
  handle_screen-Kept (Screen.operator_edit c id form index op_form) key app =
      IfReturns->>= (NextKeeps kit none app) (form_on_key kit key op_form) _
        (operator_outcome-Kept kit none c id form index app)
  handle_screen-Kept (Screen.name_template_receiver template_key input) key app =
      name_template-Kept kit none template_key input key key.code app
  handle_screen-Kept (Screen.edit_template_params template_key id form) key app =
      IfReturns->>= (NextKeeps kit none app) (form_on_key kit key form) _
        (params_outcome-Kept kit none template_key id app)
  handle_screen-Kept (Screen.review_template_receiver template_key id params receiver) key app =
      review_key-Kept kit none template_key id params receiver key.code app
  handle_screen-Kept (Screen.top_level tab selected) key app = as_it_was kit none app
  handle_screen-Kept (Screen.pick_type c selected) key app = as_it_was kit none app
  handle_screen-Kept (Screen.template_browse selected) key app = as_it_was kit none app
