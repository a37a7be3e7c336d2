-- ===== src/Editor/Safety.antt =====
-- Panics and safe screens: what a screen has to hold, and the screens that are lists
-- (`handle_key` of crates/collector/src/editor/app.rs).
use securitygingercia.Prelude.{
  code, eqb, Bool-cases, ◌>>=◌, ℕ, String, Bool, true, Option, some, List, ◌≡◌, ◌==◌, eq_refl, find,
  get_elem?, All-find, All-get_elem?, find_of_get_elem?, Run, Returns, Returns->>=, Option-cases,
  inl, inr, ltb, length,
}
use securitygingercia.Json.{get_key, Value}
use securitygingercia.Keys.{KeyCode, Toolkit}
use securitygingercia.Schema.Spec.{ComponentCategory, ComponentTypeSpec, FieldSpec}
use securitygingercia.Schema.Types.{
  types_for, is_named, operator_types, operator_type, minimal_value,
}
use securitygingercia.Form
use securitygingercia.Form.{FormState, operators, set_operators, advance_focus}
use securitygingercia.Form.Safety.{IsWellFormed, AreEditable, new-IsWellFormed}
use securitygingercia.Form.Operators.{set_operators-IsWellFormed, advance_focus-IsWellFormed}
use securitygingercia.Form.Registered.{IsSound, types_for-IsSound, operator_types-IsSound}
use securitygingercia.Templates.Spec.{SourceTemplate, text_or}
use securitygingercia.Templates.Registry.{source_templates, find as find_template}
use securitygingercia.Editor.State.{
  Screen, name_new_component, edit_component, edit_pipeline, operator_list, operator_pick_type,
  operator_edit, name_template_receiver, edit_template_params, review_template_receiver,
}
use securitygingercia.Editor.Lists.{
  handle_pick_type, handle_operator_list, handle_operator_pick_type, handle_template_browse,
  open_operator, delete_operator,
}

module _ {Input : Type 0} where
  -- The forms are well-formed, and the types and templates that are named are registered.
  abbrev pub IsSafe : Screen Input → Type 0
  IsSafe (name_new_component c type_name input) =
      (spec : ComponentTypeSpec) × (find (is_named type_name) (types_for c) ≡ some spec)
  IsSafe (edit_component c id form) = IsWellFormed form
  IsSafe (edit_pipeline id form) = IsWellFormed form
  IsSafe (operator_list c id form selected) = IsWellFormed form
  IsSafe (operator_pick_type c id form selected) = IsWellFormed form
  IsSafe (operator_edit c id form index op_form) = IsWellFormed form × IsWellFormed op_form
  IsSafe (name_template_receiver template_key input) =
      (t : SourceTemplate) × (find_template template_key ≡ some t)
  IsSafe (edit_template_params template_key id form) =
      (t : SourceTemplate) × (find_template template_key ≡ some t) × IsWellFormed form
  IsSafe (review_template_receiver template_key id params receiver) =
      (t : SourceTemplate) × (find_template template_key ≡ some t)
  IsSafe _ = Unit

module _ {Input : Type 0} (kit : Toolkit Input) where
  pub template_browse-IsSafe :
      (selected : ℕ) (code : KeyCode) → IsSafe (handle_template_browse kit selected code)
  unfolding handle_template_browse find_template
  template_browse-IsSafe selected KeyCode.enter =
      elim (Option-cases (get_elem? source_templates selected)) [
        | inl e ↦ rw (e, handle_template_browse) tt
        | inr (t, e) ↦
            rw (e, handle_template_browse)
              (find_of_get_elem? (λ s. s.key == t.key) source_templates selected t e
                (eq_refl t.key))
      ]
  template_browse-IsSafe selected _ = tt

  pub pick_type-IsSafe :
      (c : ComponentCategory) (selected : ℕ) (code : KeyCode)
      → IsSafe (handle_pick_type kit c selected code)
  unfolding handle_pick_type
  pick_type-IsSafe c selected KeyCode.enter =
      elim (Option-cases (get_elem? (types_for c) selected)) [
        | inl e ↦ rw (e, handle_pick_type) tt
        | inr (s, e) ↦
            rw (e, handle_pick_type)
              (find_of_get_elem? (is_named s.type_name) (types_for c) selected s e
                (eq_refl s.type_name))
      ]
  pick_type-IsSafe c selected _ = tt

  -- A form over sound fields, and what is made of it.
  pub new-Returns :
      {B : Type 0} (Q : B → Type 0) (type_name : Option String) (write : Bool)
      (fields : List FieldSpec) (v : Value) (f : FormState Input → Run B)
      → AreEditable fields
      → ((form : FormState Input) → IsWellFormed form → Returns Q (f form))
      → Returns Q (Form.new kit type_name write fields v >>= f)
  new-Returns Q type_name write fields v f h k =
      Returns->>= (λ form. IsWellFormed form × (form.fields_spec ≡ fields)) Q
        (Form.new kit type_name write fields v) f (new-IsWellFormed kit type_name write fields v h)
        (λ form w. k form w.0)

  spec_for-AreEditable :
      (c : ComponentCategory) (p : ComponentTypeSpec → Bool) (spec : ComponentTypeSpec)
      → find p (types_for c) ≡ some spec
      → AreEditable spec.fields
  spec_for-AreEditable c p spec e =
      (All-find (λ s. IsSound s.fields) p (types_for c) spec (types_for-IsSound c) e).editable

  open_operator-IsSafe :
      (c : ComponentCategory) (id : String) (form : FormState Input) (selected : ℕ)
      → IsWellFormed form
      → Returns IsSafe (open_operator kit c id form selected)
  unfolding open_operator operator_type
  open_operator-IsSafe c id form selected w =
      elim (Option-cases (get_elem? (operators form) selected)) [
        | inl e ↦ rw (e, open_operator) w
        | inr (op, e) ↦ elim (Option-cases (operator_type (text_or "" (get_key "type" op)))) [
          | inl g ↦ rw (e, g, open_operator) w
          | inr (spec, g) ↦
              rw (e, g, open_operator)
                (new-Returns IsSafe (some spec.type_name) true spec.fields op _
                  (All-find (λ s. IsSound s.fields) _ operator_types spec operator_types-IsSound
                    g).editable
                  (λ op_form v. (w, v)))
        ]
      ]

  delete_operator-IsSafe :
      (c : ComponentCategory) (id : String) (form : FormState Input) (selected : ℕ)
      → IsWellFormed form
      → IsSafe (delete_operator kit c id form selected)
  unfolding delete_operator
  delete_operator-IsSafe c id form selected w =
      elim (Bool-cases (ltb selected (length (operators form)))) [
        | inl e ↦ rw (e, delete_operator) (set_operators-IsWellFormed _ form w).0
        | inr e ↦ rw (e, delete_operator) w
      ]

  pub operator_list-IsSafe :
      (c : ComponentCategory) (id : String) (form : FormState Input) (selected : ℕ) (code : KeyCode)
      → IsWellFormed form
      → Returns IsSafe (handle_operator_list kit c id form selected code)
  unfolding handle_operator_list
  operator_list-IsSafe c id form selected KeyCode.esc w = advance_focus-IsWellFormed form w
  operator_list-IsSafe c id form selected (KeyCode.char ch) w =
      elim (Bool-cases (eqb (code ch) b'a')) [
        | inl e ↦ rw (e, handle_operator_list) w
        | inr e ↦ elim (Bool-cases (eqb (code ch) b'd')) [
          | inl g ↦ rw (e, g, handle_operator_list) (delete_operator-IsSafe c id form selected w)
          | inr g ↦ rw (e, g, handle_operator_list) w
        ]
      ]
  operator_list-IsSafe c id form selected KeyCode.enter w =
      open_operator-IsSafe c id form selected w
  operator_list-IsSafe c id form selected KeyCode.delete w =
      delete_operator-IsSafe c id form selected w
  operator_list-IsSafe c id form selected _ w = w

  pub operator_pick_type-IsSafe :
      (c : ComponentCategory) (id : String) (form : FormState Input) (selected : ℕ) (code : KeyCode)
      → IsWellFormed form
      → Returns IsSafe (handle_operator_pick_type kit c id form selected code)
  unfolding handle_operator_pick_type
  operator_pick_type-IsSafe c id form selected KeyCode.enter w =
      elim (Option-cases (get_elem? operator_types selected)) [
        | inl e ↦ rw (e, handle_operator_pick_type) w
        | inr (spec, e) ↦
            rw (e, handle_operator_pick_type)
              (new-Returns IsSafe (some spec.type_name) true spec.fields (minimal_value spec) _
                (All-get_elem? (λ s. IsSound s.fields) operator_types selected
                  operator_types-IsSound e).editable
                (λ op_form v. (w, v)))
      ]
  operator_pick_type-IsSafe c id form selected _ w = w
