-- ===== src/Editor/Selections.antt =====
-- The selections of the lists stay within them (`handle_key` and `on_key` of
-- crates/collector/src/editor/app.rs).
pub mod Screens
pub mod Keys
use securitygingercia.Prelude.{
  ◌≢◌, ℕ, zero, suc, ◌+◌, ◌<◌, min, max, arith, String, Bool, true, false, Option, none, some, List,
  [], ◌∷◌, ◌++◌, ◌≡◌, refl, sym, subst, length, length-append, length-set, get_elem?, set, ltb, eqb,
  chosen, Option-cases, Bool-cases, inl, inr, Run, ret, ◌>>=◌, Returns, Returns-map, if◌then◌else◌,
  code, Result, ok, err, is_blank, ◌||◌, ◌&&◌, expect, nil-or-cons, find, lt_of_get_elem?,
}
use securitygingercia.Json.{get_key, Value}
use securitygingercia.Keys.{Toolkit, KeyEvent, KeyCode, is_char}
use securitygingercia.Schema.Spec.{ComponentCategory}
use securitygingercia.Schema.Types.{minimal_value, operator_type, types_for, operator_types}
use securitygingercia.Templates.Spec.{text_or}
use securitygingercia.Templates.Registry.{source_templates}
use securitygingercia.Doc.{EditorDoc, pipelines_referencing}
use securitygingercia.Doc.Save.{Disk, Platform, Environment, EditorError, save}
use securitygingercia.Form
use securitygingercia.Form.{
  texts_of, FormState, FormOutcome, continue, cancel, submit, on_key as form_on_key, to_value,
  operators, set_operators, operator_list_index,
}
use securitygingercia.Form.Operators.{operators-set_operators}
use securitygingercia.Form.Safety.{IsWellFormed}
use securitygingercia.Editor.Common.{down, up}
use securitygingercia.Editor.State.{
  tab_for, App, Screen, TopTab, top_level, pick_type, operator_list, operator_pick_type,
  operator_edit, template_browse, ids_for_tab, default_screen, screen_accepts_help_hotkey,
}
use securitygingercia.Editor.Lists.{
  handle_pick_type, handle_operator_list, handle_operator_pick_type, handle_template_browse,
  open_operator, delete_operator,
}
use securitygingercia.Editor.Top.{
  handle_top_level, top_char, save_app, after_save, add_to, remove_selected, remove_id,
  open_selected,
}
use securitygingercia.Editor.Handle.{
  on_key, key_below, handle_key, handle_screen, placed, operator_outcome,
}
use securitygingercia.Editor.Changes.{IfReturns, IfReturns->>=, either, refine_Returns}
use securitygingercia.Editor.Safety.{IsSafe}

-- An index of a list, or 0 where the list is empty.
abbrev pub IsWithin {ℓ} : {A : Type ℓ} → ℕ → List A → Type 0
IsWithin i xs = i < max (length xs) 1

-- The selection of a screen is within its list, and the operator that is edited is one of the form.
abbrev pub InRange : {Input : Type 0} → EditorDoc → Screen Input → Type 0
InRange doc (top_level tab selected) = IsWithin selected (ids_for_tab tab doc)
InRange doc (pick_type c selected) = IsWithin selected (types_for c)
InRange doc (operator_list c id form selected) = IsWithin selected (operators form)
InRange doc (operator_pick_type c id form selected) = IsWithin selected operator_types
InRange doc (operator_edit c id form none op_form) = Unit
InRange doc (operator_edit c id form (some i) op_form) = i < length (operators form)
InRange doc (template_browse selected) = IsWithin selected source_templates
InRange doc (Screen.confirm_remove c id blocking) =
    (blocking ≡ pipelines_referencing c id doc) × (blocking ≢ [])
InRange doc _ = Unit

first-IsWithin {ℓ} : {A : Type ℓ} (xs : List A) → IsWithin 0 xs
first-IsWithin xs = omega arith

down-IsWithin {ℓ} : {A : Type ℓ} (xs : List A) (selected : ℕ) → IsWithin (down xs selected) xs
down-IsWithin [] selected = omega arith
down-IsWithin (x ∷ xs) selected = omega arith

up-IsWithin {ℓ} :
    {A : Type ℓ} (xs : List A) (selected : ℕ) → IsWithin selected xs → IsWithin (up selected) xs
up-IsWithin xs zero h = h
up-IsWithin xs (suc n) h = omega (arith, h)

module _ {Input : Type 0} where
  -- The operators after they are staged: the staged ones, or none in a form without the field.
  staged-IsWithin :
      (ops : List Value) (form : FormState Input) (selected : ℕ)
      → IsWellFormed form
      → IsWithin selected ops
      → (operator_list_index form ≡ none → selected ≡ 0)
      → IsWithin selected (operators (set_operators ops form))
  staged-IsWithin ops form selected w h k = elim (Option-cases (operator_list_index form)) [
    | inl e ↦ rw (k e) (first-IsWithin (operators (set_operators ops form)))
    | inr (i, e) ↦ rw (operators-set_operators ops form i w e) h
  ]

  no_operators : (form : FormState Input) → operator_list_index form ≡ none → operators form ≡ []
  unfolding operators
  no_operators form e = rw e refl

module _ {Input : Type 0} (kit : Toolkit Input) where
  -- The next screen is in range.
  abbrev pub NextIsInRange : App Input × Screen Input → Type 0
  NextIsInRange (app, screen) = InRange app.doc screen

  appended-IsWithin :
      (value : Value) (form : FormState Input)
      → IsWellFormed form
      → IsWithin
          (length (operators form))
          (operators (set_operators (operators form ++ value ∷ []) form))
  appended-IsWithin value form w =
      staged-IsWithin (operators form ++ value ∷ []) form (length (operators form)) w
        (omega (arith, length-append (operators form) (value ∷ [])))
        (λ e. rw (no_operators form e) refl)

  -- The place of a submitted operator.
  placed-IsWithin :
      (index : Option ℕ) (value : Value) (form : FormState Input)
      → IsWellFormed form
      → IsWithin
          (placed kit index value (operators form)).1
          (operators (set_operators (placed kit index value (operators form)).0 form))
  placed-IsWithin none value form w = appended-IsWithin value form w
  placed-IsWithin (some i) value form w = elim (Bool-cases (ltb i (length (operators form)))) [
    | inl e ↦ rw e (
        staged-IsWithin (set (operators form) i value) form i w
          (ground (arith, length-set (operators form) i value))
          (λ n. absurd (empty form i e (no_operators form n))))
    | inr e ↦ rw e (appended-IsWithin value form w)
  ]
    where
      empty :
          (form : FormState Input) (i : ℕ)
          → ltb i (length (operators form)) ≡ true
          → operators form ≡ []
          → ⊥
      empty form i e n = ground (arith, rw n at e)

  pub pick_type-IsInRange :
      (doc : EditorDoc) (c : ComponentCategory) (selected : ℕ) (code : KeyCode)
      → IsWithin selected (types_for c)
      → InRange doc (handle_pick_type kit c selected code)
  unfolding handle_pick_type
  pick_type-IsInRange doc c selected KeyCode.esc h = first-IsWithin (ids_for_tab (tab_for c) doc)
  pick_type-IsInRange doc c selected KeyCode.down h = down-IsWithin (types_for c) selected
  pick_type-IsInRange doc c selected KeyCode.up h = up-IsWithin (types_for c) selected h
  pick_type-IsInRange doc c selected KeyCode.enter h =
      elim (Option-cases (get_elem? (types_for c) selected)) [
        | inl e ↦ rw (e, handle_pick_type) h
        | inr (spec, e) ↦ rw (e, handle_pick_type) tt
      ]
  pick_type-IsInRange doc c selected _ h = h

  pub template_browse-IsInRange :
      (doc : EditorDoc) (selected : ℕ) (code : KeyCode)
      → IsWithin selected source_templates
      → InRange doc (handle_template_browse kit selected code)
  unfolding handle_template_browse
  template_browse-IsInRange doc selected KeyCode.esc h =
      first-IsWithin (ids_for_tab TopTab.receivers doc)
  template_browse-IsInRange doc selected KeyCode.down h = down-IsWithin source_templates selected
  template_browse-IsInRange doc selected KeyCode.up h = up-IsWithin source_templates selected h
  template_browse-IsInRange doc selected KeyCode.enter h =
      elim (Option-cases (get_elem? source_templates selected)) [
        | inl e ↦ rw (e, handle_template_browse) h
        | inr (t, e) ↦ rw (e, handle_template_browse) tt
      ]
  template_browse-IsInRange doc selected _ h = h

  open_operator-IsInRange :
      (doc : EditorDoc) (c : ComponentCategory) (id : String) (form : FormState Input)
      (selected : ℕ)
      → IsWithin selected (operators form)
      → IfReturns (InRange doc) (open_operator kit c id form selected)
  unfolding open_operator
  open_operator-IsInRange doc c id form selected h =
      elim (Option-cases (get_elem? (operators form) selected)) [
        | inl e ↦ rw (e, open_operator) h
        | inr (op, e) ↦ elim (Option-cases (operator_type (text_or "" (get_key "type" op)))) [
          | inl g ↦ rw (e, g, open_operator) h
          | inr (spec, g) ↦
              rw (e, g, open_operator)
                (IfReturns->>= (InRange doc)
                  (Form.new kit (some spec.type_name) true spec.fields op) _
                  (λ op_form. lt_of_get_elem? (operators form) selected op e))
        ]
      ]

  pub operator_list-IsInRange :
      (doc : EditorDoc) (c : ComponentCategory) (id : String) (form : FormState Input)
      (selected : ℕ) (code : KeyCode)
      → IsWithin selected (operators form)
      → IfReturns (InRange doc) (handle_operator_list kit c id form selected code)
  unfolding handle_operator_list delete_operator
  operator_list-IsInRange doc c id form selected KeyCode.esc h = tt
  operator_list-IsInRange doc c id form selected KeyCode.down h =
      down-IsWithin (operators form) selected
  operator_list-IsInRange doc c id form selected KeyCode.up h =
      up-IsWithin (operators form) selected h
  operator_list-IsInRange doc c id form selected (KeyCode.char ch) h =
      chosen (InRange doc) (eqb (code ch) b'a') _ _ (first-IsWithin operator_types)
        (chosen (InRange doc) (eqb (code ch) b'd') _ _ (first-IsWithin (operators _)) h)
  operator_list-IsInRange doc c id form selected KeyCode.enter h =
      open_operator-IsInRange doc c id form selected h
  operator_list-IsInRange doc c id form selected KeyCode.delete h = first-IsWithin (operators _)
  operator_list-IsInRange doc c id form selected _ h = h

  pub operator_pick_type-IsInRange :
      (doc : EditorDoc) (c : ComponentCategory) (id : String) (form : FormState Input)
      (selected : ℕ) (code : KeyCode)
      → IsWithin selected operator_types
      → IfReturns (InRange doc) (handle_operator_pick_type kit c id form selected code)
  unfolding handle_operator_pick_type
  operator_pick_type-IsInRange doc c id form selected KeyCode.esc h =
      first-IsWithin (operators form)
  operator_pick_type-IsInRange doc c id form selected KeyCode.down h =
      down-IsWithin operator_types selected
  operator_pick_type-IsInRange doc c id form selected KeyCode.up h =
      up-IsWithin operator_types selected h
  operator_pick_type-IsInRange doc c id form selected KeyCode.enter h =
      elim (Option-cases (get_elem? operator_types selected)) [
        | inl e ↦ rw (e, handle_operator_pick_type) h
        | inr (spec, e) ↦
            rw (e, handle_operator_pick_type)
              (IfReturns->>= (InRange doc)
                (Form.new kit (some spec.type_name) true spec.fields (minimal_value spec)) _
                (λ op_form. tt))
      ]
  operator_pick_type-IsInRange doc c id form selected _ h = h

  pub operator_outcome-IsInRange :
      (c : ComponentCategory) (id : String) (form : FormState Input) (index : Option ℕ)
      (app : App Input) (r : FormState Input × FormOutcome)
      → IsWellFormed form
      → InRange app.doc (operator_edit c id form index r.0)
      → IfReturns NextIsInRange (operator_outcome kit c id form index app r)
  unfolding operator_outcome
  operator_outcome-IsInRange c id form (some i) app (op_form, continue) w h = h
  operator_outcome-IsInRange c id form none app (op_form, continue) w h = tt
  operator_outcome-IsInRange c id form none app (op_form, cancel) w h =
      first-IsWithin (operators form)
  operator_outcome-IsInRange c id form (some i) app (op_form, cancel) w h = omega arith
  operator_outcome-IsInRange c id form index app (op_form, submit) w h =
      IfReturns->>= NextIsInRange (to_value kit op_form) _ (λ v. placed-IsWithin index v form w)
