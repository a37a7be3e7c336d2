-- ===== src/Form/Writing.antt =====
-- Panics in the building of a form's value (`to_value` of `FormState`,
-- crates/collector/src/editor/app.rs).
use securitygingercia.Prelude.{List, [], ◌∷◌, Returns, Returns->>=, get_elem?_of_lt}
use securitygingercia.Json.{Map}
use securitygingercia.Keys.{Toolkit}
use securitygingercia.Schema.Spec.{FieldKind, FieldSpec}
use securitygingercia.Form.{
  end, FieldEditState, FormState, written, write_fields, write_at, to_value,
}
use securitygingercia.Form.Safety.{Fits, AllFit, IsWellFormed}

module _ {Input : Type 0} (kit : Toolkit Input) where
  written-Returns :
      (kind : FieldKind) (state : FieldEditState Input)
      → Fits kind state
      → Returns (λ _. Unit) (written kit state)
  unfolding written
  written-Returns (FieldKind.enum o) (FieldEditState.enum options selected) h =
      let (option, e) = get_elem?_of_lt options selected h.1 in rw e tt
  written-Returns kind (FieldEditState.enum options selected) h = absurd h
  written-Returns kind (FieldEditState.bool b) h = tt
  written-Returns kind (FieldEditState.text input) h = tt
  written-Returns kind (FieldEditState.string_list input) h = tt
  written-Returns kind (FieldEditState.operator_list ops) h = tt

  write_fields-Returns :
      (specs : List FieldSpec) (states : List (FieldEditState Input)) (m : Map)
      → AllFit specs states
      → Returns (λ _. Unit) (write_fields kit specs states m)
  unfolding write_fields
  write_fields-Returns [] [] m h = tt
  write_fields-Returns [] (s ∷ ss) m h = absurd h
  write_fields-Returns (x ∷ xs) [] m h = absurd h
  write_fields-Returns (x ∷ xs) (s ∷ ss) m h =
      Returns->>= (λ _. Unit) (λ _. Unit) (written kit s) _ (written-Returns x.kind s h.0)
        (λ value _. write_fields-Returns xs ss (write_at kit x.key value m) h.1)

  -- The value of a well-formed form is built without a panic.
  pub to_value-Returns :
      (form : FormState Input) → IsWellFormed form → Returns (λ _. Unit) (to_value kit form)
  unfolding to_value
  to_value-Returns form w =
      Returns->>= (λ _. Unit) (λ _. Unit) (write_fields kit form.fields_spec form.fields end) _
        (write_fields-Returns form.fields_spec form.fields end w.fit) (λ m _. tt)
