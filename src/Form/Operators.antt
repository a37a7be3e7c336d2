-- ===== src/Form/Operators.antt =====
-- The staged operators of a form: `operators`, `set_operators` and `advance_focus` of
-- `FormState`, crates/collector/src/editor/app.rs.
use mathlib.Core.Option
use securitygingercia.Prelude.{
  ap, ℕ, zero, suc, ◌+◌, max, true, Option, none, some, List, [], ◌∷◌, ◌≡◌, refl, length, get_elem?,
  position, arith, Option-cases, inl, inr, length-set, get_elem?-set_self, lt_of_get_elem?,
  Bool-cases,
}
use native.Mathlib.Nat.{mod-lt}
use securitygingercia.Json.{Value}
use securitygingercia.Schema.Spec.{FieldKind, FieldSpec}
use securitygingercia.Form.{
  kind_is_operator_list, FieldEditState, FormState, advance_focus, operators, set_operators,
  operator_list_index, is_operator_list, restaged,
}
use securitygingercia.Form.Safety.{Fits, AllFit, IsWellFormed, AllFit-set}

position-suc : (o : Option ℕ) → Option.map suc o ≡ some 0 → ⊥
position-suc none e = cc
position-suc (some n) e = ground arith

position-pred : (o : Option ℕ) (i : ℕ) → Option.map suc o ≡ some (suc i) → o ≡ some i
position-pred none i e = cc
position-pred (some n) i e = ground arith

module _ {Input : Type 0} where
  restaged-Fits :
      (ops : List Value) (kind : FieldKind) (state : FieldEditState Input)
      → Fits kind state
      → Fits kind (restaged ops state)
  restaged-Fits ops FieldKind.operator_list (FieldEditState.operator_list o) h = tt
  restaged-Fits ops kind (FieldEditState.operator_list o) h = absurd h
  restaged-Fits ops kind _ h = h

  -- Staging operators keeps a form well-formed, and its fields the same.
  pub set_operators-IsWellFormed :
      (ops : List Value) (form : FormState Input)
      → IsWellFormed form
      → IsWellFormed (set_operators ops form)
        × ((set_operators ops form).fields_spec ≡ form.fields_spec)
  unfolding set_operators
  set_operators-IsWellFormed ops form w = elim (Option-cases (operator_list_index form)) [
    | inl e ↦ rw (e, set_operators) (w, refl)
    | inr (i, e) ↦ elim (Option-cases (get_elem? form.fields i)) [
      | inl g ↦ rw (e, g, set_operators) (w, refl)
      | inr (state, g) ↦
          rw (e, g, set_operators)
            (
              record {
                fit =
                    AllFit-set form.fields_spec form.fields i state (restaged ops state) w.fit g
                      (λ spec. restaged-Fits ops spec.kind state);
                focus = rw (length-set form.fields i (restaged ops state)) w.focus;
              },
              refl,
            )
    ]
  ]

  pub advance_focus-IsWellFormed :
      (form : FormState Input) → IsWellFormed form → IsWellFormed (advance_focus form)
  unfolding advance_focus
  advance_focus-IsWellFormed form w = record {
    fit = w.fit;
    focus = mod-lt (form.focused + 1) {m = max (length form.fields) 1} (omega arith);
  }

  is_operators-state :
      (kind : FieldKind) (state : FieldEditState Input)
      → Fits kind state
      → kind_is_operator_list kind ≡ true
      → (ops : List Value) × (state ≡ FieldEditState.operator_list ops)
  is_operators-state FieldKind.operator_list (FieldEditState.operator_list ops) h e = (ops, refl)
  is_operators-state FieldKind.operator_list _ h e = absurd h
  is_operators-state _ state h e = cc

  -- The field at the place of the first operator list is one.
  at_index :
      (specs : List FieldSpec) (states : List (FieldEditState Input)) (i : ℕ)
      → AllFit specs states
      → position is_operator_list specs ≡ some i
      → (ops : List Value) × (get_elem? states i ≡ some (FieldEditState.operator_list ops))
  at_index [] states i h e = cc
  at_index (x ∷ xs) [] i h e = absurd h
  at_index (x ∷ xs) (s ∷ ss) zero h e = elim (Bool-cases (is_operator_list x)) [
    | inl t ↦ let (ops, is) = is_operators-state x.kind s h.0 t in (ops, ap some is)
    | inr t ↦ absurd (position-suc (position is_operator_list xs) (rw t at e))
  ]
  at_index (x ∷ xs) (s ∷ ss) (suc i) h e = elim (Bool-cases (is_operator_list x)) [
    | inl t ↦ cc (rw t at e)
    | inr t ↦ at_index xs ss i h.1 (position-pred (position is_operator_list xs) i (rw t at e))
  ]

  -- In a well-formed form that has a field of operators, the operators that were staged are those
  -- that it then holds.
  pub operators-set_operators :
      (ops : List Value) (form : FormState Input) (i : ℕ)
      → IsWellFormed form
      → operator_list_index form ≡ some i
      → operators (set_operators ops form) ≡ ops
  unfolding operators set_operators operator_list_index
  operators-set_operators ops form i w e =
      let (old, g) = at_index form.fields_spec form.fields i w.fit e in
      rw (e, g, set_operators)
        (rw
          (
            e,
            get_elem?-set_self form.fields i (FieldEditState.operator_list ops)
                (lt_of_get_elem? form.fields i _ g),
          )
          refl)
