-- ===== src/Form/Keeping.antt =====
-- Keys on a form: the indices that they take, and what they leave (`on_key` of
-- `FormState`, crates/collector/src/editor/app.rs).
use native.Mathlib.Nat.{mod-lt}
use securitygingercia.Prelude.{
  ℕ, zero, suc, ◌+◌, ◌-◌, ◌%◌, ◌<◌, max, String, Bool, List, [], ◌∷◌, ◌≡◌, refl, length, get_elem?,
  Returns, Returns->>=, arith, Option-cases, inl, inr, length-set,
}
use securitygingercia.Keys.{KeyCode, KeyEvent, Toolkit}
use securitygingercia.Schema.Spec.{FieldKind}
use securitygingercia.Form.{
  enum_key, bool_key, edit_focused, form_key, enum_key, FieldEditState, FormState, FormOutcome,
  field_key, on_key, last_index, wrapped, previous_or,
}
use securitygingercia.Form.Safety.{Fits, IsWellFormed, AllFit-get, AllFit-set}

module _ {Input : Type 0} (kit : Toolkit Input) where
  wrapped-Returns :
      (n : ℕ) (options : List String)
      → 0 < length options
      → Returns (λ k. k < length options) (wrapped n options)
  wrapped-Returns n [] h = absurd (omega arith)
  wrapped-Returns n (x ∷ xs) h = omega arith

  last_index-Returns :
      (options : List String)
      → 0 < length options
      → Returns (λ k. k < length options) (last_index options)
  last_index-Returns [] h = absurd (omega arith)
  last_index-Returns (x ∷ xs) h = omega arith

  abbrev KeepsFit : FieldEditState Input → FieldEditState Input → Type 0
  KeepsFit state state' = (kind : FieldKind) → Fits kind state → Fits kind state'

  wrap-lt : (n l : ℕ) → n % max l 1 < max l 1
  wrap-lt n l = mod-lt n {m = max l 1} (omega arith)

  previous-lt : (last n bound : ℕ) → last < bound → n < bound → previous_or last n < bound
  previous-lt last zero bound h k = h
  previous-lt last (suc n) bound h k = omega arith

  moved :
      (options : List String) (selected n : ℕ)
      → n < length options
      → KeepsFit (FieldEditState.enum options selected) (FieldEditState.enum options n)
  moved options selected n h (FieldKind.enum o) fits = (fits.0, h)
  moved options selected n h _ fits = absurd fits

  same_bool : (b b' : Bool) → KeepsFit (FieldEditState.bool b) (FieldEditState.bool b')
  same_bool b b' FieldKind.bool fits = fits
  same_bool b b' _ fits = absurd fits

  same_text : (i j : Input) → KeepsFit (FieldEditState.text i) (FieldEditState.text j)
  same_text i j FieldKind.str fits = fits
  same_text i j FieldKind.duration fits = fits
  same_text i j _ fits = absurd fits

  same_list : (i j : Input) → KeepsFit (FieldEditState.string_list i) (FieldEditState.string_list j)
  same_list i j FieldKind.string_list fits = fits
  same_list i j _ fits = absurd fits

  enum_key-KeepsFit :
      (code : KeyCode) (options : List String) (selected : ℕ)
      → selected < length options
      → Returns (KeepsFit (FieldEditState.enum options selected)) (enum_key code options selected)
  unfolding enum_key
  enum_key-KeepsFit KeyCode.left options selected h =
      Returns->>= (λ k. k < length options) (KeepsFit (FieldEditState.enum options selected))
        (last_index options) _ (last_index-Returns options (omega arith))
        (λ last below.
          moved options selected (previous_or last selected)
            (previous-lt last selected (length options) below h))
  enum_key-KeepsFit KeyCode.right options selected h =
      Returns->>= (λ k. k < length options) (KeepsFit (FieldEditState.enum options selected))
        (wrapped (selected + 1) options) _ (wrapped-Returns (selected + 1) options (omega arith))
        (λ next below. moved options selected next below)
  enum_key-KeepsFit _ options selected h = λ kind fits. fits

  field_key-KeepsFit :
      (key : KeyEvent) (kind : FieldKind) (state : FieldEditState Input)
      → Fits kind state
      → Returns (KeepsFit state) (field_key kit key state)
  unfolding field_key
  field_key-KeepsFit key (FieldKind.enum o) (FieldEditState.enum options selected) h =
      enum_key-KeepsFit key.code options selected h.1
  field_key-KeepsFit key kind (FieldEditState.enum options selected) h = absurd h
  field_key-KeepsFit key kind (FieldEditState.bool b) h = same_bool b (bool_key key.code b)
  field_key-KeepsFit key kind (FieldEditState.text input) h =
      same_text input (kit.handle_event key input)
  field_key-KeepsFit key kind (FieldEditState.string_list input) h =
      same_list input (kit.handle_event key input)
  field_key-KeepsFit key kind (FieldEditState.operator_list ops) h = λ kind fits. fits

  -- What a key leaves: the form is well-formed, and has the fields and the type that it had.
  abbrev pub StaysWellFormed : FormState Input → FormState Input × FormOutcome → Type 0
  StaysWellFormed form (form', outcome) =
      IsWellFormed form'
      × (form'.fields_spec ≡ form.fields_spec)
      × (form'.type_name ≡ form.type_name)
      × (form'.write_type_key ≡ form.write_type_key)

  edit_focused-StaysWellFormed :
      (key : KeyEvent) (form : FormState Input)
      → IsWellFormed form
      → Returns (StaysWellFormed form) (edit_focused kit key form)
  unfolding edit_focused
  edit_focused-StaysWellFormed key form w =
      elim (Option-cases (get_elem? form.fields form.focused)) [
        | inl e ↦ rw (e, edit_focused) (w, refl, refl, refl)
        | inr (state, e) ↦
            let (spec, at, fits) =
              AllFit-get form.fields_spec form.fields form.focused state w.fit e in
            rw (e, edit_focused)
              (Returns->>= (KeepsFit state) (StaysWellFormed form) (field_key kit key state) _
                (field_key-KeepsFit key spec.kind state fits)
                (λ state' keeps. (
                  record {
                    fit =
                        AllFit-set form.fields_spec form.fields form.focused state state' w.fit e
                          (λ s. keeps s.kind);
                    focus = rw (length-set form.fields form.focused state') w.focus;
                  },
                  refl,
                  refl,
                  refl,
                )))
      ]

  form_key-StaysWellFormed :
      (code : KeyCode) (key : KeyEvent) (form : FormState Input)
      → IsWellFormed form
      → Returns (StaysWellFormed form) (form_key kit code key form)
  unfolding form_key
  form_key-StaysWellFormed KeyCode.enter key form w = (w, refl, refl, refl)
  form_key-StaysWellFormed KeyCode.esc key form w = (w, refl, refl, refl)
  form_key-StaysWellFormed KeyCode.tab key form w = (
    record { fit = w.fit; focus = wrap-lt (form.focused + 1) (length form.fields) },
    refl,
    refl,
    refl,
  )
  form_key-StaysWellFormed KeyCode.back_tab key form w = (
    record {
      fit = w.fit;
      focus =
          previous-lt (length form.fields - 1) form.focused (max (length form.fields) 1)
            (omega arith) w.focus;
    },
    refl,
    refl,
    refl,
  )
  form_key-StaysWellFormed _ key form w = edit_focused-StaysWellFormed key form w

  -- No key makes a well-formed form panic, and every key leaves it well-formed, with the fields,
  -- the type and the setting of the type key that it had.
  pub on_key-IsWellFormed :
      (key : KeyEvent) (form : FormState Input)
      → IsWellFormed form
      → Returns (StaysWellFormed form) (on_key kit key form)
  unfolding on_key
  on_key-IsWellFormed key form w = form_key-StaysWellFormed key.code key form w
