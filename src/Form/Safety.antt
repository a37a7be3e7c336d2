-- ===== src/Form/Safety.antt =====
-- Well-formed forms: the indices that `FormState` of crates/collector/src/editor/app.rs takes, and
-- the forms that `new` makes.
use securitygingercia.Prelude.{
  subst, some-injective, ℕ, zero, suc, ◌<◌, max, String, Bool, Option, none, some, List, [], ◌∷◌,
  ◌==◌, ◌≡◌, refl, length, get_elem?, set, position, Returns, Returns->>=, map_run, arith, All,
  position-lt,
}
use securitygingercia.Json.{Value}
use securitygingercia.Keys.{Toolkit}
use securitygingercia.Schema.Spec.{FieldKind, FieldSpec}
use securitygingercia.Json.{as_str}
use securitygingercia.Form.{
  or_else, and_then, FieldEditState, FormState, field_edit_state_from, state_from, enum_state, new,
  unwrap_or,
}

-- A kind that a form can show: an enumeration has an option.
abbrev pub IsEditable : FieldKind → Type 0
IsEditable (FieldKind.enum options) = 0 < length options
IsEditable _ = Unit

abbrev pub AreEditable : List FieldSpec → Type 0
AreEditable specs = All (λ spec. IsEditable spec.kind) specs

module _ {Input : Type 0} where
  -- A state of a field of the kind; the selection of an enumeration is one of its options.
  abbrev pub Fits : FieldKind → FieldEditState Input → Type 0
  Fits FieldKind.str (FieldEditState.text input) = Unit
  Fits FieldKind.duration (FieldEditState.text input) = Unit
  Fits FieldKind.bool (FieldEditState.bool b) = Unit
  Fits (FieldKind.enum options) (FieldEditState.enum options' selected) =
      (options ≡ options') × (selected < length options')
  Fits FieldKind.string_list (FieldEditState.string_list input) = Unit
  Fits FieldKind.operator_list (FieldEditState.operator_list ops) = Unit
  Fits _ _ = ⊥

  abbrev pub AllFit : List FieldSpec → List (FieldEditState Input) → Type 0
  AllFit [] [] = Unit
  AllFit [] (state ∷ states) = ⊥
  AllFit (spec ∷ specs) [] = ⊥
  AllFit (spec ∷ specs) (state ∷ states) = Fits spec.kind state × AllFit specs states

  -- One state for each field, of its kind, and the focus on one of them, if there are any.
  pub record IsWellFormed (form : FormState Input) : Type 0 where
    pub fit : AllFit form.fields_spec form.fields
    pub focus : form.focused < max (length form.fields) 1

  AllFit-length :
      (specs : List FieldSpec) (states : List (FieldEditState Input))
      → AllFit specs states
      → length specs ≡ length states
  AllFit-length [] [] h = refl
  AllFit-length [] (s ∷ ss) h = absurd h
  AllFit-length (x ∷ xs) [] h = absurd h
  AllFit-length (x ∷ xs) (s ∷ ss) h = omega (arith, AllFit-length xs ss h.1)

  pub AllFit-get :
      (specs : List FieldSpec) (states : List (FieldEditState Input)) (i : ℕ)
      (state : FieldEditState Input)
      → AllFit specs states
      → get_elem? states i ≡ some state
      → (spec : FieldSpec) × (get_elem? specs i ≡ some spec) × Fits spec.kind state
  AllFit-get [] [] i state h e = cc
  AllFit-get [] (s ∷ ss) i state h e = absurd h
  AllFit-get (x ∷ xs) [] i state h e = absurd h
  AllFit-get (x ∷ xs) (s ∷ ss) zero state h e =
      (x, refl, subst (Fits x.kind) (some-injective _ _ e) h.0)
  AllFit-get (x ∷ xs) (s ∷ ss) (suc i) state h e = AllFit-get xs ss i state h.1 e

  pub AllFit-set :
      (specs : List FieldSpec) (states : List (FieldEditState Input)) (i : ℕ)
      (state state' : FieldEditState Input)
      → AllFit specs states
      → get_elem? states i ≡ some state
      → ((spec : FieldSpec) → Fits spec.kind state → Fits spec.kind state')
      → AllFit specs (set states i state')
  AllFit-set [] [] i state state' h e f = tt
  AllFit-set [] (s ∷ ss) i state state' h e f = absurd h
  AllFit-set (x ∷ xs) [] i state state' h e f = absurd h
  AllFit-set (x ∷ xs) (s ∷ ss) zero state state' h e f =
      (f x (subst (Fits x.kind) (some-injective _ _ e) h.0), h.1)
  AllFit-set (x ∷ xs) (s ∷ ss) (suc i) state state' h e f =
      (h.0, AllFit-set xs ss i state state' h.1 e f)

module _ {Input : Type 0} (kit : Toolkit Input) where
  enum_state-Fits :
      (options : List String) (current : Option String)
      → 0 < length options
      → Returns (Fits (FieldKind.enum options)) (enum_state kit options current)
  enum_state-Fits [] current h = absurd (omega arith)
  enum_state-Fits (x ∷ xs) current h = (
    refl,
    selected (position (λ o. o == unwrap_or current x) (x ∷ xs))
        (λ i e. position-lt (λ o. o == unwrap_or current x) (x ∷ xs) i e),
  )
    where
      selected :
          (o : Option ℕ)
          → ((i : ℕ) → o ≡ some i → i < length (x ∷ xs))
          → unwrap_or o 0 < length (x ∷ xs)
      selected none f = omega arith
      selected (some i) f = f i refl

  state_from-Fits :
      (kind : FieldKind) (default : Option String) (current : Option Value)
      → IsEditable kind
      → Returns (Fits kind) (state_from kit kind default current)
  state_from-Fits (FieldKind.enum options) default current h =
      enum_state-Fits options (or_else (and_then current as_str) default) h
  state_from-Fits FieldKind.str default current h = tt
  state_from-Fits FieldKind.bool default current h = tt
  state_from-Fits FieldKind.duration default current h = tt
  state_from-Fits FieldKind.string_list default current h = tt
  state_from-Fits FieldKind.operator_list default current h = tt

  map_run-AllFit :
      (specs : List FieldSpec) (value : Value)
      → AreEditable specs
      → Returns (AllFit specs) (map_run (λ spec. field_edit_state_from kit spec value) specs)
  unfolding field_edit_state_from
  map_run-AllFit [] value h = tt
  map_run-AllFit (spec ∷ specs) value h =
      Returns->>= (Fits spec.kind) (AllFit (spec ∷ specs)) (field_edit_state_from kit spec value) _
        (state_from-Fits spec.kind spec.default _ h.0)
        (λ state fits.
          Returns->>= (AllFit specs) (AllFit (spec ∷ specs))
            (map_run (λ spec. field_edit_state_from kit spec value) specs) _
            (map_run-AllFit specs value h.1) (λ states all. (fits, all)))

  -- A form that is opened on any value, over fields whose enumerations have an option, does not
  -- panic, is well-formed and has these fields.
  pub new-IsWellFormed :
      (type_name : Option String) (write_type_key : Bool) (specs : List FieldSpec) (value : Value)
      → AreEditable specs
      → Returns
          (λ form. IsWellFormed form × (form.fields_spec ≡ specs))
          (new kit type_name write_type_key specs value)
  unfolding new
  new-IsWellFormed type_name write_type_key specs value h =
      Returns->>= (AllFit specs) _ (map_run (λ spec. field_edit_state_from kit spec value) specs) _
        (map_run-AllFit specs value h)
        (λ fields all. (record { fit = all; focus = omega arith }, refl))
