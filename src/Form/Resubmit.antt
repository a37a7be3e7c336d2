-- ===== src/Form/Resubmit.antt =====
-- Opening a component in a form and submitting the form untouched: `FormState::new` and then
-- `to_value`, crates/collector/src/editor/app.rs.
use securitygingercia.Prelude.{
  subst, some-injective, join_comma, ℕ, zero, suc, String, Bool, true, false, Option, some, List,
  [], ◌∷◌, ◌≡◌, refl, sym, ◌∙◌, ap, All, ret, is_blank, has, position, get_elem?, ◌==◌, eq_iff,
  Bool-cases, inl, inr, map_run, ◌>>=◌, >>=-eq-ret, ret-injective,
}
use securitygingercia.Json.{Value, array_of, strings_of}
use securitygingercia.Keys.{Toolkit, IsFaithful}
use securitygingercia.Schema.Spec.{FieldKind, FieldSpec}
use securitygingercia.Schema.Path.{get_path}
use securitygingercia.Doc.Strip.{items-values}
use securitygingercia.Form.{
  joined, FieldEditState, FormState, state_from, enum_state, field_edit_state_from, new, written,
  to_value, value_to_display_string, texts_of, unwrap_or,
}
use securitygingercia.Form.StringList.{IsItem, list_items-join_comma}
use securitygingercia.Form.Reading.{AreApart, ApartFromAll, ReadsBack, to_value-ReadsBack}

-- A value that the field's widget shows and writes back as it is.
abbrev pub IsShown : FieldKind → Value → Type 0
IsShown FieldKind.str v = (s : String) × (v ≡ Value.string s) × (is_blank s ≡ false)
IsShown FieldKind.duration v = (s : String) × (v ≡ Value.string s) × (is_blank s ≡ false)
IsShown FieldKind.bool v = (b : Bool) × (v ≡ Value.bool b)
IsShown (FieldKind.enum options) v = (s : String) × (v ≡ Value.string s) × (has s options ≡ true)
IsShown FieldKind.string_list v =
    (x : String) × (xs : List String) × (v ≡ array_of (strings_of (x ∷ xs))) × All IsItem (x ∷ xs)
IsShown FieldKind.operator_list v = (op : Value) × (ops : List Value) × (v ≡ array_of (op ∷ ops))

texts-strings : (xs : List String) → texts_of (strings_of xs) ≡ xs
texts-strings [] = refl
texts-strings (x ∷ xs) = rw (texts-strings xs) refl

find-has :
    (s : String) (options : List String)
    → has s options ≡ true
    → (i : ℕ) × (position (λ o. o == s) options ≡ some i) × (get_elem? options i ≡ some s)
find-has s [] h = cc
find-has s (x ∷ xs) h = elim (Bool-cases (x == s)) [
  | inl e ↦ (0, rw e refl, ap some ((eq_iff x s).0 e))
  | inr e ↦ let (i, p, g) = find-has s xs (rw e at h) in (suc i, rw (e, p) refl, g)
]

-- The position of a listed option is the position of that option.
position-has :
    (s : String) (options : List String)
    → has s options ≡ true
    → get_elem? options (unwrap_or (position (λ o. o == s) options) 0) ≡ some s
position-has s options h = let (i, p, g) = find-has s options h in rw p g

joined-strings : (xs : List String) → joined (some (array_of (strings_of xs))) ≡ join_comma xs
joined-strings xs = ap join_comma (ap texts_of (items-values (strings_of xs)) ∙ texts-strings xs)

module _ {Input : Type 0} (kit : Toolkit Input) (faithful : IsFaithful kit) where
  enum-shown :
      (options : List String) (s : String)
      → has s options ≡ true
      → (enum_state kit options (some s) >>= written kit) ≡ ret (some (Value.string s))
  unfolding written
  enum-shown [] s h = cc
  enum-shown (x ∷ xs) s h = rw (position-has s (x ∷ xs) h) refl

  list-shown :
      (x : String) (xs : List String)
      → All IsItem (x ∷ xs)
      → written kit
          (FieldEditState.string_list (kit.new (joined (some (array_of (strings_of (x ∷ xs)))))))
        ≡ ret (some (array_of (strings_of (x ∷ xs))))
  unfolding written
  list-shown x xs h =
      rw
        (
          joined-strings (x ∷ xs),
          faithful.value-new (join_comma (x ∷ xs)),
          list_items-join_comma (x ∷ xs) h,
        )
        refl

  -- One field: what it shows it writes.
  state_from-shown :
      (kind : FieldKind) (default : Option String) (v : Value)
      → IsShown kind v
      → (state_from kit kind default (some v) >>= written kit) ≡ ret (some v)
  unfolding written value_to_display_string
  state_from-shown FieldKind.str default v (s, e, b) = rw (e, faithful.value-new s, b) refl
  state_from-shown FieldKind.duration default v (s, e, b) = rw (e, faithful.value-new s, b) refl
  state_from-shown FieldKind.bool default v (b, e) = rw e refl
  state_from-shown (FieldKind.enum options) default v (s, e, h) = rw e (enum-shown options s h)
  state_from-shown FieldKind.string_list default v (x, xs, e, h) = rw e (list-shown x xs h)
  state_from-shown FieldKind.operator_list default v (op, ops, e) = rw (e, items-values ops) refl

  map_run-get :
      (specs : List FieldSpec) (v : Value) (states : List (FieldEditState Input)) (i : ℕ)
      (spec : FieldSpec)
      → map_run (λ spec. field_edit_state_from kit spec v) specs ≡ ret states
      → get_elem? specs i ≡ some spec
      → (state : FieldEditState Input) × (get_elem? states i ≡ some state)
        × (field_edit_state_from kit spec v ≡ ret state)
  map_run-get [] v states i spec e g = cc
  map_run-get (x ∷ xs) v states zero spec e g =
      let (y, fy, e1) = >>=-eq-ret (field_edit_state_from kit x v) _ e in
      let (ys, fys, e2) = >>=-eq-ret (map_run (λ spec. field_edit_state_from kit spec v) xs) _ e1 in
      (y, rw (← ret-injective e2) refl, rw (← some-injective _ _ g) fy)
  map_run-get (x ∷ xs) v states (suc i) spec e g =
      let (y, fy, e1) = >>=-eq-ret (field_edit_state_from kit x v) _ e in
      let (ys, fys, e2) = >>=-eq-ret (map_run (λ spec. field_edit_state_from kit spec v) xs) _ e1 in
      let (state, gs, fs) = map_run-get xs v ys i spec fys g in
      (state, rw (← ret-injective e2) gs, fs)

  ReadsBack-get :
      (specs : List FieldSpec) (states : List (FieldEditState Input)) (v : Value) (i : ℕ)
      (spec : FieldSpec) (state : FieldEditState Input)
      → ReadsBack kit specs states v
      → get_elem? specs i ≡ some spec
      → get_elem? states i ≡ some state
      → written kit state ≡ ret (get_path v spec.key)
  ReadsBack-get [] states v i spec state r g h = cc
  ReadsBack-get (x ∷ xs) [] v i spec state r g h = cc
  ReadsBack-get (x ∷ xs) (y ∷ ys) v zero spec state r g h =
      rw (← some-injective _ _ g, ← some-injective _ _ h) r.0
  ReadsBack-get (x ∷ xs) (y ∷ ys) v (suc i) spec state r g h =
      ReadsBack-get xs ys v i spec state r.1 g h

  -- Where a text input gives back the text that it was made of, and the keys of the fields are
  -- apart from each other and from `type`, a value that is opened in a form and submitted
  -- untouched keeps each registered field whose value its widget can show: a non-empty text, a
  -- Boolean, one of the options, a non-empty list of plain items, or operators.
  pub to_value-new :
      (type_name : Option String) (write_type_key : Bool) (specs : List FieldSpec) (v v' x : Value)
      (form : FormState Input) (i : ℕ) (spec : FieldSpec)
      → AreApart specs
      → ApartFromAll "type" specs
      → new kit type_name write_type_key specs v ≡ ret form
      → to_value kit form ≡ ret v'
      → get_elem? specs i ≡ some spec
      → get_path v spec.key ≡ some x
      → IsShown spec.kind x
      → get_path v' spec.key ≡ some x
  unfolding new field_edit_state_from
  to_value-new type_name write_type_key specs v v' x form i spec a t opened submitted at old shown =
      let (states, m, e) =
        >>=-eq-ret (map_run (λ spec. field_edit_state_from kit spec v) specs) _ opened in
      let (state, g, f) = map_run-get specs v states i spec m at in
      let submitted' = subst (λ f. to_value kit f ≡ ret v') (sym (ret-injective e)) submitted in
      let reads = (to_value-ReadsBack kit _ v' a t submitted').0 in
      let wrote = ReadsBack-get specs states v' i spec state reads at g in
      let kept = state_from-shown spec.kind spec.default x shown in
      ret-injective (sym wrote ∙ (rw (rw old at f) at kept))
