-- ===== src/Form.antt =====
-- The forms of the editor: `FieldEditState` and `FormState` of
-- crates/collector/src/editor/app.rs.
pub mod Safety
pub mod Keeping
pub mod Writing
pub mod Reading
pub mod Resubmit
pub mod Registered
pub mod StringList
pub mod Operators
use securitygingercia.Prelude.{
  ℕ, zero, suc, ◌+◌, ◌-◌, ◌%◌, max, String, Bool, true, false, Option, none, some, List, [], ◌∷◌,
  ◌==◌, if◌then◌else◌, split, trim, join_comma, is_blank, not, map, length, get_elem?, set,
  position, keep, is_empty, ltb, Run, ret, panic, ◌>>=◌, expect, map_run,
}
use securitygingercia.Json.{
  Value, Map, end, insert, as_str, as_array, as_bool, items, array_of, strings_of,
}
use securitygingercia.Keys.{KeyCode, KeyEvent, Toolkit, is_char}
use securitygingercia.Schema.Spec.{FieldKind, FieldSpec}
use securitygingercia.Schema.Path.{get_path, set_path}

pub data FieldEditState (Input : Type 0) : Type 0 where
  text : Input → FieldEditState Input
  bool : Bool → FieldEditState Input
  enum : (options : List String) (selected : ℕ) → FieldEditState Input
  string_list : Input → FieldEditState Input
  operator_list : List Value → FieldEditState Input

pub record FormState (Input : Type 0) : Type 0 where
  pub type_name : Option String
  pub write_type_key : Bool
  pub fields_spec : List FieldSpec
  pub fields : List (FieldEditState Input)
  pub focused : ℕ

pub data FormOutcome : Type 0 where
  continue submit cancel : FormOutcome

abbrev pub or_else : {A : Type 0} → Option A → Option A → Option A
or_else none o = o
or_else (some a) o = some a

abbrev pub unwrap_or : {A : Type 0} → Option A → A → A
unwrap_or none d = d
unwrap_or (some a) d = a

abbrev pub and_then : {A B : Type 0} → Option A → (A → Option B) → Option B
and_then none f = none
and_then (some a) f = f a

-- `"…".parse::<bool>().ok()`
abbrev pub parse_bool : String → Option Bool
parse_bool s = if s == "true" then some true else if s == "false" then some false else none

-- `arr.iter().filter_map(|v| v.as_str())`
abbrev pub texts_of : List Value → List String
texts_of [] = []
texts_of (Value.string s ∷ vs) = s ∷ texts_of vs
texts_of (_ ∷ vs) = texts_of vs

abbrev pub joined : Option Value → String
joined none = ""
joined (some v) = elim (as_array v) [ none ↦ "" | some arr ↦ join_comma (texts_of (items arr)) ]

abbrev pub operators_of : Option Value → List Value
operators_of none = []
operators_of (some v) = elim (as_array v) [ none ↦ [] | some arr ↦ items arr ]

-- The items of the text of a list: split at the commas, trimmed, the empty ones left out.
unfoldable pub list_items : String → List String
list_items s = keep (λ item. not (is_blank item)) (map trim (split b',' s))

-- `selected.checked_sub(1).unwrap_or(last)`
abbrev pub previous_or : ℕ → ℕ → ℕ
previous_or last zero = last
previous_or last (suc n) = n

-- `options.len() - 1`, which panics on an empty list
abbrev pub last_index : List String → Run ℕ
last_index [] = panic
last_index (x ∷ xs) = ret (length xs)

-- `n % options.len()`, which panics on an empty list
abbrev pub wrapped : ℕ → List String → Run ℕ
wrapped n [] = panic
wrapped n (x ∷ xs) = ret (n % suc (length xs))

-- The arm of `on_key` for an enumeration.
unfoldable pub enum_key : {Input : Type 0} → KeyCode → List String → ℕ → Run (FieldEditState Input)
enum_key KeyCode.left options selected = do
  last ← last_index options
  ret (enum options (previous_or last selected))
enum_key KeyCode.right options selected = do
  next ← wrapped (selected + 1) options
  ret (enum options next)
enum_key _ options selected = ret (enum options selected)

-- The arm of `on_key` for a Boolean.
unfoldable pub bool_key : KeyCode → Bool → Bool
bool_key KeyCode.left checked = not checked
bool_key KeyCode.right checked = not checked
bool_key (KeyCode.char c) checked = if is_char b' ' (KeyCode.char c) then not checked else checked
bool_key _ checked = checked

abbrev pub kind_is_operator_list : FieldKind → Bool
kind_is_operator_list FieldKind.operator_list = true
kind_is_operator_list _ = false

-- `matches!(s.kind, FieldKind::OperatorList)`
abbrev pub is_operator_list : FieldSpec → Bool
is_operator_list s = kind_is_operator_list s.kind

module _ {Input : Type 0} (kit : Toolkit Input) where
  unfoldable pub value_to_display_string : Value → String
  value_to_display_string (Value.string s) = s
  value_to_display_string v = kit.json_text v

  abbrev displayed : Option Value → Option String
  displayed none = none
  displayed (some v) = some (value_to_display_string v)

  -- `options[0]` is read whether or not it is used.
  abbrev pub enum_state : List String → Option String → Run (FieldEditState Input)
  enum_state options current = do
    first ← expect (get_elem? options 0)
    let chosen = unwrap_or current first
    ret (enum options (unwrap_or (position (λ o. o == chosen) options) 0))

  abbrev pub state_from : FieldKind → Option String → Option Value → Run (FieldEditState Input)
  state_from (FieldKind.enum options) default current =
      enum_state options (or_else (and_then current as_str) default)
  state_from FieldKind.bool default current =
      ret
        (bool (unwrap_or (or_else (and_then current as_bool) (and_then default parse_bool)) false))
  state_from FieldKind.string_list default current = ret (string_list (kit.new (joined current)))
  state_from FieldKind.operator_list default current = ret (operator_list (operators_of current))
  state_from FieldKind.str default current =
      ret (text (kit.new (unwrap_or (or_else (displayed current) default) "")))
  state_from FieldKind.duration default current =
      ret (text (kit.new (unwrap_or (or_else (displayed current) default) "")))

  unfoldable pub field_edit_state_from : FieldSpec → Value → Run (FieldEditState Input)
  field_edit_state_from spec value = state_from spec.kind spec.default (get_path value spec.key)

  unfoldable pub new : Option String → Bool → List FieldSpec → Value → Run (FormState Input)
  unfolding field_edit_state_from
  new type_name write_type_key fields_spec value = do
    fields ← map_run (λ spec. field_edit_state_from spec value) fields_spec
    ret (record {
      type_name = type_name;
      write_type_key = write_type_key;
      fields_spec = fields_spec;
      fields = fields;
      focused = 0;
    })

  -- What `to_value` writes for one field; `none` is its `continue`.
  unfoldable pub written : FieldEditState Input → Run (Option Value)
  written (text input) =
      ret (if is_blank (kit.value input) then none else some (Value.string (kit.value input)))
  written (bool checked) = ret (some (Value.bool checked))
  written (enum options selected) = do
    option ← expect (get_elem? options selected)
    ret (some (Value.string option))
  written (string_list input) = ret (
      if is_empty (list_items (kit.value input))
      then none
      else some (array_of (strings_of (list_items (kit.value input)))))
  written (operator_list ops) = ret (if is_empty ops then none else some (array_of ops))

  abbrev pub write_at : String → Option Value → Map → Map
  write_at key none m = m
  write_at key (some v) m = set_path m key v

  -- The loop of `to_value` over the zipped specs and fields.
  unfoldable pub write_fields : List FieldSpec → List (FieldEditState Input) → Map → Run Map
  unfolding written
  write_fields [] states m = ret m
  write_fields (spec ∷ specs) (state ∷ states) m = do
    value ← written state
    write_fields specs states (write_at spec.key value m)
  write_fields (spec ∷ specs) [] m = ret m

  abbrev pub write_type : Bool → Option String → Map → Map
  write_type true (some type_name) m = insert "type" (Value.string type_name) m
  write_type _ _ m = m

  unfoldable pub to_value : FormState Input → Run Value
  unfolding write_fields
  to_value form = do
    m ← write_fields form.fields_spec form.fields end
    ret (Value.object (write_type form.write_type_key form.type_name m))

  -- A key at the focused field.
  unfoldable pub field_key : KeyEvent → FieldEditState Input → Run (FieldEditState Input)
  unfolding enum_key bool_key
  field_key key (enum options selected) = enum_key key.code options selected
  field_key key (bool checked) = ret (bool (bool_key key.code checked))
  field_key key (text input) = ret (text (kit.handle_event key input))
  field_key key (string_list input) = ret (string_list (kit.handle_event key input))
  field_key key (operator_list ops) = ret (operator_list ops)

  -- The part of `on_key` below its first `match`.
  unfoldable pub edit_focused : KeyEvent → FormState Input → Run (FormState Input × FormOutcome)
  unfolding field_key
  edit_focused key form = elim (get_elem? form.fields form.focused) [
    | none ↦ ret (form, continue)
    | some field ↦ do
      field' ← field_key key field
      ret (record form { fields = set form.fields form.focused field' }, continue)
  ]

  -- The first `match` of `on_key`.
  unfoldable pub form_key :
      KeyCode → KeyEvent → FormState Input → Run (FormState Input × FormOutcome)
  unfolding edit_focused
  form_key KeyCode.enter key form = ret (form, submit)
  form_key KeyCode.esc key form = ret (form, cancel)
  form_key KeyCode.tab key form =
      ret (record form { focused = (form.focused + 1) % max (length form.fields) 1 }, continue)
  form_key KeyCode.back_tab key form =
      ret (record form { focused = previous_or (length form.fields - 1) form.focused }, continue)
  form_key _ key form = edit_focused key form

  unfoldable pub on_key : KeyEvent → FormState Input → Run (FormState Input × FormOutcome)
  unfolding form_key
  on_key key form = form_key key.code key form

module _ {Input : Type 0} where
  unfoldable pub focused_kind : FormState Input → Option FieldKind
  focused_kind form = elim (get_elem? form.fields_spec form.focused) [
    | none ↦ none
    | some s ↦ some s.kind
  ]

  unfoldable pub advance_focus : FormState Input → FormState Input
  advance_focus form = record form { focused = (form.focused + 1) % max (length form.fields) 1 }

  unfoldable pub operator_list_index : FormState Input → Option ℕ
  operator_list_index form = position is_operator_list form.fields_spec

  abbrev pub staged : Option (FieldEditState Input) → List Value
  staged (some (operator_list ops)) = ops
  staged _ = []

  unfoldable pub operators : FormState Input → List Value
  unfolding operator_list_index
  operators form = staged (and_then (operator_list_index form) (get_elem? form.fields))

  abbrev pub restaged : List Value → FieldEditState Input → FieldEditState Input
  restaged ops (operator_list _) = operator_list ops
  restaged ops state = state

  unfoldable pub set_operators : List Value → FormState Input → FormState Input
  unfolding operator_list_index
  set_operators ops form = elim (operator_list_index form) [
    | none ↦ form
    | some i ↦ elim (get_elem? form.fields i) [
      | none ↦ form
      | some state ↦ record form { fields = set form.fields i (restaged ops state) }
    ]
  ]
