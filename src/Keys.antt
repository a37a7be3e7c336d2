-- ===== src/Keys.antt =====
-- The key events of the terminal library and its text input, as the program uses them: crossterm
-- and tui_input, which are not in the repository. A text input is a parameter.
use securitygingercia.Prelude.{ℕ, String, Bool, false, Char, code, eqb, ◌≡◌}
use securitygingercia.Json.{Value}

pub data KeyCode : Type 0 where
  enter esc tab back_tab left right up down delete : KeyCode
  char : Char → KeyCode
  other : ℕ → KeyCode

-- A code and the modifiers, of which the program reads the code alone.
pub record KeyEvent : Type 0 where
  pub code : KeyCode
  pub modifiers : ℕ

-- `key.code == KeyCode::Char(c)`
unfoldable pub is_char : ℕ → KeyCode → Bool
is_char n (KeyCode.char c) = eqb (code c) n
is_char n KeyCode.enter = false
is_char n KeyCode.esc = false
is_char n KeyCode.tab = false
is_char n KeyCode.back_tab = false
is_char n KeyCode.left = false
is_char n KeyCode.right = false
is_char n KeyCode.up = false
is_char n KeyCode.down = false
is_char n KeyCode.delete = false
is_char n (KeyCode.other k) = false

-- What the editor uses of `tui_input::Input`, and the JSON text of `Value::to_string`.
pub record Toolkit (Input : Type 0) : Type 0 where
  pub new : String → Input
  pub default : Input
  pub value : Input → String
  pub handle_event : KeyEvent → Input → Input
  pub json_text : Value → String

-- `Input::new(text).value()` is the text.
pub record IsFaithful {Input : Type 0} (kit : Toolkit Input) : Type 0 where
  pub value-new : (s : String) → kit.value (kit.new s) ≡ s
