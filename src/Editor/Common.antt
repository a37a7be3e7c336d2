-- ===== src/Editor/Common.antt =====
-- What the handlers of the editor share: selections, and the messages of the status line
-- (crates/collector/src/editor/app.rs).
use securitygingercia.Prelude.{
  ℕ, zero, suc, ◌+◌, min, String, true, Option, none, some, List, [], ◌∷◌, ◌+++◌, if◌then◌else◌,
  contains, length,
}
use securitygingercia.Doc.{EditorDoc}
use securitygingercia.Editor.State.{App}

-- `if list.is_empty() { 0 } else { (selected + 1).min(list.len() - 1) }`
abbrev pub down {ℓ} : {A : Type ℓ} → List A → ℕ → ℕ
down [] selected = 0
down (x ∷ xs) selected = min (selected + 1) (length xs)

-- `selected.saturating_sub(1)`
abbrev pub up : ℕ → ℕ
up zero = zero
up (suc n) = n

abbrev pub taken : String → String
taken id = "'" +++ id +++ "' is empty or already exists"

abbrev pub updated : String → String
updated id = id +++ " updated (press 's' to save to disk)"

unfoldable pub save_error_hint : String → Option String
save_error_hint message =
    if contains message "windows_event_log"
    then some
        " -- windows_event_log only works if sgcia-otelcol runs on Windows; remove it and its pipeline to test elsewhere"
    else none

abbrev pub with_hint : String → Option String → String
with_hint message none = message
with_hint message (some hint) = message +++ hint

-- A document that has been changed, with its message.
abbrev pub edited : {Input : Type 0} → EditorDoc → String → App Input → App Input
edited doc message app = record app { doc = doc; dirty = true; status_message = some message }

abbrev pub said : {Input : Type 0} → String → App Input → App Input
said message app = record app { status_message = some message }
