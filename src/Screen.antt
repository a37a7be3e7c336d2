-- ===== src/Screen.antt =====
-- What the program hands to the drawing library ratatui, which is not in the repository: styled
-- texts, widgets, and the rectangles that they are drawn in. The geometry is a parameter.
use securitygingercia.Prelude.{
  ℕ, String, Bool, Option, none, some, List, [], ◌∷◌, ◌≡◌, length as count,
}

pub data Color : Type 0 where
  yellow cyan red green : Color

pub data Modifier : Type 0 where
  reversed bold italic : Modifier

pub record Style : Type 0 where
  pub fg : Option Color
  pub modifiers : List Modifier

-- `Style::default()`, `.fg(…)` and `.add_modifier(…)`
abbrev pub plain : Style
plain = record { fg = none; modifiers = [] }

abbrev pub colored : Color → Style
colored c = record { fg = some c; modifiers = [] }

abbrev pub modified : Modifier → Style → Style
modified m style = record style { modifiers = m ∷ style.modifiers }

pub record Span : Type 0 where
  pub content : String
  pub style : Style

abbrev pub Line : Type 0
Line = List Span

-- A text as it is given, or as lines.
pub data Text : Type 0 where
  raw : String → Text
  lines : List Line → Text

-- `Block::default().borders(Borders::ALL).title(…)`
pub record Block : Type 0 where
  pub title : String
  pub style : Style

abbrev pub titled : String → Block
titled title = record { title = title; style = plain }

pub record ListItem : Type 0 where
  pub content : Line
  pub style : Style

pub data Constraint : Type 0 where
  min length percentage : ℕ → Constraint

pub data Widget : Type 0 where
  block : Block → Widget
  paragraph : Text → Style → (wrap : Bool) → Option Block → Widget
  list : List ListItem → Option Block → Widget
  table :
      (header : List String)
      → (header_style : Style) → (rows : List (List String)) → List Constraint
      → Block
      → Widget

-- The area of the frame, `Layout::split` from top to bottom, and `Block::inner`.
pub record Canvas (Rect : Type 0) : Type 0 where
  pub area : Rect
  pub split : List Constraint → Rect → List Rect
  pub inner : Block → Rect → Rect

-- A split has one rectangle for each constraint, as it is documented.
pub record IsComplete {Rect : Type 0} (canvas : Canvas Rect) : Type 0 where
  pub length-split :
      (constraints : List Constraint) (area : Rect)
      → count (canvas.split constraints area) ≡ count constraints

-- What has been drawn, in order, and where.
abbrev pub Frame : Type 0 → Type 0
Frame Rect = List (Widget × Rect)

-- `frame.render_widget(widget, area)`
abbrev pub render_widget : {Rect : Type 0} → Widget → Rect → Frame Rect
render_widget widget area = (widget, area) ∷ []
