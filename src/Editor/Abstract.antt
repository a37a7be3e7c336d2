-- ===== src/Editor/Abstract.antt =====
-- What the editor does to a configuration, without the order of its maps: the abstract view of a
-- document, and the steps that it allows (crates/collector/src/editor/app.rs and model.rs).
pub mod Refinement
pub mod Following
use mathlib.Core.Option
use securitygingercia.Prelude.{
  ◌⊎◌, List, [], ◌∷◌, String, Bool, true, false, Option, none, some, ◌≡◌, ◌==◌, ◌&&◌, if◌then◌else◌,
}
use securitygingercia.Json.{Value, get}
use securitygingercia.Schema.Spec.{ComponentCategory, receiver, exporter, extension}
use securitygingercia.Doc.{EditorDoc, category_key, lists, strip_def}
use securitygingercia.Editor.State.{App, map_for}
use securitygingercia.Editor.Edits.{Question}
use securitygingercia.Editor.Changes.{question}
use securitygingercia.Editor.Session.{Turn}
use securitygingercia.Keys.{KeyEvent, is_char}

-- What each id stands for.
pub record Config : Type 0 where
  pub component : ComponentCategory → String → Option Value
  pub pipeline : String → Option Value

abbrev pub view : EditorDoc → Config
view doc = record {
  component = λ c id. get id (map_for c doc);
  pipeline = λ id. get id doc.pipelines;
}

abbrev pub is_same : ComponentCategory → ComponentCategory → Bool
is_same receiver receiver = true
is_same exporter exporter = true
is_same extension extension = true
is_same _ _ = false

-- The id stands for the value, or for nothing, and the others for what they did.
abbrev pub with_component : ComponentCategory → String → Option Value → Config → Config
with_component c id value cfg = record cfg {
  component = λ c' j. if is_same c c' && id == j then value else cfg.component c' j;
}

abbrev pub with_pipeline : String → Option Value → Config → Config
with_pipeline id value cfg = record cfg {
  pipeline = λ j. if id == j then value else cfg.pipeline j;
}

-- A definition of a pipeline lists the component.
abbrev pub links : ComponentCategory → String → Value → Bool
links c id def = elim (category_key c) [ none ↦ false | some key ↦ lists key id def ]

-- The definition without the component.
abbrev pub unlink : ComponentCategory → String → Value → Value
unlink c id def = elim (category_key c) [ none ↦ def | some key ↦ strip_def key id def ]

abbrev pub unlinked : ComponentCategory → String → Config → Config
unlinked c id cfg = record cfg { pipeline = λ j. Option.map (unlink c id) (cfg.pipeline j) }

-- No pipeline lists the component.
abbrev pub IsFree : ComponentCategory → String → Config → Type 0
IsFree c id cfg =
    (name : String) (def : Value) → cfg.pipeline name ≡ some def → links c id def ≡ false

-- A component is dropped only where no pipeline lists it, or, where that was agreed to, together
-- with its links.
pub data Step (agreed : Question) (cfg cfg' : Config) : Type 0 where
  define :
      (c : ComponentCategory) (id : String) (value : Value)
      → cfg' ≡ with_component c id (some value) cfg
      → Step agreed cfg cfg'
  define_pipeline :
      (id : String) (value : Value)
      → cfg' ≡ with_pipeline id (some value) cfg
      → Step agreed cfg cfg'
  drop :
      (c : ComponentCategory) (id : String)
      → IsFree c id cfg
      → cfg' ≡ with_component c id none cfg
      → Step agreed cfg cfg'
  drop_with_links :
      (c : ComponentCategory) (id : String)
      → agreed ≡ some (c, id)
      → cfg' ≡ with_component c id none (unlinked c id cfg)
      → Step agreed cfg cfg'
  drop_pipeline : (id : String) → cfg' ≡ with_pipeline id none cfg → Step agreed cfg cfg'

-- A configuration, the component whose removal the user is asked about, and whether the user quits.
pub record Position : Type 0 where
  pub config : Config
  pub question : Question
  pub quits : Bool

abbrev pub position : {Input : Type 0} → App Input → Position
position app = record {
  config = view app.doc;
  question = question app.screen;
  quits = app.should_quit;
}

-- A removal is asked about only where a pipeline lists the component.
abbrev pub IsAsked : Position → Type 0
IsAsked p =
    (c : ComponentCategory) (id : String) → p.question ≡ some (c, id) → ¬ IsFree c id p.config

-- What a key agrees to, where the question is asked.
abbrev pub answer : KeyEvent → Question → Question
answer key asked = if is_char b'y' key.code then asked else none

-- What one event does: a key takes at most one step, and then leaves a question that may be asked;
-- anything else does nothing.
abbrev pub Move : Option KeyEvent → Position → Position → Type 0
Move none p q = q ≡ p
Move (some key) p q =
    ((q.config ≡ p.config) ⊎ Step (answer key p.question) p.config q.config) × IsAsked q

-- What the events of turns do, in their order, until the user quits.
abbrev pub Moves : {Rect : Type 0} → List (Turn Rect) → Position → Position → Type 0
Moves [] p r = r ≡ p
Moves (turn ∷ turns) p r =
    ((p.quits ≡ true) × (r ≡ p))
    ⊎ ((p.quits ≡ false) × ((q : Position) × Move turn.key p q × Moves turns q r))
