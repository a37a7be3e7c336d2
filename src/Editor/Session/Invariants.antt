-- ===== src/Editor/Session/Invariants.antt =====
-- What every session keeps (`run` and `run_app` of crates/collector/src/editor/mod.rs).
use securitygingercia.Prelude.{
  refl, ◌≡◌, All, inl, inr, List, [], ◌∷◌, Run, ret, ◌>>=◌, Returns, Returns->>=, Returns-map,
  Result, ok, err, Option-cases,
}
use securitygingercia.Keys.{KeyEvent, Toolkit}
use securitygingercia.Doc.{EditorDoc}
use securitygingercia.Doc.Save.{Environment, Disk, Platform, FilePath, EditorError, load}
use securitygingercia.Screen.{IsComplete}
use securitygingercia.Editor.State.{App, new}
use securitygingercia.Editor.Handle.{on_key}
use securitygingercia.Editor.Safety.{IsSafe}
use securitygingercia.Editor.SafeKeys.{guarded}
use securitygingercia.Editor.NoPanic.{on_key-IsSafe}
use securitygingercia.Editor.Saves.{AppIs, on_key-saves}
use securitygingercia.Editor.View.Draw.{draw}
use securitygingercia.Editor.View.Safety.{IsDrawn, draw-Returns}
use securitygingercia.Editor.Session.{Turn, read_event, run_app, run}

-- In every turn, a split has a rectangle for each constraint.
abbrev pub AreComplete : {Rect : Type 0} → List (Turn Rect) → Type 0
AreComplete turns = All (λ turn. IsComplete turn.canvas) turns

abbrev pub LeftIsSafe : {Input : Type 0} → App Input × Disk → Type 0
LeftIsSafe (app, disk) = IsSafe app.screen

pub both :
    {A : Type 0} (P Q : A → Type 0) (m : Run A)
    → Returns P m
    → Returns Q m
    → Returns (λ a. P a × Q a) m
both P Q (ret a) h k = (h, k)
both P Q Run.panic h k = h

-- A condition on what answers in a turn.
abbrev pub Answering : Type 1
Answering = Platform → Environment → Type 0

abbrev pub Anything : Answering
Anything platform env = Unit

abbrev pub AreAnswered : Answering → {Rect : Type 0} → List (Turn Rect) → Type 0
AreAnswered R turns = All (λ turn. R turn.platform turn.env) turns

pub All-Anything : {Rect : Type 0} (turns : List (Turn Rect)) → AreAnswered Anything turns
All-Anything [] = tt
All-Anything (turn ∷ turns) = (tt, All-Anything turns)

-- A property that every key keeps, of an app on a safe screen and of the disk, under a condition on
-- what answers.
abbrev pub IsKept :
    {Input : Type 0} → Toolkit Input → Answering → (App Input × Disk → Type 0) → Type 0
IsKept {Input} kit R P =
    (platform : Platform) (env : Environment) (key : KeyEvent) (app : App Input) (disk : Disk)
    → R platform env
    → IsSafe app.screen
    → P (app, disk)
    → Returns P (on_key kit platform env key app disk)

-- A property that the changes of the document, its flag and the disk keep.
abbrev pub IsKeptByChanges :
    {Input : Type 0} → Toolkit Input → Answering → (App Input × Disk → Type 0) → Type 0
IsKeptByChanges {Input} kit R P =
    (platform : Platform) (env : Environment) (key : KeyEvent) (app : App Input) (disk : Disk)
    (left : App Input × Disk)
    → R platform env
    → AppIs kit platform env key app disk left
    → P (app, disk)
    → P left

abbrev pub IsGood : {Input : Type 0} → (App Input × Disk → Type 0) → App Input × Disk → Type 0
IsGood P left = LeftIsSafe left × P left

-- On what a session of the editor ends, where it does not panic.
abbrev pub Ends : {Input : Type 0} → Result EditorError (App Input × Disk) → Type 0
Ends (ok left) = LeftIsSafe left
Ends (err e) = ⊥

-- How opening a file ends, by what the reading gives and what the terminal does.
abbrev pub EndsAs :
    {Input : Type 0}
    → Result EditorError EditorDoc
    → Run (Unit {0})
    → Run (Result EditorError (App Input × Disk))
    → Type 0
EndsAs (err e) init out = out ≡ ret (err e)
EndsAs (ok doc) Run.panic out = out ≡ Run.panic
EndsAs (ok doc) (Run.ret u) out = Returns Ends out

module _ {Input : Type 0} (kit : Toolkit Input) (R : Answering) where
  pub changes-IsKept : (P : App Input × Disk → Type 0) → IsKeptByChanges kit R P → IsKept kit R P
  changes-IsKept P kept platform env key app disk r s p =
      Returns-map (AppIs kit platform env key app disk) P (on_key kit platform env key app disk)
        (on_key-saves kit platform env key app disk s)
        (λ left h. kept platform env key app disk left r h p)

  anything-IsKept : IsKept kit R (λ left. Unit)
  anything-IsKept = changes-IsKept (λ left. Unit) (λ platform env key app disk left r h p. tt)

module _ {Input Rect : Type 0} (kit : Toolkit Input) where
  module _ (R : Answering) (P : App Input × Disk → Type 0) (kept : IsKept kit R P) where
    read_event-IsGood :
        (turn : Turn Rect) (app : App Input) (disk : Disk)
        → R turn.platform turn.env
        → IsSafe app.screen
        → P (app, disk)
        → Returns (IsGood P) (read_event kit turn app disk)
    unfolding read_event
    read_event-IsGood turn app disk r s p = elim (Option-cases turn.key) [
      | inl e ↦ rw (e, read_event) (s, p)
      | inr (key, e) ↦
          rw (e, read_event)
            (both LeftIsSafe P (on_key kit turn.platform turn.env key app disk)
              (on_key-IsSafe kit turn.platform turn.env key app disk s)
              (kept turn.platform turn.env key app disk r s p))
    ]

    -- A session that starts on a safe screen keeps it, and what every key keeps.
    pub run_app-IsGood :
        (turns : List (Turn Rect)) (app : App Input) (disk : Disk)
        → AreComplete turns
        → AreAnswered R turns
        → IsSafe app.screen
        → P (app, disk)
        → Returns (IsGood P) (run_app kit turns app disk)
    unfolding run_app
    run_app-IsGood [] app disk c r s p = (s, p)
    run_app-IsGood (turn ∷ turns) app disk c r s p =
        Returns->>= IsDrawn (IsGood P) (draw kit turn.canvas turn.platform app) _
          (draw-Returns turn.canvas c.0 kit turn.platform app s)
          (λ frame d.
            guarded (IsGood P) app.should_quit (ret (app, disk)) _ (s, p)
              (Returns->>= (IsGood P) (IsGood P) (read_event kit turn app disk) _
                (read_event-IsGood turn app disk r.0 s p)
                (λ left h. run_app-IsGood turns left.0 left.1 c.1 r.1 h.0 h.1)))

    -- So does a session on a new editor.
    pub run_app-new-IsGood :
        (turns : List (Turn Rect)) (config_path : FilePath) (doc : EditorDoc) (disk : Disk)
        → AreComplete turns
        → AreAnswered R turns
        → P (new config_path doc, disk)
        → Returns (IsGood P) (run_app kit turns (new config_path doc) disk)
    unfolding new
    run_app-new-IsGood turns config_path doc disk c r p =
        run_app-IsGood turns (new config_path doc) disk c r tt p

  -- Opening a file returns the error of the reading, before the terminal is initialised; where the
  -- reading succeeds and the terminal cannot be initialised, it panics; and where both succeed, no
  -- panic follows, whatever is read from the terminal and whatever the operating system and the
  -- validator answer, drawing included: the editor ends with well-formed forms and with registered
  -- types and templates on its screen. A split of the screen has a rectangle for each constraint.
  pub run-EndsAs :
      (init : Run (Unit {0})) (platform : Platform) (config : FilePath) (turns : List (Turn Rect))
      (disk : Disk)
      → AreComplete turns
      → EndsAs (load platform config disk) init (run kit init platform config turns disk)
  unfolding run
  run-EndsAs init platform config turns disk c = ended (load platform config disk) init
    where
      ended :
          (loaded : Result EditorError EditorDoc) (init : Run (Unit {0}))
          → EndsAs loaded init (elim loaded [
            | err e ↦ ret (err e)
            | ok doc ↦ do
              terminal ← init
              left ← run_app kit turns (new config doc) disk
              ret (ok left)
          ])
      ended (err e) init = refl
      ended (ok doc) Run.panic = refl
      ended (ok doc) (Run.ret u) =
          Returns->>= (IsGood (λ left. Unit)) Ends (run_app kit turns (new config doc) disk) _
            (run_app-new-IsGood Anything (λ left. Unit) (anything-IsKept kit Anything) turns config
              doc disk c (All-Anything turns) tt)
            (λ left h. h.0)
