-- ===== src/Editor/Session/Unsaved.antt =====
-- The flag of unsaved changes and the files over a whole session (`run_app` of
-- crates/collector/src/editor/mod.rs).
use securitygingercia.Prelude.{
  [], ◌∷◌, String, Bool, false, some, ◌≡◌, ◌≢◌, refl, sym, ◌∙◌, subst, ◌⊎◌, inl, inr, Result, ok,
  err, is_ok, List, if◌then◌else◌, Returns, Returns-map, ap,
}
use securitygingercia.Keys.{Toolkit}
use securitygingercia.Doc.{EditorDoc, to_value}
use securitygingercia.Doc.Save.{
  validate_with_binary, Environment, Disk, Platform, FilePath, EditorError, save,
  otelcol_binary_path,
}
use securitygingercia.Doc.Saving.{
  SaveOutcome, save_with_binary-outcome, save_with_binary-other, IsOther,
}
use securitygingercia.Editor.State.{App, new}
use securitygingercia.Editor.Session.{◌∷◌, Turn, run_app}
use securitygingercia.Editor.Session.Invariants.{
  All-Anything, Anything, AreAnswered, Answering, changes-IsKept, IsKeptByChanges, IsGood,
  AreComplete, run_app-new-IsGood,
}

-- What answers in one of the turns.
abbrev pub AnswersIn : {Rect : Type 0} → List (Turn Rect) → Answering
AnswersIn [] platform env = ⊥
AnswersIn (turn ∷ turns) platform env =
    ((turn.platform ≡ platform) × (turn.env ≡ env)) ⊎ AnswersIn turns platform env

AreAnswered-longer :
    {Rect : Type 0} (turn : Turn Rect) (turns later : List (Turn Rect))
    → AreAnswered (AnswersIn turns) later
    → AreAnswered (AnswersIn (turn ∷ turns)) later
AreAnswered-longer turn turns [] h = tt
AreAnswered-longer turn turns (next ∷ later) h = (inr h.0, AreAnswered-longer turn turns later h.1)

All-AnswersIn : {Rect : Type 0} (turns : List (Turn Rect)) → AreAnswered (AnswersIn turns) turns
All-AnswersIn [] = tt
All-AnswersIn (turn ∷ turns) =
    (inl (refl, refl), AreAnswered-longer turn turns turns (All-AnswersIn turns))

-- The file at the path is what it was, and so is the document; or in one of the turns the validator
-- accepted the document and the YAML library gave a text of it, and the file is that text.
abbrev pub InStep : Answering → FilePath → EditorDoc → Disk → EditorDoc → Disk → Type 0
InStep R path doc disk doc' disk' =
    ((doc' ≡ doc) × (disk' path ≡ disk path))
    ⊎ ((platform : Platform) × (env : Environment) × R platform env
        × (validate_with_binary platform doc' (otelcol_binary_path env) ≡ ok tt)
        × ((text : String) × (platform.to_yaml (to_value doc') ≡ ok text)
            × (disk' path ≡ some text)))

module _ {Input : Type 0} (kit : Toolkit Input) (R : Answering) (path : FilePath) (doc : EditorDoc)
    (disk : Disk) where
  -- Where the flag is clear, they are in step.
  abbrev pub IsClean : App Input × Disk → Type 0
  IsClean (app, disk') =
      (app.config_path ≡ path) × ((app.dirty ≡ false) → InStep R path doc disk app.doc disk')

  InStep-move :
      (doc1 doc2 : EditorDoc) (disk1 disk2 : Disk)
      → doc2 ≡ doc1
      → disk2 path ≡ disk1 path
      → InStep R path doc disk doc1 disk1
      → InStep R path doc disk doc2 disk2
  InStep-move doc1 doc2 disk1 disk2 e f (inl (g, h)) = inl (e ∙ g, f ∙ h)
  InStep-move doc1 doc2 disk1 disk2 e f (inr (platform, env, r, v, (text, g, h))) = inr (
    platform,
    env,
    r,
    subst (λ d. validate_with_binary platform d (otelcol_binary_path env) ≡ ok tt) (sym e) v,
    (text, subst (λ d. platform.to_yaml (to_value d) ≡ ok text) (sym e) g, f ∙ h),
  )

  after_save-InStep :
      (platform : Platform) (env : Environment) (doc1 : EditorDoc) (disk1 : Disk) (dirty : Bool)
      (result : Result EditorError (Unit {0}) × Disk)
      → R platform env
      → SaveOutcome platform path (otelcol_binary_path env) doc1 disk1 result
      → ((dirty ≡ false) → InStep R path doc disk doc1 disk1)
      → (if is_ok result.0 then false else dirty) ≡ false
      → InStep R path doc disk doc1 result.1
  after_save-InStep platform env doc1 disk1 dirty (ok u, disk2) r o h e =
      inr (platform, env, r, o.4, (o.0, o.1, o.2))
  after_save-InStep platform env doc1 disk1 dirty (err x, disk2) r o h e =
      InStep-move doc1 doc1 disk1 disk2 refl o (h e)

  IsClean-IsKept : path.extension ≢ some "yaml.tmp" → IsKeptByChanges kit R IsClean
  unfolding save
  IsClean-IsKept x platform env key app disk1 (app2, disk2) r
        (inl ((p, inl (same, flag)), disk_same)) (q, h) =
      (
        p ∙ q,
        λ e.
            InStep-move app.doc app2.doc disk1 disk2 same (ap (λ d. d path) disk_same)
              (h (sym flag ∙ e)),
      )
  IsClean-IsKept x platform env key app disk1 (app2, disk2) r
        (inl ((p, inr (flag, edit)), disk_same)) (q, h) =
      (p ∙ q, λ e. absurd (cc (flag, e)))
  IsClean-IsKept x platform env key app disk1 (app2, disk2) r (inr (p, same, disk_saved, flag))
        (q, h) =
      let d = rw q at disk_saved in
      let f = rw q at flag in
      (
        p ∙ q,
        λ e.
            subst (λ disk3. InStep R path doc disk app2.doc disk3) (sym d)
              (InStep-move app.doc app2.doc (save platform env app.doc path disk1).1
                (save platform env app.doc path disk1).1 same refl
                (after_save-InStep platform env app.doc disk1 app.dirty
                  (save platform env app.doc path disk1) r
                  (save_with_binary-outcome platform path (otelcol_binary_path env) app.doc disk1 x)
                  h (sym f ∙ e))),
      )

  abbrev pub IsLeftAlone : FilePath → App Input × Disk → Type 0
  IsLeftAlone other (app, disk') = (app.config_path ≡ path) × (disk' other ≡ disk other)

  IsLeftAlone-IsKept :
      (other : FilePath) → IsOther path other → IsKeptByChanges kit R (IsLeftAlone other)
  unfolding save
  IsLeftAlone-IsKept other o platform env key app disk1 left r (inl ((p, kept), disk_same)) (q, h) =
      (p ∙ q, ap (λ d. d other) disk_same ∙ h)
  IsLeftAlone-IsKept other o platform env key app disk1 left r (inr (p, same, disk_saved, flag))
        (q, h) =
      let d = rw q at disk_saved in
      (
        p ∙ q,
        ap (λ d. d other) d
            ∙ save_with_binary-other platform path other (otelcol_binary_path env) app.doc disk1 o
            ∙ h,
      )

module _ {Input : Type 0} (kit : Toolkit Input) (path : FilePath) (doc : EditorDoc)
    (disk : Disk) where
  -- A session on a path whose extension is not `yaml.tmp` keeps this: where there are no unsaved
  -- changes, the document and its file are as they were at the start, or in one of the session's
  -- turns the validator accepted the document, the YAML library gave a text of it, and the file is
  -- that text. A split of the screen has a rectangle for each constraint.
  pub run_app-IsClean :
      {Rect : Type 0} (turns : List (Turn Rect))
      → AreComplete turns
      → path.extension ≢ some "yaml.tmp"
      → Returns
          (IsClean kit (AnswersIn turns) path doc disk)
          (run_app kit turns (new path doc) disk)
  unfolding new
  run_app-IsClean turns c x =
      Returns-map (IsGood (IsClean kit (AnswersIn turns) path doc disk)) _
        (run_app kit turns (new path doc) disk)
        (run_app-new-IsGood kit (AnswersIn turns) (IsClean kit (AnswersIn turns) path doc disk)
          (changes-IsKept kit (AnswersIn turns) (IsClean kit (AnswersIn turns) path doc disk)
            (IsClean-IsKept kit (AnswersIn turns) path doc disk x))
          turns path doc disk c (All-AnswersIn turns) (refl, λ e. inl (refl, refl)))
        (λ left h. h.1)

  -- No session touches a file whose path reads otherwise than the path that it is opened on and
  -- than that of its temporary neighbour, whatever it reads. A split of the screen has a rectangle
  -- for each constraint.
  pub run_app-IsLeftAlone :
      {Rect : Type 0} (turns : List (Turn Rect)) (other : FilePath)
      → AreComplete turns
      → IsOther path other
      → Returns
          (IsLeftAlone kit Anything path doc disk other)
          (run_app kit turns (new path doc) disk)
  unfolding new
  run_app-IsLeftAlone turns other c o =
      Returns-map (IsGood (IsLeftAlone kit Anything path doc disk other)) _
        (run_app kit turns (new path doc) disk)
        (run_app-new-IsGood kit Anything (IsLeftAlone kit Anything path doc disk other)
          (changes-IsKept kit Anything (IsLeftAlone kit Anything path doc disk other)
            (IsLeftAlone-IsKept kit Anything path doc disk other o))
          turns path doc disk c (All-Anything turns) (refl, refl))
        (λ left h. h.1)
