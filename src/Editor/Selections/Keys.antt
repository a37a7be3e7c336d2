-- ===== src/Editor/Selections/Keys.antt =====
-- The selections under any key (`handle_key` and `on_key` of crates/collector/src/editor/app.rs).
use securitygingercia.Prelude.{
  refl, sym, subst, Option, ℕ, String, List, ◌≡◌, true, false, none, some, inl, inr, Option-cases,
  nil-or-cons, chosen, eqb, expect, ◌&&◌, ◌>>=◌, Run, ret, Returns, Returns-map, get_elem?, Result,
  ok, err, code,
}
use securitygingercia.Json.{get, Value}
use securitygingercia.Keys.{Toolkit, KeyEvent, KeyCode, is_char}
use securitygingercia.Schema.Spec.{ComponentCategory, ComponentTypeSpec}
use securitygingercia.Schema.Types.{types_for}
use securitygingercia.Doc.{EditorDoc, pipelines_referencing}
use securitygingercia.Doc.Save.{Disk, FilePath, Platform, Environment, EditorError, save}
use securitygingercia.Form
use securitygingercia.Form.{
  focused_kind, FormState, FormOutcome, continue, cancel, submit, on_key as form_on_key, to_value,
  operators,
}
use securitygingercia.Editor.State.{
  is_receivers, App, Screen, TopTab, top_level, edit_component, ids_for_tab, category, map_for,
  pipeline_fields, default_screen, new, screen_accepts_help_hotkey,
}
use securitygingercia.Editor.Top.{
  handle_top_level, top_char, save_app, after_save, add_to, remove_selected, remove_id,
  open_selected, open_id, spec_for,
}
use securitygingercia.Editor.Handle.{on_key, key_below, handle_key, handle_screen}
use securitygingercia.Editor.Changes.{IfReturns, IfReturns->>=, either, refine_Returns}
use securitygingercia.Editor.Safety.{IsSafe}
use securitygingercia.Editor.NoPanic.{AppIsSafe, on_key-IsSafe}
use securitygingercia.Editor.Session.{Turn, run_app}
use securitygingercia.Editor.Session.Invariants.{
  Anything, All-Anything, AreComplete, IsGood, run_app-new-IsGood,
}
use securitygingercia.Editor.Selections.{
  source_templates, IsWithin, InRange, NextIsInRange, first-IsWithin, down-IsWithin, up-IsWithin,
}
use securitygingercia.Editor.Selections.Screens.{
  top-IsInRange, then_left, with_disk, handle_screen-IsInRange,
}

module _ {Input : Type 0} (kit : Toolkit Input) where
  open_id-IsInRange :
      (tab : TopTab) (selected : ℕ) (doc : EditorDoc) (id : String)
      → IsWithin selected (ids_for_tab tab doc)
      → IfReturns (InRange doc) (open_id kit tab selected doc id)
  unfolding open_id
  open_id-IsInRange tab selected doc id h = elim (Option-cases (category tab)) [
    | inl e ↦
        rw (e, open_id)
          (IfReturns->>= (InRange doc) (expect (get id doc.pipelines)) _ (λ value.
            IfReturns->>= (InRange doc) (Form.new kit none false pipeline_fields value) _
              (λ form. tt)))
    | inr (c, e) ↦
        rw (e, open_id)
          (IfReturns->>= (InRange doc) (expect (get id (map_for c doc))) _
            (λ value. opened c value (spec_for kit c id)))
  ]
    where
      opened :
          (c : ComponentCategory) (value : Value) (o : Option ComponentTypeSpec)
          → IfReturns (InRange doc) (elim o [
            | none ↦ ret (top_level tab selected)
            | some spec ↦ do
              form ← Form.new kit (some spec.type_name) false spec.fields value
              ret (edit_component c id form)
          ])
      opened c value none = h
      opened c value (some spec) =
          IfReturns->>= (InRange doc) (Form.new kit (some spec.type_name) false spec.fields value) _
            (λ form. tt)

  open_selected-IsInRange :
      (tab : TopTab) (selected : ℕ) (doc : EditorDoc)
      → IsWithin selected (ids_for_tab tab doc)
      → IfReturns (InRange doc) (open_selected kit tab selected doc)
  unfolding open_selected
  open_selected-IsInRange tab selected doc h =
      elim (Option-cases (get_elem? (ids_for_tab tab doc) selected)) [
        | inl e ↦ rw (e, open_selected) h
        | inr (id, e) ↦ rw (e, open_selected) (open_id-IsInRange tab selected doc id h)
      ]

  remove_id-IsInRange :
      (tab : TopTab) (app : App Input) (id : String) → NextIsInRange kit (remove_id kit tab app id)
  unfolding remove_id
  remove_id-IsInRange tab app id = elim (Option-cases (category tab)) [
    | inl e ↦ rw (e, remove_id) (top-IsInRange kit _ _)
    | inr (c, e) ↦ elim (nil-or-cons (pipelines_referencing c id app.doc)) [
      | inl n ↦ rw (e, n, remove_id) (top-IsInRange kit _ _)
      | inr (name, names, n) ↦ rw (e, n, remove_id) (sym n, cc)
    ]
  ]

  remove_selected-IsInRange :
      (tab : TopTab) (selected : ℕ) (app : App Input)
      → IsWithin selected (ids_for_tab tab app.doc)
      → NextIsInRange kit (remove_selected kit tab selected app)
  unfolding remove_selected
  remove_selected-IsInRange tab selected app h =
      elim (Option-cases (get_elem? (ids_for_tab tab app.doc) selected)) [
        | inl e ↦ rw (e, remove_selected) h
        | inr (id, e) ↦ rw (e, remove_selected) (remove_id-IsInRange tab app id)
      ]

  add_to-IsInRange : (tab : TopTab) (doc : EditorDoc) → InRange doc (add_to kit tab)
  unfolding add_to category
  add_to-IsInRange TopTab.receivers doc = first-IsWithin (types_for _)
  add_to-IsInRange TopTab.exporters doc = first-IsWithin (types_for _)
  add_to-IsInRange TopTab.extensions doc = first-IsWithin (types_for _)
  add_to-IsInRange TopTab.pipelines doc = tt

  after_save-doc :
      (app : App Input) (result : Result EditorError (Unit {0}))
      → (after_save kit app result).doc ≡ app.doc
  after_save-doc app (ok u) = refl
  after_save-doc app (err e) = refl

  module _ (platform : Platform) (env : Environment) where
    abbrev L : App Input × Screen Input × Disk → Type 0
    L (app, screen, disk) = InRange app.doc screen

    top_char-IsInRange :
        (n : ℕ) (tab : TopTab) (selected : ℕ) (app : App Input) (disk : Disk)
        → IsWithin selected (ids_for_tab tab app.doc)
        → L (top_char kit platform env n tab selected app disk)
    unfolding top_char save_app
    top_char-IsInRange n tab selected app disk h = chosen L (eqb n b'q') _ _ h (
        chosen L (eqb n b'a') _ _ (add_to-IsInRange tab app.doc) (
          chosen L (eqb n b'T') _ _
            (chosen (InRange app.doc) (is_receivers tab) _ _ (first-IsWithin source_templates) h)
            (chosen L (eqb n b'd') _ _ (remove_selected-IsInRange tab selected app h) (
              chosen L (eqb n b's') _ _
                (subst (λ doc. IsWithin selected (ids_for_tab tab doc))
                  (sym (after_save-doc app (save platform env app.doc app.config_path disk).0)) h)
                h))))

    top_level-IsInRange :
        (tab : TopTab) (selected : ℕ) (code : KeyCode) (app : App Input) (disk : Disk)
        → IsWithin selected (ids_for_tab tab app.doc)
        → IfReturns L (handle_top_level kit platform env tab selected code app disk)
    unfolding handle_top_level
    top_level-IsInRange tab selected (KeyCode.char c) app disk h =
        top_char-IsInRange (code c) tab selected app disk h
    top_level-IsInRange tab selected KeyCode.enter app disk h =
        then_left kit app disk (open_selected kit tab selected app.doc)
          (open_selected-IsInRange tab selected app.doc h)
    top_level-IsInRange tab selected KeyCode.delete app disk h =
        remove_selected-IsInRange tab selected app h
    top_level-IsInRange tab selected KeyCode.tab app disk h = top-IsInRange kit app.doc _
    top_level-IsInRange tab selected KeyCode.back_tab app disk h = top-IsInRange kit app.doc _
    top_level-IsInRange tab selected KeyCode.down app disk h =
        down-IsWithin (ids_for_tab tab app.doc) selected
    top_level-IsInRange tab selected KeyCode.up app disk h =
        up-IsWithin (ids_for_tab tab app.doc) selected h
    top_level-IsInRange tab selected _ app disk h = h

    handle_key-IsInRange :
        (screen : Screen Input) (key : KeyEvent) (app : App Input) (disk : Disk)
        → IsSafe screen
        → InRange app.doc screen
        → IfReturns L (handle_key kit platform env screen key app disk)
    unfolding handle_key
    handle_key-IsInRange (top_level tab selected) key app disk s h =
        top_level-IsInRange tab selected key.code app disk h
    handle_key-IsInRange screen key app disk s h =
        with_disk kit disk (handle_screen kit screen key app)
          (handle_screen-IsInRange kit screen key app s h)

    -- The selection of the app's screen is in range.
    abbrev pub AppIsInRange : App Input × Disk → Type 0
    AppIsInRange (app, disk) = InRange app.doc app.screen

    below-IsInRange :
        (m : Run (App Input × Screen Input × Disk))
        → IfReturns L m
        → IfReturns AppIsInRange
            (m >>= (λ (app', screen, disk'). ret (record app' { screen = screen }, disk')))
    below-IsInRange (Run.ret left) h = h
    below-IsInRange Run.panic h = tt

    key_below-IsInRange :
        (key : KeyEvent) (app : App Input) (disk : Disk)
        → IsSafe app.screen
        → AppIsInRange (app, disk)
        → IfReturns AppIsInRange (key_below kit platform env key app disk)
    unfolding key_below
    key_below-IsInRange key app disk s h =
        below-IsInRange
          (handle_key kit platform env app.screen key (record app { screen = default_screen }) disk)
          (handle_key-IsInRange app.screen key (record app { screen = default_screen }) disk s h)

    pub on_key-IsInRange :
        (key : KeyEvent) (app : App Input) (disk : Disk)
        → IsSafe app.screen
        → AppIsInRange (app, disk)
        → Returns AppIsInRange (on_key kit platform env key app disk)
    unfolding on_key
    on_key-IsInRange key app disk s h =
        refine_Returns (AppIsSafe kit platform env) AppIsInRange
          (on_key kit platform env key app disk) (on_key-IsSafe kit platform env key app disk s)
          (either AppIsInRange app.show_help (ret (record app { show_help = false }, disk)) _ h (
            either AppIsInRange (is_char b'?' key.code && screen_accepts_help_hotkey app.screen)
              (ret (record app { show_help = true }, disk)) _ h
              (key_below-IsInRange key app disk s h)))

-- On a new editor, after any turns, the selection of a list is one of its indices, or 0 where the
-- list is empty: of the ids, the types, the operators or the templates that the screen shows; an
-- operator that is edited in place is one of the form's; and a removal that is asked about shows
-- the pipelines that reference the component, of which there are some. A split of the screen has a
-- rectangle for each constraint.
pub run_app-IsInRange :
    {Input Rect : Type 0} (kit : Toolkit Input) (turns : List (Turn Rect)) (config_path : FilePath)
    (doc : EditorDoc) (disk : Disk)
    → AreComplete turns
    → Returns
        (λ (app, disk'). InRange app.doc app.screen)
        (run_app kit turns (new config_path doc) disk)
unfolding new
run_app-IsInRange kit turns config_path doc disk c =
    Returns-map (IsGood (λ left. InRange left.0.doc left.0.screen)) _
      (run_app kit turns (new config_path doc) disk)
      (run_app-new-IsGood kit Anything (λ left. InRange left.0.doc left.0.screen)
        (λ platform env key app disk r s h. on_key-IsInRange kit platform env key app disk s h)
        turns config_path doc disk c (All-Anything turns)
        (first-IsWithin (ids_for_tab TopTab.receivers doc)))
      (λ left h. h.1)
