-- ===== src/Editor/Saves.antt =====
-- The document, its flag and the disk under any key: the top-level screen, and `on_key`
-- (crates/collector/src/editor/app.rs).
use securitygingercia.Doc.{pipelines_referencing}
use securitygingercia.Editor.Top.{
  open_selected, remove_selected, top_char, handle_top_level, after_save, remove_id, save_app,
}
use securitygingercia.Prelude.{
  none, nil-or-cons, chosen, eqb, get_elem?, String, ℕ, ◌⊎◌, true, false, refl, ◌≡◌, inl, inr,
  ◌>>=◌, Run, ret, Returns, if◌then◌else◌, ◌&&◌, is_ok, Result, ok, err, Option-cases, code,
}
use securitygingercia.Doc.Save.{Disk, Platform, Environment, save, EditorError}
use securitygingercia.Keys.{is_char, Toolkit, KeyEvent, KeyCode}
use securitygingercia.Editor.State.{
  ids_for_tab, TopTab, App, Screen, top_level, category, default_screen, screen_accepts_help_hotkey,
}
use securitygingercia.Editor.Edits.{Edit, Question}
use securitygingercia.Editor.Handle.{on_key, handle_screen, handle_key, key_below}
use securitygingercia.Editor.Changes.{
  IfReturns, IfReturns->>=, either, refine_Returns, Kept, as_it_was, agreed, handle_screen-Kept,
  NextKeeps,
}
use securitygingercia.Editor.NoPanic.{AppIsSafe, on_key-IsSafe}
use securitygingercia.Editor.Safety.{IsSafe}

module _ {Input : Type 0} (kit : Toolkit Input) where
  remove_id-Kept :
      (tab : TopTab) (app : App Input) (id : String)
      → NextKeeps kit none app (remove_id kit tab app id)
  unfolding remove_id
  remove_id-Kept tab app id = elim (Option-cases (category tab)) [
    | inl e ↦ rw (e, remove_id) (refl, inr (refl, Edit.take_pipeline id refl))
    | inr (c, e) ↦ elim (nil-or-cons (pipelines_referencing c id app.doc)) [
      | inl n ↦ rw (e, n, remove_id) (refl, inr (refl, Edit.take c id n refl))
      | inr (name, names, n) ↦ rw (e, n, remove_id) (as_it_was kit none app)
    ]
  ]

  remove_selected-Kept :
      (tab : TopTab) (selected : ℕ) (app : App Input)
      → NextKeeps kit none app (remove_selected kit tab selected app)
  unfolding remove_selected
  remove_selected-Kept tab selected app =
      elim (Option-cases (get_elem? (ids_for_tab tab app.doc) selected)) [
        | inl e ↦ rw (e, remove_selected) (as_it_was kit none app)
        | inr (id, e) ↦ rw (e, remove_selected) (remove_id-Kept tab app id)
      ]

  module _ (platform : Platform) (env : Environment) where
    -- The document and the flag kept in step, and the disk left alone.
    abbrev pub Untouched : Question → App Input → Disk → App Input → Disk → Type 0
    Untouched asked app disk app' disk' = Kept kit asked app app' × (disk' ≡ disk)

    -- The document saved: the flag is cleared if and only if that succeeds.
    abbrev pub Saved : App Input → Disk → App Input → Disk → Type 0
    Saved app disk app' disk' =
        (app'.config_path ≡ app.config_path)
        × (app'.doc ≡ app.doc)
        × (disk' ≡ (save platform env app.doc app.config_path disk).1)
        × (app'.dirty ≡ (
            if is_ok (save platform env app.doc app.config_path disk).0 then false else app.dirty))

    abbrev LeftIs : Question → App Input → Disk → App Input × Screen Input × Disk → Type 0
    LeftIs asked app disk (app', screen, disk') =
        Untouched asked app disk app' disk' ⊎ Saved app disk app' disk'

    -- What a save leaves, of any outcome.
    after_save-Saved :
        (app : App Input) (disk : Disk) (result : Result EditorError (Unit {0})) (disk' : Disk)
        → ((after_save kit app result).config_path ≡ app.config_path)
          × ((after_save kit app result).doc ≡ app.doc)
          × (disk' ≡ disk')
          × ((after_save kit app result).dirty ≡ (if is_ok result then false else app.dirty))
    after_save-Saved app disk (ok u) disk' = (refl, refl, refl, refl)
    after_save-Saved app disk (err e) disk' = (refl, refl, refl, refl)

    save_app-Saved :
        (app : App Input) (disk : Disk)
        → Saved app disk
            (save_app kit platform env app disk).0
            (save_app kit platform env app disk).1
    unfolding save_app
    save_app-Saved app disk =
        after_save-Saved app disk (save platform env app.doc app.config_path disk).0
          (save platform env app.doc app.config_path disk).1

    top_char-LeftIs :
        (n : ℕ) (tab : TopTab) (selected : ℕ) (app : App Input) (disk : Disk)
        → LeftIs none app disk (top_char kit platform env n tab selected app disk)
    unfolding top_char
    top_char-LeftIs n tab selected app disk =
        chosen (LeftIs none app disk) (eqb n b'q') _ _ (inl ((refl, inl (refl, refl)), refl)) (
          chosen (LeftIs none app disk) (eqb n b'a') _ _ (inl (as_it_was kit none app, refl)) (
            chosen (LeftIs none app disk) (eqb n b'T') _ _ (inl (as_it_was kit none app, refl)) (
              chosen (LeftIs none app disk) (eqb n b'd') _ _
                (inl (remove_selected-Kept tab selected app, refl))
                (chosen (LeftIs none app disk) (eqb n b's') _ _ (inr (save_app-Saved app disk))
                  (inl (as_it_was kit none app, refl))))))

    top_level-LeftIs :
        (tab : TopTab) (selected : ℕ) (code : KeyCode) (app : App Input) (disk : Disk)
        → IfReturns
            (LeftIs none app disk)
            (handle_top_level kit platform env tab selected code app disk)
    unfolding handle_top_level
    top_level-LeftIs tab selected (KeyCode.char c) app disk =
        top_char-LeftIs (code c) tab selected app disk
    top_level-LeftIs tab selected KeyCode.enter app disk =
        IfReturns->>= (LeftIs none app disk) (open_selected kit tab selected app.doc) _
          (λ screen. inl (as_it_was kit none app, refl))
    top_level-LeftIs tab selected KeyCode.delete app disk =
        inl (remove_selected-Kept tab selected app, refl)
    top_level-LeftIs tab selected KeyCode.esc app disk = inl ((refl, inl (refl, refl)), refl)
    top_level-LeftIs tab selected KeyCode.tab app disk = inl (as_it_was kit none app, refl)
    top_level-LeftIs tab selected KeyCode.back_tab app disk = inl (as_it_was kit none app, refl)
    top_level-LeftIs tab selected KeyCode.left app disk = inl (as_it_was kit none app, refl)
    top_level-LeftIs tab selected KeyCode.right app disk = inl (as_it_was kit none app, refl)
    top_level-LeftIs tab selected KeyCode.up app disk = inl (as_it_was kit none app, refl)
    top_level-LeftIs tab selected KeyCode.down app disk = inl (as_it_was kit none app, refl)
    top_level-LeftIs tab selected (KeyCode.other n) app disk = inl (as_it_was kit none app, refl)

    next-LeftIs :
        (screen : Screen Input) (key : KeyEvent) (app : App Input) (disk : Disk)
        (m : Run (App Input × Screen Input))
        → IfReturns (NextKeeps kit (agreed key screen) app) m
        → IfReturns
            (LeftIs (agreed key screen) app disk)
            (m >>= (λ (app', screen'). ret (app', screen', disk)))
    next-LeftIs screen key app disk (Run.ret next) h = inl (h, refl)
    next-LeftIs screen key app disk Run.panic h = tt

    handle_key-LeftIs :
        (screen : Screen Input) (key : KeyEvent) (app : App Input) (disk : Disk)
        → IfReturns
            (LeftIs (agreed key screen) app disk)
            (handle_key kit platform env screen key app disk)
    unfolding handle_key
    handle_key-LeftIs (top_level tab selected) key app disk =
        top_level-LeftIs tab selected key.code app disk
    handle_key-LeftIs screen key app disk =
        next-LeftIs screen key app disk (handle_screen kit screen key app)
          (handle_screen-Kept kit screen key app)

    abbrev pub AppIs : KeyEvent → App Input → Disk → App Input × Disk → Type 0
    AppIs key app disk (app', disk') =
        Untouched (agreed key app.screen) app disk app' disk' ⊎ Saved app disk app' disk'

    below-AppIs :
        (key : KeyEvent) (app : App Input) (disk : Disk) (m : Run (App Input × Screen Input × Disk))
        → IfReturns (LeftIs (agreed key app.screen) app disk) m
        → IfReturns
            (AppIs key app disk)
            (m >>= (λ (app', screen, disk'). ret (record app' { screen = screen }, disk')))
    below-AppIs key app disk (Run.ret (app', screen, disk')) h = h
    below-AppIs key app disk Run.panic h = tt

    key_below-AppIs :
        (key : KeyEvent) (app : App Input) (disk : Disk)
        → IfReturns (AppIs key app disk) (key_below kit platform env key app disk)
    unfolding key_below
    key_below-AppIs key app disk =
        below-AppIs key app disk
          (handle_key kit platform env app.screen key (record app { screen = default_screen }) disk)
          (handle_key-LeftIs app.screen key (record app { screen = default_screen }) disk)

    on_key-AppIs :
        (key : KeyEvent) (app : App Input) (disk : Disk)
        → IfReturns (AppIs key app disk) (on_key kit platform env key app disk)
    unfolding on_key
    on_key-AppIs key app disk =
        either (AppIs key app disk) app.show_help (ret (record app { show_help = false }, disk)) _
          (inl ((refl, inl (refl, refl)), refl))
          (either (AppIs key app disk)
            (is_char b'?' key.code && screen_accepts_help_hotkey app.screen)
            (ret (record app { show_help = true }, disk)) _ (inl ((refl, inl (refl, refl)), refl))
            (key_below-AppIs key app disk))

    -- From a safe screen, any key leaves the path and the disk as they were, and the document and
    -- its flag as they were as well, or the document edited by one of five edits and the flag set,
    -- where a component that pipelines reference is removed only by a `y` to the question about
    -- it, and with the references; or it has saved the document, and then the disk is what the
    -- save leaves, and the flag is cleared exactly if the save succeeds.
    pub on_key-saves :
        (key : KeyEvent) (app : App Input) (disk : Disk)
        → IsSafe app.screen
        → Returns (AppIs key app disk) (on_key kit platform env key app disk)
    on_key-saves key app disk s =
        refine_Returns (AppIsSafe kit platform env) (AppIs key app disk)
          (on_key kit platform env key app disk) (on_key-IsSafe kit platform env key app disk s)
          (on_key-AppIs key app disk)
