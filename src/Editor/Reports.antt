-- ===== src/Editor/Reports.antt =====
-- What the user is told of a save: the key `s` of the top-level screen
-- (crates/collector/src/editor/app.rs, crates/collector/src/editor/model.rs).
use securitygingercia.Prelude.{
  branched, ℕ, String, true, false, some, is_prefix_of, ◌+++◌, Result, ok, err, eqb→eq, ◌≡◌, ◌≢◌,
  refl, Returns, ret, Option, none, ◌&&◌, code,
}
use securitygingercia.Prelude.TextLaws.{is_prefix_of-append, is_prefix_of_self}
use securitygingercia.Doc.{to_value}
use securitygingercia.Doc.Save.{
  Disk, Platform, Environment, EditorError, save, error_text, display, otelcol_binary_path,
  validate_with_binary,
}
use securitygingercia.Doc.Saving.{SaveOutcome, save_with_binary-outcome}
use securitygingercia.Keys.{is_char, Toolkit, KeyEvent, KeyCode}
use securitygingercia.Editor.State.{
  screen_accepts_help_hotkey, TopTab, App, Screen, top_level, default_screen,
}
use securitygingercia.Editor.Common.{with_hint, save_error_hint}
use securitygingercia.Editor.Top.{handle_top_level, top_char, save_app, after_save}
use securitygingercia.Editor.Handle.{on_key, key_below, handle_key}

is_prefix_of-with_hint :
    (message : String) (hint : Option String) → is_prefix_of message (with_hint message hint) ≡ true
is_prefix_of-with_hint message none = is_prefix_of_self message
is_prefix_of-with_hint message (some hint) = is_prefix_of-append message hint

not_help : (key : KeyCode) → is_char b's' key ≡ true → is_char b'?' key ≡ false
unfolding is_char
not_help (KeyCode.char c) h = rw (eqb→eq (code c) b's' h) refl
not_help _ h = cc

module _ {Input : Type 0} (kit : Toolkit Input) (platform : Platform) (env : Environment) where
  -- What a save that ended with a result tells: a message of success and no unsaved changes, once
  -- the validator has accepted the document and the file holds its text; or a message that
  -- begins with the error, the flag as it was and the file as it was.
  abbrev pub Tells : App Input → Disk → Result EditorError (Unit {0}) → App Input × Disk → Type 0
  Tells app disk (ok _) (app', disk') =
      (app'.status_message ≡ some ("saved " +++ display app.config_path))
      × (app'.dirty ≡ false)
      × (validate_with_binary platform app.doc (otelcol_binary_path env) ≡ ok tt)
      × ((text : String) × (platform.to_yaml (to_value app.doc) ≡ ok text)
          × (disk' app.config_path ≡ some text))
  Tells app disk (err e) (app', disk') =
      ((message : String) × (app'.status_message ≡ some message)
        × (is_prefix_of ("save failed: " +++ error_text e) message ≡ true))
      × (app'.dirty ≡ app.dirty)
      × (disk' app.config_path ≡ disk app.config_path)

  -- The result of the save is told, and the editor stays where it was.
  abbrev pub IsReported : TopTab → ℕ → App Input → Disk → App Input × Disk → Type 0
  IsReported tab selected app disk (app', disk') =
      Tells app disk (save platform env app.doc app.config_path disk).0 (app', disk')
      × (app'.doc ≡ app.doc)
      × (app'.screen ≡ top_level tab selected)
      × (app'.should_quit ≡ app.should_quit)

  tells :
      (app : App Input) (screen : Screen Input) (disk : Disk)
      (out : Result EditorError (Unit {0}) × Disk)
      → SaveOutcome platform app.config_path (otelcol_binary_path env) app.doc disk out
      → Tells app disk out.0 (record (after_save kit app out.0) { screen = screen }, out.1)
  tells app screen disk (ok u, disk') (text, yaml, held, gone, valid) =
      (refl, refl, valid, (text, yaml, held))
  tells app screen disk (err e, disk') held = (
    (
      with_hint ("save failed: " +++ error_text e)
          (save_error_hint ("save failed: " +++ error_text e)),
      refl,
      is_prefix_of-with_hint ("save failed: " +++ error_text e)
          (save_error_hint ("save failed: " +++ error_text e)),
    ),
    refl,
    held,
  )

  after_save-stays :
      (app : App Input) (result : Result EditorError (Unit {0}))
      → ((after_save kit app result).doc ≡ app.doc)
        × ((after_save kit app result).should_quit ≡ app.should_quit)
  after_save-stays app (ok u) = (refl, refl)
  after_save-stays app (err e) = (refl, refl)

  handle_top_level-save :
      (tab : TopTab) (selected : ℕ) (key : KeyCode) (app : App Input) (disk : Disk)
      → is_char b's' key ≡ true
      → handle_top_level kit platform env tab selected key app disk
        ≡ ret (
          (save_app kit platform env app disk).0,
          top_level tab selected,
          (save_app kit platform env app disk).1,
        )
  unfolding handle_top_level top_char is_char
  handle_top_level-save tab selected (KeyCode.char c) app disk h = rw (eqb→eq (code c) b's' h) refl
  handle_top_level-save tab selected _ app disk h = cc

  key_below-IsReported :
      (tab : TopTab) (selected : ℕ) (key : KeyEvent) (app : App Input) (disk : Disk)
      → app.config_path.extension ≢ some "yaml.tmp"
      → app.screen ≡ top_level tab selected
      → is_char b's' key.code ≡ true
      → Returns (IsReported tab selected app disk) (key_below kit platform env key app disk)
  unfolding key_below handle_key save_app save
  key_below-IsReported tab selected key app disk ext screen h =
      rw
        (
          screen,
          handle_top_level-save tab selected key.code (record app { screen = default_screen }) disk
              h,
        )
        (
          tells (record app { screen = default_screen }) (top_level tab selected) disk
              (save platform env app.doc app.config_path disk)
              (save_with_binary-outcome platform app.config_path (otelcol_binary_path env) app.doc
                disk ext),
          stays.0,
          refl,
          stays.1,
        )
    where
      stays :
          ((after_save kit
              (record app { screen = default_screen })
              (save platform env app.doc app.config_path disk).0).doc
            ≡ app.doc)
          × ((after_save kit
                (record app { screen = default_screen })
                (save platform env app.doc app.config_path disk).0).should_quit
              ≡ app.should_quit)
      stays =
          after_save-stays (record app { screen = default_screen })
            (save platform env app.doc app.config_path disk).0

  -- The key `s` of the top-level screen, with no help over it and a file whose extension is not
  -- `yaml.tmp`, reports what the save came to. After a success the validator has accepted the
  -- document, the file holds its text, the message says so and there are no unsaved changes; after
  -- a failure the message begins with the error, and the file and the flag are as they were. The
  -- document, the screen and the wish to quit are as they were.
  pub on_key-IsReported :
      (tab : TopTab) (selected : ℕ) (key : KeyEvent) (app : App Input) (disk : Disk)
      → app.config_path.extension ≢ some "yaml.tmp"
      → app.show_help ≡ false
      → app.screen ≡ top_level tab selected
      → is_char b's' key.code ≡ true
      → Returns (IsReported tab selected app disk) (on_key kit platform env key app disk)
  unfolding on_key
  on_key-IsReported tab selected key app disk ext help screen h =
      branched (IsReported tab selected app disk) app.show_help _ _ (λ shown. cc)
        (λ _.
          branched (IsReported tab selected app disk)
            (is_char b'?' key.code && screen_accepts_help_hotkey app.screen) _ _
            (λ asked. cc (rw (not_help key.code h) at asked))
            (λ _. key_below-IsReported tab selected key app disk ext screen h))
