-- ===== src/Editor/Session/Quit.antt =====
-- Leaving the editor by Esc, from every screen (`on_key` of crates/collector/src/editor/app.rs and
-- `run_app` of crates/collector/src/editor/mod.rs).
use securitygingercia.Editor.NoPanic.{on_key-IsSafe}
use securitygingercia.Prelude.{
  branched, ◌>>=◌, none, ℕ, ◌+◌, ◌≤◌, ◌<◌, arith, Bool, true, false, some, ◌≡◌, refl, ◌∙◌, ◌⊎◌, inl,
  inr, List, [], ◌∷◌, All, length, ret, if◌then◌else◌, Returns, Returns->>=, Returns-map, ap,
}
use securitygingercia.Keys.{Toolkit, KeyEvent, KeyCode, is_char}
use securitygingercia.Doc.Save.{Disk, Platform, Environment}
use securitygingercia.Form
use securitygingercia.Form.{on_key as form_on_key, form_key, advance_focus}
use securitygingercia.Templates.Params.{find-IsSound}
use securitygingercia.Editor.State.{
  App, Screen, top_level, pick_type, name_new_component, name_new_pipeline, edit_component,
  edit_pipeline, confirm_remove, operator_list, operator_pick_type, operator_edit, template_browse,
  name_template_receiver, edit_template_params, review_template_receiver, default_screen,
}
use securitygingercia.Editor.Lists.{
  handle_pick_type, handle_operator_list, handle_operator_pick_type, handle_template_browse,
}
use securitygingercia.Editor.Top.{handle_top_level}
use securitygingercia.Editor.Handle.{
  on_key, key_below, handle_key, handle_screen, name_component, name_pipeline, component_key,
  component_outcome, pipeline_key, pipeline_outcome, confirm_key, operator_outcome, name_template,
  params_outcome, review_key,
}
use securitygingercia.Editor.Safety.{IsSafe, new-Returns}
use securitygingercia.Editor.View.Draw.{draw}
use securitygingercia.Editor.View.Safety.{IsDrawn, draw-Returns}
use securitygingercia.Editor.Session.{Turn, read_event, run_app}
use securitygingercia.Editor.Session.Invariants.{both, LeftIsSafe, AreComplete}

abbrev pub escape : ℕ → KeyEvent
escape modifiers = record { code = KeyCode.esc; modifiers = modifiers }

-- Every turn reads Esc.
abbrev pub AreEscapes : {Rect : Type 0} → List (Turn Rect) → Type 0
AreEscapes turns = All (λ turn. (modifiers : ℕ) × (turn.key ≡ some (escape modifiers))) turns

-- How many keys Esc a screen is away from the end, at most.
abbrev rank : {Input : Type 0} → Screen Input → ℕ
rank (top_level tab selected) = 1
rank (operator_list c id form selected) = 3
rank (review_template_receiver template_key id params receiver) = 3
rank (operator_pick_type c id form selected) = 4
rank (operator_edit c id form index op_form) = 4
rank _ = 2

abbrev help_rank : Bool → ℕ
help_rank show_help = if show_help then 1 else 0

-- The document and the disk are the same, and the editor has quit.
abbrev pub HasQuit : {Input : Type 0} → App Input → Disk → App Input × Disk → Type 0
HasQuit app disk (app', disk') = (app'.should_quit ≡ true) × (app'.doc ≡ app.doc) × (disk' ≡ disk)

module _ {Input : Type 0} (kit : Toolkit Input) (platform : Platform) (env : Environment) where
  abbrev IsCloser : Screen Input → App Input → Disk → App Input × Screen Input × Disk → Type 0
  IsCloser screen app disk (app', screen', disk') =
      (disk' ≡ disk)
      × (app'.doc ≡ app.doc)
      × (app'.show_help ≡ app.show_help)
      × ((app'.should_quit ≡ true) ⊎ (rank screen' < rank screen))

  handle_key-IsCloser :
      (screen : Screen Input) (modifiers : ℕ) (app : App Input) (disk : Disk)
      → IsSafe screen
      → Returns
          (IsCloser screen app disk)
          (handle_key kit platform env screen (escape modifiers) app disk)
  unfolding handle_key handle_screen handle_top_level handle_pick_type name_component name_pipeline
      component_key component_outcome pipeline_key pipeline_outcome confirm_key handle_operator_list
      handle_operator_pick_type operator_outcome handle_template_browse name_template params_outcome
      review_key form_on_key form_key is_char
  handle_key-IsCloser (top_level tab selected) m app disk s = (refl, refl, refl, inl refl)
  handle_key-IsCloser (pick_type c selected) m app disk s = (refl, refl, refl, inr (omega arith))
  handle_key-IsCloser (name_new_component c type_name input) m app disk s =
      (refl, refl, refl, inr (omega arith))
  handle_key-IsCloser (name_new_pipeline input) m app disk s = (refl, refl, refl, inr (omega arith))
  handle_key-IsCloser (edit_component c id form) m app disk s =
      (refl, refl, refl, inr (omega arith))
  handle_key-IsCloser (edit_pipeline id form) m app disk s = (refl, refl, refl, inr (omega arith))
  handle_key-IsCloser (confirm_remove c id blocking) m app disk s =
      (refl, refl, refl, inr (omega arith))
  handle_key-IsCloser (operator_list c id form selected) m app disk s =
      (refl, refl, refl, inr (omega arith))
  handle_key-IsCloser (operator_pick_type c id form selected) m app disk s =
      (refl, refl, refl, inr (omega arith))
  handle_key-IsCloser (operator_edit c id form index op_form) m app disk s =
      (refl, refl, refl, inr (omega arith))
  handle_key-IsCloser (template_browse selected) m app disk s =
      (refl, refl, refl, inr (omega arith))
  handle_key-IsCloser (name_template_receiver template_key input) m app disk s =
      (refl, refl, refl, inr (omega arith))
  handle_key-IsCloser (edit_template_params template_key id form) m app disk s =
      (refl, refl, refl, inr (omega arith))
  handle_key-IsCloser (review_template_receiver template_key id params receiver) m app disk (t, e) =
      rw e (
        Returns->>= (λ (next : App Input × Screen Input). (next.0 ≡ app) × (rank next.1 ≡ 2))
          (IsCloser (review_template_receiver template_key id params receiver) app disk)
          (Form.new kit none false t.params params >>= λ form.
            ret (app, edit_template_params template_key id form))
          (λ next. ret (next.0, next.1, disk))
          (new-Returns kit (λ (next : App Input × Screen Input). (next.0 ≡ app) × (rank next.1 ≡ 2))
            none false t.params params _ (find-IsSound template_key t e).editable
            (λ form w. (refl, refl)))
          (λ next h. (
            refl,
            ap (λ (a : App Input). a.doc) h.0,
            ap (λ (a : App Input). a.show_help) h.0,
            inr (omega (arith, h.1)),
          )))

  -- Esc closes the help, or goes back, or quits.
  abbrev IsNearer : App Input → Disk → App Input × Disk → Type 0
  IsNearer app disk (app', disk') =
      (disk' ≡ disk)
      × (app'.doc ≡ app.doc)
      × ((app'.should_quit ≡ true)
          ⊎ (help_rank app'.show_help + rank app'.screen
              < help_rank app.show_help + rank app.screen))

  key_below-IsNearer :
      (modifiers : ℕ) (app : App Input) (disk : Disk)
      → IsSafe app.screen
      → Returns (IsNearer app disk) (key_below kit platform env (escape modifiers) app disk)
  unfolding key_below
  key_below-IsNearer m app disk s =
      Returns->>= (IsCloser app.screen (record app { screen = default_screen }) disk)
        (IsNearer app disk)
        (handle_key kit platform env app.screen (escape m) (record app { screen = default_screen })
          disk)
        _ (handle_key-IsCloser app.screen m (record app { screen = default_screen }) disk s)
        (λ left h. (h.0, h.1, nearer left h))
    where
      nearer :
          (left : App Input × Screen Input × Disk)
          → IsCloser app.screen (record app { screen = default_screen }) disk left
          → (left.0.should_quit ≡ true)
            ⊎ (help_rank left.0.show_help + rank left.1 < help_rank app.show_help + rank app.screen)
      nearer left (e, f, g, inl q) = inl q
      nearer left (e, f, g, inr lt) = inr (rw g (omega (arith, lt)))

  escape-IsNearer :
      (modifiers : ℕ) (app : App Input) (disk : Disk)
      → IsSafe app.screen
      → Returns (IsNearer app disk) (on_key kit platform env (escape modifiers) app disk)
  unfolding on_key is_char
  escape-IsNearer m app disk s =
      branched (IsNearer app disk) app.show_help (ret (record app { show_help = false }, disk))
        (key_below kit platform env (escape m) app disk)
        (λ e. (refl, refl, inr (shown app.show_help e))) (λ e. key_below-IsNearer m app disk s)
    where
      shown :
          (b : Bool) → b ≡ true → help_rank false + rank app.screen < help_rank b + rank app.screen
      shown true e = omega arith
      shown false e = cc

rank-bound : {Input : Type 0} (screen : Screen Input) → rank screen ≤ 4
rank-bound (top_level tab selected) = omega arith
rank-bound (operator_list c id form selected) = omega arith
rank-bound (review_template_receiver template_key id params receiver) = omega arith
rank-bound (operator_pick_type c id form selected) = omega arith
rank-bound (operator_edit c id form index op_form) = omega arith
rank-bound _ = omega arith

help_rank-bound : (show_help : Bool) → help_rank show_help ≤ 1
help_rank-bound true = omega arith
help_rank-bound false = omega arith

rank-positive : {Input : Type 0} (screen : Screen Input) → 0 < rank screen
rank-positive (top_level tab selected) = omega arith
rank-positive (operator_list c id form selected) = omega arith
rank-positive (review_template_receiver template_key id params receiver) = omega arith
rank-positive (operator_pick_type c id form selected) = omega arith
rank-positive (operator_edit c id form index op_form) = omega arith
rank-positive _ = omega arith

module _ {Input Rect : Type 0} (kit : Toolkit Input) where
  read_escape :
      (turn : Turn Rect) (modifiers : ℕ) (app : App Input) (disk : Disk)
      → turn.key ≡ some (escape modifiers)
      → IsSafe app.screen
      → Returns
          (λ left. LeftIsSafe left × IsNearer kit turn.platform turn.env app disk left)
          (read_event kit turn app disk)
  unfolding read_event
  read_escape turn m app disk e s =
      rw (e, read_event)
        (both LeftIsSafe (IsNearer kit turn.platform turn.env app disk)
          (on_key kit turn.platform turn.env (escape m) app disk)
          (on_key-IsSafe kit turn.platform turn.env (escape m) app disk s)
          (escape-IsNearer kit turn.platform turn.env m app disk s))

  -- Once the editor has quit, the loop ends.
  run_app-HasQuit :
      (turns : List (Turn Rect)) (app : App Input) (disk : Disk)
      → AreComplete turns
      → IsSafe app.screen
      → app.should_quit ≡ true
      → Returns (HasQuit app disk) (run_app kit turns app disk)
  unfolding run_app
  run_app-HasQuit [] app disk c s q = (q, refl, refl)
  run_app-HasQuit (turn ∷ turns) app disk c s q =
      Returns->>= IsDrawn (HasQuit app disk) (draw kit turn.canvas turn.platform app) _
        (draw-Returns turn.canvas c.0 kit turn.platform app s)
        (λ frame d.
          branched (HasQuit app disk) app.should_quit (ret (app, disk)) _ (λ e. (e, refl, refl))
            (λ e. absurd (cc (q, e))))

  run_app-escapes :
      (turns : List (Turn Rect)) (app : App Input) (disk : Disk)
      → AreComplete turns
      → AreEscapes turns
      → IsSafe app.screen
      → help_rank app.show_help + rank app.screen ≤ length turns
      → Returns (HasQuit app disk) (run_app kit turns app disk)
  unfolding run_app
  run_app-escapes [] app disk c k s lt = absurd (omega (arith, rank-positive app.screen))
  run_app-escapes (turn ∷ turns) app disk c k s lt =
      Returns->>= IsDrawn (HasQuit app disk) (draw kit turn.canvas turn.platform app) _
        (draw-Returns turn.canvas c.0 kit turn.platform app s)
        (λ frame d.
          branched (HasQuit app disk) app.should_quit (ret (app, disk)) _ (λ e. (e, refl, refl))
            (λ e.
              Returns->>=
                (λ left. LeftIsSafe left × IsNearer kit turn.platform turn.env app disk left)
                (HasQuit app disk) (read_event kit turn app disk) _
                (read_escape turn k.0.0 app disk k.0.1 s)
                (λ left (safe, (disk_same, same, next)).
                  Returns-map (HasQuit left.0 left.1) (HasQuit app disk)
                    (run_app kit turns left.0 left.1)
                    (elim next [
                      | inl q ↦ run_app-HasQuit turns left.0 left.1 c.1 safe q
                      | inr nearer ↦
                          run_app-escapes turns left.0 left.1 c.1 k.1 safe
                            (omega (arith, lt, nearer))
                    ])
                    (λ last (q, d, e). (q, d ∙ same, e ∙ disk_same)))))

  -- From a safe screen, on which the help may be open, any five or more turns that read Esc quit
  -- the editor, without a panic, and leave the document and the disk as they were. A split of the
  -- screen has a rectangle for each constraint.
  pub run_app-quits :
      (turns : List (Turn Rect)) (app : App Input) (disk : Disk)
      → AreComplete turns
      → AreEscapes turns
      → IsSafe app.screen
      → 5 ≤ length turns
      → Returns (HasQuit app disk) (run_app kit turns app disk)
  run_app-quits turns app disk c k s lt =
      run_app-escapes turns app disk c k s
        (omega (arith, lt, rank-bound app.screen, help_rank-bound app.show_help))
