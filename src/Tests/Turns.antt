-- ===== src/Tests/Turns.antt =====
-- The theorems on whole sessions of the editor, on a few turns.
use securitygingercia.Prelude.{
  ret, some, none, List, [], ◌∷◌, ◌≡◌, refl, Returns, arith, ℕ, String, get_elem?,
}
use securitygingercia.Keys.{KeyCode}
use securitygingercia.Editor.State.{App, TopTab, new, ids_for_tab, Screen}
use securitygingercia.Editor.Session.{Turn, run_app, run}
use securitygingercia.Editor.Session.Invariants.{AreComplete, EndsAs, Anything, run-EndsAs}
use securitygingercia.Doc.Save.{load, display, with_extension}
use securitygingercia.Editor.Session.Unsaved.{
  AnswersIn, IsClean, IsLeftAlone, run_app-IsClean, run_app-IsLeftAlone,
}
use securitygingercia.Editor.Session.Quit.{escape, HasQuit, run_app-quits}
use securitygingercia.Editor.Selections.{InRange}
use securitygingercia.Editor.Selections.Keys.{run_app-IsInRange}
use securitygingercia.Editor.View.Items.{id_rows, ids_for_display, template_rows, template_text}
use securitygingercia.Editor.View.Rows.{
  highlighted, line_of, text_at, highlighted-top_level, highlighted-templates,
}
use securitygingercia.Templates.Registry.{source_templates}
use securitygingercia.Schema.Spec.{receiver}
use securitygingercia.Prelude.{true}
use securitygingercia.Tests.Data.{
  not_temporary, text_kit, platform, doc, path, other_path, disk, full_disk, press, turn,
  canvas-IsComplete,
}
use securitygingercia.Tests.Sessions.{app}

-- Another event, a form that is opened and left, and a removal that is asked for and confirmed.
abbrev pub turns : List (Turn ℕ)
turns =
    turn none
    ∷ turn (some (press KeyCode.enter))
    ∷ turn (some (press KeyCode.esc))
    ∷ turn (some (press KeyCode.delete))
    ∷ turn (some (press (KeyCode.other 1)))
    ∷ []

pub turns-AreComplete : AreComplete turns
turns-AreComplete = (
  canvas-IsComplete,
  (canvas-IsComplete, (canvas-IsComplete, (canvas-IsComplete, (canvas-IsComplete, tt)))),
)

run-EndsAs_example :
    EndsAs
      (load platform path full_disk)
      (ret tt)
      (run text_kit (ret tt) platform path turns full_disk)
run-EndsAs_example = run-EndsAs text_kit (ret tt) platform path turns full_disk turns-AreComplete

run_app-IsClean_example :
    Returns
      (IsClean text_kit (AnswersIn turns) path doc full_disk)
      (run_app text_kit turns (new path doc) full_disk)
run_app-IsClean_example =
    run_app-IsClean text_kit path doc full_disk turns turns-AreComplete not_temporary

run_app-IsLeftAlone_example :
    Returns
      (IsLeftAlone text_kit Anything path doc disk other_path)
      (run_app text_kit turns (new path doc) disk)
unfolding display with_extension
run_app-IsLeftAlone_example =
    run_app-IsLeftAlone text_kit path doc disk turns other_path turns-AreComplete (refl, refl)

abbrev escapes : List (Turn ℕ)
escapes =
    turn (some (escape 0))
    ∷ turn (some (escape 0))
    ∷ turn (some (escape 0))
    ∷ turn (some (escape 0))
    ∷ turn (some (escape 0))
    ∷ []

escapes-AreComplete : AreComplete escapes
escapes-AreComplete = (
  canvas-IsComplete,
  (canvas-IsComplete, (canvas-IsComplete, (canvas-IsComplete, (canvas-IsComplete, tt)))),
)

-- The help, over a list of types.
abbrev helped : App String
helped = record app { screen = Screen.pick_type receiver 2; show_help = true }

run_app-quits_example : Returns (HasQuit helped disk) (run_app text_kit escapes helped disk)
run_app-quits_example =
    run_app-quits text_kit escapes helped disk escapes-AreComplete
      ((0, refl), ((0, refl), ((0, refl), ((0, refl), ((0, refl), tt))))) tt (omega arith)

run_app-IsInRange_example :
    Returns
      (λ (left, disk'). InRange left.doc left.screen)
      (run_app text_kit turns (new path doc) disk)
run_app-IsInRange_example = run_app-IsInRange text_kit turns path doc disk turns-AreComplete

highlighted-top_level_example :
    highlighted (id_rows (ids_for_display app TopTab.receivers) 0)
    ≡ line_of (get_elem? (ids_for_tab TopTab.receivers app.doc) 0)
highlighted-top_level_example = highlighted-top_level app TopTab.receivers 0

highlighted-templates_example :
    highlighted (template_rows none 3 0 source_templates)
    ≡ line_of (text_at template_text source_templates 3)
highlighted-templates_example = highlighted-templates 3
