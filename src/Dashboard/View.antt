-- ===== src/Dashboard/View.antt =====
-- The drawing of the dashboard: crates/collector/src/dashboard/ui.rs.
use securitygingercia.Prelude.{
  false, ℕ, String, Option, none, some, List, [], ◌∷◌, ◌++◌, ◌+++◌, Run, ret, ◌>>=◌, expect,
  map_run, sort, map, decimal, get_elem?,
}
use securitygingercia.Screen.{
  Modifier, modified, Color, Style, plain, colored, Text, titled, Constraint, Widget, Canvas, Frame,
  render_widget,
}
use securitygingercia.Metrics.{LastError, lookup}
use securitygingercia.Metrics.Snapshots.{
  ReceiverSnapshot, PipelineSnapshot, ExporterSnapshot, MetricsSnapshot,
}
use securitygingercia.Dashboard.{App}

abbrev pub header_text : App MetricsSnapshot → String
header_text app = elim app.last_error [
  | some e ↦ "! unreachable: " +++ app.status_addr +++ " -- " +++ e +++ " (retrying)"
  | none ↦ "connected to " +++ app.status_addr
]

abbrev pub header_style : App MetricsSnapshot → Style
header_style app = elim app.last_error [ some e ↦ colored Color.red | none ↦ colored Color.green ]

-- The names in order, each with its row: `snap.receivers[name]` is an `expect`.
unfoldable pub rows_of :
    {S : Type 0} → (String → S → List String) → List (String × S) → Run (List (List String))
rows_of row entries =
    map_run (λ name. expect (lookup name entries) >>= λ s. ret (row name s))
      (sort (map (λ (entry : String × _). entry.0) entries))

abbrev pub receiver_row : String → ReceiverSnapshot → List String
receiver_row name r = name ∷ decimal r.events_in ∷ []

abbrev pub pipeline_row : String → PipelineSnapshot → List String
pipeline_row name p =
    name
    ∷ decimal p.events_in
    ∷ decimal p.events_out
    ∷ decimal p.events_dropped
    ∷ decimal p.parse_errors
    ∷ []

abbrev error_message : Option LastError → String
error_message none = ""
error_message (some e) = e.message

abbrev pub exporter_row : String → ExporterSnapshot → List String
exporter_row name e =
    name
    ∷ decimal e.batches_sent
    ∷ decimal e.retries
    ∷ decimal e.batches_failed
    ∷ error_message e.last_error
    ∷ []

-- The style of a table's header.
abbrev bold : Style
bold = modified Modifier.bold plain

abbrev percentages : List ℕ → List Constraint
percentages ns = map Constraint.percentage ns

abbrev waiting : Widget
waiting =
    Widget.paragraph (Text.raw "waiting for first status snapshot...") plain false
      (some (titled "sgcia dashboard"))

module _ {Rect : Type 0} where
  unfoldable pub draw_header : Rect → App MetricsSnapshot → Frame Rect
  draw_header area app =
      render_widget
        (Widget.paragraph
          (Text.lines ((record { content = header_text app; style = header_style app } ∷ []) ∷ []))
          plain false (some (titled "sgcia dashboard (q to quit)")))
        area

  unfoldable pub draw_receivers : Rect → MetricsSnapshot → Run (Frame Rect)
  unfolding rows_of
  draw_receivers area snap = do
    rows ← rows_of receiver_row snap.receivers
    ret (
        render_widget
          (Widget.table ("receiver" ∷ "events in" ∷ []) bold rows (percentages (70 ∷ 30 ∷ []))
            (titled "Receivers"))
          area)

  unfoldable pub draw_pipelines : Rect → MetricsSnapshot → Run (Frame Rect)
  unfolding rows_of
  draw_pipelines area snap = do
    rows ← rows_of pipeline_row snap.pipelines
    ret (
        render_widget
          (Widget.table ("pipeline" ∷ "in" ∷ "out" ∷ "dropped" ∷ "parse errors" ∷ []) bold rows
            (percentages (30 ∷ 17 ∷ 17 ∷ 18 ∷ 18 ∷ [])) (titled "Pipelines"))
          area)

  unfoldable pub draw_exporters : Rect → MetricsSnapshot → Run (Frame Rect)
  unfolding rows_of
  draw_exporters area snap = do
    rows ← rows_of exporter_row snap.exporters
    ret (
        render_widget
          (Widget.table ("exporter" ∷ "sent" ∷ "retries" ∷ "failed" ∷ "last error" ∷ []) bold rows
            (percentages (20 ∷ 12 ∷ 12 ∷ 12 ∷ 44 ∷ [])) (titled "Exporters"))
          area)

  unfoldable pub draw_snapshot : List Rect → Option MetricsSnapshot → Run (Frame Rect)
  unfolding draw_receivers draw_pipelines draw_exporters
  draw_snapshot chunks (some snap) = do
    first ← expect (get_elem? chunks 1)
    receivers ← draw_receivers first snap
    second ← expect (get_elem? chunks 2)
    pipelines ← draw_pipelines second snap
    third ← expect (get_elem? chunks 3)
    exporters ← draw_exporters third snap
    ret (receivers ++ (pipelines ++ exporters))
  draw_snapshot chunks none = do
    first ← expect (get_elem? chunks 1)
    ret (render_widget waiting first)

  unfoldable pub draw : Canvas Rect → App MetricsSnapshot → Run (Frame Rect)
  unfolding draw_header draw_snapshot
  draw canvas app =
      let chunks =
        canvas.split
          (Constraint.length 3
            ∷ Constraint.percentage 33
            ∷ Constraint.percentage 33
            ∷ Constraint.percentage 34
            ∷ [])
          canvas.area in
      do
        top ← expect (get_elem? chunks 0)
        shown ← draw_snapshot chunks app.last_snapshot
        ret (draw_header top app ++ shown)
