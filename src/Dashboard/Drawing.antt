-- ===== src/Dashboard/Drawing.antt =====
-- Panics of the dashboard's drawing: the indices that crates/collector/src/dashboard/ui.rs takes.
use securitygingercia.Prelude.{
  String, true, Option, none, some, List, [], ◌∷◌, ◌≡◌, refl, sym, ◌∙◌, arith, ◌==◌, eq_refl, has,
  sort, map, map_run, length, get_elem?_of_lt, Bool-cases, inl, inr, ret, ◌>>=◌, expect, Returns,
  Returns->>=,
}
use securitygingercia.Doc.RoundTrip.{has-sort}
use securitygingercia.Screen.{Constraint, Canvas, IsComplete}
use securitygingercia.Metrics.{lookup}
use securitygingercia.Metrics.Snapshots.{MetricsSnapshot}
use securitygingercia.Dashboard.{App}
use securitygingercia.Dashboard.View.{
  rows_of, receiver_row, pipeline_row, exporter_row, draw_receivers, draw_pipelines, draw_exporters,
  draw_snapshot, draw,
}

abbrev pub IsDrawn : {A : Type 0} → A → Type 0
IsDrawn a = Unit

module _ {S : Type 0} where
  abbrev names : List (String × S) → List String
  names entries = map (λ (entry : String × S). entry.0) entries

  lookup-has :
      (name : String) (entries : List (String × S))
      → has name (names entries) ≡ true
      → (s : S) × (lookup name entries ≡ some s)
  unfolding lookup
  lookup-has name [] e = cc
  lookup-has name ((k, s) ∷ rest) e = elim (Bool-cases (k == name)) [
    | inl t ↦ (s, rw t refl)
    | inr t ↦ let (s', f) = lookup-has name rest (rw t at e) in (s', rw t f)
  ]

  rows-Returns :
      (row : String → S → List String) (entries : List (String × S)) (asked : List String)
      → ((name : String) → has name asked ≡ true → has name (names entries) ≡ true)
      → Returns IsDrawn
          (map_run (λ name. expect (lookup name entries) >>= λ s. ret (row name s)) asked)
  rows-Returns row entries [] h = tt
  rows-Returns row entries (name ∷ asked) h =
      let (s, e) = lookup-has name entries (h name (ground (arith, eq_refl name))) in
      rw e (
        Returns->>= IsDrawn IsDrawn
          (map_run (λ name. expect (lookup name entries) >>= λ s. ret (row name s)) asked) _
          (rows-Returns row entries asked (λ other g. h other (ground (arith, g)))) (λ rows g. tt))

  rows_of-Returns :
      (row : String → S → List String) (entries : List (String × S))
      → Returns IsDrawn (rows_of row entries)
  unfolding rows_of
  rows_of-Returns row entries =
      rows-Returns row entries (sort (names entries))
        (λ name h. sym (has-sort name (names entries)) ∙ h)

abbrev constraints : List Constraint
constraints =
    Constraint.length 3
    ∷ Constraint.percentage 33
    ∷ Constraint.percentage 33
    ∷ Constraint.percentage 34
    ∷ []

abbrev areas : {Rect : Type 0} → Canvas Rect → List Rect
areas canvas = canvas.split constraints canvas.area

module _ {Rect : Type 0} where
  draw_receivers-Returns :
      (area : Rect) (snap : MetricsSnapshot) → Returns IsDrawn (draw_receivers area snap)
  unfolding draw_receivers
  draw_receivers-Returns area snap =
      Returns->>= IsDrawn IsDrawn (rows_of receiver_row snap.receivers) _
        (rows_of-Returns receiver_row snap.receivers) (λ rows g. tt)

  draw_pipelines-Returns :
      (area : Rect) (snap : MetricsSnapshot) → Returns IsDrawn (draw_pipelines area snap)
  unfolding draw_pipelines
  draw_pipelines-Returns area snap =
      Returns->>= IsDrawn IsDrawn (rows_of pipeline_row snap.pipelines) _
        (rows_of-Returns pipeline_row snap.pipelines) (λ rows g. tt)

  draw_exporters-Returns :
      (area : Rect) (snap : MetricsSnapshot) → Returns IsDrawn (draw_exporters area snap)
  unfolding draw_exporters
  draw_exporters-Returns area snap =
      Returns->>= IsDrawn IsDrawn (rows_of exporter_row snap.exporters) _
        (rows_of-Returns exporter_row snap.exporters) (λ rows g. tt)

  draw_snapshot-Returns :
      (chunks : List Rect) (snapshot : Option MetricsSnapshot)
      → length chunks ≡ 4
      → Returns IsDrawn (draw_snapshot chunks snapshot)
  unfolding draw_snapshot
  draw_snapshot-Returns chunks none l =
      let (first, e) = get_elem?_of_lt chunks 1 (omega (arith, l)) in rw e tt
  draw_snapshot-Returns chunks (some snap) l =
      let (first, e) = get_elem?_of_lt chunks 1 (omega (arith, l)) in
      let (second, f) = get_elem?_of_lt chunks 2 (omega (arith, l)) in
      let (third, g) = get_elem?_of_lt chunks 3 (omega (arith, l)) in
      rw (e, f, g)
        (Returns->>= IsDrawn IsDrawn (draw_receivers first snap) _
          (draw_receivers-Returns first snap)
          (λ rs h.
            Returns->>= IsDrawn IsDrawn (draw_pipelines second snap) _
              (draw_pipelines-Returns second snap)
              (λ ps h'.
                Returns->>= IsDrawn IsDrawn (draw_exporters third snap) _
                  (draw_exporters-Returns third snap) (λ es h''. tt))))

  pub draw-Returns :
      (canvas : Canvas Rect) (app : App MetricsSnapshot)
      → IsComplete canvas
      → Returns IsDrawn (draw canvas app)
  unfolding draw
  draw-Returns canvas app c =
      let four : length (areas canvas) ≡ 4 = c.length-split constraints canvas.area in
      let (top, e) = get_elem?_of_lt (areas canvas) 0 (omega (arith, four)) in
      rw e (
        Returns->>= IsDrawn IsDrawn (draw_snapshot (areas canvas) app.last_snapshot) _
          (draw_snapshot-Returns (areas canvas) app.last_snapshot four) (λ shown h. tt))
