-- ===== src/Editor/State.antt =====
-- The state of the editor: `TopTab`, `Screen` and `App` of crates/collector/src/editor/app.rs.
use securitygingercia.Prelude.{
  ℕ, String, Bool, true, false, Option, none, some, List, [], ◌∷◌, sort,
}
use securitygingercia.Json.{Value, Map, keys}
use securitygingercia.Schema.Spec.{
  ComponentCategory, receiver, exporter, extension, FieldKind, FieldSpec,
}
use securitygingercia.Doc.{EditorDoc}
use securitygingercia.Doc.Save.{FilePath}
use securitygingercia.Form.{FormState}

unfoldable pub pipeline_fields : List FieldSpec
pipeline_fields =
    record {
      key = "receivers";
      kind = FieldKind.string_list;
      required = false;
      default = none;
      help =
          "Which receivers feed this pipeline, by id -- e.g. syslog/udp, file_log/app. Comma-separate multiple.";
    }
    ∷ record {
      key = "exporters";
      kind = FieldKind.string_list;
      required = false;
      default = none;
      help =
          "Where processed events get sent, by exporter id -- e.g. splunk_hec/sentinelone. Comma-separate multiple to fan out to more than one.";
    }
    ∷ []

pub data TopTab : Type 0 where
  receivers exporters extensions pipelines : TopTab

unfoldable pub category : TopTab → Option ComponentCategory
category receivers = some receiver
category exporters = some exporter
category extensions = some extension
category pipelines = none

unfoldable pub next : TopTab → TopTab
next receivers = exporters
next exporters = extensions
next extensions = pipelines
next pipelines = receivers

unfoldable pub prev : TopTab → TopTab
prev receivers = pipelines
prev exporters = receivers
prev extensions = exporters
prev pipelines = extensions

unfoldable pub label : TopTab → String
label receivers = "Receivers"
label exporters = "Exporters"
label extensions = "Extensions"
label pipelines = "Pipelines"

abbrev pub is_receivers : TopTab → Bool
is_receivers receivers = true
is_receivers _ = false

unfoldable pub tab_for : ComponentCategory → TopTab
tab_for receiver = receivers
tab_for exporter = exporters
tab_for extension = extensions

pub data Screen (Input : Type 0) : Type 0 where
  top_level : TopTab → (selected : ℕ) → Screen Input
  pick_type : ComponentCategory → (selected : ℕ) → Screen Input
  name_new_component : ComponentCategory → (type_name : String) → Input → Screen Input
  name_new_pipeline : Input → Screen Input
  edit_component : ComponentCategory → (id : String) → FormState Input → Screen Input
  edit_pipeline : (id : String) → FormState Input → Screen Input
  confirm_remove : ComponentCategory → (id : String) → (blocking : List String) → Screen Input
  operator_list :
      ComponentCategory → (id : String) → FormState Input → (selected : ℕ) → Screen Input
  operator_pick_type :
      ComponentCategory → (id : String) → FormState Input → (selected : ℕ) → Screen Input
  operator_edit :
      ComponentCategory
      → (id : String) → FormState Input
      → (index : Option ℕ) → (op_form : FormState Input) → Screen Input
  template_browse : (selected : ℕ) → Screen Input
  name_template_receiver : (template_key : String) → Input → Screen Input
  edit_template_params : (template_key : String) → (id : String) → FormState Input → Screen Input
  review_template_receiver :
      (template_key : String) → (id : String) → (params : Value) → (receiver : Value) → Screen Input

pub record App (Input : Type 0) : Type 0 where
  pub config_path : FilePath
  pub doc : EditorDoc
  pub screen : Screen Input
  pub status_message : Option String
  pub dirty : Bool
  pub should_quit : Bool
  pub show_help : Bool

module _ {Input : Type 0} where
  -- `Screen::default()`
  abbrev pub default_screen : Screen Input
  default_screen = top_level receivers 0

  unfoldable pub new : FilePath → EditorDoc → App Input
  new config_path doc = record {
    config_path = config_path;
    doc = doc;
    screen = default_screen;
    status_message = none;
    dirty = false;
    should_quit = false;
    show_help = false;
  }

  unfoldable pub screen_accepts_help_hotkey : Screen Input → Bool
  screen_accepts_help_hotkey (top_level tab selected) = true
  screen_accepts_help_hotkey (pick_type category selected) = true
  screen_accepts_help_hotkey (confirm_remove category id blocking) = true
  screen_accepts_help_hotkey (operator_list category id form selected) = true
  screen_accepts_help_hotkey (operator_pick_type category id form selected) = true
  screen_accepts_help_hotkey (template_browse selected) = true
  screen_accepts_help_hotkey _ = false

unfoldable pub map_for : ComponentCategory → EditorDoc → Map
map_for receiver doc = doc.receivers
map_for exporter doc = doc.exporters
map_for extension doc = doc.extensions

-- A write through `map_for_mut(category)`.
unfoldable pub with_map : ComponentCategory → Map → EditorDoc → EditorDoc
with_map receiver m doc = record doc { receivers = m }
with_map exporter m doc = record doc { exporters = m }
with_map extension m doc = record doc { extensions = m }

abbrev pub tab_map : Option ComponentCategory → EditorDoc → Map
tab_map none doc = doc.pipelines
tab_map (some c) doc = map_for c doc

unfoldable pub ids_for_tab : TopTab → EditorDoc → List String
ids_for_tab tab doc = sort (keys (tab_map (category tab) doc))
