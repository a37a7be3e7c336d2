-- ===== src/Tests/Data.antt =====
-- A text input that is its text, a platform on which every call succeeds, a document and keys.
use securitygingercia.Screen.{Constraint, Canvas, IsComplete}
use securitygingercia.Editor.Session.{Turn}
use securitygingercia.Prelude.{
  ◌≢◌, eq_iff, ◌≡◌, ℕ, Option, ◌*◌, ◌/◌, ◌-◌, length, arith, refl, String, true, false, none, some,
  List, [], ◌∷◌, ok, ◌+++◌,
}
use Prim.Native.String.{[], ◌∷◌}
use securitygingercia.Json.{Value, end, entry, array_of, strings_of, as_str}
use securitygingercia.Keys.{KeyCode, KeyEvent, Toolkit, IsFaithful}
use securitygingercia.Schema.Spec.{FieldKind, FieldSpec}
use securitygingercia.Form.{FieldEditState, FormState, unwrap_or}
use securitygingercia.Doc.{EditorDoc, to_value}
use securitygingercia.Doc.Save.{FilePath, Disk, Platform, Environment}

abbrev typed : KeyCode → String → String
typed (KeyCode.char c) s = s +++ (c ∷ [])
typed _ s = s

abbrev pub text_kit : Toolkit String
text_kit = record {
  new = λ s. s;
  default = "";
  value = λ s. s;
  handle_event = λ key s. typed key.code s;
  json_text = λ v. unwrap_or (as_str v) "";
}

abbrev pub text_kit-faithful : IsFaithful text_kit
text_kit-faithful = record { value-new = λ s. refl }

abbrev pub press : KeyCode → KeyEvent
press code = record { code = code; modifiers = 0 }

abbrev pub doc : EditorDoc
doc = record {
  receivers =
      entry "syslog/udp"
        (Value.object (
          entry "udp" (Value.object (entry "listen_address" (Value.string "0.0.0.0:514") end)) end))
        end;
  exporters =
      entry "splunk_hec/soc" (Value.object (entry "token" (Value.string "${TOKEN}") end)) end;
  extensions = end;
  pipelines =
      entry "logs/syslog"
        (Value.object (
          entry "receivers" (array_of (strings_of ("syslog/udp" ∷ [])))
            (entry "exporters" (array_of (strings_of ("splunk_hec/soc" ∷ []))) end)))
        end;
}

abbrev pub path : FilePath
path = record { dir = "/etc/sgcia/"; stem = "config"; extension = some "yaml" }

pub not_temporary : path.extension ≢ some "yaml.tmp"
not_temporary = ground (arith, eq_iff "yaml" "yaml.tmp")

abbrev pub other_path : FilePath
other_path = record { dir = "/etc/sgcia/"; stem = "other"; extension = some "yaml" }

abbrev pub disk : Disk
disk q = none

-- The text of every value is the same here, and it reads as the document.
abbrev pub platform : Platform
platform = record {
  to_yaml = λ v. ok "receivers: ...";
  from_yaml = λ t. ok (to_value doc);
  temp_file = ok "/tmp/config.yaml";
  temp_write = none;
  temp_flush = none;
  run = λ bin config contents. ok (record { success = true; stderr = ""; status = "0" });
  read = none;
  create_dir_all = λ dir. none;
  create = none;
  write_all = none;
  sync_all = none;
  rename = none;
}

abbrev pub env : Environment
env = record { binary_variable = none; dev_path_exists = false }

abbrev pub fields : List FieldSpec
fields =
    record {
      key = "udp.listen_address";
      kind = FieldKind.str;
      required = true;
      default = none;
      help = "";
    }
    ∷ record {
      key = "protocol";
      kind = FieldKind.enum ("rfc3164" ∷ "rfc5424" ∷ []);
      required = false;
      default = some "rfc5424";
      help = "";
    }
    ∷ record {
      key = "operators";
      kind = FieldKind.operator_list;
      required = false;
      default = none;
      help = "";
    }
    ∷ []

abbrev pub form : FormState String
form = record {
  type_name = some "syslog";
  write_type_key = true;
  fields_spec = fields;
  fields =
      FieldEditState.text "0.0.0.0:514"
      ∷ FieldEditState.enum ("rfc3164" ∷ "rfc5424" ∷ []) 1
      ∷ FieldEditState.operator_list []
      ∷ [];
  focused = 1;
}

abbrev pub submitted : Value
submitted = Value.object (
    entry "udp" (Value.object (entry "listen_address" (Value.string "0.0.0.0:514") end))
      (entry "protocol" (Value.string "rfc5424") (entry "type" (Value.string "syslog") end)))

-- A canvas whose areas are their heights.
abbrev height : ℕ → Constraint → ℕ
height area (Constraint.min n) = area
height area (Constraint.length n) = n
height area (Constraint.percentage n) = area * n / 100

abbrev heights : List Constraint → ℕ → List ℕ
heights [] area = []
heights (c ∷ cs) area = height area c ∷ heights cs area

abbrev pub canvas : Canvas ℕ
canvas = record { area = 24; split = heights; inner = λ block area. area - 2 }

length-heights : (cs : List Constraint) (area : ℕ) → length (heights cs area) ≡ length cs
length-heights [] area = refl
length-heights (c ∷ cs) area = omega (arith, length-heights cs area)

pub canvas-IsComplete : IsComplete canvas
canvas-IsComplete = record { length-split = length-heights }

-- Every file has the text of the document.
abbrev pub full_disk : Disk
full_disk q = some "receivers: ..."

abbrev pub turn : Option KeyEvent → Turn ℕ
turn key = record { key = key; platform = platform; env = env; canvas = canvas }
