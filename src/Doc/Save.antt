-- ===== src/Doc/Save.antt =====
-- The document's files: `load`, `parse`, `validate_with_binary`, `save` and `atomic_write` of
-- crates/collector/src/editor/model.rs.
-- A disk holds the contents of files by path. What the operating system, the YAML library and the
-- validator answer during one call is a `Platform`: a failure of any call is one of its answers.
-- The temporary copy that the validator reads lies outside the disk.
use securitygingercia.Prelude.{
  String, Bool, Option, none, some, ◌==◌, Result, ok, err, map_err, ◌+++◌, if◌then◌else◌,
  rsplit_once, is_blank, trim,
}
use securitygingercia.Json.{Value}
use securitygingercia.Doc.{EditorDoc, new, of_value, to_value, placeholder_for_validation}

pub data EditorError : Type 0 where
  io : String → String → EditorError
  parse_error : String → EditorError
  serialize : String → EditorError
  invalid : String → EditorError

-- The `Display` of an error, from its `#[error(…)]` attributes.
unfoldable pub error_text : EditorError → String
error_text (io path e) = "failed to read " +++ path +++ ": " +++ e
error_text (parse_error e) = "failed to parse YAML: " +++ e
error_text (serialize e) = "failed to serialize YAML: " +++ e
error_text (invalid e) = "invalid config: " +++ e

-- A path of a file: the text up to its last slash, the stem and the extension.
pub record FilePath : Type 0 where
  pub dir : String
  pub stem : String
  pub extension : Option String

abbrev pub dotted : Option String → String
dotted none = ""
dotted (some e) = "." +++ e

unfoldable pub display : FilePath → String
display p = p.dir +++ (p.stem +++ dotted p.extension)

-- Two paths are those of one file exactly if their texts are the same.
abbrev pub same_path : FilePath → FilePath → Bool
same_path p q = display p == display q

-- `Path::with_extension`: the text of the extension takes the place of the old one, and what then
-- follows the last dot of the name is the extension of the path.
unfoldable pub with_extension : String → FilePath → FilePath
unfolding rsplit_once
with_extension e p =
    if is_blank e then record p { extension = none } else elim (rsplit_once b'.' e) [
      | none ↦ record p { extension = some e }
      | some (before, last) ↦ record p { stem = p.stem +++ ("." +++ before); extension = some last }
    ]

abbrev pub Disk : Type 0
Disk = FilePath → Option String

abbrev pub write_file : FilePath → Option String → Disk → Disk
write_file p contents disk q = if same_path p q then contents else disk q

-- What a process that was started has left behind.
pub record Output : Type 0 where
  pub success : Bool
  pub stderr : String
  pub status : String

-- `none` is a call that succeeds, `some e` one that fails with the error `e`.
pub record Platform : Type 0 where
  pub to_yaml : Value → Result String String
  pub from_yaml : String → Result String Value
  pub temp_file : Result String String
  pub temp_write : Option String
  pub temp_flush : Option String
  pub run : (bin : String) (config : String) (contents : String) → Result String Output
  pub read : Option String
  pub create_dir_all : String → Option String
  pub create : Option String
  pub write_all : Option (String × String)
  pub sync_all : Option String
  pub rename : Option String

module _ (platform : Platform) where
  unfoldable pub parse : String → Result EditorError EditorDoc
  parse text = elim (platform.from_yaml text) [
    | err e ↦ err (parse_error e)
    | ok doc ↦ ok (of_value doc)
  ]

  unfoldable pub load : FilePath → Disk → Result EditorError EditorDoc
  unfolding parse
  load path disk = elim platform.read [
    | some e ↦ err (io (display path) e)
    | none ↦ elim (disk path) [ none ↦ ok new | some text ↦ parse text ]
  ]

  abbrev rejection : String → Output → String
  rejection bin output =
      if is_blank (trim output.stderr)
      then bin +++ " validate exited with " +++ output.status
      else trim output.stderr

  abbrev cannot_run : String → String → String
  cannot_run bin e =
      "couldn't run '" +++ bin +++ " validate' (set SGCIA_OTELCOL_BIN if it's not on PATH): " +++ e

  abbrev verdict : String → Result String Output → Result EditorError (Unit {0})
  verdict bin (err e) = err (invalid (cannot_run bin e))
  verdict bin (ok output) = if output.success then ok tt else err (invalid (rejection bin output))

  -- Each of the calls in turn; the first that fails ends the validation.
  unfoldable pub validate_with_binary : EditorDoc → String → Result EditorError (Unit {0})
  validate_with_binary doc bin =
      elim (platform.to_yaml (placeholder_for_validation (to_value doc))) [
        | err e ↦ err (serialize e)
        | ok yaml_text ↦ elim platform.temp_file [
          | err e ↦ err (io "temp file" e)
          | ok tmp ↦ elim platform.temp_write [
            | some e ↦ err (io tmp e)
            | none ↦ elim platform.temp_flush [
              | some e ↦ err (io tmp e)
              | none ↦ verdict bin (platform.run bin ("file:" +++ tmp) yaml_text)
            ]
          ]
        ]
      ]

  -- `std::fs::rename(&tmp_path, path)?`
  abbrev renamed : FilePath → FilePath → String → Disk → Result String (Unit {0}) × Disk
  renamed tmp path contents disk = elim platform.rename [
    | some e ↦ (err e, disk)
    | none ↦ (ok tt, write_file path (some contents) (write_file tmp none disk))
  ]

  -- The block that creates, writes and syncs the temporary file; a write that fails has written
  -- a part.
  abbrev written : FilePath → FilePath → String → Disk → Result String (Unit {0}) × Disk
  written tmp path contents disk = elim platform.create [
    | some e ↦ (err e, disk)
    | none ↦ elim platform.write_all [
      | some (e, part) ↦ (err e, write_file tmp (some part) disk)
      | none ↦ elim platform.sync_all [
        | some e ↦ (err e, write_file tmp (some contents) disk)
        | none ↦ renamed tmp path contents (write_file tmp (some contents) disk)
      ]
    ]
  ]

  unfoldable pub atomic_write : FilePath → String → Disk → Result String (Unit {0}) × Disk
  atomic_write path contents disk =
      elim (if is_blank path.dir then none else platform.create_dir_all path.dir) [
        | some e ↦ (err e, disk)
        | none ↦ written (with_extension "yaml.tmp" path) path contents disk
      ]

  unfoldable pub save_with_binary :
      EditorDoc → FilePath → String → Disk → Result EditorError (Unit {0}) × Disk
  unfolding validate_with_binary atomic_write
  save_with_binary doc path bin disk = elim (validate_with_binary doc bin) [
    | err e ↦ (err e, disk)
    | ok _ ↦ elim (platform.to_yaml (to_value doc)) [
      | err e ↦ (err (serialize e), disk)
      | ok yaml_text ↦
          let (result, disk') = atomic_write path yaml_text disk in
          (map_err (io (display path)) result, disk')
    ]
  ]

-- The variable `SGCIA_OTELCOL_BIN`, where it is set, and whether the development path is there.
pub record Environment : Type 0 where
  pub binary_variable : Option String
  pub dev_path_exists : Bool

unfoldable pub otelcol_binary_path : Environment → String
otelcol_binary_path env = elim env.binary_variable [
  | some p ↦ p
  | none ↦ if env.dev_path_exists then "otelcol/dist/sgcia-otelcol" else "sgcia-otelcol"
]

unfoldable pub save :
    Platform → Environment → EditorDoc → FilePath → Disk → Result EditorError (Unit {0}) × Disk
unfolding save_with_binary
save platform env doc path disk = save_with_binary platform doc path (otelcol_binary_path env) disk
