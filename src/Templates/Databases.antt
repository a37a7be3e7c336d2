-- ===== src/Templates/Databases.antt =====
-- The curated templates of databases: their parameters and their `build` functions, from
-- crates/collector/src/editor/templates.rs.
use securitygingercia.Prelude.{true, some, List, [], ◌∷◌}
use securitygingercia.Json.{Value, end, insert, array_of}
use securitygingercia.Schema.Spec.{FieldKind, FieldSpec}
use securitygingercia.Schema.Path.{set_path, get_path}
use securitygingercia.Templates.Spec.{param, add_op, object_of, value_or}

unfoldable pub mysql_params : List FieldSpec
mysql_params =
    param "include" FieldKind.string_list true (some "/var/log/mysql/error.log")
      "MySQL error log glob(s) -- e.g. /var/log/mysql/error.log."
    ∷ []

unfoldable pub mysql_operators : List Value
mysql_operators =
    ((object_of (
        ("type", (Value.string "regex_parser"))
        ∷ ("parse_from", (Value.string "body"))
        ∷ ("parse_to", (Value.string "attributes"))
        ∷ (
          "regex",
          (Value.string
              "^(?P<timestamp>\\S+)\\s+(?P<thread_id>\\d+)\\s+\\[(?P<level>\\w+)\\]\\s+\\[(?P<error_code>[\\w-]+)\\]\\s+\\[(?P<subsystem>[\\w.]+)\\]\\s+(?P<message>.*)$"),
        )
        ∷ ("on_error", (Value.string "send_quiet"))
        ∷ []))
      ∷ (add_op "attributes.sourcetype" "mysql_error")
      ∷ [])

unfoldable pub build_mysql : Value → Value
build_mysql params =
    let include =
      value_or (get_path params "include")
        (array_of ((Value.string "/var/log/mysql/error.log") ∷ [])) in
    let map0 = insert "include" include end in
    let map1 = set_path map0 "start_at" (Value.string "end") in
    let map2 = insert "operators" (array_of mysql_operators) map1 in Value.object map2

unfoldable pub postgresql_params : List FieldSpec
postgresql_params =
    param "include" FieldKind.string_list true (some "/var/log/postgresql/postgresql-*.log")
      "PostgreSQL log file glob(s) -- e.g. /var/log/postgresql/postgresql-*.log."
    ∷ []

unfoldable pub postgresql_operators : List Value
postgresql_operators =
    ((object_of (
        ("type", (Value.string "regex_parser"))
        ∷ ("parse_from", (Value.string "body"))
        ∷ ("parse_to", (Value.string "attributes"))
        ∷ (
          "regex",
          (Value.string
              "^(?P<timestamp>\\d{4}-\\d{2}-\\d{2} \\d{2}:\\d{2}:\\d{2}\\.\\d+ \\w+) \\[(?P<pid>\\d+)\\] (?P<level>\\w+):\\s+(?P<message>.*)$"),
        )
        ∷ ("on_error", (Value.string "send_quiet"))
        ∷ []))
      ∷ (add_op "attributes.sourcetype" "postgresql")
      ∷ [])

unfoldable pub build_postgresql : Value → Value
build_postgresql params =
    let include =
      value_or (get_path params "include")
        (array_of ((Value.string "/var/log/postgresql/postgresql-*.log") ∷ [])) in
    let map0 = insert "include" include end in
    let map1 = set_path map0 "start_at" (Value.string "end") in
    let map2 = insert "operators" (array_of postgresql_operators) map1 in Value.object map2

unfoldable pub sql_server_params : List FieldSpec
sql_server_params =
    param "include" FieldKind.string_list true (some "/var/opt/mssql/log/errorlog")
      "SQL Server error log glob(s) -- e.g. /var/opt/mssql/log/errorlog (Linux/container default) or the ERRORLOG file under Windows's MSSQL log directory."
    ∷ []

unfoldable pub sql_server_operators : List Value
sql_server_operators =
    ((object_of (
        ("type", (Value.string "regex_parser"))
        ∷ ("parse_from", (Value.string "body"))
        ∷ ("parse_to", (Value.string "attributes"))
        ∷ (
          "regex",
          (Value.string
              "^(?P<date>\\d{4}-\\d{2}-\\d{2}) (?P<time>\\d{2}:\\d{2}:\\d{2}\\.\\d+) (?P<spid>\\S+)\\s+(?P<message>.*)$"),
        )
        ∷ ("on_error", (Value.string "send_quiet"))
        ∷ []))
      ∷ (add_op "attributes.sourcetype" "sql_server")
      ∷ [])

unfoldable pub build_sql_server : Value → Value
build_sql_server params =
    let include =
      value_or (get_path params "include")
        (array_of ((Value.string "/var/opt/mssql/log/errorlog") ∷ [])) in
    let map0 = insert "include" include end in
    let map1 = set_path map0 "start_at" (Value.string "end") in
    let map2 = insert "operators" (array_of sql_server_operators) map1 in Value.object map2
