-- ===== src/Templates/Generic.antt =====
-- The curated templates of generic sources: their parameters and their `build` functions, from
-- crates/collector/src/editor/templates.rs.
use securitygingercia.Prelude.{String, true, false, none, some, List, [], ◌∷◌}
use securitygingercia.Json.{Value, end, insert, array_of}
use securitygingercia.Schema.Spec.{FieldKind, FieldSpec}
use securitygingercia.Schema.Path.{set_path, get_path}
use securitygingercia.Templates.Spec.{
  param, param_str, set_transport, add_op, move_op, transport_enum, object_of, value_or,
}

unfoldable pub generic_syslog_params : List FieldSpec
generic_syslog_params =
    param "transport" transport_enum true (some "udp")
      "udp or tcp, matching the sender's remote-syslog config."
    ∷ param "listen_address" FieldKind.str true (some "0.0.0.0:1514")
        "Address to listen on -- e.g. 0.0.0.0:1514."
    ∷ []

unfoldable pub generic_syslog_operators : List Value
generic_syslog_operators =
    ((add_op "attributes.datasource" "generic_syslog")
      ∷ (add_op "attributes.sourcetype" "generic_rsyslog")
      ∷ (move_op "attributes.message" "body")
      ∷ [])

unfoldable pub build_generic_syslog : Value → Value
build_generic_syslog params =
    let map0 = set_path end "protocol" (Value.string "rfc5424") in
    let map1 = set_transport map0 params "0.0.0.0:1514" in
    let map2 = insert "operators" (array_of generic_syslog_operators) map1 in Value.object map2

unfoldable pub file_log_params : List FieldSpec
file_log_params =
    param "include" FieldKind.string_list true none
      "File glob(s) to tail -- e.g. /var/log/myapp/*.log."
    ∷ param "sourcetype" FieldKind.str true none
        "Sourcetype tag to add to every event from this file -- e.g. myapp."
    ∷ []

unfoldable pub file_log_operators : String → List Value
file_log_operators sourcetype = ((add_op "attributes.sourcetype" sourcetype) ∷ [])

unfoldable pub build_file_log : Value → Value
build_file_log params =
    let include =
      value_or (get_path params "include") (array_of ((Value.string "/var/log/*.log") ∷ [])) in
    let map0 = insert "include" include end in
    let map1 = set_path map0 "start_at" (Value.string "end") in
    let sourcetype = param_str params "sourcetype" "generic" in
    let map2 = insert "operators" (array_of (file_log_operators sourcetype)) map1 in
    Value.object map2

unfoldable pub json_logs_params : List FieldSpec
json_logs_params =
    param "include" FieldKind.string_list true none
      "File glob(s) to tail -- e.g. /var/log/myapp/*.jsonl."
    ∷ param "sourcetype" FieldKind.str false (some "json")
        "Sourcetype tag to add to every event from this file."
    ∷ []

unfoldable pub json_logs_operators : String → List Value
json_logs_operators sourcetype =
    ((object_of (
        ("type", (Value.string "json_parser"))
        ∷ ("parse_from", (Value.string "body"))
        ∷ ("parse_to", (Value.string "attributes"))
        ∷ ("on_error", (Value.string "send_quiet"))
        ∷ []))
      ∷ (add_op "attributes.sourcetype" sourcetype)
      ∷ [])

unfoldable pub build_json_logs : Value → Value
build_json_logs params =
    let include =
      value_or (get_path params "include") (array_of ((Value.string "/var/log/*.jsonl") ∷ [])) in
    let map0 = insert "include" include end in
    let map1 = set_path map0 "start_at" (Value.string "end") in
    let sourcetype = param_str params "sourcetype" "json" in
    let map2 = insert "operators" (array_of (json_logs_operators sourcetype)) map1 in
    Value.object map2

unfoldable pub w3c_logs_params : List FieldSpec
w3c_logs_params =
    param "include" FieldKind.string_list true (some "C:\\inetpub\\logs\\LogFiles\\W3SVC1\\*.log")
      "IIS log file glob(s) -- e.g. C:\\inetpub\\logs\\LogFiles\\W3SVC1\\*.log."
    ∷ []

unfoldable pub w3c_logs_operators : List Value
w3c_logs_operators =
    ((object_of (
        ("type", (Value.string "regex_parser"))
        ∷ ("parse_from", (Value.string "body"))
        ∷ ("parse_to", (Value.string "attributes"))
        ∷ (
          "regex",
          (Value.string
              "^(?P<date>\\S+) (?P<time>\\S+) (?P<s_ip>\\S+) (?P<method>\\S+) (?P<uri_stem>\\S+) (?P<uri_query>\\S+) (?P<port>\\S+) (?P<username>\\S+) (?P<client_ip>\\S+) (?P<user_agent>\\S+) (?P<referer>\\S+) (?P<status>\\d+) (?P<substatus>\\d+) (?P<win32_status>\\d+) (?P<time_taken>\\d+)$"),
        )
        ∷ ("on_error", (Value.string "send_quiet"))
        ∷ []))
      ∷ (add_op "attributes.sourcetype" "iis_w3c")
      ∷ [])

unfoldable pub build_w3c_logs : Value → Value
build_w3c_logs params =
    let include =
      value_or (get_path params "include")
        (array_of ((Value.string "C:\\inetpub\\logs\\LogFiles\\W3SVC1\\*.log") ∷ [])) in
    let map0 = insert "include" include end in
    let map1 = set_path map0 "start_at" (Value.string "end") in
    let map2 = insert "operators" (array_of w3c_logs_operators) map1 in Value.object map2

unfoldable pub nginx_params : List FieldSpec
nginx_params =
    param "include" FieldKind.string_list true (some "/var/log/nginx/access.log")
      "nginx access log file glob(s) -- e.g. /var/log/nginx/access.log."
    ∷ []

unfoldable pub nginx_operators : List Value
nginx_operators =
    ((object_of (
        ("type", (Value.string "regex_parser"))
        ∷ ("parse_from", (Value.string "body"))
        ∷ ("parse_to", (Value.string "attributes"))
        ∷ (
          "regex",
          (Value.string
              "^(?P<remote_addr>\\S+) - (?P<remote_user>\\S+) \\[(?P<time_local>[^\\]]+)\\] \"(?P<request>[^\"]*)\" (?P<status>\\d+) (?P<bytes_sent>\\d+) \"(?P<referer>[^\"]*)\" \"(?P<user_agent>[^\"]*)\"$"),
        )
        ∷ ("on_error", (Value.string "send_quiet"))
        ∷ []))
      ∷ (add_op "attributes.sourcetype" "nginx_access")
      ∷ [])

unfoldable pub build_nginx : Value → Value
build_nginx params =
    let include =
      value_or (get_path params "include")
        (array_of ((Value.string "/var/log/nginx/access.log") ∷ [])) in
    let map0 = insert "include" include end in
    let map1 = set_path map0 "start_at" (Value.string "end") in
    let map2 = insert "operators" (array_of nginx_operators) map1 in Value.object map2
