-- ===== src/Templates/Windows.antt =====
-- The curated templates of Windows sources: their parameters and their `build` functions, from
-- crates/collector/src/editor/templates.rs.
use securitygingercia.Prelude.{true, some, List, [], ◌∷◌}
use securitygingercia.Json.{Value, end, insert, array_of}
use securitygingercia.Schema.Spec.{FieldKind, FieldSpec}
use securitygingercia.Schema.Path.{set_path, get_path}
use securitygingercia.Templates.Spec.{param, param_str, add_op, object_of, value_or}

unfoldable pub windows_dhcp_params : List FieldSpec
windows_dhcp_params =
    param "include" FieldKind.string_list true
      (some "C:\\Windows\\System32\\dhcp\\DhcpSrvLog-*.log")
      "DHCP server audit log glob(s) -- e.g. C:\\Windows\\System32\\dhcp\\DhcpSrvLog-*.log."
    ∷ []

unfoldable pub windows_dhcp_operators : List Value
windows_dhcp_operators =
    ((object_of (
        ("type", (Value.string "regex_parser"))
        ∷ ("parse_from", (Value.string "body"))
        ∷ ("parse_to", (Value.string "attributes"))
        ∷ (
          "regex",
          (Value.string
              "^(?P<event_id>\\d+),(?P<date>[^,]*),(?P<time>[^,]*),(?P<description>[^,]*),(?P<ip_address>[^,]*),(?P<host_name>[^,]*),(?P<mac_address>[^,]*),(?P<rest>.*)$"),
        )
        ∷ ("on_error", (Value.string "send_quiet"))
        ∷ []))
      ∷ (add_op "attributes.sourcetype" "windows_dhcp")
      ∷ [])

unfoldable pub build_windows_dhcp : Value → Value
build_windows_dhcp params =
    let include =
      value_or (get_path params "include")
        (array_of ((Value.string "C:\\Windows\\System32\\dhcp\\DhcpSrvLog-*.log") ∷ [])) in
    let map0 = insert "include" include end in
    let map1 = set_path map0 "start_at" (Value.string "end") in
    let map2 = insert "operators" (array_of windows_dhcp_operators) map1 in Value.object map2

unfoldable pub active_directory_params : List FieldSpec
active_directory_params =
    param "channel" FieldKind.str true (some "Security")
      "Windows Event Log channel to read -- Security covers logon/account/AD events; some environments also use Directory Service."
    ∷ []

unfoldable pub active_directory_operators : List Value
active_directory_operators =
    ((add_op "attributes.sourcetype" "windows_security")
      ∷ (add_op "attributes.datasource" "active_directory")
      ∷ [])

unfoldable pub build_active_directory : Value → Value
build_active_directory params =
    let channel = param_str params "channel" "Security" in
    let map0 = insert "channel" (Value.string channel) end in
    let map1 = insert "query" (Value.string "*") map0 in
    let map2 = insert "operators" (array_of active_directory_operators) map1 in Value.object map2
