-- ===== src/Templates/Network.antt =====
-- The curated templates of network and security devices: their parameters and their `build` functions, from
-- crates/collector/src/editor/templates.rs.
use securitygingercia.Prelude.{true, some, List, [], ◌∷◌}
use securitygingercia.Json.{Value, end, insert, array_of}
use securitygingercia.Schema.Spec.{FieldKind, FieldSpec}
use securitygingercia.Schema.Path.{set_path}
use securitygingercia.Templates.Spec.{
  param, set_transport, add_op, move_op, transport_enum, object_of,
}

unfoldable pub cisco_asa_params : List FieldSpec
cisco_asa_params =
    param "transport" transport_enum true (some "udp")
      "udp or tcp, matching how the ASA is configured to send logs."
    ∷ param "listen_address" FieldKind.str true (some "0.0.0.0:514")
        "Address to listen on -- e.g. 0.0.0.0:514. Just a suggested starting port; adjust if this collector already listens on it elsewhere."
    ∷ []

unfoldable pub cisco_asa_operators : List Value
cisco_asa_operators =
    ((object_of (
        ("type", (Value.string "regex_parser"))
        ∷ ("parse_from", (Value.string "body"))
        ∷ ("parse_to", (Value.string "attributes"))
        ∷ ("regex", (Value.string "^%ASA-(?P<severity>\\d)-(?P<msgid>\\d+):\\s*(?P<message>.*)$"))
        ∷ ("on_error", (Value.string "send_quiet"))
        ∷ []))
      ∷ (object_of (
          ("type", (Value.string "severity_parser"))
          ∷ ("parse_from", (Value.string "attributes.severity"))
          ∷ ("preset", (Value.string "default"))
          ∷ ("on_error", (Value.string "send_quiet"))
          ∷ []))
      ∷ (add_op "attributes.datasource" "cisco_asa")
      ∷ (add_op "attributes.sourcetype" "cisco_asa_ts_parser")
      ∷ (move_op "attributes.message" "body")
      ∷ [])

unfoldable pub build_cisco_asa : Value → Value
build_cisco_asa params =
    let map0 = set_path end "protocol" (Value.string "rfc3164") in
    let map1 = set_transport map0 params "0.0.0.0:514" in
    let map2 = insert "operators" (array_of cisco_asa_operators) map1 in Value.object map2

unfoldable pub cisco_catalyst_params : List FieldSpec
cisco_catalyst_params =
    param "transport" transport_enum true (some "udp")
      "udp or tcp, matching how the switch is configured to send logs."
    ∷ param "listen_address" FieldKind.str true (some "0.0.0.0:515")
        "Address to listen on -- e.g. 0.0.0.0:515."
    ∷ []

unfoldable pub cisco_catalyst_operators : List Value
cisco_catalyst_operators =
    ((object_of (
        ("type", (Value.string "regex_parser"))
        ∷ ("parse_from", (Value.string "body"))
        ∷ ("parse_to", (Value.string "attributes"))
        ∷ (
          "regex",
          (Value.string
              "^%(?P<facility>[A-Z0-9_]+)-(?P<severity>\\d)-(?P<mnemonic>[A-Z0-9_]+):\\s*(?P<message>.*)$"),
        )
        ∷ ("on_error", (Value.string "send_quiet"))
        ∷ []))
      ∷ (object_of (
          ("type", (Value.string "severity_parser"))
          ∷ ("parse_from", (Value.string "attributes.severity"))
          ∷ ("preset", (Value.string "default"))
          ∷ ("on_error", (Value.string "send_quiet"))
          ∷ []))
      ∷ (add_op "attributes.datasource" "cisco_ios")
      ∷ (add_op "attributes.sourcetype" "cisco_catalyst_ts_parser")
      ∷ (move_op "attributes.message" "body")
      ∷ [])

unfoldable pub build_cisco_catalyst : Value → Value
build_cisco_catalyst params =
    let map0 = set_path end "protocol" (Value.string "rfc3164") in
    let map1 = set_transport map0 params "0.0.0.0:515" in
    let map2 = insert "operators" (array_of cisco_catalyst_operators) map1 in Value.object map2

unfoldable pub cisco_meraki_params : List FieldSpec
cisco_meraki_params =
    param "transport" transport_enum true (some "udp")
      "udp or tcp, matching the syslog server target configured in the Meraki dashboard."
    ∷ param "listen_address" FieldKind.str true (some "0.0.0.0:516")
        "Address to listen on -- e.g. 0.0.0.0:516."
    ∷ []

unfoldable pub cisco_meraki_operators : List Value
cisco_meraki_operators =
    ((object_of (
        ("type", (Value.string "regex_parser"))
        ∷ ("parse_from", (Value.string "body"))
        ∷ ("parse_to", (Value.string "attributes"))
        ∷ (
          "regex",
          (Value.string
              "^(?P<timestamp>\\S+\\s+\\S+)\\s+(?P<device>\\S+)\\s+(?P<log_type>\\S+)\\s+(?P<message>.*)$"),
        )
        ∷ ("on_error", (Value.string "send_quiet"))
        ∷ []))
      ∷ (object_of (
          ("type", (Value.string "key_value_parser"))
          ∷ ("parse_from", (Value.string "attributes.message"))
          ∷ ("parse_to", (Value.string "attributes"))
          ∷ ("on_error", (Value.string "send_quiet"))
          ∷ []))
      ∷ (add_op "attributes.datasource" "cisco_meraki")
      ∷ (add_op "attributes.sourcetype" "cisco_meraki_ts_parser")
      ∷ (move_op "attributes.message" "body")
      ∷ [])

unfoldable pub build_cisco_meraki : Value → Value
build_cisco_meraki params =
    let map0 = set_path end "protocol" (Value.string "none") in
    let map1 = set_transport map0 params "0.0.0.0:516" in
    let map2 = insert "operators" (array_of cisco_meraki_operators) map1 in Value.object map2

unfoldable pub ubiquiti_params : List FieldSpec
ubiquiti_params =
    param "transport" transport_enum true (some "udp")
      "udp or tcp, matching the UniFi controller/device's remote syslog config."
    ∷ param "listen_address" FieldKind.str true (some "0.0.0.0:517")
        "Address to listen on -- e.g. 0.0.0.0:517."
    ∷ []

unfoldable pub ubiquiti_operators : List Value
ubiquiti_operators =
    ((add_op "attributes.datasource" "ubiquiti")
      ∷ (add_op "attributes.sourcetype" "ubiquiti_ts_parser")
      ∷ [])

unfoldable pub build_ubiquiti : Value → Value
build_ubiquiti params =
    let map0 = set_path end "protocol" (Value.string "rfc3164") in
    let map1 = set_transport map0 params "0.0.0.0:517" in
    let map2 = insert "operators" (array_of ubiquiti_operators) map1 in Value.object map2

unfoldable pub haproxy_params : List FieldSpec
haproxy_params =
    param "transport" transport_enum true (some "udp")
      "udp or tcp, matching HAProxy's log target config."
    ∷ param "listen_address" FieldKind.str true (some "0.0.0.0:518")
        "Address to listen on -- e.g. 0.0.0.0:518."
    ∷ []

unfoldable pub haproxy_operators : List Value
haproxy_operators =
    ((object_of (
        ("type", (Value.string "regex_parser"))
        ∷ ("parse_from", (Value.string "body"))
        ∷ ("parse_to", (Value.string "attributes"))
        ∷ (
          "regex",
          (Value.string
              "^(?P<client_ip>[\\d.:a-fA-F]+):(?P<client_port>\\d+) \\[(?P<accept_date>[^\\]]+)\\] (?P<frontend>\\S+) (?P<backend>\\S+)/(?P<server>\\S+) \\S+ (?P<status_code>\\d+) (?P<bytes_read>\\d+) \\S+ \\S+ \\S+ \\S+ \\S+ \"(?P<http_request>[^\"]*)\"$"),
        )
        ∷ ("on_error", (Value.string "send_quiet"))
        ∷ []))
      ∷ (add_op "attributes.datasource" "haproxy")
      ∷ (add_op "attributes.sourcetype" "haproxy_ts_parser")
      ∷ [])

unfoldable pub build_haproxy : Value → Value
build_haproxy params =
    let map0 = set_path end "protocol" (Value.string "rfc3164") in
    let map1 = set_transport map0 params "0.0.0.0:518" in
    let map2 = insert "operators" (array_of haproxy_operators) map1 in Value.object map2

unfoldable pub cef_params : List FieldSpec
cef_params =
    param "transport" transport_enum true (some "udp")
      "udp or tcp, matching the CEF-emitting device's syslog config."
    ∷ param "listen_address" FieldKind.str true (some "0.0.0.0:519")
        "Address to listen on -- e.g. 0.0.0.0:519."
    ∷ []

unfoldable pub cef_operators : List Value
cef_operators =
    ((object_of (
        ("type", (Value.string "regex_parser"))
        ∷ ("parse_from", (Value.string "body"))
        ∷ ("parse_to", (Value.string "attributes"))
        ∷ (
          "regex",
          (Value.string
              "^CEF:(?P<cef_version>\\d)\\|(?P<device_vendor>[^|]*)\\|(?P<device_product>[^|]*)\\|(?P<device_version>[^|]*)\\|(?P<signature_id>[^|]*)\\|(?P<name>[^|]*)\\|(?P<cef_severity>[^|]*)\\|(?P<extension>.*)$"),
        )
        ∷ ("on_error", (Value.string "send_quiet"))
        ∷ []))
      ∷ (object_of (
          ("type", (Value.string "key_value_parser"))
          ∷ ("parse_from", (Value.string "attributes.extension"))
          ∷ ("parse_to", (Value.string "attributes"))
          ∷ ("on_error", (Value.string "send_quiet"))
          ∷ []))
      ∷ (add_op "attributes.datasource" "cef")
      ∷ (add_op "attributes.sourcetype" "cef_ts_parser")
      ∷ [])

unfoldable pub build_cef : Value → Value
build_cef params =
    let map0 = set_path end "protocol" (Value.string "none") in
    let map1 = set_transport map0 params "0.0.0.0:519" in
    let map2 = insert "operators" (array_of cef_operators) map1 in Value.object map2
