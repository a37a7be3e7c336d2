-- ===== src/Templates/Messaging.antt =====
-- The curated templates of messaging and big data: their parameters and their `build` functions, from
-- crates/collector/src/editor/templates.rs.
use securitygingercia.Prelude.{true, some, List, [], ◌∷◌}
use securitygingercia.Json.{Value, end, insert, array_of}
use securitygingercia.Schema.Spec.{FieldKind, FieldSpec}
use securitygingercia.Schema.Path.{set_path, get_path}
use securitygingercia.Templates.Spec.{param, add_op, object_of, value_or}

unfoldable pub kafka_params : List FieldSpec
kafka_params =
    param "include" FieldKind.string_list true (some "/var/log/kafka/server.log")
      "Kafka broker log glob(s) -- e.g. /var/log/kafka/server.log."
    ∷ []

unfoldable pub kafka_operators : List Value
kafka_operators =
    ((object_of (
        ("type", (Value.string "regex_parser"))
        ∷ ("parse_from", (Value.string "body"))
        ∷ ("parse_to", (Value.string "attributes"))
        ∷ (
          "regex",
          (Value.string
              "^\\[(?P<timestamp>[\\d-]+ [\\d:,]+)\\]\\s+(?P<level>\\w+)\\s+(?P<message>.*?)\\s+\\((?P<logger>[\\w.$]+)\\)$"),
        )
        ∷ ("on_error", (Value.string "send_quiet"))
        ∷ []))
      ∷ (add_op "attributes.sourcetype" "kafka")
      ∷ [])

unfoldable pub build_kafka : Value → Value
build_kafka params =
    let include =
      value_or (get_path params "include")
        (array_of ((Value.string "/var/log/kafka/server.log") ∷ [])) in
    let map0 = insert "include" include end in
    let map1 = set_path map0 "start_at" (Value.string "end") in
    let map2 = insert "operators" (array_of kafka_operators) map1 in Value.object map2

unfoldable pub hadoop_params : List FieldSpec
hadoop_params =
    param "include" FieldKind.string_list true (some "/var/log/hadoop/*.log")
      "Hadoop daemon log glob(s) -- e.g. /var/log/hadoop/*.log."
    ∷ []

unfoldable pub hadoop_operators : List Value
hadoop_operators =
    ((object_of (
        ("type", (Value.string "regex_parser"))
        ∷ ("parse_from", (Value.string "body"))
        ∷ ("parse_to", (Value.string "attributes"))
        ∷ (
          "regex",
          (Value.string
              "^(?P<timestamp>[\\d-]+ [\\d:,]+)\\s+(?P<level>\\w+)\\s+\\[(?P<thread>[^\\]]+)\\]\\s+(?P<logger>\\S+):\\s+(?P<message>.*)$"),
        )
        ∷ ("on_error", (Value.string "send_quiet"))
        ∷ []))
      ∷ (add_op "attributes.sourcetype" "hadoop")
      ∷ [])

unfoldable pub build_hadoop : Value → Value
build_hadoop params =
    let include =
      value_or (get_path params "include")
        (array_of ((Value.string "/var/log/hadoop/*.log") ∷ [])) in
    let map0 = insert "include" include end in
    let map1 = set_path map0 "start_at" (Value.string "end") in
    let map2 = insert "operators" (array_of hadoop_operators) map1 in Value.object map2
