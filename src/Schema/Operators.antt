-- ===== src/Schema/Operators.antt =====
-- The registered inline operators: the tables of crates/collector/src/editor/schema_registry.rs.
use securitygingercia.Prelude.{true, false, none, some, List, [], ◌∷◌}
use securitygingercia.Schema.Spec.{FieldKind, FieldSpec, ComponentTypeSpec, f}

unfoldable pub on_error : FieldSpec
on_error =
    f "on_error" (FieldKind.enum ("send" ∷ "send_quiet" ∷ "drop" ∷ "drop_quiet" ∷ [])) false
      (some "send")
      "What to do if this operator fails on an event: send (forward the event unparsed, log the error) or drop (discard it). The _quiet variants only log at debug level."

unfoldable pub regex_parser_fields : List FieldSpec
unfolding on_error
regex_parser_fields =
    f "regex" FieldKind.str true (some "(?P<message>.*)")
      "Go regular expression, with (?P<name>...) capture groups for each field to extract -- e.g. ^%ASA-(?P<severity>\\d)-(?P<msgid>\\d+):\\s*(?P<message>.*)$"
    ∷ f "parse_from" FieldKind.str false (some "body") "Which field to read the text from."
    ∷ f "parse_to" FieldKind.str false (some "attributes") "Where to put the extracted fields."
    ∷ on_error
    ∷ []

unfoldable pub json_parser_fields : List FieldSpec
unfolding on_error
json_parser_fields =
    f "parse_from" FieldKind.str false (some "body") "Which field holds the JSON text to parse."
    ∷ f "parse_to" FieldKind.str false (some "attributes")
        "Where to put the parsed result (merges keys in if attributes, replaces if body)."
    ∷ on_error
    ∷ []

unfoldable pub key_value_parser_fields : List FieldSpec
unfolding on_error
key_value_parser_fields =
    f "parse_from" FieldKind.str false (some "body") "Which field holds the key=value text."
    ∷ f "parse_to" FieldKind.str false (some "attributes") "Where to put the extracted fields."
    ∷ f "delimiter" FieldKind.str false (some "=") "Character that separates a key from its value."
    ∷ f "pair_delimiter" FieldKind.str false none
        "Character that separates one key=value pair from the next. Leave blank for whitespace."
    ∷ on_error
    ∷ []

unfoldable pub severity_parser_fields : List FieldSpec
unfolding on_error
severity_parser_fields =
    f "parse_from" FieldKind.str true (some "attributes.severity")
      "Which field holds the severity value -- e.g. attributes.severity."
    ∷ f "preset" FieldKind.str false (some "default")
        "Which numbering scheme to interpret the value with. \"default\" follows the OTel/syslog severity convention."
    ∷ on_error
    ∷ []

unfoldable pub time_parser_fields : List FieldSpec
unfolding on_error
time_parser_fields =
    f "parse_from" FieldKind.str true (some "attributes.ts")
      "Which field holds the timestamp text -- e.g. attributes.ts."
    ∷ f "layout_type" (FieldKind.enum ("strptime" ∷ "gotime" ∷ "epoch" ∷ [])) false
        (some "strptime")
        "How to interpret the layout field below: strptime (%Y-%m-%d style), gotime (Go's reference-time style), or epoch (numeric seconds/ms since 1970)."
    ∷ f "layout" FieldKind.str true (some "%Y-%m-%dT%H:%M:%SZ")
        "The timestamp format, in the style selected by layout_type -- e.g. %Y-%m-%dT%H:%M:%SZ for strptime."
    ∷ on_error
    ∷ []

unfoldable pub add_fields : List FieldSpec
add_fields =
    f "field" FieldKind.str true (some "attributes.datasource")
      "Which field to set -- e.g. attributes.datasource."
    ∷ f "value" FieldKind.str true none "The fixed value to set it to -- e.g. cisco_asa."
    ∷ []

unfoldable pub remove_fields : List FieldSpec
remove_fields =
    f "field" FieldKind.str true (some "attributes.secret")
      "Which field to delete -- e.g. attributes.secret."
    ∷ []

unfoldable pub from_to_fields : List FieldSpec
from_to_fields =
    f "from" FieldKind.str true (some "attributes.message")
      "Field to read the value from -- e.g. attributes.message."
    ∷ f "to" FieldKind.str true (some "body") "Field to write the value to -- e.g. body."
    ∷ []

unfoldable pub operator_types : List ComponentTypeSpec
unfolding regex_parser_fields json_parser_fields key_value_parser_fields severity_parser_fields
    time_parser_fields add_fields remove_fields from_to_fields
operator_types =
    record {
      type_name = "regex_parser";
      description = "Extracts named fields out of the log text using a regular expression.";
      fields = regex_parser_fields;
    }
    ∷ record {
      type_name = "json_parser";
      description = "Parses a field's text as JSON and merges the result in.";
      fields = json_parser_fields;
    }
    ∷ record {
      type_name = "key_value_parser";
      description = "Parses key=value pairs out of a field's text -- e.g. user=neo action=login.";
      fields = key_value_parser_fields;
    }
    ∷ record {
      type_name = "severity_parser";
      description = "Sets an event's severity by interpreting a value already in the event.";
      fields = severity_parser_fields;
    }
    ∷ record {
      type_name = "time_parser";
      description = "Sets an event's official timestamp by parsing a value already in the event.";
      fields = time_parser_fields;
    }
    ∷ record {
      type_name = "add";
      description = "Sets a field to a fixed value on every event.";
      fields = add_fields;
    }
    ∷ record {
      type_name = "remove";
      description = "Deletes a field from every event.";
      fields = remove_fields;
    }
    ∷ record {
      type_name = "copy";
      description = "Copies a field's value to a second location, keeping the original too.";
      fields = from_to_fields;
    }
    ∷ record {
      type_name = "move";
      description =
          "Moves (or renames) a field's value to a new location, removing it from the original.";
      fields = from_to_fields;
    }
    ∷ []
