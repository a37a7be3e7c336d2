-- ===== src/Schema/Receivers.antt =====
-- The registered receivers: the tables of crates/collector/src/editor/schema_registry.rs.
use securitygingercia.Prelude.{true, false, none, some, List, [], ◌∷◌}
use securitygingercia.Schema.Spec.{FieldKind, FieldSpec, ComponentTypeSpec, f}

unfoldable pub operators : FieldSpec
operators =
    f "operators" FieldKind.operator_list false none
      "Inline parsing chain run on every event from this receiver, in order -- e.g. extract fields with a regex, then map severity, then add a sourcetype. Press Enter to manage the list."

unfoldable pub storage : FieldSpec
storage =
    f "storage" FieldKind.str false none
      "Optional: id of a file_storage extension to persist read position across restarts -- e.g. file_storage. Leave blank to track position in memory only (lost on restart)."

unfoldable pub syslog_fields : List FieldSpec
unfolding operators
syslog_fields =
    f "protocol" (FieldKind.enum ("rfc3164" ∷ "rfc5424" ∷ "none" ∷ [])) true (some "rfc3164")
      "Which syslog message format to expect. \"none\" keeps the message body as-is (still decodes a leading <34>-style PRI header if present)."
    ∷ f "udp.listen_address" FieldKind.str true (some "0.0.0.0:514")
        "Set this to listen over UDP, e.g. 0.0.0.0:514 -- clear it if using tcp.listen_address instead (at least one of the two is required). 0.0.0.0 means \"every network interface on this machine\"."
    ∷ f "tcp.listen_address" FieldKind.str false none
        "Set this to listen over TCP, e.g. 0.0.0.0:601 -- leave blank if using udp.listen_address instead."
    ∷ f "enable_octet_counting" FieldKind.bool false (some "false")
        "TCP only: enable RFC 6587 octet-counting framing (each message prefixed with its byte length). Most TCP senders don't need this."
    ∷ operators
    ∷ []

unfoldable pub file_log_fields : List FieldSpec
unfolding operators storage
file_log_fields =
    f "include" FieldKind.string_list true none
      "Which files to watch, as glob patterns -- e.g. /var/log/myapp/*.log. Separate multiple patterns with commas."
    ∷ f "exclude" FieldKind.string_list false none
        "Optional: file patterns to skip even if they match include -- e.g. /var/log/myapp/*.gz."
    ∷ f "start_at" (FieldKind.enum ("beginning" ∷ "end" ∷ [])) false (some "end")
        "Where to start reading a file the first time it's seen: end (only new lines from now on) or beginning (read the whole existing file too)."
    ∷ f "poll_interval" FieldKind.duration false (some "200ms")
        "How often to check the file(s) for new lines -- e.g. 200ms, 2s."
    ∷ storage
    ∷ operators
    ∷ []

unfoldable pub windows_event_log_fields : List FieldSpec
unfolding operators storage
windows_event_log_fields =
    f "channel" FieldKind.str true none
      "Which Windows Event Log to read -- e.g. Security, System, Application. This only works if sgcia-otelcol itself runs on Windows -- on Linux/macOS it fails to even build a pipeline (not just to run), so remove this receiver and whichever pipeline references it before saving/validating there."
    ∷ f "query" FieldKind.str false (some "*")
        "XPath filter for which events to include. * means all events on this channel."
    ∷ f "start_at" (FieldKind.enum ("beginning" ∷ "end" ∷ [])) false (some "end")
        "Where to start the first time: end (only new events from now on) or beginning (replay everything currently in the log)."
    ∷ storage
    ∷ operators
    ∷ []

unfoldable pub receiver_types : List ComponentTypeSpec
unfolding syslog_fields file_log_fields windows_event_log_fields
receiver_types =
    record {
      type_name = "syslog";
      description = "Listens for syslog messages over the network (UDP and/or TCP).";
      fields = syslog_fields;
    }
    ∷ record {
      type_name = "file_log";
      description =
          "Tails one or more log files from disk, following new lines as they're written (like `tail -f`).";
      fields = file_log_fields;
    }
    ∷ record {
      type_name = "windows_event_log";
      description =
          "Reads events from a Windows Event Log channel. Only works if this collector process itself runs on Windows -- see the channel field's help text for what happens elsewhere.";
      fields = windows_event_log_fields;
    }
    ∷ []
