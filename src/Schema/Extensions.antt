-- ===== src/Schema/Extensions.antt =====
-- The registered extensions: the tables of crates/collector/src/editor/schema_registry.rs.
use securitygingercia.Prelude.{true, false, none, some, List, [], ◌∷◌}
use securitygingercia.Schema.Spec.{FieldKind, FieldSpec, ComponentTypeSpec, f}

unfoldable pub file_storage_fields : List FieldSpec
file_storage_fields =
    f "directory" FieldKind.str true (some "/var/lib/sgcia/otelcol-storage")
      "Directory where receivers using this extension (via their storage field) persist read position across restarts."
    ∷ f "create_directory" FieldKind.bool false (some "true")
        "Create the directory above automatically if it doesn't exist yet."
    ∷ []

unfoldable pub health_check_fields : List FieldSpec
health_check_fields =
    f "endpoint" FieldKind.str false (some "127.0.0.1:13133")
      "Address this extension's health-check HTTP endpoint listens on."
    ∷ []

unfoldable pub statuscfg_fields : List FieldSpec
statuscfg_fields =
    f "endpoint" FieldKind.str false (some "127.0.0.1:7801")
      "Address the dashboard/editor's /status + /config HTTP endpoint listens on -- 127.0.0.1:7801 matches sgcia dashboard's own default, so it works with no flags."
    ∷ f "config_path" FieldKind.str true none
        "The same file passed to this collector's own --config flag at startup -- this extension re-reads it to serve /config, since there's no API to read back the running config."
    ∷ f "metrics_url" FieldKind.str false (some "http://localhost:8888/metrics")
        "Where this collector's own internal Prometheus telemetry is exposed (service.telemetry.metrics in this same file) -- scraped on every /status request."
    ∷ f "fleet_server_url" FieldKind.str false none
        "OpAMP WebSocket endpoint of a central sgcia-fleet-server to report health/inventory to -- e.g. ws://fleet.example.com:4320/v1/opamp. Leave blank to keep this agent fully standalone (the default)."
    ∷ f "fleet_token" FieldKind.str false none
        "Shared bearer token the fleet server requires to enroll -- only meaningful if fleet_server_url is set. Use ${SOME_VAR} to read it from an environment variable instead of writing the real secret here, same as the HEC token fields above."
    ∷ f "fleet_instance_id_path" FieldKind.str false
        (some "/var/lib/sgcia/sgcia-fleet-instance-uid")
        "Where this agent persists its random OpAMP instance ID so it reconnects as the same agent across restarts, instead of enrolling as a new one every time (the fleet server would otherwise accumulate a stale duplicate row per restart). Leave blank only if you deliberately want a fresh identity on every restart."
    ∷ []

unfoldable pub extension_types : List ComponentTypeSpec
unfolding file_storage_fields health_check_fields statuscfg_fields
extension_types =
    record {
      type_name = "file_storage";
      description =
          "Persists receiver read-position/bookmarks to disk so a restart resumes correctly. Referenced by a receiver's storage field.";
      fields = file_storage_fields;
    }
    ∷ record {
      type_name = "health_check";
      description = "Serves a simple HTTP health-check endpoint for this collector process.";
      fields = health_check_fields;
    }
    ∷ record {
      type_name = "statuscfg";
      description =
          "Serves /status and /config for sgcia dashboard/edit to poll -- the local extension that replaces the old built-in status API.";
      fields = statuscfg_fields;
    }
    ∷ []
