-- ===== src/Schema/Exporters.antt =====
-- The registered exporters: the tables of crates/collector/src/editor/schema_registry.rs.
use securitygingercia.Prelude.{true, false, none, some, List, [], ◌∷◌}
use securitygingercia.Schema.Spec.{FieldKind, FieldSpec, ComponentTypeSpec, f}

unfoldable pub splunk_hec_fields : List FieldSpec
splunk_hec_fields =
    f "endpoint" FieldKind.str true (some "https://example.invalid:8088/services/collector/event")
      "The full HEC ingest URL -- e.g. https://ingest.na1.sentinelone.net/services/collector for SentinelOne DataPipeline."
    ∷ f "token" FieldKind.str true none
        "The HEC auth token for that endpoint. Use ${SOME_VAR} to read it from an environment variable instead of writing the real secret here."
    ∷ f "source" FieldKind.str false none
        "Optional Splunk \"source\" value. Leave blank unless otel_attrs_to_hec_metadata.source below is also blank -- see its help text."
    ∷ f "sourcetype" FieldKind.str false none
        "Optional Splunk \"sourcetype\" value. Leave blank unless otel_attrs_to_hec_metadata.sourcetype below is also blank -- see its help text."
    ∷ f "index" FieldKind.str false none
        "Optional: which Splunk/DataPipeline index to send events into."
    ∷ f "otel_attrs_to_hec_metadata.source" FieldKind.str false (some "")
        "Leave blank (the default here) to keep 'source' out of the top-level HEC envelope -- any attribute named 'source' set by this receiver's operators then falls into the event's nested fields{} object instead, which is what SentinelOne DataPipeline expects."
    ∷ f "otel_attrs_to_hec_metadata.sourcetype" FieldKind.str false (some "")
        "Leave blank (the default here) for the same reason as otel_attrs_to_hec_metadata.source -- keeps 'sourcetype' in fields{} rather than the top-level envelope."
    ∷ f "otel_attrs_to_hec_metadata.index" FieldKind.str false (some "")
        "Leave blank (the default here) for the same reason as otel_attrs_to_hec_metadata.source -- keeps 'index' in fields{} rather than the top-level envelope."
    ∷ f "sending_queue.enabled" FieldKind.bool false (some "true")
        "Buffer events in memory and retry sends in the background rather than blocking the pipeline on every request."
    ∷ f "retry_on_failure.enabled" FieldKind.bool false (some "true")
        "Retry with backoff when a send fails, rather than dropping the batch immediately."
    ∷ []

unfoldable pub debug_fields : List FieldSpec
debug_fields =
    f "verbosity" (FieldKind.enum ("basic" ∷ "normal" ∷ "detailed" ∷ [])) false (some "normal")
      "How much detail to print per event to the terminal -- detailed dumps every field, useful for testing a pipeline before wiring up a real destination."
    ∷ []

unfoldable pub dataset_fields : List FieldSpec
dataset_fields =
    f "dataset_url" FieldKind.str true (some "https://app.scalyr.com")
      "The SentinelOne Singularity Data Lake (formerly Scalyr/DataSet) ingest URL -- https://app.scalyr.com, or https://app.eu.scalyr.com for the EU instance."
    ∷ f "api_key" FieldKind.str true none
        "The DataSet/SDL write log token. Use ${SOME_VAR} to read it from an environment variable instead of writing the real secret here."
    ∷ f "server_host.use_hostname" FieldKind.bool false (some "true")
        "Fall back to this collector's own OS hostname for the event's serverHost if nothing more specific is set. Ignored if an event or its resource already carries a serverHost/host.name attribute -- see server_host.server_host below for the full lookup order."
    ∷ f "server_host.server_host" FieldKind.str false none
        "Fixed fallback serverHost value, used only if use_hostname is false and no event/resource attribute supplies one (required in that case -- the exporter fails to start otherwise). To set serverHost per-event instead, add a plain `serverHost` attribute via this receiver's own `add` operator -- it takes priority over everything here."
    ∷ []

unfoldable pub logbuffer_fields : List FieldSpec
logbuffer_fields =
    f "endpoint" FieldKind.str false (some "http://127.0.0.1:7801")
      "Loopback address of this collector's own statuscfg extension -- must match statuscfg's endpoint field. Feeds the web UI's log viewer; not a real destination, safe to add to every logs pipeline."
    ∷ []

unfoldable pub exporter_types : List ComponentTypeSpec
unfolding splunk_hec_fields debug_fields dataset_fields logbuffer_fields
exporter_types =
    record {
      type_name = "splunk_hec";
      description =
          "Sends collected logs to a Splunk-compatible HEC endpoint (including SentinelOne DataPipeline).";
      fields = splunk_hec_fields;
    }
    ∷ record {
      type_name = "debug";
      description =
          "Prints every event to the terminal instead of sending it anywhere -- useful for testing a pipeline before wiring up a real destination.";
      fields = debug_fields;
    }
    ∷ record {
      type_name = "dataset";
      description =
          "Sends collected logs to SentinelOne Singularity Data Lake (formerly Scalyr/DataSet). Alpha stability upstream.";
      fields = dataset_fields;
    }
    ∷ record {
      type_name = "logbuffer";
      description =
          "Feeds this collector's own web UI log viewer over loopback -- not a real destination, local visibility only.";
      fields = logbuffer_fields;
    }
    ∷ []
