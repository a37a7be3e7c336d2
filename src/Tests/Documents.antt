-- ===== src/Tests/Documents.antt =====
-- The theorems on the document, at a document of one pipeline.
use securitygingercia.Doc.Placeholder.{placeholder_for_validation-HasNoVar, HasNoVar}
use securitygingercia.Doc.Saving.{
  load-save_with_binary, save_with_binary-outcome, SaveOutcome, IsWritable,
}
use securitygingercia.Doc.Validation.{validate_with_binary_iff, IsAccepted}
use securitygingercia.Doc.RoundTrip.{
  to_value-activates, active_extensions, of_value-to_value, to_value_sections,
}
use securitygingercia.Json.Maps.{get-remove}
use securitygingercia.Doc.Save.{load, save_with_binary, validate_with_binary}
use securitygingercia.Prelude.{
  true, arith, String, none, [], ◌≡◌, ◌≢◌, refl, ok, any, ◌↔◌, eq_iff, if◌then◌else◌, ◌==◌,
}
use securitygingercia.Json.{Value, end, entry, get, get_key, contains_key, is_text, remove}
use securitygingercia.Schema.Spec.{receiver, exporter}
use securitygingercia.Doc.References.{
  pipelines_referencing-strip_self, pipelines_referencing-strip_other,
}
use securitygingercia.Doc.{
  pipelines_referencing, strip_from_pipelines, of_value, to_value, placeholder_for_validation,
}
use securitygingercia.Tests.Data.{not_temporary, platform, doc, path, disk}

unchanged : ◌≢◌ {A = String} "syslog/udp" "file_log/app"
unchanged = ground (arith, eq_iff "syslog/udp" "file_log/app")

accepted : IsAccepted platform doc "sgcia-otelcol"
accepted = record {
  text = "receivers: ...";
  tmp = "/tmp/config.yaml";
  output = record { success = true; stderr = ""; status = "0" };
  shown = refl;
  stored = refl;
  filled = (refl, refl);
  answered = refl;
  success = refl;
}

writable : IsWritable platform path
writable = record { dir = refl; create = refl; write = refl; sync = refl; rename = refl }

save_with_binary-outcome_example :
    SaveOutcome platform path "sgcia-otelcol" doc disk
      (save_with_binary platform doc path "sgcia-otelcol" disk)
save_with_binary-outcome_example =
    save_with_binary-outcome platform path "sgcia-otelcol" doc disk not_temporary

load-save_with_binary_example :
    ((save_with_binary platform doc path "sgcia-otelcol" disk).0 ≡ ok tt)
    × (load platform path (save_with_binary platform doc path "sgcia-otelcol" disk).1 ≡ ok doc)
load-save_with_binary_example =
    load-save_with_binary platform path "sgcia-otelcol" doc disk "receivers: ..." not_temporary
      accepted writable refl refl refl

validate_with_binary_iff_example :
    (validate_with_binary platform doc "sgcia-otelcol" ≡ ok tt)
    ↔ IsAccepted platform doc "sgcia-otelcol"
validate_with_binary_iff_example = validate_with_binary_iff platform doc "sgcia-otelcol"

pipelines_referencing-strip_self_example :
    pipelines_referencing receiver "syslog/udp" (strip_from_pipelines receiver "syslog/udp" doc)
    ≡ []
pipelines_referencing-strip_self_example =
    pipelines_referencing-strip_self receiver "syslog/udp" doc

pipelines_referencing-strip_other_example :
    pipelines_referencing exporter "splunk_hec/soc" (strip_from_pipelines exporter "syslog/udp" doc)
    ≡ pipelines_referencing exporter "splunk_hec/soc" doc
pipelines_referencing-strip_other_example =
    pipelines_referencing-strip_other exporter exporter "syslog/udp" "splunk_hec/soc" doc
      (λ _. ground (arith, eq_iff "syslog/udp" "splunk_hec/soc"))

of_value-to_value_example : of_value (to_value doc) ≡ doc
of_value-to_value_example = of_value-to_value doc

to_value-activates_example :
    any (is_text "health_check") (active_extensions (to_value doc))
    ≡ contains_key "health_check" doc.extensions
to_value-activates_example = to_value-activates doc "health_check"

to_value_sections_example : get_key "processors" (to_value doc) ≡ none
to_value_sections_example =
    to_value_sections doc "processors" (ground (arith, eq_iff "processors" "receivers"))
      (ground (arith, eq_iff "processors" "exporters"))
      (ground (arith, eq_iff "processors" "extensions"))
      (ground (arith, eq_iff "processors" "service"))

placeholder_for_validation-HasNoVar_example :
    HasNoVar (placeholder_for_validation (Value.object doc.exporters))
placeholder_for_validation-HasNoVar_example =
    placeholder_for_validation-HasNoVar (Value.object doc.exporters)

get-remove_example :
    get "a" (remove "b" (entry "a" Value.null (entry "b" Value.null end)))
    ≡ (if "b" == "a" then none else get "a" (entry "a" Value.null (entry "b" Value.null end)))
unfolding get
get-remove_example =
    get-remove "b" "a" (entry "a" Value.null (entry "b" Value.null end)) (refl, (refl, tt))
