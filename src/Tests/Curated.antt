-- ===== src/Tests/Curated.antt =====
-- The theorems on the curated templates, at one of them.
use securitygingercia.Prelude.{refl}
use securitygingercia.Json.{Value}
use securitygingercia.Templates.Spec.{SourceTemplate, TemplateCategory}
use securitygingercia.Templates.Windows.{active_directory_params, build_active_directory}
use securitygingercia.Templates.Registry.{source_templates, find as find_template}
use securitygingercia.Templates.Built.{HasKnownOperators, IsOfType}
use securitygingercia.Templates.Built.Registered.{find-HasKnownOperators}

abbrev active_directory : SourceTemplate
active_directory = record {
  key = "active_directory";
  title = "Active Directory (Windows Event Log)";
  category = TemplateCategory.windows;
  description =
      "Domain controller Security channel events (logon/account/AD activity). Windows-only at runtime, like any windows_event_log receiver.";
  receiver_type = "windows_event_log";
  default_id = "windows_event_log/active_directory";
  params = active_directory_params;
  build = build_active_directory;
}

find-HasKnownOperators_example :
    HasKnownOperators (active_directory.build Value.null) × IsOfType active_directory
unfolding source_templates find_template
find-HasKnownOperators_example =
    find-HasKnownOperators "active_directory" active_directory Value.null refl
