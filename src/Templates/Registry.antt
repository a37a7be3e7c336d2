-- ===== src/Templates/Registry.antt =====
-- The list of the curated templates, and the lookup by key: crates/collector/src/editor/templates.rs.
use securitygingercia.Prelude.{String, Option, List, [], ◌∷◌, ◌==◌, find as find_by}
use securitygingercia.Templates.Spec.{TemplateCategory, SourceTemplate}
use securitygingercia.Templates.Network.{
  cisco_asa_params, build_cisco_asa, cisco_catalyst_params, build_cisco_catalyst,
  cisco_meraki_params, build_cisco_meraki, ubiquiti_params, build_ubiquiti, haproxy_params,
  build_haproxy, cef_params, build_cef,
}
use securitygingercia.Templates.Generic.{
  generic_syslog_params, build_generic_syslog, file_log_params, build_file_log, json_logs_params,
  build_json_logs, w3c_logs_params, build_w3c_logs, nginx_params, build_nginx,
}
use securitygingercia.Templates.Windows.{
  windows_dhcp_params, build_windows_dhcp, active_directory_params, build_active_directory,
}
use securitygingercia.Templates.Databases.{
  mysql_params, build_mysql, postgresql_params, build_postgresql, sql_server_params,
  build_sql_server,
}
use securitygingercia.Templates.Messaging.{kafka_params, build_kafka, hadoop_params, build_hadoop}

unfoldable pub source_templates : List SourceTemplate
unfolding active_directory_params cef_params cisco_asa_params cisco_catalyst_params
    cisco_meraki_params file_log_params generic_syslog_params hadoop_params haproxy_params
    json_logs_params kafka_params mysql_params nginx_params postgresql_params sql_server_params
    ubiquiti_params w3c_logs_params windows_dhcp_params
source_templates =
    record {
      key = "cisco_asa";
      title = "Cisco ASA (syslog)";
      category = TemplateCategory.network_security;
      description =
          "Cisco ASA firewall, RFC 3164 syslog with the %ASA-severity-msgid: message grammar.";
      receiver_type = "syslog";
      default_id = "syslog/cisco_asa";
      params = cisco_asa_params;
      build = build_cisco_asa;
    }
    ∷ record {
      key = "cisco_catalyst";
      title = "Cisco Catalyst / IOS (syslog)";
      category = TemplateCategory.network_security;
      description =
          "Cisco IOS switches/routers, RFC 3164 syslog with the %FACILITY-severity-MNEMONIC: message grammar.";
      receiver_type = "syslog";
      default_id = "syslog/cisco_catalyst";
      params = cisco_catalyst_params;
      build = build_cisco_catalyst;
    }
    ∷ record {
      key = "cisco_meraki";
      title = "Cisco Meraki (syslog)";
      category = TemplateCategory.network_security;
      description =
          "Meraki dashboard syslog export (flows/events/urls). Best-effort parsing -- Meraki's exact message shape varies by log type.";
      receiver_type = "syslog";
      default_id = "syslog/cisco_meraki";
      params = cisco_meraki_params;
      build = build_cisco_meraki;
    }
    ∷ record {
      key = "ubiquiti";
      title = "Ubiquiti / UniFi (syslog)";
      category = TemplateCategory.network_security;
      description =
          "UniFi APs/switches/gateways, RFC 3164 syslog. No vendor-specific parsing -- message format varies by device type.";
      receiver_type = "syslog";
      default_id = "syslog/ubiquiti";
      params = ubiquiti_params;
      build = build_ubiquiti;
    }
    ∷ record {
      key = "haproxy";
      title = "HAProxy (syslog)";
      category = TemplateCategory.network_security;
      description =
          "HAProxy's default httplog format. HAProxy's log format is configurable, so this covers the common default.";
      receiver_type = "syslog";
      default_id = "syslog/haproxy";
      params = haproxy_params;
      build = build_haproxy;
    }
    ∷ record {
      key = "cef";
      title = "CEF -- Common Event Format (syslog)";
      category = TemplateCategory.network_security;
      description =
          "Any device emitting CEF over syslog (ArcSight-style CEF:0|Vendor|Product|...|Extension).";
      receiver_type = "syslog";
      default_id = "syslog/cef";
      params = cef_params;
      build = build_cef;
    }
    ∷ record {
      key = "generic_syslog";
      title = "Generic syslog (RFC 5424)";
      category = TemplateCategory.generic;
      description =
          "Modern Linux hosts / rsyslog's default remote-forwarding template -- structured envelope, no vendor-specific regex needed.";
      receiver_type = "syslog";
      default_id = "syslog/generic";
      params = generic_syslog_params;
      build = build_generic_syslog;
    }
    ∷ record {
      key = "file_log";
      title = "Generic file tailing";
      category = TemplateCategory.generic;
      description =
          "Tail any log file with no parsing beyond tagging a sourcetype -- a starting point for a format none of the other templates cover.";
      receiver_type = "file_log";
      default_id = "file_log/app";
      params = file_log_params;
      build = build_file_log;
    }
    ∷ record {
      key = "json_logs";
      title = "JSON logs";
      category = TemplateCategory.generic;
      description = "One JSON object per line -- parsed and merged into attributes.";
      receiver_type = "file_log";
      default_id = "file_log/json";
      params = json_logs_params;
      build = build_json_logs;
    }
    ∷ record {
      key = "w3c_logs";
      title = "W3C / IIS extended log";
      category = TemplateCategory.generic;
      description = "IIS's default W3C extended log field selection.";
      receiver_type = "file_log";
      default_id = "file_log/iis";
      params = w3c_logs_params;
      build = build_w3c_logs;
    }
    ∷ record {
      key = "nginx";
      title = "nginx access log";
      category = TemplateCategory.generic;
      description = "nginx's default combined log_format.";
      receiver_type = "file_log";
      default_id = "file_log/nginx";
      params = nginx_params;
      build = build_nginx;
    }
    ∷ record {
      key = "windows_dhcp";
      title = "Windows DHCP server log";
      category = TemplateCategory.windows;
      description =
          "Microsoft DHCP server audit log (flat CSV file, not the Event Log) -- captures the security-relevant lease/host fields.";
      receiver_type = "file_log";
      default_id = "file_log/windows_dhcp";
      params = windows_dhcp_params;
      build = build_windows_dhcp;
    }
    ∷ record {
      key = "active_directory";
      title = "Active Directory (Windows Event Log)";
      category = TemplateCategory.windows;
      description =
          "Domain controller Security channel events (logon/account/AD activity). Windows-only at runtime, like any windows_event_log receiver.";
      receiver_type = "windows_event_log";
      default_id = "windows_event_log/active_directory";
      params = active_directory_params;
      build = build_active_directory;
    }
    ∷ record {
      key = "mysql";
      title = "MySQL error log";
      category = TemplateCategory.database;
      description =
          "MySQL 8+'s default error log format ([level] [error_code] [subsystem] message).";
      receiver_type = "file_log";
      default_id = "file_log/mysql";
      params = mysql_params;
      build = build_mysql;
    }
    ∷ record {
      key = "postgresql";
      title = "PostgreSQL log";
      category = TemplateCategory.database;
      description =
          "Postgres's common log_line_prefix default (%m [%p] ). log_line_prefix is configurable, so this covers the common default.";
      receiver_type = "file_log";
      default_id = "file_log/postgresql";
      params = postgresql_params;
      build = build_postgresql;
    }
    ∷ record {
      key = "sql_server";
      title = "SQL Server error log";
      category = TemplateCategory.database;
      description =
          "SQL Server's error log format (date time.ms spid message) -- works for both Linux/container and Windows installs.";
      receiver_type = "file_log";
      default_id = "file_log/sql_server";
      params = sql_server_params;
      build = build_sql_server;
    }
    ∷ record {
      key = "kafka";
      title = "Kafka broker log";
      category = TemplateCategory.messaging;
      description = "Kafka's default log4j pattern ([timestamp] level message (logger)).";
      receiver_type = "file_log";
      default_id = "file_log/kafka";
      params = kafka_params;
      build = build_kafka;
    }
    ∷ record {
      key = "hadoop";
      title = "Hadoop daemon log";
      category = TemplateCategory.messaging;
      description = "Hadoop's default log4j pattern (timestamp level [thread] logger: message).";
      receiver_type = "file_log";
      default_id = "file_log/hadoop";
      params = hadoop_params;
      build = build_hadoop;
    }
    ∷ []

unfoldable pub find : String → Option SourceTemplate
unfolding source_templates
find key = find_by (λ t. t.key == key) source_templates
