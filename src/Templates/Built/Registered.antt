-- ===== src/Templates/Built/Registered.antt =====
-- The registry of the curated templates and what they build
-- (crates/collector/src/editor/templates.rs).
use securitygingercia.Schema.Receivers.{receiver_types}
use securitygingercia.Templates.Registry.{source_templates, find as find_template}
use securitygingercia.Prelude.{◌==◌, All-find, split, All, String, some, ◌≡◌, refl}
use securitygingercia.Json.{Value}
use securitygingercia.Schema.Types.{types_for, component_type}
use securitygingercia.Templates.Spec.{SourceTemplate}
use securitygingercia.Templates.Built.{HasKnownOperators, IsOfType}
use securitygingercia.Templates.Built.Devices.{
  build_cisco_asa-HasKnownOperators, build_cisco_catalyst-HasKnownOperators,
  build_cisco_meraki-HasKnownOperators, build_ubiquiti-HasKnownOperators,
  build_haproxy-HasKnownOperators, build_cef-HasKnownOperators,
}
use securitygingercia.Templates.Built.Formats.{
  build_generic_syslog-HasKnownOperators, build_file_log-HasKnownOperators,
  build_json_logs-HasKnownOperators, build_w3c_logs-HasKnownOperators,
  build_nginx-HasKnownOperators,
}
use securitygingercia.Templates.Built.Servers.{
  build_windows_dhcp-HasKnownOperators, build_active_directory-HasKnownOperators,
  build_mysql-HasKnownOperators, build_postgresql-HasKnownOperators,
  build_sql_server-HasKnownOperators, build_kafka-HasKnownOperators, build_hadoop-HasKnownOperators,
}

types_check : All IsOfType source_templates
unfolding source_templates types_for receiver_types component_type split
types_check = (
  ((_, refl), refl),
  (
    ((_, refl), refl),
    (
      ((_, refl), refl),
      (
        ((_, refl), refl),
        (
          ((_, refl), refl),
          (
            ((_, refl), refl),
            (
              ((_, refl), refl),
              (
                ((_, refl), refl),
                (
                  ((_, refl), refl),
                  (
                    ((_, refl), refl),
                    (
                      ((_, refl), refl),
                      (
                        ((_, refl), refl),
                        (
                          ((_, refl), refl),
                          (
                            ((_, refl), refl),
                            (
                              ((_, refl), refl),
                              (((_, refl), refl), (((_, refl), refl), (((_, refl), refl), tt))),
                            ),
                          ),
                        ),
                      ),
                    ),
                  ),
                ),
              ),
            ),
          ),
        ),
      ),
    ),
  ),
)

operators_check :
    All
      (λ (t : SourceTemplate). (params : Value) → HasKnownOperators (t.build params))
      source_templates
unfolding source_templates
operators_check = (
  build_cisco_asa-HasKnownOperators,
  (
    build_cisco_catalyst-HasKnownOperators,
    (
      build_cisco_meraki-HasKnownOperators,
      (
        build_ubiquiti-HasKnownOperators,
        (
          build_haproxy-HasKnownOperators,
          (
            build_cef-HasKnownOperators,
            (
              build_generic_syslog-HasKnownOperators,
              (
                build_file_log-HasKnownOperators,
                (
                  build_json_logs-HasKnownOperators,
                  (
                    build_w3c_logs-HasKnownOperators,
                    (
                      build_nginx-HasKnownOperators,
                      (
                        build_windows_dhcp-HasKnownOperators,
                        (
                          build_active_directory-HasKnownOperators,
                          (
                            build_mysql-HasKnownOperators,
                            (
                              build_postgresql-HasKnownOperators,
                              (
                                build_sql_server-HasKnownOperators,
                                (
                                  build_kafka-HasKnownOperators,
                                  (build_hadoop-HasKnownOperators, tt),
                                ),
                              ),
                            ),
                          ),
                        ),
                      ),
                    ),
                  ),
                ),
              ),
            ),
          ),
        ),
      ),
    ),
  ),
)

-- For any parameters, the receiver that a template of the registry builds has a list of operators
-- whose types are all registered; the template's receiver type is registered too, and its
-- suggested id is of that type.
pub find-HasKnownOperators :
    (key : String) (t : SourceTemplate) (params : Value)
    → find_template key ≡ some t
    → HasKnownOperators (t.build params) × IsOfType t
unfolding find_template
find-HasKnownOperators key t params e = (
  All-find (λ (t : SourceTemplate). (params : Value) → HasKnownOperators (t.build params))
      (λ t. t.key == key) source_templates t operators_check e params,
  All-find IsOfType (λ t. t.key == key) source_templates t types_check e,
)
