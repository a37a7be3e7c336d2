-- ===== src/Templates/Built/Formats.antt =====
-- The receivers built for general log formats (crates/collector/src/editor/templates.rs).
use securitygingercia.Prelude.{all, String, true, ◌≡◌, refl}
use securitygingercia.Json.{Value, get, insert, get_key}
use securitygingercia.Schema.Operators.{operator_types as registered_operators}
use securitygingercia.Schema.Types.{operator_type}
use securitygingercia.Templates.Spec.{add_op, move_op}
use securitygingercia.Templates.Built.{is_known, HasKnownOperators, built}
use securitygingercia.Templates.Generic.{
  build_generic_syslog, generic_syslog_operators, build_file_log, file_log_operators,
  build_json_logs, json_logs_operators, build_w3c_logs, w3c_logs_operators, build_nginx,
  nginx_operators,
}

generic_syslog_operators_known : all is_known generic_syslog_operators ≡ true
unfolding generic_syslog_operators operator_type registered_operators add_op move_op insert get
    get_key
generic_syslog_operators_known = refl

pub build_generic_syslog-HasKnownOperators :
    (params : Value) → HasKnownOperators (build_generic_syslog params)
unfolding build_generic_syslog
build_generic_syslog-HasKnownOperators params =
    built generic_syslog_operators _ generic_syslog_operators_known

file_log_operators_known :
    (sourcetype : String) → all is_known (file_log_operators sourcetype) ≡ true
unfolding file_log_operators operator_type registered_operators add_op move_op insert get get_key
file_log_operators_known sourcetype = refl

pub build_file_log-HasKnownOperators : (params : Value) → HasKnownOperators (build_file_log params)
unfolding build_file_log
build_file_log-HasKnownOperators params =
    built (file_log_operators _) _ (file_log_operators_known _)

json_logs_operators_known :
    (sourcetype : String) → all is_known (json_logs_operators sourcetype) ≡ true
unfolding json_logs_operators operator_type registered_operators add_op move_op insert get get_key
json_logs_operators_known sourcetype = refl

pub build_json_logs-HasKnownOperators :
    (params : Value) → HasKnownOperators (build_json_logs params)
unfolding build_json_logs
build_json_logs-HasKnownOperators params =
    built (json_logs_operators _) _ (json_logs_operators_known _)

w3c_logs_operators_known : all is_known w3c_logs_operators ≡ true
unfolding w3c_logs_operators operator_type registered_operators add_op move_op insert get get_key
w3c_logs_operators_known = refl

pub build_w3c_logs-HasKnownOperators : (params : Value) → HasKnownOperators (build_w3c_logs params)
unfolding build_w3c_logs
build_w3c_logs-HasKnownOperators params = built w3c_logs_operators _ w3c_logs_operators_known

nginx_operators_known : all is_known nginx_operators ≡ true
unfolding nginx_operators operator_type registered_operators add_op move_op insert get get_key
nginx_operators_known = refl

pub build_nginx-HasKnownOperators : (params : Value) → HasKnownOperators (build_nginx params)
unfolding build_nginx
build_nginx-HasKnownOperators params = built nginx_operators _ nginx_operators_known
