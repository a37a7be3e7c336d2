-- ===== src/Templates/Built/Servers.antt =====
-- The receivers built for Windows, databases and message brokers
-- (crates/collector/src/editor/templates.rs).
use securitygingercia.Prelude.{all, true, ◌≡◌, refl}
use securitygingercia.Json.{Value, get, insert, get_key}
use securitygingercia.Schema.Operators.{operator_types as registered_operators}
use securitygingercia.Schema.Types.{operator_type}
use securitygingercia.Templates.Spec.{add_op, move_op}
use securitygingercia.Templates.Built.{is_known, HasKnownOperators, built}
use securitygingercia.Templates.Windows.{
  build_windows_dhcp, windows_dhcp_operators, build_active_directory, active_directory_operators,
}
use securitygingercia.Templates.Databases.{
  build_mysql, mysql_operators, build_postgresql, postgresql_operators, build_sql_server,
  sql_server_operators,
}
use securitygingercia.Templates.Messaging.{
  build_kafka, kafka_operators, build_hadoop, hadoop_operators,
}

windows_dhcp_operators_known : all is_known windows_dhcp_operators ≡ true
unfolding windows_dhcp_operators operator_type registered_operators add_op move_op insert get
    get_key
windows_dhcp_operators_known = refl

pub build_windows_dhcp-HasKnownOperators :
    (params : Value) → HasKnownOperators (build_windows_dhcp params)
unfolding build_windows_dhcp
build_windows_dhcp-HasKnownOperators params =
    built windows_dhcp_operators _ windows_dhcp_operators_known

active_directory_operators_known : all is_known active_directory_operators ≡ true
unfolding active_directory_operators operator_type registered_operators add_op move_op insert get
    get_key
active_directory_operators_known = refl

pub build_active_directory-HasKnownOperators :
    (params : Value) → HasKnownOperators (build_active_directory params)
unfolding build_active_directory
build_active_directory-HasKnownOperators params =
    built active_directory_operators _ active_directory_operators_known

mysql_operators_known : all is_known mysql_operators ≡ true
unfolding mysql_operators operator_type registered_operators add_op move_op insert get get_key
mysql_operators_known = refl

pub build_mysql-HasKnownOperators : (params : Value) → HasKnownOperators (build_mysql params)
unfolding build_mysql
build_mysql-HasKnownOperators params = built mysql_operators _ mysql_operators_known

postgresql_operators_known : all is_known postgresql_operators ≡ true
unfolding postgresql_operators operator_type registered_operators add_op move_op insert get get_key
postgresql_operators_known = refl

pub build_postgresql-HasKnownOperators :
    (params : Value) → HasKnownOperators (build_postgresql params)
unfolding build_postgresql
build_postgresql-HasKnownOperators params = built postgresql_operators _ postgresql_operators_known

sql_server_operators_known : all is_known sql_server_operators ≡ true
unfolding sql_server_operators operator_type registered_operators add_op move_op insert get get_key
sql_server_operators_known = refl

pub build_sql_server-HasKnownOperators :
    (params : Value) → HasKnownOperators (build_sql_server params)
unfolding build_sql_server
build_sql_server-HasKnownOperators params = built sql_server_operators _ sql_server_operators_known

kafka_operators_known : all is_known kafka_operators ≡ true
unfolding kafka_operators operator_type registered_operators add_op move_op insert get get_key
kafka_operators_known = refl

pub build_kafka-HasKnownOperators : (params : Value) → HasKnownOperators (build_kafka params)
unfolding build_kafka
build_kafka-HasKnownOperators params = built kafka_operators _ kafka_operators_known

hadoop_operators_known : all is_known hadoop_operators ≡ true
unfolding hadoop_operators operator_type registered_operators add_op move_op insert get get_key
hadoop_operators_known = refl

pub build_hadoop-HasKnownOperators : (params : Value) → HasKnownOperators (build_hadoop params)
unfolding build_hadoop
build_hadoop-HasKnownOperators params = built hadoop_operators _ hadoop_operators_known
