-- ===== src/Templates/Built/Devices.antt =====
-- The receivers built for network devices (crates/collector/src/editor/templates.rs).
use securitygingercia.Prelude.{all, true, ◌≡◌, refl}
use securitygingercia.Json.{Value, get, insert, get_key}
use securitygingercia.Schema.Operators.{operator_types as registered_operators}
use securitygingercia.Schema.Types.{operator_type}
use securitygingercia.Templates.Spec.{add_op, move_op}
use securitygingercia.Templates.Built.{is_known, HasKnownOperators, built}
use securitygingercia.Templates.Network.{
  build_cisco_asa, cisco_asa_operators, build_cisco_catalyst, cisco_catalyst_operators,
  build_cisco_meraki, cisco_meraki_operators, build_ubiquiti, ubiquiti_operators, build_haproxy,
  haproxy_operators, build_cef, cef_operators,
}

cisco_asa_operators_known : all is_known cisco_asa_operators ≡ true
unfolding cisco_asa_operators operator_type registered_operators add_op move_op insert get get_key
cisco_asa_operators_known = refl

pub build_cisco_asa-HasKnownOperators :
    (params : Value) → HasKnownOperators (build_cisco_asa params)
unfolding build_cisco_asa
build_cisco_asa-HasKnownOperators params = built cisco_asa_operators _ cisco_asa_operators_known

cisco_catalyst_operators_known : all is_known cisco_catalyst_operators ≡ true
unfolding cisco_catalyst_operators operator_type registered_operators add_op move_op insert get
    get_key
cisco_catalyst_operators_known = refl

pub build_cisco_catalyst-HasKnownOperators :
    (params : Value) → HasKnownOperators (build_cisco_catalyst params)
unfolding build_cisco_catalyst
build_cisco_catalyst-HasKnownOperators params =
    built cisco_catalyst_operators _ cisco_catalyst_operators_known

cisco_meraki_operators_known : all is_known cisco_meraki_operators ≡ true
unfolding cisco_meraki_operators operator_type registered_operators add_op move_op insert get
    get_key
cisco_meraki_operators_known = refl

pub build_cisco_meraki-HasKnownOperators :
    (params : Value) → HasKnownOperators (build_cisco_meraki params)
unfolding build_cisco_meraki
build_cisco_meraki-HasKnownOperators params =
    built cisco_meraki_operators _ cisco_meraki_operators_known

ubiquiti_operators_known : all is_known ubiquiti_operators ≡ true
unfolding ubiquiti_operators operator_type registered_operators add_op move_op insert get get_key
ubiquiti_operators_known = refl

pub build_ubiquiti-HasKnownOperators : (params : Value) → HasKnownOperators (build_ubiquiti params)
unfolding build_ubiquiti
build_ubiquiti-HasKnownOperators params = built ubiquiti_operators _ ubiquiti_operators_known

haproxy_operators_known : all is_known haproxy_operators ≡ true
unfolding haproxy_operators operator_type registered_operators add_op move_op insert get get_key
haproxy_operators_known = refl

pub build_haproxy-HasKnownOperators : (params : Value) → HasKnownOperators (build_haproxy params)
unfolding build_haproxy
build_haproxy-HasKnownOperators params = built haproxy_operators _ haproxy_operators_known

cef_operators_known : all is_known cef_operators ≡ true
unfolding cef_operators operator_type registered_operators add_op move_op insert get get_key
cef_operators_known = refl

pub build_cef-HasKnownOperators : (params : Value) → HasKnownOperators (build_cef params)
unfolding build_cef
build_cef-HasKnownOperators params = built cef_operators _ cef_operators_known
