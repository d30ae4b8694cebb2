-- ===== src/Domain/Tests.antt =====
-- A state of two nodes on one address, and the properties at it.
use m_ui.Prelude.{
  ◌≡◌, refl, arith, true, false, ◌⊎◌, Option, none, some, List, [], ◌∷◌, ◌≤◌, ◌<◌, All, Text, codes,
  is_empty, trim_space, split, cut, parse_uint, pos, if◌then◌else◌, length, keep,
}
use m_ui.Domain.Ports.{parse_port_ranges, PortRange, ok}
use m_ui.Domain.Ports.Bounds.{InRange, Separated, parse_port_ranges-Separated}
use m_ui.Domain.Endpoint.{Endpoint, good, parse_endpoint, address}
use m_ui.Domain.Endpoint.Address.{parse_endpoint-address}
use m_ui.Domain.Model.{
  hysteria2, NodeUser, AccessProfile, Node, DesiredState, effective_users, default_access_profile,
}
use m_ui.Domain.Model.Stream.{HysteriaSpec}
use m_ui.Domain.Legacy.{normalize_legacy}
use m_ui.Domain.Legacy.Normal.{normalize_legacy-idempotent}
use m_ui.Domain.Checks.{
  IpAddress, Uuid, Library, among, validate_bind_endpoint, validate_connect_endpoint,
  validate_controller_endpoint_pair,
}
use m_ui.Domain.Checks.Origins.{validate_cors_origins}
use m_ui.Domain.Protocols.{validate_hysteria2}
use m_ui.Domain.Nodes.{validate_node, is_default_of, is_shadowsocks, protocol_spec_count}
use m_ui.Domain.Nodes.Valid.{
  validate_node-default_access_profile, validate_node-effective_users, has_spec,
  validate_node-has_spec,
}
use m_ui.Domain.Nodes.Credentials.{user_id, user_name, credential_id, validate_node-Unlike}
use m_ui.Domain.Distinct.{Pairs, Unlike}
use m_ui.Domain.State.Loops.{Apart, id_of, name_of}
use m_ui.Domain.State.Valid.{validate-Apart, validate-Unlike, validate-Reaches, Reaches}
use m_ui.Domain.State.{validate}

abbrev known_ip : Text → Option IpAddress
known_ip host =
    if among host ("127.0.0.1" ∷ "::1" ∷ [])
    then some (record { is_loopback = true; is_unspecified = false })
    else if among host ("0.0.0.0" ∷ "::" ∷ [])
    then some (record { is_loopback = false; is_unspecified = true })
    else none

abbrev known_uuid : Text → Option Uuid
known_uuid text = if is_empty text then none else some (record { is_rfc4122 = true; version = 4 })

abbrev library : Library
library = record {
  parse_ip = known_ip;
  parse_uuid = known_uuid;
  parse_url = λ s. none;
  raw_url_base64 = λ s. some s;
  std_base64 = λ s. some s;
  lookup_port = parse_uint 65535;
  to_lower = λ s. s;
}

abbrev hysteria : HysteriaSpec
hysteria = record {
  obfs = [];
  obfs_password = [];
  obfs_min_packet_size = pos 0;
  obfs_max_packet_size = pos 0;
  certificate = codes "cert";
  private_key = codes "key";
  client_auth_type = [];
  client_auth_cert = [];
  ech_key = [];
  max_idle_time = pos 0;
  alpn = [];
  up = [];
  down = [];
  ignore_client_bandwidth = false;
  masquerade = [];
  cwnd = pos 0;
  bbr_profile = [];
  udp_mtu = pos 0;
  mux = record { padding = false; brutal = record { enabled = false; up = []; down = [] } };
  realm = none;
  initial_stream_receive_window = 0;
  max_stream_receive_window = 0;
  initial_connection_receive_window = 0;
  max_connection_receive_window = 0;
}

abbrev user_of : Text → Text → Text → NodeUser
user_of node_id id name = record {
  id = id;
  node_id = node_id;
  name = name;
  enabled = true;
  vless_credential = none;
  hysteria2_credential = some (record { password = id });
  vmess_credential = none;
  trojan_credential = none;
  shadowsocks_credential = none;
  expires_at = some 200;
  created_at = 1;
  updated_at = 1;
}

abbrev profile_of : Text → AccessProfile
profile_of node_id = record {
  id = codes "p";
  node_id = node_id;
  name = codes "all";
  is_default = true;
  public_host = [];
  public_port = 443;
  server_name = [];
  fingerprint = [];
  packet_encoding = [];
  allow_insecure = false;
  created_at = 1;
  updated_at = 1;
}

abbrev node_of : Text → Text → Node
node_of id port = record {
  id = id;
  name = id;
  enabled = true;
  listen_address = codes "0.0.0.0";
  port = port;
  protocol = hysteria2;
  schema_version = pos 2;
  vless_spec = none;
  hysteria2_spec = some hysteria;
  vmess_spec = none;
  trojan_spec = none;
  shadowsocks_spec = none;
  users = user_of id (codes "u") (codes "ann") ∷ user_of id (codes "w") (codes "bob") ∷ [];
  access_profiles = profile_of id ∷ [];
  generation = pos 1;
  created_at = 1;
  updated_at = 1;
}

abbrev first_node : Node
first_node = node_of (codes "a") (codes "80-90")

abbrev two_nodes : DesiredState
two_nodes = record {
  as_of = 100;
  panel_title = [];
  ui_language = [];
  cookie_secure = true;
  panel_ui_bind = record { host = []; port = 0 };
  mihomo_external_controller_bind = record { host = codes "0.0.0.0"; port = 9090 };
  mihomo_controller_connect = record { host = []; port = 0 };
  external_controller_cors_origins = [];
  endpoint_generation = pos 0;
  controller_address = [];
  controller_secret = codes "secret";
  public_host = codes "vpn.example.org";
  nodes = first_node ∷ node_of (codes "b") (codes "91,8000-9000") ∷ [];
}

first_node-passes : validate_node library first_node 100 ≡ []
unfolding validate_node parse_port_ranges trim_space split cut parse_uint validate_hysteria2
first_node-passes = refl

two_nodes-passes : validate library two_nodes ≡ []
unfolding validate validate_bind_endpoint validate_connect_endpoint
    validate_controller_endpoint_pair validate_cors_origins parse_port_ranges validate_node
    validate_hysteria2
two_nodes-passes = refl

validate-Apart_example : Pairs Apart two_nodes.nodes
validate-Apart_example = validate-Apart library two_nodes two_nodes-passes

validate-Unlike_example :
    Pairs (Unlike id_of) two_nodes.nodes × Pairs (Unlike name_of) two_nodes.nodes
validate-Unlike_example = validate-Unlike library two_nodes two_nodes-passes

validate-Reaches_example :
    (t : DesiredState) × ((normalize_legacy two_nodes ≡ good t)
      × ((t.mihomo_external_controller_bind.port ≡ t.mihomo_controller_connect.port)
          × Reaches t.mihomo_controller_connect t.mihomo_external_controller_bind))
validate-Reaches_example = validate-Reaches library two_nodes two_nodes-passes

validate_node-Unlike_example :
    Pairs (Unlike user_id) first_node.users
    × (Pairs (Unlike user_name) first_node.users
        × Pairs (Unlike (credential_id library first_node)) first_node.users)
validate_node-Unlike_example = validate_node-Unlike library first_node 100 first_node-passes

validate_node-default_access_profile_example :
    (length (keep is_default_of first_node.access_profiles) ≡ 1)
    × ((profile : AccessProfile) × ((default_access_profile first_node ≡ some profile)
          × (profile.is_default ≡ true)))
validate_node-default_access_profile_example =
    validate_node-default_access_profile library first_node 100 first_node-passes

validate_node-effective_users_example :
    ((first_node.enabled ≡ false) ⊎ (0 < length (effective_users 100 first_node)))
    × ((is_shadowsocks first_node.protocol ≡ false) ⊎ (length (effective_users 100 first_node) ≤ 1))
validate_node-effective_users_example =
    validate_node-effective_users library first_node 100 first_node-passes

validate_node-has_spec_example :
    (has_spec first_node.protocol first_node ≡ true) × (protocol_spec_count first_node ≡ 1)
validate_node-has_spec_example = validate_node-has_spec library first_node 100 first_node-passes

abbrev normal_form : DesiredState
normal_form = record two_nodes {
  panel_ui_bind = record { host = codes "0.0.0.0"; port = 2095 };
  mihomo_controller_connect = record { host = codes "127.0.0.1"; port = 9090 };
  endpoint_generation = pos 1;
}

two_nodes-normal_form : normalize_legacy two_nodes ≡ good normal_form
unfolding normalize_legacy
two_nodes-normal_form = refl

normalize_legacy-idempotent_example : normalize_legacy normal_form ≡ good normal_form
normalize_legacy-idempotent_example =
    normalize_legacy-idempotent two_nodes normal_form two_nodes-normal_form

abbrev ipv6_endpoint : Endpoint
ipv6_endpoint = record { host = codes "::1"; port = 9090 }

parse_endpoint-address_example : parse_endpoint (address ipv6_endpoint) ≡ some ipv6_endpoint
parse_endpoint-address_example =
    parse_endpoint-address ipv6_endpoint refl refl (omega arith) (omega arith)

abbrev listed : List PortRange
listed = record { start = 80; end = 90 } ∷ record { start = 2000; end = 2000 } ∷ []

listed-parsed : parse_port_ranges (codes "2000, 80-90") ≡ ok listed
unfolding parse_port_ranges trim_space split cut parse_uint
listed-parsed = refl

parse_port_ranges-Separated_example : All InRange listed × Separated listed
parse_port_ranges-Separated_example =
    parse_port_ranges-Separated (codes "2000, 80-90") listed listed-parsed
