-- ===== src/Domain/Model/Stream.antt =====
-- The protocol specifications of a node: handlers, securities, multiplexing (internal/domain/model.go).
-- A Go map is a list of its entries.
use m_ui.Prelude.{ℕ, Bool, Option, List, Text, ℤ}

pub data HandlerKind : Type 0 where
  raw websocket grpc xhttp mkcp : HandlerKind
  other_handler : Text → HandlerKind

pub record MkcpConfig : Type 0 where
  pub mtu : ℕ  -- uint32
  pub tti : ℕ  -- uint32
  pub uplink_capacity : ℕ  -- uint32
  pub downlink_capacity : ℕ  -- uint32
  pub congestion : Bool
  pub write_buffer : ℕ  -- uint32
  pub read_buffer : ℕ  -- uint32
  pub seed : Text
  pub header : Text

pub record WebSocketSpec : Type 0 where
  pub path : Text

pub record GrpcSpec : Type 0 where
  pub service_name : Text

pub record XhttpConfig : Type 0 where
  pub path : Text
  pub host : Text
  pub mode : Text
  pub x_padding_bytes : Text
  pub x_padding_obfs_mode : Bool
  pub x_padding_key : Text
  pub x_padding_header : Text
  pub x_padding_placement : Text
  pub x_padding_method : Text
  pub uplink_http_method : Text
  pub session_placement : Text
  pub session_key : Text
  pub seq_placement : Text
  pub seq_key : Text
  pub uplink_data_placement : Text
  pub uplink_data_key : Text
  pub uplink_chunk_size : Text
  pub no_sse_header : Bool
  pub sc_stream_up_server_secs : Text
  pub sc_max_buffered_posts : Text
  pub sc_max_each_post_bytes : Text

pub record HandlerSpec : Type 0 where
  pub kind : HandlerKind
  pub websocket_spec : Option WebSocketSpec
  pub grpc_spec : Option GrpcSpec
  pub xhttp_config : Option XhttpConfig
  pub mkcp_config : Option MkcpConfig

pub data SecurityKind : Type 0 where
  no_security tls reality shadow_tls res_tls jls : SecurityKind
  other_security : Text → SecurityKind

pub record TlsConfig : Type 0 where
  pub certificate : Text
  pub private_key : Text
  pub client_auth_type : Text
  pub client_auth_cert : Text
  pub ech_key : Text
  pub allow_insecure : Bool

pub record RealityFallbackLimit : Type 0 where
  pub after_bytes : ℕ  -- uint64
  pub bytes_per_sec : ℕ  -- uint64
  pub burst_bytes_per_sec : ℕ  -- uint64

pub record RealityConfig : Type 0 where
  pub destination : Text
  pub private_key : Text
  pub public_key : Text
  pub short_ids : List Text
  pub server_names : List Text
  pub max_time_difference : ℤ
  pub proxy : Text
  pub limit_fallback_upload : RealityFallbackLimit
  pub limit_fallback_download : RealityFallbackLimit

pub record ShadowTlsUser : Type 0 where
  pub name : Text
  pub password : Text

pub record ShadowTlsHandshake : Type 0 where
  pub destination : Text
  pub proxy : Text

pub record ShadowTlsConfig : Type 0 where
  pub version : ℤ
  pub password : Text
  pub users : List ShadowTlsUser
  pub handshake : ShadowTlsHandshake
  pub handshake_for_server_name : List (Text × ShadowTlsHandshake)
  pub strict_mode : Bool
  pub wildcard_sni : Text

pub record ResTlsConfig : Type 0 where
  pub destination : Text
  pub password : Text
  pub version_hint : Text
  pub script : Text
  pub min_record_length : ℤ
  pub proxy : Text

pub record JlsUser : Type 0 where
  pub username : Text
  pub password : Text

pub record JlsConfig : Type 0 where
  pub users : List JlsUser
  pub server_name : Text
  pub destination : Text
  pub alpn : List Text
  pub proxy : Text
  pub rate_limit : ℕ  -- uint64

pub record SecuritySpec : Type 0 where
  pub kind : SecurityKind
  pub tls_config : Option TlsConfig
  pub reality_config : Option RealityConfig
  pub shadow_tls_config : Option ShadowTlsConfig
  pub res_tls_config : Option ResTlsConfig
  pub jls_config : Option JlsConfig

pub record BrutalSpec : Type 0 where
  pub enabled : Bool
  pub up : Text
  pub down : Text

pub record MuxSpec : Type 0 where
  pub padding : Bool
  pub brutal : BrutalSpec

pub record VlessSpec : Type 0 where
  pub decryption : Text
  pub handler : HandlerSpec
  pub security : SecuritySpec
  pub mux : MuxSpec

pub record VmessSpec : Type 0 where
  pub handler : HandlerSpec
  pub security : SecuritySpec
  pub mux : MuxSpec

pub record TrojanShadowsocksSpec : Type 0 where
  pub enabled : Bool
  pub method : Text
  pub password : Text

pub record TrojanSpec : Type 0 where
  pub handler : HandlerSpec
  pub security : SecuritySpec
  pub mux : MuxSpec
  pub shadowsocks : TrojanShadowsocksSpec

pub record SimpleObfsSpec : Type 0 where
  pub enabled : Bool
  pub mode : Text

pub record ShadowsocksSpec : Type 0 where
  pub cipher : Text
  pub udp : Bool
  pub security : SecuritySpec
  pub mux : MuxSpec
  pub simple_obfs : SimpleObfsSpec

pub record RealmConfig : Type 0 where
  pub enabled : Bool
  pub server_url : Text
  pub token : Text
  pub realm_id : Text
  pub stun_servers : List Text
  pub server_name : Text
  pub skip_cert_verify : Bool
  pub name_cert_verify : Text
  pub fingerprint : Text
  pub certificate : Text
  pub private_key : Text
  pub alpn : List Text
  pub proxy : Text

pub record HysteriaSpec : Type 0 where
  pub obfs : Text
  pub obfs_password : Text
  pub obfs_min_packet_size : ℤ
  pub obfs_max_packet_size : ℤ
  pub certificate : Text
  pub private_key : Text
  pub client_auth_type : Text
  pub client_auth_cert : Text
  pub ech_key : Text
  pub max_idle_time : ℤ
  pub alpn : List Text
  pub up : Text
  pub down : Text
  pub ignore_client_bandwidth : Bool
  pub masquerade : Text
  pub cwnd : ℤ
  pub bbr_profile : Text
  pub udp_mtu : ℤ
  pub mux : MuxSpec
  pub realm : Option RealmConfig
  pub initial_stream_receive_window : ℕ  -- uint64
  pub max_stream_receive_window : ℕ  -- uint64
  pub initial_connection_receive_window : ℕ  -- uint64
  pub max_connection_receive_window : ℕ  -- uint64
