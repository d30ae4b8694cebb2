-- ===== src/Domain/Protocols.antt =====
-- The checks of the protocol specifications (internal/domain/validate.go).
use m_ui.Prelude.{
  Bool, true, false, not, ◌&&◌, ◌||◌, Option, none, some, [], ◌∷◌, ◌++◌, ◌==◌, if◌then◌else◌,
  length, Text, is_empty, is_blank, trim_space, has_prefix, pos, ltℤ, is_negative,
}
use m_ui.Domain.Model.Stream.{
  HandlerKind, raw, websocket, grpc, xhttp, mkcp, MkcpConfig, WebSocketSpec, GrpcSpec, XhttpConfig,
  HandlerSpec, SecurityKind, no_security, reality, shadow_tls, res_tls, jls, SecuritySpec, MuxSpec,
  VlessSpec, VmessSpec, TrojanSpec, TrojanShadowsocksSpec, ShadowsocksSpec, RealmConfig,
  HysteriaSpec,
}
use m_ui.Domain.Checks.{
  Problems, refuse, among, Url, Library, is_nil, is_set, validate_string_list, validate_stun_server,
}
use m_ui.Domain.Security.{concat_map, validate_security}

abbrev pub slash : Text
slash = b'/' ∷ []

-- The handlers that are configured besides the one of the kind.
abbrev pub besides_websocket : HandlerSpec → Bool
besides_websocket h = is_set h.grpc_spec || is_set h.xhttp_config || is_set h.mkcp_config

abbrev pub besides_grpc : HandlerSpec → Bool
besides_grpc h = is_set h.websocket_spec || is_set h.xhttp_config || is_set h.mkcp_config

abbrev pub besides_xhttp : HandlerSpec → Bool
besides_xhttp h = is_set h.websocket_spec || is_set h.grpc_spec || is_set h.mkcp_config

abbrev pub besides_mkcp : HandlerSpec → Bool
besides_mkcp h = is_set h.websocket_spec || is_set h.grpc_spec || is_set h.xhttp_config

abbrev pub path_of : Option WebSocketSpec → Text
path_of none = []
path_of (some spec) = spec.path

abbrev pub service_name_of : Option GrpcSpec → Text
service_name_of none = []
service_name_of (some spec) = spec.service_name

abbrev pub xhttp_path_of : Option XhttpConfig → Text
xhttp_path_of none = []
xhttp_path_of (some config) = config.path

abbrev pub header_of : Option MkcpConfig → Text
header_of none = []
header_of (some config) = config.header

abbrev pub vless_handler_of_kind : HandlerKind → HandlerSpec → Problems
vless_handler_of_kind raw h =
    refuse (is_set h.websocket_spec || besides_websocket h)
      "raw VLESS handler must not include another handler configuration"
vless_handler_of_kind websocket h =
    if is_nil h.websocket_spec || besides_websocket h
    then "webSocket handler configuration is invalid" ∷ []
    else refuse (not (has_prefix (path_of h.websocket_spec) slash))
        "webSocket path must start with /"
vless_handler_of_kind grpc h =
    refuse (is_nil h.grpc_spec || besides_grpc h || is_blank (service_name_of h.grpc_spec))
      "gRPC service name is required and no other handler may be configured"
vless_handler_of_kind xhttp h =
    let path = xhttp_path_of h.xhttp_config in
    if is_nil h.xhttp_config || besides_xhttp h
    then "XHTTP handler configuration is invalid" ∷ []
    else refuse (not (is_empty path) && not (has_prefix path slash)) "XHTTP path must start with /"
vless_handler_of_kind _ h = "unsupported VLESS handler %q" ∷ []

-- The first `switch` of `validateVLESS`.
unfoldable pub validate_vless_handler : HandlerSpec → Problems
unfolding trim_space
validate_vless_handler h = vless_handler_of_kind h.kind h

-- The two protocols that call `validateClassicStreamHandler`, by its first argument.
pub data ClassicProtocol : Type 0 where
  vmess_stream trojan_stream : ClassicProtocol

abbrev pub is_vmess : ClassicProtocol → Bool
is_vmess vmess_stream = true
is_vmess trojan_stream = false

abbrev pub classic_handler_of_kind : ClassicProtocol → HandlerKind → HandlerSpec → Problems
classic_handler_of_kind protocol raw h =
    refuse (is_set h.websocket_spec || besides_websocket h)
      "raw %s handler must not include another handler configuration"
classic_handler_of_kind protocol websocket h =
    refuse
      (is_nil h.websocket_spec
        || besides_websocket h
        || not (has_prefix (path_of h.websocket_spec) slash))
      "%s WebSocket handler requires a path starting with / and no other handler configuration"
classic_handler_of_kind protocol grpc h =
    refuse (is_nil h.grpc_spec || besides_grpc h || is_blank (service_name_of h.grpc_spec))
      "%s gRPC handler requires a service name and no other handler configuration"
classic_handler_of_kind protocol mkcp h =
    if not (is_vmess protocol) || is_nil h.mkcp_config || besides_mkcp h
    then "%s mKCP handler configuration is invalid" ∷ []
    else refuse
        (not (
          among (header_of h.mkcp_config)
            ("" ∷ "none" ∷ "srtp" ∷ "utp" ∷ "wechat-video" ∷ "dtls" ∷ "wireguard" ∷ [])))
        "vmess mKCP header is unsupported"
classic_handler_of_kind protocol _ h = "unsupported %s handler %q" ∷ []

unfoldable pub validate_classic_stream_handler : ClassicProtocol → HandlerSpec → Problems
unfolding trim_space
validate_classic_stream_handler protocol h = classic_handler_of_kind protocol h.kind h

abbrev pub is_brutal_incomplete : MuxSpec → Bool
is_brutal_incomplete mux =
    mux.brutal.enabled && (is_blank mux.brutal.up || is_blank mux.brutal.down)

abbrev pub is_outer_security : SecurityKind → Bool
is_outer_security shadow_tls = true
is_outer_security res_tls = true
is_outer_security jls = true
is_outer_security _ = false

abbrev pub is_reality : SecurityKind → Bool
is_reality reality = true
is_reality _ = false

abbrev pub is_no_security : SecurityKind → Bool
is_no_security no_security = true
is_no_security _ = false

abbrev pub is_mkcp : HandlerKind → Bool
is_mkcp mkcp = true
is_mkcp _ = false

abbrev pub is_websocket : HandlerKind → Bool
is_websocket websocket = true
is_websocket _ = false

abbrev pub raw_handler : HandlerSpec
raw_handler = record {
  kind = raw;
  websocket_spec = none;
  grpc_spec = none;
  xhttp_config = none;
  mkcp_config = none;
}

module _ (lib : Library) where
  unfoldable pub validate_vless : VlessSpec → Problems
  unfolding validate_vless_handler validate_security trim_space
  validate_vless spec =
      validate_vless_handler spec.handler
      ++ (validate_security lib spec.security
          ++ refuse (is_brutal_incomplete spec.mux) "brutal mux requires up and down bandwidth")

  -- What the other protocols check of their security and their mux.
  abbrev pub validate_layers : SecuritySpec → MuxSpec → Problems
  validate_layers security mux =
      validate_vless
        (record { decryption = []; handler = raw_handler; security = security; mux = mux })

  unfoldable pub validate_vmess : VmessSpec → Problems
  unfolding validate_classic_stream_handler validate_vless
  validate_vmess spec =
      let security_kind = spec.security.kind in
      validate_classic_stream_handler vmess_stream spec.handler
      ++ (validate_layers spec.security spec.mux
          ++ (refuse (is_mkcp spec.handler.kind && is_outer_security security_kind)
                "mihomo VMess mKCP does not support ShadowTLS, ResTLS, or JLS security"
              ++ refuse (is_websocket spec.handler.kind && is_reality security_kind)
                  "mihomo VMess WebSocket client does not apply REALITY security"))

  abbrev pub trojan_shadowsocks : TrojanShadowsocksSpec → Problems
  trojan_shadowsocks spec =
      if spec.enabled
      then refuse
          (not (
            among (lib.to_lower spec.method)
              ("aes-128-gcm" ∷ "aes-256-gcm" ∷ "chacha20-ietf-poly1305" ∷ [])))
          "trojan Shadowsocks method must be aes-128-gcm, aes-256-gcm, or chacha20-ietf-poly1305"
        ++ refuse (is_blank spec.password) "trojan Shadowsocks password is required when enabled"
      else []

  unfoldable pub validate_trojan : TrojanSpec → Problems
  unfolding validate_classic_stream_handler validate_vless trim_space
  validate_trojan spec =
      validate_classic_stream_handler trojan_stream spec.handler
      ++ (validate_layers spec.security spec.mux
          ++ (trojan_shadowsocks spec.shadowsocks
              ++ refuse (is_websocket spec.handler.kind && is_reality spec.security.kind)
                  "mihomo Trojan WebSocket client does not apply REALITY security"))

  unfoldable pub validate_shadowsocks : ShadowsocksSpec → Problems
  unfolding validate_vless
  validate_shadowsocks spec =
      let kind = spec.security.kind in
      refuse
        (not (
          among spec.cipher (
            "none" ∷ "aes-128-gcm" ∷ "aes-192-gcm" ∷ "aes-256-gcm" ∷ "chacha20-ietf-poly1305"
            ∷ "xchacha20-ietf-poly1305" ∷ "2022-blake3-aes-128-gcm" ∷ "2022-blake3-aes-256-gcm"
            ∷ "2022-blake3-chacha20-poly1305" ∷ [])))
        "unsupported Shadowsocks cipher %q"
      ++ ((if is_no_security kind || is_outer_security kind
            then validate_layers spec.security spec.mux
            else "unsupported Shadowsocks security %q" ∷ [])
          ++ (refuse
                (spec.simple_obfs.enabled
                  && not (among spec.simple_obfs.mode ("http" ∷ "tls" ∷ [])))
                "shadowsocks simple obfs mode must be http or tls"
              ++ refuse (spec.simple_obfs.enabled && not (is_no_security kind))
                  "shadowsocks simple obfs cannot be combined with another Mihomo client plugin security"))

  abbrev pub is_http_url : Option Url → Bool
  is_http_url none = false
  is_http_url (some url) = not (is_empty url.host) && among url.scheme ("http" ∷ "https" ∷ [])

  unfoldable pub validate_hysteria2_realm : RealmConfig → Problems
  unfolding validate_stun_server validate_string_list trim_space
  validate_hysteria2_realm config =
      refuse (not (is_http_url (lib.parse_url config.server_url)))
        "hysteria2 Realm server URL must be an absolute HTTP or HTTPS URL"
      ++ (refuse (is_blank config.realm_id) "hysteria2 Realm ID is required"
          ++ (refuse (length config.stun_servers == 0)
                "hysteria2 Realm requires at least one STUN server"
              ++ (concat_map (validate_stun_server lib) config.stun_servers
                  ++ (refuse
                        ((is_empty config.certificate && not (is_empty config.private_key))
                          || (not (is_empty config.certificate) && is_empty config.private_key))
                        "hysteria2 Realm client certificate and private key must be configured together"
                      ++ validate_string_list config.alpn))))

  abbrev pub realm_problems : Option RealmConfig → Problems
  realm_problems none = []
  realm_problems (some config) = if config.enabled then validate_hysteria2_realm config else []

  unfoldable pub validate_hysteria2 : HysteriaSpec → Problems
  unfolding validate_hysteria2_realm validate_string_list trim_space
  validate_hysteria2 spec =
      refuse (is_blank spec.certificate || is_blank spec.private_key)
        "hysteria2 certificate and private key are required"
      ++ (refuse (not (is_empty spec.obfs) && is_blank spec.obfs_password)
            "hysteria2 obfuscation password is required when obfuscation is enabled"
          ++ (refuse
                (is_negative spec.obfs_min_packet_size
                  || is_negative spec.obfs_max_packet_size
                  || (ltℤ (pos 0) spec.obfs_max_packet_size
                      && ltℤ spec.obfs_max_packet_size spec.obfs_min_packet_size))
                "hysteria2 obfuscation packet size range is invalid"
              ++ (refuse
                    (is_negative spec.udp_mtu
                      || is_negative spec.cwnd
                      || is_negative spec.max_idle_time)
                    "hysteria2 numeric tuning values must not be negative"
                  ++ (refuse (is_brutal_incomplete spec.mux)
                        "hysteria2 Brutal mux requires up and down bandwidth"
                      ++ (validate_string_list spec.alpn ++ realm_problems spec.realm)))))
