-- ===== src/Domain/Users.antt =====
-- The checks of a node's users and access profiles (internal/domain/validate.go).
use m_ui.Prelude.{
  ℕ, Bool, true, false, not, ◌&&◌, Option, none, some, [], ◌∷◌, ◌++◌, ◌==◌, if◌then◌else◌, Text,
  codes, text_eq, is_empty, is_blank, trim_space, is_negative,
}
use m_ui.Domain.Model.{
  ProtocolKind, vless, hysteria2, vmess, trojan, shadowsocks, other, VlessCredential,
  PasswordCredential, VmessCredential, NodeUser, AccessProfile, Node,
}
use m_ui.Domain.Checks.{
  Problems, refuse, among, Uuid, Library, is_nil, is_set, validate_name, validate_host,
}
use m_ui.Domain.Security.{count}

unfoldable pub user_credential_count : NodeUser → ℕ
user_credential_count user = count (
    is_set user.vless_credential
    ∷ is_set user.hysteria2_credential
    ∷ is_set user.vmess_credential
    ∷ is_set user.trojan_credential
    ∷ is_set user.shadowsocks_credential
    ∷ [])

-- The credential, absent too where it is not the only one.
unfoldable pub only_credential : {C : Type 0} → NodeUser → Option C → Option C
unfolding user_credential_count
only_credential user c = if user_credential_count user == 1 then c else none

unfoldable pub default_string : Text → Text → Text
default_string value fallback = if is_empty value then fallback else value

abbrev pub is_random_uuid : Option Uuid → Bool
is_random_uuid none = false
is_random_uuid (some uuid) = uuid.is_rfc4122 && uuid.version == 4

abbrev pub is_rfc_uuid : Option Uuid → Bool
is_rfc_uuid none = false
is_rfc_uuid (some uuid) = uuid.is_rfc4122

abbrev pub vless_flow_vision : Text
vless_flow_vision = codes "xtls-rprx-vision"

module _ (lib : Library) where
  -- The credential's identity and the problems of each credential.
  abbrev pub vless_user : Option VlessCredential → Text × Problems
  vless_user none = ([], "VLESS user must contain only VLESS credentials" ∷ [])
  vless_user (some c) = (
    lib.to_lower c.uuid,
    refuse (not (is_random_uuid (lib.parse_uuid c.uuid)))
          "VLESS UUID must be an RFC 4122 version 4 UUID"
        ++ refuse (not (is_empty c.flow) && not (text_eq c.flow vless_flow_vision))
            "unsupported VLESS flow %q",
  )

  abbrev pub vmess_user : Option VmessCredential → Text × Problems
  vmess_user none = ([], "vmess user must contain only VMess credentials" ∷ [])
  vmess_user (some c) = (
    lib.to_lower c.uuid,
    refuse (not (is_rfc_uuid (lib.parse_uuid c.uuid))) "vmess UUID must be an RFC 4122 UUID"
        ++ (refuse (is_negative c.alter_id) "vmess alter ID must not be negative"
            ++ refuse
                (not (
                  among (default_string c.cipher (codes "auto"))
                    ("auto" ∷ "aes-128-gcm" ∷ "chacha20-poly1305" ∷ "none" ∷ "zero" ∷ [])))
                "unsupported VMess cipher %q"),
  )

  abbrev pub hysteria2_user : Option PasswordCredential → Text × Problems
  hysteria2_user none = ([], "hysteria2 user must contain only Hysteria2 credentials" ∷ [])
  hysteria2_user (some c) =
      (c.password, refuse (is_blank c.password) "hysteria2 password is required")

  abbrev pub trojan_user : Option PasswordCredential → Text × Problems
  trojan_user none = ([], "trojan user must contain only Trojan credentials" ∷ [])
  trojan_user (some c) = (c.password, refuse (is_blank c.password) "trojan password is required")

  abbrev pub shadowsocks_user : Option PasswordCredential → Text × Problems
  shadowsocks_user none = ([], "shadowsocks user must contain only Shadowsocks credentials" ∷ [])
  shadowsocks_user (some c) =
      (c.password, refuse (is_blank c.password) "shadowsocks password is required")

  -- The `switch` of `validateNodeUser`.
  unfoldable pub credential_of : ProtocolKind → NodeUser → Text × Problems
  unfolding only_credential default_string trim_space
  credential_of vless u = vless_user (only_credential u u.vless_credential)
  credential_of hysteria2 u = hysteria2_user (only_credential u u.hysteria2_credential)
  credential_of vmess u = vmess_user (only_credential u u.vmess_credential)
  credential_of trojan u = trojan_user (only_credential u u.trojan_credential)
  credential_of shadowsocks u = shadowsocks_user (only_credential u u.shadowsocks_credential)
  credential_of (other name) u = ([], [])

  unfoldable pub validate_node_user : NodeUser → Node → Text × Problems
  unfolding validate_name credential_of
  validate_node_user user node =
      let credential = credential_of node.protocol user in
      (
        credential.0,
        refuse (is_nil (lib.parse_uuid user.id)) "ID must be a UUID"
            ++ (refuse (not (text_eq user.node_id node.id)) "node ID does not match the parent node"
                ++ (validate_name user.name ++ credential.1)),
      )

  abbrev pub optional_host : Text → Bool → Problems
  optional_host host allow_ip = if is_empty host then [] else validate_host lib host allow_ip

  unfoldable pub validate_access_profile : AccessProfile → Text → Problems
  unfolding validate_name validate_host
  validate_access_profile profile node_id =
      refuse (is_nil (lib.parse_uuid profile.id)) "ID must be a UUID"
      ++ (refuse (not (text_eq profile.node_id node_id)) "node ID does not match the parent node"
          ++ (validate_name profile.name
              ++ (optional_host profile.public_host true
                  ++ (refuse (profile.public_port == 0) "public port must be between 1 and 65535"
                      ++ optional_host profile.server_name false))))
