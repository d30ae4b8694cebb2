-- ===== src/Domain/Nodes.antt =====
-- The check of a node (internal/domain/validate.go). A set of the values seen so far is a list.
pub mod Valid
pub mod Credentials
use Prim.Native.String.{String}
use m_ui.Prelude.{
  ℕ, ◌+◌, ◌≡◌, refl, Bool, true, false, not, ◌&&◌, ◌||◌, Option, none, some, List, [], ◌∷◌, ◌++◌,
  ltb, ◌==◌, if◌then◌else◌, length, keep, Text, codes, text_eq, has_prefix, one_of, ℤ, pos, negsuc,
  ltℤ,
}
use m_ui.Domain.Ports.{
  PortError, port_required, empty_range, port_out_of_range, invalid_range, ranges_overlapping,
  PortRange, Parsed, ok, err, parse_port_ranges,
}
use m_ui.Domain.Model.{
  ProtocolKind, vless, hysteria2, vmess, trojan, shadowsocks, other, PasswordCredential, NodeUser,
  AccessProfile, Node, effective_users,
}
use m_ui.Domain.Model.Stream.{ShadowsocksSpec}
use m_ui.Domain.Checks.{Problems, refuse, join, Library, is_nil, is_set, has_length, validate_name}
use m_ui.Domain.Security.{count, concat_map}
use m_ui.Domain.Protocols.{
  validate_vless, validate_vmess, validate_trojan, validate_shadowsocks, validate_hysteria2,
}
use m_ui.Domain.Users.{validate_node_user, validate_access_profile}

abbrev pub node_schema_version : ℕ
node_schema_version = 2

abbrev pub protocol_spec_count : Node → ℕ
protocol_spec_count node = count (
    is_set node.vless_spec
    ∷ is_set node.hysteria2_spec
    ∷ is_set node.vmess_spec
    ∷ is_set node.trojan_spec
    ∷ is_set node.shadowsocks_spec
    ∷ [])

abbrev pub is_clear : Problems → Bool
is_clear [] = true
is_clear (p ∷ ps) = false

abbrev pub port_message : PortError → String
port_message port_required = "port is required and must not have surrounding whitespace"
port_message empty_range = "port contains an empty range"
port_message port_out_of_range = "port %q must be between 1 and 65535"
port_message invalid_range = "port range %q is invalid"
port_message ranges_overlapping = "port ranges overlap"

abbrev pub port_problems : Parsed (List PortRange) → Problems
port_problems (ok ranges) = []
port_problems (err e) = port_message e ∷ []

abbrev pub is_schema : ℤ → Bool
is_schema (pos n) = n == node_schema_version
is_schema (negsuc n) = false

abbrev pub is_shadowsocks : ProtocolKind → Bool
is_shadowsocks shadowsocks = true
is_shadowsocks _ = false

abbrev pub is_default_of : AccessProfile → Bool
is_default_of profile = profile.is_default

abbrev pub default_problems : List AccessProfile → Problems
default_problems profiles =
    if length profiles == 0
    then "at least one access profile is required" ∷ []
    else refuse (not (length (keep is_default_of profiles) == 1))
        "exactly one access profile must be the default"

-- A specification that is the only one of its node.
abbrev pub checked_spec : {S : Type 0} → ℕ → Option S → (S → Problems) → Problems → Problems
checked_spec n none check missing = missing
checked_spec n (some spec) check missing = if n == 1 then check spec else missing

module _ (lib : Library) where
  -- The `switch` on the protocol.
  abbrev pub spec_problems : ProtocolKind → Node → Problems
  spec_problems vless n =
      checked_spec (protocol_spec_count n) n.vless_spec (validate_vless lib)
        ("VLESS node must contain only a VLESS protocol specification" ∷ [])
  spec_problems hysteria2 n =
      checked_spec (protocol_spec_count n) n.hysteria2_spec (validate_hysteria2 lib)
        ("hysteria2 node must contain only a Hysteria2 protocol specification" ∷ [])
  spec_problems vmess n =
      checked_spec (protocol_spec_count n) n.vmess_spec (validate_vmess lib)
        ("vmess node must contain only a VMess protocol specification" ∷ [])
  spec_problems trojan n =
      checked_spec (protocol_spec_count n) n.trojan_spec (validate_trojan lib)
        ("trojan node must contain only a Trojan protocol specification" ∷ [])
  spec_problems shadowsocks n =
      checked_spec (protocol_spec_count n) n.shadowsocks_spec (validate_shadowsocks lib)
        ("shadowsocks node must contain only a Shadowsocks protocol specification" ∷ [])
  spec_problems (other name) n = "unsupported protocol %q" ∷ []

  -- The checks of one user, with the ids, the names and the credentials seen so far. A credential is
  -- looked up only for a user without a problem.
  unfoldable pub user_checks : Node → List Text → List Text → List Text → NodeUser → List Problems
  unfolding validate_node_user
  user_checks node ids names credentials user =
      let checked = validate_node_user lib user node in
      refuse (one_of user.id ids) "%s ID is duplicated"
      ∷ refuse (one_of user.name names) "%s name is duplicated"
      ∷ (if is_clear checked.1
          then refuse (one_of checked.0 credentials) "%s credential is duplicated"
          else checked.1)
      ∷ []

  -- The credentials after a user, whose own is added where it is valid and new.
  unfoldable pub seen_credentials : Node → List Text → NodeUser → List Text
  unfolding validate_node_user
  seen_credentials node credentials user =
      let checked = validate_node_user lib user node in
      if is_clear checked.1 && not (one_of checked.0 credentials)
      then checked.0 ∷ credentials
      else credentials

  -- The loop over the users.
  unfoldable pub user_problems : Node → List Text → List Text → List Text → List NodeUser → Problems
  unfolding user_checks seen_credentials
  user_problems node ids names credentials [] = []
  user_problems node ids names credentials (user ∷ users) =
      join (user_checks node ids names credentials user)
      ++ user_problems node (user.id ∷ ids) (user.name ∷ names)
          (seen_credentials node credentials user) users

  unfoldable pub profile_checks : Text → List Text → List Text → AccessProfile → List Problems
  unfolding validate_access_profile
  profile_checks node_id ids names profile =
      refuse (one_of profile.id ids) "access profile %d ID is duplicated"
      ∷ refuse (one_of profile.name names) "access profile %d name is duplicated"
      ∷ validate_access_profile lib profile node_id
      ∷ []

  -- The loop over the access profiles.
  unfoldable pub profile_problems : Text → List Text → List Text → List AccessProfile → Problems
  unfolding profile_checks
  profile_problems node_id ids names [] = []
  profile_problems node_id ids names (profile ∷ profiles) =
      join (profile_checks node_id ids names profile)
      ++ profile_problems node_id (profile.id ∷ ids) (profile.name ∷ names) profiles

  -- The passwords of the 2022 ciphers, of the users who have one.
  abbrev pub password_problems : ℕ → Option PasswordCredential → Problems
  password_problems expected none = []
  password_problems expected (some c) =
      refuse (not (has_length expected (lib.std_base64 c.password)))
        "shadowsocks 2022 password must be standard base64 encoding exactly %d bytes"

  abbrev pub cipher_problems : Bool → Option ShadowsocksSpec → List NodeUser → Problems
  cipher_problems false spec users = []
  cipher_problems true none users = []
  cipher_problems true (some spec) users =
      let expected = if text_eq spec.cipher (codes "2022-blake3-aes-128-gcm") then 16 else 32 in
      if has_prefix spec.cipher (codes "2022-")
      then concat_map (λ (user : NodeUser). password_problems expected user.shadowsocks_credential)
          users
      else []

  unfoldable pub node_parts : Node → ℕ → List Problems
  unfolding validate_name user_problems profile_problems effective_users
  node_parts node as_of =
      let users = effective_users as_of node in
      refuse (is_nil (lib.parse_uuid node.id)) "ID must be a UUID"
      ∷ validate_name node.name
      ∷ refuse (is_nil (lib.parse_ip node.listen_address)) "listen address must be an IP address"
      ∷ port_problems (parse_port_ranges node.port)
      ∷ refuse (not (is_schema node.schema_version)) "schema version must be %d"
      ∷ spec_problems node.protocol node
      ∷ user_problems node [] [] [] node.users
      ∷ refuse (node.enabled && length users == 0)
          "enabled node must have at least one enabled, unexpired user"
      ∷ refuse (is_shadowsocks node.protocol && ltb 1 (length users))
          "mihomo Shadowsocks listener supports exactly one effective user"
      ∷ cipher_problems (is_shadowsocks node.protocol) node.shadowsocks_spec users
      ∷ profile_problems node.id [] [] node.access_profiles
      ∷ default_problems node.access_profiles
      ∷ refuse (ltℤ node.generation (pos 1)) "generation must be positive"
      ∷ []

  unfoldable pub validate_node : Node → ℕ → Problems
  unfolding node_parts
  validate_node node as_of = join (node_parts node as_of)
