-- ===== src/Domain/Model.antt =====
-- The desired state (internal/domain/model.go). A pointer that may be nil is an option. A string type
-- with named constants is a data type with one constructor for each, and `other` for every other
-- text. A time is a number, and the zero time is 0.
pub mod Stream
use m_ui.Prelude.{
  ℕ, Bool, true, false, not, ◌&&◌, ◌||◌, Option, none, some, List, [], ◌∷◌, ltb, if◌then◌else◌,
  keep, Text, ℤ,
}
use m_ui.Domain.Endpoint.{Endpoint}
use m_ui.Domain.Model.Stream.{VlessSpec, VmessSpec, TrojanSpec, ShadowsocksSpec, HysteriaSpec}

pub data ProtocolKind : Type 0 where
  vless hysteria2 vmess trojan shadowsocks : ProtocolKind
  other : Text → ProtocolKind

pub record VlessCredential : Type 0 where
  pub uuid : Text
  pub flow : Text

-- The credentials of Hysteria2, Trojan and Shadowsocks.
pub record PasswordCredential : Type 0 where
  pub password : Text

pub record VmessCredential : Type 0 where
  pub uuid : Text
  pub alter_id : ℤ
  pub cipher : Text

pub record NodeUser : Type 0 where
  pub id : Text
  pub node_id : Text
  pub name : Text
  pub enabled : Bool
  pub vless_credential : Option VlessCredential
  pub hysteria2_credential : Option PasswordCredential
  pub vmess_credential : Option VmessCredential
  pub trojan_credential : Option PasswordCredential
  pub shadowsocks_credential : Option PasswordCredential
  pub expires_at : Option ℕ
  pub created_at : ℕ
  pub updated_at : ℕ

pub record AccessProfile : Type 0 where
  pub id : Text
  pub node_id : Text
  pub name : Text
  pub is_default : Bool
  pub public_host : Text
  pub public_port : ℕ  -- uint16
  pub server_name : Text
  pub fingerprint : Text
  pub packet_encoding : Text
  pub allow_insecure : Bool
  pub created_at : ℕ
  pub updated_at : ℕ

pub record Node : Type 0 where
  pub id : Text
  pub name : Text
  pub enabled : Bool
  pub listen_address : Text
  pub port : Text
  pub protocol : ProtocolKind
  pub schema_version : ℤ
  pub vless_spec : Option VlessSpec
  pub hysteria2_spec : Option HysteriaSpec
  pub vmess_spec : Option VmessSpec
  pub trojan_spec : Option TrojanSpec
  pub shadowsocks_spec : Option ShadowsocksSpec
  pub users : List NodeUser
  pub access_profiles : List AccessProfile
  pub generation : ℤ  -- int64
  pub created_at : ℕ
  pub updated_at : ℕ

pub record DesiredState : Type 0 where
  pub as_of : ℕ
  pub panel_title : Text
  pub ui_language : Text
  pub cookie_secure : Bool
  pub panel_ui_bind : Endpoint
  pub mihomo_external_controller_bind : Endpoint
  pub mihomo_controller_connect : Endpoint
  pub external_controller_cors_origins : List Text
  pub endpoint_generation : ℤ  -- int64
  pub controller_address : Text
  pub controller_secret : Text
  pub public_host : Text
  pub nodes : List Node

-- `ExpiresAt != nil && !ExpiresAt.After(asOf)`.
abbrev pub has_expired : ℕ → Option ℕ → Bool
has_expired as_of none = false
has_expired as_of (some t) = not (ltb as_of t)

abbrev pub is_effective : ℕ → NodeUser → Bool
is_effective as_of user = user.enabled && not (has_expired as_of user.expires_at)

unfoldable pub effective_users : ℕ → Node → List NodeUser
effective_users as_of node = keep (is_effective as_of) node.users

abbrev pub first_default : List AccessProfile → Option AccessProfile
first_default [] = none
first_default (profile ∷ profiles) =
    if profile.is_default then some profile else first_default profiles

unfoldable pub default_access_profile : Node → Option AccessProfile
default_access_profile node = first_default node.access_profiles
