-- ===== src/Domain/Checks.antt =====
-- The checks of single values (internal/domain/validate.go). A check returns its problems, each the
-- format of the source's message; `errors.Join` is the concatenation, so no problem is a nil error.
pub mod Origins
use Prim.Native.String.{String}
use m_ui.Prelude.{
  ℕ, ◌%◌, ◌≡◌, refl, Bool, true, false, not, ◌&&◌, ◌||◌, Option, none, some, List, [], ◌∷◌, ◌++◌,
  ltb, leb, ◌==◌, if◌then◌else◌, length, Text, codes, text_eq, is_empty, is_blank, is_padded,
  trim_space, split, one_of, is_digit, parse_uint, byte_length, has_prefix,
}
use m_ui.Domain.Endpoint.{
  Endpoint, split_host_port, ipv4_loopback, ipv4_any, ipv6_loopback, ipv6_any,
}

abbrev pub Problems : Type 0
Problems = List String

abbrev pub refuse : Bool → String → Problems
refuse bad message = if bad then message ∷ [] else []

-- `errors.Join` of the problems of several checks.
abbrev pub join : List Problems → Problems
join [] = []
join (problems ∷ checks) = problems ++ join checks

-- `oneOf` with the constants as literals.
abbrev pub among : Text → List String → Bool
among value [] = false
among value (s ∷ ss) = text_eq value (codes s) || among value ss

pub record IpAddress : Type 0 where
  pub is_loopback : Bool
  pub is_unspecified : Bool

pub record Uuid : Type 0 where
  pub is_rfc4122 : Bool  -- of its variant
  pub version : ℕ

pub record Url : Type 0 where
  pub scheme : Text
  pub host : Text
  pub has_user : Bool
  pub path : Text
  pub raw_query : Text
  pub fragment : Text
  pub hostname : Text
  pub port : Text

-- What the checks call and this repository does not define.
pub record Library : Type 0 where
  pub parse_ip : Text → Option IpAddress  -- net.ParseIP
  pub parse_uuid : Text → Option Uuid  -- uuid.Parse
  pub parse_url : Text → Option Url  -- url.Parse
  pub raw_url_base64 : Text → Option (List ℕ)  -- base64.RawURLEncoding.DecodeString
  pub std_base64 : Text → Option (List ℕ)  -- base64.StdEncoding.DecodeString
  pub lookup_port : Text → Option ℕ  -- net.LookupPort("tcp", _)
  pub to_lower : Text → Text  -- strings.ToLower

abbrev pub is_nil {ℓ} : {A : Type ℓ} → Option A → Bool
is_nil none = true
is_nil (some a) = false

abbrev pub is_set {ℓ} : {A : Type ℓ} → Option A → Bool
is_set o = not (is_nil o)

-- A character of `[0-9a-f]`.
abbrev pub is_hex : ℕ → Bool
is_hex c = is_digit c || (leb b'a' c && leb c b'f')

abbrev pub all_hex : Text → Bool
all_hex [] = true
all_hex (c ∷ s) = is_hex c && all_hex s

unfoldable pub validate_short_id : Text → Problems
validate_short_id value =
    refuse
      (not (all_hex value && leb 2 (length value) && leb (length value) 16)
        || not (byte_length value % 2 == 0))
      "must contain 2 to 16 lowercase hexadecimal characters in complete bytes"

abbrev pub is_alphanumeric : ℕ → Bool
is_alphanumeric c = is_digit c || (leb b'A' c && leb c b'Z') || (leb b'a' c && leb c b'z')

-- The rest of a label: letters, digits and hyphens, without one at the end.
abbrev pub is_label_tail : Text → Bool
is_label_tail [] = true
is_label_tail (c ∷ []) = is_alphanumeric c
is_label_tail (c ∷ d ∷ s) = (is_alphanumeric c || c == b'-') && is_label_tail (d ∷ s)

-- `dnsLabelPattern`.
abbrev pub is_dns_label : Text → Bool
is_dns_label [] = false
is_dns_label (c ∷ s) = is_alphanumeric c && leb (length s) 62 && is_label_tail s

abbrev pub all_labels : List Text → Bool
all_labels [] = true
all_labels (label ∷ labels) = is_dns_label label && all_labels labels

-- `strings.TrimSuffix(s, ".")`.
abbrev pub trim_dot : Text → Text
trim_dot [] = []
trim_dot (c ∷ []) = if c == b'.' then [] else c ∷ []
trim_dot (c ∷ d ∷ s) = c ∷ trim_dot (d ∷ s)

abbrev pub has_control : Text → Bool
has_control [] = false
has_control (c ∷ s) = ltb c 0x20 || c == 0x7f || has_control s

unfoldable pub validate_name : Text → Problems
unfolding trim_space
validate_name value =
    if is_padded value
    then "%s is required and must not have surrounding whitespace" ∷ []
    else if ltb 64 (byte_length value)
    then "%s must not exceed 64 bytes" ∷ []
    else refuse (has_control value) "%s must not contain control characters"

-- The problems of the items, each with those before it.
abbrev pub check_items : List Text → List Text → Problems
check_items seen [] = []
check_items seen (value ∷ values) =
    refuse (is_blank value || not (text_eq value (trim_space value)))
      "%s item %d is required and must not have surrounding whitespace"
    ++ (refuse (one_of value seen) "%s value %q is duplicated" ++ check_items (value ∷ seen) values)

unfoldable pub validate_string_list : List Text → Problems
unfolding trim_space
validate_string_list values = check_items [] values

unfoldable pub validate_controller_endpoint_pair : Endpoint → Endpoint → Problems
validate_controller_endpoint_pair bind connect =
    if not (bind.port == connect.port)
    then "mihomo external-controller bind and m-ui Controller connect ports must match" ∷ []
    else if not (text_eq connect.host ipv4_loopback) && not (text_eq connect.host ipv6_loopback)
    then "m-ui Mihomo Controller connect host must be exactly 127.0.0.1 or ::1" ∷ []
    else if text_eq bind.host ipv4_loopback || text_eq bind.host ipv4_any
    then refuse (not (text_eq connect.host ipv4_loopback))
        "mihomo IPv4 bind %s requires m-ui Controller connect host 127.0.0.1"
    else if text_eq bind.host ipv6_loopback || text_eq bind.host ipv6_any
    then refuse (not (text_eq connect.host ipv6_loopback))
        "mihomo IPv6 bind %s requires m-ui Controller connect host ::1"
    else "mihomo external-controller bind host %s is not supported" ∷ []

abbrev pub has_length : ℕ → Option (List ℕ) → Bool
has_length n none = false
has_length n (some bytes) = length bytes == n

-- Zero where the text is no port.
abbrev pub port_or_zero : Option ℕ → ℕ
port_or_zero none = 0
port_or_zero (some n) = n

-- Where the first check passes, the second decides.
abbrev pub and_then : Problems → Problems → Problems
and_then [] rest = rest
and_then (p ∷ ps) rest = p ∷ ps

abbrev pub stun_parts : Text → Option (Text × Text) → Text × Text
stun_parts value none = (value, codes "3478")
stun_parts value (some parts) = parts

abbrev pub is_local : Option IpAddress → Bool
is_local none = false
is_local (some ip) = ip.is_loopback && not ip.is_unspecified

module _ (lib : Library) where
  unfoldable pub validate_reality_key : Text → Problems
  validate_reality_key value =
      refuse (not (has_length 32 (lib.raw_url_base64 value)))
        "must be an unpadded URL-safe base64 value encoding 32 bytes"

  unfoldable pub validate_host : Text → Bool → Problems
  unfolding trim_space split
  validate_host value allow_ip =
      let host = trim_dot value in
      if is_padded value
      then "%s is required and must not have surrounding whitespace" ∷ []
      else if allow_ip && is_set (lib.parse_ip host)
      then []
      else if ltb 253 (byte_length host)
      then "%s is too long" ∷ []
      else refuse (not (all_labels (split b'.' host))) "%s must be a valid DNS name"

  abbrev pub destination_parts : Option (Text × Text) → Problems
  destination_parts none = "destination must use host:port syntax" ∷ []
  destination_parts (some (host, port)) = and_then (validate_host host true) (
      refuse (port_or_zero (lib.lookup_port port) == 0)
        "destination port must be between 1 and 65535")

  unfoldable pub validate_destination : Text → Problems
  unfolding validate_host split_host_port
  validate_destination value = destination_parts (split_host_port value)

  unfoldable pub validate_stun_server : Text → Problems
  unfolding validate_host split_host_port parse_uint
  validate_stun_server value =
      let parts = stun_parts value (split_host_port value) in
      and_then (validate_host parts.0 true)
        (refuse (port_or_zero (parse_uint 65535 parts.1) == 0) "port must be between 1 and 65535")

  unfoldable pub validate_bind_endpoint : Endpoint → Problems
  unfolding trim_space
  validate_bind_endpoint e =
      if is_blank e.host || not (text_eq e.host (trim_space e.host))
      then "%s host is required and must not have surrounding whitespace" ∷ []
      else if is_nil (lib.parse_ip e.host)
      then "%s host must be an IPv4 or IPv6 address" ∷ []
      else refuse (e.port == 0) "%s port must be between 1 and 65535"

  unfoldable pub validate_connect_endpoint : Endpoint → Problems
  unfolding validate_bind_endpoint
  validate_connect_endpoint e = and_then (validate_bind_endpoint e) (
      refuse
        (not (is_local (lib.parse_ip e.host))
          || (not (text_eq e.host ipv4_loopback) && not (text_eq e.host ipv6_loopback)))
        "%s host must be exactly 127.0.0.1 or ::1")
