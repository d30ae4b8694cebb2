-- ===== src/Domain/Endpoint.antt =====
-- Host and port pairs (`Endpoint` and its functions in internal/domain/model.go).
pub mod Address
use Prim.Native.String.{String}
use m_ui.Prelude.{
  ℕ, ◌≡◌, refl, Bool, true, false, ◌&&◌, ◌||◌, not, Option, none, some, List, [], ◌∷◌, ◌++◌, ◌==◌,
  if◌then◌else◌, Text, codes, text_eq, cut, parse_uint, digits,
}

pub record Endpoint : Type 0 where
  pub host : Text
  pub port : ℕ  -- uint16

-- A value, or the message of the error.
pub data Checked {ℓ} (A : Type ℓ) : Type ℓ where
  good : A → Checked A
  bad : String → Checked A

abbrev pub contains : ℕ → Text → Bool
contains c [] = false
contains c (d ∷ s) = d == c || contains c s

-- The parts before and after the last separator.
abbrev pub last_or : ℕ → ℕ → Text → Option (Text × Text) → Option (Text × Text)
last_or sep c s (some r) = some (c ∷ r.0, r.1)
last_or sep c s none = if c == sep then some ([], s) else none

unfoldable pub cut_last : ℕ → Text → Option (Text × Text)
cut_last sep [] = none
cut_last sep (c ∷ s) = last_or sep c s (cut_last sep s)

-- `net.JoinHostPort`.
unfoldable pub join_host_port : Text → Text → Text
join_host_port host port =
    if contains b':' host then (b'[' ∷ host) ++ (b']' ∷ b':' ∷ port) else host ++ (b':' ∷ port)

-- `net.SplitHostPort`, whose errors the callers pass on: a bracketed host ends at the first `]`, and
-- another one has no colon.
abbrev pub after_bracket : Text → Option Text → Option (Text × Text)
after_bracket host none = none
after_bracket host (some []) = none
after_bracket host (some (c ∷ port)) =
    if not (c == b':')
      || contains b':' port
      || contains b'[' host
      || contains b'[' port
      || contains b']' port
    then none
    else some (host, port)

abbrev pub unbracketed : Option (Text × Text) → Option (Text × Text)
unbracketed none = none
unbracketed (some (host, port)) =
    if contains b':' host
      || contains b'[' host
      || contains b'[' port
      || contains b']' host
      || contains b']' port
    then none
    else some (host, port)

unfoldable pub split_host_port : Text → Option (Text × Text)
unfolding cut_last cut
split_host_port [] = none
split_host_port (c ∷ s) =
    let inner = cut b']' s in
    if c == b'[' then after_bracket inner.0 inner.1 else unbracketed (cut_last b':' (c ∷ s))

unfoldable pub address : Endpoint → Text
unfolding join_host_port digits
address e = join_host_port e.host (digits 5 e.port [])

abbrev pub with_port : Text → Option ℕ → Option Endpoint
with_port host none = none
with_port host (some n) = if n == 0 then none else some (record { host = host; port = n })

abbrev pub with_host : Option (Text × Text) → Option Endpoint
with_host none = none
with_host (some (host, port)) = with_port host (parse_uint 65535 port)

unfoldable pub parse_endpoint : Text → Option Endpoint
unfolding split_host_port parse_uint
parse_endpoint s = with_host (split_host_port s)

abbrev pub endpoint_eq : Endpoint → Endpoint → Bool
endpoint_eq a b = text_eq a.host b.host && a.port == b.port

abbrev pub ipv4_loopback : Text
ipv4_loopback = codes "127.0.0.1"

abbrev pub ipv4_any : Text
ipv4_any = codes "0.0.0.0"

abbrev pub ipv6_loopback : Text
ipv6_loopback = codes "::1"

abbrev pub ipv6_any : Text
ipv6_any = codes "::"

abbrev pub at_host : Endpoint → Text → Endpoint
at_host e host = record { host = host; port = e.port }

-- The endpoint to bind and the one to connect to.
unfoldable pub split_legacy_controller_endpoint : Endpoint → Checked (Endpoint × Endpoint)
split_legacy_controller_endpoint e =
    if e.port == 0
    then bad "legacy controller endpoint port is invalid"
    else if text_eq e.host ipv4_loopback
    then good (e, e)
    else if text_eq e.host ipv4_any
    then good (e, at_host e ipv4_loopback)
    else if text_eq e.host ipv6_loopback
    then good (e, e)
    else if text_eq e.host ipv6_any
    then good (e, at_host e ipv6_loopback)
    else bad "legacy controller endpoint host %q cannot be safely migrated"

bracketed_address :
    parse_endpoint (codes "[::1]:9090") ≡ some (record { host = ipv6_loopback; port = 9090 })
unfolding parse_endpoint split_host_port cut parse_uint
bracketed_address = refl

too_many_colons : parse_endpoint (codes "::1:9090") ≡ none
unfolding parse_endpoint split_host_port cut_last cut parse_uint
too_many_colons = refl
