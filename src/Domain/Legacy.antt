-- ===== src/Domain/Legacy.antt =====
-- `DesiredState.NormalizeLegacy` of internal/domain/model.go: the endpoints of a state that has the
-- one controller address of before.
pub mod Pair
pub mod Normal
use Prim.Native.String.{String}
use m_ui.Prelude.{
  ℕ, Bool, true, false, not, ◌&&◌, ◌||◌, Option, none, some, ◌==◌, if◌then◌else◌, Text, is_empty, ℤ,
  pos, negsuc,
}
use m_ui.Domain.Endpoint.{
  Endpoint, Checked, good, bad, parse_endpoint, ipv4_any, split_legacy_controller_endpoint,
}
use m_ui.Domain.Model.{DesiredState}

infixl 5 ◌>>=◌
abbrev pub ◌>>=◌ : {A B : Type 0} → Checked A → (A → Checked B) → Checked B
good a >>= f = f a
bad message >>= f = bad message

abbrev pub is_unset : Endpoint → Bool
is_unset e = e.port == 0 && is_empty e.host

abbrev pub is_partial : Endpoint → Bool
is_partial e = e.port == 0 || is_empty e.host

abbrev pub from_address : Option Endpoint → Checked (Endpoint × Endpoint)
from_address none = bad "address %s: %w"
from_address (some e) = split_legacy_controller_endpoint e

-- The endpoints to bind and to connect to that the old address stands for, where it is needed.
unfoldable pub legacy_endpoints : DesiredState → Checked (Option (Endpoint × Endpoint))
unfolding parse_endpoint split_legacy_controller_endpoint
legacy_endpoints state =
    let parsed = from_address (parse_endpoint state.controller_address) >>= λ p. good (some p) in
    if not (is_empty state.controller_address)
      && (is_partial state.mihomo_external_controller_bind
          || is_partial state.mihomo_controller_connect)
    then parsed
    else good none

abbrev pub bind_of : Option (Endpoint × Endpoint) → Endpoint → Endpoint
bind_of none bind = bind
bind_of (some legacy) bind = if is_unset bind then legacy.0 else bind

abbrev pub connect_for : Option (Endpoint × Endpoint) → Endpoint → Endpoint → Checked Endpoint
connect_for (some legacy) bind connect = good legacy.1
connect_for none bind connect =
    let split = split_legacy_controller_endpoint bind in
    if is_unset bind then good connect else (split >>= λ p. good p.1)

-- The endpoint to connect to, by the old address or by the endpoint that is bound.
unfoldable pub connect_of : Option (Endpoint × Endpoint) → Endpoint → Endpoint → Checked Endpoint
unfolding split_legacy_controller_endpoint
connect_of legacy bind connect =
    let made = connect_for legacy bind connect in if is_unset connect then made else good connect

abbrev pub panel_of : Endpoint → Endpoint
panel_of e = if is_unset e then record { host = ipv4_any; port = 2095 } else e

abbrev pub generation_of : ℤ → ℤ
generation_of (pos n) = if n == 0 then pos 1 else pos n
generation_of (negsuc n) = negsuc n

unfoldable pub normalize_legacy : DesiredState → Checked DesiredState
unfolding legacy_endpoints connect_of
normalize_legacy state = do
  legacy ← legacy_endpoints state
  let bind = bind_of legacy state.mihomo_external_controller_bind
  connect ← connect_of legacy bind state.mihomo_controller_connect
  good (record state {
    panel_ui_bind = panel_of state.panel_ui_bind;
    mihomo_external_controller_bind = bind;
    mihomo_controller_connect = connect;
    endpoint_generation = generation_of state.endpoint_generation;
  })
