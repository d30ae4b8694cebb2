-- ===== src/Domain/State.antt =====
-- `DesiredState.Validate` of internal/domain/validate.go.
pub mod Loops
pub mod Valid
use m_ui.Prelude.{
  ℕ, Bool, true, false, not, ◌&&◌, ◌||◌, Option, none, some, List, [], ◌∷◌, ◌++◌, ◌==◌,
  if◌then◌else◌, Text, text_eq, is_blank, one_of,
}
use m_ui.Domain.Ports.{PortRange, Parsed, ok, err, parse_port_ranges, ranges_overlap}
use m_ui.Domain.Endpoint.{Checked, good, bad}
use m_ui.Domain.Model.{Node, DesiredState}
use m_ui.Domain.Legacy.{normalize_legacy}
use m_ui.Domain.Checks.{
  Problems, refuse, join, Library, validate_bind_endpoint, validate_connect_endpoint,
  validate_controller_endpoint_pair, validate_host,
}
use m_ui.Domain.Checks.Origins.{validate_cors_origins}
use m_ui.Domain.Security.{concat_map}
use m_ui.Domain.Nodes.{validate_node}

pub record BoundRange : Type 0 where
  pub address : Text
  pub range : PortRange
  pub name : Text

abbrev pub accepted : Parsed (List PortRange) → List PortRange
accepted (ok ranges) = ranges
accepted (err e) = []

-- The ranges of a node, none where its port text is refused.
abbrev pub ranges_of : Node → List PortRange
ranges_of node = accepted (parse_port_ranges node.port)

abbrev pub conflict : Text → PortRange → BoundRange → Problems
conflict address current previous =
    refuse (text_eq previous.address address && ranges_overlap previous.range current)
      "%s port range conflicts with node %q"

-- The loop over the ranges of a node: the conflicts with the ranges bound before, and those bound
-- after it.
abbrev pub bind_ranges : Text → Text → List PortRange → List BoundRange → Problems × List BoundRange
bind_ranges name address [] bound = ([], bound)
bind_ranges name address (current ∷ ranges) bound =
    let entry : BoundRange = record { address = address; range = current; name = name } in
    let rest = bind_ranges name address ranges (bound ++ (entry ∷ [])) in
    (concat_map (conflict address current) bound ++ rest.0, rest.1)

module _ (lib : Library) where
  -- The checks of one node, with the ids, the names and the ranges seen so far.
  unfoldable pub node_checks : ℕ → List Text → List Text → List BoundRange → Node → List Problems
  node_checks as_of ids names bound node =
      refuse (one_of node.id ids) "%s ID is duplicated"
      ∷ refuse (one_of node.name names) "%s name is duplicated"
      ∷ (bind_ranges node.name node.listen_address (ranges_of node) bound).0
      ∷ validate_node lib node as_of
      ∷ []

  -- The loop over the nodes.
  unfoldable pub node_problems : ℕ → List Text → List Text → List BoundRange → List Node → Problems
  unfolding node_checks
  node_problems as_of ids names bound [] = []
  node_problems as_of ids names bound (node ∷ nodes) =
      let ports = bind_ranges node.name node.listen_address (ranges_of node) bound in
      join (node_checks as_of ids names bound node)
      ++ node_problems as_of (node.id ∷ ids) (node.name ∷ names) ports.1 nodes

  unfoldable pub state_checks : DesiredState → List Problems
  unfolding node_problems
  state_checks s =
      refuse (s.as_of == 0) "state as-of time is required"
      ∷ validate_bind_endpoint lib s.panel_ui_bind
      ∷ validate_bind_endpoint lib s.mihomo_external_controller_bind
      ∷ validate_connect_endpoint lib s.mihomo_controller_connect
      ∷ validate_controller_endpoint_pair s.mihomo_external_controller_bind
          s.mihomo_controller_connect
      ∷ validate_cors_origins lib s.external_controller_cors_origins
      ∷ refuse (is_blank s.controller_secret) "controller secret is required"
      ∷ validate_host lib s.public_host true
      ∷ node_problems s.as_of [] [] [] s.nodes
      ∷ []

  abbrev pub normalized_problems : Checked DesiredState → Problems
  normalized_problems (good state) = join (state_checks state)
  normalized_problems (bad message) = "controller endpoint is invalid: %w" ∷ []

  unfoldable pub validate : DesiredState → Problems
  unfolding normalize_legacy state_checks
  validate state = normalized_problems (normalize_legacy state)
