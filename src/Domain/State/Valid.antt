-- ===== src/Domain/State/Valid.antt =====
-- What a validated state promises (internal/domain/validate.go).
use Prim.Native.String.{String}
use m_ui.Prelude.{
  if◌then◌else◌, ◌≡◌, refl, subst, Bool, true, false, not, ◌&&◌, ◌||◌, ◌⊎◌, inl, inr, [], ◌∷◌,
  arith, All, text_eq, ◌==◌,
}
use m_ui.Domain.Endpoint.{
  Endpoint, Checked, good, bad, ipv4_loopback, ipv4_any, ipv6_loopback, ipv6_any,
}
use m_ui.Domain.Model.{Node, DesiredState}
use m_ui.Domain.Legacy.{normalize_legacy}
use m_ui.Domain.Legacy.Normal.{normalize_legacy-steps}
use m_ui.Domain.Checks.{refuse, Library, validate_controller_endpoint_pair}
use m_ui.Domain.Nodes.{validate_node}
use m_ui.Domain.Distinct.{Passed, join-Passed, Pairs, Fresh-Pairs, Unlike}
use m_ui.Domain.State.{node_problems, state_checks, normalized_problems, validate}
use m_ui.Domain.State.Loops.{
  Apart, id_of, name_of, node_problems-Clear, node_problems-Fresh, node_problems-All,
}

-- A normalized state whose checks all passed.
abbrev pub Normalized : Library → DesiredState → DesiredState → Type 0
Normalized lib s t = (normalize_legacy s ≡ good t) × All Passed (state_checks lib t)

passed :
    (lib : Library) (c : Checked DesiredState)
    → normalized_problems lib c ≡ []
    → (t : DesiredState) × ((c ≡ good t) × All Passed (state_checks lib t))
passed lib (good t) h = (t, (refl, join-Passed (state_checks lib t) h))
passed lib (bad message) h = cc

normalize_legacy-nodes :
    (s t : DesiredState) → normalize_legacy s ≡ good t → (t.nodes ≡ s.nodes) × (t.as_of ≡ s.as_of)
normalize_legacy-nodes s t h =
    let steps = normalize_legacy-steps s t h in
    subst (λ x. (x.nodes ≡ s.nodes) × (x.as_of ≡ s.as_of)) steps.1.1.1.1 (refl, refl)

validated :
    (lib : Library) (s : DesiredState)
    → validate lib s ≡ []
    → (t : DesiredState) × Normalized lib s t
unfolding validate
validated lib s h = passed lib (normalize_legacy s) h

checked_nodes :
    (lib : Library) (s : DesiredState)
    → validate lib s ≡ []
    → node_problems lib s.as_of [] [] [] s.nodes ≡ []
unfolding state_checks
checked_nodes lib s h =
    let v = validated lib s h in
    let same = normalize_legacy-nodes s v.0 v.1.0 in
    subst (λ ns. node_problems lib s.as_of [] [] [] ns ≡ []) same.0
      (subst (λ t. node_problems lib t [] [] [] v.0.nodes ≡ []) same.1 v.1.1.1.1.1.1.1.1.1.1.0)

-- In a state without a problem no two nodes listen on one port of one address.
pub validate-Apart : (lib : Library) (s : DesiredState) → validate lib s ≡ [] → Pairs Apart s.nodes
validate-Apart lib s h =
    (node_problems-Clear lib s.as_of [] [] [] s.nodes (checked_nodes lib s h)).1

-- In a state without a problem every two nodes differ in their ids and in their names.
pub validate-Unlike :
    (lib : Library) (s : DesiredState)
    → validate lib s ≡ []
    → Pairs (Unlike id_of) s.nodes × Pairs (Unlike name_of) s.nodes
validate-Unlike lib s h =
    let fresh = node_problems-Fresh lib s.as_of [] [] [] s.nodes (checked_nodes lib s h) in
    (Fresh-Pairs id_of [] s.nodes fresh.0, Fresh-Pairs name_of [] s.nodes fresh.1)

-- In a state without a problem every node passes its check.
pub validate-nodes :
    (lib : Library) (s : DesiredState)
    → validate lib s ≡ []
    → All (λ (n : Node). validate_node lib n s.as_of ≡ []) s.nodes
validate-nodes lib s h = node_problems-All lib s.as_of [] [] [] s.nodes (checked_nodes lib s h)

-- The hosts of a bound endpoint and of the loopback address that reaches it.
abbrev pub Reaches : Endpoint → Endpoint → Type 0
Reaches connect bind =
    ((text_eq connect.host ipv4_loopback ≡ true)
      × ((text_eq bind.host ipv4_loopback || text_eq bind.host ipv4_any) ≡ true))
    ⊎ ((text_eq connect.host ipv6_loopback ≡ true)
        × ((text_eq bind.host ipv6_loopback || text_eq bind.host ipv6_any) ≡ true))

pair_outcome :
    (same c4 c6 b4 b6 : Bool) (m1 m2 m3 m4 m5 : String)
    → (if not same
        then m1 ∷ []
        else if not c4 && not c6
        then m2 ∷ []
        else if b4
        then refuse (not c4) m3
        else if b6
        then refuse (not c6) m4
        else m5 ∷ [])
      ≡ []
    → (same ≡ true) × (((c4 ≡ true) × (b4 ≡ true)) ⊎ ((c6 ≡ true) × (b6 ≡ true)))
pair_outcome false c4 c6 b4 b6 m1 m2 m3 m4 m5 h = cc
pair_outcome true false false b4 b6 m1 m2 m3 m4 m5 h = cc
pair_outcome true true c6 true b6 m1 m2 m3 m4 m5 h = (refl, inl (refl, refl))
pair_outcome true true true false true m1 m2 m3 m4 m5 h = (refl, inr (refl, refl))
pair_outcome true true false false true m1 m2 m3 m4 m5 h = cc
pair_outcome true true c6 false false m1 m2 m3 m4 m5 h = cc
pair_outcome true false true true b6 m1 m2 m3 m4 m5 h = cc
pair_outcome true false true false true m1 m2 m3 m4 m5 h = (refl, inr (refl, refl))
pair_outcome true false true false false m1 m2 m3 m4 m5 h = cc

pair-Reaches :
    (bind connect : Endpoint)
    → validate_controller_endpoint_pair bind connect ≡ []
    → (bind.port ≡ connect.port) × Reaches connect bind
unfolding validate_controller_endpoint_pair
pair-Reaches bind connect h =
    let outcome =
      pair_outcome (bind.port == connect.port) (text_eq connect.host ipv4_loopback)
        (text_eq connect.host ipv6_loopback)
        (text_eq bind.host ipv4_loopback || text_eq bind.host ipv4_any)
        (text_eq bind.host ipv6_loopback || text_eq bind.host ipv6_any)
        "mihomo external-controller bind and m-ui Controller connect ports must match"
        "m-ui Mihomo Controller connect host must be exactly 127.0.0.1 or ::1"
        "mihomo IPv4 bind %s requires m-ui Controller connect host 127.0.0.1"
        "mihomo IPv6 bind %s requires m-ui Controller connect host ::1"
        "mihomo external-controller bind host %s is not supported" h in
    let same = outcome.0 in (ground arith, outcome.1)

-- A state without a problem has a normal form, whose controller is bound and reached on one port, and
-- whose endpoint to connect to is the loopback address of the family that is bound.
pub validate-Reaches :
    (lib : Library) (s : DesiredState)
    → validate lib s ≡ []
    → (t : DesiredState) × ((normalize_legacy s ≡ good t)
        × ((t.mihomo_external_controller_bind.port ≡ t.mihomo_controller_connect.port)
            × Reaches t.mihomo_controller_connect t.mihomo_external_controller_bind))
unfolding state_checks
validate-Reaches lib s h =
    let v = validated lib s h in
    (
      v.0,
      (
        v.1.0,
        pair-Reaches v.0.mihomo_external_controller_bind v.0.mihomo_controller_connect
            v.1.1.1.1.1.1.0,
      ),
    )
