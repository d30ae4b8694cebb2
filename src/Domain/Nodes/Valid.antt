-- ===== src/Domain/Nodes/Valid.antt =====
-- What a node that passes its check promises (internal/domain/validate.go).
use Prim.Native.String.{String}
use m_ui.Domain.Protocols.{
  validate_vless, validate_vmess, validate_trojan, validate_shadowsocks, validate_hysteria2,
}
use m_ui.Prelude.{
  ℕ, ◌≤◌, ◌<◌, ◌≡◌, refl, ◌∙◌, sym, Bool, true, false, ◌&&◌, ◌⊎◌, inl, inr, Option, none, some,
  List, [], ◌∷◌, arith, All, length, keep, ltb, ◌==◌, Bool-cases,
}
use m_ui.Domain.Model.{
  ProtocolKind, vless, hysteria2, vmess, trojan, shadowsocks, other, AccessProfile, Node,
  effective_users, first_default, default_access_profile,
}
use m_ui.Domain.Checks.{Problems, Library, is_set}
use m_ui.Domain.Nodes.{
  protocol_spec_count, is_shadowsocks, is_default_of, default_problems, checked_spec, spec_problems,
  node_parts, validate_node,
}
use m_ui.Domain.Distinct.{Passed, join-Passed, refuse-nil}

pub parts :
    (lib : Library) (n : Node) (as_of : ℕ)
    → validate_node lib n as_of ≡ []
    → All Passed (node_parts lib n as_of)
unfolding validate_node
parts lib n as_of h = join-Passed (node_parts lib n as_of) h

one_default :
    (profiles : List AccessProfile)
    → default_problems profiles ≡ []
    → length (keep is_default_of profiles) ≡ 1
one_default profiles h = ground arith

first_default-keep :
    (profiles : List AccessProfile)
    → 0 < length (keep is_default_of profiles)
    → (profile : AccessProfile) × ((first_default profiles ≡ some profile)
        × (profile.is_default ≡ true))
first_default-keep [] h = absurd (omega arith)
first_default-keep (profile ∷ profiles) h = elim (Bool-cases profile.is_default) [
  | inl e ↦ (profile, (rw e refl, e))
  | inr e ↦
      let rest = first_default-keep profiles (ground arith) in (rest.0, (rw e rest.1.0, rest.1.1))
]

-- A node without a problem has exactly one default access profile, and `DefaultAccessProfile` finds
-- one.
pub validate_node-default_access_profile :
    (lib : Library) (n : Node) (as_of : ℕ)
    → validate_node lib n as_of ≡ []
    → (length (keep is_default_of n.access_profiles) ≡ 1)
      × ((profile : AccessProfile) × ((default_access_profile n ≡ some profile)
            × (profile.is_default ≡ true)))
unfolding node_parts default_access_profile
validate_node-default_access_profile lib n as_of h =
    let all = parts lib n as_of h in
    let count = one_default n.access_profiles all.1.1.1.1.1.1.1.1.1.1.1.0 in
    (count, first_default-keep n.access_profiles (omega (arith, count)))

-- A node without a problem that is enabled has a user who may use it, and a Shadowsocks node has one at
-- most.
pub validate_node-effective_users :
    (lib : Library) (n : Node) (as_of : ℕ)
    → validate_node lib n as_of ≡ []
    → ((n.enabled ≡ false) ⊎ (0 < length (effective_users as_of n)))
      × ((is_shadowsocks n.protocol ≡ false) ⊎ (length (effective_users as_of n) ≤ 1))
unfolding node_parts
validate_node-effective_users lib n as_of h =
    let all = parts lib n as_of h in
    let some_user =
      refuse-nil (n.enabled && length (effective_users as_of n) == 0)
        "enabled node must have at least one enabled, unexpired user" all.1.1.1.1.1.1.1.0 in
    let one_user =
      refuse-nil (is_shadowsocks n.protocol && ltb 1 (length (effective_users as_of n)))
        "mihomo Shadowsocks listener supports exactly one effective user" all.1.1.1.1.1.1.1.1.0 in
    (ground arith, ground arith)

-- The specification of the protocol is set.
abbrev pub has_spec : ProtocolKind → Node → Bool
has_spec vless n = is_set n.vless_spec
has_spec hysteria2 n = is_set n.hysteria2_spec
has_spec vmess n = is_set n.vmess_spec
has_spec trojan n = is_set n.trojan_spec
has_spec shadowsocks n = is_set n.shadowsocks_spec
has_spec (other name) n = false

checked_spec-set :
    {S : Type 0} (k : ℕ) (o : Option S) (check : S → Problems) (message : String)
    → checked_spec k o check (message ∷ []) ≡ []
    → (is_set o ≡ true) × (k ≡ 1)
checked_spec-set k none check message h = cc
checked_spec-set k (some spec) check message h = elim (Bool-cases (k == 1)) [
  | inl e ↦ (refl, ground arith)
  | inr e ↦
      let missing : checked_spec k (some spec) check (message ∷ []) ≡ message ∷ [] = rw e refl in
      let clash : message ∷ [] ≡ [] = sym missing ∙ h in cc
]

spec_problems-has_spec :
    (lib : Library) (kind : ProtocolKind) (n : Node)
    → spec_problems lib kind n ≡ []
    → (has_spec kind n ≡ true) × (protocol_spec_count n ≡ 1)
spec_problems-has_spec lib vless n h =
    checked_spec-set (protocol_spec_count n) n.vless_spec (validate_vless lib)
      "VLESS node must contain only a VLESS protocol specification" h
spec_problems-has_spec lib hysteria2 n h =
    checked_spec-set (protocol_spec_count n) n.hysteria2_spec (validate_hysteria2 lib)
      "hysteria2 node must contain only a Hysteria2 protocol specification" h
spec_problems-has_spec lib vmess n h =
    checked_spec-set (protocol_spec_count n) n.vmess_spec (validate_vmess lib)
      "vmess node must contain only a VMess protocol specification" h
spec_problems-has_spec lib trojan n h =
    checked_spec-set (protocol_spec_count n) n.trojan_spec (validate_trojan lib)
      "trojan node must contain only a Trojan protocol specification" h
spec_problems-has_spec lib shadowsocks n h =
    checked_spec-set (protocol_spec_count n) n.shadowsocks_spec (validate_shadowsocks lib)
      "shadowsocks node must contain only a Shadowsocks protocol specification" h
spec_problems-has_spec lib (other name) n h = cc

-- A node without a problem has the specification of its protocol and no other one.
pub validate_node-has_spec :
    (lib : Library) (n : Node) (as_of : ℕ)
    → validate_node lib n as_of ≡ []
    → (has_spec n.protocol n ≡ true) × (protocol_spec_count n ≡ 1)
unfolding node_parts
validate_node-has_spec lib n as_of h =
    spec_problems-has_spec lib n.protocol n (parts lib n as_of h).1.1.1.1.1.0
