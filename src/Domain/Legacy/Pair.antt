-- ===== src/Domain/Legacy/Pair.antt =====
-- What `SplitLegacyControllerEndpoint` gives (internal/domain/model.go).
use m_ui.Prelude.{
  ◌≡◌, refl, subst, true, false, not, ◌&&◌, ◌||◌, inl, inr, arith, Text, is_empty, Bool-cases, ◌==◌,
  text_eq,
}
use m_ui.Domain.Endpoint.{
  Endpoint, Checked, good, bad, ipv4_any, ipv4_loopback, ipv6_any, ipv6_loopback, at_host,
  split_legacy_controller_endpoint,
}
use m_ui.Domain.Checks.{validate_controller_endpoint_pair}
use m_ui.Domain.Legacy.{is_partial, ◌>>=◌}
use m_ui.Prelude.{[], ◌∷◌}

pub bind-good :
    {A B : Type 0} (m : Checked A) (f : A → Checked B) (b : B)
    → m >>= f ≡ good b
    → (a : A) × ((m ≡ good a) × (f a ≡ good b))
bind-good (good a) f b h = (a, (refl, h))
bind-good (bad message) f b h = cc

pub good-injective : {A : Type 0} {a b : A} → good a ≡ good b → a ≡ b
good-injective h = cc

-- A property of the value, where there is one.
abbrev pub IfGood : {A : Type 0} → (A → Type 0) → Checked A → Type 0
IfGood P (good a) = P a
IfGood P (bad message) = Unit

pub IfGood-good :
    {A : Type 0} (P : A → Type 0) (c : Checked A) (a : A) → IfGood P c → c ≡ good a → P a
IfGood-good P (good b) a h e = subst P (good-injective e) h
IfGood-good P (bad message) a h e = cc

abbrev pub Bindable : Endpoint → Endpoint × Endpoint → Type 0
Bindable e p =
    (p.0 ≡ e)
    × ((validate_controller_endpoint_pair e p.1 ≡ [])
        × ((is_partial e ≡ false) × (is_partial p.1 ≡ false)))

host_set : (h w : Text) → text_eq h w ≡ true → is_empty w ≡ false → is_empty h ≡ false
host_set [] [] e k = cc
host_set [] (d ∷ w) e k = cc
host_set (c ∷ h) w e k = refl

ipv4_pair :
    (bind connect : Endpoint)
    → (bind.port == connect.port) ≡ true
    → text_eq connect.host ipv4_loopback ≡ true
    → (text_eq bind.host ipv4_loopback || text_eq bind.host ipv4_any) ≡ true
    → validate_controller_endpoint_pair bind connect ≡ []
unfolding validate_controller_endpoint_pair
ipv4_pair bind connect h1 h2 h3 = rw h1 (rw h2 (rw h3 refl))

ipv6_pair :
    (bind connect : Endpoint)
    → (bind.port == connect.port) ≡ true
    → text_eq connect.host ipv6_loopback ≡ true
    → (text_eq bind.host ipv4_loopback || text_eq bind.host ipv4_any) ≡ false
    → (text_eq bind.host ipv6_loopback || text_eq bind.host ipv6_any) ≡ true
    → validate_controller_endpoint_pair bind connect ≡ []
unfolding validate_controller_endpoint_pair
ipv6_pair bind connect h1 h2 h3 h4 =
    let known : (not (text_eq connect.host ipv4_loopback)
          && not (text_eq connect.host ipv6_loopback))
        ≡ false =
      ground arith in
    rw h1 (rw known (rw h3 (rw h4 (rw h2 refl))))

-- What the split of an endpoint gives can be bound and connected to.
pub split_legacy_controller_endpoint-Bindable :
    (e : Endpoint) → IfGood (Bindable e) (split_legacy_controller_endpoint e)
unfolding split_legacy_controller_endpoint
split_legacy_controller_endpoint-Bindable e =
    let same : (e.port == e.port) ≡ true = ground arith in
    elim (Bool-cases (e.port == 0)) [
      | inl zero_port ↦ rw zero_port tt
      | inr port ↦ rw port (elim (Bool-cases (text_eq e.host ipv4_loopback)) [
        | inl a ↦
            let set = host_set e.host ipv4_loopback a refl in
            rw a ((refl, (ipv4_pair e e same a (ground arith), (ground arith, ground arith))))
        | inr a ↦ rw a (elim (Bool-cases (text_eq e.host ipv4_any)) [
          | inl b ↦
              let set = host_set e.host ipv4_any b refl in
              rw b (
                (
                  refl,
                  (
                    ipv4_pair e (at_host e ipv4_loopback) same refl (ground arith),
                    (ground arith, ground arith),
                  ),
                ))
          | inr b ↦ rw b (elim (Bool-cases (text_eq e.host ipv6_loopback)) [
            | inl c ↦
                let set = host_set e.host ipv6_loopback c refl in
                rw c (
                  (
                    refl,
                    (
                      ipv6_pair e e same c (ground arith) (ground arith),
                      (ground arith, ground arith),
                    ),
                  ))
            | inr c ↦ rw c (elim (Bool-cases (text_eq e.host ipv6_any)) [
              | inl d ↦
                  let set = host_set e.host ipv6_any d refl in
                  rw d (
                    (
                      refl,
                      (
                        ipv6_pair e (at_host e ipv6_loopback) same refl (ground arith)
                            (ground arith),
                        (ground arith, ground arith),
                      ),
                    ))
              | inr d ↦ rw d tt
            ])
          ])
        ])
      ])
    ]
