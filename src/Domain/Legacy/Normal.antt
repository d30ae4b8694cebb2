-- ===== src/Domain/Legacy/Normal.antt =====
-- Normalization of old endpoints (internal/domain/model.go).
use m_ui.Prelude.{
  ◌≡◌, refl, ◌∙◌, sym, subst, ap, Bool, true, false, not, ◌&&◌, ◌||◌, inl, inr, Option, none, some,
  arith, is_empty, Bool-cases, ◌==◌, if◌then◌else◌, ℤ, pos, negsuc,
}
use m_ui.Domain.Endpoint.{
  Endpoint, Checked, good, bad, parse_endpoint, split_legacy_controller_endpoint,
}
use m_ui.Domain.Model.{DesiredState}
use m_ui.Domain.Legacy.{
  is_unset, is_partial, from_address, legacy_endpoints, bind_of, connect_of, panel_of,
  generation_of, normalize_legacy, ◌>>=◌,
}
use m_ui.Domain.Legacy.Pair.{
  bind-good, good-injective, IfGood-good, Bindable, split_legacy_controller_endpoint-Bindable,
}

abbrev pub normalized : DesiredState → Option (Endpoint × Endpoint) → Endpoint → DesiredState
normalized s legacy connect = record s {
  panel_ui_bind = panel_of s.panel_ui_bind;
  mihomo_external_controller_bind = bind_of legacy s.mihomo_external_controller_bind;
  mihomo_controller_connect = connect;
  endpoint_generation = generation_of s.endpoint_generation;
}

-- A successful normalization, by its two steps.
pub normalize_legacy-steps :
    (s t : DesiredState)
    → normalize_legacy s ≡ good t
    → (legacy : Option (Endpoint × Endpoint)) × ((connect : Endpoint) × ((legacy_endpoints s
            ≡ good legacy)
          × ((connect_of legacy
                  (bind_of legacy s.mihomo_external_controller_bind)
                  s.mihomo_controller_connect
                ≡ good connect)
              × (normalized s legacy connect ≡ t))))
unfolding normalize_legacy
normalize_legacy-steps s t h =
    let first =
      bind-good (legacy_endpoints s)
        (λ legacy.
          connect_of legacy (bind_of legacy s.mihomo_external_controller_bind)
            s.mihomo_controller_connect
          >>= λ connect. good (normalized s legacy connect))
        t h in
    let second =
      bind-good
        (connect_of first.0 (bind_of first.0 s.mihomo_external_controller_bind)
          s.mihomo_controller_connect)
        (λ connect. good (normalized s first.0 connect)) t first.1.1 in
    (first.0, (second.0, (first.1.0, (second.1.0, good-injective second.1.1))))

panel_of-panel_of : (e : Endpoint) → panel_of (panel_of e) ≡ panel_of e
panel_of-panel_of e = elim (Bool-cases (is_unset e)) [
  | inl h ↦ rw h refl
  | inr h ↦ let same : panel_of e ≡ e = rw h refl in ap panel_of same
]

generation_of-generation_of : (g : ℤ) → generation_of (generation_of g) ≡ generation_of g
generation_of-generation_of (pos n) = elim (Bool-cases (n == 0)) [
  | inl h ↦ rw h refl
  | inr h ↦ let same : generation_of (pos n) ≡ pos n = rw h refl in ap generation_of same
]
generation_of-generation_of (negsuc n) = refl

-- A state that no step changes.
normalize_legacy-fixed :
    (t : DesiredState) (legacy : Option (Endpoint × Endpoint))
    → legacy_endpoints t ≡ good legacy
    → bind_of legacy t.mihomo_external_controller_bind ≡ t.mihomo_external_controller_bind
    → connect_of legacy t.mihomo_external_controller_bind t.mihomo_controller_connect
      ≡ good t.mihomo_controller_connect
    → panel_of t.panel_ui_bind ≡ t.panel_ui_bind
    → generation_of t.endpoint_generation ≡ t.endpoint_generation
    → normalize_legacy t ≡ good t
unfolding normalize_legacy
normalize_legacy-fixed t legacy l b c p g = rw l (rw b (rw c (rw p (rw g refl))))

bind_of-set :
    (legacy : Option (Endpoint × Endpoint)) (bind : Endpoint)
    → is_unset bind ≡ false
    → bind_of legacy bind ≡ bind
bind_of-set none bind h = refl
bind_of-set (some p) bind h = rw h refl

connect_of-set :
    (legacy : Option (Endpoint × Endpoint)) (bind connect : Endpoint)
    → is_unset connect ≡ false
    → connect_of legacy bind connect ≡ good connect
unfolding connect_of
connect_of-set legacy bind connect h = rw h refl

-- Where the old address is needed, it stands for two endpoints that are complete.
abbrev needs_address : DesiredState → Bool
needs_address s =
    not (is_empty s.controller_address)
    && (is_partial s.mihomo_external_controller_bind || is_partial s.mihomo_controller_connect)

is_partial-is_unset : (e : Endpoint) → is_partial e ≡ false → is_unset e ≡ false
is_partial-is_unset e h = ground arith

address_pair :
    (o : Option Endpoint) (p : Endpoint × Endpoint)
    → from_address o ≡ good p
    → (is_unset p.0 ≡ false) × (is_unset p.1 ≡ false)
address_pair none p h = cc
address_pair (some e) p h =
    let b : Bindable e p =
      IfGood-good (Bindable e) (split_legacy_controller_endpoint e) p
        (split_legacy_controller_endpoint-Bindable e) h in
    (
      subst (λ x. is_unset x ≡ false) (sym b.0) (is_partial-is_unset e b.1.1.0),
      is_partial-is_unset p.1 b.1.1.1,
    )

abbrev chosen : Bool → Checked (Endpoint × Endpoint) → Checked (Option (Endpoint × Endpoint))
chosen b c = if b then (c >>= λ p. good (some p)) else good none

chosen-some :
    (b : Bool) (c : Checked (Endpoint × Endpoint)) (p : Endpoint × Endpoint)
    → chosen b c ≡ good (some p)
    → c ≡ good p
chosen-some true (good q) p h = cc
chosen-some true (bad message) p h = cc
chosen-some false c p h = cc

chosen-none : (b : Bool) (c : Checked (Endpoint × Endpoint)) → chosen b c ≡ good none → b ≡ false
chosen-none true (good q) h = cc
chosen-none true (bad message) h = cc
chosen-none false c h = refl

legacy_endpoints-some :
    (s : DesiredState) (p : Endpoint × Endpoint)
    → legacy_endpoints s ≡ good (some p)
    → from_address (parse_endpoint s.controller_address) ≡ good p
unfolding legacy_endpoints
legacy_endpoints-some s p h =
    chosen-some (needs_address s) (from_address (parse_endpoint s.controller_address)) p h

-- With two complete endpoints nothing but what the old address says is looked at.
legacy_endpoints-again :
    (s t : DesiredState) (p : Endpoint × Endpoint)
    → legacy_endpoints s ≡ good (some p)
    → t.controller_address ≡ s.controller_address
    → (legacy : Option (Endpoint × Endpoint)) × (legacy_endpoints t ≡ good legacy)
unfolding legacy_endpoints
legacy_endpoints-again s t p h same =
    let parsed = legacy_endpoints-some s p h in
    elim (Bool-cases (needs_address t)) [
      | inl e ↦ (some p, rw e (rw same (rw parsed refl)))
      | inr e ↦ (none, rw e refl)
    ]

-- An endpoint to bind that is set gives one to connect to that is set.
connect_of-none :
    (bind connect new : Endpoint)
    → is_unset bind ≡ false
    → connect_of none bind connect ≡ good new
    → is_unset new ≡ false
unfolding connect_of
connect_of-none bind connect new nb h = elim (Bool-cases (is_unset connect)) [
  | inl e ↦
      let made : connect_of none bind connect
          ≡ (split_legacy_controller_endpoint bind >>= λ p. good p.1) =
        rw e (rw nb refl) in
      let split =
        bind-good (split_legacy_controller_endpoint bind) (λ p. good p.1) new (sym made ∙ h) in
      let b : Bindable bind split.0 =
        IfGood-good (Bindable bind) (split_legacy_controller_endpoint bind) split.0
          (split_legacy_controller_endpoint-Bindable bind) split.1.0 in
      subst (λ x. is_unset x ≡ false) (good-injective split.1.1)
        (is_partial-is_unset split.0.1 b.1.1.1)
  | inr e ↦
      let kept : connect_of none bind connect ≡ good connect = rw e refl in
      subst (λ x. is_unset x ≡ false) (good-injective (sym kept ∙ h)) e
]

settled_connect :
    (bind connect new : Endpoint)
    → connect_of none bind connect ≡ good new
    → connect_of none bind new ≡ good new
unfolding connect_of
settled_connect bind connect new h = elim (Bool-cases (is_unset new)) [
  | inr e ↦ connect_of-set none bind new e
  | inl e ↦ elim (Bool-cases (is_unset bind)) [
    | inl nb ↦ rw e (rw nb refl)
    | inr nb ↦ let clash : true ≡ false = sym e ∙ connect_of-none bind connect new nb h in cc
  ]
]

-- With the old address, both endpoints of the new state are set.
bind_of-some :
    (p : Endpoint × Endpoint) (bind : Endpoint)
    → is_unset p.0 ≡ false
    → is_unset (bind_of (some p) bind) ≡ false
bind_of-some p bind h = elim (Bool-cases (is_unset bind)) [ inl e ↦ rw e h | inr e ↦ rw e e ]

connect_of-some :
    (p : Endpoint × Endpoint) (bind connect new : Endpoint)
    → is_unset p.1 ≡ false
    → connect_of (some p) bind connect ≡ good new
    → is_unset new ≡ false
unfolding connect_of
connect_of-some p bind connect new h k = elim (Bool-cases (is_unset connect)) [
  | inl e ↦
      let made : connect_of (some p) bind connect ≡ good p.1 = rw e refl in
      subst (λ x. is_unset x ≡ false) (good-injective (sym made ∙ k)) h
  | inr e ↦
      let kept : connect_of (some p) bind connect ≡ good connect = rw e refl in
      subst (λ x. is_unset x ≡ false) (good-injective (sym kept ∙ k)) e
]

legacy_endpoints-settled :
    (s : DesiredState) (connect : Endpoint)
    → legacy_endpoints s ≡ good none
    → connect_of none s.mihomo_external_controller_bind s.mihomo_controller_connect ≡ good connect
    → legacy_endpoints (normalized s none connect) ≡ good none
unfolding legacy_endpoints connect_of
legacy_endpoints-settled s connect l c =
    let bind = s.mihomo_external_controller_bind in
    let idle =
      chosen-none (needs_address s) (from_address (parse_endpoint s.controller_address)) l in
    elim (Bool-cases (is_unset s.mihomo_controller_connect)) [
      | inl e ↦
          let idle_again : needs_address (normalized s none connect) ≡ false = ground arith in
          rw idle_again refl
      | inr e ↦
          let kept : connect_of none bind s.mihomo_controller_connect
              ≡ good s.mihomo_controller_connect =
            rw e refl in
          subst (λ x. legacy_endpoints (normalized s none x) ≡ good none)
            (good-injective (sym kept ∙ c)) (rw idle refl)
    ]

normalized-idempotent :
    (s : DesiredState) (legacy : Option (Endpoint × Endpoint)) (connect : Endpoint)
    → legacy_endpoints s ≡ good legacy
    → connect_of legacy
        (bind_of legacy s.mihomo_external_controller_bind)
        s.mihomo_controller_connect
      ≡ good connect
    → normalize_legacy (normalized s legacy connect) ≡ good (normalized s legacy connect)
normalized-idempotent s none connect l c =
    normalize_legacy-fixed (normalized s none connect) none (legacy_endpoints-settled s connect l c)
      refl (settled_connect s.mihomo_external_controller_bind s.mihomo_controller_connect connect c)
      (panel_of-panel_of s.panel_ui_bind) (generation_of-generation_of s.endpoint_generation)
normalized-idempotent s (some p) connect l c =
    let t = normalized s (some p) connect in
    let pair = address_pair (parse_endpoint s.controller_address) p (legacy_endpoints-some s p l) in
    let again = legacy_endpoints-again s t p l refl in
    let bind_set = bind_of-some p s.mihomo_external_controller_bind pair.0 in
    normalize_legacy-fixed t again.0 again.1
      (bind_of-set again.0 t.mihomo_external_controller_bind bind_set)
      (connect_of-set again.0 t.mihomo_external_controller_bind connect (
        connect_of-some p t.mihomo_external_controller_bind s.mihomo_controller_connect connect
          pair.1 c))
      (panel_of-panel_of s.panel_ui_bind) (generation_of-generation_of s.endpoint_generation)

-- A state that was normalized is normal.
pub normalize_legacy-idempotent :
    (s t : DesiredState) → normalize_legacy s ≡ good t → normalize_legacy t ≡ good t
normalize_legacy-idempotent s t h =
    let steps = normalize_legacy-steps s t h in
    subst (λ x. normalize_legacy x ≡ good x) steps.1.1.1.1
      (normalized-idempotent s steps.0 steps.1.0 steps.1.1.0 steps.1.1.1.0)
