-- ===== src/Domain/Security.antt =====
-- The checks of a listener's security (internal/domain/validate.go).
use m_ui.Prelude.{
  ℕ, Bool, false, not, ◌&&◌, ◌||◌, Option, none, some, List, [], ◌∷◌, ◌++◌, ◌+◌, ◌==◌,
  if◌then◌else◌, length, Text, text_eq, is_empty, is_blank, trim_space, one_of, ℤ, pos, negsuc, ltℤ,
}
use m_ui.Domain.Model.Stream.{
  SecurityKind, no_security, tls, reality, shadow_tls, res_tls, jls, other_security, TlsConfig,
  RealityConfig, ShadowTlsUser, ShadowTlsHandshake, ShadowTlsConfig, ResTlsConfig, JlsUser,
  JlsConfig, SecuritySpec,
}
use m_ui.Domain.Checks.{
  Problems, refuse, among, Library, is_set, validate_short_id, validate_name, validate_string_list,
  validate_reality_key, validate_host, validate_destination,
}

abbrev pub count : List Bool → ℕ
count [] = 0
count (b ∷ bs) = let rest = count bs in if b then 1 + rest else rest

abbrev pub security_count : SecuritySpec → ℕ
security_count s = count (
    is_set s.tls_config
    ∷ is_set s.reality_config
    ∷ is_set s.shadow_tls_config
    ∷ is_set s.res_tls_config
    ∷ is_set s.jls_config
    ∷ [])

abbrev pub concat_map : {A : Type 0} → (A → Problems) → List A → Problems
concat_map f [] = []
concat_map f (x ∷ xs) = f x ++ concat_map f xs

abbrev pub is_version : ℤ → ℕ → Bool
is_version (pos m) n = m == n
is_version (negsuc m) n = false

-- The users, each with the names before it.
abbrev pub shadow_tls_users : List Text → List ShadowTlsUser → Problems
shadow_tls_users seen [] = []
shadow_tls_users seen (user ∷ users) =
    validate_name user.name
    ++ (refuse (is_blank user.password) "shadowTLS user %d password is required"
        ++ (refuse (one_of user.name seen) "shadowTLS user %q is duplicated"
            ++ shadow_tls_users (user.name ∷ seen) users))

abbrev pub jls_users : List Text → List JlsUser → Problems
jls_users seen [] = []
jls_users seen (user ∷ users) =
    validate_name user.username
    ++ (refuse (is_blank user.password) "JLS user %d password is required"
        ++ (refuse (one_of user.username seen) "JLS user %q is duplicated"
            ++ jls_users (user.username ∷ seen) users))

module _ (lib : Library) where
  abbrev pub server_handshakes : List (Text × ShadowTlsHandshake) → Problems
  server_handshakes [] = []
  server_handshakes ((server_name, handshake) ∷ entries) =
      refuse (is_blank server_name || not (text_eq server_name (trim_space server_name)))
        "shadowTLS handshake server name is required and must not have surrounding whitespace"
      ++ (validate_destination lib handshake.destination ++ server_handshakes entries)

  abbrev pub shadow_tls_handshake : ShadowTlsConfig → Problems
  shadow_tls_handshake config =
      let destination = config.handshake.destination in
      let wildcard = among config.wildcard_sni ("authed" ∷ "all" ∷ []) in
      if is_blank destination && (ltℤ config.version (pos 3) || not wildcard)
      then "shadowTLS handshake destination is required" ∷ []
      else if is_empty destination
      then []
      else validate_destination lib destination

  unfoldable pub validate_shadow_tls : ShadowTlsConfig → Problems
  unfolding validate_name validate_destination trim_space
  validate_shadow_tls config =
      refuse (ltℤ config.version (pos 1) || ltℤ (pos 3) config.version)
        "shadowTLS version must be 1 to 3"
      ++ (refuse (is_version config.version 2 && is_blank config.password)
            "shadowTLS version 2 password is required"
          ++ (refuse (is_version config.version 3 && length config.users == 0)
                "shadowTLS version 3 requires at least one user"
              ++ (shadow_tls_handshake config
                  ++ (refuse
                        (not (is_empty config.wildcard_sni)
                          && not (among config.wildcard_sni ("off" ∷ "authed" ∷ "all" ∷ [])))
                        "shadowTLS wildcard SNI must be off, authed, or all"
                      ++ (shadow_tls_users [] config.users
                          ++ server_handshakes config.handshake_for_server_name)))))

  unfoldable pub validate_jls : JlsConfig → Problems
  unfolding validate_name validate_destination validate_string_list trim_space
  validate_jls config =
      validate_destination lib config.destination
      ++ (refuse (length config.users == 0) "JLS requires at least one user"
          ++ (jls_users [] config.users ++ validate_string_list config.alpn))

  unfoldable pub validate_reality : RealityConfig → Problems
  unfolding validate_destination validate_reality_key validate_short_id validate_host
  validate_reality config =
      validate_destination lib config.destination
      ++ (validate_reality_key lib config.private_key
          ++ (validate_reality_key lib config.public_key
              ++ (refuse (length config.short_ids == 0 || length config.server_names == 0)
                    "REALITY requires at least one short ID and server name"
                  ++ (concat_map validate_short_id config.short_ids
                      ++ concat_map (λ (name : Text). validate_host lib name false)
                          config.server_names))))

  -- Each security with its configuration, where no other one is set.
  abbrev pub tls_problems : Option TlsConfig → Problems
  tls_problems none = "TLS security must contain only TLS configuration" ∷ []
  tls_problems (some config) =
      refuse (is_blank config.certificate || is_blank config.private_key)
        "TLS certificate and private key are required"

  abbrev pub reality_problems : Option RealityConfig → Problems
  reality_problems none = "REALITY security must contain only REALITY configuration" ∷ []
  reality_problems (some config) = validate_reality config

  abbrev pub shadow_tls_problems : Option ShadowTlsConfig → Problems
  shadow_tls_problems none = "shadowTLS security must contain only ShadowTLS configuration" ∷ []
  shadow_tls_problems (some config) = validate_shadow_tls config

  abbrev pub res_tls_problems : Option ResTlsConfig → Problems
  res_tls_problems none = "resTLS security must contain only ResTLS configuration" ∷ []
  res_tls_problems (some config) =
      if is_blank config.destination || is_blank config.password
      then "resTLS destination and password are required" ∷ []
      else refuse
          (not (is_empty config.version_hint)
            && not (among config.version_hint ("tls12" ∷ "tls13" ∷ [])))
          "resTLS version hint must be tls12 or tls13"

  abbrev pub jls_problems : Option JlsConfig → Problems
  jls_problems none = "JLS security must contain only JLS configuration" ∷ []
  jls_problems (some config) = validate_jls config

  -- The configuration of a security, absent too where another one is set.
  abbrev pub only : {A : Type 0} → SecuritySpec → Option A → Option A
  only spec config = if security_count spec == 1 then config else none

  abbrev pub security_of_kind : SecurityKind → SecuritySpec → Problems
  security_of_kind no_security spec =
      refuse (not (security_count spec == 0))
        "none security must not include a security configuration"
  security_of_kind tls spec = tls_problems (only spec spec.tls_config)
  security_of_kind reality spec = reality_problems (only spec spec.reality_config)
  security_of_kind shadow_tls spec = shadow_tls_problems (only spec spec.shadow_tls_config)
  security_of_kind res_tls spec = res_tls_problems (only spec spec.res_tls_config)
  security_of_kind jls spec = jls_problems (only spec spec.jls_config)
  security_of_kind (other_security name) spec = "unsupported VLESS security %q" ∷ []

  -- The second `switch` of `validateVLESS`.
  unfoldable pub validate_security : SecuritySpec → Problems
  unfolding validate_reality validate_shadow_tls validate_jls trim_space
  validate_security spec = security_of_kind spec.kind spec
