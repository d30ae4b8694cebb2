-- ===== src/Auth/PasswordHash/Bounds.antt =====
-- What an accepted password hash costs (internal/auth/password.go).
use m_ui.Prelude.{
  ℕ, ◌^◌, ◌-◌, ◌≡◌, refl, subst, Bool, true, false, not, ◌||◌, Option, none, some, List, [], ◌∷◌,
  if◌then◌else◌, length, Text, codes, text_eq, is_empty, has_prefix, split,
}
use m_ui.Domain.Checks.Origins.{atoi}
use m_ui.Auth.PasswordHash.{
  PasswordParams, PasswordHash, default_password_params, is_unsafe_cost, is_unsafe_length,
  is_safe_params, drop_two, is_version_19, parse_uint_field, sized, costed, from_fields, from_parts,
  parse_password_hash,
}

guard-some :
    {A : Type 0} (b : Bool) (o : Option A) (a : A)
    → (if b then none else o) ≡ some a
    → (b ≡ false) × (o ≡ some a)
guard-some true o a h = cc
guard-some false o a h = (refl, h)

some-injective : {A : Type 0} {a b : A} → some a ≡ some b → a ≡ b
some-injective h = cc

-- The parameters of new hashes are accepted.
default_password_params-safe : is_safe_params default_password_params ≡ true
unfolding is_safe_params
default_password_params-safe = refl

within-bounds :
    (cost salt key : Bool) → cost ≡ false → (salt || key) ≡ false → not (cost || salt || key) ≡ true
within-bounds true salt key c l = cc
within-bounds false true key c l = cc
within-bounds false false true c l = cc
within-bounds false false false c l = refl

sized-safe :
    (m t p : ℕ) (salt expected : Option (List ℕ)) (h : PasswordHash)
    → is_unsafe_cost m t p ≡ false
    → sized m t p salt expected ≡ some h
    → is_safe_params h.params ≡ true
unfolding is_safe_params
sized-safe m t p none expected h c e = cc
sized-safe m t p (some salt) none h c e = cc
sized-safe m t p (some salt) (some expected) h c e =
    let params : PasswordParams = record {
      memory = m;
      iterations = t;
      parallelism = p;
      salt_length = length salt;
      key_length = length expected;
    } in
    let made : PasswordHash = record { params = params; salt = salt; expected = expected } in
    let parts =
      guard-some (is_unsafe_length (length salt) || is_unsafe_length (length expected)) (some made)
        h e in
    let safe : is_safe_params params ≡ true =
      within-bounds (is_unsafe_cost m t p) (is_unsafe_length (length salt))
        (is_unsafe_length (length expected)) c parts.0 in
    subst (λ (x : PasswordHash). is_safe_params x.params ≡ true) (some-injective parts.1) safe

costed-safe :
    (m t p : Option ℕ) (salt expected : Option (List ℕ)) (h : PasswordHash)
    → costed m t p salt expected ≡ some h
    → is_safe_params h.params ≡ true
costed-safe none t p salt expected h e = cc
costed-safe (some m) none p salt expected h e = cc
costed-safe (some m) (some t) none salt expected h e = cc
costed-safe (some m) (some t) (some p) salt expected h e =
    let parts = guard-some (is_unsafe_cost m t p) (sized m t p salt expected) h e in
    sized-safe m t p salt expected h parts.0 parts.1

module _ (decode : Text → Option (List ℕ)) where
  from_fields-safe :
      (fields : List Text) (salt expected : Text) (h : PasswordHash)
      → from_fields decode fields salt expected ≡ some h
      → is_safe_params h.params ≡ true
  from_fields-safe [] salt expected h e = cc
  from_fields-safe (m ∷ []) salt expected h e = cc
  from_fields-safe (m ∷ t ∷ []) salt expected h e = cc
  from_fields-safe (m ∷ t ∷ p ∷ []) salt expected h e =
      costed-safe (parse_uint_field m (codes "m=") (2 ^ 32 - 1))
        (parse_uint_field t (codes "t=") (2 ^ 32 - 1)) (parse_uint_field p (codes "p=") 255)
        (decode salt) (decode expected) h e
  from_fields-safe (m ∷ t ∷ p ∷ q ∷ fields) salt expected h e = cc

  from_parts-safe :
      (parts : List Text) (h : PasswordHash)
      → from_parts decode parts ≡ some h
      → is_safe_params h.params ≡ true
  from_parts-safe [] h e = cc
  from_parts-safe (a ∷ []) h e = cc
  from_parts-safe (a ∷ b ∷ []) h e = cc
  from_parts-safe (a ∷ b ∷ c ∷ []) h e = cc
  from_parts-safe (a ∷ b ∷ c ∷ d ∷ []) h e = cc
  from_parts-safe (a ∷ b ∷ c ∷ d ∷ f ∷ []) h e = cc
  from_parts-safe (first ∷ algorithm ∷ version ∷ fields ∷ salt ∷ expected ∷ []) h e =
      from_fields-safe (split b',' fields) salt expected h
        (guard-some
          (not (is_empty first)
            || not (text_eq algorithm (codes "argon2id"))
            || not (has_prefix version (codes "v="))
            || not (is_version_19 (atoi (drop_two version))))
          (from_fields decode (split b',' fields) salt expected) h e).1
  from_parts-safe (a ∷ b ∷ c ∷ d ∷ f ∷ g ∷ k ∷ parts) h e = cc

  -- Every hash that is accepted has parameters that `validatePasswordParams` accepts.
  pub parse_password_hash-safe :
      (encoded : Text) (h : PasswordHash)
      → parse_password_hash decode encoded ≡ some h
      → is_safe_params h.params ≡ true
  unfolding parse_password_hash
  parse_password_hash-safe encoded h e = from_parts-safe (split b'$' encoded) h e
