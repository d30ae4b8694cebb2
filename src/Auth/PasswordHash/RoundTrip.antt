-- ===== src/Auth/PasswordHash/RoundTrip.antt =====
-- A password hash verifies the password that it was made of (internal/auth/password.go).
use m_ui.Prelude.{
  All, ℕ, suc, ◌^◌, ◌-◌, ◌<◌, ◌≤◌, ◌≡◌, refl, ◌∙◌, ap, Bool, true, false, not, ◌&&◌, ◌||◌, Option,
  some, List, [], ◌∷◌, ◌++◌, leb, ◌==◌, arith, length, Text, codes, text_eq_refl, split,
  split_first, digits, all_digits-digits, parse_uint, parse_uint-digits,
}
use m_ui.Domain.Endpoint.{contains}
use m_ui.Domain.Endpoint.Address.{contains-digits}
use m_ui.Domain.Checks.Origins.{atoi}
use m_ui.Auth.PasswordHash.{
  PasswordParams, Library, is_unsafe_cost, is_unsafe_length, is_safe_params, parse_uint_field,
  sized, from_fields, from_parts, parse_password_hash, field, printed_fields, printed_hash, derived,
  hash_password, compared, verify_password,
}

contains-append :
    (c : ℕ) (s t : Text) → contains c s ≡ false → contains c t ≡ false → contains c (s ++ t) ≡ false
contains-append c [] t h k = k
contains-append c (x ∷ s) t h k = ground (arith, contains-append c s t)

split_first-append :
    (c : ℕ) (s t : Text) → contains c s ≡ false → split_first c (s ++ (c ∷ t)) ≡ (s, split c t)
unfolding split split_first
split_first-append c [] t h = ground arith
split_first-append c (x ∷ s) t h =
    let other : (x == c) ≡ false = ground arith in
    rw other (rw (split_first-append c s t (ground arith)) refl)

split-append : (c : ℕ) (s t : Text) → contains c s ≡ false → split c (s ++ (c ∷ t)) ≡ s ∷ split c t
unfolding split
split-append c s t h = rw (split_first-append c s t h) refl

split_first-plain : (c : ℕ) (s : Text) → contains c s ≡ false → split_first c s ≡ (s, [])
unfolding split_first
split_first-plain c [] h = refl
split_first-plain c (x ∷ s) h =
    let other : (x == c) ≡ false = ground arith in
    rw other (rw (split_first-plain c s (ground arith)) refl)

split-plain : (c : ℕ) (s : Text) → contains c s ≡ false → split c s ≡ s ∷ []
unfolding split
split-plain c s h = rw (split_first-plain c s h) refl

contains-field :
    (c name fuel n : ℕ)
    → (name == c) ≡ false
    → (b'=' == c) ≡ false
    → (leb b'0' c && leb c b'9') ≡ false
    → contains c (field name fuel n) ≡ false
contains-field c name fuel n h k d =
    ground (arith, contains-digits c (digits fuel n []) d (all_digits-digits fuel n [] refl))

parse_uint_field-field :
    (name max fuel n : ℕ)
    → n < 10 ^ suc fuel
    → n ≤ max
    → parse_uint_field (field name (suc fuel) n) (name ∷ b'=' ∷ []) max ≡ some n
unfolding parse_uint_field
parse_uint_field-field name max fuel n h k = rw (parse_uint-digits max fuel n h k) (ground arith)

split-printed_fields :
    (p : PasswordParams)
    → split b',' (printed_fields p)
      ≡ field b'm' 10 p.memory ∷ field b't' 10 p.iterations ∷ field b'p' 3 p.parallelism ∷ []
split-printed_fields p =
    split-append b',' (field b'm' 10 p.memory) _
      (contains-field b',' b'm' 10 p.memory refl refl refl)
    ∙ ap (λ l. field b'm' 10 p.memory ∷ l)
        (split-append b',' (field b't' 10 p.iterations) _
            (contains-field b',' b't' 10 p.iterations refl refl refl)
          ∙ ap (λ l. field b't' 10 p.iterations ∷ l)
              (split-plain b',' (field b'p' 3 p.parallelism)
                (contains-field b',' b'p' 3 p.parallelism refl refl refl)))

contains-printed_fields : (p : PasswordParams) → contains b'$' (printed_fields p) ≡ false
contains-printed_fields p =
    contains-append b'$' (field b'm' 10 p.memory) _
      (contains-field b'$' b'm' 10 p.memory refl refl refl)
      (contains-append b'$' (b',' ∷ field b't' 10 p.iterations) _
        (contains-field b'$' b't' 10 p.iterations refl refl refl)
        (contains-field b'$' b'p' 3 p.parallelism refl refl refl))

split-printed_hash :
    (p : PasswordParams) (salt hash : Text)
    → contains b'$' salt ≡ false
    → contains b'$' hash ≡ false
    → split b'$' (printed_hash p salt hash)
      ≡ [] ∷ codes "argon2id" ∷ field b'v' 2 19 ∷ printed_fields p ∷ salt ∷ hash ∷ []
unfolding printed_hash
split-printed_hash p salt hash h k =
    split-append b'$' [] _ refl
    ∙ ap (λ l. [] ∷ l)
        (split-append b'$' (codes "argon2id") _ refl
          ∙ ap (λ l. codes "argon2id" ∷ l)
              (split-append b'$' (field b'v' 2 19) _ (contains-field b'$' b'v' 2 19 refl refl refl)
                ∙ ap (λ l. field b'v' 2 19 ∷ l)
                    (split-append b'$' (printed_fields p) _ (contains-printed_fields p)
                      ∙ ap (λ l. printed_fields p ∷ l)
                          (split-append b'$' salt hash h
                            ∙ ap (λ l. salt ∷ l) (split-plain b'$' hash k)))))

-- Every element is a byte.
abbrev pub IsBytes : List ℕ → Type 0
IsBytes = All (λ b. b < 256)

parse-fields :
    (decode : Text → Option (List ℕ)) (p : PasswordParams) (salt hash : Text) (s h : List ℕ)
    → is_unsafe_cost p.memory p.iterations p.parallelism ≡ false
    → decode salt ≡ some s
    → decode hash ≡ some h
    → from_fields decode (split b',' (printed_fields p)) salt hash
      ≡ sized p.memory p.iterations p.parallelism (some s) (some h)
parse-fields decode p salt hash s h cost e k =
    let m = parse_uint_field-field b'm' (2 ^ 32 - 1) 9 p.memory (ground arith) (ground arith) in
    let t = parse_uint_field-field b't' (2 ^ 32 - 1) 9 p.iterations (ground arith) (ground arith) in
    let n = parse_uint_field-field b'p' 255 2 p.parallelism (ground arith) (ground arith) in
    rw (split-printed_fields p) (rw (m, t, n, e, k) (rw cost refl))

parse-printed_hash :
    (decode : Text → Option (List ℕ)) (p : PasswordParams) (salt hash : Text) (s h : List ℕ)
    → contains b'$' salt ≡ false
    → contains b'$' hash ≡ false
    → is_unsafe_cost p.memory p.iterations p.parallelism ≡ false
    → decode salt ≡ some s
    → decode hash ≡ some h
    → parse_password_hash decode (printed_hash p salt hash)
      ≡ sized p.memory p.iterations p.parallelism (some s) (some h)
unfolding parse_password_hash atoi parse_uint digits
parse-printed_hash decode p salt hash s h plain plain_hash cost e k =
    ap (from_parts decode) (split-printed_hash p salt hash plain plain_hash)
    ∙ parse-fields decode p salt hash s h cost e k

cost_of : (a b c : Bool) → not (a || b || c) ≡ true → a ≡ false
cost_of true b c h = cc
cost_of false b c h = refl

lengths_of : (a b c : Bool) → not (a || b || c) ≡ true → (b || c) ≡ false
lengths_of true b c h = cc
lengths_of false true c h = cc
lengths_of false false true h = cc
lengths_of false false false h = refl

sized-params :
    (p : PasswordParams) (s h : List ℕ)
    → is_safe_params p ≡ true
    → length s ≡ p.salt_length
    → length h ≡ p.key_length
    → sized p.memory p.iterations p.parallelism (some s) (some h)
      ≡ some (record { params = p; salt = s; expected = h })
unfolding is_safe_params
sized-params p s h safe ls lh =
    let lengths : (is_unsafe_length p.salt_length || is_unsafe_length p.key_length) ≡ false =
      lengths_of (is_unsafe_cost p.memory p.iterations p.parallelism)
        (is_unsafe_length p.salt_length) (is_unsafe_length p.key_length) safe in
    rw (ls, lh) (rw lengths refl)

-- For a base64 that reads what it wrote and writes no dollar sign, and for a key derivation that
-- returns as many bytes as it is asked for: with parameters that are accepted and a salt of their
-- length, a password has a hash, and the hash verifies the password.
pub verify_password-hash_password :
    (lib : Library)
    → ((b : List ℕ) → IsBytes b → lib.decode (lib.encode b) ≡ some b)
    → ((b : List ℕ) → IsBytes b → contains b'$' (lib.encode b) ≡ false)
    → ((password : Text) (salt : List ℕ) (t m p n : ℕ)
        → (length (lib.id_key password salt t m p n) ≡ n)
          × IsBytes (lib.id_key password salt t m p n))
    → (password : Text) (p : PasswordParams) (salt : List ℕ) → is_safe_params p ≡ true
    → length salt ≡ p.salt_length
    → IsBytes salt
    → (encoded : Text) × (hash_password lib password p (some salt) ≡ some encoded)
      × (verify_password lib password encoded ≡ some true)
unfolding hash_password verify_password
verify_password-hash_password lib reads plain derives password p salt safe ls bytes =
    let key = derived lib password p salt in
    let made = derives password salt p.iterations p.memory p.parallelism p.key_length in
    let cost : is_unsafe_cost p.memory p.iterations p.parallelism ≡ false =
      unfold is_safe_params in
      cost_of (is_unsafe_cost p.memory p.iterations p.parallelism) (is_unsafe_length p.salt_length)
        (is_unsafe_length p.key_length) safe in
    let parsed =
      parse-printed_hash lib.decode p (lib.encode salt) (lib.encode key) salt key (plain salt bytes)
        (plain key made.1) cost (reads salt bytes) (reads key made.1)
      ∙ sized-params p salt key safe ls made.0 in
    (
      printed_hash p (lib.encode salt) (lib.encode key),
      rw safe refl,
      ap (compared lib password) parsed ∙ ap some (text_eq_refl key),
    )
