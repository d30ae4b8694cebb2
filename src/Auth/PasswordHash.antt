-- ===== src/Auth/PasswordHash.antt =====
-- The stored form of a password hash (internal/auth/password.go). Argon2id and unpadded base64 are
-- parameters.
pub mod Bounds
pub mod RoundTrip
mod Tests
use m_ui.Prelude.{
  ℕ, ◌+◌, ◌*◌, ◌^◌, ◌-◌, ◌<◌, ◌≤◌, ◌≡◌, refl, sym, ◌∙◌, ap, Bool, true, false, not, ◌&&◌, ◌||◌,
  Option, none, some, List, [], ◌∷◌, ltb, leb, ◌==◌, if◌then◌else◌, arith, length, Text, codes,
  text_eq, is_empty, has_prefix, split, parse_uint, ℤ, pos, digits, ◌++◌,
}
use m_ui.Domain.Checks.Origins.{atoi}

pub record PasswordParams : Type 0 where
  pub memory : ℕ  -- uint32
  pub iterations : ℕ  -- uint32
  pub parallelism : ℕ  -- uint8
  pub salt_length : ℕ  -- uint32
  pub key_length : ℕ  -- uint32

abbrev pub default_password_params : PasswordParams
default_password_params = record {
  memory = 65536;
  iterations = 3;
  parallelism = 2;
  salt_length = 16;
  key_length = 32;
}

abbrev pub is_unsafe_cost : ℕ → ℕ → ℕ → Bool
is_unsafe_cost memory iterations parallelism =
    ltb memory 8192
    || ltb 1048576 memory
    || iterations == 0
    || ltb 10 iterations
    || parallelism == 0
    || ltb 16 parallelism

abbrev pub is_unsafe_length : ℕ → Bool
is_unsafe_length n = ltb n 16 || ltb 64 n

-- `validatePasswordParams(params) == nil`.
unfoldable pub is_safe_params : PasswordParams → Bool
is_safe_params p = not (
    is_unsafe_cost p.memory p.iterations p.parallelism
    || is_unsafe_length p.salt_length
    || is_unsafe_length p.key_length)

abbrev pub drop_two : Text → Text
drop_two (a ∷ b ∷ s) = s
drop_two _ = []

-- The prefix is of two characters.
unfoldable pub parse_uint_field : Text → Text → ℕ → Option ℕ
unfolding parse_uint
parse_uint_field value prefix max =
    let parsed = parse_uint max (drop_two value) in if has_prefix value prefix then parsed else none

abbrev pub is_version_19 : Option ℤ → Bool
is_version_19 (some (pos n)) = n == 19
is_version_19 _ = false

pub record PasswordHash : Type 0 where
  pub params : PasswordParams
  pub salt : List ℕ
  pub expected : List ℕ

abbrev pub sized : ℕ → ℕ → ℕ → Option (List ℕ) → Option (List ℕ) → Option PasswordHash
sized m t p (some salt) (some expected) =
    let params : PasswordParams = record {
      memory = m;
      iterations = t;
      parallelism = p;
      salt_length = length salt;
      key_length = length expected;
    } in
    if is_unsafe_length (length salt) || is_unsafe_length (length expected)
    then none
    else some (record { params = params; salt = salt; expected = expected })
sized m t p _ _ = none

abbrev pub costed :
    Option ℕ → Option ℕ → Option ℕ → Option (List ℕ) → Option (List ℕ) → Option PasswordHash
costed (some m) (some t) (some p) salt expected =
    let made = sized m t p salt expected in if is_unsafe_cost m t p then none else made
costed _ _ _ salt expected = none

module _ (decode : Text → Option (List ℕ)) where
  abbrev pub from_fields : List Text → Text → Text → Option PasswordHash
  from_fields (m ∷ t ∷ p ∷ []) salt expected =
      costed (parse_uint_field m (codes "m=") (2 ^ 32 - 1))
        (parse_uint_field t (codes "t=") (2 ^ 32 - 1)) (parse_uint_field p (codes "p=") 255)
        (decode salt) (decode expected)
  from_fields _ salt expected = none

  abbrev pub from_parts : List Text → Option PasswordHash
  from_parts (first ∷ algorithm ∷ version ∷ fields ∷ salt ∷ expected ∷ []) =
      let made = from_fields (split b',' fields) salt expected in
      if not (is_empty first)
        || not (text_eq algorithm (codes "argon2id"))
        || not (has_prefix version (codes "v="))
        || not (is_version_19 (atoi (drop_two version)))
      then none
      else made
  from_parts _ = none

  unfoldable pub parse_password_hash : Text → Option PasswordHash
  unfolding parse_uint_field split atoi
  parse_password_hash encoded = from_parts (split b'$' encoded)

-- `argon2.IDKey` of a password, a salt, the iterations, the memory, the parallelism and a length, and
-- `base64.RawStdEncoding`.
pub record Library : Type 0 where
  pub id_key : Text → List ℕ → ℕ → ℕ → ℕ → ℕ → List ℕ
  pub encode : List ℕ → Text
  pub decode : Text → Option (List ℕ)

-- A parameter with its name, as `%d` prints it.
abbrev pub field : ℕ → ℕ → ℕ → Text
field name fuel n = name ∷ b'=' ∷ digits fuel n []

abbrev pub printed_fields : PasswordParams → Text
printed_fields p =
    field b'm' 10 p.memory
    ++ (b',' ∷ (field b't' 10 p.iterations ++ (b',' ∷ field b'p' 3 p.parallelism)))

-- `$argon2id$v=%d$m=%d,t=%d,p=%d$%s$%s`.
unfoldable pub printed_hash : PasswordParams → Text → Text → Text
printed_hash p salt hash =
    b'$'
    ∷ (codes "argon2id"
        ++ (b'$'
            ∷ (field b'v' 2 19 ++ (b'$' ∷ (printed_fields p ++ (b'$' ∷ (salt ++ (b'$' ∷ hash))))))))

module _ (lib : Library) where
  abbrev pub derived : Text → PasswordParams → List ℕ → List ℕ
  derived password p salt =
      lib.id_key password salt p.iterations p.memory p.parallelism p.key_length

  -- `hashPassword`, with what the random source returned for the salt.
  unfoldable pub hash_password : Text → PasswordParams → Option (List ℕ) → Option Text
  unfolding is_safe_params printed_hash
  hash_password password p none = none
  hash_password password p (some salt) =
      let printed = printed_hash p (lib.encode salt) (lib.encode (derived password p salt)) in
      if is_safe_params p then some printed else none

  abbrev pub compared : Text → Option PasswordHash → Option Bool
  compared password none = none
  compared password (some h) = some (text_eq (derived password h.params h.salt) h.expected)

  unfoldable pub verify_password : Text → Text → Option Bool
  unfolding parse_password_hash
  verify_password password encoded = compared password (parse_password_hash lib.decode encoded)
