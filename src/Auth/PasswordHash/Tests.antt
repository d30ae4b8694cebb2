-- ===== src/Auth/PasswordHash/Tests.antt =====
-- A password hash that is made and verified, with a key of the salt's first byte and a base64 that
-- shifts the bytes.
use m_ui.Prelude.{
  ℕ, ◌+◌, ◌-◌, ◌≡◌, refl, ap, true, false, zero, suc, some, List, [], ◌∷◌, map, arith, length, Text,
  codes,
}
use m_ui.Domain.Endpoint.{contains}
use m_ui.Auth.PasswordHash.{
  Library, is_safe_params, default_password_params, hash_password, verify_password,
}
use m_ui.Auth.PasswordHash.RoundTrip.{IsBytes, verify_password-hash_password}

abbrev repeated : ℕ → ℕ → List ℕ
repeated zero b = []
repeated (suc n) b = b ∷ repeated n b

abbrev shifting : Library
shifting = record {
  id_key = λ password salt t m p n. repeated n 7;
  encode = map (λ b. b + 100);
  decode = λ s. some (map (λ c. c - 100) s);
}

unshifted : (b : List ℕ) → map (λ c. c - 100) (map (λ c. c + 100) b) ≡ b
unshifted [] = refl
unshifted (x ∷ b) = ground (arith, unshifted b)

shifted-plain : (b : List ℕ) → contains b'$' (map (λ c. c + 100) b) ≡ false
shifted-plain [] = refl
shifted-plain (x ∷ b) = ground (arith, shifted-plain b)

repeated-length : (n : ℕ) → length (repeated n 7) ≡ n
repeated-length zero = refl
repeated-length (suc n) = ground (arith, repeated-length n)

repeated-IsBytes : (n : ℕ) → IsBytes (repeated n 7)
repeated-IsBytes zero = tt
repeated-IsBytes (suc n) = (omega arith, repeated-IsBytes n)

verify_password-hash_password_example :
    (encoded : Text) × (hash_password shifting
        (codes "secret")
        default_password_params
        (some (repeated 16 7))
      ≡ some encoded)
    × (verify_password shifting (codes "secret") encoded ≡ some true)
verify_password-hash_password_example =
    verify_password-hash_password shifting (λ b h. ap some (unshifted b)) (λ b h. shifted-plain b)
      (λ password salt t m p n. (repeated-length n, repeated-IsBytes n)) (codes "secret")
      default_password_params (repeated 16 7) (unfold is_safe_params in refl) refl
      (repeated-IsBytes 16)
