-- ===== src/Domain/Endpoint/Address.antt =====
-- Printing and reading an endpoint (internal/domain/model.go).
use m_ui.Prelude.{
  ℕ, ◌≤◌, ◌<◌, ◌≡◌, refl, ◌∙◌, ap, true, false, inl, inr, Option, none, some, [], ◌∷◌, ◌++◌, ◌==◌,
  arith, Bool-cases, Text, is_digit, cut, digits, all_digits, all_digits-digits, parse_uint-digits,
}
use m_ui.Domain.Endpoint.{
  Endpoint, contains, cut_last, join_host_port, after_bracket, unbracketed, split_host_port,
  address, with_port, with_host, parse_endpoint,
}

pub contains-digits :
    (c : ℕ) (s : Text) → is_digit c ≡ false → all_digits s ≡ true → contains c s ≡ false
contains-digits c [] h d = refl
contains-digits c (x ∷ s) h d = ground (arith, contains-digits c s)

cut_last-absent : (c : ℕ) (s : Text) → contains c s ≡ false → cut_last c s ≡ none
unfolding cut_last
cut_last-absent c [] h = refl
cut_last-absent c (x ∷ s) h =
    let rest : cut_last c s ≡ none = cut_last-absent c s (ground arith) in rw rest (ground arith)

cut_last-append :
    (c : ℕ) (host port : Text)
    → contains c port ≡ false
    → cut_last c (host ++ (c ∷ port)) ≡ some (host, port)
unfolding cut_last
cut_last-append c [] port h = rw (cut_last-absent c port h) (ground arith)
cut_last-append c (x ∷ host) port h = rw (cut_last-append c host port h) refl

cut-append :
    (c : ℕ) (host rest : Text)
    → contains c host ≡ false
    → cut c (host ++ (c ∷ rest)) ≡ (host, some rest)
unfolding cut
cut-append c [] rest h = ground arith
cut-append c (x ∷ host) rest h =
    let ih : cut c (host ++ (c ∷ rest)) ≡ (host, some rest) =
      cut-append c host rest (ground arith) in
    let other : (x == c) ≡ false = ground arith in rw other (rw ih refl)

unbracketed-plain :
    (host port : Text)
    → contains b':' host ≡ false
    → contains b'[' host ≡ false
    → contains b']' host ≡ false
    → all_digits port ≡ true
    → unbracketed (some (host, port)) ≡ some (host, port)
unbracketed-plain host port h1 h2 h3 d =
    ground (arith, contains-digits b'[' port refl d, contains-digits b']' port refl d)

-- A text without brackets and a port of digits.
split_host_port-plain :
    (host port : Text)
    → contains b':' host ≡ false
    → contains b'[' host ≡ false
    → contains b']' host ≡ false
    → all_digits port ≡ true
    → split_host_port (host ++ (b':' ∷ port)) ≡ some (host, port)
unfolding split_host_port cut_last
split_host_port-plain [] port h1 h2 h3 d =
    ap unbracketed (cut_last-append b':' [] port (contains-digits b':' port refl d))
    ∙ unbracketed-plain [] port h1 h2 h3 d
split_host_port-plain (c ∷ host) port h1 h2 h3 d =
    let open_bracket : (c == b'[') ≡ false = ground arith in
    rw open_bracket (
      ap unbracketed (cut_last-append b':' (c ∷ host) port (contains-digits b':' port refl d))
      ∙ unbracketed-plain (c ∷ host) port h1 h2 h3 d)

split_host_port-bracketed :
    (host port : Text)
    → contains b'[' host ≡ false
    → contains b']' host ≡ false
    → all_digits port ≡ true
    → split_host_port ((b'[' ∷ host) ++ (b']' ∷ b':' ∷ port)) ≡ some (host, port)
unfolding split_host_port
split_host_port-bracketed host port h2 h3 d =
    ap (λ (r : Text × Option Text). after_bracket r.0 r.1) (cut-append b']' host (b':' ∷ port) h3)
    ∙ ground (
      arith,
      contains-digits b':' port refl d,
      contains-digits b'[' port refl d,
      contains-digits b']' port refl d,
    )

split_host_port-join_host_port :
    (host port : Text)
    → contains b'[' host ≡ false
    → contains b']' host ≡ false
    → all_digits port ≡ true
    → split_host_port (join_host_port host port) ≡ some (host, port)
unfolding join_host_port
split_host_port-join_host_port host port h2 h3 d = elim (Bool-cases (contains b':' host)) [
  | inl e ↦ rw e (split_host_port-bracketed host port h2 h3 d)
  | inr e ↦ rw e (split_host_port-plain host port e h2 h3 d)
]

-- An endpoint whose host has no brackets and whose port is from 1 to 65535 is read back from its
-- printed address, with brackets put around an IPv6 host and taken off again.
pub parse_endpoint-address :
    (e : Endpoint)
    → contains b'[' e.host ≡ false
    → contains b']' e.host ≡ false
    → 0 < e.port
    → e.port ≤ 65535
    → parse_endpoint (address e) ≡ some e
unfolding parse_endpoint address
parse_endpoint-address e h2 h3 low high =
    let split =
      split_host_port-join_host_port e.host (digits 5 e.port []) h2 h3
        (all_digits-digits 5 e.port [] refl) in
    let port = parse_uint-digits 65535 4 e.port (omega arith) high in
    ap with_host split ∙ (ap (with_port e.host) port ∙ ground arith)
