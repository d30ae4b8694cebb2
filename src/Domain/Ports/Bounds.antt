-- ===== src/Domain/Ports/Bounds.antt =====
-- What an accepted port text gives (internal/domain/validate.go).
use m_ui.Prelude.{
  ℕ, ◌+◌, ◌-◌, ◌*◌, ◌≤◌, ◌<◌, ◌≡◌, refl, subst, Bool, true, false, inl, inr, Option, none, some,
  List, [], ◌∷◌, ltb, leb, arith, Bool-cases, All, Text, is_empty, is_padded, trim_space, split,
  cut, scan_digits, parse_uint,
}
use m_ui.Domain.Ports.{
  PortRange, PortError, port_required, ranges_overlapping, Parsed, ok, err, refuse_if, max_port,
  nonzero, parse_port, parse_end, parse_part, parse_parts, insert_range, sort_ranges,
  neighbours_overlap, parse_port_ranges, ◌>>=◌, ◌>>◌, invalid_range, empty_range, port_out_of_range,
}

-- A range of ports from 1 to 65535.
abbrev pub InRange : PortRange → Type 0
InRange r = (0 < r.start) × (r.start ≤ r.end) × (r.end ≤ 65535)

-- Each range ends before the next begins.
abbrev pub Before : PortRange → PortRange → Type 0
Before r s = r.end < s.start

abbrev pub Separated : List PortRange → Type 0
Separated [] = Unit
Separated (r ∷ rs) = All (Before r) rs × Separated rs

scan_digits-le : (max : ℕ) (s : Text) (n r : ℕ) → n ≤ max → scan_digits max s n ≡ some r → r ≤ max
unfolding scan_digits
scan_digits-le max [] n r h e = ground arith
scan_digits-le max (c ∷ s) n r h e = ground (arith, scan_digits-le max s (n * 10 + (c - b'0')) r)

pub parse_uint-le : (max : ℕ) (s : Text) (r : ℕ) → parse_uint max s ≡ some r → r ≤ max
unfolding parse_uint
parse_uint-le max [] r e = cc
parse_uint-le max (c ∷ s) r e = scan_digits-le max (c ∷ s) 0 r (omega arith) e

nonzero-bounds :
    (o : Option ℕ) (e : PortError) (n : ℕ)
    → ((m : ℕ) → o ≡ some m → m ≤ 65535)
    → nonzero o e ≡ ok n
    → (0 < n) × (n ≤ 65535)
nonzero-bounds none e n k h = cc
nonzero-bounds (some m) e n k h = let fits = k m refl in ground arith

pub parse_port-bounds :
    (s : Text) (e : PortError) (n : ℕ) → parse_port s e ≡ ok n → (0 < n) × (n ≤ 65535)
unfolding parse_port
parse_port-bounds s e n h =
    nonzero-bounds (parse_uint max_port s) e n (λ m k. parse_uint-le max_port s m k) h

-- Inversion of a bind and of a refusal.
pub >>=-eq-ok :
    {A B : Type 0} (m : Parsed A) (f : A → Parsed B) (b : B)
    → (m >>= f) ≡ ok b
    → (a : A) × (m ≡ ok a) × (f a ≡ ok b)
>>=-eq-ok (ok a) f b h = (a, refl, h)
>>=-eq-ok (err e) f b h = cc

pub refuse_if-eq-ok :
    {B : Type 0} (b : Bool) (e : PortError) (m : Parsed B) (r : B)
    → (refuse_if b e >> m) ≡ ok r
    → (b ≡ false) × (m ≡ ok r)
refuse_if-eq-ok true e m r h = cc
refuse_if-eq-ok false e m r h = (refl, h)

ok-injective : {A : Type 0} (a b : A) → ◌≡◌ {A = Parsed A} (ok a) (ok b) → a ≡ b
ok-injective a b h = cc

parse_end-InRange :
    (start : ℕ) (text : Option Text) (r : PortRange)
    → 0 < start
    → start ≤ 65535
    → parse_end start text ≡ ok r
    → InRange r
unfolding parse_end
parse_end-InRange start none r p q h = ground arith
parse_end-InRange start (some text) r p q h =
    let (end, is_end, rest) = >>=-eq-ok (parse_port text invalid_range) _ r h in
    let (le, made) = refuse_if-eq-ok (ltb end start) invalid_range _ r rest in
    let bounds = parse_port-bounds text invalid_range end is_end in ground arith

parse_part-InRange : (text : Text) (r : PortRange) → parse_part text ≡ ok r → InRange r
unfolding parse_part
parse_part-InRange text r h =
    let (full, rest) = refuse_if-eq-ok (is_empty (trim_space text)) empty_range _ r h in
    let (start, is_start, tail) =
      >>=-eq-ok (parse_port (cut b'-' (trim_space text)).0 port_out_of_range) _ r rest in
    let bounds =
      parse_port-bounds (cut b'-' (trim_space text)).0 port_out_of_range start is_start in
    parse_end-InRange start (cut b'-' (trim_space text)).1 r bounds.0 bounds.1 tail

parse_parts-InRange :
    (parts : List Text) (rs : List PortRange) → parse_parts parts ≡ ok rs → All InRange rs
unfolding parse_parts
parse_parts-InRange [] rs h = subst (All InRange) (ok-injective [] rs h) tt
parse_parts-InRange (part ∷ parts) rs h =
    let (r, is_r, rest) = >>=-eq-ok (parse_part part) _ rs h in
    let (tail, is_tail, made) = >>=-eq-ok (parse_parts parts) _ rs rest in
    subst (All InRange) (ok-injective (r ∷ tail) rs made)
      (parse_part-InRange part r is_r, parse_parts-InRange parts tail is_tail)

All-insert :
    (P : PortRange → Type 0) (r : PortRange) (rs : List PortRange)
    → P r
    → All P rs
    → All P (insert_range r rs)
unfolding insert_range
All-insert P r [] p h = (p, tt)
All-insert P r (s ∷ rs) p h = elim (Bool-cases (leb r.start s.start)) [
  | inl e ↦ rw e (p, h)
  | inr e ↦ rw e (h.0, All-insert P r rs p h.1)
]

All-sort : (P : PortRange → Type 0) (rs : List PortRange) → All P rs → All P (sort_ranges rs)
unfolding sort_ranges
All-sort P [] h = tt
All-sort P (r ∷ rs) h = All-insert P r (sort_ranges rs) h.0 (All-sort P rs h.1)

-- By their starts, in order.
abbrev StartsFrom : ℕ → List PortRange → Type 0
StartsFrom n [] = Unit
StartsFrom n (r ∷ rs) = (n ≤ r.start) × StartsFrom r.start rs

StartsFrom-insert :
    (n : ℕ) (r : PortRange) (rs : List PortRange)
    → n ≤ r.start
    → StartsFrom n rs
    → StartsFrom n (insert_range r rs)
unfolding insert_range
StartsFrom-insert n r [] p h = (p, tt)
StartsFrom-insert n r (s ∷ rs) p h = elim (Bool-cases (leb r.start s.start)) [
  | inl e ↦ rw e (p, (ground arith, h.1))
  | inr e ↦ rw e (h.0, StartsFrom-insert s.start r rs (ground arith) h.1)
]

StartsFrom-sort : (rs : List PortRange) → StartsFrom 0 (sort_ranges rs)
unfolding sort_ranges
StartsFrom-sort [] = tt
StartsFrom-sort (r ∷ rs) = StartsFrom-insert 0 r (sort_ranges rs) (omega arith) (StartsFrom-sort rs)

Before-all :
    (r s : PortRange) (rs : List PortRange)
    → r.end < s.start
    → StartsFrom s.start rs
    → All (Before r) rs
Before-all r s [] p h = tt
Before-all r s (t ∷ rs) p h = (omega arith, Before-all r t rs (omega arith) h.1)

sorted-Separated :
    (n : ℕ) (rs : List PortRange)
    → StartsFrom n rs
    → All InRange rs
    → neighbours_overlap rs ≡ false
    → Separated rs
unfolding neighbours_overlap
sorted-Separated n [] h a o = tt
sorted-Separated n (r ∷ []) h a o = (tt, tt)
sorted-Separated n (r ∷ s ∷ rs) h a o =
    let apart : r.end < s.start = ground arith in
    (
      (apart, Before-all r s rs apart h.1.1),
      sorted-Separated r.start (s ∷ rs) h.1 a.1 (ground arith),
    )

-- Every range of an accepted text lies in 1 to 65535 and does not end before it begins, and the
-- ranges stand in order, each ending before the next begins.
pub parse_port_ranges-Separated :
    (value : Text) (rs : List PortRange)
    → parse_port_ranges value ≡ ok rs
    → All InRange rs × Separated rs
unfolding parse_port_ranges
parse_port_ranges-Separated value rs h =
    let (given, rest) = refuse_if-eq-ok (is_padded value) port_required _ rs h in
    let (parsed, is_parsed, checked) = >>=-eq-ok (parse_parts (split b',' value)) _ rs rest in
    let (apart, same) =
      refuse_if-eq-ok (neighbours_overlap (sort_ranges parsed)) ranges_overlapping _ rs checked in
    let fits = All-sort InRange parsed (parse_parts-InRange (split b',' value) parsed is_parsed) in
    subst (λ l. All InRange l × Separated l) (ok-injective (sort_ranges parsed) rs same)
      (fits, sorted-Separated 0 (sort_ranges parsed) (StartsFrom-sort parsed) fits apart)
