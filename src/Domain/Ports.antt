-- ===== src/Domain/Ports.antt =====
-- The ports of a node (`ParsePortRanges`, `SinglePort` and `rangesOverlap` of
-- internal/domain/validate.go).
pub mod Bounds
use m_ui.Prelude.{
  ℕ, ◌≡◌, refl, Bool, true, false, ◌&&◌, ◌||◌, not, Option, none, some, List, [], ◌∷◌, ltb, leb,
  ◌==◌, if◌then◌else◌, Text, codes, is_empty, is_padded, trim_space, split, cut, parse_uint,
}

pub record PortRange : Type 0 where
  pub start : ℕ  -- uint16
  pub end : ℕ  -- uint16

pub data PortError : Type 0 where
  port_required empty_range port_out_of_range invalid_range ranges_overlapping : PortError

pub data Parsed (A : Type 0) : Type 0 where
  ok : A → Parsed A
  err : PortError → Parsed A

infixl 5 ◌>>=◌ ◌>>◌
abbrev pub ◌>>=◌ : {A B : Type 0} → Parsed A → (A → Parsed B) → Parsed B
ok a >>= f = f a
err e >>= f = err e

abbrev pub ◌>>◌ : {B : Type 0} → Parsed (Unit {0}) → Parsed B → Parsed B
m >> k = m >>= λ _. k

abbrev pub refuse_if : Bool → PortError → Parsed (Unit {0})
refuse_if true e = err e
refuse_if false e = ok tt

abbrev pub max_port : ℕ
max_port = 65535

-- `strconv.ParseUint(text, 10, 16)`, where zero is an error too.
abbrev pub nonzero : Option ℕ → PortError → Parsed ℕ
nonzero none e = err e
nonzero (some n) e = if n == 0 then err e else ok n

unfoldable pub parse_port : Text → PortError → Parsed ℕ
parse_port s e = nonzero (parse_uint max_port s) e

unfoldable pub parse_end : ℕ → Option Text → Parsed PortRange
unfolding parse_port
parse_end start none = ok (record { start = start; end = start })
parse_end start (some text) = do
  end ← parse_port text invalid_range
  refuse_if (ltb end start) invalid_range
  ok (record { start = start; end = end })

unfoldable pub parse_part : Text → Parsed PortRange
unfolding parse_port parse_end
parse_part text = do
  let part = trim_space text
  refuse_if (is_empty part) empty_range
  let halves = cut b'-' part
  start ← parse_port halves.0 port_out_of_range
  parse_end start halves.1

unfoldable pub parse_parts : List Text → Parsed (List PortRange)
unfolding parse_part
parse_parts [] = ok []
parse_parts (part ∷ parts) = do r ← parse_part part; rs ← parse_parts parts; ok (r ∷ rs)

unfoldable pub ranges_overlap : PortRange → PortRange → Bool
ranges_overlap left right = leb left.start right.end && leb right.start left.end

-- `sort.Slice` by the start. Ranges with one start overlap, so their order is of no account.
unfoldable pub insert_range : PortRange → List PortRange → List PortRange
insert_range r [] = r ∷ []
insert_range r (s ∷ rs) = if leb r.start s.start then r ∷ s ∷ rs else s ∷ insert_range r rs

unfoldable pub sort_ranges : List PortRange → List PortRange
unfolding insert_range
sort_ranges [] = []
sort_ranges (r ∷ rs) = insert_range r (sort_ranges rs)

-- Neighbours in the sorted list that overlap.
unfoldable pub neighbours_overlap : List PortRange → Bool
unfolding ranges_overlap
neighbours_overlap [] = false
neighbours_overlap (r ∷ []) = false
neighbours_overlap (r ∷ s ∷ rs) = ranges_overlap r s || neighbours_overlap (s ∷ rs)

unfoldable pub parse_port_ranges : Text → Parsed (List PortRange)
unfolding parse_parts sort_ranges neighbours_overlap
parse_port_ranges value = do
  refuse_if (is_padded value) port_required
  parsed ← parse_parts (split b',' value)
  let ranges = sort_ranges parsed
  refuse_if (neighbours_overlap ranges) ranges_overlapping
  ok ranges

abbrev pub single_of : Parsed (List PortRange) → Option ℕ
single_of (ok (r ∷ [])) = if r.start == r.end then some r.start else none
single_of _ = none

unfoldable pub single_port : Text → Option ℕ
unfolding parse_port_ranges
single_port value = single_of (parse_port_ranges value)

two_ranges :
    parse_port_ranges (codes "2000, 80-90")
    ≡ ok (record { start = 80; end = 90 } ∷ record { start = 2000; end = 2000 } ∷ [])
unfolding parse_port_ranges trim_space split cut parse_uint
two_ranges = refl
