-- ===== src/Domain/Checks/Origins.antt =====
-- `ValidateCORSOrigins` of internal/domain/validate.go.
use m_ui.Prelude.{
  ℕ, Bool, true, false, not, ◌&&◌, ◌||◌, Option, none, some, List, [], ◌∷◌, ◌^◌, leb, ◌==◌,
  if◌then◌else◌, Text, codes, text_eq, is_empty, is_padded, parse_uint, ℤ, pos, negsuc, ◌-◌,
}
use m_ui.Domain.Checks.{Problems, and_then, Url, Library, among, validate_host}

abbrev pub ends_with : ℕ → Text → Bool
ends_with c [] = false
ends_with c (d ∷ []) = d == c
ends_with c (d ∷ e ∷ s) = ends_with c (e ∷ s)

abbrev pub negated : Option ℕ → Option ℤ
negated none = none
negated (some n) = some (if n == 0 then pos 0 else negsuc (n - 1))

abbrev pub positive : Option ℕ → Option ℤ
positive none = none
positive (some n) = some (pos n)

-- `strconv.Atoi`.
unfoldable pub atoi : Text → Option ℤ
unfolding parse_uint
atoi [] = none
atoi (c ∷ s) =
    if c == b'-'
    then negated (parse_uint (2 ^ 63) s)
    else if c == b'+'
    then positive (parse_uint (2 ^ 63 - 1) s)
    else positive (parse_uint (2 ^ 63 - 1) (c ∷ s))

abbrev pub is_port : Option ℤ → Bool
is_port (some (pos n)) = leb 1 n && leb n 65535
is_port _ = false

-- A scheme and a host, without anything after them.
unfoldable pub is_exact_origin : Option Url → Bool
unfolding atoi
is_exact_origin none = false
is_exact_origin (some url) =
    among url.scheme ("http" ∷ "https" ∷ [])
    && not (is_empty url.host)
    && not url.has_user
    && is_empty url.path
    && is_empty url.raw_query
    && is_empty url.fragment
    && not (ends_with b':' url.host)
    && (is_empty url.port || is_port (atoi url.port))

abbrev pub host_of : Option Url → Text
host_of none = []
host_of (some url) = url.hostname

module _ (lib : Library) where
  unfoldable pub validate_origin : Text → Problems
  unfolding is_exact_origin validate_host
  validate_origin origin =
      let url = lib.parse_url origin in
      if is_padded origin || text_eq origin (codes "*") || not (is_exact_origin url)
      then "CORS origin %d must be an exact HTTP(S) origin" ∷ []
      else validate_host lib (host_of url) true

  -- The first origin with a problem ends the check.
  unfoldable pub validate_cors_origins : List Text → Problems
  unfolding validate_origin
  validate_cors_origins [] = []
  validate_cors_origins (origin ∷ origins) =
      and_then (validate_origin origin) (validate_cors_origins origins)
