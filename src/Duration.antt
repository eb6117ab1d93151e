-- ===== src/Duration.antt =====
-- src/common/utils/duration.util.ts: "15m" and the like as a point in time. Numbers are exact, where
-- JavaScript's lose digits above 2 ^ 53.
use Prim.Native.Char.{code}
use nest_nexus.Prelude.{
  ℕ, ◌+◌, ◌-◌, ◌*◌, String, Bool, true, false, ◌&&◌, Option, none, some, List, [], ◌∷◌, ◌==◌,
  nat_eq, leb, if◌then◌else◌,
}

abbrev pub codes : String → List ℕ
codes String.[] = []
codes (String.◌∷◌ c s) = code c ∷ codes s

-- UNIT_MS
unfoldable pub unit_ms : ℕ → Option ℕ
unit_ms c =
    if c == b's'
    then some 1000
    else if c == b'm'
    then some 60000
    else if c == b'h'
    then some 3600000
    else if c == b'd'
    then some 86400000
    else none

abbrev pub is_digit : ℕ → Bool
is_digit c = leb b'0' c && leb c b'9'

abbrev scaled : ℕ → Bool → Option ℕ → Option ℕ
scaled amount seen none = none
scaled amount seen (some ms) = if seen then some (amount * ms) else none

-- The match of /^(\d+)([smhd])$/, with the number read so far and whether there was a digit.
unfoldable pub match_from : ℕ → Bool → List ℕ → Option ℕ
unfolding unit_ms
match_from amount seen [] = none
match_from amount seen (c ∷ []) = scaled amount seen (unit_ms c)
match_from amount seen (c ∷ d ∷ rest) =
    let longer = match_from (amount * 10 + (c - b'0')) true (d ∷ rest) in
    if is_digit c then longer else none

abbrev after : ℕ → ℕ → Option ℕ → ℕ
after now fallback_ms none = now + fallback_ms
after now fallback_ms (some ms) = now + ms

unfoldable pub parse_expiry_date : ℕ → String → ℕ → ℕ
unfolding match_from
parse_expiry_date now duration fallback_ms =
    after now fallback_ms (match_from 0 false (codes duration))
