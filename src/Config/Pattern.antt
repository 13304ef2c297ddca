-- ===== src/Config/Pattern.antt =====
-- The pattern of an address in config.go, `^https?://[^:]+:[0-9]{1,5}$`.
pub mod Address
use nexentastor_csi_driver_b.Base.{
  ℕ, Text, bytes, Bool, true, false, ◌&&◌, Option, none, some, [], ◌∷◌, if◌then◌else◌, length, leb,
  ◌==◌,
}

-- The text behind a prefix.
after : Text → Text → Option Text
after [] s = some s
after (x ∷ p) [] = none
after (x ∷ p) (y ∷ s) = if x == y then after p s else none

abbrev pub is_digit : ℕ → Bool
is_digit c = leb b'0' c && leb c b'9'

all_digits : Text → Bool
all_digits [] = true
all_digits (c ∷ s) = is_digit c && all_digits s

-- `[0-9]{1,5}$`.
port_matches : Text → Bool
unfolding all_digits
port_matches s = leb 1 (length s) && leb (length s) 5 && all_digits s

-- `[^:]+:` and the port; the flag says that a byte of the host has been read.
host_matches : Bool → Text → Bool
host_matches seen [] = false
host_matches seen (x ∷ s) = if x == b':' then seen && port_matches s else host_matches true s

-- `://` and the rest.
authority_matches : Text → Bool
unfolding after host_matches
authority_matches s = elim (after (bytes "://") s) [
  | none ↦ false
  | some rest ↦ host_matches false rest
]

-- `s?` and the rest.
scheme_matches : Text → Bool
unfolding authority_matches
scheme_matches [] = false
scheme_matches (x ∷ s) = if x == b's' then authority_matches s else authority_matches (x ∷ s)

-- `regexpAddress.MatchString`: `^https?://[^:]+:[0-9]{1,5}$`.
unfoldable pub matches_address : Text → Bool
unfolding after port_matches host_matches scheme_matches
matches_address s = elim (after (bytes "http") s) [ none ↦ false | some rest ↦ scheme_matches rest ]
