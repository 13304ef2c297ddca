-- ===== src/Role.antt =====
-- pkg/driver/role.go: the roles of a driver instance.
pub mod Laws
use nexentastor_csi_driver_b.Base.{
  Text, bytes, eq_text, Bool, true, false, ◌||◌, List, [], ◌∷◌, if◌then◌else◌,
}

pub data Role : Type 0 where
  role_all role_controller role_node : Role

-- `Role.String`.
unfoldable pub string : Role → Text
string role_all = bytes "all"
string role_controller = bytes "controller"
string role_node = bytes "node"

abbrev eq_role : Role → Role → Bool
eq_role role_all role_all = true
eq_role role_controller role_controller = true
eq_role role_node role_node = true
eq_role _ _ = false

-- `Role.IsController`.
unfoldable pub is_controller : Role → Bool
is_controller r = eq_role r role_controller || eq_role r role_all

-- `Role.IsNode`.
unfoldable pub is_node : Role → Bool
is_node r = eq_role r role_node || eq_role r role_all

abbrev pub roles : List Role
roles = role_all ∷ role_controller ∷ role_node ∷ []

-- The role, and whether an error is returned beside it.
pub record Parsed : Type 0 where
  pub role : Role
  pub failed : Bool

parse_loop : List Role → Text → Parsed
parse_loop [] from = record { role = role_all; failed = true }
parse_loop (r ∷ rest) from =
    if eq_text (string r) from then record { role = r; failed = false } else parse_loop rest from

-- `ParseRole`.
unfoldable pub parse_role : Text → Parsed
unfolding parse_loop string
parse_role from = parse_loop roles from
