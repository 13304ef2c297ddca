-- ===== src/Config/Check.antt =====
-- `Config.Validate` of config.go.
pub mod Rules
pub mod Defaults
pub mod Usable
use nexentastor_csi_driver_b.Base.{
  ℕ, Text, bytes, is_empty, split, Map, insert, Bool, true, false, not, ◌&&◌, Option, none, some,
  List, [], ◌∷◌, ◌++◌, if◌then◌else◌, length, leb, ◌==◌,
}
use nexentastor_csi_driver_b.Exec.{Exec, Outcome, ok, err, panic, errorf}
use nexentastor_csi_driver_b.Config.Defs.{NsData, Config}
use nexentastor_csi_driver_b.Config.Pattern.{matches_address}

-- What `Validate` complains of.
pub data Problem : Type 0 where
  no_rest_ip : Problem
  bad_address : Text → Problem
  no_username no_password no_dynamic no_target no_target_group : Problem

bad_addresses : List Text → List Problem
unfolding matches_address
bad_addresses [] = []
bad_addresses (a ∷ addresses) =
    let rest = bad_addresses addresses in if matches_address a then rest else bad_address a ∷ rest

abbrev when : Bool → Problem → List Problem
when b p = if b then p ∷ [] else []

address_problems : NsData → List Problem
unfolding bad_addresses
address_problems d =
    if is_empty d.address then no_rest_ip ∷ [] else bad_addresses (split b',' d.address)

-- `*data.DynamicTargetLunAllocation == false`: without the pointer the read panics, although the
-- missing field has been noted above it.
static_problems : Option Bool → NsData → Option (List Problem)
static_problems none d = none
static_problems (some true) d = some []
static_problems (some false) d = some (
    when (is_empty d.default_target) no_target
    ++ when (is_empty d.default_target_group) no_target_group)

abbrev no_pointer : Option Bool → Bool
no_pointer none = true
no_pointer (some b) = false

-- The `errors` that one entry adds before the pointer is read.
noted : NsData → List Problem
unfolding address_problems
noted d =
    (address_problems d ++ when (is_empty d.username) no_username)
    ++ (when (is_empty d.password) no_password
        ++ when (no_pointer d.dynamic_target_lun_allocation) no_dynamic)

-- The `errors` that one entry adds; `none` is a panic.
unfoldable pub entry_problems : NsData → Option (List Problem)
unfolding noted static_problems
entry_problems d = elim (static_problems d.dynamic_target_lun_allocation d) [
  | none ↦ none
  | some more ↦ some (noted d ++ more)
]

-- `InsecureSkipVerify` is true where it is not given, and written back to the map.
abbrev pub with_default : NsData → NsData
with_default d = elim d.insecure_skip_verify [
  | none ↦ record d { insecure_skip_verify = some true }
  | some b ↦ d
]

abbrev pub store_default : Text → NsData → Config → Config
store_default name d c = elim d.insecure_skip_verify [
  | none ↦ record c { ns_map = insert name (with_default d) c.ns_map }
  | some b ↦ c
]

-- The loop of `Validate` over the entries, each after the writes of those before it.
unfoldable pub validate_from : List (Text × NsData) → Exec Config Unit
unfolding entry_problems
validate_from [] c = (ok tt, c)
validate_from ((name, d) ∷ entries) c =
    let rest = validate_from entries (store_default name d c) in
    elim (entry_problems d) [
      | none ↦ (panic, c)
      | some problems ↦ if is_empty problems then rest else (
        err (errorf "[NS: %s] Bad format, fix following issues: %s"),
        store_default name d c,
      )
    ]

-- `Config.Validate`.
unfoldable pub validate : Exec Config Unit
unfolding validate_from
validate c = validate_from c.ns_map c
