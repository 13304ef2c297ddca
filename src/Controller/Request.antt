-- ===== src/Controller/Request.antt =====
-- controllerServer.go: the parts of a request that several handlers read: volume IDs, capabilities,
-- the requested zone.
pub mod Ids
pub mod Choice
use nexentastor_csi_driver_b.Base.{
  ℕ, Text, bytes, is_empty, split, join, Map, lookup, value_or, Bool, true, false, ◌&&◌, Option,
  none, some, List, [], ◌∷◌, if◌then◌else◌, ◌==◌,
}
use nexentastor_csi_driver_b.Csi.{
  Mode, unknown, single_node_writer, single_node_reader_only, multi_node_reader_only,
  multi_node_single_writer, multi_node_multi_writer, single_node_single_writer,
  single_node_multi_writer, Capability, Requirement,
}

-- The two parts of a list of exactly two.
abbrev pub pair_of : List Text → Option (Text × Text)
pair_of (a ∷ b ∷ []) = some (a, b)
pair_of _ = none

-- `strings.Split(volumeId, ":")`, which is to have two parts: a configuration name and a path.
unfoldable pub split_id : Text → Option (Text × Text)
split_id id = pair_of (split b':' id)

abbrev first_two : List Text → Option Text
first_two (a ∷ b ∷ c ∷ []) = some (join b'/' (a ∷ b ∷ []))
first_two _ = none

-- The volume group of a path of exactly three elements.
unfoldable pub volume_group_of : Text → Option Text
volume_group_of path = first_two (split b'/' path)

-- `fmt.Sprintf("%s:%s", a, b)` and the like.
abbrev pub joined : ℕ → Text → Text → Text
joined c a b = join c (a ∷ b ∷ [])

abbrev mode_number : Mode → ℕ
mode_number unknown = 0
mode_number single_node_writer = 1
mode_number single_node_reader_only = 2
mode_number multi_node_reader_only = 3
mode_number multi_node_single_writer = 4
mode_number multi_node_multi_writer = 5
mode_number single_node_single_writer = 6
mode_number single_node_multi_writer = 7

abbrev pub eq_mode : Mode → Mode → Bool
eq_mode a b = mode_number a == mode_number b

-- `supportedVolumeCapabilities`.
abbrev pub supported_modes : List Mode
supported_modes =
    single_node_reader_only ∷ single_node_writer ∷ multi_node_reader_only ∷ multi_node_single_writer
    ∷ multi_node_multi_writer ∷ []

supports : List Mode → Mode → Bool
supports [] mode = false
supports (m ∷ modes) mode = if eq_mode m mode then true else supports modes mode

-- `validateVolumeCapability`.
unfoldable pub validate_volume_capability : Capability → Bool
unfolding supports
validate_volume_capability c = supports supported_modes c.mode

-- The first capability that is not supported.
unfoldable pub first_unsupported : List Capability → Option Mode
first_unsupported [] = none
first_unsupported (c ∷ capabilities) =
    if validate_volume_capability c then first_unsupported capabilities else some c.mode

-- `TopologyKeyZone`.
abbrev pub zone_key : Text
zone_key = bytes "topology.kubernetes.io/zone"

abbrev or_zone : Option Text → Option Text → Option Text
or_zone (some z) later = some z
or_zone none later = later

unfoldable pub first_zone : List (Map Text) → Option Text
first_zone [] = none
first_zone (segments ∷ topologies) = or_zone (lookup zone_key segments) (first_zone topologies)

-- `pickAvailabilityZone`.
unfoldable pub pick_availability_zone : Option Requirement → Text
pick_availability_zone none = []
pick_availability_zone (some r) =
    value_or [] (or_zone (first_zone r.preferred) (first_zone r.requisite))
