-- ===== src/Csi.antt =====
-- The requests and responses of the Container Storage Interface that the handlers read and write. A
-- field that the generated getters give a zero value for is that value; the lists and messages that
-- the handlers compare with nil are an `Option`.
use nexentastor_csi_driver_b.Base.{ℕ, ℤ, Text, Map, Bool, Option, List}

-- `csi.VolumeCapability_AccessMode_Mode`.
pub data Mode : Type 0 where
  unknown single_node_writer single_node_reader_only multi_node_reader_only : Mode
  multi_node_single_writer multi_node_multi_writer : Mode
  single_node_single_writer single_node_multi_writer : Mode

pub data AccessType : Type 0 where
  no_access_type block : AccessType
  -- The file system and the mount flags.
  mount : Text → List Text → AccessType

pub record Capability : Type 0 where
  pub mode : Mode
  pub access_type : AccessType

pub data ContentSource : Type 0 where
  snapshot_source volume_source : Text → ContentSource
  other_source : ContentSource

-- `csi.TopologyRequirement`: the segments of each topology.
pub record Requirement : Type 0 where
  pub preferred : List (Map Text)
  pub requisite : List (Map Text)

pub record ValidateRequest : Type 0 where
  pub volume_id : Text
  pub capabilities : Option (List Capability)
  pub context : Map Text
  pub secrets : Map Text

-- Confirmed with the supported modes and the context, or the refusal of one mode.
pub data ValidateResponse : Type 0 where
  refused : Mode → ValidateResponse
  confirmed : List Mode → Map Text → ValidateResponse

pub record CreateRequest : Type 0 where
  pub name : Text
  pub capabilities : Option (List Capability)
  pub parameters : Map Text
  pub secrets : Map Text
  pub source : Option ContentSource
  pub requirement : Option Requirement
  pub required_bytes : ℤ

pub record CreatedVolume : Type 0 where
  pub content_source : Option ContentSource
  pub volume_id : Text
  pub capacity_bytes : ℤ
  pub context : Map Text
  -- The zone of `AccessibleTopology`.
  pub topology : Option Text

pub record ExpandRequest : Type 0 where
  pub volume_id : Text
  pub required_bytes : ℤ
  pub secrets : Map Text

pub record ExpandResponse : Type 0 where
  pub capacity_bytes : ℤ
  pub node_expansion_required : Bool

-- `DeleteVolumeRequest` and `ControllerUnpublishVolumeRequest`.
pub record VolumeRequest : Type 0 where
  pub volume_id : Text
  pub secrets : Map Text

pub record PublishRequest : Type 0 where
  pub volume_id : Text
  pub node_id : Text
  pub capability : Option Capability

pub record SnapshotRequest : Type 0 where
  pub source_volume_id : Text
  pub name : Text

pub record CsiSnapshot : Type 0 where
  pub snapshot_id : Text
  pub source_volume_id : Text
  pub creation_time : ℕ
  pub ready_to_use : Bool

pub record ListSnapshotsRequest : Type 0 where
  pub snapshot_id : Text
  pub source_volume_id : Text
  pub starting_token : Text
  pub max_entries : ℤ

pub record SnapshotPage : Type 0 where
  pub entries : List CsiSnapshot
  pub next_token : Text

pub record ListVolumesRequest : Type 0 where
  pub starting_token : Text
  pub max_entries : ℤ

pub record VolumePage : Type 0 where
  pub entries : List Text
  pub next_token : Text
