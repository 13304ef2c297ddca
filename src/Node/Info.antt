-- ===== src/Node/Info.antt =====
-- nodeServer.go: `NodeGetInfo`, `NodeGetCapabilities`, `NodeGetVolumeStats`, `getBlockSizeBytes`,
-- `IsBlockDevice` and `stringInArray`.
use Prim.Native.Nat.{bit_and}
use nexentastor_csi_driver_b.Base.{
  Text, bytes, eq_text, is_empty, Map, ℤ, Bool, true, false, List, [], ◌∷◌, if◌then◌else◌, ◌==◌,
}
use nexentastor_csi_driver_b.Exec.{
  Exec, status, errorf, invalid_argument, not_found, failed_precondition, pure, guard, or_fail,
  or_missing, ◌>>=◌, ◌>>◌,
}
use nexentastor_csi_driver_b.Strconv.{parse_int}
use nexentastor_csi_driver_b.Config.{Host}
use nexentastor_csi_driver_b.Ns.{Ns}
use nexentastor_csi_driver_b.Ns.Iscsi.{Iscsi}
use nexentastor_csi_driver_b.Process.{Process, outside, on}
use nexentastor_csi_driver_b.Controller.Request.{split_id}
use nexentastor_csi_driver_b.Node.Connect.{node_refresh_config, node_resolve_ns}
use nexentastor_csi_driver_b.Node.System.{System, output_of, trim_space}

-- `csi.NodeGetInfoResponse`, with the segments of its topology.
pub record NodeInfo : Type 0 where
  pub node_id : Text
  pub segments : Map Text

-- `NodeGetInfo`: a node names no segment of a topology, whatever zones the configuration has.
unfoldable pub node_get_info : Text → NodeInfo
node_get_info node_id = record { node_id = node_id; segments = [] }

pub data NodeCapability : Type 0 where
  expand_volume stage_unstage_volume : NodeCapability

-- `NodeGetCapabilities`.
unfoldable pub node_get_capabilities : List NodeCapability
node_get_capabilities = expand_volume ∷ stage_unstage_volume ∷ []

-- `stringInArray`.
unfoldable pub string_in_array : List Text → Text → Bool
string_in_array [] to_find = false
string_in_array (item ∷ items) to_find =
    if eq_text item to_find then true else string_in_array items to_find

pub record NodeStatsRequest : Type 0 where
  pub volume_id : Text
  pub volume_path : Text

module _ {W P R : Type 0} (ns : Ns W P R) (iscsi : Iscsi W P) where
  -- `NodeGetVolumeStats`: the path of the ID takes the place of the path of the request, and is
  -- resolved as if it were a volume group.
  unfoldable pub node_get_volume_stats : Host W → NodeStatsRequest → Exec (Process W R) ℤ
  node_get_volume_stats host req = do
    guard (is_empty req.volume_path) (status invalid_argument "req.VolumePath must be provided")
    guard (is_empty req.volume_id) (status invalid_argument "req.VolumeId must be provided")
    or_fail (λ e. status failed_precondition "Cannot use config file: %s")
        (node_refresh_config ns host [])
    (config_name, path) ←
        or_missing (status invalid_argument "VolumeId is in wrong format: %s")
          (split_id req.volume_id)
    (provider, name) ← node_resolve_ns ns iscsi config_name path
    or_fail (λ e. status not_found "Cannot find filesystem '%s': %s")
        (on provider (λ p. iscsi.get_filesystem_available_capacity p path))

module _ {W R : Type 0} (sys : System W) where
  -- `getBlockSizeBytes`; -1 beside an error is no value.
  unfoldable pub get_block_size_bytes : Text → Exec (Process W R) ℤ
  get_block_size_bytes device = do
    r ← outside (sys.run (bytes "blockdev" ∷ bytes "--getsize64" ∷ device ∷ []))
    out ←
        or_fail
          (λ e. errorf "error when getting size of block volume at path %s: output: %s, err: %v")
          (output_of r)
    or_missing (errorf "failed to parse size %s as int") (parse_int 10 64 (trim_space out))

  -- `IsBlockDevice`: the bits `unix.S_IFMT` of the mode are `unix.S_IFBLK`.
  unfoldable pub is_block_device : Text → Exec (Process W R) Bool
  is_block_device path = do
    mode ← outside (sys.stat_mode path)
    pure (bit_and mode 0xf000 == 0x6000)
