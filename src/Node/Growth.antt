-- ===== src/Node/Growth.antt =====
-- nodeServer.go: `RescanDevice` and `NodeExpandVolume`.
pub mod Resized
use nexentastor_csi_driver_b.Base.{
  ℕ, Text, bytes, is_empty, has_prefix, Option, none, some, ◌++◌, if◌then◌else◌,
}
use nexentastor_csi_driver_b.Exec.{
  Exec, status, invalid_argument, internal, not_found, pure, gets, guard, attempt, or_fail,
  or_missing, Tried, got, failed, ◌>>=◌, ◌>>◌,
}
use nexentastor_csi_driver_b.Ns.{Ns}
use nexentastor_csi_driver_b.Ns.Iscsi.{Iscsi}
use nexentastor_csi_driver_b.Process.{Process, outside, on, ns_data}
use nexentastor_csi_driver_b.Csi.{Capability, AccessType, no_access_type, block, mount}
use nexentastor_csi_driver_b.Controller.Request.{split_id}
use nexentastor_csi_driver_b.Node.Connect.{node_resolve_ns}
use nexentastor_csi_driver_b.Node.Context.{drop_prefix}
use nexentastor_csi_driver_b.Node.System.{System}
use nexentastor_csi_driver_b.Node.Mount.{device_from_target_path}

pub record NodeExpandRequest : Type 0 where
  pub volume_id : Text
  pub volume_path : Text
  pub capability : Option Capability

-- The access type that the getters of a capability give, also where there is no capability.
abbrev pub access_type_of : Option Capability → AccessType
access_type_of none = no_access_type
access_type_of (some c) = c.access_type

-- The file of a device that starts a rescan.
abbrev pub rescan_file : Text → Text
rescan_file device =
    bytes "/sys/block"
    ++ ((if has_prefix device (bytes "/dev") then drop_prefix (bytes "/dev") device else device)
        ++ bytes "/device/rescan")

module _ {W R : Type 0} (sys : System W) where
  -- The write to the file, once it is open; neither an error nor a write of no bytes matters.
  abbrev poke : Text → Tried (Unit {0}) → Exec (Process W R) Unit
  poke file (failed e) = pure tt
  poke file (got opened) = attempt (outside (sys.write_string file (bytes "1"))) >> pure tt

  -- `RescanDevice`: every error is only logged.
  unfoldable pub rescan_device : Text → Exec (Process W R) Unit
  rescan_device device = do
    opened ← attempt (outside (sys.open_append (rescan_file device)))
    poke (rescan_file device) opened

  -- The switch of `NodeExpandVolume` over the access type.
  unfoldable pub grow_as : Text → AccessType → Exec (Process W R) Unit
  grow_as path no_access_type = pure tt
  grow_as path block = rescan_device path
  grow_as path (mount fs_type flags) = do
    device ← device_from_target_path sys path
    rescan_device device
    or_fail (λ e. status internal "Could not resize volume %q (%q):  %v")
        (outside (sys.resize_fs device path))

module _ {W P R : Type 0} (ns : Ns W P R) (iscsi : Iscsi W P) (sys : System W) where
  -- `NodeExpandVolume`, which does not refresh the configuration, and which resolves the default
  -- volume group of the entry whatever the path of the volume is.
  unfoldable pub node_expand_volume : NodeExpandRequest → Exec (Process W R) Unit
  node_expand_volume req = do
    guard (is_empty req.volume_id) (status invalid_argument "Volume ID not provided")
    (config_name, path) ←
        or_missing (status invalid_argument "VolumeId is in wrong format: %s")
          (split_id req.volume_id)
    d ← gets (ns_data config_name)
    (provider, name) ← node_resolve_ns ns iscsi config_name d.default_volume_group
    or_fail (λ e. status not_found "Did not find volume %s: %s")
        (on provider (λ p. ns.get_volume p path))
    guard (is_empty req.volume_path) (status invalid_argument "Staging volumePath not provided")
    grow_as sys req.volume_path (access_type_of req.capability)
