-- ===== src/Node/Mount.antt =====
-- nodeServer.go: `DeviceFromTargetPath`, `mountVolume`, `NodePublishVolume` and `NodeUnpublishVolume`.
pub mod Repeat
pub mod Placed
pub mod Leaves
pub mod Local
pub mod Unmounted
pub mod Sequence
use nexentastor_csi_driver_b.Base.{
  ℕ, Text, bytes, eq_text, is_empty, contains_text, Map, Bool, true, false, not, Option, none, some,
  List, [], ◌∷◌, ◌++◌, if◌then◌else◌,
}
use nexentastor_csi_driver_b.Exec.{
  Exec, Error, Foreign, status, foreign, invalid_argument, internal, permission_denied, pure, fail,
  guard, attempt, or_fail, or_missing, Tried, got, failed, ◌>>=◌, ◌>>◌,
}
use nexentastor_csi_driver_b.FilePath.{join_path, dir}
use nexentastor_csi_driver_b.Process.{Process, outside}
use nexentastor_csi_driver_b.Csi.{Capability, AccessType, no_access_type, block, mount}
use nexentastor_csi_driver_b.Node.Device.{mount_point_permissions}
use nexentastor_csi_driver_b.Node.System.{System, Ran, MountTest, output_of, trim_space}

-- The requests of the two handlers.
pub record NodePublishRequest : Type 0 where
  pub volume_id : Text
  pub staging_target_path : Text
  pub target_path : Text
  pub capability : Option Capability
  pub context : Map Text
  pub readonly : Bool

pub record NodeUnpublishRequest : Type 0 where
  pub volume_id : Text
  pub target_path : Text

-- The error of `strconv.ParseInt`.
abbrev pub not_octal : Error
not_octal = foreign (record { identity = 0; text = bytes "strconv.ParseInt" })

-- The text of an error of a call outside the repository.
abbrev pub error_text : Error → Text
error_text (foreign f) = f.text
error_text _ = []

-- The status of an error of a mount.
abbrev pub mount_error : {W : Type 0} → System W → Error → Error
mount_error sys e =
    if sys.is_permission e
    then status permission_denied "%s"
    else if contains_text (error_text e) (bytes "invalid argument")
    then status invalid_argument "%s"
    else status internal "%s"

module _ {W R : Type 0} (sys : System W) where
  -- `findmnt` for the device of a path.
  unfoldable pub find_mount : Text → Exec (Process W R) Text
  find_mount path = do
    r ← outside (
        sys.run (
          bytes "findmnt"
          ∷ bytes "-o"
          ∷ bytes "source"
          ∷ bytes "--noheadings"
          ∷ bytes "--target"
          ∷ path
          ∷ []))
    out ← or_fail (λ e. status internal "Could not determine device path: %v") (output_of r)
    pure (trim_space out)

  -- `DeviceFromTargetPath`: the root device is refused.
  unfoldable pub device_from_target_path : Text → Exec (Process W R) Text
  device_from_target_path path = do
    device ← find_mount path
    root ← find_mount (bytes "/")
    guard (eq_text device root)
        (status invalid_argument "volumePath %s returned %s device which is a root device")
    pure device

  -- Whether a path is no mount point; a path that does not exist is made.
  unfoldable pub ready_to_mount : Text → ℕ → MountTest → Exec (Process W R) Bool
  ready_to_mount path permissions test = elim test.error [
    | none ↦ pure test.not_mount_point
    | some f ↦
        if sys.is_not_exist (foreign f)
        then or_fail (λ e. status internal "%s") (outside (sys.mkdir_all path permissions))
          >> pure true
        else fail (status internal "%s")
  ]

  -- `mountVolume`.
  unfoldable pub mount_volume : Text → Text → Text → List Text → ℕ → Exec (Process W R) Unit
  mount_volume device path fs_type options permissions = do
    test ← outside (sys.is_likely_not_mount_point path)
    free ← ready_to_mount path permissions test
    if not free then pure tt else (do
      or_fail (mount_error sys) (outside (sys.mount_device device path fs_type options))
      outside (sys.chmod path permissions))

  -- The directory of the target is made if the target is missing.
  unfoldable pub make_parent : Text → ℕ → Exec (Process W R) Unit
  make_parent path permissions = do
    missing ← outside (sys.stat_error path)
    elim missing [
      | none ↦ pure tt
      | some f ↦
          if sys.is_not_exist (foreign f)
          then or_fail (λ e. status internal "%s") (outside (sys.mkdir_all (dir path) permissions))
          else pure tt
    ]

  -- The symbolic link to a block device.
  unfoldable pub publish_block : Text → Text → Exec (Process W R) Unit
  publish_block source path = do
    r ← outside (sys.run (bytes "realpath" ∷ join_path source (bytes "device") ∷ []))
    out ← output_of r
    linked ← outside (sys.run (bytes "ln" ∷ bytes "-s" ∷ trim_space out ∷ path ∷ []))
    output_of linked
    pure tt

  unfoldable pub publish_as : NodePublishRequest → ℕ → AccessType → Exec (Process W R) Unit
  publish_as req permissions no_access_type = pure tt
  publish_as req permissions block = publish_block req.staging_target_path req.target_path
  publish_as req permissions (mount fs_type flags) = do
    device ← device_from_target_path req.staging_target_path
    mount_volume device req.target_path fs_type (if req.readonly then bytes "ro" ∷ [] else [])
        permissions

  -- The part of `NodePublishVolume` behind the checks of the request.
  unfoldable pub publish_checked : NodePublishRequest → ℕ → Capability → Exec (Process W R) Unit
  publish_checked req permissions capability = do
    make_parent req.target_path permissions
    publish_as req permissions capability.access_type

  -- `NodePublishVolume`.
  unfoldable pub node_publish_volume : NodePublishRequest → Exec (Process W R) Unit
  node_publish_volume req = do
    guard (is_empty req.volume_id) (status invalid_argument "Volume ID not provided")
    guard (is_empty req.staging_target_path)
        (status invalid_argument "Staging targetPath not provided")
    guard (is_empty req.target_path) (status invalid_argument "Target path not provided")
    capability ←
        or_missing (status invalid_argument "Volume capability not provided") req.capability
    permissions ← or_missing not_octal (mount_point_permissions req.context)
    publish_checked req permissions capability

  abbrev pub unless_not_mounted : Tried (Unit {0}) → Exec (Process W R) Unit
  unless_not_mounted (got _) = pure tt
  unless_not_mounted (failed e) =
      if contains_text (error_text e) (bytes "not mounted")
      then pure tt
      else fail (status internal "Failed to unmount target path '%s': %s")

  abbrev pub unless_gone : Tried (Unit {0}) → Exec (Process W R) Unit
  unless_gone (got _) = pure tt
  unless_gone (failed e) =
      if sys.is_not_exist e
      then pure tt
      else fail (status internal "Cannot remove unmounted target path '%s': %s")

  -- The part of `NodeUnpublishVolume` behind the test of the path.
  unfoldable pub unmount_and_remove : Text → MountTest → Exec (Process W R) Unit
  unmount_and_remove path test = elim test.error [
    | some f ↦
        if sys.is_not_exist (foreign f)
        then pure tt
        else fail (status internal "Cannot ensure that targetPath '%s' is a mount point: '%s'")
    | none ↦
        if test.not_mount_point then attempt (outside (sys.remove_all path)) >> pure tt else (do
          unmounted ← attempt (outside (sys.unmount path))
          unless_not_mounted unmounted
          removed ← attempt (outside (sys.remove_all path))
          unless_gone removed)
  ]

  -- `NodeUnpublishVolume`.
  unfoldable pub node_unpublish_volume : NodeUnpublishRequest → Exec (Process W R) Unit
  node_unpublish_volume req = do
    guard (is_empty req.volume_id) (status invalid_argument "req.VolumeId must be provided")
    guard (is_empty req.target_path) (status invalid_argument "Target path must be provided")
    test ← outside (sys.is_likely_not_mount_point req.target_path)
    unmount_and_remove req.target_path test
