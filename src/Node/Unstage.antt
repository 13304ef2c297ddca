-- ===== src/Node/Unstage.antt =====
-- nodeServer.go: `RemoveDevice`, `FlushBufs` and `NodeUnstageVolume`.
pub mod Busy
use nexentastor_csi_driver_b.Base.{
  ℕ, Text, bytes, is_empty, has_prefix, contains_text, ◌==◌, Bool, true, false, Option, none, some,
  List, [], ◌∷◌, ◌++◌, if◌then◌else◌,
}
use nexentastor_csi_driver_b.Exec.{
  Exec, Error, Foreign, status, foreign, invalid_argument, pure, fail, guard, attempt, Tried, got,
  failed, ◌>>=◌, ◌>>◌,
}
use nexentastor_csi_driver_b.FilePath.{join_path}
use nexentastor_csi_driver_b.Process.{Process, outside}
use nexentastor_csi_driver_b.Node.Context.{drop_prefix}
use nexentastor_csi_driver_b.Node.System.{System, Ran, MountTest, output_of, trim_space}
use nexentastor_csi_driver_b.Node.Mount.{device_from_target_path}

pub record NodeUnstageRequest : Type 0 where
  pub volume_id : Text
  pub staging_target_path : Text

-- The file of a device under `/host/sys/block`.
abbrev pub device_file : Text → Text → Text
device_file device file =
    bytes "/host/sys/block"
    ++ ((if has_prefix device (bytes "/dev") then drop_prefix (bytes "/dev") device else device)
        ++ file)

-- The device of an attempt, or the empty text.
abbrev or_empty : Tried Text → Text
or_empty (got device) = device
or_empty (failed e) = []

module _ {W R : Type 0} (sys : System W) where
  -- A file is opened and a text is written to it; the count of bytes is returned.
  unfoldable pub write_file : Text → Text → Exec (Process W R) ℕ
  write_file path content = do
    outside (sys.open_append path)
    outside (sys.write_string path content)

  -- `RemoveDevice`: a write of no bytes ends it with success.
  unfoldable pub remove_device : Text → Exec (Process W R) Unit
  remove_device device = do
    written ← write_file (device_file device (bytes "/device/state")) (bytes "offline\n")
    if written == 0
        then pure tt
        else (do write_file (device_file device (bytes "/device/delete")) (bytes "1"); pure tt)

  -- `FlushBufs`. The error of a program is an exit status, and its text is tested.
  unfoldable pub flush_bufs : Text → Exec (Process W R) Unit
  flush_bufs device = do
    r ← outside (sys.run (bytes "blockdev" ∷ bytes "--flushbufs" ∷ device ∷ []))
    elim r.error [
      | none ↦ pure tt
      | some f ↦ if contains_text f.text (bytes "No such") then pure tt else fail (foreign f)
    ]

  -- The device behind the link of a raw block volume, flushed.
  unfoldable pub leave_block : Text → Exec (Process W R) Text
  leave_block path = do
    r ← outside (sys.run (bytes "realpath" ∷ join_path path (bytes "device") ∷ []))
    let device = trim_space r.output
    attempt (flush_bufs device)
    pure device

  -- The unmount of a mount point; its error is only logged.
  unfoldable pub try_unmount : Text → MountTest → Exec (Process W R) Unit
  try_unmount path test =
      if test.not_mount_point then pure tt else attempt (outside (sys.unmount path)) >> pure tt

  unfoldable pub leave_mount : Text → Exec (Process W R) Text
  leave_mount path = do
    device ← attempt (device_from_target_path sys path)
    test ← outside (sys.is_likely_not_mount_point path)
    try_unmount path test
    pure (or_empty device)

  abbrev or_absent : Tried (Unit {0}) → Exec (Process W R) Unit
  or_absent (got _) = pure tt
  or_absent (failed e) = if sys.is_not_exist e then pure tt else fail e

  -- The removal of the staging path.
  unfoldable pub remove_path : Text → Exec (Process W R) Unit
  remove_path path = do removed ← attempt (outside (sys.remove_all path)); or_absent removed

  -- `NodeUnstageVolume`: every error before the removal of the path is only logged.
  unfoldable pub node_unstage_volume : NodeUnstageRequest → Exec (Process W R) Unit
  node_unstage_volume req = do
    guard (is_empty req.volume_id) (status invalid_argument "req.VolumeId must be provided")
    guard (is_empty req.staging_target_path)
        (status invalid_argument "Target path must be provided")
    device ←
        (if contains_text req.staging_target_path (bytes "volumeDevices")
          then leave_block req.staging_target_path
          else leave_mount req.staging_target_path)
    attempt (remove_device device)
    remove_path req.staging_target_path
