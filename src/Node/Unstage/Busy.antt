-- ===== src/Node/Unstage/Busy.antt =====
-- A volume that cannot be unmounted.
use nexentastor_csi_driver_b.Base.{Text, List, ◌≡◌}
use nexentastor_csi_driver_b.Exec.{Exec, Error, err}
use nexentastor_csi_driver_b.Process.{Process}
use nexentastor_csi_driver_b.Node.System.{System}
use nexentastor_csi_driver_b.Node.Mount.Repeat.{MountTable}
use nexentastor_csi_driver_b.Node.Mount.Leaves.{Leaves}

-- A path that is busy: every unmount of it fails and leaves the mount as it is, and so do programs,
-- looks at the path and writes to files.
pub record IsBusy {W : Type 0} (sys : System W) (table : MountTable sys) (path : Text)
    : Type 0 where
  pub refused : (w : W) → (e : Error) × ((sys.unmount path w).0 ≡ err e)
  pub unmount_keeps : (w : W) → table.mounted path (sys.unmount path w).1 ≡ table.mounted path w
  pub run_keeps :
      (command : List Text) (w : W)
      → table.mounted path (sys.run command w).1 ≡ table.mounted path w
  pub test_keeps :
      (w : W) → table.mounted path (sys.is_likely_not_mount_point path w).1 ≡ table.mounted path w
  pub open_keeps :
      (file : Text) (w : W) → table.mounted path (sys.open_append file w).1 ≡ table.mounted path w
  pub write_keeps :
      (file content : Text) (w : W)
      → table.mounted path (sys.write_string file content w).1 ≡ table.mounted path w

module _ {W R : Type 0} (sys : System W) (table : MountTable sys) (path : Text)
    (busy : IsBusy sys table path) where
  abbrev Stays : {A : Type 0} → Exec (Process W R) A → Type 0
  Stays m = Leaves sys table path m
