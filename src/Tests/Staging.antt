-- ===== src/Tests/Staging.antt =====
-- A node that stages a volume. The mounts are kept beside the volumes of the appliance in memory.
use nexentastor_csi_driver_b.Base.{not, Bool, none}
use nexentastor_csi_driver_b.Exec.{Outcome, ok}
use nexentastor_csi_driver_b.Process.{Process}
use nexentastor_csi_driver_b.Node.Stage.{node_stage_volume}
use nexentastor_csi_driver_b.Node.System.{System}
use nexentastor_csi_driver_b.Tests.Appliance.{Box, memory, put_device}
use nexentastor_csi_driver_b.Tests.Fixtures.{disk}
use nexentastor_csi_driver_b.Tests.Mount.{stage_request}
use nexentastor_csi_driver_b.Tests.Node.{portals, node_host}
use nexentastor_csi_driver_b.Tests.Growth.{machine, is_some, node}

abbrev worker : System Box
worker = record machine {
  stat_error = λ path w. (ok none, w);
  is_likely_not_mount_point = λ path w.
      (ok (record { not_mount_point = not (is_some (w.device_of path)); error = none }), w);
  mount_device = λ device path fs_type options w. (ok tt, put_device path device w);
}

abbrev staged : Outcome Bool × Process Box (Unit {0})
staged = node_stage_volume memory portals node_host worker 2 disk stage_request node
