-- ===== src/Tests/Mounts.antt =====
-- A node that publishes volumes and ends their publication.
use nexentastor_csi_driver_b.Base.{
  Text, bytes, eq_text, eq_text_iff, eq_text_refl, lookup, false, List, [], ◌∷◌, ◌≡◌, refl, arith,
  if◌then◌else◌,
}
use nexentastor_csi_driver_b.Exec.{ok}
use nexentastor_csi_driver_b.Node.Device.{mount_point_permissions}
use nexentastor_csi_driver_b.Node.System.{System, trim_left, trim_right}
use nexentastor_csi_driver_b.Node.Mount.{
  find_mount, device_from_target_path, ready_to_mount, mount_volume, make_parent, publish_as,
  publish_checked, node_publish_volume, unmount_and_remove, node_unpublish_volume,
}
use nexentastor_csi_driver_b.Node.Mount.Repeat.{MountTable}
use nexentastor_csi_driver_b.Node.Mount.Leaves.{MountSet}
use nexentastor_csi_driver_b.Node.Mount.Sequence.{
  Call, publish, unpublish, serve, serve_all, known, served-mounted,
}
use nexentastor_csi_driver_b.Tests.Mount.{holds, linux, idle, publish_request}

abbrev without : Text → List Text → List Text
without path [] = []
without path (p ∷ ps) = if eq_text p path then without path ps else p ∷ without path ps

holds-without : (path : Text) (ps : List Text) → holds path (without path ps) ≡ false
holds-without path [] = refl
holds-without path (p ∷ ps) = ground (arith, holds-without path ps)

holds-without_other :
    (path q : Text) (ps : List Text)
    → eq_text path q ≡ false
    → holds q (without path ps) ≡ holds q ps
holds-without_other path q [] other = refl
holds-without_other path q (p ∷ ps) other = ground (
  arith,
  holds-without_other path q ps other,
  eq_text_iff p path,
  eq_text_iff p q,
  eq_text_iff path q,
)

-- A system that takes its mounts away again.
abbrev mounter : System (List Text)
mounter = record linux { unmount = λ path w. (ok tt, without path w) }

mounter-MountTable : MountTable mounter
mounter-MountTable = record {
  mounted = holds;
  reported = λ path w h. rw h refl;
  found = λ path w test h e f. ground arith;
  made = λ device path fs_type options w h. rw (eq_text_refl path) refl;
  kept = λ path permissions w. refl;
}

mounter-MountSet : MountSet mounter
unfolding mounter-MountTable
mounter-MountSet = record {
  table = mounter-MountTable;
  run_keeps = λ command w q. refl;
  stat_keeps = λ path w q. refl;
  mkdir_keeps = λ path permissions w q. refl;
  chmod_keeps = λ path permissions w q. refl;
  remove_keeps = λ path w q. refl;
  test_keeps = λ path w q. refl;
  mount_local = λ device path fs_type options w q other. rw other refl;
  unmount_local = λ path w q other. holds-without_other path q w other;
  unmounted = λ path w h. holds-without path w;
  not_mounted = λ path w e h said. holds-without path w;
  no_mount_point = λ path w test h sure free. ground arith;
  absent = λ path w test f h given gone. ground arith;
}

-- A volume is published twice, and then not any more.
abbrev calls : List Call
calls =
    publish publish_request
    ∷ publish publish_request
    ∷ unpublish (record { volume_id = bytes "one:p/g/v"; target_path = bytes "/pod" })
    ∷ []

served-mounted_example :
    mounter-MountSet.table.mounted (bytes "/pod") (serve_all mounter calls idle).world ≡ false
unfolding eq_text lookup trim_left trim_right mount_point_permissions find_mount
    device_from_target_path ready_to_mount mount_volume make_parent publish_as publish_checked
    node_publish_volume unmount_and_remove node_unpublish_volume serve known
served-mounted_example =
    served-mounted mounter mounter-MountSet (bytes "/pod") calls idle false refl
