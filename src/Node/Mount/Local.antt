-- ===== src/Node/Mount/Local.antt =====
-- `NodePublishVolume` and `NodeUnpublishVolume` leave the mounts of all other paths alone.
use nexentastor_csi_driver_b.Base.{
  ℕ, Text, bytes, eq_text, is_empty, contains_text, Bool, true, false, not, List, ◌≡◌,
}
use nexentastor_csi_driver_b.Exec.{
  Exec, Tried, got, failed, status, internal, foreign, attempt, or_fail,
}
use nexentastor_csi_driver_b.FilePath.{dir}
use nexentastor_csi_driver_b.Process.{Process, outside}
use nexentastor_csi_driver_b.Csi.{AccessType, no_access_type, block, mount}
use nexentastor_csi_driver_b.Node.Device.{mount_point_permissions}
use nexentastor_csi_driver_b.Node.System.{System, MountTest, output_of, trim_space}
use nexentastor_csi_driver_b.Node.Mount.{
  NodePublishRequest, NodeUnpublishRequest, error_text, mount_error, find_mount,
  device_from_target_path, ready_to_mount, mount_volume, make_parent, publish_block, publish_as,
  publish_checked, node_publish_volume, unless_not_mounted, unless_gone, unmount_and_remove,
  node_unpublish_volume,
}
use nexentastor_csi_driver_b.Node.Mount.Leaves.{
  MountSet, Leaves, Leaves-fail, Leaves-guard, Leaves-pure, Leaves-outside, Leaves-or_missing,
  Leaves-attempt, Leaves-or_fail, Leaves-if, Leaves-option, Leaves-bind, Leaves-output_of,
}

module _ {W R : Type 0} (sys : System W) (laws : MountSet sys) (q : Text) where
  -- The path of the section is left alone.
  abbrev Kept : {A : Type 0} → Exec (Process W R) A → Type 0
  Kept m = Leaves sys laws.table q m

  run-Kept : (command : List Text) → Kept (outside (sys.run command))
  run-Kept command =
      Leaves-outside sys laws.table q (sys.run command) (λ w. laws.run_keeps command w q)

  find_mount-Kept : (path : Text) → Kept (find_mount sys path)
  unfolding find_mount
  find_mount-Kept path = Leaves-bind sys laws.table q _ _ (run-Kept _) (λ r.
      Leaves-bind sys laws.table q
        (or_fail (λ e. status internal "Could not determine device path: %v") (output_of r)) _
        (Leaves-or_fail sys laws.table q _ (output_of r) (Leaves-output_of sys laws.table q r))
        (λ out. Leaves-pure sys laws.table q (trim_space out)))

  device-Kept : (path : Text) → Kept (device_from_target_path sys path)
  unfolding device_from_target_path
  device-Kept path = Leaves-bind sys laws.table q _ _ (find_mount-Kept path) (λ device.
      Leaves-bind sys laws.table q _ _ (find_mount-Kept (bytes "/")) (λ root.
        Leaves-bind sys laws.table q _ _ (Leaves-guard sys laws.table q (eq_text device root) _)
          (λ _. Leaves-pure sys laws.table q device)))

  ready-Kept :
      (path : Text) (permissions : ℕ) (test : MountTest)
      → Kept (ready_to_mount sys path permissions test)
  unfolding ready_to_mount
  ready-Kept path permissions test =
      Leaves-option sys laws.table q test.error _ _
        (Leaves-pure sys laws.table q test.not_mount_point)
        (λ f.
          Leaves-if sys laws.table q (sys.is_not_exist (foreign f)) _ _
            (Leaves-bind sys laws.table q _ _
              (Leaves-or_fail sys laws.table q (λ e. status internal "%s") _
                (Leaves-outside sys laws.table q (sys.mkdir_all path permissions)
                  (λ w. laws.mkdir_keeps path permissions w q)))
              (λ _. Leaves-pure sys laws.table q true))
            (Leaves-fail sys laws.table q Bool _))

  mount_volume-Kept :
      (device path fs_type : Text) (options : List Text) (permissions : ℕ)
      → eq_text path q ≡ false
      → Kept (mount_volume sys device path fs_type options permissions)
  unfolding mount_volume
  mount_volume-Kept device path fs_type options permissions other =
      Leaves-bind sys laws.table q _ _
        (Leaves-outside sys laws.table q (sys.is_likely_not_mount_point path)
          (λ w. laws.test_keeps path w q))
        (λ test. Leaves-bind sys laws.table q _ _ (ready-Kept path permissions test) (λ free.
          Leaves-if sys laws.table q (not free) _ _ (Leaves-pure sys laws.table q tt) (
            Leaves-bind sys laws.table q _ _
              (Leaves-or_fail sys laws.table q (mount_error sys) _ (
                Leaves-outside sys laws.table q (sys.mount_device device path fs_type options)
                  (λ w. laws.mount_local device path fs_type options w q other)))
              (λ _.
                Leaves-outside sys laws.table q (sys.chmod path permissions)
                  (λ w. laws.chmod_keeps path permissions w q)))))

  make_parent-Kept : (path : Text) (permissions : ℕ) → Kept (make_parent sys path permissions)
  unfolding make_parent
  make_parent-Kept path permissions =
      Leaves-bind sys laws.table q _ _
        (Leaves-outside sys laws.table q (sys.stat_error path) (λ w. laws.stat_keeps path w q))
        (λ missing.
          Leaves-option sys laws.table q missing _ _ (Leaves-pure sys laws.table q tt) (λ f.
            Leaves-if sys laws.table q (sys.is_not_exist (foreign f)) _ _
              (Leaves-or_fail sys laws.table q (λ e. status internal "%s") _
                (Leaves-outside sys laws.table q (sys.mkdir_all (dir path) permissions)
                  (λ w. laws.mkdir_keeps (dir path) permissions w q)))
              (Leaves-pure sys laws.table q tt)))

  publish_block-Kept : (source path : Text) → Kept (publish_block sys source path)
  unfolding publish_block
  publish_block-Kept source path = Leaves-bind sys laws.table q _ _ (run-Kept _) (λ r.
      Leaves-bind sys laws.table q _ _ (Leaves-output_of sys laws.table q r) (λ out.
        Leaves-bind sys laws.table q _ _ (run-Kept _) (λ linked.
          Leaves-bind sys laws.table q _ _ (Leaves-output_of sys laws.table q linked)
            (λ _. Leaves-pure sys laws.table q tt))))

  publish_as-Kept :
      (req : NodePublishRequest) (permissions : ℕ) (t : AccessType)
      → eq_text req.target_path q ≡ false
      → Kept (publish_as sys req permissions t)
  unfolding publish_as
  publish_as-Kept req permissions no_access_type other = Leaves-pure sys laws.table q tt
  publish_as-Kept req permissions block other =
      publish_block-Kept req.staging_target_path req.target_path
  publish_as-Kept req permissions (mount fs_type flags) other =
      Leaves-bind sys laws.table q _ _ (device-Kept req.staging_target_path)
        (λ device. mount_volume-Kept device req.target_path fs_type _ permissions other)

  pub publish-Kept :
      (req : NodePublishRequest)
      → eq_text req.target_path q ≡ false
      → Kept (node_publish_volume sys req)
  unfolding node_publish_volume publish_checked
  publish-Kept req other =
      Leaves-bind sys laws.table q _ _ (Leaves-guard sys laws.table q (is_empty req.volume_id) _)
        (λ _.
          Leaves-bind sys laws.table q _ _
            (Leaves-guard sys laws.table q (is_empty req.staging_target_path) _)
            (λ _.
              Leaves-bind sys laws.table q _ _
                (Leaves-guard sys laws.table q (is_empty req.target_path) _)
                (λ _.
                  Leaves-bind sys laws.table q _ _
                    (Leaves-or_missing sys laws.table q _ req.capability)
                    (λ c.
                      Leaves-bind sys laws.table q _ _
                        (Leaves-or_missing sys laws.table q _ (mount_point_permissions req.context))
                        (λ permissions.
                          Leaves-bind sys laws.table q _ _
                            (make_parent-Kept req.target_path permissions)
                            (λ _. publish_as-Kept req permissions c.access_type other))))))

  unless_not_mounted-Kept : (t : Tried (Unit {0})) → Kept (unless_not_mounted sys t)
  unless_not_mounted-Kept (got u) = Leaves-pure sys laws.table q tt
  unless_not_mounted-Kept (failed e) =
      Leaves-if sys laws.table q (contains_text (error_text e) (bytes "not mounted")) _ _
        (Leaves-pure sys laws.table q tt) (Leaves-fail sys laws.table q Unit _)

  pub unless_gone-Kept : (t : Tried (Unit {0})) → Kept (unless_gone sys t)
  unless_gone-Kept (got u) = Leaves-pure sys laws.table q tt
  unless_gone-Kept (failed e) =
      Leaves-if sys laws.table q (sys.is_not_exist e) _ _ (Leaves-pure sys laws.table q tt)
        (Leaves-fail sys laws.table q Unit _)

  -- The removal of a path does not look at its mounts.
  pub remove-Kept : (path : Text) → Kept (attempt (outside (sys.remove_all path)))
  remove-Kept path =
      Leaves-attempt sys laws.table q _
        (Leaves-outside sys laws.table q (sys.remove_all path) (λ w. laws.remove_keeps path w q))

  unmount-Kept :
      (path : Text) (test : MountTest)
      → eq_text path q ≡ false
      → Kept (unmount_and_remove sys path test)
  unfolding unmount_and_remove
  unmount-Kept path test other =
      Leaves-option sys laws.table q test.error _ _
        (Leaves-if sys laws.table q test.not_mount_point _ _
          (Leaves-bind sys laws.table q _ _ (remove-Kept path)
            (λ _. Leaves-pure sys laws.table q tt))
          (Leaves-bind sys laws.table q _ _
            (Leaves-attempt sys laws.table q _ (
              Leaves-outside sys laws.table q (sys.unmount path)
                (λ w. laws.unmount_local path w q other)))
            (λ u. Leaves-bind sys laws.table q _ _ (unless_not_mounted-Kept u) (λ _.
              Leaves-bind sys laws.table q _ _ (remove-Kept path) (λ t. unless_gone-Kept t)))))
        (λ f.
          Leaves-if sys laws.table q (sys.is_not_exist (foreign f)) _ _
            (Leaves-pure sys laws.table q tt) (Leaves-fail sys laws.table q Unit _))

  pub unpublish-Kept :
      (req : NodeUnpublishRequest)
      → eq_text req.target_path q ≡ false
      → Kept (node_unpublish_volume sys req)
  unfolding node_unpublish_volume
  unpublish-Kept req other =
      Leaves-bind sys laws.table q _ _ (Leaves-guard sys laws.table q (is_empty req.volume_id) _)
        (λ _.
          Leaves-bind sys laws.table q _ _
            (Leaves-guard sys laws.table q (is_empty req.target_path) _)
            (λ _.
              Leaves-bind sys laws.table q _ _
                (Leaves-outside sys laws.table q (sys.is_likely_not_mount_point req.target_path)
                  (λ w. laws.test_keeps req.target_path w q))
                (λ test. unmount-Kept req.target_path test other)))
