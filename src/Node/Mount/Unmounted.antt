-- ===== src/Node/Mount/Unmounted.antt =====
-- What `NodeUnpublishVolume` leaves at its path.
use nexentastor_csi_driver_b.Base.{
  Text, bytes, is_empty, contains_text, true, false, none, some, ◌≡◌, ◌∙◌, refl, sym, ap, inl, inr,
  arith, Bool-cases, Option-cases,
}
use nexentastor_csi_driver_b.Exec.{Exec, ok, attempt, foreign, Outcome-cases, ◌>>=◌, Foreign}
use nexentastor_csi_driver_b.Exec.Steps.{guard_ok, bind_at, bind_ok}
use nexentastor_csi_driver_b.Process.{Process, outside}
use nexentastor_csi_driver_b.Node.System.{System, MountTest}
use nexentastor_csi_driver_b.Node.Mount.{
  NodeUnpublishRequest, error_text, unless_gone, unmount_and_remove, node_unpublish_volume,
}
use nexentastor_csi_driver_b.Node.Mount.Leaves.{MountSet, Leaves, Leaves-bind}
use nexentastor_csi_driver_b.Node.Mount.Local.{remove-Kept, unless_gone-Kept}

module _ {W R : Type 0} (sys : System W) (laws : MountSet sys) (path : Text) where
  -- The end of `NodeUnpublishVolume` behind the unmount.
  abbrev removal : Exec (Process W R) Unit
  removal = attempt (outside (sys.remove_all path)) >>= unless_gone sys

  removal-Leaves : Leaves sys laws.table path removal
  removal-Leaves =
      Leaves-bind sys laws.table path _ _ (remove-Kept sys laws path path)
        (λ t. unless_gone-Kept sys laws path t)

  -- A path that is taken for no mount point.
  unmount_free :
      (s : Process W R) (test : MountTest)
      → test.error ≡ none
      → test.not_mount_point ≡ true
      → laws.table.mounted path s.world ≡ false
      → laws.table.mounted path (unmount_and_remove sys path test s).1.world ≡ false
  unfolding unmount_and_remove
  unmount_free s test sure free h =
      let removed = (remove-Kept {R = R} sys laws path path).same s in
      let r = sys.remove_all path s.world in
      elim (Outcome-cases r.0) [
        | inl (inl (u, e)) ↦ ground (arith, removed)
        | inl (inr (x, e)) ↦ ground (arith, removed)
        | inr e ↦ ground (arith, removed)
      ]

  -- A mount point: what follows the unmount starts without a mount.
  unmount_taken :
      (s : Process W R) (test : MountTest)
      → test.error ≡ none
      → test.not_mount_point ≡ false
      → (unmount_and_remove sys path test s).0 ≡ ok tt
      → (v : Process W R) × (laws.table.mounted path v.world ≡ false)
        × (unmount_and_remove sys path test s ≡ removal v)
  unfolding unmount_and_remove
  unmount_taken s test sure taken h =
      let u = sys.unmount path s.world in
      let v : Process W R = record s { world = u.1 } in
      elim (Outcome-cases u.0) [
        | inl (inl (a, e)) ↦ (v, laws.unmounted path s.world e, ground arith)
        | inl (inr (x, e)) ↦
            elim (Bool-cases (contains_text (error_text x) (bytes "not mounted"))) [
              | inl said ↦ (v, laws.not_mounted path s.world x e said, ground arith)
              | inr other ↦ ground arith
            ]
        | inr e ↦ ground arith
      ]

  unmount_absent :
      (s : Process W R) (test : MountTest) (f : Foreign)
      → test.error ≡ some f
      → (unmount_and_remove sys path test s).0 ≡ ok tt
      → (sys.is_not_exist (foreign f) ≡ true) × (unmount_and_remove sys path test s ≡ (ok tt, s))
  unfolding unmount_and_remove
  unmount_absent s test f given h = elim (Bool-cases (sys.is_not_exist (foreign f))) [
    | inl gone ↦ (gone, ground arith)
    | inr other ↦ ground arith
  ]

  unmount_and_remove-unmounted :
      (s : Process W R) (test : MountTest) (w : W)
      → (sys.is_likely_not_mount_point path w).0 ≡ ok test
      → (sys.is_likely_not_mount_point path w).1 ≡ s.world
      → (unmount_and_remove sys path test s).0 ≡ ok tt
      → laws.table.mounted path (unmount_and_remove sys path test s).1.world ≡ false
  unmount_and_remove-unmounted s test w seen here h = elim (Option-cases test.error) [
    | inl sure ↦ elim (Bool-cases test.not_mount_point) [
      | inl free ↦
          unmount_free s test sure free (
            ap (laws.table.mounted path) (sym here)
            ∙ laws.no_mount_point path w test seen sure free)
      | inr taken ↦
          let (v, unmounted, same) = unmount_taken s test sure taken h in
          rw same (removal-Leaves.same v ∙ unmounted)
    ]
    | inr (f, given) ↦
        let (gone, same) = unmount_absent s test f given h in
        rw same
          (ap (laws.table.mounted path) (sym here) ∙ laws.absent path w test f seen given gone)
  ]

module _ {W R : Type 0} (sys : System W) (laws : MountSet sys) where
  -- `NodeUnpublishVolume` that succeeds leaves no mount at its path.
  pub unpublish-unmounted :
      (req : NodeUnpublishRequest) (s : Process W R)
      → (node_unpublish_volume sys req s).0 ≡ ok tt
      → laws.table.mounted req.target_path (node_unpublish_volume sys req s).1.world ≡ false
  unfolding node_unpublish_volume
  unpublish-unmounted req s h =
      let (a, h1) = guard_ok (is_empty req.volume_id) _ _ s tt h in
      let (b, h2) = guard_ok (is_empty req.target_path) _ _ s tt h1 in
      let look = outside (sys.is_likely_not_mount_point req.target_path) in
      let (test, e, h3) = bind_ok look _ s tt h2 in
      let same : node_unpublish_volume sys req s
          ≡ unmount_and_remove sys req.target_path test (look s).1 =
        rw (a, b, node_unpublish_volume) (bind_at look _ s test e) in
      rw same
        (unmount_and_remove-unmounted sys laws req.target_path (look s).1 test s.world e refl h3)
