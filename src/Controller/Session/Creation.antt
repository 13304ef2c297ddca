-- ===== src/Controller/Session/Creation.antt =====
-- What `CreateVolume`, `CreateSnapshot` and `DeleteSnapshot` do behind the refresh changes nothing of
-- the process.
use nexentastor_csi_driver_b.Base.{
  Text, bytes, ℤ, is_empty, Bool, true, not, Option, List, [], ◌++◌,
}
use nexentastor_csi_driver_b.Exec.{
  Exec, Error, Tried, got, failed, pure, gets, status, not_found, internal, already_exists,
  invalid_argument, status_code, is_code_not_found,
}
use nexentastor_csi_driver_b.FilePath.{join_path, dir}
use nexentastor_csi_driver_b.Ns.{Ns}
use nexentastor_csi_driver_b.Process.{Process, ns_data}
use nexentastor_csi_driver_b.Process.Stays.{
  Stays, Stays-bind, Stays-pure, Stays-fail, Stays-gets, Stays-on, Stays-or_missing, Stays-attempt,
  Stays-or_fail, Stays-if, Stays-guard, Stays-option,
}
use nexentastor_csi_driver_b.Csi.{CreateRequest, Capability}
use nexentastor_csi_driver_b.Controller.Connect.{ResolveParams, ResolveResponse}
use nexentastor_csi_driver_b.Controller.Request.{
  split_id, volume_group_of, joined, first_unsupported, pick_availability_zone,
}
use nexentastor_csi_driver_b.Controller.Snapshots.{
  has_conflict, unless_exists, unless_missing, create_snapshot_on_ns, destroy_resolved,
  delete_snapshot_of,
}
use nexentastor_csi_driver_b.Controller.Create.{
  Sources, created_volume, accept_existing, after_create, create_new_volume, after_clone,
  create_new_volume_from_snapshot, create_cloned_volume, make, provision, create_checked,
  refuse_mode,
}
use nexentastor_csi_driver_b.Controller.Session.Connect.{resolve_ns-Stays}

module _ {W P R : Type 0} (ns : Ns W P R) where
  unless_exists-Stays : (e : Error) (t : Tried (Unit {0})) → Stays {R = R} (unless_exists ns e t)
  unless_exists-Stays e (got u) = Stays-pure tt
  unless_exists-Stays e (failed f) =
      Stays-if (ns.is_already_exist f) _ _ (Stays-pure tt) (Stays-fail _ e)

  pub create_snapshot_on_ns-Stays :
      (p : Option P) (path name : Text) → Stays {R = R} (create_snapshot_on_ns ns p path name)
  unfolding create_snapshot_on_ns
  create_snapshot_on_ns-Stays p path name =
      Stays-bind _ _
        (Stays-or_fail (λ e. status not_found "Cannot get snapshots list: %s") _
          (Stays-on p (λ q. ns.get_snapshots q (dir path) true)))
        (λ existing.
          Stays-bind _ _
            (Stays-guard (has_conflict name path existing)
              (status already_exists "Snapshot '%s' already exists for filesystem: %s"))
            (λ _.
              Stays-bind _ _
                (Stays-attempt _ (Stays-on p (λ q. ns.create_snapshot q (joined b'@' path name))))
                (λ created.
                  Stays-bind _ _
                    (unless_exists-Stays (status internal "Cannot create snapshot '%s': %s")
                      created)
                    (λ _.
                      Stays-or_fail _ _
                        (Stays-on p (λ q. ns.get_snapshot q (joined b'@' path name)))))))

  unless_missing-Stays :
      (busy e : Error) (t : Tried (Unit {0})) → Stays {R = R} (unless_missing ns busy e t)
  unless_missing-Stays busy e (got u) = Stays-pure tt
  unless_missing-Stays busy e (failed f) =
      Stays-if (ns.is_not_exist f) _ _ (Stays-pure tt)
        (Stays-if (ns.is_busy f) _ _ (Stays-fail _ busy) (Stays-fail _ e))

  destroy_resolved-Stays :
      (path snapshot : Text) (t : Tried (ResolveResponse P))
      → Stays {R = R} (destroy_resolved ns path snapshot t)
  unfolding destroy_resolved
  destroy_resolved-Stays path snapshot (failed e) =
      Stays-if (is_code_not_found (status_code e)) _ _ (Stays-pure tt) (Stays-fail _ e)
  destroy_resolved-Stays path snapshot (got r) =
      Stays-bind _ _
        (Stays-attempt _
          (Stays-on r.ns_provider (λ q. ns.destroy_snapshot q (joined b'@' path snapshot))))
        (λ t. unless_missing-Stays _ _ t)

  pub delete_snapshot_of-Stays :
      (volume snapshot : Text) → Stays {R = R} (delete_snapshot_of ns volume snapshot)
  unfolding delete_snapshot_of
  delete_snapshot_of-Stays volume snapshot =
      Stays-bind _ _
        (Stays-or_missing (status invalid_argument "VolumeId is in wrong format: %s")
          (split_id volume))
        (λ parts.
          Stays-bind _ _
            (Stays-or_missing (status invalid_argument "Got wrong volume: %s")
              (volume_group_of parts.1))
            (λ group.
              Stays-bind _ _
                (Stays-attempt _ (
                  resolve_ns-Stays ns
                    (record { volume_group = group; zone = []; config_name = parts.0 })))
                (λ t. destroy_resolved-Stays parts.1 snapshot t)))

  after_create-Stays :
      (p : Option P) (path : Text) (size : ℤ) (t : Tried (Unit {0}))
      → Stays {R = R} (after_create ns p path size t)
  unfolding accept_existing
  after_create-Stays p path size (got u) = Stays-pure tt
  after_create-Stays p path size (failed e) =
      Stays-if (ns.is_already_exist e) _ _
        (Stays-bind _ _
          (Stays-or_fail
            (λ e.
              status internal
                "Volume '%s' already exists, but volume properties request failed: %s")
            _ (Stays-on p (λ q. ns.get_volume q path)))
          (λ v. Stays-guard _ _))
        (Stays-fail _ _)

  create_new_volume-Stays :
      (p : Option P) (path : Text) (size : ℤ) (sparse : Bool)
      → Stays {R = R} (create_new_volume ns p path size sparse)
  unfolding create_new_volume
  create_new_volume-Stays p path size sparse =
      Stays-bind _ _ (Stays-attempt _ (Stays-on p (λ q. ns.create_volume q path size sparse)))
        (λ t. after_create-Stays p path size t)

  after_clone-Stays : (e : Error) (t : Tried (Unit {0})) → Stays {R = R} (after_clone ns e t)
  after_clone-Stays e (got u) = Stays-pure tt
  after_clone-Stays e (failed f) =
      Stays-if (ns.is_already_exist f) _ _ (Stays-pure tt) (Stays-fail _ e)

  from_snapshot-Stays :
      (p : Option P) (source path : Text)
      → Stays {R = R} (create_new_volume_from_snapshot ns p source path)
  unfolding create_new_volume_from_snapshot
  from_snapshot-Stays p source path =
      Stays-bind _ _
        (Stays-or_fail (λ e. status not_found "Failed to find snapshot '%s': %s") _
          (Stays-on p (λ q. ns.get_snapshot q source)))
        (λ s.
          Stays-bind _ _ (Stays-attempt _ (Stays-on p (λ q. ns.clone_snapshot q s.path path)))
            (λ t. after_clone-Stays _ t))

  cloned-Stays :
      (p : Option P) (source path name : Text)
      → Stays {R = R} (create_cloned_volume ns p source path name)
  unfolding create_cloned_volume
  cloned-Stays p source path name =
      Stays-bind _ _ (create_snapshot_on_ns-Stays p source (bytes "k8s-clone-snapshot-" ++ name))
        (λ s.
          Stays-bind _ _
            (Stays-attempt _ (
              Stays-on p (λ q.
                ns.clone_snapshot q (joined b'@' source (bytes "k8s-clone-snapshot-" ++ name))
                  path)))
            (λ t. after_clone-Stays _ t))

  make-Stays :
      (name : Text) (params : ResolveParams) (k : Option P → Text → Exec (Process W R) Unit)
      → ((p : Option P) (path : Text) → Stays (k p path))
      → Stays (make ns name params k)
  make-Stays name params k h = Stays-bind _ _ (resolve_ns-Stays ns params) (λ r.
      Stays-bind (k r.ns_provider (join_path r.volume_group name)) _ (h r.ns_provider _)
        (λ _. Stays-pure _))

  provision-Stays :
      (name : Text) (size : ℤ) (sparse : Bool) (source : Sources) (params : ResolveParams)
      → Stays {R = R} (provision ns name size sparse source params)
  unfolding provision
  provision-Stays name size sparse source params =
      Stays-if (not (is_empty source.snapshot_id)) _ _
        (Stays-bind _ _
          (Stays-or_missing (status not_found "SnapshotId is in wrong format: %s")
            (split_id source.snapshot_id))
          (λ parts.
            make-Stays name (record params { config_name = parts.0 }) _
              (λ p path. from_snapshot-Stays p parts.1 path)))
        (Stays-if (not (is_empty source.volume_id)) _ _
          (Stays-bind _ _
            (Stays-or_missing (status not_found "VolumeId is in wrong format: %s")
              (split_id source.volume_id))
            (λ parts.
              make-Stays name (record params { config_name = parts.0 }) _
                (λ p path. cloned-Stays p parts.1 path name)))
          (make-Stays name params _ (λ p path. create_new_volume-Stays p path size sparse)))

  pub create_checked-Stays :
      (req : CreateRequest) (sparse : Bool) (source : Sources)
      → Stays {R = R} (create_checked ns req sparse source)
  unfolding create_checked
  create_checked-Stays req sparse source =
      Stays-bind _ _ (provision-Stays req.name _ sparse source _) (λ made.
        Stays-bind (gets (ns_data made.resolved.config_name)) _ (Stays-gets _) (λ d. Stays-pure (
          created_volume req source.content_source (pick_availability_zone req.requirement) d
            made.resolved.config_name made.resolved.volume_group made.path)))

  pub refuse_mode-Stays : (cs : List Capability) → Stays {R = R} (refuse_mode ns cs)
  refuse_mode-Stays cs =
      Stays-option (first_unsupported cs) (pure tt) _ (Stays-pure tt) (λ mode. Stays-fail _ _)
