-- ===== src/Controller/Session/Invariant.antt =====
-- The invariant of the controller: what every request keeps.
use nexentastor_csi_driver_b.Base.{
  ℕ, Text, bytes, lookup, is_empty, split, eq_ℤ, pos, true, Option, none, some, List, [], ◌∷◌, ◌≡◌,
  ap,
}
use nexentastor_csi_driver_b.Exec.{Exec, ok, pure, status, invalid_argument, ◌>>◌}
use nexentastor_csi_driver_b.Config.{Host}
use nexentastor_csi_driver_b.Config.Reload.Sound.{IsSound, MakesMaps}
use nexentastor_csi_driver_b.Ns.{Ns}
use nexentastor_csi_driver_b.Process.{Process}
use nexentastor_csi_driver_b.Process.Stays.{
  Stays, Stays-bind, Stays-pure, Stays-or_missing, Stays-guard, Stays-option,
}
use nexentastor_csi_driver_b.Csi.{VolumeRequest, CreateRequest, ExpandRequest, SnapshotRequest}
use nexentastor_csi_driver_b.Controller.Connect.{last_secret, new_controller_server}
use nexentastor_csi_driver_b.Controller.Request.{split_id, volume_group_of, pair_of, joined}
use nexentastor_csi_driver_b.Controller.Volumes.{
  with_volume, delete_volume, delete_resolved, controller_unpublish_volume, unpublish_resolved,
  controller_expand_volume, no_expansion,
}
use nexentastor_csi_driver_b.Controller.Snapshots.{create_snapshot, delete_snapshot}
use nexentastor_csi_driver_b.Controller.Create.{create_volume, parse_sparse, sources}
use nexentastor_csi_driver_b.Controller.Session.{
  Request, create, delete, unpublish, expand, snapshot, remove_snapshot, validate, publish,
  capacity, list, list_all_snapshots, secret_of, serve, serve_all, Refreshes, IsConnected,
}
use nexentastor_csi_driver_b.Controller.Session.Connect.{resolve_ns-Stays}
use nexentastor_csi_driver_b.Controller.Session.Keeps.{
  Keeps, Keeps-Stays, Keeps-refreshed, Keeps-guard, Keeps-dropped,
}
use nexentastor_csi_driver_b.Controller.Session.Reading.{
  validate-Keeps, publish-Stays, get_capacity-Stays, list_volumes-Keeps, list_snapshots-Keeps,
}
use nexentastor_csi_driver_b.Controller.Session.Started.{new_controller_server-IsConnected}
use nexentastor_csi_driver_b.Controller.Session.Volumes.{
  expand_resolved-Stays, delete_resolved-Stays, unpublish_resolved-Stays, in_volume-Stays,
}
use nexentastor_csi_driver_b.Controller.Session.Creation.{
  create_snapshot_on_ns-Stays, delete_snapshot_of-Stays, create_checked-Stays, refuse_mode-Stays,
}

module _ {W P R : Type 0} (ns : Ns W P R) (host : Host W) (laws : MakesMaps host) where
  with_volume-Keeps :
      (k : Text → Option P → Exec (Process W R) Unit) (req : VolumeRequest)
      → ((path : Text) (p : Option P) → Stays (k path p))
      → Keeps ns host (some (last_secret req.secrets)) (with_volume ns host req k)
  unfolding with_volume
  with_volume-Keeps k req stays = Keeps-refreshed ns host laws (last_secret req.secrets) _ (
      Stays-bind _ _
        (Stays-guard (is_empty req.volume_id)
          (status invalid_argument "Volume ID must be provided"))
        (λ _.
          Stays-option (split_id req.volume_id) (pure tt) _ (Stays-pure tt)
            (λ parts. in_volume-Stays ns k stays parts)))

  expand-Keeps :
      (req : ExpandRequest)
      → Keeps ns host (some (last_secret req.secrets)) (controller_expand_volume ns host req)
  unfolding controller_expand_volume
  expand-Keeps req = Keeps-refreshed ns host laws (last_secret req.secrets) _ (
      Stays-bind _ _
        (Stays-guard (eq_ℤ req.required_bytes (pos 0))
          (status invalid_argument "GetRequiredBytes must be >0"))
        (λ _.
          Stays-bind _ _
            (Stays-guard (is_empty req.volume_id)
              (status invalid_argument "Volume ID must be provided"))
            (λ _.
              Stays-bind _ _
                (Stays-or_missing (status invalid_argument "VolumeId is in wrong format: %s")
                  (split_id req.volume_id))
                (λ parts.
                  Stays-option (volume_group_of parts.1) (pure no_expansion) _
                    (Stays-pure no_expansion)
                    (λ group.
                      Stays-bind _ _
                        (resolve_ns-Stays ns
                          (record { volume_group = group; zone = []; config_name = parts.0 }))
                        (λ r.
                          expand_resolved-Stays ns parts.1 req.required_bytes r.ns_provider))))))

  snapshot-Keeps : (req : SnapshotRequest) → Keeps ns host (some []) (create_snapshot ns host req)
  unfolding create_snapshot
  snapshot-Keeps req = Keeps-refreshed ns host laws [] _ (
      Stays-bind _ _
        (Stays-guard (is_empty req.source_volume_id)
          (status invalid_argument "Snapshot source volume ID must be provided"))
        (λ _.
          Stays-bind _ _
            (Stays-or_missing (status invalid_argument "VolumeId is in wrong format: %s")
              (split_id req.source_volume_id))
            (λ parts.
              Stays-bind _ _
                (Stays-guard (is_empty req.name)
                  (status invalid_argument "Snapshot name must be provided"))
                (λ _.
                  Stays-bind _ _
                    (Stays-or_missing (status invalid_argument "Got wrong volumeId: %s")
                      (volume_group_of parts.1))
                    (λ group.
                      Stays-bind _ _
                        (resolve_ns-Stays ns
                          (record { volume_group = group; zone = []; config_name = parts.0 }))
                        (λ r.
                          Stays-bind _ _
                            (create_snapshot_on_ns-Stays ns r.ns_provider parts.1 req.name)
                            (λ s. Stays-pure (record {
                              snapshot_id = joined b':' parts.0 (joined b'@' parts.1 req.name);
                              source_volume_id = req.source_volume_id;
                              creation_time = s.creation_time;
                              ready_to_use = true;
                            }))))))))

  remove-Keeps : (id : Text) → Keeps ns host (some []) (delete_snapshot ns host id)
  unfolding delete_snapshot
  remove-Keeps id = Keeps-refreshed ns host laws [] _ (
      Stays-bind _ _
        (Stays-guard (is_empty id) (status invalid_argument "Snapshot ID must be provided"))
        (λ _.
          Stays-option (pair_of (split b'@' id)) (pure tt) _ (Stays-pure tt)
            (λ parts. delete_snapshot_of-Stays ns parts.0 parts.1)))

  create-Keeps :
      (req : CreateRequest)
      → Keeps ns host (some (last_secret req.secrets)) (create_volume ns host req)
  unfolding create_volume
  create-Keeps req =
      Keeps-guard ns host (some (last_secret req.secrets))
        (status invalid_argument "req.Name must be provided") (is_empty req.name) _
        (Keeps-refreshed ns host laws (last_secret req.secrets) _ (
          Stays-bind _ _
            (Stays-or_missing (status invalid_argument "req.VolumeCapabilities must be provided")
              req.capabilities)
            (λ cs. Stays-bind _ _ (refuse_mode-Stays ns cs) (λ _.
              Stays-bind _ _
                (Stays-or_missing
                  (status invalid_argument
                    "Could not parse sparseVolume parameter = %s, error: %+v")
                  (parse_sparse (lookup (bytes "sparseVolume") req.parameters)))
                (λ sparse.
                  Stays-bind _ _
                    (Stays-or_missing
                      (status invalid_argument
                        "Only snapshots and volumes are supported as volume content source, but got type: %s")
                      (sources req.source))
                    (λ source. create_checked-Stays ns req sparse source))))))

  module _ (sleep : ℕ → Exec W Unit) where
    serve-Keeps : (r : Request) → Keeps ns host (secret_of r) (serve ns host sleep r)
    unfolding serve delete_volume controller_unpublish_volume
    serve-Keeps (create r) = Keeps-dropped ns host (some (last_secret r.secrets)) _ (create-Keeps r)
    serve-Keeps (delete r) = with_volume-Keeps (delete_resolved ns) r (delete_resolved-Stays ns)
    serve-Keeps (unpublish r) =
        with_volume-Keeps (λ path p. unpublish_resolved ns sleep path p >> pure tt) r
          (λ path p. Stays-bind _ _ (unpublish_resolved-Stays ns sleep path p) (λ _. Stays-pure tt))
    serve-Keeps (expand r) = Keeps-dropped ns host (some (last_secret r.secrets)) _ (expand-Keeps r)
    serve-Keeps (snapshot r) = Keeps-dropped ns host (some []) _ (snapshot-Keeps r)
    serve-Keeps (remove_snapshot id) = remove-Keeps id
    serve-Keeps (validate r) =
        Keeps-dropped ns host (some (last_secret r.secrets)) _ (validate-Keeps ns host laws r)
    serve-Keeps (publish r) = Keeps-Stays ns host _ (publish-Stays ns r)
    serve-Keeps (capacity ps) =
        Keeps-dropped ns host none _ (Keeps-Stays ns host _ (get_capacity-Stays ns ps))
    serve-Keeps (list r) = Keeps-dropped ns host (some []) _ (list_volumes-Keeps ns host laws r)
    serve-Keeps (list_all_snapshots r) =
        Keeps-dropped ns host (some []) _ (list_snapshots-Keeps ns host laws r)

    serve_all-IsConnected :
        (rs : List Request) (s : Process W R)
        → IsConnected s
        → Refreshes ns host sleep rs s
        → IsConnected (serve_all ns host sleep rs s)
    unfolding serve_all Refreshes
    serve_all-IsConnected [] s safe h = safe
    serve_all-IsConnected (r ∷ rs) s safe h =
        serve_all-IsConnected rs (serve ns host sleep r s).1 (serve-Keeps r s safe h.0) h.1

    -- A controller that has started with a sound configuration, and whatever requests it serves,
    -- in whatever order and with whatever answers, has a sound configuration and a resolver for
    -- each NexentaStor of it, as long as no refresh of the configuration fails on the way, if the
    -- YAML parser makes maps.
    pub session-IsConnected :
        (rs : List Request) (s t : Process W R)
        → IsSound s.config
        → new_controller_server ns s ≡ (ok tt, t)
        → Refreshes ns host sleep rs t
        → IsConnected (serve_all ns host sleep rs t)
    session-IsConnected rs s t sound started h =
        let first = new_controller_server-IsConnected ns s sound (ap (λ x. x.0) started) in
        serve_all-IsConnected rs t (rw (ap (λ x. x.1) started) at first) h
