-- ===== src/Controller/Session/Reading.antt =====
-- The requests that change nothing but by their refresh.
use nexentastor_csi_driver_b.Base.{
  Text, bytes, is_empty, split, contains_text, ltb_ℤ, pos, Map, true, not, ◌&&◌, some, List, [],
  ◌∷◌, ◌++◌,
}
use nexentastor_csi_driver_b.Exec.{
  Tried, got, failed, gets, guard, attempt, or_fail, status, aborted, not_found, internal,
  status_code, is_code_not_found, ◌>>=◌, ◌>>◌,
}
use nexentastor_csi_driver_b.Config.{Host, NsData}
use nexentastor_csi_driver_b.Config.Reload.Sound.{MakesMaps}
use nexentastor_csi_driver_b.Ns.{Ns, Snapshot}
use nexentastor_csi_driver_b.Process.{on, ns_data}
use nexentastor_csi_driver_b.Process.Stays.{
  Stays, Stays-bind, Stays-pure, Stays-fail, Stays-crash, Stays-gets, Stays-on, Stays-attempt,
  Stays-or_fail, Stays-or_missing, Stays-guard, Stays-if, Stays-bool, Stays-option,
}
use nexentastor_csi_driver_b.Csi.{
  ValidateRequest, PublishRequest, ListVolumesRequest, ListSnapshotsRequest, SnapshotPage,
  CsiSnapshot,
}
use nexentastor_csi_driver_b.Controller.Connect.{
  ResolveParams, ResolveResponse, last_secret, resolve_ns,
}
use nexentastor_csi_driver_b.Controller.Request.{
  split_id, volume_group_of, pair_of, joined, first_unsupported,
}
use nexentastor_csi_driver_b.Controller.Volumes.{
  validate_volume_capabilities, get_capacity, controller_publish_volume,
}
use nexentastor_csi_driver_b.Controller.Listing.{
  no_page, list_resolved, list_path, no_params, get_volume_snapshot_list, id_parts, or_no_page,
  single_resolved, get_snapshot_list_with_single_snapshot, page_of, list_all, list_snapshots,
  list_groups, list_volumes,
}
use nexentastor_csi_driver_b.Controller.Session.Connect.{resolve_ns-Stays}
use nexentastor_csi_driver_b.Controller.Session.Keeps.{
  Keeps, Keeps-or_fail, Keeps-refreshed, Keeps-guard, Keeps-or_missing,
}

module _ {W P R : Type 0} (ns : Ns W P R) where
  pub get_capacity-Stays : (parameters : Map Text) → Stays {R = R} (get_capacity ns parameters)
  unfolding get_capacity
  get_capacity-Stays parameters =
      Stays-bind _ _ (resolve_ns-Stays ns _) (λ r. Stays-on r.ns_provider _)

  -- The end of `ControllerPublishVolume`.
  publish_resolved-Stays :
      (req : PublishRequest) (parts : Text × Text)
      → Stays {R = R} (
          gets (ns_data parts.0) >>= λ d.
          resolve_ns ns
            (record { volume_group = d.default_volume_group; zone = []; config_name = parts.0 })
          >>= λ r.
              or_fail
                (λ e. status not_found "Volume %v not found on NexentaStor")
                (on r.ns_provider (λ p. ns.get_volume p parts.1))
              >> guard
                  (contains_text req.node_id (bytes "fake-node"))
                  (status not_found "Incorrect node: %v"))
  publish_resolved-Stays req parts = Stays-bind (gets (ns_data parts.0)) _ (Stays-gets _) (λ d.
      Stays-bind
        (resolve_ns ns
          (record { volume_group = d.default_volume_group; zone = []; config_name = parts.0 }))
        _ (resolve_ns-Stays ns _)
        (λ r.
          Stays-bind
            (or_fail (λ e. status not_found "Volume %v not found on NexentaStor")
              (on r.ns_provider (λ p. ns.get_volume p parts.1)))
            _ (Stays-or_fail _ _ (Stays-on r.ns_provider _))
            (λ v.
              Stays-guard (contains_text req.node_id (bytes "fake-node"))
                (status not_found "Incorrect node: %v"))))

  pub publish-Stays : (req : PublishRequest) → Stays {R = R} (controller_publish_volume ns req)
  unfolding controller_publish_volume
  publish-Stays req = Stays-bind _ _ (Stays-or_missing _ req.capability) (λ c.
      Stays-bind _ _ (Stays-guard (is_empty req.volume_id) _) (λ _.
        Stays-bind _ _ (Stays-guard (is_empty req.node_id) _) (λ _.
          Stays-bind _ _ (Stays-or_missing _ (split_id req.volume_id))
            (λ parts. publish_resolved-Stays req parts))))

  list_resolved-Stays :
      (req : ListSnapshotsRequest) (path : Text) (t : Tried (ResolveResponse P))
      → Stays {R = R} (list_resolved ns req path t)
  list_resolved-Stays req path (failed e) = Stays-pure no_page
  list_resolved-Stays req path (got r) =
      Stays-bind
        (or_fail (λ e. status internal "Cannot get snapshot list for '%s': %s")
          (on r.ns_provider (λ p. ns.get_snapshots p path true)))
        _ (Stays-or_fail _ _ (Stays-on r.ns_provider _)) (λ snapshots. Stays-pure _)

  list_path-Stays :
      (req : ListSnapshotsRequest) (params : ResolveParams) (path : Text)
      → Stays {R = R} (list_path ns req params path)
  unfolding list_path
  list_path-Stays req params path =
      Stays-bind _ _ (Stays-attempt _ (resolve_ns-Stays ns params))
        (λ t. list_resolved-Stays req path t)

  volume_snapshots-Stays :
      (volume_id : Text) (req : ListSnapshotsRequest)
      → Stays {R = R} (get_volume_snapshot_list ns volume_id req)
  unfolding get_volume_snapshot_list
  volume_snapshots-Stays volume_id req =
      Stays-option (split_id volume_id) _ _ (list_path-Stays req _ volume_id) (λ parts.
        Stays-bind _ _ (Stays-or_missing _ (volume_group_of parts.1))
          (λ g. list_path-Stays req (no_params ns) parts.1))

  id_parts-Stays : (ws : List Text) → Stays {W = W} {R = R} (id_parts ns ws)
  id_parts-Stays [] = Stays-crash (Text × Text)
  id_parts-Stays (a ∷ []) = Stays-crash (Text × Text)
  id_parts-Stays (a ∷ b ∷ ws) = Stays-pure (a, b)

  or_no_page-Stays :
      (config_name path : Text) (t : Tried Snapshot)
      → Stays {R = R} (or_no_page ns config_name path t)
  or_no_page-Stays config_name path (got s) = Stays-pure _
  or_no_page-Stays config_name path (failed e) =
      Stays-if (ns.is_not_exist e) _ _ (Stays-pure no_page) (Stays-fail SnapshotPage _)

  single_resolved-Stays :
      (config_name path snapshot : Text) (t : Tried (ResolveResponse P))
      → Stays {R = R} (single_resolved ns config_name path snapshot t)
  single_resolved-Stays config_name path snapshot (failed e) =
      Stays-if (is_code_not_found (status_code e)) _ _ (Stays-pure no_page)
        (Stays-fail SnapshotPage e)
  single_resolved-Stays config_name path snapshot (got r) =
      Stays-bind (attempt (on r.ns_provider (λ p. ns.get_snapshot p (joined b'@' path snapshot)))) _
        (Stays-attempt _ (Stays-on r.ns_provider _)) (λ t. or_no_page-Stays config_name path t)

  single_snapshot-Stays :
      (snapshot_id : Text) → Stays {R = R} (get_snapshot_list_with_single_snapshot ns snapshot_id)
  unfolding get_snapshot_list_with_single_snapshot
  single_snapshot-Stays snapshot_id =
      Stays-option (pair_of (split b'@' snapshot_id)) _ _ (Stays-pure no_page) (λ parts.
        Stays-bind _ _ (id_parts-Stays (split b':' parts.0)) (λ ids.
          Stays-bind _ _ (Stays-or_missing _ (volume_group_of ids.1)) (λ g.
            Stays-bind _ _ (Stays-attempt _ (resolve_ns-Stays ns _))
              (λ t. single_resolved-Stays ids.0 ids.1 parts.1 t))))

  page_of-Stays : (t : Tried SnapshotPage) → Stays {W = W} {R = R} (page_of ns t)
  page_of-Stays (got page) = Stays-pure page
  page_of-Stays (failed e) = Stays-crash SnapshotPage

  list_all-Stays :
      (req : ListSnapshotsRequest) (es : List (Text × NsData)) (entries : List CsiSnapshot)
      → Stays {R = R} (list_all ns req es entries)
  unfolding list_all
  list_all-Stays req [] entries = Stays-pure _
  list_all-Stays req ((name, d) ∷ es) entries =
      Stays-bind _ _ (Stays-attempt _ (volume_snapshots-Stays d.default_volume_group req)) (λ t.
        Stays-bind _ _ (page_of-Stays t) (λ page.
          Stays-bool (is_empty page.next_token) _ _
            (list_all-Stays req es (entries ++ page.entries)) (Stays-pure _)))

  list_groups-Stays :
      (req : ListVolumesRequest) (es : List (Text × NsData)) (entries : List Text) (token : Text)
      → Stays {R = R} (list_groups ns req es entries token)
  unfolding list_groups
  list_groups-Stays req [] entries token = Stays-pure _
  list_groups-Stays req ((name, d) ∷ es) entries token =
      Stays-bind _ _ (resolve_ns-Stays ns _) (λ r.
        Stays-bind _ _ (Stays-on r.ns_provider _)
          (λ page. list_groups-Stays req es _ page.next_token))

  module _ (host : Host W) (laws : MakesMaps host) where
    pub validate-Keeps :
        (req : ValidateRequest)
        → Keeps {R = R} ns host
            (some (last_secret req.secrets))
            (validate_volume_capabilities ns host req)
    unfolding validate_volume_capabilities
    validate-Keeps req =
        let secret = some (last_secret req.secrets) in
        Keeps-guard ns host secret _ (is_empty req.volume_id) _ (
          Keeps-or_missing ns host secret _ (split_id req.volume_id) _ (λ parts.
            Keeps-or_missing ns host secret _ req.capabilities _ (λ cs.
              Keeps-refreshed ns host laws (last_secret req.secrets) _
                (Stays-option (first_unsupported cs) _ _ (Stays-pure _) (λ mode. Stays-pure _)))))

    pub list_snapshots-Keeps :
        (req : ListSnapshotsRequest) → Keeps {R = R} ns host (some []) (list_snapshots ns host req)
    unfolding list_snapshots
    list_snapshots-Keeps req = Keeps-refreshed ns host laws [] _ (
        Stays-bind _ _ (Stays-gets _) (λ es.
          Stays-if (not (is_empty req.snapshot_id)) _ _ (single_snapshot-Stays req.snapshot_id) (
            Stays-if (not (is_empty req.source_volume_id)) _ _
              (volume_snapshots-Stays req.source_volume_id req) (list_all-Stays req es []))))

    pub list_volumes-Keeps :
        (req : ListVolumesRequest) → Keeps {R = R} ns host (some []) (list_volumes ns host req)
    unfolding list_volumes
    list_volumes-Keeps req = Keeps-guard ns host (some []) _ (ltb_ℤ req.max_entries (pos 0)) _ (
        Keeps-or_fail ns host laws (λ e. status aborted "Cannot use config file: %s") [] _
          (Stays-bind _ _ (Stays-gets _) (λ es.
            Stays-bind _ _ (list_groups-Stays req es [] []) (λ page.
              Stays-bind _ _
                (Stays-guard (not (is_empty req.starting_token) && is_empty page.entries) _)
                (λ _. Stays-pure page)))))
