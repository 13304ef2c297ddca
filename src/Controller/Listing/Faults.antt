-- ===== src/Controller/Listing/Faults.antt =====
-- Where the listings of snapshots go wrong.
use nexentastor_csi_driver_b.Base.{
  Text, is_empty, is_empty-append, join, split_pair, split-Lacks, Lacks, false, List, [], ◌∷◌, ◌≡◌,
  arith,
}
use nexentastor_csi_driver_b.Exec.{
  or_missing, status, invalid_argument, Error, ok, err, panic, ◌>>◌,
}
use nexentastor_csi_driver_b.Config.{Host, NsData}
use nexentastor_csi_driver_b.Ns.{Ns}
use nexentastor_csi_driver_b.Process.{Process}
use nexentastor_csi_driver_b.Csi.{ListSnapshotsRequest}
use nexentastor_csi_driver_b.Controller.Connect.{refreshed}
use nexentastor_csi_driver_b.Controller.Request.{split_id, volume_group_of, joined}
use nexentastor_csi_driver_b.Controller.Listing.{
  list_path, no_params, get_volume_snapshot_list, get_snapshot_list_with_single_snapshot, list_all,
  list_snapshots,
}

joined_full : (a b : Text) → is_empty (joined b':' a b) ≡ false
unfolding join
joined_full a b = is_empty-append a b b':'

module _ {W P R : Type 0} (ns : Ns W P R) where
  -- The path of a volume ID is what its listing goes by; the field of the request is not read again.
  list_by_path :
      (config_name path source : Text) (req : ListSnapshotsRequest) (s : Process W R)
      → Lacks b':' config_name
      → Lacks b':' path
      → get_volume_snapshot_list ns
          (joined b':' config_name path)
          (record req { source_volume_id = source })
          s
        ≡ (or_missing (status invalid_argument "Got wrong volume: %s") (volume_group_of path)
              >> list_path ns req (no_params ns) path)
            s
  unfolding get_volume_snapshot_list split_id join list_path
  list_by_path config_name path source req s hc hp =
      rw (split_pair b':' config_name path hc hp, get_volume_snapshot_list)

  -- `ListSnapshots` for a source volume does not go by the configuration that the ID names: the
  -- listings for one path in two configurations are the same in every state, whichever NexentaStors
  -- the two are.
  pub list_snapshots_ignores :
      (host : Host W) (a b path : Text) (req : ListSnapshotsRequest) (s : Process W R)
      → Lacks b':' a
      → Lacks b':' b
      → Lacks b':' path
      → req.snapshot_id ≡ []
      → list_snapshots ns host (record req { source_volume_id = joined b':' a path }) s
        ≡ list_snapshots ns host (record req { source_volume_id = joined b':' b path }) s
  unfolding list_snapshots
  list_snapshots_ignores host a b path req s ha hb hp no_id =
      let r = refreshed ns host [] s in
      let of_source = λ (c : Text) (t : Process W R) (h : Lacks b':' c).
        list_by_path c path (joined b':' c path) req t h hp in
      ground (
        arith,
        no_id,
        joined_full a path,
        joined_full b path,
        of_source a r.1 ha,
        of_source b r.1 hb,
      )

  -- A listing of all snapshots panics where the snapshots of the first entry of the configuration
  -- cannot be listed, although the error is one that the entry's own listing returns.
  pub list_snapshots_nil_page :
      (host : Host W) (req : ListSnapshotsRequest) (name : Text) (d : NsData)
      (rest : List (Text × NsData)) (s t : Process W R) (e : Error)
      → refreshed ns host [] s ≡ (ok tt, t)
      → t.config.ns_map ≡ (name, d) ∷ rest
      → req.snapshot_id ≡ []
      → req.source_volume_id ≡ []
      → (get_volume_snapshot_list ns d.default_volume_group req t).0 ≡ err e
      → (list_snapshots ns host req s).0 ≡ panic
  unfolding list_snapshots list_all
  list_snapshots_nil_page host req name d rest s t e fresh entries no_id no_volume failed =
      ground (arith, fresh, entries, no_id, no_volume, failed)

  -- A snapshot ID without a colon, as `group@name`, makes `ListSnapshots` panic.
  pub list_snapshots_panics :
      (host : Host W) (req : ListSnapshotsRequest) (volume snapshot : Text) (s t : Process W R)
      → refreshed ns host [] s ≡ (ok tt, t)
      → req.snapshot_id ≡ joined b'@' volume snapshot
      → Lacks b'@' volume
      → Lacks b'@' snapshot
      → Lacks b':' volume
      → list_snapshots ns host req s ≡ (panic, t)
  unfolding list_snapshots get_snapshot_list_with_single_snapshot join
  list_snapshots_panics host req volume snapshot s t fresh id v n c = ground (
    arith,
    fresh,
    id,
    is_empty-append volume snapshot b'@',
    split_pair b'@' volume snapshot v n,
    split-Lacks b':' volume c,
  )
