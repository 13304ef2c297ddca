-- ===== src/Controller/Listing.antt =====
-- controllerServer.go: `ListSnapshots` with its two helpers and `convertNSSnapshotToCSISnapshot`, and
-- `ListVolumes`.
pub mod Pages
pub mod Collect
pub mod Faults
use nexentastor_csi_driver_b.Base.{
  ℕ, Text, bytes, eq_text, is_empty, split, ℤ, pos, eq_ℤ, ltb_ℤ, int32, Bool, true, false, not,
  ◌&&◌, Option, none, some, List, [], ◌∷◌, ◌++◌, map, if◌then◌else◌, length,
}
use nexentastor_csi_driver_b.Exec.{
  Exec, Error, Code, status, invalid_argument, internal, aborted, failed_precondition, pure, fail,
  crash, gets, guard, attempt, or_fail, or_missing, Tried, got, failed, status_code,
  is_code_not_found, ◌>>=◌, ◌>>◌,
}
use nexentastor_csi_driver_b.Config.{Host, NsData}
use nexentastor_csi_driver_b.Ns.{Ns, Snapshot, Volume}
use nexentastor_csi_driver_b.Process.{Process, on}
use nexentastor_csi_driver_b.Csi.{
  CsiSnapshot, ListSnapshotsRequest, SnapshotPage, ListVolumesRequest, VolumePage,
}
use nexentastor_csi_driver_b.Controller.Connect.{
  ResolveParams, ResolveResponse, refreshed, refresh_config, resolve_ns,
}
use nexentastor_csi_driver_b.Controller.Request.{split_id, volume_group_of, joined, pair_of}

-- `convertNSSnapshotToCSISnapshot`.
unfoldable pub convert : Text → Snapshot → CsiSnapshot
convert config_name s = record {
  snapshot_id = joined b':' config_name s.path;
  source_volume_id = joined b':' config_name s.parent;
  creation_time = s.creation_time;
  ready_to_use = true;
}

abbrev pub no_page : SnapshotPage
no_page = record { entries = []; next_token = [] }

-- `maxEntries != 0 && int32(len(entries)) == maxEntries`.
abbrev pub is_full : ℤ → List CsiSnapshot → Bool
is_full max entries = not (eq_ℤ max (pos 0)) && eq_ℤ (int32 (length entries)) max

-- The end of a round: the page ends if it is full and another snapshot is there.
abbrev end_page : ℤ → List CsiSnapshot → List Snapshot → SnapshotPage → SnapshotPage
end_page max entries [] rest = rest
end_page max entries (next ∷ snapshots) rest =
    if is_full max entries then record { entries = entries; next_token = next.path } else rest

-- The loop of `getVolumeSnapshotList`: the snapshots before the starting token are skipped.
unfoldable pub page_loop :
    (Snapshot → CsiSnapshot) → ℤ → Text → List CsiSnapshot → List Snapshot → SnapshotPage
page_loop f max token entries [] = record { entries = entries; next_token = [] }
page_loop f max token entries (s ∷ snapshots) =
    let token' = if eq_text s.path token then [] else token in
    elim (is_empty token') [
      | false ↦ page_loop f max token' entries snapshots
      | true ↦
          let entries' = entries ++ (f s ∷ []) in
          end_page max entries' snapshots (page_loop f max token' entries' snapshots)
    ]

module _ {W P R : Type 0} (ns : Ns W P R) where
  -- The snapshots of a volume, once the appliance is known.
  abbrev pub list_resolved :
      ListSnapshotsRequest → Text → Tried (ResolveResponse P) → Exec (Process W R) SnapshotPage
  list_resolved req path (failed e) = pure no_page
  list_resolved req path (got resolved) = do
    snapshots ←
        or_fail (λ e. status internal "Cannot get snapshot list for '%s': %s")
          (on resolved.ns_provider (λ p. ns.get_snapshots p path true))
    pure (page_loop (convert resolved.config_name) req.max_entries req.starting_token [] snapshots)

  unfoldable pub list_path :
      ListSnapshotsRequest → ResolveParams → Text → Exec (Process W R) SnapshotPage
  list_path req params path = do
    resolved ← attempt (resolve_ns ns params)
    list_resolved req path resolved

  -- `ResolveNSParams{}`.
  abbrev pub no_params : ResolveParams
  no_params = record { volume_group = []; zone = []; config_name = [] }

  -- `getVolumeSnapshotList`. For a volume ID of two parts the parameters are set on a second variable
  -- of that name, inside the branch, and the search goes by the empty ones outside.
  unfoldable pub get_volume_snapshot_list :
      Text → ListSnapshotsRequest → Exec (Process W R) SnapshotPage
  get_volume_snapshot_list volume_id req = elim (split_id volume_id) [
    | some (config_name, path) ↦ do
      or_missing (status invalid_argument "Got wrong volume: %s") (volume_group_of path)
      list_path req no_params path
    | none ↦ list_path req (record no_params { volume_group = volume_id }) volume_id
  ]

  -- The parts of a snapshot ID: `splittedSnapshotId[1]` panics where the ID has no colon.
  abbrev pub id_parts : List Text → Exec (Process W R) (Text × Text)
  id_parts [] = crash
  id_parts (config_name ∷ []) = crash
  id_parts (config_name ∷ path ∷ rest) = pure (config_name, path)

  abbrev pub or_no_page : Text → Text → Tried Snapshot → Exec (Process W R) SnapshotPage
  or_no_page config_name path (got s) =
      pure (record { entries = convert config_name s ∷ []; next_token = [] })
  or_no_page config_name path (failed e) =
      if ns.is_not_exist e
      then pure no_page
      else fail (status internal "Cannot get snapshot '%s' for snapshot list: %s")

  abbrev pub single_resolved :
      Text → Text → Text → Tried (ResolveResponse P) → Exec (Process W R) SnapshotPage
  single_resolved config_name path snapshot (failed e) =
      if is_code_not_found (status_code e) then pure no_page else fail e
  single_resolved config_name path snapshot (got resolved) = do
    found ← attempt (on resolved.ns_provider (λ p. ns.get_snapshot p (joined b'@' path snapshot)))
    or_no_page config_name path found

  -- `getSnapshotListWithSingleSnapshot`.
  unfoldable pub get_snapshot_list_with_single_snapshot : Text → Exec (Process W R) SnapshotPage
  get_snapshot_list_with_single_snapshot snapshot_id = elim (pair_of (split b'@' snapshot_id)) [
    | none ↦ pure no_page
    | some (volume, snapshot) ↦ do
      (config_name, path) ← id_parts (split b':' volume)
      group ← or_missing (status invalid_argument "Got wrong volume: %s") (volume_group_of path)
      resolved ←
          attempt
            (resolve_ns ns (record { volume_group = group; zone = []; config_name = config_name }))
      single_resolved config_name path snapshot resolved
  ]

  -- `resp.Entries` panics on the nil response of a failure.
  abbrev pub page_of : Tried SnapshotPage → Exec (Process W R) SnapshotPage
  page_of (got page) = pure page
  page_of (failed e) = crash

  -- The loop of `ListSnapshots` over the configuration.
  unfoldable pub list_all :
      ListSnapshotsRequest
      → List (Text × NsData)
      → List CsiSnapshot
      → Exec (Process W R) SnapshotPage
  list_all req [] entries = pure (record { entries = entries; next_token = [] })
  list_all req ((name, d) ∷ rest) entries = do
    tried ← attempt (get_volume_snapshot_list d.default_volume_group req)
    page ← page_of tried
    elim (is_empty page.next_token) [
      | true ↦ list_all req rest (entries ++ page.entries)
      | false ↦ pure (record { entries = entries ++ page.entries; next_token = page.next_token })
    ]

  -- `ListSnapshots`.
  unfoldable pub list_snapshots : Host W → ListSnapshotsRequest → Exec (Process W R) SnapshotPage
  list_snapshots host req = do
    refreshed ns host []
    entries ← gets (λ s. s.config.ns_map)
    if not (is_empty req.snapshot_id)
        then get_snapshot_list_with_single_snapshot req.snapshot_id
        else if not (is_empty req.source_volume_id)
        then get_volume_snapshot_list req.source_volume_id req
        else list_all req entries []

  abbrev pub volume_ids : Text → List Volume → List Text
  volume_ids config_name = map (λ v. joined b':' config_name v.path)

  -- The loop of `ListVolumes`: the token is that of the last entry, and an error is dropped.
  unfoldable pub list_groups :
      ListVolumesRequest → List (Text × NsData) → List Text → Text → Exec (Process W R) VolumePage
  list_groups req [] entries token = pure (record { entries = entries; next_token = token })
  list_groups req ((name, d) ∷ rest) entries token = do
    resolved ← resolve_ns ns (record { volume_group = []; zone = []; config_name = name })
    page ← on resolved.ns_provider (λ p.
        ns.get_volumes_with_starting_token p resolved.volume_group req.starting_token
          req.max_entries)
    list_groups req rest (entries ++ volume_ids name page.volumes) page.next_token

  -- `ListVolumes`.
  unfoldable pub list_volumes : Host W → ListVolumesRequest → Exec (Process W R) VolumePage
  list_volumes host req = do
    guard (ltb_ℤ req.max_entries (pos 0))
        (status invalid_argument "req.MaxEntries must be 0 or greater, got: %d")
    or_fail (λ e. status aborted "Cannot use config file: %s") (refresh_config ns host [])
    entries ← gets (λ s. s.config.ns_map)
    page ← list_groups req entries [] []
    guard (not (is_empty req.starting_token) && is_empty page.entries)
        (status aborted "Failed to find filesystem started from token '%s': %s")
    pure page
