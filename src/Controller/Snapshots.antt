-- ===== src/Controller/Snapshots.antt =====
-- controllerServer.go: `CreateSnapshot`, `CreateSnapshotOnNS` and `DeleteSnapshot`.
pub mod Conflict
use nexentastor_csi_driver_b.Base.{
  ℕ, Text, bytes, eq_text, is_empty, split, join, Bool, true, false, not, ◌&&◌, Option, none, some,
  List, [], ◌∷◌, if◌then◌else◌, String,
}
use nexentastor_csi_driver_b.Exec.{
  Exec, Error, Code, status, invalid_argument, not_found, already_exists, internal, pure, fail,
  gets, guard, attempt, or_fail, or_missing, Tried, got, failed, status_code, is_code_not_found,
  ◌>>=◌, ◌>>◌,
}
use nexentastor_csi_driver_b.FilePath.{dir}
use nexentastor_csi_driver_b.Config.{Host}
use nexentastor_csi_driver_b.Ns.{Ns, Snapshot}
use nexentastor_csi_driver_b.Process.{Process, on}
use nexentastor_csi_driver_b.Csi.{SnapshotRequest, CsiSnapshot}
use nexentastor_csi_driver_b.Controller.Connect.{ResolveResponse, refreshed, resolve_ns}
use nexentastor_csi_driver_b.Controller.Request.{split_id, volume_group_of, joined, pair_of}

-- A snapshot of that name and of another volume.
unfoldable pub has_conflict : Text → Text → List Snapshot → Bool
has_conflict name path [] = false
has_conflict name path (s ∷ snapshots) =
    if eq_text s.name name && not (eq_text s.parent path)
    then true
    else has_conflict name path snapshots

module _ {W P R : Type 0} (ns : Ns W P R) where
  -- An error of a creation counts unless the object is there already.
  abbrev pub unless_exists : Error → Tried (Unit {0}) → Exec (Process W R) Unit
  unless_exists e (got _) = pure tt
  unless_exists e (failed f) = if ns.is_already_exist f then pure tt else fail e

  abbrev pub unless_missing : Error → Error → Tried (Unit {0}) → Exec (Process W R) Unit
  unless_missing busy e (got _) = pure tt
  unless_missing busy e (failed f) =
      if ns.is_not_exist f then pure tt else if ns.is_busy f then fail busy else fail e

  -- `CreateSnapshotOnNS`.
  unfoldable pub create_snapshot_on_ns : Option P → Text → Text → Exec (Process W R) Snapshot
  create_snapshot_on_ns provider path name = do
    existing ←
        or_fail (λ e. status not_found "Cannot get snapshots list: %s")
          (on provider (λ p. ns.get_snapshots p (dir path) true))
    guard (has_conflict name path existing)
        (status already_exists "Snapshot '%s' already exists for filesystem: %s")
    created ← attempt (on provider (λ p. ns.create_snapshot p (joined b'@' path name)))
    unless_exists (status internal "Cannot create snapshot '%s': %s") created
    or_fail
        (λ e.
          status internal
            "Snapshot '%s' has been created, but snapshot properties request failed: %s")
        (on provider (λ p. ns.get_snapshot p (joined b'@' path name)))

  -- `CreateSnapshot`.
  unfoldable pub create_snapshot : Host W → SnapshotRequest → Exec (Process W R) CsiSnapshot
  create_snapshot host req = do
    refreshed ns host []
    guard (is_empty req.source_volume_id)
        (status invalid_argument "Snapshot source volume ID must be provided")
    (config_name, path) ←
        or_missing (status invalid_argument "VolumeId is in wrong format: %s")
          (split_id req.source_volume_id)
    guard (is_empty req.name) (status invalid_argument "Snapshot name must be provided")
    group ← or_missing (status invalid_argument "Got wrong volumeId: %s") (volume_group_of path)
    resolved ← resolve_ns ns (record { volume_group = group; zone = []; config_name = config_name })
    snapshot ← create_snapshot_on_ns resolved.ns_provider path req.name
    pure (record {
      snapshot_id = joined b':' config_name (joined b'@' path req.name);
      source_volume_id = req.source_volume_id;
      creation_time = snapshot.creation_time;
      ready_to_use = true;
    })

  -- The end of `DeleteSnapshot`, on what `resolveNS` has returned.
  unfoldable pub destroy_resolved :
      Text → Text → Tried (ResolveResponse P) → Exec (Process W R) Unit
  destroy_resolved path snapshot (failed e) =
      if is_code_not_found (status_code e) then pure tt else fail e
  destroy_resolved path snapshot (got resolved) = do
    destroyed ←
        attempt (on resolved.ns_provider (λ p. ns.destroy_snapshot p (joined b'@' path snapshot)))
    unless_missing
        (status internal "Failed to delete snapshot '%s', it has dependent filesystem: %s")
        (status internal "Failed to delete snapshot '%s': %s") destroyed

  unfoldable pub delete_snapshot_of : Text → Text → Exec (Process W R) Unit
  delete_snapshot_of volume snapshot = do
    (config_name, path) ←
        or_missing (status invalid_argument "VolumeId is in wrong format: %s") (split_id volume)
    group ← or_missing (status invalid_argument "Got wrong volume: %s") (volume_group_of path)
    resolved ←
        attempt
          (resolve_ns ns (record { volume_group = group; zone = []; config_name = config_name }))
    destroy_resolved path snapshot resolved

  -- `DeleteSnapshot`.
  unfoldable pub delete_snapshot : Host W → Text → Exec (Process W R) Unit
  delete_snapshot host snapshot_id = do
    refreshed ns host []
    guard (is_empty snapshot_id) (status invalid_argument "Snapshot ID must be provided")
    elim (pair_of (split b'@' snapshot_id)) [
      | none ↦ pure tt
      | some (volume, snapshot) ↦ delete_snapshot_of volume snapshot
    ]
