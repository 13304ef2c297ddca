-- ===== src/Controller/Create.antt =====
-- controllerServer.go: `CreateVolume`, `createNewVolume`, `createNewVolumeFromSnapshot` and
-- `createClonedVolume`.
pub mod Fresh
use nexentastor_csi_driver_b.Base.{
  ℕ, Text, bytes, eq_text, is_empty, split, join, Map, lookup, value_or, ℤ, pos, eq_ℤ, Bool, true,
  false, not, ◌&&◌, ◌||◌, Option, none, some, List, [], ◌∷◌, ◌++◌, if◌then◌else◌, String,
}
use nexentastor_csi_driver_b.Exec.{
  Exec, Error, Code, status, invalid_argument, not_found, already_exists, internal,
  failed_precondition, pure, fail, gets, guard, attempt, or_fail, or_missing, Tried, got, failed,
  ◌>>=◌, ◌>>◌,
}
use nexentastor_csi_driver_b.FilePath.{join_path}
use nexentastor_csi_driver_b.Config.{Host, NsData}
use nexentastor_csi_driver_b.Ns.{Ns}
use nexentastor_csi_driver_b.Process.{Process, on, ns_data}
use nexentastor_csi_driver_b.Csi.{
  ContentSource, snapshot_source, volume_source, other_source, CreateRequest, CreatedVolume,
  Capability,
}
use nexentastor_csi_driver_b.Controller.Connect.{
  ResolveParams, ResolveResponse, refreshed, resolve_ns, last_secret,
}
use nexentastor_csi_driver_b.Controller.Request.{
  split_id, joined, first_unsupported, pick_availability_zone,
}
use nexentastor_csi_driver_b.Controller.Snapshots.{create_snapshot_on_ns}

abbrev one_of : Text → List Text → Bool
one_of s [] = false
one_of s (t ∷ ts) = eq_text s t || one_of s ts

-- `strconv.ParseBool`.
unfoldable pub parse_bool : Text → Option Bool
parse_bool s =
    if one_of s
      (bytes "1" ∷ bytes "t" ∷ bytes "T" ∷ bytes "true" ∷ bytes "TRUE" ∷ bytes "True" ∷ [])
    then some true
    else if one_of s
        (bytes "0" ∷ bytes "f" ∷ bytes "F" ∷ bytes "false" ∷ bytes "FALSE" ∷ bytes "False" ∷ [])
    then some false
    else none

-- The parameter `sparseVolume`, true by default.
unfoldable pub parse_sparse : Option Text → Option Bool
parse_sparse none = some true
parse_sparse (some v) = parse_bool v

-- `sourceSnapshotId` and `sourceVolumeId`, with the text empty where the source is another.
pub record Sources : Type 0 where
  pub snapshot_id : Text
  pub volume_id : Text
  pub content_source : Option ContentSource

-- The sources of a request; `none` is a source of an unknown type.
unfoldable pub sources : Option ContentSource → Option Sources
sources none = some (record { snapshot_id = []; volume_id = []; content_source = none })
sources (some (snapshot_source id)) =
    some (record { snapshot_id = id; volume_id = []; content_source = some (snapshot_source id) })
sources (some (volume_source id)) =
    some (record { snapshot_id = []; volume_id = id; content_source = some (volume_source id) })
sources (some other_source) = none

-- The requested size, or a GiB.
abbrev pub capacity_or_default : ℤ → ℤ
capacity_or_default n = if eq_ℤ n (pos 0) then pos 1073741824 else n

-- A parameter of the request, or the value of the configuration.
abbrev pub parameter_or : String → Map Text → Text → Text
parameter_or key parameters d = value_or d (lookup (bytes key) parameters)

-- The `VolumeContext` of the response.
unfoldable pub volume_context : Map Text → NsData → Text → Map Text
volume_context ps d group =
    (bytes "DataIP", parameter_or "dataIP" ps d.default_data_ip)
    ∷ (bytes "VolumeGroup", group)
    ∷ (bytes "Target", parameter_or "target" ps d.default_target)
    ∷ (bytes "TargetGroup", parameter_or "targetGroup" ps d.default_target_group)
    ∷ (bytes "HostGroup", parameter_or "hostGroup" ps d.default_host_group)
    ∷ (bytes "iSCSIPort", parameter_or "iSCSIPort" ps d.default_iscsi_port)
    ∷ (bytes "iSCSITargetPrefix", parameter_or "iSCSITargetPrefix" ps d.iscsi_target_prefix)
    ∷ (bytes "numOfLunsPerTarget", parameter_or "numOfLunsPerTarget" ps d.num_of_luns_per_target)
    ∷ (bytes "useChapAuth", parameter_or "useChapAuth" ps d.use_chap_auth)
    ∷ (bytes "chapUser", parameter_or "chapUser" ps d.chap_user)
    ∷ (bytes "chapSecret", parameter_or "chapSecret" ps d.chap_secret)
    ∷ (
      bytes "mountPointPermissions",
      parameter_or "mountPointPermissions" ps d.mount_point_permissions,
    )
    ∷ []

-- The answer to a creation.
unfoldable pub created_volume :
    CreateRequest → Option ContentSource → Text → NsData → Text → Text → Text → CreatedVolume
created_volume req source zone d config_name group path = record {
  content_source = source;
  volume_id = joined b':' config_name path;
  capacity_bytes = capacity_or_default req.required_bytes;
  context = volume_context req.parameters d group;
  topology = if is_empty zone then none else some zone;
}

-- A volume that has been made, with what `resolveNS` said of it.
pub record Made (P : Type 0) : Type 0 where
  pub resolved : ResolveResponse P
  pub path : Text

module _ {W P R : Type 0} (ns : Ns W P R) where
  -- An existing volume will do if it has the size that is asked for.
  unfoldable pub accept_existing : Option P → Text → ℤ → Exec (Process W R) Unit
  accept_existing provider path capacity = do
    existing ←
        or_fail
          (λ e.
            status internal "Volume '%s' already exists, but volume properties request failed: %s")
          (on provider (λ p. ns.get_volume p path))
    guard (not (eq_ℤ capacity (pos 0)) && not (eq_ℤ existing.volume_size capacity)) (
        status already_exists
          "Volume '%s' already exists, but with a different size: requested=%d, existing=%d")

  abbrev pub after_create : Option P → Text → ℤ → Tried (Unit {0}) → Exec (Process W R) Unit
  after_create provider path capacity (got _) = pure tt
  after_create provider path capacity (failed e) =
      if ns.is_already_exist e
      then accept_existing provider path capacity
      else fail (status internal "Cannot create volume '%s': %s")

  -- `createNewVolume`.
  unfoldable pub create_new_volume : Option P → Text → ℤ → Bool → Exec (Process W R) Unit
  create_new_volume provider path capacity sparse = do
    created ← attempt (on provider (λ p. ns.create_volume p path capacity sparse))
    after_create provider path capacity created

  abbrev pub after_clone : Error → Tried (Unit {0}) → Exec (Process W R) Unit
  after_clone e (got _) = pure tt
  after_clone e (failed f) = if ns.is_already_exist f then pure tt else fail e

  -- `createNewVolumeFromSnapshot`.
  unfoldable pub create_new_volume_from_snapshot : Option P → Text → Text → Exec (Process W R) Unit
  create_new_volume_from_snapshot provider source path = do
    snapshot ←
        or_fail (λ e. status not_found "Failed to find snapshot '%s': %s")
          (on provider (λ p. ns.get_snapshot p source))
    cloned ← attempt (on provider (λ p. ns.clone_snapshot p snapshot.path path))
    after_clone (status internal "Cannot create volume '%s' using snapshot '%s': %s") cloned

  -- `createClonedVolume`.
  unfoldable pub create_cloned_volume : Option P → Text → Text → Text → Exec (Process W R) Unit
  create_cloned_volume provider source path name = do
    let snap_name = bytes "k8s-clone-snapshot-" ++ name
    create_snapshot_on_ns ns provider source snap_name
    cloned ← attempt (on provider (λ p. ns.clone_snapshot p (joined b'@' source snap_name) path))
    after_clone (status not_found "Cannot create volume '%s' using snapshot '%s': %s") cloned

  -- The three branches resolve the appliance first and then make the volume in its group.
  abbrev pub make :
      Text
      → ResolveParams
      → (Option P → Text → Exec (Process W R) Unit)
      → Exec (Process W R) (Made P)
  make name params create = do
    resolved ← resolve_ns ns params
    let path = join_path resolved.volume_group name
    create resolved.ns_provider path
    pure (record { resolved = resolved; path = path })

  -- The branches of `CreateVolume` by its source.
  unfoldable pub provision : Text → ℤ → Bool → Sources → ResolveParams → Exec (Process W R) (Made P)
  provision name capacity sparse source params =
      if not (is_empty source.snapshot_id)
      then (do
        (config_name, snapshot) ←
            or_missing (status not_found "SnapshotId is in wrong format: %s")
              (split_id source.snapshot_id)
        make name (record params { config_name = config_name })
            (λ provider path. create_new_volume_from_snapshot provider snapshot path))
      else if not (is_empty source.volume_id)
      then (do
        (config_name, volume) ←
            or_missing (status not_found "VolumeId is in wrong format: %s")
              (split_id source.volume_id)
        make name (record params { config_name = config_name })
            (λ provider path. create_cloned_volume provider volume path name))
      else make name params (λ provider path. create_new_volume provider path capacity sparse)

  -- The part of `CreateVolume` behind its checks of the request.
  unfoldable pub create_checked : CreateRequest → Bool → Sources → Exec (Process W R) CreatedVolume
  create_checked req sparse source = do
    let zone = pick_availability_zone req.requirement
    made ← provision req.name (capacity_or_default req.required_bytes) sparse source (record {
      volume_group = parameter_or "volumeGroup" req.parameters [];
      zone = zone;
      config_name = parameter_or "configName" req.parameters [];
    })
    d ← gets (ns_data made.resolved.config_name)
    pure (
        created_volume req source.content_source zone d made.resolved.config_name
          made.resolved.volume_group made.path)

  abbrev pub refuse_mode : List Capability → Exec (Process W R) Unit
  refuse_mode capabilities = elim (first_unsupported capabilities) [
    | none ↦ pure tt
    | some mode ↦
        fail (status failed_precondition "Driver does not support volume capability mode: %s")
  ]

  -- `CreateVolume`.
  unfoldable pub create_volume : Host W → CreateRequest → Exec (Process W R) CreatedVolume
  create_volume host req = do
    guard (is_empty req.name) (status invalid_argument "req.Name must be provided")
    refreshed ns host (last_secret req.secrets)
    capabilities ←
        or_missing (status invalid_argument "req.VolumeCapabilities must be provided")
          req.capabilities
    refuse_mode capabilities
    sparse ←
        or_missing
          (status invalid_argument "Could not parse sparseVolume parameter = %s, error: %+v")
          (parse_sparse (lookup (bytes "sparseVolume") req.parameters))
    source ←
        or_missing
          (status invalid_argument
            "Only snapshots and volumes are supported as volume content source, but got type: %s")
          (sources req.source)
    create_checked req sparse source
