-- ===== src/Node/Stage.antt =====
-- nodeServer.go: `ISCSILogInRescan`, `GetRealDeviceName`, `getFSType`, `formatVolume` and
-- `NodeStageVolume`.
pub mod Format
pub mod Await
pub mod Shown
pub mod Staged
pub mod Handled
use nexentastor_csi_driver_b.Base.{
  ℕ, zero, suc, ◌+◌, Text, bytes, eq_text, is_empty, has_prefix, contains_text, split, join, Map, ℤ,
  pos, ltb_ℤ, times_int64, Bool, true, false, not, Option, none, some, List, [], ◌∷◌, ◌++◌,
  if◌then◌else◌, ◌==◌,
}
use nexentastor_csi_driver_b.Exec.{
  Exec, Error, Foreign, status, errorf, foreign, invalid_argument, internal, unauthenticated,
  deadline_exceeded, failed_precondition, pure, fail, crash, gets, guard, attempt, deref, or_fail,
  or_missing, Tried, got, failed, ◌>>=◌, ◌>>◌,
}
use nexentastor_csi_driver_b.FilePath.{join_path, dir}
use nexentastor_csi_driver_b.Config.{Host, NsData}
use nexentastor_csi_driver_b.Ns.{Ns, LunMapping, LunQuery}
use nexentastor_csi_driver_b.Ns.Iscsi.{Iscsi, NodeHost, NewMapping}
use nexentastor_csi_driver_b.Process.{Process, outside, on, ns_data}
use nexentastor_csi_driver_b.Csi.{Capability, AccessType, no_access_type, block, mount}
use nexentastor_csi_driver_b.Controller.Connect.{last_secret}
use nexentastor_csi_driver_b.Controller.Request.{split_id, joined}
use nexentastor_csi_driver_b.Node.Connect.{node_refresh_config, node_resolve_ns}
use nexentastor_csi_driver_b.Node.Context.{IscsiContext, drop_prefix, parse_volume_context}
use nexentastor_csi_driver_b.Node.Target.{
  new_names, make_target, resolve_target_group, create_iscsi_mapping,
}
use nexentastor_csi_driver_b.Node.Device.{construct_dev_by_path, mount_point_permissions}
use nexentastor_csi_driver_b.Node.System.{System, Ran, one_second, output_of, trim_space}
use nexentastor_csi_driver_b.Node.Mount.{device_from_target_path, mount_volume, not_octal}

pub record NodeStageRequest : Type 0 where
  pub volume_id : Text
  pub staging_target_path : Text
  pub capability : Option Capability
  pub context : Map Text
  pub secrets : Map Text

-- `strings.Replace(s, "\"", "", -1)`.
unfoldable pub without_quotes : Text → Text
without_quotes [] = []
without_quotes (x ∷ s) = let rest = without_quotes s in if x == b'"' then rest else x ∷ rest

-- `strings.Split(v, "=")[1]`, where there is an `=`.
abbrev pub second : List Text → Text
second [] = []
second (a ∷ []) = []
second (a ∷ b ∷ ws) = b

-- The loop of `getFSType` over the words of the output of `blkid`.
unfoldable pub type_of_words : List Text → Text → Text
type_of_words [] fs_type = fs_type
type_of_words (v ∷ words) fs_type = type_of_words words (
    if contains_text v (bytes "TYPE=")
    then trim_space (without_quotes (second (split b'=' v)))
    else fs_type)

-- The type that `blkid` reports, and the empty text where it fails.
unfoldable pub type_of_output : Ran → Text
type_of_output r = elim r.error [ none ↦ type_of_words (split 32 r.output) [] | some f ↦ [] ]

-- The command that formats a device, if its type is supported.
unfoldable pub mkfs : Text → Text → Option (List Text)
mkfs device fs_type =
    if eq_text fs_type (bytes "xfs")
    then some (bytes "mkfs.xfs" ∷ bytes "-K" ∷ bytes "-f" ∷ device ∷ [])
    else if eq_text fs_type (bytes "ext3")
    then some (bytes "mkfs.ext3" ∷ bytes "-E" ∷ bytes "nodiscard" ∷ bytes "-F" ∷ device ∷ [])
    else if eq_text fs_type (bytes "ext4")
    then some (bytes "mkfs.ext4" ∷ bytes "-E" ∷ bytes "nodiscard" ∷ bytes "-F" ∷ device ∷ [])
    else none

-- The `iscsiadm` command on the node's record of a target.
abbrev iscsiadm_node : Text → Text → Text → List Text
iscsiadm_node target portal action =
    bytes "iscsiadm"
    ∷ bytes "-m"
    ∷ bytes "node"
    ∷ bytes "-T"
    ∷ target
    ∷ bytes "-p"
    ∷ portal
    ∷ action
    ∷ []

-- One attempt of `formatVolume`.
unfoldable pub format_once : {W : Type 0} → System W → Text → Text → Exec W Unit
format_once sys device fs_type w = elim (mkfs device fs_type) [
  | none ↦ (fail (errorf "unsupported file system type: %s")) w
  | some command ↦
      (sys.run command >>= λ r. elim r.error [ none ↦ pure tt | some f ↦ fail (foreign f) ]) w
]

abbrev is_absent : {W : Type 0} → System W → Option Foreign → Bool
is_absent sys none = false
is_absent sys (some f) = sys.is_not_exist (foreign f)

abbrev got_or_empty : Tried Text → Text
got_or_empty (got device) = device
got_or_empty (failed e) = []

module _ {W R : Type 0} (sys : System W) where
  abbrev or_rescan : Text → Text → Ran → Exec (Process W R) Unit
  or_rescan target portal r = elim r.error [
    | none ↦ pure tt
    | some f ↦
        if contains_text r.output (bytes "already present")
        then (do
          again ← outside (sys.run (iscsiadm_node target portal (bytes "--rescan")))
          output_of again
          pure tt)
        else fail (status unauthenticated "Was not able to login to target, err: %+v")
  ]

  -- `ISCSILogInRescan`.
  unfoldable pub iscsi_log_in_rescan : Text → Text → Exec (Process W R) Unit
  iscsi_log_in_rescan target portal = do
    discovered ← outside (
        sys.run (
          bytes "iscsiadm"
          ∷ bytes "-m"
          ∷ bytes "discovery"
          ∷ bytes "-t"
          ∷ bytes "sendtargets"
          ∷ bytes "-p"
          ∷ portal
          ∷ []))
    output_of discovered
    r ← outside (sys.run (iscsiadm_node target portal (bytes "-l")))
    or_rescan target portal r

  -- `GetRealDeviceName`.
  unfoldable pub get_real_device_name : Text → Exec (Process W R) Text
  get_real_device_name link = do
    name ← outside (sys.eval_symlinks (bytes "/host/" ++ link))
    pure (if has_prefix name (bytes "/host") then drop_prefix (bytes "/host") name else name)

  -- `getFSType`.
  unfoldable pub get_fs_type : Text → Exec (Process W R) Text
  get_fs_type device = do
    r ← outside (sys.run (bytes "blkid" ∷ device ∷ []))
    pure (type_of_output r)

  -- `formatVolume`.
  unfoldable pub format_volume : Text → Text → Exec (Process W R) Unit
  format_volume device fs_type = outside (sys.retry (format_once sys device fs_type))

  -- The end of `NodeStageVolume` for a file system: a device with a file system is not formatted.
  unfoldable pub stage_mount : Text → Text → Text → List Text → ℕ → Exec (Process W R) Unit
  stage_mount source path fs_type flags permissions = do
    let wanted = if is_empty fs_type then bytes "ext4" else fs_type
    there ← get_fs_type source
    if is_empty there
        then format_volume source wanted
        else guard (not (eq_text there wanted))
            (errorf "Volume %s is already formatted in %s, requested: %s,")
    mount_volume sys source path wanted flags permissions

  unfoldable pub stage_as : Text → Text → ℕ → AccessType → Exec (Process W R) Unit
  stage_as source path permissions no_access_type =
      fail (status invalid_argument "Mount is nil in volume capability")
  stage_as source path permissions block = do
    r ← outside (sys.run (bytes "ln" ∷ bytes "-s" ∷ source ∷ join_path path (bytes "device") ∷ []))
    output_of r
    pure tt
  stage_as source path permissions (mount fs_type flags) =
      stage_mount source path fs_type flags permissions

  -- The loop that waits for the device: at most `fuel` rounds, and false if they do not do. The time
  -- of the next sleep, an `int64` of nanoseconds, is doubled in each round, and compared with the
  -- timeout of so many seconds; both products wrap around.
  unfoldable pub await_device : ℕ → ℤ → ℤ → Text → Text → Text → Exec (Process W R) Bool
  await_device zero time timeout target portal device = pure false
  await_device (suc fuel) time timeout target portal device =
      let rest = await_device fuel (times_int64 2 time) timeout target portal device in
      if ltb_ℤ (times_int64 one_second timeout) time
      then fail (status deadline_exceeded "Could not find iSCSI device in %v seconds")
      else (do
        iscsi_log_in_rescan target portal
        missing ← outside (sys.stat_error (join_path (bytes "/host") device))
        elim missing [
          | none ↦ pure true
          | some f ↦
              if sys.is_not_exist (foreign f) then outside (sys.sleep time) >> rest else pure true
        ])

  -- The device that is staged at the path already, if any.
  unfoldable pub staged_device : Text → ℕ → Exec (Process W R) Text
  staged_device path permissions = do
    missing ← outside (sys.stat_error path)
    let absent = is_absent sys missing
    if absent
        then or_fail (λ e. status internal "%s") (outside (sys.mkdir_all (dir path) permissions))
          >> pure []
        else (do
          outside (sys.chmod path permissions)
          device ← attempt (device_from_target_path sys path)
          pure (got_or_empty device))

  -- The end of `NodeStageVolume`: a device that is staged already is left alone.
  unfoldable pub stage_device :
      NodeStageRequest → Capability → ℕ → Text → Text → Exec (Process W R) Unit
  stage_device req capability permissions device name = do
    source ← get_real_device_name name
    if eq_text device source
        then pure tt
        else stage_as source req.staging_target_path permissions capability.access_type

  -- The part of `NodeStageVolume` from the login on. The number of rounds of the wait is a parameter.
  unfoldable pub stage_lun :
      ℕ → NodeStageRequest → Capability → IscsiContext → Text → ℕ → Exec (Process W R) Bool
  stage_lun fuel req capability c target lun = do
    let portal = joined b':' c.address c.port
    iscsi_log_in_rescan target portal
    permissions ← or_missing not_octal (mount_point_permissions req.context)
    device ← staged_device req.staging_target_path permissions
    let name = construct_dev_by_path portal target lun
    found ← await_device fuel (pos one_second) c.iscsi_timeout target portal name
    if found then stage_device req capability permissions device name >> pure true else pure false

module _ {W P R : Type 0} (ns : Ns W P R) (iscsi : Iscsi W P) (os : NodeHost W)
    (sys : System W) where
  -- The target by the allocation of the configuration; without the dynamic one the error of
  -- `CreateNewTargetTg` is dropped.
  unfoldable pub target_of : NsData → IscsiContext → Option P → Exec (Process W R) (Text × Text)
  target_of d c provider = do
    dynamic ← deref d.dynamic_target_lun_allocation
    if dynamic then resolve_target_group ns iscsi os c provider else (do
      (target, group) ← new_names ns iscsi os c
      attempt (make_target ns iscsi os c provider target group)
      pure (target, group))

  abbrev first_lun : List LunMapping → Exec (Process W R) ℕ
  first_lun [] =
      fail
        (errorf "The lunmapping request returned OK, but lunmapping cannot be found for volume %s")
  first_lun (m ∷ luns) = pure m.lun

  -- The LUN of the volume, which is mapped if it is not.
  unfoldable pub lun_of : Option P → LunQuery → Exec (Process W R) ℕ
  lun_of provider query = do
    luns ← on provider (λ p. ns.get_lun_mappings p query)
    elim luns [
      | m ∷ _ ↦ pure m.lun
      | [] ↦ do
        create_iscsi_mapping ns iscsi os provider (record {
          volume = query.volume;
          target_group = query.target_group;
          host_group = query.host_group;
        })
        again ← on provider (λ p. ns.get_lun_mappings p query)
        first_lun again
    ]

  -- `NodeStageVolume`; false says that the rounds have not done.
  unfoldable pub node_stage_volume : ℕ → Host W → NodeStageRequest → Exec (Process W R) Bool
  node_stage_volume fuel host req = do
    guard (is_empty req.volume_id) (status invalid_argument "Volume ID not provided")
    guard (is_empty req.staging_target_path)
        (status invalid_argument "Staging targetPath not provided")
    capability ←
        or_missing (status invalid_argument "Volume capability not provided") req.capability
    or_fail (λ e. status failed_precondition "Cannot use config file: %s")
        (node_refresh_config ns host (last_secret req.secrets))
    (config_name, path) ←
        or_missing (status invalid_argument "VolumeId is in wrong format: %s")
          (split_id req.volume_id)
    d ← gets (ns_data config_name)
    (provider, name) ← node_resolve_ns ns iscsi config_name d.default_volume_group
    c ← parse_volume_context iscsi os req.context provider name
    (target, group) ← target_of d c provider
    lun ←
        lun_of provider (record { target_group = group; volume = path; host_group = c.host_group })
    stage_lun sys fuel req capability c target lun
