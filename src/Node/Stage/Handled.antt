-- ===== src/Node/Stage/Handled.antt =====
-- What `NodeStageVolume` has done when it reports success.
use nexentastor_csi_driver_b.Base.{ℕ, Text, Bool, Option, some, ◌≡◌}
use nexentastor_csi_driver_b.Exec.{
  Exec, ok, gets, status, invalid_argument, failed_precondition, or_fail, or_missing, ◌>>=◌, ◌>>◌,
}
use nexentastor_csi_driver_b.Config.{Host, NsData}
use nexentastor_csi_driver_b.Ns.{Ns}
use nexentastor_csi_driver_b.Ns.Iscsi.{Iscsi, NodeHost}
use nexentastor_csi_driver_b.Process.{Process, ns_data}
use nexentastor_csi_driver_b.Csi.{Capability}
use nexentastor_csi_driver_b.Controller.Connect.{last_secret}
use nexentastor_csi_driver_b.Controller.Request.{split_id, joined}
use nexentastor_csi_driver_b.Node.Connect.{node_refresh_config, node_resolve_ns}
use nexentastor_csi_driver_b.Node.Context.{IscsiContext, parse_volume_context}
use nexentastor_csi_driver_b.Node.System.{System}
use nexentastor_csi_driver_b.Node.Device.{construct_dev_by_path}
use nexentastor_csi_driver_b.Node.Mount.Placed.{Devices}
use nexentastor_csi_driver_b.Node.Stage.Staged.{IsPlaced}
use nexentastor_csi_driver_b.Node.Stage.{NodeStageRequest, stage_lun, target_of, lun_of}

module _ {W P R : Type 0} (ns : Ns W P R) (iscsi : Iscsi W P) (os : NodeHost W) (sys : System W)
    (table : Devices sys) (host : Host W) where
  -- The volume of the request is staged: its ID names a configuration and a path, the configuration
  -- has been resolved to a provider, the context of the request read, a target with its group chosen,
  -- and the LUN of the path behind that group and the host group given by the provider; what is
  -- staged is the device that the node has for the LUN behind the target, at the address and port of
  -- the context. Each call is that of the handler, in some state of its run.
  pub record IsStaged (req : NodeStageRequest) (t : Process W R) : Type 0 where
    pub config_name : Text
    pub path : Text
    pub settings : NsData
    pub provider : Option P
    pub ns_name : Text
    pub context : IscsiContext
    pub target : Text
    pub group : Text
    pub lun : ℕ
    pub at_start : Process W R
    pub at_resolving : Process W R
    pub at_reading : Process W R
    pub at_choosing : Process W R
    pub at_mapping : Process W R
    pub asked : split_id req.volume_id ≡ some (config_name, path)
    pub configured : ns_data config_name at_start ≡ settings
    pub found :
        (node_resolve_ns ns iscsi config_name settings.default_volume_group at_resolving).0
        ≡ ok (provider, ns_name)
    pub parsed :
        (parse_volume_context iscsi os req.context provider ns_name at_reading).0 ≡ ok context
    pub chosen :
        (target_of ns iscsi os sys settings context provider at_choosing).0 ≡ ok (target, group)
    pub mapped :
        (lun_of ns iscsi os sys provider
          (record { target_group = group; volume = path; host_group = context.host_group })
          at_mapping).0
        ≡ ok lun
    pub staged :
        IsPlaced sys table req.staging_target_path
          (construct_dev_by_path (joined b':' context.address context.port) target lun)
          t

  -- `NodeStageVolume` behind the checks of its request, from the last part to the first.
  module _ (fuel : ℕ) (req : NodeStageRequest) (c : Capability) where
    abbrev named :
        Text × Text → Option P × Text → IscsiContext → Text × Text → Exec (Process W R) Bool
    named parts found context names =
        lun_of ns iscsi os sys found.0
          (record { target_group = names.1; volume = parts.1; host_group = context.host_group })
        >>= λ lun. stage_lun sys fuel req c context names.0 lun

    abbrev read : Text × Text → NsData → Option P × Text → IscsiContext → Exec (Process W R) Bool
    read parts d found context =
        target_of ns iscsi os sys d context found.0 >>= named parts found context

    abbrev resolved : Text × Text → NsData → Option P × Text → Exec (Process W R) Bool
    resolved parts d found =
        parse_volume_context iscsi os req.context found.0 found.1 >>= read parts d found

    abbrev configured : Text × Text → NsData → Exec (Process W R) Bool
    configured parts d =
        node_resolve_ns ns iscsi parts.0 d.default_volume_group >>= resolved parts d

    abbrev split : Text × Text → Exec (Process W R) Bool
    split parts = gets (ns_data parts.0) >>= configured parts

    abbrev checked : Exec (Process W R) Bool
    checked =
        or_fail (λ e. status failed_precondition "Cannot use config file: %s")
          (node_refresh_config ns host (last_secret req.secrets))
        >> (or_missing (status invalid_argument "VolumeId is in wrong format: %s")
              (split_id req.volume_id)
            >>= split)
