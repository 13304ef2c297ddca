-- ===== src/Node/Context/Created.antt =====
-- What the node reads of a context that the controller has made.
use nexentastor_csi_driver_b.Base.{
  Text, bytes, eq_text, Map, lookup, value_or, pos, false, Option, ◌≡◌, inl, inr, arith,
}
use nexentastor_csi_driver_b.Exec.{ok, Outcome-cases}
use nexentastor_csi_driver_b.Strconv.{atoi}
use nexentastor_csi_driver_b.Config.{NsData}
use nexentastor_csi_driver_b.Ns.Iscsi.{Iscsi, NodeHost}
use nexentastor_csi_driver_b.Process.{Process, ns_data}
use nexentastor_csi_driver_b.Controller.Create.{volume_context, parameter_or, parse_bool}
use nexentastor_csi_driver_b.Node.Context.{
  IscsiContext, field, or_else, host_group_of, chap_of, parse_volume_context,
}

-- What a context is to hold, by the parameters and the configuration of the controller, `d`, and the
-- configuration of the node, `n`.
pub record IsRead (ps : Map Text) (d n : NsData) (c : IscsiContext) : Type 0 where
  pub target : c.iscsi_target ≡ parameter_or "target" ps d.default_target
  pub target_group : c.target_group ≡ parameter_or "targetGroup" ps d.default_target_group
  pub port :
      c.port
      ≡ or_else
          (parameter_or "iSCSIPort" ps d.default_iscsi_port)
          (or_else n.default_iscsi_port (bytes "3260"))
  pub luns :
      c.num_of_luns_per_target
      ≡ value_or (pos 256) (atoi (parameter_or "numOfLunsPerTarget" ps d.num_of_luns_per_target))
  pub use_chap :
      c.use_chap_auth ≡ value_or false (parse_bool (parameter_or "useChapAuth" ps d.use_chap_auth))
  -- The address is that of the node's configuration, and the prefix too: the parameters `dataIP` and
  -- `iSCSITargetPrefix` do not reach the node.
  pub address : c.address ≡ n.default_data_ip
  pub prefix :
      c.iscsi_target_prefix ≡ or_else n.iscsi_target_prefix (bytes "iqn.2005-07.com.nexenta")

module _ {W P R : Type 0} (iscsi : Iscsi W P) (os : NodeHost W) (provider : Option P)
    (config_name : Text) (s : Process W R) where
  -- The node takes the target, its group, the port, the limit of LUNs and the use of CHAP from the
  -- context that the controller has written. It never takes the address, which the controller writes
  -- as `DataIP` and the node reads as `dataIP`, nor the prefix of the target.
  pub parse_volume_context-IsRead :
      (ps : Map Text) (d : NsData) (group : Text) (c : IscsiContext)
      → (parse_volume_context iscsi os (volume_context ps d group) provider config_name s).0 ≡ ok c
      → IsRead ps d (ns_data config_name s) c
  unfolding parse_volume_context volume_context lookup eq_text
  parse_volume_context-IsRead ps d group c h =
      let context = volume_context ps d group in
      let g = host_group_of iscsi os context (ns_data config_name s) provider s in
      let use_chap = value_or false (parse_bool (field "useChapAuth" context)) in
      let chap = chap_of iscsi os context use_chap g.1 in
      elim (Outcome-cases g.0) [
        | inl (inl (name, e)) ↦ elim (Outcome-cases chap.0) [
          | inl (inl (pair, k)) ↦ record {
            target = ground arith;
            target_group = ground arith;
            port = ground arith;
            luns = ground arith;
            use_chap = ground arith;
            address = ground arith;
            prefix = ground arith;
          }
          | inl (inr (x, k)) ↦ ground arith
          | inr k ↦ ground arith
        ]
        | inl (inr (x, e)) ↦ ground arith
        | inr e ↦ ground arith
      ]
