-- ===== src/Tests/Node.antt =====
-- The node server on an appliance with one target and one host group.
use nexentastor_csi_driver_b.Base.{
  ℕ, Text, bytes, eq_text, has_prefix, split, join, lookup, pos, Map, All, false, some, List, [],
  ◌∷◌, ◌++◌, ◌≡◌, ◌⊎◌, refl, arith,
}
use nexentastor_csi_driver_b.Exec.{ok, err, panic}
use nexentastor_csi_driver_b.Strconv.{digits, digits_from, natural_from, parse_int, atoi}
use nexentastor_csi_driver_b.Process.{Process, ns_data}
use nexentastor_csi_driver_b.Ns.{Group}
use nexentastor_csi_driver_b.Ns.Iscsi.{Iscsi, NodeHost}
use nexentastor_csi_driver_b.Controller.Create.{volume_context, parse_bool}
use nexentastor_csi_driver_b.Node.Device.{mount_point_permissions}
use nexentastor_csi_driver_b.Node.Device.Names.{construct_dev_by_path_inj}
use nexentastor_csi_driver_b.Node.Device.Permissions.{created_permissions}
use nexentastor_csi_driver_b.Node.Context.{
  IscsiContext, initiator_key, before_key, drop_prefix, initiator_name, has_member, find_host_group,
  get_node_iqn, create_update_host_group, host_group_of, chap_of, timeout_of, parse_volume_context,
}
use nexentastor_csi_driver_b.Node.Context.Initiator.{Belongs, create_update_host_group-Belongs}
use nexentastor_csi_driver_b.Node.Context.Created.{IsRead, parse_volume_context-IsRead}
use nexentastor_csi_driver_b.Node.Target.{
  usable, try_target, consider, visit, visit_members, visit_groups, resolve_target_group,
  create_new_target_tg,
}
use nexentastor_csi_driver_b.Node.Target.Pick.{IsAllowed, resolve_target_group-IsAllowed}
use nexentastor_csi_driver_b.Tests.Appliance.{Box, memory, fault}
use nexentastor_csi_driver_b.Tests.Fixtures.{started, entry}

abbrev target_name : Text
target_name = bytes "iqn:t"

abbrev target_groups : List Group
target_groups = record { name = bytes "tg"; members = target_name ∷ [] } ∷ []

abbrev host_groups : List Group
host_groups = record { name = bytes "hg"; members = bytes "iqn.node" ∷ [] } ∷ []

abbrev pub portals : Iscsi Box (Unit {0})
portals = record {
  resolve_from_vg_nil = λ group w. (panic, w);
  get_target_groups = λ p w. (ok target_groups, w);
  get_iscsi_target = λ p name w. (ok (record { authentication = bytes "none" }), w);
  create_iscsi_target = λ p target w. (ok tt, w);
  create_update_target_group = λ p group w. (ok tt, w);
  update_iscsi_target = λ p name authentication w. (ok tt, w);
  get_remote_initiator = λ p name w. (err (fault 2), w);
  create_remote_initiator = λ p initiator w. (ok tt, w);
  update_remote_initiator = λ p initiator w. (ok tt, w);
  get_host_groups = λ p w. (ok host_groups, w);
  create_host_group = λ p group w. (ok tt, w);
  create_lun_mapping = λ p mapping w. (ok tt, w);
  get_filesystem_available_capacity = λ p path w. (ok (pos 7), w);
}

abbrev pub node_host : NodeHost Box
node_host = record {
  read_initiator_name = λ w. (ok (initiator_key ++ bytes "iqn.node"), w);
  new_uuid = λ w. (ok (bytes "u"), w);
}

construct_dev_by_path_inj_example : ◌≡◌ {A = ℕ} 300 300
construct_dev_by_path_inj_example =
    construct_dev_by_path_inj (bytes "10.3.1.1:3260") target_name 300 300 refl

abbrev parameters : Map Text
parameters = (bytes "mountPointPermissions", bytes "0777") ∷ (bytes "dataIP", bytes "10.3.3.3") ∷ []

created_permissions_example :
    mount_point_permissions (volume_context parameters entry (bytes "p/g")) ≡ some 511
unfolding lookup eq_text digits digits_from
created_permissions_example =
    created_permissions parameters entry (bytes "p/g") 1 511 refl (omega arith)

create_update_host_group-Belongs_example :
    (Belongs (bytes "iqn.node") (bytes "hg") host_groups × (started ≡ started))
    ⊎ (All (λ (g : Group). has_member (bytes "iqn.node") g.members ≡ false) host_groups
        × (v : Box) × (portals.create_host_group tt
              (record { name = bytes "hg"; members = bytes "iqn.node" ∷ [] })
              v
            ≡ (ok tt, started.world)))
unfolding eq_text split has_prefix before_key drop_prefix initiator_name has_member find_host_group
    get_node_iqn create_update_host_group
create_update_host_group-Belongs_example =
    create_update_host_group-Belongs portals node_host tt started started (bytes "iqn.node")
      host_groups started.world refl refl (bytes "hg") started refl

abbrev node_context : IscsiContext
node_context = record {
  address = [];
  port = bytes "3260";
  iscsi_target = [];
  iscsi_target_prefix = bytes "iqn";
  target_group = [];
  host_group = bytes "hg";
  chap_user = [];
  chap_secret = [];
  num_of_luns_per_target = pos 256;
  use_chap_auth = false;
  iscsi_timeout = pos 300;
}

abbrev read_context : IscsiContext
read_context = record node_context { iscsi_target_prefix = bytes "iqn.2005-07.com.nexenta" }

parse_volume_context-IsRead_example :
    IsRead parameters entry (ns_data (bytes "one") started) read_context
unfolding eq_text lookup split join has_prefix before_key drop_prefix initiator_name has_member
    find_host_group get_node_iqn create_update_host_group host_group_of chap_of timeout_of
    parse_bool natural_from parse_int atoi volume_context parse_volume_context
parse_volume_context-IsRead_example =
    parse_volume_context-IsRead portals node_host (some tt) (bytes "one") started parameters entry
      (bytes "p/g") read_context refl

resolve_target_group-IsAllowed_example :
    (Belongs target_name (bytes "tg") target_groups
      × IsAllowed memory portals node_host node_context tt (bytes "tg") target_name)
    ⊎ ((t : Process Box (Unit {0})) × ((create_new_target_tg memory portals node_host node_context
            (some tt)
            t).0
          ≡ ok (target_name, bytes "tg")))
unfolding eq_text has_prefix usable try_target consider visit visit_members visit_groups
    resolve_target_group
resolve_target_group-IsAllowed_example =
    resolve_target_group-IsAllowed memory portals node_host node_context tt target_groups
      target_name (bytes "tg") started refl refl refl
