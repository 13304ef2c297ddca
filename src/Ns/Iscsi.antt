-- ===== src/Ns/Iscsi.antt =====
-- The calls of go-nexentastor that only the node server makes: targets, target groups, host groups,
-- remote initiators and LUN mappings.
use nexentastor_csi_driver_b.Base.{Text, ℤ, List}
use nexentastor_csi_driver_b.Exec.{Exec}
use nexentastor_csi_driver_b.Ns.{Group, Resolved, Target}

-- `ns.ISCSITarget`, of which the driver reads the authentication.
pub record IscsiTarget : Type 0 where
  pub authentication : Text

-- A remote initiator: its name, and the user and the secret of its CHAP login.
pub record Initiator : Type 0 where
  pub name : Text
  pub chap_user : Text
  pub chap_secret : Text

-- `ns.CreateLunMappingParams`.
pub record NewMapping : Type 0 where
  pub volume : Text
  pub target_group : Text
  pub host_group : Text

pub record Iscsi (W P : Type 0) : Type 0 where
  -- `ResolveFromVg` on a nil resolver.
  pub resolve_from_vg_nil : Text → Exec W (Resolved P)
  pub get_target_groups : P → Exec W (List Group)
  pub get_iscsi_target : P → Text → Exec W IscsiTarget
  pub create_iscsi_target : P → Target → Exec W Unit
  pub create_update_target_group : P → Group → Exec W Unit
  -- The target, and the authentication that it gets.
  pub update_iscsi_target : P → Text → Text → Exec W Unit
  pub get_remote_initiator : P → Text → Exec W Initiator
  pub create_remote_initiator : P → Initiator → Exec W Unit
  pub update_remote_initiator : P → Initiator → Exec W Unit
  pub get_host_groups : P → Exec W (List Group)
  pub create_host_group : P → Group → Exec W Unit
  pub create_lun_mapping : P → NewMapping → Exec W Unit
  pub get_filesystem_available_capacity : P → Text → Exec W ℤ

-- What the node server asks of its host: the file of the initiator's name, and fresh identifiers.
pub record NodeHost (W : Type 0) : Type 0 where
  pub read_initiator_name : Exec W Text
  pub new_uuid : Exec W Text
