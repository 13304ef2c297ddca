-- ===== src/Ns.antt =====
-- The interface of the library github.com/Nexenta/go-nexentastor/pkg/ns, which is not part of the
-- repository: its data, the calls that the driver makes, and what the driver relies on.
pub mod Appliance
pub mod Iscsi
use nexentastor_csi_driver_b.Base.{ℕ, Text, [], Bool, true, false, Option, List, ℤ, ◌≡◌, String}
use nexentastor_csi_driver_b.Exec.{Exec, Error, Foreign, Code, status, errorf}

-- `ns.ResolverArgs`, without the logger.
pub record ResolverArgs : Type 0 where
  pub address : Text
  pub username : Text
  pub password : Text
  pub insecure_skip_verify : Bool

-- A pointer and an error, both of which the caller may look at.
pub record Resolved (A : Type 0) : Type 0 where
  pub value : Option A
  pub error : Option Foreign

pub record Volume : Type 0 where
  pub path : Text
  pub volume_size : ℤ

-- A creation time is a number.
pub record Snapshot : Type 0 where
  pub path : Text
  pub name : Text
  pub parent : Text
  pub creation_time : ℕ

pub record LunMapping : Type 0 where
  pub id : Text
  pub lun : ℕ

-- `ns.GetLunMappingsParams`: an empty text does not restrict the query.
pub record LunQuery : Type 0 where
  pub target_group : Text
  pub volume : Text
  pub host_group : Text

-- `ns.GetLunMappingsParams{Volume: path}`.
abbrev pub of_volume : Text → LunQuery
of_volume path = record { target_group = []; volume = path; host_group = [] }

pub record Volumes : Type 0 where
  pub volumes : List Volume
  pub next_token : Text
  pub error : Option Foreign

pub record Group : Type 0 where
  pub name : Text
  pub members : List Text

pub record Target : Type 0 where
  pub name : Text
  pub address : Text
  pub port : ℤ

-- The calls that return a record with an `error` return it beside a value, and the outcome is then
-- `ok` or `panic`.
-- `W` is the state of the world, `P` a provider (one appliance) and `R` a resolver (the appliances of
-- one entry of the configuration).
pub record Ns (W P R : Type 0) : Type 0 where
  -- `ns.IsNotExistNefError` and its kin.
  pub is_not_exist : Error → Bool
  pub is_already_exist : Error → Bool
  pub is_bad_arg : Error → Bool
  pub is_busy : Error → Bool
  pub new_resolver : ResolverArgs → Exec W (Resolved R)
  -- The zero value of the struct, which Go gives for a missing key.
  pub zero_resolver : R
  pub resolve_from_vg : R → Text → Exec W (Resolved P)
  pub get_volume : P → Text → Exec W Volume
  pub get_volume_group : P → Text → Exec W ℤ
  pub get_volumes_with_starting_token : P → Text → Text → ℤ → Exec W Volumes
  -- The path, the size, and whether the volume is sparse.
  pub create_volume : P → Text → ℤ → Bool → Exec W Unit
  pub update_volume_size : P → Text → ℤ → Exec W Unit
  -- The path, `DestroySnapshots` and `PromoteMostRecentCloneIfExists`.
  pub destroy_volume : P → Text → Bool → Bool → Exec W Unit
  pub get_snapshot : P → Text → Exec W Snapshot
  pub get_snapshots : P → Text → Bool → Exec W (List Snapshot)
  pub create_snapshot : P → Text → Exec W Unit
  pub destroy_snapshot : P → Text → Exec W Unit
  pub clone_snapshot : P → Text → Text → Exec W Unit
  pub get_lun_mappings : P → LunQuery → Exec W (List LunMapping)
  pub destroy_lun_mapping : P → Text → Exec W Unit

-- An error that the driver has made itself is no error of the NexentaStor API.
pub record IsNef {W P R : Type 0} (ns : Ns W P R) : Type 0 where
  pub own_status : (c : Code) (m : String) → ns.is_not_exist (status c m) ≡ false
