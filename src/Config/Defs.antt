-- ===== src/Config/Defs.antt =====
-- The data of config.go. A pointer is an `Option`, and a missing YAML field has Go's zero value.
use nexentastor_csi_driver_b.Base.{ℕ, Text, Map, Bool, Option, none, []}
use nexentastor_csi_driver_b.Exec.{Exec, Error}

-- `NsData`.
pub record NsData : Type 0 where
  pub address : Text
  pub username : Text
  pub password : Text
  pub zone : Text
  pub default_volume_group : Text
  pub default_target_group : Text
  pub default_target : Text
  pub default_host_group : Text
  pub default_iscsi_port : Text
  pub default_data_ip : Text
  pub iscsi_target_prefix : Text
  pub iscsi_timeout : Text
  pub dynamic_target_lun_allocation : Option Bool
  pub num_of_luns_per_target : Text
  pub use_chap_auth : Text
  pub chap_user : Text
  pub chap_secret : Text
  pub mount_point_permissions : Text
  pub insecure_skip_verify : Option Bool

-- The zero value, which Go gives for a missing key of `NsMap`.
abbrev pub no_ns_data : NsData
no_ns_data = record {
  address = [];
  username = [];
  password = [];
  zone = [];
  default_volume_group = [];
  default_target_group = [];
  default_target = [];
  default_host_group = [];
  default_iscsi_port = [];
  default_data_ip = [];
  iscsi_target_prefix = [];
  iscsi_timeout = [];
  dynamic_target_lun_allocation = none;
  num_of_luns_per_target = [];
  use_chap_auth = [];
  chap_user = [];
  chap_secret = [];
  mount_point_permissions = [];
  insecure_skip_verify = none;
}

-- `Config`. A `time.Time` is a number.
pub record Config : Type 0 where
  pub ns_map : Map NsData
  pub debug : Bool
  pub file_path : Text
  pub last_mod_time : ℕ
  pub temporary : Bool

-- The calls out of config.go: `os.Stat(…).ModTime()` and `ioutil.ReadFile` of the operating system,
-- and `yaml.Unmarshal`, which may have written fields when it fails.
pub record Host (W : Type 0) : Type 0 where
  pub stat_mod_time : Text → Exec W ℕ
  pub read_file : Text → Exec W Text
  pub unmarshal : Text → Config → Config × Option Error

-- The configuration that the servers of one process share, and the world outside.
pub record Shared (W : Type 0) : Type 0 where
  pub config : Config
  pub world : W
