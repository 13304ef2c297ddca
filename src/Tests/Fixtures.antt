-- ===== src/Tests/Fixtures.antt =====
-- A configuration of one NexentaStor, the operating system that it is read from, and a driver process.
use nexentastor_csi_driver_b.Base.{
  ℕ, Text, bytes, eq_text, Lacks, ◌==◌, ==_iff, arith, pos, Bool, true, false, none, some, List, [],
  ◌∷◌, ◌≡◌, refl, if◌then◌else◌,
}
use nexentastor_csi_driver_b.Exec.{ok}
use nexentastor_csi_driver_b.Config.{Host, Config, NsData, no_ns_data}
use nexentastor_csi_driver_b.Config.Reload.Repeat.{KeepsPrivate}
use nexentastor_csi_driver_b.Ns.{LunMapping}
use nexentastor_csi_driver_b.Process.{Process}
use nexentastor_csi_driver_b.Tests.Appliance.{Box}

-- A file of one time, whose document turns the debugging on.
abbrev pub disk : Host Box
disk = record {
  stat_mod_time = λ path w. (ok 7, w);
  read_file = λ path w. (ok (bytes "debug: true"), w);
  unmarshal = λ text c. (record c { debug = true }, none);
}

pub disk-KeepsPrivate : KeepsPrivate disk
disk-KeepsPrivate = record {
  keeps = λ text c. record { file_path = refl; last_mod_time = refl; temporary = refl };
}

abbrev pub entry : NsData
entry = record no_ns_data {
  address = bytes "https://10.3.1.1:8443";
  username = bytes "admin";
  password = bytes "pw";
  zone = bytes "a";
  default_volume_group = bytes "p/g";
  dynamic_target_lun_allocation = some true;
  insecure_skip_verify = some true;
}

abbrev pub settings : Config
settings = record {
  ns_map = (bytes "one", entry) ∷ [];
  debug = false;
  file_path = bytes "/config";
  last_mod_time = 7;
  temporary = false;
}

-- The path of the volume that is there.
abbrev pub volume_v : Text
volume_v = bytes "p/g/v"

abbrev pub two_luns : List LunMapping
two_luns = record { id = bytes "m1"; lun = 1 } ∷ record { id = bytes "m2"; lun = 2 } ∷ []

abbrev pub box : Box
box = record {
  size_at = λ path. if eq_text path volume_v then some (pos 100) else none;
  luns_of = λ path. if eq_text path volume_v then two_luns else [];
  snapshots =
      record { path = bytes "p/g/w@s"; name = bytes "s"; parent = bytes "p/g/w"; creation_time = 5 }
      ∷ [];
  time = 0;
  device_of = λ path. none;
}

abbrev pub started : Process Box (Unit {0})
started = record {
  config = settings;
  resolvers = (bytes "one", tt) ∷ [];
  node_resolvers = [];
  world = box;
}

-- Whether a text is without a byte.
abbrev pub lacks : ℕ → Text → Bool
lacks c [] = true
lacks c (x ∷ s) = if x == c then false else lacks c s

pub lacks-Lacks : (c : ℕ) (s : Text) → lacks c s ≡ true → Lacks c s
lacks-Lacks c [] h = tt
lacks-Lacks c (x ∷ s) h = (ground (arith, ==_iff x c), lacks-Lacks c s (ground arith))
