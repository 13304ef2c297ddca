-- ===== src/Tests/Start.antt =====
-- The program from the search for its configuration to its server.
use nexentastor_csi_driver_b.Base.{
  Text, bytes, eq_text, split, join, lookup, insert, true, false, none, some, [], ◌∷◌, ◌≡◌, ◌⊎◌,
  refl,
}
use nexentastor_csi_driver_b.Exec.{Exec, Error, errorf, ok, err}
use nexentastor_csi_driver_b.FilePath.{clean, join_path}
use nexentastor_csi_driver_b.Role.{role_all, is_controller, is_node}
use nexentastor_csi_driver_b.Config.{Config, Host, Shared, refresh, validate}
use nexentastor_csi_driver_b.Config.Find.{
  Tree, file, folder, nil, entry, ext, is_yaml, visit, visit_all, find_config_file, new_config,
}
use nexentastor_csi_driver_b.Config.Find.Found.{Names, find_config_file-Found}
use nexentastor_csi_driver_b.Config.Reload.Repeat.{KeepsPrivate}
use nexentastor_csi_driver_b.Config.Reload.Failure.{refresh_forgets_failure}
use nexentastor_csi_driver_b.Config.Reload.Sound.{IsSound, MakesMaps}
use nexentastor_csi_driver_b.Controller.Connect.{connect, new_resolvers, new_controller_server}
use nexentastor_csi_driver_b.Node.Connect.{new_node_resolvers, new_node_server}
use nexentastor_csi_driver_b.Driver.{
  services_of, socket_of, Driver, Net, Url, Licences, open_socket, make_servers, run,
}
use nexentastor_csi_driver_b.Process.{Process, outside}
use nexentastor_csi_driver_b.Driver.Ready.{IsReady}
use nexentastor_csi_driver_b.Driver.Running.{run_serves}
use nexentastor_csi_driver_b.Main.{Options, default_options, launched, drive, ending, main}
use nexentastor_csi_driver_b.Main.Starts.{driver_of, main_starts}
use nexentastor_csi_driver_b.Tests.Appliance.{Box, memory, fault}
use nexentastor_csi_driver_b.Tests.Fixtures.{disk, settings, box, started}
use nexentastor_csi_driver_b.Tests.Session.{settings-IsSound}

-- The directory of a mounted ConfigMap: a folder of its own, a link to it, and a link into it.
abbrev config_map : Tree
config_map = folder (
    entry (bytes "..1") (folder (entry (bytes "ns.yaml") file nil))
      (entry (bytes "..data") file (entry (bytes "ns.yaml") file nil)))

find_config_file-Found_example :
    ((bytes "/c/ns.yaml" ≡ []) × ((q : Text) → Names (bytes "/c") config_map q → is_yaml q ≡ false))
    ⊎ (Names (bytes "/c") config_map (bytes "/c/ns.yaml") × (is_yaml (bytes "/c/ns.yaml") ≡ true))
unfolding find_config_file visit visit_all ext is_yaml join_path clean eq_text split join
find_config_file-Found_example =
    find_config_file-Found (bytes "/c") config_map (bytes "/c/ns.yaml") refl

-- A file that is there and cannot be parsed.
abbrev damaged : Host Box
damaged = record disk { unmarshal = λ text c. (c, some (fault 5)) }

damaged-KeepsPrivate : KeepsPrivate damaged
damaged-KeepsPrivate = record {
  keeps = λ text c. record { file_path = refl; last_mod_time = refl; temporary = refl };
}

abbrev changed : Shared Box
changed = record { config = record settings { last_mod_time = 3 }; world = box }

refresh_forgets_failure_example :
    refresh damaged [] (refresh damaged [] changed).1 ≡ (ok false, (refresh damaged [] changed).1)
unfolding refresh
refresh_forgets_failure_example =
    refresh_forgets_failure damaged damaged-KeepsPrivate 7 changed
      (errorf "Cannot parse yaml in '%s' config file: %s") refl (λ w. refl) refl

abbrev network : Net Box
network = record {
  parse_url =
      λ endpoint. some (record { scheme = bytes "unix"; host = []; path = bytes "/csi.sock" });
  remove = λ path w. (err (fault 2), w);
  is_not_exist = λ e. true;
  listen = λ scheme path w. (ok tt, w);
  serve = λ services w. (ok tt, w);
}

abbrev both : Driver
both = record { role = role_all; node_id = bytes "n"; endpoint = bytes "unix:///csi.sock" }

run_serves_example :
    (u : Process Box (Unit {0})) × (run memory network both started
      ≡ outside (network.serve (services_of role_all)) u)
    × IsReady memory role_all u
    × ((url : Url) × (w : Box) × (network.parse_url both.endpoint ≡ some url)
        × (url.scheme ≡ bytes "unix")
        × ((network.listen (bytes "unix") (socket_of url) w).0 ≡ ok tt))
unfolding open_socket make_servers is_controller is_node connect new_resolvers new_controller_server
    new_node_resolvers new_node_server eq_text insert
run_serves_example = run_serves memory network both started settings-IsSound refl refl

-- A file with the configuration of the tests.
abbrev loader : Host Box
loader = record disk { unmarshal = λ text c. (record c { ns_map = settings.ns_map }, none) }

loader-KeepsPrivate : KeepsPrivate loader
loader-KeepsPrivate = record {
  keeps = λ text c. record { file_path = refl; last_mod_time = refl; temporary = refl };
}

loader-MakesMaps : MakesMaps loader
unfolding lookup
loader-MakesMaps = record { makes = λ text c u. (refl, tt) }

abbrev licences : Licences Box (Unit {0}) (Unit {0})
licences = record {
  nodes = λ r. tt ∷ [];
  get_license = λ p w. (ok true, w);
  is_cluster = λ r w. (ok true, w);
}

abbrev options : Options
options = record default_options { config_dir = bytes "/c"; role = bytes "controller" }

abbrev loaded : Config
loaded = record settings { file_path = bytes "/c/ns.yaml" }

abbrev log_file : Text → Text → Exec Box (Unit {0})
log_file path content w = (ok tt, w)

abbrev as_text : Error → Text
as_text e = bytes "error"

main_starts_example :
    (main memory loader network licences log_file as_text (λ path w. (config_map, w)) options box
      ≡ ending memory loader network licences log_file as_text (
          drive memory loader network licences log_file as_text
            (driver_of options)
            (launched loaded box)))
    × IsSound loaded
    × Names (bytes "/c") config_map (bytes "/c/ns.yaml")
    × (is_yaml (bytes "/c/ns.yaml") ≡ true)
unfolding find_config_file visit visit_all ext is_yaml join_path clean eq_text split join refresh
    validate new_config
main_starts_example =
    main_starts memory loader network licences log_file as_text loader-MakesMaps loader-KeepsPrivate
      (λ path w. (config_map, w)) options box box loaded refl refl
