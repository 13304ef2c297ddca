-- ===== src/Main.antt =====
-- cmd/main.go: the program, from its options to its end.
pub mod Starts
use nexentastor_csi_driver_b.Base.{
  Text, bytes, Bool, true, false, Option, none, some, List, [], ◌∷◌, ◌++◌, if◌then◌else◌,
}
use nexentastor_csi_driver_b.Exec.{
  Exec, Error, Outcome, ok, err, panic, errorf, pure, deref, attempt, Tried, got, failed, ◌>>=◌,
  ◌>>◌,
}
use nexentastor_csi_driver_b.Role.{Parsed, parse_role}
use nexentastor_csi_driver_b.Config.{Config, Host, NsData}
use nexentastor_csi_driver_b.Config.Find.{Tree, new_config}
use nexentastor_csi_driver_b.Ns.{Ns}
use nexentastor_csi_driver_b.Process.{Process}
use nexentastor_csi_driver_b.Driver.{Args, Driver, Net, Licences, new_driver, check_driver, run}

-- The options of the command line, after `flag.Parse`.
pub record Options : Type 0 where
  pub node_id : Text
  pub endpoint : Text
  pub config_dir : Text
  pub role : Text
  pub version : Bool

-- What an option is that is not given.
abbrev pub default_options : Options
default_options = record {
  node_id = [];
  endpoint =
      bytes
        "unix:///var/lib/kubelet/plugins_registry/nexentastor-block-csi-driver.nexenta.com/csi.sock";
  config_dir = bytes "/config";
  role = [];
  version = false;
}

-- How the program ends: by `os.Exit(0)` or at the end of `main`, or by `Fatal`.
pub data Exit : Type 0 where
  done : Exit
  fatal : Error → Exit

-- The reads of the log of the options, which follow two pointers of each entry.
unfoldable pub log_entries : {S : Type 0} → List (Text × NsData) → Exec S Unit
log_entries [] = pure tt
log_entries ((name, d) ∷ entries) = do
  deref d.insecure_skip_verify
  deref d.dynamic_target_lun_allocation
  log_entries entries

-- A process that has no servers yet.
abbrev pub launched : {W R : Type 0} → Config → W → Process W R
launched c w = record { config = c; resolvers = []; node_resolvers = []; world = w }

module _ {W P R : Type 0} (ns : Ns W P R) (host : Host W) (net : Net W) (licences : Licences W P R)
    (write_file : Text → Text → Exec W Unit) (format_error : Error → Text) where
  -- `writeTerminationMessage`, whose own error is only logged, and `Fatal`.
  unfoldable pub die : Error → Exec W Exit
  die e =
      attempt
        (write_file (bytes "/dev/termination-log") ((bytes "\n" ++ format_error e) ++ bytes "\n"))
      >> pure (fatal e)

  -- The calls on the driver, each of which ends the program if it fails.
  unfoldable pub drive : Driver → Exec (Process W R) Unit
  drive d = check_driver ns licences >> run ns net d

  abbrev pub ending : Outcome (Unit {0}) × Process W R → Outcome Exit × W
  ending (ok u, s) = (ok done, s.world)
  ending (err e, s) = die e s.world
  ending (panic, s) = (panic, s.world)

  -- From the configuration on.
  unfoldable pub start : Options → Config → Exec W Exit
  start options c = do
    log_entries c.ns_map
    made ← attempt (
        new_driver (record {
          role = (parse_role options.role).role;
          node_id = options.node_id;
          endpoint = options.endpoint;
          config = some c;
          has_log = true;
        }))
    elim made [ failed e ↦ die e | got (d, config) ↦ λ w. ending (drive d (launched config w)) ]

  -- `main`: a role that is no role is only logged.
  unfoldable pub main : (Text → W → Tree × W) → Options → Exec W Exit
  main read_tree options = if options.version then pure done else (do
    loaded ← attempt (new_config host read_tree options.config_dir)
    elim loaded [
      | failed e ↦ pure (fatal (errorf "Cannot use config file: %s"))
      | got c ↦ start options c
    ])
