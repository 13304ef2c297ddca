-- ===== src/Process.antt =====
-- The state of one driver process: driver.go makes the identity, the controller and the node server
-- with one shared `*config.Config`, and each of the latter two has its own map of resolvers.
pub mod Stays
use nexentastor_csi_driver_b.Base.{Text, Map, lookup, value_or, Option}
use nexentastor_csi_driver_b.Exec.{Exec, ◌>>=◌, deref}
use nexentastor_csi_driver_b.Config.{Config, NsData, no_ns_data, Shared}

pub record Process (W R : Type 0) : Type 0 where
  pub config : Config
  -- `ControllerServer.nsResolverMap`.
  pub resolvers : Map R
  -- `NodeServer.nsResolverMap`, whose values are pointers.
  pub node_resolvers : Map (Option R)
  pub world : W

module _ {W R A : Type 0} where
  -- A call of code outside the repository.
  abbrev pub outside : Exec W A → Exec (Process W R) A
  outside m s = let (r, w) = m s.world in (r, record s { world = w })

  -- A call of a method of the shared configuration.
  abbrev pub shared : Exec (Shared W) A → Exec (Process W R) A
  shared m s =
      let (r, t) = m (record { config = s.config; world = s.world }) in
      (r, record s { config = t.config; world = t.world })

  -- A call of a method of a provider, which panics on a nil provider.
  abbrev pub on : {P : Type 0} → Option P → (P → Exec W A) → Exec (Process W R) A
  on p call = deref p >>= λ q. outside (call q)

module _ {W R : Type 0} where
  -- `s.config.NsMap[name]`.
  abbrev pub ns_data : Text → Process W R → NsData
  ns_data name s = value_or no_ns_data (lookup name s.config.ns_map)
