-- ===== src/Driver.antt =====
-- pkg/driver/driver.go: a driver process, from its arguments to its server.
pub mod Ready
pub mod Running
use nexentastor_csi_driver_b.Base.{
  Text, bytes, eq_text, is_empty, Bool, true, false, not, Option, none, some, List, [], ◌∷◌, ◌++◌,
  if◌then◌else◌,
}
use nexentastor_csi_driver_b.Exec.{
  Exec, Error, errorf, pure, fail, gets, guard, attempt, deref, or_fail, or_missing, Tried, got,
  failed, ◌>>=◌, ◌>>◌,
}
use nexentastor_csi_driver_b.FilePath.{join_path}
use nexentastor_csi_driver_b.Role.{Role, is_controller, is_node}
use nexentastor_csi_driver_b.Config.{Config, NsData}
use nexentastor_csi_driver_b.Ns.{Ns}
use nexentastor_csi_driver_b.Process.{Process, outside}
use nexentastor_csi_driver_b.Controller.Connect.{connect, failed_with, new_controller_server}
use nexentastor_csi_driver_b.Node.Connect.{new_node_server}

-- `Driver`, whose configuration is the one of the process.
pub record Driver : Type 0 where
  pub role : Role
  pub node_id : Text
  pub endpoint : Text

-- `Args`; of the log only whether there is one.
pub record Args : Type 0 where
  pub role : Role
  pub node_id : Text
  pub endpoint : Text
  pub config : Option Config
  pub has_log : Bool

-- `NewDriver`: the driver and the configuration that it keeps.
unfoldable pub new_driver : {S : Type 0} → Args → Exec S (Driver × Config)
new_driver args = do
  config ← or_missing (errorf "args.Config is required") args.config
  guard (not args.has_log) (errorf "args.Log is required")
  pure (record { role = args.role; node_id = args.node_id; endpoint = args.endpoint }, config)

-- What `url.Parse` gives of an endpoint.
pub record Url : Type 0 where
  pub scheme : Text
  pub host : Text
  pub path : Text

-- The services that are registered with the gRPC server.
pub data Service : Type 0 where
  identity_service controller_service node_service : Service

-- What `Run` uses of the packages `net/url`, `os`, `net` and `grpc`.
pub record Net (W : Type 0) : Type 0 where
  pub parse_url : Text → Option Url
  pub remove : Text → Exec W Unit
  pub is_not_exist : Error → Bool
  -- The network and the address.
  pub listen : Text → Text → Exec W Unit
  -- `server.Serve`, which comes back when the server stops.
  pub serve : List Service → Exec W Unit

-- What `Validate` asks of a NexentaStor, beside the calls of the handlers.
pub record Licences (W P R : Type 0) : Type 0 where
  -- `Resolver.Nodes`.
  pub nodes : R → List P
  pub get_license : P → Exec W Bool
  pub is_cluster : R → Exec W Bool

-- The path of the socket.
abbrev pub socket_of : Url → Text
socket_of url = if is_empty url.host then url.path else join_path url.host url.path

-- The services of a role.
unfoldable pub services_of : Role → List Service
services_of r =
    identity_service
    ∷ ((if is_controller r then controller_service ∷ [] else [])
        ++ (if is_node r then node_service ∷ [] else []))

-- `grpcErrorHandler`, which logs an error and passes the answer on.
unfoldable pub grpc_error_handler : {S A B : Type 0} → (A → Exec S B) → A → Exec S B
grpc_error_handler handler req = handler req

-- `len(nsResolver.Nodes) > 1`.
abbrev has_many : {P : Type 0} → List P → Bool
has_many [] = false
has_many (p ∷ []) = false
has_many (p ∷ q ∷ ps) = true

module _ {W P R : Type 0} (licences : Licences W P R) where
  -- The loop over the nodes of a cluster: an error or an invalid licence is only logged.
  unfoldable pub check_licences : List P → Exec (Process W R) Unit
  check_licences [] = pure tt
  check_licences (p ∷ ps) = attempt (outside (licences.get_license p)) >> check_licences ps

  -- The check of one resolver; that the nodes are no cluster is only logged.
  unfoldable pub check_cluster : R → Exec (Process W R) Unit
  check_cluster resolver = do
    check_licences (licences.nodes resolver)
    if has_many (licences.nodes resolver)
        then attempt (outside (licences.is_cluster resolver)) >> pure tt
        else pure tt

module _ {W P R : Type 0} (ns : Ns W P R) where
  -- The loop of `Validate`.
  unfoldable pub check_entries : Licences W P R → List (Text × NsData) → Exec (Process W R) Unit
  check_entries licences [] = pure tt
  check_entries licences ((name, d) ∷ entries) = do
    r ← connect ns d
    failed_with r.error
        (errorf "Driver validation failed, cannot create NexentaStor(s) resolver: %s")
    resolver ← deref r.value
    check_cluster licences resolver
    check_entries licences entries

  -- `Driver.Validate`.
  unfoldable pub check_driver : Licences W P R → Exec (Process W R) Unit
  check_driver licences = do entries ← gets (λ s. s.config.ns_map); check_entries licences entries

  abbrev pub or_gone : Net W → Tried (Unit {0}) → Exec (Process W R) Unit
  or_gone net (got removed) = pure tt
  or_gone net (failed e) =
      if net.is_not_exist e then pure tt else fail (errorf "Cannot remove unix domain socket: %s")

  -- The old socket goes, and a listener comes.
  unfoldable pub open_socket : Net W → Text → Exec (Process W R) Unit
  open_socket net endpoint = do
    url ← or_missing (errorf "Failed to parse endpoint: %s") (net.parse_url endpoint)
    guard (not (eq_text url.scheme (bytes "unix")))
        (errorf "Only unix domain sockets are supported")
    removed ← attempt (outside (net.remove (socket_of url)))
    or_gone net removed
    or_fail (λ e. errorf "Failed to create socket listener: %s")
        (outside (net.listen url.scheme (socket_of url)))

  -- The servers of a role, each with resolvers of its own.
  unfoldable pub make_servers : Role → Exec (Process W R) Unit
  make_servers role = do
    if is_controller role
        then or_fail (λ e. errorf "Failed to create ControllerServer: %s")
            (new_controller_server ns)
        else pure tt
    if is_node role
        then or_fail (λ e. errorf "Failed to create NodeServer: %s") (new_node_server ns)
        else pure tt

  -- `Driver.Run`.
  unfoldable pub run : Net W → Driver → Exec (Process W R) Unit
  run net d = do
    open_socket net d.endpoint
    make_servers d.role
    outside (net.serve (services_of d.role))
