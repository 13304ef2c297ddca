-- ===== src/Controller/Session.antt =====
-- controllerServer.go: the controller over a sequence of requests.
pub mod Connect
pub mod Connected
pub mod Volumes
pub mod Started
pub mod Creation
pub mod Keeps
pub mod Reading
pub mod Invariant
use nexentastor_csi_driver_b.Base.{
  ℕ, Text, Map, has_key, All, true, Option, none, some, List, [], ◌∷◌, ◌≡◌,
}
use nexentastor_csi_driver_b.Exec.{Exec, Outcome, ok, pure, ◌>>=◌, ◌>>◌}
use nexentastor_csi_driver_b.Config.{Host, NsData}
use nexentastor_csi_driver_b.Config.Reload.Sound.{IsSound}
use nexentastor_csi_driver_b.Ns.{Ns}
use nexentastor_csi_driver_b.Process.{Process}
use nexentastor_csi_driver_b.Csi.{
  VolumeRequest, ExpandRequest, CreateRequest, SnapshotRequest, ValidateRequest, PublishRequest,
  ListVolumesRequest, ListSnapshotsRequest,
}
use nexentastor_csi_driver_b.Controller.Connect.{last_secret, refresh_config}
use nexentastor_csi_driver_b.Controller.Volumes.{
  delete_volume, controller_unpublish_volume, controller_expand_volume,
  validate_volume_capabilities, controller_publish_volume, get_capacity,
}
use nexentastor_csi_driver_b.Controller.Snapshots.{create_snapshot, delete_snapshot}
use nexentastor_csi_driver_b.Controller.Create.{create_volume}
use nexentastor_csi_driver_b.Controller.Listing.{list_volumes, list_snapshots}

-- The requests to the controller, each with its handler.
pub data Request : Type 0 where
  create : CreateRequest → Request
  delete unpublish : VolumeRequest → Request
  expand : ExpandRequest → Request
  snapshot : SnapshotRequest → Request
  remove_snapshot : Text → Request
  validate : ValidateRequest → Request
  publish : PublishRequest → Request
  capacity : Map Text → Request
  list : ListVolumesRequest → Request
  list_all_snapshots : ListSnapshotsRequest → Request

-- The secret that the handler refreshes the configuration with, if it does.
abbrev pub secret_of : Request → Option Text
secret_of (create r) = some (last_secret r.secrets)
secret_of (delete r) = some (last_secret r.secrets)
secret_of (unpublish r) = some (last_secret r.secrets)
secret_of (expand r) = some (last_secret r.secrets)
secret_of (snapshot r) = some []
secret_of (remove_snapshot id) = some []
secret_of (validate r) = some (last_secret r.secrets)
secret_of (publish r) = none
secret_of (capacity parameters) = none
secret_of (list r) = some []
secret_of (list_all_snapshots r) = some []

module _ {W P R : Type 0} (ns : Ns W P R) (host : Host W) where
  -- The refresh of a request, where it has one, succeeds.
  abbrev pub Refreshed : Option Text → Process W R → Type 0
  Refreshed none s = Unit
  Refreshed (some secret) s = (refresh_config ns host secret s).0 ≡ ok tt

module _ {W P R : Type 0} (ns : Ns W P R) (host : Host W) (sleep : ℕ → Exec W Unit) where
  -- The handler of a request, without its response.
  unfoldable pub serve : Request → Exec (Process W R) Unit
  serve (create r) = create_volume ns host r >> pure tt
  serve (delete r) = delete_volume ns host r
  serve (unpublish r) = controller_unpublish_volume ns sleep host r
  serve (expand r) = controller_expand_volume ns host r >> pure tt
  serve (snapshot r) = create_snapshot ns host r >> pure tt
  serve (remove_snapshot id) = delete_snapshot ns host id
  serve (validate r) = validate_volume_capabilities ns host r >> pure tt
  serve (publish r) = controller_publish_volume ns r
  serve (capacity parameters) = get_capacity ns parameters >> pure tt
  serve (list r) = list_volumes ns host r >> pure tt
  serve (list_all_snapshots r) = list_snapshots ns host r >> pure tt

  -- The state that a sequence of requests leaves, whatever the answers are.
  unfoldable pub serve_all : List Request → Process W R → Process W R
  serve_all [] s = s
  serve_all (r ∷ rs) s = serve_all rs (serve r s).1

  -- No refresh of the configuration fails on the way.
  unfoldable pub Refreshes : List Request → Process W R → Type 0
  Refreshes [] s = Unit
  Refreshes (r ∷ rs) s = Refreshed ns host (secret_of r) s × Refreshes rs (serve r s).1

-- Each of the entries has a resolver.
abbrev pub Covers : {R : Type 0} → List (Text × NsData) → Map R → Type 0
Covers es m = All (λ e. has_key e.0 m ≡ true) es

-- The configuration can be used, and each NexentaStor of it has a resolver.
pub record IsConnected {W R : Type 0} (s : Process W R) : Type 0 where
  pub sound : IsSound s.config
  pub covered : Covers s.config.ns_map s.resolvers
