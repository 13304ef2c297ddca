-- ===== src/Lifecycle.antt =====
-- Handlers of controllerServer.go in sequence: what one makes, another has to find.
use nexentastor_csi_driver_b.Base.{Text, is_empty-append, join, Map, Option, ◌∷◌, ◌++◌, ◌≡◌, inl}
use nexentastor_csi_driver_b.Exec.{ok}
use nexentastor_csi_driver_b.Config.{Host, NsData}
use nexentastor_csi_driver_b.Ns.{Ns}
use nexentastor_csi_driver_b.Process.{Process}
use nexentastor_csi_driver_b.Csi.{CreateRequest, ContentSource}
use nexentastor_csi_driver_b.Controller.Connect.{refreshed, last_secret}
use nexentastor_csi_driver_b.Controller.Request.Ids.{split_id_colon}
use nexentastor_csi_driver_b.Controller.Create.{created_volume}
use nexentastor_csi_driver_b.Controller.Volumes.{delete_volume}
use nexentastor_csi_driver_b.Controller.Volumes.Deletion.{delete_volume_malformed}

module _ {W P R : Type 0} (ns : Ns W P R) (host : Host W) where
  -- A volume whose path has a colon is never deleted: `DeleteVolume` of the ID that `CreateVolume` has
  -- answered with reports success and leaves the state as the refresh of the configuration made it.
  pub delete_volume_colon :
      (req : CreateRequest) (source : Option ContentSource)
      (zone config_name group before after : Text) (d : NsData) (secrets : Map Text)
      (s t : Process W R)
      → refreshed ns host (last_secret secrets) s ≡ (ok tt, t)
      → let made = created_volume req source zone d config_name group (before ++ (b':' ∷ after)) in
        delete_volume ns host (record { volume_id = made.volume_id; secrets = secrets }) s
        ≡ (ok tt, t)
  unfolding created_volume join
  delete_volume_colon req source zone config_name group before after d secrets s t fresh =
      delete_volume_malformed ns host _ s t fresh (is_empty-append config_name _ b':')
        (inl (split_id_colon config_name before after))
