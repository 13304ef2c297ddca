-- ===== src/Identity.antt =====
-- pkg/driver/identityServer.go: the identity server, which shares the configuration of the process.
pub mod Stale
use nexentastor_csi_driver_b.Base.{Text, bytes, List, [], ◌∷◌}
use nexentastor_csi_driver_b.Exec.{Exec, status, failed_precondition, pure, or_fail, ◌>>=◌, ◌>>◌}
use nexentastor_csi_driver_b.Config.{Host, refresh}
use nexentastor_csi_driver_b.Process.{Process, shared}

-- `Name` of driver.go.
abbrev pub driver_name : Text
driver_name = bytes "nexentastor-block-csi-driver.nexenta.com"

pub record PluginInfo : Type 0 where
  pub name : Text
  pub vendor_version : Text

-- `GetPluginInfo`; the version is set by the linker.
unfoldable pub get_plugin_info : Text → PluginInfo
get_plugin_info version = record { name = driver_name; vendor_version = version }

pub data PluginCapability : Type 0 where
  controller_service volume_accessibility_constraints online_expansion : PluginCapability

-- `GetPluginCapabilities`.
unfoldable pub get_plugin_capabilities : List PluginCapability
get_plugin_capabilities =
    controller_service ∷ volume_accessibility_constraints ∷ online_expansion ∷ []

-- `Probe`: the change that `Refresh` reports is dropped.
unfoldable pub probe : {W R : Type 0} → Host W → Exec (Process W R) Unit
probe host = do
  or_fail (λ e. status failed_precondition "Cannot use config file: %s") (shared (refresh host []))
  pure tt
