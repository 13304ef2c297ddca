-- ===== src/Controller/Capabilities.antt =====
-- controllerServer.go: what the controller says it can do.

use nexentastor_csi_driver_b.Base.{List, [], ◌∷◌, ◌++◌}
use nexentastor_csi_driver_b.Exec.{Exec, status, unimplemented, fail}

-- `csi.ControllerServiceCapability_RPC_Type`, as far as the driver names it.
pub data ControllerRpc : Type 0 where
  list_volumes create_delete_volume create_delete_snapshot list_snapshots : ControllerRpc
  clone_volume get_capacity expand_volume publish_unpublish_volume : ControllerRpc

-- `supportedControllerCapabilities`.
abbrev pub supported_controller_capabilities : List ControllerRpc
supported_controller_capabilities =
    list_volumes ∷ create_delete_volume ∷ create_delete_snapshot ∷ list_snapshots ∷ clone_volume
    ∷ get_capacity ∷ expand_volume ∷ publish_unpublish_volume ∷ []

-- `csi.ControllerServiceCapability`.
pub record ControllerCapability : Type 0 where
  pub rpc : ControllerRpc

-- `newControllerServiceCapability`.
unfoldable pub new_controller_service_capability : ControllerRpc → ControllerCapability
new_controller_service_capability c = record { rpc = c }

-- The loop of `ControllerGetCapabilities`.
unfoldable pub append_capabilities :
    List ControllerRpc → List ControllerCapability → List ControllerCapability
append_capabilities [] capabilities = capabilities
append_capabilities (c ∷ cs) capabilities =
    append_capabilities cs (capabilities ++ (new_controller_service_capability c ∷ []))

-- `ControllerGetCapabilities`.
unfoldable pub controller_get_capabilities : List ControllerCapability
controller_get_capabilities = append_capabilities supported_controller_capabilities []

-- `ControllerGetVolume`.
unfoldable pub controller_get_volume : {S A : Type 0} → Exec S A
controller_get_volume = fail (status unimplemented "method CreateVolume not implemented")
