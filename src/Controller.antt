-- ===== src/Controller.antt =====
-- pkg/driver/controllerServer.go: the CSI controller server.
pub mod Connect
pub mod Request
pub mod Snapshots
pub mod Volumes
pub mod Create
pub mod Listing
pub mod Capabilities
pub mod Session
pub mod Store
