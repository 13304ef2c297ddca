-- ===== src/Node.antt =====
-- pkg/driver/nodeServer.go: the CSI node server.
pub mod Connect
pub mod Context
pub mod Target
pub mod Device
pub mod System
pub mod Mount
pub mod Stage
pub mod Unstage
pub mod Growth
pub mod Info
