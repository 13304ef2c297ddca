-- ===== src/Config.antt =====
-- pkg/config/config.go: the driver's configuration, its validation and its refresh from a file or a
-- secret. The file system and the YAML parser are the parameter `host`.
pub mod Defs
pub mod Pattern
pub mod Check
pub mod Reload
unfoldable pub use Defs.*
unfoldable pub use Check.*
unfoldable pub use Reload.*
pub mod Find
