-- ===== src/Tests.antt =====
-- The theorems at work on concrete inputs.
mod Appliance
mod Fixtures
mod Deletion
mod Search
mod Data
mod Node
mod Mount
mod Mounts
mod Store
mod Session
mod Start
mod Growth
mod Staging
