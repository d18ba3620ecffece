-- ===== src/Padd.antt =====
-- guest/padd.c, the input daemon.
pub mod Codes
pub mod Controls
pub mod Modes
pub mod Floats
pub mod State
pub mod Mapping
pub mod Sync
pub mod Devices
pub mod Menu
pub mod Lifecycle
pub mod Maps
pub mod Watches
pub mod Effects
pub mod Bluetooth
pub mod Tests
