-- ===== src/Overlay.antt =====
-- guest/overlay.c, the menu and the dashboard.
pub mod Players
pub mod Choices
pub mod Notices
pub mod Menu
pub mod Windows
