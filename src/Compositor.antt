-- ===== src/Compositor.antt =====
-- guest/compositor.c: the Wayland compositor.
pub mod Boxes
pub mod Displays
