-- ===== src/Scene.antt =====
-- guest/scene.c: the retained scene that a skin draws.
pub mod Floats
pub mod Atlas
pub mod Glyphs
pub mod Lines
pub mod Tree
pub mod Values
pub mod Images
