-- ===== src/Script.antt =====
-- guest/script.c: the scripts of a skin.
pub mod Timers
