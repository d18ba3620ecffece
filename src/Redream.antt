-- ===== src/Redream.antt =====
-- app/recipes/redream/commands.c: what is loaded into redream to save and restore its states.
pub mod States
pub mod Commands
