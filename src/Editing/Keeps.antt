-- ===== src/Editing/Keeps.antt =====
-- The editing commands and the invariant of their buffer, one module for each kind of command.
pub mod Moves
pub mod Kills
pub mod Yanks
pub mod Undos
pub mod Kinds
