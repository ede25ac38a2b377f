-- ===== src/Session.antt =====
-- The editor session, drei/session.py.
pub mod State
pub mod Names
pub mod Buffers
pub mod Windows
pub mod Saving
pub mod Choice
pub mod Exit
pub mod Agent
pub mod Minibuffer
pub mod Dispatch
pub mod Start
pub mod Invariant
pub mod Stored
pub mod Working
pub mod Keeps
pub mod Begins
pub mod Runs
pub mod Exits
pub mod Edits
pub mod Redos
pub mod Saves
pub mod Appends
pub mod Observation
pub mod Examples
