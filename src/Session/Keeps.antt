-- ===== src/Session/Keeps.antt =====
-- The arms of `dispatch` and the invariant of the session.
pub mod Buffers
pub mod Created
pub mod Visits
pub mod Windows
pub mod Focus
pub mod Saving
pub mod Prompts
pub mod Exit
pub mod Agent
pub mod Targets
pub mod Answers
pub mod Minibuffer
pub mod Accepts
pub mod Commit
pub mod Arms
pub mod Run
pub mod Dispatch
