-- ===== src/Editing.antt =====
-- The commands that edit one buffer: `_UndoGroup`, `_BufferState`, the editing arms of
-- `EditorSession.dispatch` and its helpers (session.py). Each takes the value and the state of the
-- buffer and the kill ring, and returns them anew with the events; the session installs them
-- (Session/Dispatch.antt). A stack (`undo_history`, `undo_redo`) has its newest group first here,
-- last in the source.
pub mod State
pub mod Text
pub mod Moves
pub mod Kills
pub mod Yanks
pub mod Undos
pub mod Bookkeeping
pub mod Groups
pub mod Invariant
pub mod Splice
pub mod Insertion
pub mod Deletion
pub mod Valid
pub mod Outcome
pub mod Keeps
pub mod Restores
pub mod Places
pub mod Again
pub mod Reinsert
