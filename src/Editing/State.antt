-- ===== src/Editing/State.antt =====
-- `_UndoGroup`, `BufferKind` and `_BufferState` of session.py.
use drei.Base.{ℕ, Str, Bool, false, List, [], Option}
use drei.Files.LineEndings.{LineEnding}

-- The inverse patch of one command that changed text; read forward it is the redo patch.
pub record UndoGroup : Type 0 where
  pub start : ℕ
  pub removed_text : Str
  pub inserted_text : Str
  pub point_before : ℕ
  pub point_after : ℕ
  pub mark_before : Option ℕ
  pub mark_after : Option ℕ

pub data BufferKind : Type 0 where
  ordinary generated : BufferKind

-- `yank_bounds` is the pair of `yank_start` and `yank_end`.
pub record BufferState : Type 0 where
  pub undo_history : List UndoGroup
  pub undo_redo : List UndoGroup
  pub undo_descending : Bool
  pub yank_active : Bool
  pub yank_cursor : ℕ
  pub yank_start : ℕ
  pub yank_end : ℕ
  pub last_was_kill : Bool
  pub saved_text : Option Str
  pub eol : LineEnding
  pub kind : BufferKind

unfoldable pub new_state : Option Str → LineEnding → BufferKind → BufferState
new_state saved_text eol kind = record {
  undo_history = [];
  undo_redo = [];
  undo_descending = false;
  yank_active = false;
  yank_cursor = 0;
  yank_start = 0;
  yank_end = 0;
  last_was_kill = false;
  saved_text = saved_text;
  eol = eol;
  kind = kind;
}

unfoldable pub break_chains : BufferState → BufferState
break_chains st = record st { last_was_kill = false; yank_active = false; undo_descending = false }
