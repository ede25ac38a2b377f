-- ===== src/Editing/Invariant.antt =====
-- The invariant of a buffer: its value and its editing state together.
use drei.Base.{◌+◌, ◌≤◌, ◌≡◌, true, false, some, length}
use drei.Buffer.{BufferValue, InBounds}
use drei.Editing.State.{BufferState, ordinary}
use drei.Editing.Bookkeeping.{undo_capacity}
use drei.Editing.Groups.{CanUndo, CanRedo}

-- The value lies in its text, the undo and redo stacks fit the text, together they hold at most a
-- hundred groups, the last yank's bounds lie in the text while a yank-pop may use them, and an
-- ordinary buffer that reports clean holds the text that was last read or written.
pub record IsValid (v : BufferValue) (st : BufferState) : Type 0 where
  pub in_bounds : InBounds v
  pub can_undo : CanUndo st.undo_history v.text
  pub can_redo : CanRedo st.undo_redo v.text
  pub capacity : length st.undo_history + length st.undo_redo ≤ undo_capacity
  pub yank_in :
      st.yank_active ≡ true → (st.yank_start ≤ st.yank_end) × (st.yank_end ≤ length v.text)
  pub clean : st.kind ≡ ordinary → v.modified ≡ false → st.saved_text ≡ some v.text
