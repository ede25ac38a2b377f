-- ===== src/Editing/Valid/Patch.antt =====
-- The invariant of a buffer under commands that patch the text.
use drei.Base.{◌≡◌, ◌≤◌, true, [], ◌∷◌, take, length, length-take, arith}
use drei.Buffer.{BufferValue, InBounds}
use drei.Editing.State.{UndoGroup, BufferState}
use drei.Editing.Bookkeeping.{undo_capacity}
use drei.Editing.Groups.{Patches, CanUndo-take}
use drei.Editing.Invariant.{IsValid}

-- The group is pushed, the oldest beyond the capacity are forgotten, and nothing can be redone.
pub IsValid-patch :
    (v v' : BufferValue) (st st' : BufferState) (g : UndoGroup)
    → IsValid v st
    → Patches g v.text v'.text
    → InBounds v'
    → v'.modified ≡ true
    → st'.undo_history ≡ take undo_capacity (g ∷ st.undo_history)
    → st'.undo_redo ≡ []
    → (st'.yank_active ≡ true → (st'.yank_start ≤ st'.yank_end) × (st'.yank_end ≤ length v'.text))
    → IsValid v' st'
IsValid-patch v v' st st' g h p b m pushed cleared y = record {
  in_bounds = b;
  can_undo =
      rw pushed (CanUndo-take undo_capacity (g ∷ st.undo_history) v'.text (v.text, p, h.can_undo));
  can_redo = rw cleared tt;
  capacity = rw (pushed, cleared) (omega (arith, length-take undo_capacity (g ∷ st.undo_history)));
  yank_in = y;
  clean = λ k c. cc;
}
